-- ===== src/Acme/Nonces/SingleUse.antt =====
-- A nonce is accepted once (acme/state.go, RFC 8555 §6.5).
use cactus.Prelude.{
  ℕ, ◌+◌, ◌≡◌, ◌≢◌, inl, inr, refl, false, none, List, [], ◌∷◌, ltb, Bool-cases, Option-cases,
  arith,
}
use cactus.Tlogx.{hash_eq, hash_eq_iff}
use cactus.Acme.Nonces.{
  Nonces, find, delete, gc_nonces, new_nonce, consume_nonce, Call, new_call, consume_call, run,
  nonce_lifetime,
}

hash_eq-ne : (a b : List ℕ) → a ≢ b → hash_eq a b ≡ false
hash_eq-ne a b ne = elim (Bool-cases (hash_eq a b)) [
  | inl same ↦ absurd (ne ((hash_eq_iff a b).0 same))
  | inr other ↦ other
]

find-delete : (id : List ℕ) (ns : Nonces) → find id (delete id ns) ≡ none
unfolding find delete
find-delete id [] = refl
find-delete id ((k, t) ∷ ns) = elim (Bool-cases (hash_eq id k)) [
  | inl same ↦ rw same (find-delete id ns)
  | inr other ↦ rw (other, other) (find-delete id ns)
]

-- Deleting keeps what is absent absent.
delete-absent :
    (id other : List ℕ) (ns : Nonces) → find id ns ≡ none → find id (delete other ns) ≡ none
unfolding find delete
delete-absent id other [] h = refl
delete-absent id other ((k, t) ∷ ns) h = elim (Bool-cases (hash_eq id k)) [
  | inl same ↦ absurd (ground arith)
  | inr differs ↦
      let rest = delete-absent id other ns (rw differs at h) in
      elim (Bool-cases (hash_eq other k)) [
        | inl gone ↦ rw gone rest
        | inr stays ↦ rw (stays, differs) rest
      ]
]

gc-absent :
    (id : List ℕ) (now : ℕ) (ns : Nonces) → find id ns ≡ none → find id (gc_nonces now ns) ≡ none
unfolding find gc_nonces
gc-absent id now [] h = refl
gc-absent id now ((k, t) ∷ ns) h = elim (Bool-cases (hash_eq id k)) [
  | inl same ↦ absurd (ground arith)
  | inr differs ↦
      let rest = gc-absent id now ns (rw differs at h) in
      elim (Bool-cases (ltb (t + nonce_lifetime) now)) [
        | inl old ↦ rw old rest
        | inr young ↦ rw (young, differs) rest
      ]
]

-- None of the calls issues the nonce.
abbrev pub NotIssued : List ℕ → List Call → Type 0
NotIssued id [] = Unit
NotIssued id (new_call k now gc_now ∷ calls) = (id ≢ k) × NotIssued id calls
NotIssued id (consume_call k now ∷ calls) = NotIssued id calls

consume-absent :
    (id other : List ℕ) (now : ℕ) (ns : Nonces)
    → find id ns ≡ none
    → find id ((consume_nonce other now ns).1) ≡ none
unfolding consume_nonce
consume-absent id other now ns h = elim (Option-cases (find other ns)) [
  | inl none_ ↦ rw (consume_nonce, none_) h
  | inr (t, found) ↦ rw (consume_nonce, found) (delete-absent id other ns h)
]

run-absent :
    (id : List ℕ) (calls : List Call) (ns : Nonces)
    → NotIssued id calls
    → find id ns ≡ none
    → find id (run calls ns) ≡ none
unfolding run new_nonce find
run-absent id [] ns never h = h
run-absent id (new_call k now gc_now ∷ calls) ns (ne, never) h =
    run-absent id calls (new_nonce k now gc_now ns) never (
      gc-absent id gc_now ((k, now) ∷ delete k ns)
        (rw (find, hash_eq-ne id k ne) (delete-absent id k ns h)))
run-absent id (consume_call k now ∷ calls) ns never h =
    run-absent id calls ((consume_nonce k now ns).1) never (consume-absent id k now ns h)

after_consume : (id : List ℕ) (now : ℕ) (ns : Nonces) → find id ((consume_nonce id now ns).1) ≡ none
unfolding consume_nonce
after_consume id now ns = elim (Option-cases (find id ns)) [
  | inl none_ ↦ rw (consume_nonce, none_) none_
  | inr (t, found) ↦ rw (consume_nonce, found) (find-delete id ns)
]

-- After ConsumeNonce on a nonce, whatever it answered, and after any calls that do not issue
-- that nonce anew, ConsumeNonce on it answers false and changes nothing.
pub consume-once :
    (id : List ℕ) (now again : ℕ) (ns : Nonces) (calls : List Call)
    → NotIssued id calls
    → let later = run calls ((consume_nonce id now ns).1) in
      consume_nonce id again later ≡ (false, later)
unfolding consume_nonce
consume-once id now again ns calls never =
    rw
      (
        consume_nonce,
        run-absent id calls ((consume_nonce id now ns).1) never (after_consume id now ns),
      )
      refl
