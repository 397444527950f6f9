-- ===== src/Log/Coverage.antt =====
-- The covering subtrees of log/log.go: a flush that succeeds signs subtrees that hold all of
-- its entries, and later flushes keep them for subtreeRetention.
use cactus.Prelude.{
  ℕ, ◌+◌, ◌≤◌, ◌<◌, ◌≡◌, inl, inr, refl, some, List, [], ◌∷◌, length, Result, ok, arith, Bool-cases,
  ltb, leb, ◌>>=◌, ◌&&◌, lt→ltb, ok_of_bind, All, Any, length-append, ◌==◌,
}
use cactus.Tlogx.{Hash, Subtree}
use cactus.Landmark.Lookup.{Some}
use cactus.Log.Proof.{read_hashes, subtree_hash_from_hr}
use cactus.Log.{
  Parts, Config, Flush, MtcSubtree, MtcSignature, SignedSubtree, lift, mint, retained,
  find_covering, attach, subtree_retention, sign_subtree, Error,
}

-- The subtree has a signature at least.
abbrev pub HasSignature : SignedSubtree → Type 0
HasSignature s = 1 ≤ length s.sigs

-- The subtree holds the index, and is kept until the deadline.
abbrev pub Keeps : ℕ → ℕ → SignedSubtree → Type 0
Keeps index deadline s =
    (s.subtree.start ≤ index)
    × (index < s.subtree.end)
    × (deadline ≤ s.committed_at + subtree_retention)

-- What one round of the loop over covers is made of
mint_round :
    (hashed : Result Error Hash) (signed : Hash → Result Error MtcSignature)
    (later : Result Error (List SignedSubtree)) (make : Hash → MtcSignature → SignedSubtree)
    (subs : List SignedSubtree)
    → (hashed >>= λ h. signed h >>= λ sig. later >>= λ rest. ok (make h sig ∷ rest)) ≡ ok subs
    → (h : Hash) × (sig : MtcSignature) × (rest : List SignedSubtree) × (hashed ≡ ok h)
      × (later ≡ ok rest)
      × (make h sig ∷ rest ≡ subs)
mint_round hashed signed later make subs e =
    let (h, eh, e1) =
      ok_of_bind hashed (λ h. signed h >>= λ sig. later >>= λ rest. ok (make h sig ∷ rest)) subs
        e in
    let (sig, es, e2) =
      ok_of_bind (signed h) (λ sig. later >>= λ rest. ok (make h sig ∷ rest)) subs e1 in
    let (rest, er, e3) = ok_of_bind later (λ rest. ok (make h sig ∷ rest)) subs e2 in
    (h, sig, rest, eh, er, ground arith)

module _ (parts : Parts) (cfg : Config) where
  pub mint-Keeps :
      (env : Flush) (hashes : List Hash) (ss : List Subtree) (subs : List SignedSubtree)
      → mint parts cfg env hashes ss ≡ ok subs
      → All HasSignature subs
        × ((index : ℕ) → Some index ss → Any (Keeps index (env.now + subtree_retention)) subs)
  unfolding mint
  mint-Keeps env hashes [] subs h =
      let e : [] ≡ subs = ground arith in rw (← e) (tt, (λ index holds. absurd holds))
  mint-Keeps env hashes (s ∷ ss) subs h =
      let made : Hash → MtcSignature → SignedSubtree = λ root sig. record {
        subtree = record { log_id = cfg.log_id; start = s.start; end = s.end; hash = root };
        sigs = sig ∷ [];
        committed_at = env.now;
      } in
      let (root, sig, minted, _, later, e) =
        mint_round
          (lift (
            subtree_hash_from_hr parts.sha256 parts.stored_hash_index (read_hashes hashes) 65
              s.start s.end))
          (λ root.
            sign_subtree parts cfg env
              (record { log_id = cfg.log_id; start = s.start; end = s.end; hash = root }))
          (mint parts cfg env hashes ss) made subs h in
      let (signed, held) = mint-Keeps env hashes ss minted later in
      rw (← e) (
        (omega arith, signed),
        (λ index holds. elim holds [
          | inl (above, below) ↦ inl (above, below, omega arith)
          | inr there ↦ inr (held index there)
        ]),
      )

pub retained-Keeps :
    (index deadline now : ℕ) (ss : List SignedSubtree)
    → now < deadline
    → Any (Keeps index deadline) ss
    → Any (Keeps index deadline) (retained now ss)
unfolding retained
retained-Keeps index deadline now [] lt h = absurd h
retained-Keeps index deadline now (s ∷ ss) lt (inl (above, below, kept)) =
    rw (lt→ltb now (s.committed_at + subtree_retention) (omega (arith, kept)))
      (inl (above, below, kept))
retained-Keeps index deadline now (s ∷ ss) lt (inr there) =
    let rest = retained-Keeps index deadline now ss lt there in
    elim (Bool-cases (ltb now (s.committed_at + subtree_retention))) [
      | inl young ↦ rw young (inr rest)
      | inr old ↦ rw old rest
    ]

pub retained-HasSignature :
    (now : ℕ) (ss : List SignedSubtree) → All HasSignature ss → All HasSignature (retained now ss)
unfolding retained
retained-HasSignature now [] h = tt
retained-HasSignature now (s ∷ ss) (signed, h) =
    elim (Bool-cases (ltb now (s.committed_at + subtree_retention))) [
      | inl young ↦ rw young (signed, retained-HasSignature now ss h)
      | inr old ↦ rw old (retained-HasSignature now ss h)
    ]

pub attach-Keeps :
    (st : MtcSubtree) (sigs : List MtcSignature) (ss : List SignedSubtree) (index deadline : ℕ)
    → Any (Keeps index deadline) ss
    → Any (Keeps index deadline) (attach st sigs ss)
unfolding attach
attach-Keeps st sigs [] index deadline h = absurd h
attach-Keeps st sigs (s ∷ ss) index deadline h =
    elim (Bool-cases (s.subtree.start == st.start && s.subtree.end == st.end)) [
      | inl same ↦ rw same h
      | inr other ↦ rw other (elim h [
        | inl here ↦ inl here
        | inr there ↦ inr (attach-Keeps st sigs ss index deadline there)
      ])
    ]

pub attach-HasSignature :
    (st : MtcSubtree) (sigs : List MtcSignature) (ss : List SignedSubtree)
    → All HasSignature ss
    → All HasSignature (attach st sigs ss)
unfolding attach
attach-HasSignature st sigs [] h = tt
attach-HasSignature st sigs (s ∷ ss) (signed, h) =
    elim (Bool-cases (s.subtree.start == st.start && s.subtree.end == st.end)) [
      | inl same ↦ rw same (omega (arith, signed, length-append s.sigs sigs), h)
      | inr other ↦ rw other (signed, attach-HasSignature st sigs ss h)
    ]

pub find_covering-Keeps :
    (index deadline : ℕ) (ss : List SignedSubtree)
    → All HasSignature ss
    → Any (Keeps index deadline) ss
    → (s : SignedSubtree) × (find_covering index ss ≡ some s)
      × (s.subtree.start ≤ index)
      × (index < s.subtree.end)
      × HasSignature s
unfolding find_covering
find_covering-Keeps index deadline [] h k = absurd k
find_covering-Keeps index deadline (s ∷ ss) (signed, h) k =
    elim (Bool-cases (leb s.subtree.start index && ltb index s.subtree.end)) [
      | inl here ↦ rw here (s, refl, ground arith, ground arith, signed)
      | inr not_here ↦ rw not_here (
          find_covering-Keeps index deadline ss h
            (elim k [ inl here ↦ absurd (ground arith) | inr there ↦ there ]))
    ]
