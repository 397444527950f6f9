-- ===== src/Acme/Orders/Passing.antt =====
-- Marking an authorization valid (acme/handler.go).
use cactus.Prelude.{ℕ, ◌≡◌, inl, inr, refl, true, none, some, List, Bool-cases, Option-cases}
use cactus.Prelude.Dict.{Dict, lookup, insert, lookup-insert, str_eq}
use cactus.Acme.State.{valid, is_status, Authz, State, update_authz, update_challenge}
use cactus.Acme.Orders.Handlers.{valid_authz, pass_authz, pass_challenge}

-- What is valid stays valid.
abbrev pub Grown : Dict Authz → Dict Authz → Type 0
Grown before after =
    (aid : List ℕ) → valid_authz (lookup aid before) ≡ true → valid_authz (lookup aid after) ≡ true

pub pass_authz-lookup :
    (expires : ℕ) (id : List ℕ) (s : State) (a : Authz)
    → lookup id s.authzs ≡ some a
    → (pass_authz expires id s).authzs
      ≡ insert id (record a { status = valid; expires = expires }) s.authzs
unfolding pass_authz update_authz
pass_authz-lookup expires id s a found = rw (pass_authz, update_authz, found) refl

pub pass_authz-absent :
    (expires : ℕ) (id : List ℕ) (s : State)
    → lookup id s.authzs ≡ none
    → (pass_authz expires id s).authzs ≡ s.authzs
unfolding pass_authz update_authz
pass_authz-absent expires id s found = rw (pass_authz, update_authz, found) refl

pub pass_authz-Grown :
    (expires : ℕ) (id : List ℕ) (s : State) → Grown s.authzs (pass_authz expires id s).authzs
unfolding valid_authz is_status
pass_authz-Grown expires id s aid h = elim (Option-cases (lookup id s.authzs)) [
  | inl none_ ↦ rw (pass_authz-absent expires id s none_) h
  | inr (a, found) ↦
      let a' : Authz = record a { status = valid; expires = expires } in
      elim (Bool-cases (str_eq id aid)) [
        | inl same ↦
            rw (pass_authz-lookup expires id s a found, lookup-insert id aid a' s.authzs, same) refl
        | inr other ↦
            rw (pass_authz-lookup expires id s a found, lookup-insert id aid a' s.authzs, other) h
      ]
]

pub pass_challenge-authzs :
    (now : ℕ) (id : List ℕ) (s : State) → (pass_challenge now id s).authzs ≡ s.authzs
unfolding pass_challenge update_challenge
pass_challenge-authzs now id s = elim (Option-cases (lookup id s.challs)) [
  | inl none_ ↦ rw (pass_challenge, update_challenge, none_) refl
  | inr (c, found) ↦ rw (pass_challenge, update_challenge, found) refl
]
