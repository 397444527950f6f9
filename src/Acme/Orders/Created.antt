-- ===== src/Acme/Orders/Created.antt =====
-- A new order's status and its authorizations agree (acme/handler.go).
use cactus.Prelude.{
  ℕ, ◌≡◌, inl, inr, refl, ◌⊎◌, Bool, true, false, Option, some, List, All, Bool-cases, arith,
  Result, length,
}
use cactus.Prelude.Dict.{Dict, lookup, insert, lookup-insert, str_eq}
use cactus.Acme.State.{
  Status, pending, ready, processing, valid, invalid, is_status, Identifier, Problem, Order, Authz,
  State, put_authz, put_challenge,
}
use cactus.Acme.Orders.Handlers.{
  Config, NewOrderReq, Fresh, pass_authz, make_authzs, new_authz, new_challenge,
}
use cactus.Acme.Orders.Requests.{pass_challenges, chall_ids_of}

-- There is an authorization of the ID.
abbrev pub Present : Dict Authz → List ℕ → Type 0
Present authzs aid = (a : Authz) × (lookup aid authzs ≡ some a)

-- There is an authorization of the ID, and it is valid.
abbrev pub Passed : Dict Authz → List ℕ → Type 0
Passed authzs aid = (a : Authz) × (lookup aid authzs ≡ some a) × (a.status ≡ valid)

pub valid_of_test : (st : Status) → is_status st valid ≡ true → st ≡ valid
unfolding is_status
valid_of_test pending h = absurd (ground arith)
valid_of_test ready h = absurd (ground arith)
valid_of_test processing h = absurd (ground arith)
valid_of_test valid h = refl
valid_of_test invalid h = absurd (ground arith)

pub Present-insert :
    (authzs : Dict Authz) (id : List ℕ) (new : Authz) (aid : List ℕ)
    → Present authzs aid
    → Present (insert id new authzs) aid
Present-insert authzs id new aid (a, found) = elim (Bool-cases (str_eq id aid)) [
  | inl same ↦ (new, rw (lookup-insert id aid new authzs, same) refl)
  | inr other ↦ (a, rw (lookup-insert id aid new authzs, other) found)
]

-- One turn of the auto-pass loop
abbrev pass_one : ℕ → ℕ → List ℕ → State → State
pass_one now expires aid s = pass_challenges now (chall_ids_of aid s) (pass_authz expires aid s)

-- What is in the state of a new order
pub record PlacedOrder (http01 : Bool) (identifiers : List Identifier) (o : Order) (s : State)
    : Type 0 where
  pub stored : lookup o.id s.orders ≡ some o
  pub asked : o.identifiers ≡ identifiers
  pub one_each : length o.authz_ids ≡ length identifiers
  pub by_mode :
      ((http01 ≡ true) × (o.status ≡ pending) × All (Present s.authzs) o.authz_ids)
      ⊎ ((http01 ≡ false) × (o.status ≡ ready) × All (Passed s.authzs) o.authz_ids)

module _ (parse_ip : List ℕ → Option (List ℕ)) (parse_time : List ℕ → Option ℕ)
    (fresh : Fresh) where
  abbrev made : List Identifier → ℕ → State → Result Problem (List (List ℕ)) × State
  made = make_authzs parse_ip parse_time fresh

  abbrev with_authz : Identifier → ℕ → State → State
  with_authz i n s =
      put_authz (new_authz parse_ip parse_time fresh n i)
        (put_challenge (new_challenge parse_ip parse_time fresh n) s)

  module _ (cfg : Config) (account_id : List ℕ) (now : ℕ) (req : NewOrderReq) where
    -- What the loop over the identifiers comes to
    record Authorized (aids : List (List ℕ)) (s : State) : Type 0 where
      present : All (Present s.authzs) aids
      one_each : length aids ≡ length req.identifiers
