-- ===== src/Acme/State.antt =====
-- acme/types.go and acme/state.go: accounts, orders, authorizations and challenges. Each function
-- is one hold of the state's mutex. An object is changed in place, so that its entry in the map
-- is what all pointers to it see. What `saveLocked` writes is not read again while the server runs.
-- Times are in nanoseconds, 0 for the zero time.
use cactus.Prelude.{
  ℕ, Bool, true, false, not, Option, none, some, List, if◌then◌else◌, Result, ok, err,
}
use cactus.Prelude.Dict.{Dict, lookup, insert}

pub data Status : Type 0 where
  pending ready processing valid invalid : Status

unfoldable pub is_status : Status → Status → Bool
is_status pending pending = true
is_status ready ready = true
is_status processing processing = true
is_status valid valid = true
is_status invalid invalid = true
is_status _ _ = false

pub data IdentifierType : Type 0 where
  dns ip : IdentifierType
  other : List ℕ → IdentifierType

pub record Identifier : Type 0 where
  pub kind : IdentifierType
  pub value : List ℕ

pub data ProblemType : Type 0 where
  malformed rejected_identifier incorrect_response order_not_ready bad_csr server_internal :
      ProblemType
  unauthorized account_does_not_exist bad_nonce bad_signature_algorithm : ProblemType

pub record Problem : Type 0 where
  pub kind : ProblemType
  pub status : ℕ

pub record Account : Type 0 where
  pub id : List ℕ
  pub is_valid : Bool
  pub contact : List (List ℕ)
  pub jwk_bytes : List ℕ

pub record Order : Type 0 where
  pub id : List ℕ
  pub account_id : List ℕ
  pub status : Status
  pub expires : ℕ
  pub identifiers : List Identifier
  pub authz_ids : List (List ℕ)
  pub not_before : ℕ
  pub not_after : ℕ
  pub certificate_id : List ℕ
  pub error : Option Problem

pub record Authz : Type 0 where
  pub id : List ℕ
  pub order_id : List ℕ
  pub status : Status
  pub identifier : Identifier
  pub chall_ids : List (List ℕ)
  pub expires : ℕ

pub record Challenge : Type 0 where
  pub id : List ℕ
  pub authz_id : List ℕ
  pub status : Status
  pub token : List ℕ
  pub validated : ℕ
  pub error : Option Problem

pub record State : Type 0 where
  pub accounts : Dict Account
  pub orders : Dict Order
  pub authzs : Dict Authz
  pub challs : Dict Challenge
  pub certs : Dict (List ℕ)

pub data AccountError : Type 0 where
  account_not_found save_failed : AccountError

-- The account is in the map also where saving it failed.
unfoldable pub get_or_create_account :
    List ℕ
    → List ℕ
    → List (List ℕ)
    → Bool
    → Bool
    → State
    → Result AccountError (Account × Bool) × State
get_or_create_account thumbprint jwk_bytes contact create save_fails s =
    let a : Account = record {
      id = thumbprint;
      is_valid = true;
      contact = contact;
      jwk_bytes = jwk_bytes;
    } in
    let s' : State = record s { accounts = insert thumbprint a s.accounts } in
    elim (lookup thumbprint s.accounts) [
      | some known ↦ (ok (known, false), s)
      | none ↦
          if not create
          then (err account_not_found, s)
          else if save_fails
          then (err save_failed, s')
          else (ok (a, true), s')
    ]

unfoldable pub put_order : Order → State → State
put_order o s = record s { orders = insert o.id o s.orders }

unfoldable pub get_order : List ℕ → State → Option Order
get_order id s = lookup id s.orders

unfoldable pub update_order : List ℕ → (Order → Order) → State → Bool × State
update_order id fn s = elim (lookup id s.orders) [
  | none ↦ (false, s)
  | some o ↦ (true, record s { orders = insert id (fn o) s.orders })
]

-- The order, whether it was claimed, and the state after it
unfoldable pub try_claim_ready_order : List ℕ → State → Option Order × Bool × State
try_claim_ready_order id s = elim (lookup id s.orders) [
  | none ↦ (none, false, s)
  | some o ↦
      let o' : Order = record o { status = processing } in
      if not (is_status o.status ready)
      then (some o, false, s)
      else (some o', true, record s { orders = insert id o' s.orders })
]

unfoldable pub put_authz : Authz → State → State
put_authz a s = record s { authzs = insert a.id a s.authzs }

unfoldable pub get_authz : List ℕ → State → Option Authz
get_authz id s = lookup id s.authzs

unfoldable pub update_authz : List ℕ → (Authz → Authz) → State → Bool × State
update_authz id fn s = elim (lookup id s.authzs) [
  | none ↦ (false, s)
  | some a ↦ (true, record s { authzs = insert id (fn a) s.authzs })
]

unfoldable pub put_challenge : Challenge → State → State
put_challenge c s = record s { challs = insert c.id c s.challs }

unfoldable pub get_challenge : List ℕ → State → Option Challenge
get_challenge id s = lookup id s.challs

unfoldable pub update_challenge : List ℕ → (Challenge → Challenge) → State → Bool × State
update_challenge id fn s = elim (lookup id s.challs) [
  | none ↦ (false, s)
  | some c ↦ (true, record s { challs = insert id (fn c) s.challs })
]
