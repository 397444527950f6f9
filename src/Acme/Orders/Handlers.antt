-- ===== src/Acme/Orders/Handlers.antt =====
-- acme/handler.go: handleNewOrder, handleChallenge, maybeOrderReady, handleFinalize and the
-- certificates' owner. `net.ParseIP`, `time.Parse`, the random identifiers, the fetch of a
-- challenge's URL and the issuer are parameters.
use cactus.Prelude.{
  ℕ, suc, Bool, true, false, Option, none, some, List, [], ◌∷◌, ◌&&◌, if◌then◌else◌, Result, ok,
  err, ◌>>=◌,
}
use cactus.Prelude.Dict.{Dict, lookup}
use cactus.Acme.Names.{valid_dns_name}
use cactus.Acme.State.{
  pending, ready, valid, invalid, is_status, IdentifierType, Identifier, dns, ip, other, Problem,
  ProblemType, malformed, rejected_identifier, Authz, Challenge, State, get_order, update_order,
  put_authz, update_authz, put_challenge, update_challenge,
}

pub record Config : Type 0 where
  pub http01 : Bool
  pub order_lifetime : ℕ

pub record NewOrderReq : Type 0 where
  pub identifiers : List Identifier
  pub not_before : List ℕ
  pub not_after : List ℕ

-- What newID and randomToken return in the course of a request
pub record Fresh : Type 0 where
  pub order : List ℕ
  pub chall : ℕ → List ℕ
  pub authz : ℕ → List ℕ
  pub token : ℕ → List ℕ

unfoldable pub problem : ProblemType → ℕ → Problem
problem kind status = record { kind = kind; status = status }

unfoldable pub set_ready : List ℕ → State → State
unfolding update_order
set_ready id s = (update_order id (λ o. record o { status = ready }) s).1

unfoldable pub pass_challenge : ℕ → List ℕ → State → State
unfolding update_challenge
pass_challenge now id s =
    (update_challenge id (λ c. record c { status = valid; validated = now }) s).1

unfoldable pub fail_challenge : Problem → List ℕ → State → State
unfolding update_challenge
fail_challenge p id s =
    (update_challenge id (λ c. record c { status = invalid; error = some p }) s).1

unfoldable pub pass_authz : ℕ → List ℕ → State → State
unfolding update_authz
pass_authz expires id s =
    (update_authz id (λ a. record a { status = valid; expires = expires }) s).1

-- The loop of maybeOrderReady
unfoldable pub valid_authz : Option Authz → Bool
valid_authz none = false
valid_authz (some a) = is_status a.status valid

unfoldable pub all_valid : List (List ℕ) → Dict Authz → Bool
unfolding valid_authz
all_valid [] authzs = true
all_valid (aid ∷ aids) authzs =
    let rest = all_valid aids authzs in valid_authz (lookup aid authzs) && rest

-- maybeOrderReady up to the update, with no other request between its reads of the state
unfoldable pub is_order_ready : List ℕ → State → Bool
unfolding get_order all_valid
is_order_ready id s = elim (lookup id s.orders) [
  | none ↦ false
  | some o ↦ is_status o.status pending && all_valid o.authz_ids s.authzs
]

unfoldable pub maybe_order_ready : List ℕ → State → State
unfolding is_order_ready set_ready
maybe_order_ready id s = if is_order_ready id s then set_ready id s else s

module _ (parse_ip : List ℕ → Option (List ℕ)) (parse_time : List ℕ → Option ℕ) where
  unfoldable pub reject_identifier : IdentifierType → List ℕ → Option Problem
  unfolding problem
  reject_identifier dns value =
      if valid_dns_name value then none else some (problem rejected_identifier 400)
  reject_identifier ip value = elim (parse_ip value) [
    | none ↦ some (problem malformed 400)
    | some parsed ↦ none
  ]
  reject_identifier (other kind) value = some (problem rejected_identifier 400)

  unfoldable pub parse_bound : List ℕ → Result Problem ℕ
  unfolding problem
  parse_bound [] = ok 0
  parse_bound (c ∷ cs) = elim (parse_time (c ∷ cs)) [
    | none ↦ err (problem malformed 400)
    | some t ↦ ok t
  ]

  module _ (fresh : Fresh) where
    unfoldable pub new_challenge : ℕ → Challenge
    new_challenge n = record {
      id = fresh.chall n;
      authz_id = fresh.authz n;
      status = pending;
      token = fresh.token n;
      validated = 0;
      error = none;
    }

    unfoldable pub new_authz : ℕ → Identifier → Authz
    new_authz n i = record {
      id = fresh.authz n;
      order_id = fresh.order;
      status = pending;
      identifier = i;
      chall_ids = fresh.chall n ∷ [];
      expires = 0;
    }

    -- The loop over the identifiers, from the n-th on: the authorizations' IDs. What was put for
    -- earlier identifiers stays where a later one is rejected.
    unfoldable pub make_authzs :
        List Identifier → ℕ → State → Result Problem (List (List ℕ)) × State
    unfolding reject_identifier new_challenge new_authz put_authz put_challenge
    make_authzs [] n s = (ok [], s)
    make_authzs (i ∷ is) n s =
        let (more, s') =
          make_authzs is (suc n) (put_authz (new_authz n i) (put_challenge (new_challenge n) s)) in
        elim (reject_identifier i.kind i.value) [
          | some p ↦ (err p, s)
          | none ↦ (more >>= λ aids. ok (fresh.authz n ∷ aids), s')
        ]
