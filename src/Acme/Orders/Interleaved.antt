-- ===== src/Acme/Orders/Interleaved.antt =====
-- Concurrent requests (acme/handler.go): each stands between two holds of the mutex, with what it
-- keeps in its variables, and a turn of a request is its next hold with what the handler does until
-- the one after. A request of unknown authentication, or whose body does not decode, never comes to
-- a hold. What a challenge's host and the issuer answer is part of the request. newID gives 128
-- random bits: a turn that would store an authorization or an order under an ID in use is not taken.
use cactus.Prelude.{
  ℕ, zero, suc, ◌+◌, Bool, true, false, Option, none, some, List, [], ◌∷◌, ◌++◌, ◌&&◌, ◌||◌, length,
  ltb, ◌==◌, if◌then◌else◌, Result, ok,
}
use cactus.Prelude.Dict.{lookup}
use cactus.Acme.State.{
  pending, is_status, Identifier, Problem, incorrect_response, Order, Authz, Challenge, State,
  put_order, try_claim_ready_order, put_authz, put_challenge,
}
use cactus.Acme.Orders.Handlers.{
  Config, NewOrderReq, Fresh, problem, set_ready, pass_challenge, fail_challenge, pass_authz,
  valid_authz, reject_identifier, new_challenge, new_authz,
}
use cactus.Acme.Orders.Requests.{chall_ids_of, new_order, check_bounds}
use cactus.Acme.Orders.Finalize.{
  OrderInput, Issuance, issued, refused_csr, failed, finish_invalid, finish_valid, put_cert,
  issue_problem, order_input,
}

-- A request for a new order, with the clock at its start and at the auto-pass, and the bounds that
-- were parsed
pub record Creation : Type 0 where
  pub fresh : Fresh
  pub account_id : List ℕ
  pub now : ℕ
  pub passed_at : ℕ
  pub req : NewOrderReq
  pub not_before : ℕ
  pub not_after : ℕ

-- A response to a challenge, with the answer of attemptHTTP01
pub record Response : Type 0 where
  pub attempt : Challenge → Authz → Bool
  pub now : ℕ

pub record Finalization : Type 0 where
  pub cert_id : List ℕ
  pub issue : OrderInput → Issuance

-- A request by its next hold of the mutex. The lists are what the loops have still to do.
pub data Request : Type 0 where
  put_challenge_of put_authz_of :
      Creation → Identifier → List Identifier → ℕ → List (List ℕ) → Request
  auto_pass_authz : Creation → Order → List ℕ → List (List ℕ) → Request
  auto_pass_challenge : Creation → Order → List ℕ → List (List ℕ) → List (List ℕ) → Request
  put_order_of : Order → Request
  find_challenge : Response → List ℕ → Request
  find_authz : Response → Challenge → Request
  refuse : Problem → List ℕ → Request
  accept : Response → Challenge → Authz → Request
  validate_authz : Response → Authz → Request
  find_order : List ℕ → Request
  check_authz : List ℕ → List ℕ → List (List ℕ) → Request
  mark_ready : List ℕ → Request
  claim : Finalization → List ℕ → Request
  finish_order : Finalization → List ℕ → Order → Request
  store_cert : List ℕ → List ℕ → Request
  done : Request

unfoldable pub is_new {ℓ} : {A : Type ℓ} → Option A → Bool
is_new none = true
is_new (some a) = false

unfoldable pub next_check : List ℕ → List (List ℕ) → Request
next_check id [] = mark_ready id
next_check id (aid ∷ aids) = check_authz id aid aids

-- maybeOrderReady, after GetOrder. An order is stored under its ID.
unfoldable pub seen_order : List ℕ → Option Order → Request
unfolding next_check
seen_order id none = done
seen_order id (some o) = if is_status o.status pending then next_check id o.authz_ids else done

unfoldable pub seen_authz : Response → Challenge → Option Authz → Request
unfolding problem
seen_authz t c none = done
seen_authz t c (some az) =
    if t.attempt c az then accept t c az else refuse (problem incorrect_response 403) c.id

unfoldable pub after_claim : Finalization → List ℕ → Option Order → Bool → Request
after_claim f id none won = done
after_claim f id (some o) won = if won then finish_order f id o else done

-- What comes in
pub data Arrival : Type 0 where
  order_wanted : Creation → Arrival
  challenge_answered : Response → List ℕ → Arrival
  order_finalized : Finalization → List ℕ → Arrival

pub data Event : Type 0 where
  arrives : Arrival → Event
  turn_of : ℕ → Event

module _ (parse_ip : List ℕ → Option (List ℕ)) (parse_time : List ℕ → Option ℕ) (cfg : Config) where
  unfoldable pub seen_challenge : Response → Option Challenge → Request
  seen_challenge t none = done
  seen_challenge t (some c) =
      if cfg.http01 && is_status c.status pending then find_authz t c else done

  unfoldable pub next_auto_pass : Creation → Order → List (List ℕ) → Request
  next_auto_pass c o [] = put_order_of o
  next_auto_pass c o (aid ∷ aids) = auto_pass_authz c o aid aids

  unfoldable pub next_challenge : Creation → Order → List (List ℕ) → List (List ℕ) → Request
  unfolding next_auto_pass
  next_challenge c o [] aids = next_auto_pass c o aids
  next_challenge c o (cid ∷ cids) aids = auto_pass_challenge c o cid cids aids

  -- The loop over the identifiers, and what follows it
  unfoldable pub next_identifier : Creation → List Identifier → ℕ → List (List ℕ) → Request
  unfolding new_order next_auto_pass reject_identifier
  next_identifier c [] n aids =
      let o =
        new_order parse_ip parse_time cfg c.fresh c.account_id c.now c.req c.not_before c.not_after
          aids in
      if cfg.http01 then put_order_of o else next_auto_pass c o aids
  next_identifier c (i ∷ is) n aids = elim (reject_identifier parse_ip parse_time i.kind i.value) [
    | some p ↦ done
    | none ↦ put_challenge_of c i is n aids
  ]

  unfoldable pub finish_as : Finalization → List ℕ → Issuance → State → Request × State
  unfolding finish_valid finish_invalid issue_problem
  finish_as f id (issued der) s = (store_cert f.cert_id der, finish_valid f.cert_id id s)
  finish_as f id refused_csr s = (done, finish_invalid (issue_problem refused_csr) id s)
  finish_as f id failed s = (done, finish_invalid (issue_problem failed) id s)

  -- One hold of the mutex
  unfoldable pub step : Request → State → Request × State
  unfolding next_identifier new_challenge new_authz put_challenge put_authz next_challenge
      chall_ids_of pass_authz pass_challenge put_order seen_challenge seen_authz fail_challenge
      seen_order valid_authz next_check set_ready try_claim_ready_order after_claim order_input
      finish_as put_cert
  step (put_challenge_of c i is n aids) s =
      (put_authz_of c i is n aids, put_challenge (new_challenge parse_ip parse_time c.fresh n) s)
  step (put_authz_of c i is n aids) s = (
    next_identifier c is (suc n) (aids ++ (c.fresh.authz n ∷ [])),
    put_authz (new_authz parse_ip parse_time c.fresh n i) s,
  )
  step (auto_pass_authz c o aid aids) s = (
    next_challenge c o (chall_ids_of aid s) aids,
    pass_authz (c.passed_at + cfg.order_lifetime) aid s,
  )
  step (auto_pass_challenge c o cid cids aids) s =
      (next_challenge c o cids aids, pass_challenge c.passed_at cid s)
  step (put_order_of o) s = (done, put_order o s)
  step (find_challenge t id) s = (seen_challenge t (lookup id s.challs), s)
  step (find_authz t c) s = (seen_authz t c (lookup c.authz_id s.authzs), s)
  step (refuse p id) s = (done, fail_challenge p id s)
  step (accept t c az) s = (validate_authz t az, pass_challenge t.now c.id s)
  step (validate_authz t az) s =
      (find_order az.order_id, pass_authz (t.now + cfg.order_lifetime) az.id s)
  step (find_order id) s = (seen_order id (lookup id s.orders), s)
  step (check_authz id aid aids) s =
      (if valid_authz (lookup aid s.authzs) then next_check id aids else done, s)
  step (mark_ready id) s = (done, set_ready id s)
  step (claim f id) s =
      let (o, won, s') = try_claim_ready_order id s in (after_claim f id o won, s')
  step (finish_order f id o) s = finish_as f id (f.issue (order_input parse_ip o)) s
  step (store_cert cert_id der) s = (done, put_cert cert_id der s)
  step done s = (done, s)

  -- Whether the ID that the turn stores under is new
  unfoldable pub stores_new : Request → State → Bool
  unfolding is_new
  stores_new (put_authz_of c i is n aids) s = is_new (lookup (c.fresh.authz n) s.authzs)
  stores_new (put_order_of o) s = is_new (lookup o.id s.orders)
  stores_new _ s = true

  -- A turn of the n-th request
  unfoldable pub turn : ℕ → List Request → State → List Request × State
  unfolding stores_new step
  turn n [] s = ([], s)
  turn zero (r ∷ rs) s =
      let (r', s') = step r s in if stores_new r s then (r' ∷ rs, s') else (r ∷ rs, s)
  turn (suc n) (r ∷ rs) s = let (rs', s') = turn n rs s in (r ∷ rs', s')

  unfoldable pub with_bounds : Creation → Result Problem (ℕ × ℕ) → Request
  unfolding next_identifier
  with_bounds c (ok (not_before, not_after)) =
      next_identifier (record c { not_before = not_before; not_after = not_after })
        c.req.identifiers 0 []
  with_bounds c _ = done

  -- A request up to its first hold; the bounds of a Creation are set here.
  unfoldable pub begin : Arrival → Request
  unfolding check_bounds with_bounds
  begin (order_wanted c) =
      if length c.req.identifiers == 0 || ltb 100 (length c.req.identifiers)
      then done
      else with_bounds c (check_bounds parse_ip parse_time cfg c.req)
  begin (challenge_answered t id) = find_challenge t id
  begin (order_finalized f id) = claim f id

  unfoldable pub interleave : List Event → List Request → State → List Request × State
  unfolding begin turn
  interleave [] rs s = (rs, s)
  interleave (arrives a ∷ later) rs s = interleave later (begin a ∷ rs) s
  interleave (turn_of n ∷ later) rs s = let (rs', s') = turn n rs s in interleave later rs' s'

abbrev pub empty_state : State
empty_state = record { accounts = []; orders = []; authzs = []; challs = []; certs = [] }
