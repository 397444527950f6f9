-- ===== src/Acme/Orders/Requests.antt =====
-- acme/handler.go: a new order, a challenge response and a finalization as whole requests, run
-- with no other request between their parts.
use cactus.Prelude.{
  ℕ, ◌+◌, Bool, false, not, Option, none, some, List, [], ◌∷◌, ◌++◌, ◌&&◌, ◌||◌, length, take, ltb,
  ◌==◌, if◌then◌else◌, Result, ok, err, panic, stuck, ◌>>=◌, or_panic,
}
use cactus.Prelude.Dict.{lookup, str_eq}
use cactus.Acme.Names.{valid_dns_name}
use cactus.Acme.State.{
  pending, ready, is_status, dns, ip, other, Problem, malformed, incorrect_response,
  server_internal, Order, Authz, Challenge, State, put_order, get_authz, get_challenge,
}
use cactus.Acme.Orders.Handlers.{
  Config, NewOrderReq, Fresh, problem, pass_challenge, fail_challenge, pass_authz,
  maybe_order_ready, parse_bound, make_authzs,
}

unfoldable pub pass_challenges : ℕ → List (List ℕ) → State → State
unfolding pass_challenge
pass_challenges now [] s = s
pass_challenges now (id ∷ ids) s = pass_challenges now ids (pass_challenge now id s)

unfoldable pub chall_ids_of : List ℕ → State → List (List ℕ)
chall_ids_of aid s = elim (lookup aid s.authzs) [ none ↦ [] | some a ↦ a.chall_ids ]

-- The loop of the auto-pass mode
unfoldable pub pass_all : ℕ → ℕ → List (List ℕ) → State → State
unfolding pass_challenges chall_ids_of pass_authz
pass_all now expires [] s = s
pass_all now expires (aid ∷ aids) s =
    pass_all now expires aids (pass_challenges now (chall_ids_of aid s) (pass_authz expires aid s))

module _ (parse_ip : List ℕ → Option (List ℕ)) (parse_time : List ℕ → Option ℕ) (cfg : Config) where
  unfoldable pub new_order : Fresh → List ℕ → ℕ → NewOrderReq → ℕ → ℕ → List (List ℕ) → Order
  new_order fresh account_id now req not_before not_after authz_ids = record {
    id = fresh.order;
    account_id = account_id;
    status = if cfg.http01 then pending else ready;
    expires = now + cfg.order_lifetime;
    identifiers = req.identifiers;
    authz_ids = authz_ids;
    not_before = not_before;
    not_after = not_after;
    certificate_id = [];
    error = none;
  }

  -- From the authorizations on
  unfoldable pub place_order :
      Fresh
      → List ℕ
      → ℕ
      → NewOrderReq
      → ℕ
      → ℕ
      → Result Problem (List (List ℕ))
      → State
      → Result Problem Order × State
  unfolding new_order pass_all put_order
  place_order fresh account_id now req not_before not_after (ok aids) s =
      let o = new_order fresh account_id now req not_before not_after aids in
      let passed = pass_all now (now + cfg.order_lifetime) aids s in
      (ok o, put_order o (if cfg.http01 then s else passed))
  place_order fresh account_id now req not_before not_after (err p) s = (err p, s)
  place_order fresh account_id now req not_before not_after panic s = (panic, s)
  place_order fresh account_id now req not_before not_after stuck s = (stuck, s)

  unfoldable pub check_bounds : NewOrderReq → Result Problem (ℕ × ℕ)
  unfolding parse_bound
  check_bounds req = do
    not_before ← parse_bound parse_ip parse_time req.not_before
    not_after ← parse_bound parse_ip parse_time req.not_after
    ok (not_before, not_after)

  -- From the answer about notBefore and notAfter on: `aids` and `s'` are what the loop over the
  -- identifiers comes to in state `s`.
  unfoldable pub after_bounds :
      Fresh
      → List ℕ
      → ℕ
      → NewOrderReq
      → Result Problem (List (List ℕ))
      → State
      → State
      → Result Problem (ℕ × ℕ)
      → Result Problem Order × State
  unfolding place_order
  after_bounds fresh account_id now req aids s' s (ok (not_before, not_after)) =
      place_order fresh account_id now req not_before not_after aids s'
  after_bounds fresh account_id now req aids s' s (err p) = (err p, s)
  after_bounds fresh account_id now req aids s' s panic = (panic, s)
  after_bounds fresh account_id now req aids s' s stuck = (stuck, s)

  unfoldable pub handle_new_order :
      Fresh → List ℕ → ℕ → NewOrderReq → State → Result Problem Order × State
  unfolding check_bounds make_authzs after_bounds problem
  handle_new_order fresh account_id now req s =
      let made = make_authzs parse_ip parse_time fresh req.identifiers 0 s in
      if length req.identifiers == 0 || ltb 100 (length req.identifiers)
      then (err (problem malformed 400), s)
      else after_bounds fresh account_id now req made.0 made.1 s (check_bounds req)

abbrev challenge_path : List ℕ
challenge_path =
    b'/' ∷ b'.' ∷ b'w' ∷ b'e' ∷ b'l' ∷ b'l' ∷ b'-' ∷ b'k' ∷ b'n' ∷ b'o' ∷ b'w' ∷ b'n' ∷ b'/' ∷ b'a'
    ∷ b'c' ∷ b'm' ∷ b'e' ∷ b'-' ∷ b'c' ∷ b'h' ∷ b'a' ∷ b'l' ∷ b'l' ∷ b'e' ∷ b'n' ∷ b'g' ∷ b'e'
    ∷ b'/' ∷ []

module _ (key_authorization : List ℕ → List ℕ → Option (List ℕ))
    (get : List ℕ → List ℕ → Option (ℕ × Option (List ℕ))) (trim_space : List ℕ → List ℕ) where
  -- The answer of the host to a GET of the path: no answer, or a status and, where it can be read,
  -- the body
  unfoldable pub attempt_http01 : List ℕ → Challenge → Authz → Bool
  attempt_http01 jwk c az = elim az.identifier.kind [
    | dns ↦
        if not (valid_dns_name az.identifier.value)
        then false
        else elim (key_authorization c.token jwk) [
          | none ↦ false
          | some expected ↦ elim (get az.identifier.value (challenge_path ++ c.token)) [
            | none ↦ false
            | some (status, none) ↦ false
            | some (status, some body) ↦
                status == 200 && str_eq (trim_space (take 4096 body)) expected
          ]
        ]
    | ip ↦ false
    | other kind ↦ false
  ]

  module _ (cfg : Config) where
    -- What follows a successful attempt
    unfoldable pub accept_challenge : ℕ → Challenge → Authz → State → State
    unfolding pass_challenge pass_authz maybe_order_ready
    accept_challenge now c az s =
        maybe_order_ready az.order_id
          (pass_authz (now + cfg.order_lifetime) az.id (pass_challenge now c.id s))

    unfoldable pub respond : List ℕ → ℕ → Challenge → State → Result Problem Challenge × State
    unfolding get_authz attempt_http01 accept_challenge get_challenge problem fail_challenge
    respond jwk now c s = elim (lookup c.authz_id s.authzs) [
      | none ↦ (err (problem server_internal 500), s)
      | some az ↦
          let refused = problem incorrect_response 403 in
          let s' = accept_challenge now c az s in
          if attempt_http01 jwk c az
          then (or_panic (get_challenge c.id s'), s')
          else (err refused, fail_challenge refused c.id s)
    ]

    unfoldable pub handle_challenge : List ℕ → ℕ → List ℕ → State → Result Problem Challenge × State
    unfolding get_challenge respond problem
    handle_challenge jwk now id s = elim (lookup id s.challs) [
      | none ↦ (err (problem malformed 404), s)
      | some c ↦ if cfg.http01 && is_status c.status pending then respond jwk now c s else (ok c, s)
    ]
