-- ===== src/Acme/Orders/Outcomes.antt =====
-- No order leaves `pending` before all its authorizations are valid, however the requests
-- interleave (acme/handler.go, RFC 8555 §7.1.6).
use cactus.Prelude.{
  ℕ, zero, suc, ◌≡◌, inl, inr, refl, true, false, Option, some, List, [], ◌∷◌, length, All, All-map,
  ◌||◌, ltb, ◌==◌, Bool-cases, if◌then◌else◌, Result, ok, err, panic, stuck, arith,
}
use cactus.Prelude.Dict.{lookup}
use cactus.Acme.State.{Problem, Order, State}
use cactus.Acme.Orders.Handlers.{Config}
use cactus.Acme.Orders.Requests.{check_bounds}
use cactus.Acme.Orders.Settled.{Settled, AllSettled, Holds, Grows, Holds-Grows}
use cactus.Acme.Orders.Turns.{quiet}
use cactus.Acme.Orders.Interleaved.{
  Creation, Request, done, step, stores_new, turn, Arrival, order_wanted, challenge_answered,
  order_finalized, with_bounds, begin, Event, arrives, turn_of, interleave, empty_state,
}
use cactus.Acme.Orders.Steps.{step-Next, next_identifier-Holds}

module _ (parse_ip : List ℕ → Option (List ℕ)) (parse_time : List ℕ → Option ℕ) (cfg : Config) where
  -- The requests between their holds, and the state
  abbrev Sound : List Request × State → Type 0
  Sound (rs, s) = All (Holds s) rs × AllSettled s

  turn-Sound :
      (n : ℕ) (rs : List Request) (s : State)
      → All (Holds s) rs
      → AllSettled s
      → Grows s (turn parse_ip parse_time cfg n rs s).1
        × Sound (turn parse_ip parse_time cfg n rs s)
  unfolding turn
  turn-Sound n [] s h settled = let (g, a) = quiet s settled s refl refl in (g, (tt, settled))
  turn-Sound zero (r ∷ rs) s (hr, hs) settled =
      elim (Bool-cases (stores_new parse_ip parse_time cfg r s)) [
        | inl new ↦
            let s' : State = (step parse_ip parse_time cfg r s).1 in
            let (g, a, h') = step-Next parse_ip parse_time cfg r s new hr settled in
            rw (turn, new) (g, ((h', All-map _ _ rs (Holds-Grows s s' g) hs), a))
        | inr used ↦
            let (g, a) = quiet s settled s refl refl in rw (turn, used) (g, ((hr, hs), settled))
      ]
  turn-Sound (suc n) (r ∷ rs) s (hr, hs) settled =
      let s' : State = (turn parse_ip parse_time cfg n rs s).1 in
      let (g, (all, a)) = turn-Sound n rs s hs settled in (g, ((Holds-Grows s s' g r hr, all), a))

  with_bounds-Holds :
      (s : State) (c : Creation) (r : Result Problem (ℕ × ℕ))
      → Holds s (with_bounds parse_ip parse_time cfg c r)
  unfolding with_bounds
  with_bounds-Holds s c (ok (not_before, not_after)) =
      next_identifier-Holds parse_ip parse_time cfg s
        (record c { not_before = not_before; not_after = not_after }) c.req.identifiers 0 [] tt
  with_bounds-Holds s c (err p) = tt
  with_bounds-Holds s c panic = tt
  with_bounds-Holds s c stuck = tt

  begin-Holds : (s : State) (a : Arrival) → Holds s (begin parse_ip parse_time cfg a)
  unfolding begin
  begin-Holds s (challenge_answered t id) = tt
  begin-Holds s (order_finalized f id) = tt
  begin-Holds s (order_wanted c) =
      let first =
        with_bounds parse_ip parse_time cfg c (check_bounds parse_ip parse_time cfg c.req) in
      elim (length c.req.identifiers == 0 || ltb 100 (length c.req.identifiers))
        as (λ b. Holds s (if b then done else first)) [
          | true ↦ tt
          | false ↦ with_bounds-Holds s c (check_bounds parse_ip parse_time cfg c.req)
        ]

  interleave-Sound :
      (events : List Event) (rs : List Request) (s : State)
      → All (Holds s) rs
      → AllSettled s
      → Sound (interleave parse_ip parse_time cfg events rs s)
  unfolding interleave
  interleave-Sound [] rs s h settled = (h, settled)
  interleave-Sound (arrives a ∷ later) rs s h settled =
      interleave-Sound later (begin parse_ip parse_time cfg a ∷ rs) s (begin-Holds s a, h) settled
  interleave-Sound (turn_of n ∷ later) rs s h settled =
      let (g, (h', settled')) = turn-Sound n rs s h settled in
      interleave-Sound later (turn parse_ip parse_time cfg n rs s).0
        (turn parse_ip parse_time cfg n rs s).1 h' settled'

  -- However the requests of a server that started empty arrive and interleave between their holds
  -- of the mutex, each order of the state is pending, or each of its authorizations is there with
  -- status valid. A turn that would store under an ID in use is not taken.
  pub interleave-Settled :
      (events : List Event) (id : List ℕ) (o : Order)
      → let s = (interleave parse_ip parse_time cfg events [] empty_state).1 in
        lookup id s.orders ≡ some o → Settled s.authzs o
  unfolding lookup
  interleave-Settled events id o found =
      let nothing : AllSettled empty_state = λ i q there. absurd (ground arith) in
      (interleave-Sound events [] empty_state tt nothing).1 id o found
