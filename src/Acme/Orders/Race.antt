-- ===== src/Acme/Orders/Race.antt =====
-- Holds of the mutex in maybeOrderReady (acme/handler.go): what its checks saw can be over when its
-- update comes.
use cactus.Prelude.{
  ℕ, ◌≡◌, inl, inr, refl, true, some, List, [], ◌∷◌, ◌++◌, ◌&&◌, Option, Option-cases, length,
  arith, ap, ◌∙◌,
}
use cactus.Prelude.Dict.{lookup, insert, lookup-insert_self}
use cactus.Acme.State.{
  pending, ready, processing, is_status, Order, State, update_order, try_claim_ready_order,
}
use cactus.Acme.Orders.Handlers.{Config, valid_authz, all_valid, is_order_ready, set_ready}
use cactus.Acme.Orders.Interleaved.{
  Finalization, Request, find_order, check_authz, mark_ready, claim, finish_order, done, next_check,
  seen_order, after_claim, step, stores_new, turn, Event, turn_of, interleave,
}

abbrev with_order : List ℕ → Order → State → State
with_order id o s = record s { orders = insert id o s.orders }

abbrev marked : Order → Order
marked o = record o { status = ready }

abbrev taken : Order → Order
taken o = record o { status = processing }

-- A turn of the n-th request for each authorization
abbrev checks : ℕ → List (List ℕ) → List Event
checks n [] = []
checks n (aid ∷ aids) = turn_of n ∷ checks n aids

set_ready-found :
    (id : List ℕ) (s : State) (o : Order)
    → lookup id s.orders ≡ some o
    → set_ready id s ≡ with_order id (marked o) s
unfolding set_ready update_order
set_ready-found id s o found = rw (set_ready, update_order, found) refl

claim-found :
    (id : List ℕ) (s : State) (o : Order)
    → lookup id s.orders ≡ some o
    → is_status o.status ready ≡ true
    → try_claim_ready_order id s ≡ (some (taken o), true, with_order id (taken o) s)
unfolding try_claim_ready_order
claim-found id s o found is_ready = rw (try_claim_ready_order, found, is_ready) refl

order_of_ready :
    (id : List ℕ) (s : State)
    → is_order_ready id s ≡ true
    → (o : Order) × (lookup id s.orders ≡ some o)
      × (is_status o.status pending ≡ true)
      × (all_valid o.authz_ids s.authzs ≡ true)
unfolding is_order_ready
order_of_ready id s h = elim (Option-cases (lookup id s.orders)) [
  | inl none_ ↦ absurd (ground arith)
  | inr (o, found) ↦
      let h' : (is_status o.status pending && all_valid o.authz_ids s.authzs) ≡ true =
        rw (is_order_ready, found) at h in
      (o, found, ground arith, ground arith)
]

module _ (parse_ip : List ℕ → Option (List ℕ)) (parse_time : List ℕ → Option ℕ) (cfg : Config) where
  abbrev run : List Event → List Request → State → List Request × State
  run = interleave parse_ip parse_time cfg

  turn-at :
      (front rs : List Request) (r r' : Request) (s s' : State)
      → stores_new parse_ip parse_time cfg r s ≡ true
      → step parse_ip parse_time cfg r s ≡ (r', s')
      → turn parse_ip parse_time cfg (length front) (front ++ (r ∷ rs)) s ≡ (front ++ (r' ∷ rs), s')
  unfolding turn
  turn-at [] rs r r' s s' new steps = rw (turn, new, steps) refl
  turn-at (x ∷ front) rs r r' s s' new steps =
      ap (λ w. (x ∷ w.0, w.1)) (turn-at front rs r r' s s' new steps)

  -- A turn of the request behind `front`
  run-at :
      (front : List Request) (later : List Event) (rs : List Request) (r r' : Request)
      (s s' : State)
      → stores_new parse_ip parse_time cfg r s ≡ true
      → step parse_ip parse_time cfg r s ≡ (r', s')
      → run (turn_of (length front) ∷ later) (front ++ (r ∷ rs)) s
        ≡ run later (front ++ (r' ∷ rs)) s'
  unfolding interleave
  run-at front later rs r r' s s' new steps =
      ap (λ w. run later w.0 w.1) (turn-at front rs r r' s s' new steps)

  checks-at :
      (front : List Request) (id : List ℕ) (aids : List (List ℕ)) (later : List Event)
      (rs : List Request) (s : State)
      → all_valid aids s.authzs ≡ true
      → run (checks (length front) aids ++ later) (front ++ (next_check id aids ∷ rs)) s
        ≡ run later (front ++ (mark_ready id ∷ rs)) s
  unfolding next_check step stores_new all_valid
  checks-at front id [] later rs s h = refl
  checks-at front id (aid ∷ aids) later rs s h =
      let now : valid_authz (lookup aid s.authzs) ≡ true = ground arith in
      let steps : step parse_ip parse_time cfg (check_authz id aid aids) s
          ≡ (next_check id aids, s) =
        rw (step, now) refl in
      run-at front (checks (length front) aids ++ later) rs (check_authz id aid aids)
        (next_check id aids) s s refl steps
      ∙ checks-at front id aids later rs s (ground arith)

  find_order-step :
      (id : List ℕ) (o : Order) (s : State)
      → lookup id s.orders ≡ some o
      → is_status o.status pending ≡ true
      → step parse_ip parse_time cfg (find_order id) s ≡ (next_check id o.authz_ids, s)
  unfolding step seen_order
  find_order-step id o s found waits = rw (step, seen_order, found, waits) refl

  mark_ready-step :
      (id : List ℕ) (o : Order) (s : State)
      → lookup id s.orders ≡ some o
      → step parse_ip parse_time cfg (mark_ready id) s ≡ (done, with_order id (marked o) s)
  unfolding step
  mark_ready-step id o s found = ap (λ s'. (done, s')) (set_ready-found id s o found)

  claim-step :
      (f : Finalization) (id : List ℕ) (o : Order) (s : State)
      → lookup id s.orders ≡ some o
      → is_status o.status ready ≡ true
      → step parse_ip parse_time cfg (claim f id) s
        ≡ (finish_order f id (taken o), with_order id (taken o) s)
  unfolding step after_claim
  claim-step f id o s found is_ready =
      ap (λ w. (after_claim f id w.0 w.1, w.2)) (claim-found id s o found is_ready)

  -- The updates of two requests past their checks, each with a finalization after it
  abbrev updates : List Event
  updates = turn_of 0 ∷ turn_of 2 ∷ turn_of 1 ∷ turn_of 3 ∷ []

  updates_claim :
      (id : List ℕ) (f g : Finalization) (o : Order) (s : State)
      → lookup id s.orders ≡ some o
      → (s' : State) × (run updates (mark_ready id ∷ mark_ready id ∷ claim f id ∷ claim g id ∷ []) s
          ≡ (
            done
                ∷ done
                ∷ finish_order f id (taken (marked o))
                ∷ finish_order g id (taken (marked o))
                ∷ [],
            s',
          ))
  unfolding stores_new is_status interleave
  updates_claim id f g o s found =
      let m : Order = marked o in
      let s1 : State = with_order id m s in
      let s2 : State = with_order id (taken m) s1 in
      let s3 : State = with_order id m s2 in
      let s4 : State = with_order id (taken m) s3 in
      let won : Request = finish_order f id (taken m) in
      let won' : Request = finish_order g id (taken m) in
      let marks = mark_ready id in
      (
        s4,
        run-at [] (turn_of 2 ∷ turn_of 1 ∷ turn_of 3 ∷ []) (marks ∷ claim f id ∷ claim g id ∷ [])
              marks done s s1 refl (mark_ready-step id o s found)
            ∙ run-at (done ∷ marks ∷ []) (turn_of 1 ∷ turn_of 3 ∷ []) (claim g id ∷ []) (claim f id)
                won s1 s2 refl (claim-step f id m s1 (lookup-insert_self id m s.orders) refl)
            ∙ run-at (done ∷ []) (turn_of 3 ∷ []) (won ∷ claim g id ∷ []) marks done s2 s3 refl
                (mark_ready-step id (taken m) s2 (lookup-insert_self id (taken m) s1.orders))
            ∙ run-at (done ∷ done ∷ won ∷ []) [] [] (claim g id) won' s3 s4 refl
                (claim-step g id m s3 (lookup-insert_self id m s2.orders) refl),
      )

  -- Where an order is pending with its authorizations valid, two challenge responses that are at
  -- their call of maybeOrderReady and two finalizations of the order can take turns such that both
  -- finalizations have claimed the order and go on to issue.
  pub find_order-claimed :
      (id : List ℕ) (f g : Finalization) (s : State)
      → is_order_ready id s ≡ true
      → (events : List Event) × (o : Order) × ((interleave parse_ip parse_time cfg events
            (find_order id ∷ find_order id ∷ claim f id ∷ claim g id ∷ [])
            s).0
          ≡ done ∷ done ∷ finish_order f id o ∷ finish_order g id o ∷ [])
  unfolding stores_new
  find_order-claimed id f g s h =
      let (o, found, waits, passed) = order_of_ready id s h in
      let finals : List Request = claim f id ∷ claim g id ∷ [] in
      let last = checks 1 o.authz_ids ++ updates in
      let after = checks 0 o.authz_ids ++ last in
      let sees = find_order-step id o s found waits in
      let checking = next_check id o.authz_ids in
      let (s', ends) = updates_claim id f g o s found in
      (
        turn_of 0 ∷ turn_of 1 ∷ after,
        taken (marked o),
        ap (λ w. w.0)
            (run-at [] (turn_of 1 ∷ after) (find_order id ∷ finals) (find_order id) checking s s
                refl sees
              ∙ run-at (checking ∷ []) after finals (find_order id) checking s s refl sees
              ∙ checks-at [] id o.authz_ids last (checking ∷ finals) s passed
              ∙ checks-at (mark_ready id ∷ []) id o.authz_ids updates finals s passed
              ∙ ends),
      )
