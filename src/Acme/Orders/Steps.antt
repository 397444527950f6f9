-- ===== src/Acme/Orders/Steps.antt =====
-- What a request relies on after a turn (acme/handler.go).
use cactus.Prelude.{
  ℕ, suc, ◌+◌, ◌≡◌, inl, inr, refl, sym, ◌∙◌, Bool, true, false, Option, none, some, List, [], ◌∷◌,
  ◌++◌, append_assoc, append-nil, All, All-append, All-map, ◌&&◌, Bool-cases, Option-cases,
  if◌then◌else◌, arith,
}
use cactus.Prelude.Dict.{Dict, lookup, insert, lookup-insert_self}
use cactus.Acme.State.{
  Status, pending, ready, processing, is_status, Identifier, incorrect_response, Order, Authz,
  Challenge, State, put_order, put_authz, put_challenge, try_claim_ready_order,
}
use cactus.Acme.Orders.Handlers.{
  Config, problem, set_ready, pass_challenge, fail_challenge, pass_authz, valid_authz, new_authz,
  new_challenge, reject_identifier,
}
use cactus.Acme.Orders.Requests.{new_order, chall_ids_of}
use cactus.Acme.Orders.Finalize.{
  Issuance, issued, refused_csr, failed, finish_invalid, finish_valid, put_cert, order_input,
}
use cactus.Acme.Orders.Created.{Present, Passed, valid_of_test}
use cactus.Acme.Orders.Settled.{AllSettled, Waits, Checks, Holds, Grows, Waits-Grows}
use cactus.Acme.Orders.Turns.{
  is_new-none, quiet, put_authz-Safe, pass_authz-Safe, update_challenge-Safe, insert_order-Safe,
  update_order-Safe, pass_authz-now,
}
use cactus.Acme.Orders.Interleaved.{
  Creation, Response, Finalization, Request, put_challenge_of, put_authz_of, auto_pass_authz,
  auto_pass_challenge, put_order_of, find_challenge, find_authz, refuse, accept, validate_authz,
  find_order, check_authz, mark_ready, claim, finish_order, store_cert, done, next_check,
  seen_order, seen_authz, after_claim, seen_challenge, next_auto_pass, next_challenge,
  next_identifier, finish_as, step, stores_new,
}

next_check-Holds :
    (s : State) (id : List ℕ) (todo : List (List ℕ))
    → Checks s id todo
    → Holds s (next_check id todo)
unfolding next_check
next_check-Holds s id [] c = c
next_check-Holds s id (aid ∷ aids) c = c

seen_order-Holds :
    (s : State) (id : List ℕ) (o : Option Order)
    → lookup id s.orders ≡ o
    → Holds s (seen_order id o)
unfolding seen_order
seen_order-Holds s id none h = tt
seen_order-Holds s id (some o) h = elim (Bool-cases (is_status o.status pending)) [
  | inl waits ↦
      let from : Checks s id o.authz_ids = record {
        order = o;
        stored = h;
        before = [];
        split = refl;
        passed = tt;
      } in
      rw (seen_order, waits) (next_check-Holds s id o.authz_ids from)
  | inr other ↦ rw (seen_order, other) tt
]

valid_authz-Passed :
    (authzs : Dict Authz) (aid : List ℕ)
    → valid_authz (lookup aid authzs) ≡ true
    → Passed authzs aid
unfolding valid_authz
valid_authz-Passed authzs aid h = elim (Option-cases (lookup aid authzs)) [
  | inl none_ ↦ let h' : false ≡ true = rw (valid_authz, none_) at h in absurd (ground arith)
  | inr (a, found) ↦ (a, found, valid_of_test a.status (rw (valid_authz, found) at h))
]

Checks-next :
    (s : State) (id aid : List ℕ) (aids : List (List ℕ))
    → Checks s id (aid ∷ aids)
    → Passed s.authzs aid
    → Checks s id aids
Checks-next s id aid aids c now = record {
  order = c.order;
  stored = c.stored;
  before = c.before ++ (aid ∷ []);
  split = c.split ∙ sym (append_assoc c.before (aid ∷ []) aids);
  passed = All-append (Passed s.authzs) c.before (aid ∷ []) c.passed (now, tt);
}

check_authz-Holds :
    (s : State) (id aid : List ℕ) (aids : List (List ℕ))
    → Checks s id (aid ∷ aids)
    → Holds s (if valid_authz (lookup aid s.authzs) then next_check id aids else done)
check_authz-Holds s id aid aids c = elim (Bool-cases (valid_authz (lookup aid s.authzs))) [
  | inl fine ↦ rw fine (
      next_check-Holds s id aids
        (Checks-next s id aid aids c (valid_authz-Passed s.authzs aid fine)))
  | inr other ↦ rw other tt
]

Waits-next :
    (authzs : Dict Authz) (ids : List (List ℕ)) (aid : List ℕ) (aids : List (List ℕ))
    → Waits authzs ids (aid ∷ aids)
    → Passed authzs aid
    → Waits authzs ids aids
Waits-next authzs ids aid aids w now = record {
  before = w.before ++ (aid ∷ []);
  split = w.split ∙ sym (append_assoc w.before (aid ∷ []) aids);
  passed = All-append (Passed authzs) w.before (aid ∷ []) w.passed (now, tt);
  there = w.there.1;
}

seen_authz-Holds :
    (s : State) (t : Response) (c : Challenge) (az : Option Authz) → Holds s (seen_authz t c az)
unfolding seen_authz
seen_authz-Holds s t c none = tt
seen_authz-Holds s t c (some az) =
    elim (t.attempt c az)
      as (λ b.
        Holds s (if b then accept t c az else refuse (problem incorrect_response 403) c.id)) [
          | true ↦ tt
          | false ↦ tt
        ]

not_pending : (st : Status) → is_status st ready ≡ true → st ≡ pending → ⊥
unfolding is_status
not_pending st h e = let h' : is_status pending ready ≡ true = rw e at h in ground arith

module _ (parse_ip : List ℕ → Option (List ℕ)) (parse_time : List ℕ → Option ℕ) (cfg : Config) where
  seen_challenge-Holds :
      (s : State) (t : Response) (c : Option Challenge)
      → Holds s (seen_challenge parse_ip parse_time cfg t c)
  unfolding seen_challenge
  seen_challenge-Holds s t none = tt
  seen_challenge-Holds s t (some c) =
      elim (cfg.http01 && is_status c.status pending)
        as (λ b. Holds s (if b then find_authz t c else done)) [ true ↦ tt | false ↦ tt ]

  next_auto_pass-Holds :
      (s : State) (c : Creation) (o : Order) (todo : List (List ℕ))
      → Waits s.authzs o.authz_ids todo
      → Holds s (next_auto_pass parse_ip parse_time cfg c o todo)
  unfolding next_auto_pass
  next_auto_pass-Holds s c o [] w = inr (rw (w.split, append-nil w.before) w.passed)
  next_auto_pass-Holds s c o (aid ∷ aids) w = w

  next_challenge-Holds :
      (s : State) (c : Creation) (o : Order) (cids todo : List (List ℕ))
      → Waits s.authzs o.authz_ids todo
      → Holds s (next_challenge parse_ip parse_time cfg c o cids todo)
  unfolding next_challenge
  next_challenge-Holds s c o [] todo w = next_auto_pass-Holds s c o todo w
  next_challenge-Holds s c o (cid ∷ cids) todo w = w

  ordered-Holds :
      (s : State) (c : Creation) (o : Order) (aids : List (List ℕ)) (http01 : Bool)
      → o.status ≡ (if http01 then pending else ready)
      → Waits s.authzs o.authz_ids aids
      → Holds s (if http01 then put_order_of o else next_auto_pass parse_ip parse_time cfg c o aids)
  ordered-Holds s c o aids true status w = inl status
  ordered-Holds s c o aids false status w = next_auto_pass-Holds s c o aids w

  pub next_identifier-Holds :
      (s : State) (c : Creation) (is : List Identifier) (n : ℕ) (aids : List (List ℕ))
      → All (Present s.authzs) aids
      → Holds s (next_identifier parse_ip parse_time cfg c is n aids)
  unfolding next_identifier new_order
  next_identifier-Holds s c [] n aids h =
      let o : Order =
        new_order parse_ip parse_time cfg c.fresh c.account_id c.now c.req c.not_before c.not_after
          aids in
      ordered-Holds s c o aids cfg.http01 refl
        (record { before = []; split = refl; passed = tt; there = h })
  next_identifier-Holds s c (i ∷ is) n aids h =
      elim (Option-cases (reject_identifier parse_ip parse_time i.kind i.value)) [
        | inl fine ↦ rw (next_identifier, fine) h
        | inr (p, refused) ↦ rw (next_identifier, refused) tt
      ]

  abbrev pub Next : Request × State → State → Type 0
  Next (r', s') s = Grows s s' × AllSettled s' × Holds s' r'

  claim-Next :
      (f : Finalization) (id : List ℕ) (s : State)
      → AllSettled s
      → Next (step parse_ip parse_time cfg (claim f id) s) s
  unfolding step try_claim_ready_order after_claim
  claim-Next f id s settled = elim (Option-cases (lookup id s.orders)) [
    | inl none_ ↦
        let (g, a) = quiet s settled s refl refl in
        rw (step, try_claim_ready_order, none_) (g, a, tt)
    | inr (o, found) ↦ elim (Bool-cases (is_status o.status ready)) [
      | inr other ↦
          let (g, a) = quiet s settled s refl refl in
          rw (step, try_claim_ready_order, found, other) (g, a, tt)
      | inl is_ready ↦
          let o' : Order = record o { status = processing } in
          let s' : State = record s { orders = insert id o' s.orders } in
          let passed : All (Passed s.authzs) o.authz_ids = elim (settled id o found) [
            | inl waits ↦ absurd (not_pending o.status is_ready waits)
            | inr all ↦ all
          ] in
          let (g, a) =
            insert_order-Safe s settled id o'
              (λ q there. let it : o ≡ q = ground (arith, found, there) in rw (← it) refl)
              (inr passed) in
          let checks : Checks s' id [] = record {
            order = o';
            stored = lookup-insert_self id o' s.orders;
            before = o.authz_ids;
            split = sym (append-nil o.authz_ids);
            passed = passed;
          } in
          rw (step, try_claim_ready_order, found, is_ready) (g, a, checks)
    ]
  ]

  finish-Next :
      (f : Finalization) (id : List ℕ) (answer : Issuance) (s : State)
      → AllSettled s
      → Checks s id []
      → Next (finish_as parse_ip parse_time cfg f id answer s) s
  unfolding finish_as finish_valid finish_invalid
  finish-Next f id (issued der) s settled c =
      let (g, a) = update_order-Safe s settled id _ (λ o. refl) c in (g, a, tt)
  finish-Next f id refused_csr s settled c =
      let (g, a) = update_order-Safe s settled id _ (λ o. refl) c in (g, a, tt)
  finish-Next f id failed s settled c =
      let (g, a) = update_order-Safe s settled id _ (λ o. refl) c in (g, a, tt)

  pub step-Next :
      (r : Request) (s : State)
      → stores_new parse_ip parse_time cfg r s ≡ true
      → Holds s r
      → AllSettled s
      → Next (step parse_ip parse_time cfg r s) s
  unfolding step stores_new put_challenge put_order pass_challenge fail_challenge set_ready
      new_authz put_authz put_cert
  step-Next (put_challenge_of c i is n aids) s new h settled =
      let (g, a) =
        quiet s settled (put_challenge (new_challenge parse_ip parse_time c.fresh n) s) refl refl in
      (g, a, h)
  step-Next (put_authz_of c i is n aids) s new h settled =
      let az : Authz = new_authz parse_ip parse_time c.fresh n i in
      let s' : State = put_authz az s in
      let absent = is_new-none (lookup (c.fresh.authz n) s.authzs) new in
      let (g, a) = put_authz-Safe s settled az absent in
      let here : Present s'.authzs (c.fresh.authz n) =
        (az, lookup-insert_self (c.fresh.authz n) az s.authzs) in
      let aids' = aids ++ (c.fresh.authz n ∷ []) in
      let there : All (Present s'.authzs) aids' =
        All-append (Present s'.authzs) aids (c.fresh.authz n ∷ []) (All-map _ _ aids g.keeps h)
          (here, tt) in
      (g, a, next_identifier-Holds s' c is (suc n) aids' there)
  step-Next (auto_pass_authz c o aid aids) s new h settled =
      let expires = c.passed_at + cfg.order_lifetime in
      let s' : State = pass_authz expires aid s in
      let (g, a) = pass_authz-Safe s settled expires aid in
      let w = Waits-Grows s s' g o.authz_ids (aid ∷ aids) h in
      let now = pass_authz-now s settled expires aid h.there.0 in
      (
        g,
        a,
        next_challenge-Holds s' c o (chall_ids_of aid s) aids
            (Waits-next s'.authzs o.authz_ids aid aids w now),
      )
  step-Next (auto_pass_challenge c o cid cids aids) s new h settled =
      let s' : State = pass_challenge c.passed_at cid s in
      let (g, a) = update_challenge-Safe s settled cid _ in
      (g, a, next_challenge-Holds s' c o cids aids (Waits-Grows s s' g o.authz_ids aids h))
  step-Next (put_order_of o) s new h settled =
      let absent = is_new-none (lookup o.id s.orders) new in
      let none_there : (q : Order) → lookup o.id s.orders ≡ some q → o.authz_ids ≡ q.authz_ids =
        λ q there. absurd (ground (arith, absent, there)) in
      let (g, a) = insert_order-Safe s settled o.id o none_there h in (g, a, tt)
  step-Next (find_challenge t id) s new h settled =
      let (g, a) = quiet s settled s refl refl in
      (g, a, seen_challenge-Holds s t (lookup id s.challs))
  step-Next (find_authz t c) s new h settled =
      let (g, a) = quiet s settled s refl refl in
      (g, a, seen_authz-Holds s t c (lookup c.authz_id s.authzs))
  step-Next (refuse p id) s new h settled =
      let (g, a) = update_challenge-Safe s settled id _ in (g, a, tt)
  step-Next (accept t c az) s new h settled =
      let (g, a) = update_challenge-Safe s settled c.id _ in (g, a, tt)
  step-Next (validate_authz t az) s new h settled =
      let (g, a) = pass_authz-Safe s settled (t.now + cfg.order_lifetime) az.id in (g, a, tt)
  step-Next (find_order id) s new h settled =
      let (g, a) = quiet s settled s refl refl in
      (g, a, seen_order-Holds s id (lookup id s.orders) refl)
  step-Next (check_authz id aid aids) s new h settled =
      let (g, a) = quiet s settled s refl refl in (g, a, check_authz-Holds s id aid aids h)
  step-Next (mark_ready id) s new h settled =
      let (g, a) = update_order-Safe s settled id _ (λ o. refl) h in (g, a, tt)
  step-Next (claim f id) s new h settled = claim-Next f id s settled
  step-Next (finish_order f id o) s new h settled =
      finish-Next f id (f.issue (order_input parse_ip o)) s settled h
  step-Next (store_cert cert_id der) s new h settled =
      let (g, a) = quiet s settled (put_cert cert_id der s) refl refl in (g, a, tt)
  step-Next done s new h settled = let (g, a) = quiet s settled s refl refl in (g, a, tt)
