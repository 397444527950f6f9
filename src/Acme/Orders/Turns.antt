-- ===== src/Acme/Orders/Turns.antt =====
-- One turn of a request keeps what the others rely on (acme/handler.go).
use cactus.Prelude.{
  ℕ, ◌≡◌, inl, inr, refl, true, Option, none, some, List, [], append-nil, All, Bool-cases,
  Option-cases, arith,
}
use cactus.Prelude.Dict.{
  Dict, lookup, insert, lookup-insert, lookup-insert_self, str_eq, str_eq_iff,
}
use cactus.Acme.State.{
  valid, Order, Authz, Challenge, State, update_order, put_authz, update_authz, update_challenge,
}
use cactus.Acme.Orders.Handlers.{pass_authz}
use cactus.Acme.Orders.Passing.{pass_authz-lookup, pass_authz-absent}
use cactus.Acme.Orders.Created.{Present, Passed, Present-insert}
use cactus.Acme.Orders.Settled.{Settled, AllSettled, Checks, Grows, Settled-Grows}
use cactus.Acme.Orders.Interleaved.{is_new}

pub is_new-none {ℓ} : {A : Type ℓ} (o : Option A) → is_new o ≡ true → o ≡ none
unfolding is_new
is_new-none none h = refl
is_new-none (some a) h = absurd (ground arith)

module _ (authzs : Dict Authz) (id aid : List ℕ) (new : Authz) where
  Passed-insert : new.status ≡ valid → Passed authzs aid → Passed (insert id new authzs) aid
  Passed-insert status (a, found, is_valid) = elim (Bool-cases (str_eq id aid)) [
    | inl same ↦ (new, rw (lookup-insert id aid new authzs, same) refl, status)
    | inr other ↦ (a, rw (lookup-insert id aid new authzs, other) found, is_valid)
  ]

  Passed-insert-absent :
      lookup id authzs ≡ none → Passed authzs aid → Passed (insert id new authzs) aid
  Passed-insert-absent absent (a, found, is_valid) = elim (Bool-cases (str_eq id aid)) [
    | inl same ↦
        let it : id ≡ aid = (str_eq_iff id aid).0 same in
        let gone : lookup aid authzs ≡ none = rw it at absent in absurd (ground arith)
    | inr other ↦ (a, rw (lookup-insert id aid new authzs, other) found, is_valid)
  ]

-- A turn's state that the invariant covers
abbrev pub Safe : State → State → Type 0
Safe s s' = Grows s s' × AllSettled s'

module _ (s : State) (settled : AllSettled s) where
  -- The orders are as before, and the authorizations have grown.
  same_orders :
      (s' : State)
      → s'.orders ≡ s.orders
      → ((aid : List ℕ) → Passed s.authzs aid → Passed s'.authzs aid)
      → ((aid : List ℕ) → Present s.authzs aid → Present s'.authzs aid)
      → Safe s s'
  same_orders s' same passes keeps =
      let grows : Grows s s' = record {
        passes = passes;
        keeps = keeps;
        orders = λ id o found. (o, rw same found, refl);
      } in
      (grows, λ id o found. Settled-Grows s s' grows o (settled id o (rw same at found)))

  pub quiet : (s' : State) → s'.authzs ≡ s.authzs → s'.orders ≡ s.orders → Safe s s'
  quiet s' authzs orders = same_orders s' orders (λ aid h. rw authzs h) (λ aid h. rw authzs h)

  pub put_authz-Safe : (a : Authz) → lookup a.id s.authzs ≡ none → Safe s (put_authz a s)
  unfolding put_authz
  put_authz-Safe a absent =
      same_orders (put_authz a s) refl (λ aid. Passed-insert-absent s.authzs a.id aid a absent)
        (λ aid. Present-insert s.authzs a.id a aid)

  pub pass_authz-orders : (expires : ℕ) (id : List ℕ) → (pass_authz expires id s).orders ≡ s.orders
  unfolding pass_authz update_authz
  pass_authz-orders expires id = elim (Option-cases (lookup id s.authzs)) [
    | inl none_ ↦ rw (pass_authz, update_authz, none_) refl
    | inr (a, found) ↦ rw (pass_authz, update_authz, found) refl
  ]

  pub pass_authz-Safe : (expires : ℕ) (id : List ℕ) → Safe s (pass_authz expires id s)
  pass_authz-Safe expires id =
      let orders = pass_authz-orders expires id in
      elim (Option-cases (lookup id s.authzs)) [
        | inl none_ ↦ quiet (pass_authz expires id s) (pass_authz-absent expires id s none_) orders
        | inr (a, found) ↦
            let a' : Authz = record a { status = valid; expires = expires } in
            let after = pass_authz-lookup expires id s a found in
            same_orders (pass_authz expires id s) orders
              (λ aid h. rw after (Passed-insert s.authzs id aid a' refl h))
              (λ aid h. rw after (Present-insert s.authzs id a' aid h))
      ]

  update_challenge-same :
      (id : List ℕ) (fn : Challenge → Challenge)
      → ((update_challenge id fn s).1.authzs ≡ s.authzs)
        × ((update_challenge id fn s).1.orders ≡ s.orders)
  unfolding update_challenge
  update_challenge-same id fn = elim (Option-cases (lookup id s.challs)) [
    | inl none_ ↦ rw (update_challenge, none_) (refl, refl)
    | inr (c, found) ↦ rw (update_challenge, found) (refl, refl)
  ]

  pub update_challenge-Safe :
      (id : List ℕ) (fn : Challenge → Challenge) → Safe s (update_challenge id fn s).1
  update_challenge-Safe id fn =
      let (authzs, orders) = update_challenge-same id fn in
      quiet (update_challenge id fn s).1 authzs orders

  -- An order in the place of one with the same authorizations, or of none
  pub insert_order-Safe :
      (id : List ℕ) (new : Order)
      → ((o : Order) → lookup id s.orders ≡ some o → new.authz_ids ≡ o.authz_ids)
      → Settled s.authzs new
      → Safe s (record s { orders = insert id new s.orders })
  insert_order-Safe id new same fine = (
    record {
      passes = λ aid h. h;
      keeps = λ aid h. h;
      orders = λ j o found. elim (Bool-cases (str_eq id j)) [
        | inl it ↦
            let here : lookup id s.orders ≡ some o = rw ((str_eq_iff id j).0 it) found in
            (new, rw (lookup-insert id j new s.orders, it) refl, same o here)
        | inr other ↦ (o, rw (lookup-insert id j new s.orders, other) found, refl)
      ];
    },
    λ j o found. elim (Bool-cases (str_eq id j)) [
      | inl it ↦
          let found' : some new ≡ some o = rw (lookup-insert id j new s.orders, it) at found in
          let is_new_ : new ≡ o = ground arith in rw (← is_new_) fine
      | inr other ↦ settled j o (rw (lookup-insert id j new s.orders, other) at found)
    ],
  )

  Checks-All-Passed : (id : List ℕ) (c : Checks s id []) → All (Passed s.authzs) c.order.authz_ids
  Checks-All-Passed id c = rw (c.split, append-nil c.before) c.passed

  -- An update of an order that has passed
  pub update_order-Safe :
      (id : List ℕ) (fn : Order → Order)
      → ((o : Order) → (fn o).authz_ids ≡ o.authz_ids)
      → Checks s id []
      → Safe s (update_order id fn s).1
  unfolding update_order
  update_order-Safe id fn keeps c =
      let passed : All (Passed s.authzs) (fn c.order).authz_ids =
        rw (keeps c.order) (Checks-All-Passed id c) in
      let same : (o : Order) → lookup id s.orders ≡ some o → (fn c.order).authz_ids ≡ o.authz_ids =
        λ o found.
          let it : c.order ≡ o = ground (arith, c.stored, found) in rw (← it) (keeps c.order) in
      rw (update_order, c.stored) (insert_order-Safe id (fn c.order) same (inr passed))

  -- The authorization that UpdateAuthz was for has passed.
  pub pass_authz-now :
      (expires : ℕ) (id : List ℕ) → Present s.authzs id → Passed (pass_authz expires id s).authzs id
  pass_authz-now expires id (a, found) =
      let a' : Authz = record a { status = valid; expires = expires } in
      rw (pass_authz-lookup expires id s a found) (a', lookup-insert_self id a' s.authzs, refl)
