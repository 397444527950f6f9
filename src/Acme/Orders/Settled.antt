-- ===== src/Acme/Orders/Settled.antt =====
-- What a request relies on between two holds of the mutex (acme/handler.go), and that it outlasts
-- what other requests do.
use cactus.Prelude.{ℕ, ◌≡◌, ◌⊎◌, inl, inr, ◌∙◌, List, [], ◌∷◌, ◌++◌, some, All, All-map}
use cactus.Prelude.Dict.{Dict, lookup}
use cactus.Acme.State.{pending, Order, Authz, State}
use cactus.Acme.Orders.Created.{Present, Passed}
use cactus.Acme.Orders.Interleaved.{
  Request, put_challenge_of, put_authz_of, auto_pass_authz, auto_pass_challenge, put_order_of,
  find_challenge, find_authz, refuse, accept, validate_authz, find_order, check_authz, mark_ready,
  claim, finish_order, store_cert, done,
}

-- An order is pending, or all its authorizations are there with status valid.
abbrev pub Settled : Dict Authz → Order → Type 0
Settled authzs o = (o.status ≡ pending) ⊎ All (Passed authzs) o.authz_ids

abbrev pub AllSettled : State → Type 0
AllSettled s = (id : List ℕ) (o : Order) → lookup id s.orders ≡ some o → Settled s.authzs o

-- Of the authorizations `ids`, those before `todo` are valid and those of `todo` are there.
pub record Waits (authzs : Dict Authz) (ids todo : List (List ℕ)) : Type 0 where
  pub before : List (List ℕ)
  pub split : ids ≡ before ++ todo
  pub passed : All (Passed authzs) before
  pub there : All (Present authzs) todo

-- Of the authorizations of a stored order, those before `todo` are valid.
pub record Checks (s : State) (id : List ℕ) (todo : List (List ℕ)) : Type 0 where
  pub order : Order
  pub stored : lookup id s.orders ≡ some order
  pub before : List (List ℕ)
  pub split : order.authz_ids ≡ before ++ todo
  pub passed : All (Passed s.authzs) before

abbrev pub Holds : State → Request → Type 0
Holds s (put_challenge_of c i is n aids) = All (Present s.authzs) aids
Holds s (put_authz_of c i is n aids) = All (Present s.authzs) aids
Holds s (auto_pass_authz c o aid aids) = Waits s.authzs o.authz_ids (aid ∷ aids)
Holds s (auto_pass_challenge c o cid cids aids) = Waits s.authzs o.authz_ids aids
Holds s (put_order_of o) = Settled s.authzs o
Holds s (check_authz id aid aids) = Checks s id (aid ∷ aids)
Holds s (mark_ready id) = Checks s id []
Holds s (finish_order f id o) = Checks s id []
Holds s _ = Unit {0}

-- What no turn undoes
pub record Grows (s s' : State) : Type 0 where
  pub passes : (aid : List ℕ) → Passed s.authzs aid → Passed s'.authzs aid
  pub keeps : (aid : List ℕ) → Present s.authzs aid → Present s'.authzs aid
  pub orders :
      (id : List ℕ) (o : Order)
      → lookup id s.orders ≡ some o
      → (o' : Order) × (lookup id s'.orders ≡ some o') × (o'.authz_ids ≡ o.authz_ids)

module _ (s s' : State) (g : Grows s s') where
  pub Settled-Grows : (o : Order) → Settled s.authzs o → Settled s'.authzs o
  Settled-Grows o (inl waits) = inl waits
  Settled-Grows o (inr passed) = inr (All-map _ _ o.authz_ids g.passes passed)

  pub Waits-Grows : (ids todo : List (List ℕ)) → Waits s.authzs ids todo → Waits s'.authzs ids todo
  Waits-Grows ids todo w = record {
    before = w.before;
    split = w.split;
    passed = All-map _ _ w.before g.passes w.passed;
    there = All-map _ _ todo g.keeps w.there;
  }

  pub Checks-Grows : (id : List ℕ) (todo : List (List ℕ)) → Checks s id todo → Checks s' id todo
  Checks-Grows id todo c =
      let (o', stored, same) = g.orders id c.order c.stored in
      record {
        order = o';
        stored = stored;
        before = c.before;
        split = same ∙ c.split;
        passed = All-map _ _ c.before g.passes c.passed;
      }

  pub Holds-Grows : (r : Request) → Holds s r → Holds s' r
  Holds-Grows (put_challenge_of c i is n aids) h = All-map _ _ aids g.keeps h
  Holds-Grows (put_authz_of c i is n aids) h = All-map _ _ aids g.keeps h
  Holds-Grows (auto_pass_authz c o aid aids) h = Waits-Grows o.authz_ids (aid ∷ aids) h
  Holds-Grows (auto_pass_challenge c o cid cids aids) h = Waits-Grows o.authz_ids aids h
  Holds-Grows (put_order_of o) h = Settled-Grows o h
  Holds-Grows (find_challenge t id) h = tt
  Holds-Grows (find_authz t c) h = tt
  Holds-Grows (refuse p id) h = tt
  Holds-Grows (accept t c az) h = tt
  Holds-Grows (validate_authz t az) h = tt
  Holds-Grows (find_order id) h = tt
  Holds-Grows (check_authz id aid aids) h = Checks-Grows id (aid ∷ aids) h
  Holds-Grows (mark_ready id) h = Checks-Grows id [] h
  Holds-Grows (claim f id) h = tt
  Holds-Grows (finish_order f id o) h = Checks-Grows id [] h
  Holds-Grows (store_cert cert_id der) h = tt
  Holds-Grows done h = tt
