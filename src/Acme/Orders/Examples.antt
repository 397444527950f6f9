-- ===== src/Acme/Orders/Examples.antt =====
-- An order for one name, and the theorems at it.
use cactus.Prelude.{ℕ, ◌≡◌, refl, true, false, Option, none, some, List, [], ◌∷◌}
use cactus.Prelude.Dict.{lookup, insert, str_eq}
use cactus.Acme.Names.{valid_dns_name}
use cactus.Acme.State.{pending, valid, is_status, Identifier, dns, Order, Authz, State}
use cactus.Acme.Orders.Handlers.{Config, NewOrderReq, Fresh, is_order_ready}
use cactus.Acme.Orders.Finalize.{issued}
use cactus.Acme.Orders.Settled.{Settled}
use cactus.Acme.Orders.Interleaved.{
  Creation, Response, Finalization, find_order, claim, finish_order, done, order_wanted,
  challenge_answered, order_finalized, Event, arrives, turn_of, interleave, empty_state,
}
use cactus.Acme.Orders.Outcomes.{interleave-Settled}
use cactus.Acme.Orders.Race.{find_order-claimed}

abbrev name_a : Identifier
name_a = record { kind = dns; value = b'a' ∷ [] }

abbrev fresh_ids : Fresh
fresh_ids = record {
  order = 1 ∷ [];
  chall = λ n. 2 ∷ n ∷ [];
  authz = λ n. 3 ∷ n ∷ [];
  token = λ n. 4 ∷ n ∷ [];
}

abbrev waiting_authz : Authz
waiting_authz = record {
  id = 3 ∷ 0 ∷ [];
  order_id = 1 ∷ [];
  status = pending;
  identifier = name_a;
  chall_ids = (2 ∷ 0 ∷ []) ∷ [];
  expires = 0;
}

abbrev waiting_order : Order
waiting_order = record {
  id = 1 ∷ [];
  account_id = 9 ∷ [];
  status = pending;
  expires = 107;
  identifiers = name_a ∷ [];
  authz_ids = (3 ∷ 0 ∷ []) ∷ [];
  not_before = 0;
  not_after = 0;
  certificate_id = [];
  error = none;
}

abbrev auto_pass : Config
auto_pass = record { http01 = false; order_lifetime = 100 }

abbrev by_http : Config
by_http = record { http01 = true; order_lifetime = 100 }

abbrev one_name : NewOrderReq
one_name = record { identifiers = name_a ∷ []; not_before = []; not_after = [] }

abbrev toy_parse_ip : List ℕ → Option (List ℕ)
toy_parse_ip value = none

abbrev toy_parse_time : List ℕ → Option ℕ
toy_parse_time value = none

abbrev creation : Creation
creation = record {
  fresh = fresh_ids;
  account_id = 9 ∷ [];
  now = 7;
  passed_at = 7;
  req = one_name;
  not_before = 0;
  not_after = 0;
}

abbrev response : Response
response = record { attempt = λ c az. true; now = 7 }

abbrev finalization : Finalization
finalization = record { cert_id = 5 ∷ []; issue = λ input. issued (6 ∷ []) }

-- A new order, the response to its challenge, and two finalizations, of which the later comes to
-- nothing
abbrev issuing : List Event
issuing =
    arrives (order_wanted creation)
    ∷ turn_of 0
    ∷ turn_of 0
    ∷ turn_of 0
    ∷ arrives (challenge_answered response (2 ∷ 0 ∷ []))
    ∷ turn_of 0
    ∷ turn_of 0
    ∷ turn_of 0
    ∷ turn_of 0
    ∷ turn_of 0
    ∷ turn_of 0
    ∷ turn_of 0
    ∷ arrives (order_finalized finalization (1 ∷ []))
    ∷ arrives (order_finalized finalization (1 ∷ []))
    ∷ turn_of 1
    ∷ turn_of 0
    ∷ turn_of 1
    ∷ []

abbrev issued_order : Order
issued_order = record waiting_order { status = valid; certificate_id = 5 ∷ [] }

abbrev issuing_state : State
issuing_state = (interleave toy_parse_ip toy_parse_time by_http issuing [] empty_state).1

issuing-stores : lookup (1 ∷ []) issuing_state.orders ≡ some issued_order
unfolding interleave valid_dns_name lookup is_status insert str_eq
issuing-stores = refl

interleave-Settled_example : Settled issuing_state.authzs issued_order
interleave-Settled_example =
    interleave-Settled toy_parse_ip toy_parse_time by_http issuing (1 ∷ []) issued_order
      issuing-stores

abbrev before_check : State
before_check = record {
  accounts = [];
  orders = (1 ∷ [], waiting_order) ∷ [];
  authzs = (3 ∷ 0 ∷ [], record waiting_authz { status = valid }) ∷ [];
  challs = [];
  certs = [];
}

before_check-ready : is_order_ready (1 ∷ []) before_check ≡ true
unfolding is_order_ready lookup str_eq is_status
before_check-ready = refl

find_order-claimed_example :
    (events : List Event) × (o : Order) × ((interleave toy_parse_ip toy_parse_time by_http events
        (find_order (1 ∷ [])
          ∷ find_order (1 ∷ [])
          ∷ claim finalization (1 ∷ [])
          ∷ claim finalization (1 ∷ [])
          ∷ [])
        before_check).0
      ≡ done
        ∷ done
        ∷ finish_order finalization (1 ∷ []) o
        ∷ finish_order finalization (1 ∷ []) o
        ∷ [])
find_order-claimed_example =
    find_order-claimed toy_parse_ip toy_parse_time by_http (1 ∷ []) finalization finalization
      before_check before_check-ready
