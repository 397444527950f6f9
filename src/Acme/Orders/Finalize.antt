-- ===== src/Acme/Orders/Finalize.antt =====
-- acme/handler.go: handleFinalize, and who may fetch a certificate. Decoding a request and
-- issuing a certificate are parameters; the certificates are kept by ID.
use cactus.Prelude.{
  ℕ, Bool, true, false, not, Option, none, some, List, [], ◌∷◌, if◌then◌else◌, Result, ok, err,
  panic, stuck, ◌>>=◌, or_err, or_panic,
}
use cactus.Prelude.Dict.{Dict, lookup, insert, str_eq}
use cactus.Acme.State.{
  valid, invalid, Identifier, dns, ip, other, Problem, malformed, order_not_ready, unauthorized,
  bad_csr, server_internal, Order, State, get_order, update_order, try_claim_ready_order,
}
use cactus.Acme.Orders.Handlers.{problem}

pub record OrderInput : Type 0 where
  pub not_before : ℕ
  pub not_after : ℕ
  pub authorized_dns_names : List (List ℕ)
  pub authorized_ips : List (List ℕ)

-- What Issue comes to: a certificate, an error that wraps ErrBadCSR, another error
pub data Issuance : Type 0 where
  issued : List ℕ → Issuance
  refused_csr failed : Issuance

unfoldable pub dns_names : List Identifier → List (List ℕ)
dns_names [] = []
dns_names (i ∷ is) = elim i.kind [
  | dns ↦ i.value ∷ dns_names is
  | ip ↦ dns_names is
  | other kind ↦ dns_names is
]

unfoldable pub finish_invalid : Problem → List ℕ → State → State
unfolding update_order
finish_invalid p id s = (update_order id (λ o. record o { status = invalid; error = some p }) s).1

unfoldable pub finish_valid : List ℕ → List ℕ → State → State
unfolding update_order
finish_valid cert_id id s =
    (update_order id (λ o. record o { status = valid; certificate_id = cert_id }) s).1

unfoldable pub put_cert : List ℕ → List ℕ → State → State
put_cert cert_id der s = record s { certs = insert cert_id der s.certs }

unfoldable pub issue_problem : Issuance → Problem
unfolding problem
issue_problem (issued der) = problem server_internal 500
issue_problem refused_csr = problem bad_csr 400
issue_problem failed = problem server_internal 500

-- What follows the issuer's answer
unfoldable pub finish : Issuance → List ℕ → List ℕ → State → Result Problem Order × State
unfolding finish_invalid finish_valid put_cert get_order issue_problem problem
finish (issued der) cert_id id s =
    let s' = put_cert cert_id der (finish_valid cert_id id s) in (or_panic (get_order id s'), s')
finish refused_csr cert_id id s =
    (err (issue_problem refused_csr), finish_invalid (issue_problem refused_csr) id s)
finish failed cert_id id s =
    (err (issue_problem failed), finish_invalid (issue_problem failed) id s)

module _ (parse_ip : List ℕ → Option (List ℕ)) where
  unfoldable pub authorized_ips : List Identifier → List (List ℕ)
  authorized_ips [] = []
  authorized_ips (i ∷ is) = elim i.kind [
    | ip ↦ elim (parse_ip i.value) [
      | some parsed ↦ parsed ∷ authorized_ips is
      | none ↦ authorized_ips is
    ]
    | dns ↦ authorized_ips is
    | other kind ↦ authorized_ips is
  ]

  unfoldable pub order_input : Order → OrderInput
  unfolding dns_names authorized_ips
  order_input o = record {
    not_before = o.not_before;
    not_after = o.not_after;
    authorized_dns_names = dns_names o.identifiers;
    authorized_ips = authorized_ips o.identifiers;
  }

  module _ {Csr : Type 0} (csr_field : List ℕ → Option (List ℕ))
      (base64_url : List ℕ → Option (List ℕ)) (parse_csr : List ℕ → Option Csr) where
    unfoldable pub decode_finalize : List ℕ → Result Problem Csr
    unfolding problem
    decode_finalize payload = do
      text ← or_err (csr_field payload) (problem malformed 400)
      der ← or_err (base64_url text) (problem bad_csr 400)
      or_err (parse_csr der) (problem bad_csr 400)

    module _ (issue : Csr → OrderInput → Issuance) where
      -- After the claim's answer
      unfoldable pub after_claim :
          Csr → List ℕ → Option Order → Bool → State → Result Problem Order × State
      unfolding problem order_input finish
      after_claim csr cert_id none claimed s = (err (problem malformed 404), s)
      after_claim csr cert_id (some o) false s = (err (problem order_not_ready 403), s)
      after_claim csr cert_id (some o) true s = finish (issue csr (order_input o)) cert_id o.id s

      unfoldable pub claim_and_issue : List ℕ → List ℕ → Csr → State → Result Problem Order × State
      unfolding try_claim_ready_order after_claim
      claim_and_issue cert_id id csr s =
          let (o, claimed, s') = try_claim_ready_order id s in after_claim csr cert_id o claimed s'

      unfoldable pub handle_finalize :
          List ℕ → List ℕ → List ℕ → State → Result Problem Order × State
      unfolding decode_finalize claim_and_issue
      handle_finalize cert_id id payload s = elim (decode_finalize payload) [
        | ok csr ↦ claim_and_issue cert_id id csr s
        | err p ↦ (err p, s)
        | panic ↦ (panic, s)
        | stuck ↦ (stuck, s)
      ]

-- The first order with the certificate, in the order of the map
unfoldable pub owner_of : List ℕ → Dict Order → Option (List ℕ)
owner_of cert_id [] = none
owner_of cert_id ((id, o) ∷ os) =
    let rest = owner_of cert_id os in
    if str_eq o.certificate_id cert_id then some o.account_id else rest

unfoldable pub cert_belongs_to_account : List ℕ → List ℕ → State → Bool
unfolding owner_of
cert_belongs_to_account cert_id account_id s = elim (owner_of cert_id s.orders) [
  | none ↦ false
  | some owner ↦ str_eq owner account_id
]

-- handleCert, with a request whose payload is empty or not
unfoldable pub handle_cert : List ℕ → List ℕ → Bool → State → Result Problem (List ℕ)
unfolding cert_belongs_to_account problem
handle_cert id account_id empty_payload s =
    if not empty_payload then err (problem malformed 400) else elim (lookup id s.certs) [
      | none ↦ err (problem malformed 404)
      | some der ↦
          if cert_belongs_to_account id account_id s then ok der else err (problem unauthorized 401)
    ]

-- OrderIDsForAccount, before it is sorted
unfoldable pub order_ids_for_account : List ℕ → Dict Order → List (List ℕ)
order_ids_for_account account_id [] = []
order_ids_for_account account_id ((id, o) ∷ os) =
    let rest = order_ids_for_account account_id os in
    if str_eq o.account_id account_id then id ∷ rest else rest
