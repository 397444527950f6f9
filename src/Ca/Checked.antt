-- ===== src/Ca/Checked.antt =====
-- What Validate lets through (ca/validator.go).
use mathlib.Core.List.{Memᴰ}
use cactus.Prelude.{
  ℕ, ◌+◌, ◌<◌, ◌≡◌, Bool, true, not, Option, List, [], ◌∷◌, map, length, ltb, ◌==◌, All, Result, ok,
  guard, or_err, ok_of_bind, ok_of_guard, arith, ap,
}
use cactus.Prelude.Dict.{is_in}
use cactus.Prelude.Sorting.{Ascending}
use cactus.Acme.Orders.Finalize.{OrderInput}
use cactus.Cert.TrustAnchorId.{is_empty}
use cactus.Cert.Der.{wrap_sequence}
use cactus.Ca.{
  Extension, Csr, Validated, Error, bad_signature, name_not_authorized, ip_not_authorized, no_names,
  bad_window, bad_spki, ext_less, all_in, marshal_all, build_extensions_from_csr, start_of, end_of,
  validate,
}

-- subjectAltName, keyUsage and extKeyUsage
pub data LeafOid : List ℕ → Type 0 where
  san : LeafOid (2 ∷ 5 ∷ 29 ∷ 17 ∷ [])
  key_usage : LeafOid (2 ∷ 5 ∷ 29 ∷ 15 ∷ [])
  ext_key_usage : LeafOid (2 ∷ 5 ∷ 29 ∷ 37 ∷ [])

-- An extension as the request has it, or the subjectAltName made critical for an absent subject
pub data Kept (no_subject : Bool) : Extension → Extension → Type 0 where
  as_it_is : (e : Extension) → Kept no_subject e e
  made_critical :
      (e : Extension)
      → no_subject ≡ true
      → e.id ≡ 2 ∷ 5 ∷ 29 ∷ 17 ∷ []
      → Kept no_subject e (record e { critical = true })

-- What a leaf takes over: an extension of the request with one of the three OIDs
pub record FromRequest (no_subject : Bool) (asked : List Extension) (e : Extension) : Type 0 where
  pub original : Extension
  pub requested : Memᴰ original asked
  pub kept : Kept no_subject original e
  pub oid : LeafOid e.id

all_in-All :
    (authorized names : List (List ℕ))
    → all_in authorized names ≡ true
    → All (λ n. is_in n authorized ≡ true) names
unfolding all_in
all_in-All authorized [] h = tt
all_in-All authorized (n ∷ ns) h = (ground arith, all_in-All authorized ns (ground arith))

abbrev not_before_of : Result Error Validated → ℕ
not_before_of (ok v) = v.not_before
not_before_of _ = 0

abbrev extensions_of : Result Error Validated → List ℕ
extensions_of (ok v) = v.extensions
extensions_of _ = []

abbrev not_after_of : Result Error Validated → ℕ
not_after_of (ok v) = v.not_after
not_after_of _ = 0

module _ (to_lower ip_string : List ℕ → List ℕ) (first_element : List ℕ → Option (List ℕ))
    (marshal : Extension → Option (List ℕ)) (default_lifetime now : ℕ) where
  -- What Validate has found out where it accepts
  record Accepted (csr : Csr) (order : OrderInput) (v : Validated) : Type 0 where
    signed : csr.signature_valid ≡ true
    names : all_in (map to_lower order.authorized_dns_names) (map to_lower csr.dns_names) ≡ true
    ips : all_in (map ip_string order.authorized_ips) (map ip_string csr.ip_addresses) ≡ true
    some_name : not (length csr.dns_names + length csr.ip_addresses == 0) ≡ true
    window : ltb v.not_before v.not_after ≡ true
    built :
        build_extensions_from_csr to_lower ip_string first_element marshal default_lifetime now
          (is_empty csr.raw_subject)
          csr.extensions
        ≡ ok v.extensions

  validate-Accepted :
      (csr : Csr) (order : OrderInput) (v : Validated)
      → validate to_lower ip_string first_element marshal default_lifetime now csr order ≡ ok v
      → Accepted csr order v
  unfolding validate
  validate-Accepted csr order v h =
      let (t1, signed, h1) = ok_of_bind (guard csr.signature_valid bad_signature) _ v h in
      let (t2, names, h2) =
        ok_of_bind
          (guard (all_in (map to_lower order.authorized_dns_names) (map to_lower csr.dns_names))
            name_not_authorized)
          _ v h1 in
      let (t3, ips, h3) =
        ok_of_bind
          (guard (all_in (map ip_string order.authorized_ips) (map ip_string csr.ip_addresses))
            ip_not_authorized)
          _ v h2 in
      let (t4, some_name, h4) =
        ok_of_bind (guard (not (length csr.dns_names + length csr.ip_addresses == 0)) no_names) _ v
          h3 in
      let (t5, window, h5) =
        ok_of_bind
          (guard
            (ltb (start_of to_lower ip_string first_element marshal default_lifetime now order)
              (end_of to_lower ip_string first_element marshal default_lifetime now order))
            bad_window)
          _ v h4 in
      let (alg_id, spki, h6) =
        ok_of_bind (or_err (first_element csr.raw_subject_public_key_info) bad_spki) _ v h5 in
      let (exts, built, h7) =
        ok_of_bind
          (build_extensions_from_csr to_lower ip_string first_element marshal default_lifetime now
            (is_empty csr.raw_subject) csr.extensions)
          _ v h6 in
      let starts = ap not_before_of h7 in
      let ends = ap not_after_of h7 in
      let same = ap extensions_of h7 in
      record {
        signed = ok_of_guard csr.signature_valid bad_signature t1 signed;
        names = ok_of_guard _ name_not_authorized t2 names;
        ips = ok_of_guard _ ip_not_authorized t3 ips;
        some_name = ok_of_guard _ no_names t4 some_name;
        window = rw (← starts, ← ends) (ok_of_guard _ bad_window t5 window);
        built = rw (← same) built;
      }

  -- A request that Validate accepts has a valid signature, at least one name, only DNS names and
  -- IP addresses that the order authorized, up to letter case, and a validity window of positive
  -- length.
  pub validate-authorized :
      (csr : Csr) (order : OrderInput) (v : Validated)
      → validate to_lower ip_string first_element marshal default_lifetime now csr order ≡ ok v
      → (csr.signature_valid ≡ true)
        × (All
              (λ n. is_in n (map to_lower order.authorized_dns_names) ≡ true)
              (map to_lower csr.dns_names)
            × (All
                  (λ a. is_in a (map ip_string order.authorized_ips) ≡ true)
                  (map ip_string csr.ip_addresses)
                × ((0 < length csr.dns_names + length csr.ip_addresses)
                    × (v.not_before < v.not_after))))
  validate-authorized csr order v h =
      let a = validate-Accepted csr order v h in
      let some_name = a.some_name in
      let window = a.window in
      (a.signed, (all_in-All _ _ a.names, (all_in-All _ _ a.ips, (ground arith, ground arith))))

  -- The octets of the certificate's extensions: the DER of the request's that are taken over
  pub data LeafExtensions (no_subject : Bool) (asked : List Extension) : List ℕ → Type 0 where
    absent : LeafExtensions no_subject asked []
    wrapped :
        (exts : List Extension) (inner : List ℕ)
        → All (FromRequest no_subject asked) exts
        → Ascending ext_less exts
        → marshal_all to_lower ip_string first_element marshal default_lifetime now exts ≡ ok inner
        → LeafExtensions no_subject asked (wrap_sequence inner)
