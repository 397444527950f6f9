-- ===== src/Ca.antt =====
-- ca/validator.go: a certificate request against the order it is for. What crypto/x509 parsed of
-- the request is a record; asn1.Marshal and asn1.Unmarshal, strings.ToLower and the text of an
-- IP address are parameters. Times are in nanoseconds, 0 for the zero time.
pub mod Checked
mod Examples
use cactus.Prelude.{
  ℕ, zero, suc, ◌+◌, Bool, true, false, not, Option, none, some, List, [], ◌∷◌, ◌++◌, map, length,
  ltb, ◌==◌, ◌&&◌, ◌||◌, if◌then◌else◌, Result, ok, err, panic, stuck, guard, or_err, ◌>>=◌, ◌>>◌,
}
use cactus.Prelude.Dict.{is_in, str_eq}
use cactus.Prelude.Sorting.{sort_stable}
use cactus.Acme.Orders.Finalize.{OrderInput}
use cactus.Cert.TrustAnchorId.{is_empty}
use cactus.Cert.Proof.{str_lt}
use cactus.Cert.Der.{wrap_sequence}

pub record Extension : Type 0 where
  pub id : List ℕ
  pub critical : Bool
  pub value : List ℕ

pub record Csr : Type 0 where
  pub signature_valid : Bool
  pub dns_names : List (List ℕ)
  pub ip_addresses : List (List ℕ)
  pub raw_subject : List ℕ
  pub raw_subject_public_key_info : List ℕ
  pub extensions : List Extension

pub record Validated : Type 0 where
  pub subject : List ℕ
  pub subject_public_key_info : List ℕ
  pub subject_public_key_alg_id : List ℕ
  pub extensions : List ℕ
  pub not_before : ℕ
  pub not_after : ℕ

pub data Error : Type 0 where
  bad_signature name_not_authorized ip_not_authorized no_names bad_window : Error
  bad_spki no_subject_alt_name duplicate_extension bad_extension : Error

abbrev pub subject_alt_name : List ℕ
subject_alt_name = 2 ∷ 5 ∷ 29 ∷ 17 ∷ []

unfoldable pub leaf_extension_allowed : List ℕ → Bool
leaf_extension_allowed id =
    str_eq id subject_alt_name
    || str_eq id (2 ∷ 5 ∷ 29 ∷ 15 ∷ [])
    || str_eq id (2 ∷ 5 ∷ 29 ∷ 37 ∷ [])

-- oidLess compares number by number, then by length.
unfoldable pub ext_less : Extension → Extension → Bool
unfolding str_lt
ext_less a b = str_lt a.id b.id

-- An extension as it is carried over
unfoldable pub carried : Bool → Extension → Extension
unfolding str_eq
carried subject_empty e = record e {
  critical = if str_eq e.id subject_alt_name && subject_empty then true else e.critical;
}

-- The loop over the extensions, with the IDs seen so far: the extensions to carry over
unfoldable pub select : Bool → List (List ℕ) → List Extension → Result Error (List Extension)
unfolding is_in leaf_extension_allowed carried
select subject_empty seen [] = ok []
select subject_empty seen (e ∷ es) = do
  guard (not (is_in e.id seen)) duplicate_extension
  later ← select subject_empty (e.id ∷ seen) es
  ok (if leaf_extension_allowed e.id then carried subject_empty e ∷ later else later)

unfoldable pub has_subject_alt_name : List Extension → Bool
unfolding str_eq
has_subject_alt_name [] = false
has_subject_alt_name (e ∷ es) =
    let rest = has_subject_alt_name es in str_eq e.id subject_alt_name || rest

-- What is marshalled, or none where the request has no extensions
unfoldable pub select_extensions : Bool → List Extension → Result Error (Option (List Extension))
unfolding select has_subject_alt_name sort_stable ext_less
select_extensions subject_empty [] = if subject_empty then err no_subject_alt_name else ok none
select_extensions subject_empty (e ∷ es) = do
  exts ← select subject_empty [] (e ∷ es)
  guard (not subject_empty || has_subject_alt_name exts) no_subject_alt_name
  ok (some (sort_stable ext_less exts))

unfoldable pub all_in : List (List ℕ) → List (List ℕ) → Bool
unfolding is_in
all_in authorized [] = true
all_in authorized (n ∷ ns) = let rest = all_in authorized ns in is_in n authorized && rest

module _ (to_lower ip_string : List ℕ → List ℕ) (first_element : List ℕ → Option (List ℕ))
    (marshal : Extension → Option (List ℕ)) (default_lifetime now : ℕ) where
  unfoldable pub marshal_all : List Extension → Result Error (List ℕ)
  marshal_all [] = ok []
  marshal_all (e ∷ es) = do
    der ← or_err (marshal e) bad_extension
    later ← marshal_all es
    ok (der ++ later)

  unfoldable pub marshal_selected : Option (List Extension) → Result Error (List ℕ)
  unfolding marshal_all wrap_sequence
  marshal_selected none = ok []
  marshal_selected (some exts) = do inner ← marshal_all exts; ok (wrap_sequence inner)

  unfoldable pub build_extensions_from_csr : Bool → List Extension → Result Error (List ℕ)
  unfolding select_extensions marshal_selected
  build_extensions_from_csr subject_empty exts = do
    chosen ← select_extensions subject_empty exts
    marshal_selected chosen

  unfoldable pub start_of : OrderInput → ℕ
  start_of order = if order.not_before == 0 then now else order.not_before

  unfoldable pub end_of : OrderInput → ℕ
  unfolding start_of
  end_of order = if order.not_after == 0 then start_of order + default_lifetime else order.not_after

  unfoldable pub validate : Csr → OrderInput → Result Error Validated
  unfolding all_in is_empty start_of end_of build_extensions_from_csr
  validate csr order =
      let no_subject = is_empty csr.raw_subject in
      do
        guard csr.signature_valid bad_signature
        guard (all_in (map to_lower order.authorized_dns_names) (map to_lower csr.dns_names))
            name_not_authorized
        guard (all_in (map ip_string order.authorized_ips) (map ip_string csr.ip_addresses))
            ip_not_authorized
        guard (not (length csr.dns_names + length csr.ip_addresses == 0)) no_names
        guard (ltb (start_of order) (end_of order)) bad_window
        alg_id ← or_err (first_element csr.raw_subject_public_key_info) bad_spki
        exts ← build_extensions_from_csr no_subject csr.extensions
        ok (record {
          subject = if no_subject then 0x30 ∷ 0x00 ∷ [] else csr.raw_subject;
          subject_public_key_info = csr.raw_subject_public_key_info;
          subject_public_key_alg_id = alg_id;
          extensions = exts;
          not_before = start_of order;
          not_after = end_of order;
        })
