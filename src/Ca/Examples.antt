-- ===== src/Ca/Examples.antt =====
-- A request for one name with an extension that a leaf does not carry, and a serial number.
use cactus.Prelude.{
  ℕ, ◌-◌, ◌<◌, ◌^◌, ◌≡◌, ◌⊎◌, refl, Bool, true, false, some, List, [], ◌∷◌, All, Option, ok, err,
  arith,
}
use cactus.Prelude.Dict.{is_in}
use cactus.Acme.Orders.Finalize.{OrderInput}
use cactus.Cert.Serial.{compose_serial, split_serial, index_too_large, split_serial-compose_serial}
use cactus.Ca.{Extension, Csr, Validated, subject_alt_name, validate}
use cactus.Ca.Checked.{validate-authorized}

abbrev basic_constraints : Extension
basic_constraints = record { id = 2 ∷ 5 ∷ 29 ∷ 19 ∷ []; critical = true; value = 9 ∷ [] }

abbrev key_usage : Extension
key_usage = record { id = 2 ∷ 5 ∷ 29 ∷ 15 ∷ []; critical = false; value = 8 ∷ [] }

abbrev names : Bool → Extension
names critical = record { id = subject_alt_name; critical = critical; value = 7 ∷ [] }

abbrev a_request : Csr
a_request = record {
  signature_valid = true;
  dns_names = (b'a' ∷ []) ∷ [];
  ip_addresses = [];
  raw_subject = 0x30 ∷ 0 ∷ [];
  raw_subject_public_key_info = 1 ∷ 2 ∷ [];
  extensions = names false ∷ basic_constraints ∷ [];
}

abbrev an_order : OrderInput
an_order = record {
  not_before = 0;
  not_after = 0;
  authorized_dns_names = (b'a' ∷ []) ∷ [];
  authorized_ips = [];
}

abbrev first_two : List ℕ → Option (List ℕ)
first_two octets = some octets

abbrev its_value : Extension → Option (List ℕ)
its_value e = some e.value

abbrev validated : Validated
validated = record {
  subject = 0x30 ∷ 0 ∷ [];
  subject_public_key_info = 1 ∷ 2 ∷ [];
  subject_public_key_alg_id = 1 ∷ 2 ∷ [];
  extensions = 0x30 ∷ 1 ∷ 7 ∷ [];
  not_before = 5;
  not_after = 12;
}

a_request-validates :
    validate (λ n. n) (λ a. a) first_two its_value 7 5 a_request an_order ≡ ok validated
unfolding validate
a_request-validates = refl

validate-authorized_example :
    (true ≡ true)
    × (All (λ n. is_in n ((b'a' ∷ []) ∷ []) ≡ true) ((b'a' ∷ []) ∷ [])
        × (All (λ a. is_in a [] ≡ true) [] × ((0 < 1) × (5 < 12))))
validate-authorized_example =
    validate-authorized (λ n. n) (λ a. a) first_two its_value 7 5 a_request an_order validated
      a_request-validates

split_serial-compose_serial_example :
    ((2 ^ 48 - 1 < 5) × (compose_serial 1 5 ≡ err index_too_large))
    ⊎ ((serial : ℕ) × (compose_serial 1 5 ≡ ok serial)
        × (serial < 2 ^ 64)
        × (split_serial serial ≡ ok (1, 5)))
split_serial-compose_serial_example = split_serial-compose_serial 1 5 (omega arith)
