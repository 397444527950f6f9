-- ===== src/Cert/Wire.antt =====
-- What cert/ uses of golang.org/x/crypto/cryptobyte, and the fields of 48 bits that
-- cert/proof.go writes itself. Octets are numbers below 256.
pub mod Extensions
pub mod Uint48
pub mod Octets
use cactus.Prelude.{
  ℕ, zero, suc, ◌+◌, ◌*◌, ◌/◌, ◌%◌, ◌^◌, ◌-◌, ◌≤◌, ◌<◌, ◌≡◌, Bool, true, false, Option, none, some,
  List, [], ◌∷◌, ◌++◌, length, Result, ok, err, or_err, ◌>>=◌,
}

-- A Builder's octets, or none for a value too long for its prefix; a String's reads, with what
-- is left
pub record Cryptobyte : Type 0 where
  pub add_uint16 : ℕ → List ℕ
  pub add_uint64 : ℕ → List ℕ
  pub add_uint8_prefixed : List ℕ → Option (List ℕ)
  pub add_uint16_prefixed : List ℕ → Option (List ℕ)
  pub read_uint16 : List ℕ → Option (ℕ × List ℕ)
  pub read_uint8_prefixed : List ℕ → Option (List ℕ × List ℕ)
  pub read_uint16_prefixed : List ℕ → Option (List ℕ × List ℕ)
  pub copy_bytes : ℕ → List ℕ → Option (List ℕ × List ℕ)

-- A value that fits its prefix is written, and is what is read back before any rest.
pub record Prefixes (add : List ℕ → Option (List ℕ)) (read : List ℕ → Option (List ℕ × List ℕ))
    (bound : ℕ) : Type 0 where
  pub writes :
      (b : List ℕ)
      → length b ≤ bound
      → (w : List ℕ) × (add b ≡ some w)
        × (length b < length w)
        × ((rest : List ℕ) → read (w ++ rest) ≡ some (b, rest))
  pub refuses : (b : List ℕ) → bound < length b → add b ≡ none

pub record CryptobyteLaws (cb : Cryptobyte) : Type 0 where
  pub uint16_two : (v : ℕ) → length (cb.add_uint16 v) ≡ 2
  pub reads_uint16 :
      (v : ℕ) (rest : List ℕ)
      → v < 2 ^ 16
      → cb.read_uint16 (cb.add_uint16 v ++ rest) ≡ some (v, rest)
  pub uint64_eight : (v : ℕ) → length (cb.add_uint64 v) ≡ 8
  pub uint64_injective :
      (v w : ℕ) → v < 2 ^ 64 → w < 2 ^ 64 → cb.add_uint64 v ≡ cb.add_uint64 w → v ≡ w
  pub prefixes_uint8 : Prefixes cb.add_uint8_prefixed cb.read_uint8_prefixed 255
  pub prefixes_uint16 : Prefixes cb.add_uint16_prefixed cb.read_uint16_prefixed 65535
  pub copies : (b rest : List ℕ) → cb.copy_bytes (length b) (b ++ rest) ≡ some (b, rest)

abbrev pub max_uint48 : ℕ
max_uint48 = 2 ^ 48 - 1

unfoldable pub add_uint48 : ℕ → List ℕ
add_uint48 v =
    v / 2 ^ 40 % 256
    ∷ v / 2 ^ 32 % 256
    ∷ v / 2 ^ 24 % 256
    ∷ v / 2 ^ 16 % 256
    ∷ v / 2 ^ 8 % 256
    ∷ v % 256
    ∷ []

-- The six octets that CopyBytes gave, most significant first
unfoldable pub from_octets : ℕ → List ℕ → ℕ
from_octets v [] = v
from_octets v (b ∷ bs) = from_octets (v * 256 + b) bs

module _ (cb : Cryptobyte) where
  unfoldable pub read_uint48 : List ℕ → Option (ℕ × List ℕ)
  unfolding from_octets
  read_uint48 s = elim (cb.copy_bytes 6 s) [
    | none ↦ none
    | some (buf, rest) ↦ some (from_octets 0 buf, rest)
  ]
