-- ===== src/Cert/Wire/Octets.antt =====
-- A cryptobyte that keeps to its documentation: numbers most significant octet first, a prefix
-- for the length.
use cactus.Prelude.{
  ℕ, ◌+◌, ◌*◌, ◌/◌, ◌%◌, ◌^◌, ◌<◌, ◌≡◌, refl, sym, ap, ◌∙◌, Option, none, some, List, [], ◌∷◌, ◌++◌,
  length, length-append, take, drop, take-length, drop-length, ltb, le→not-ltb, lt→ltb,
  if◌then◌else◌, arith,
}
use cactus.Cert.Der.{big_endian}
use cactus.Cert.Wire.{Cryptobyte, CryptobyteLaws, Prefixes}

abbrev read_value : ℕ → List ℕ → Option (List ℕ × List ℕ)
read_value n s = if ltb (length s) n then none else some (take n s, drop n s)

abbrev add_prefixed8 : List ℕ → Option (List ℕ)
add_prefixed8 b = if ltb 255 (length b) then none else some (length b ∷ b)

abbrev read_prefixed8 : List ℕ → Option (List ℕ × List ℕ)
read_prefixed8 [] = none
read_prefixed8 (n ∷ s) = read_value n s

abbrev add_prefixed16 : List ℕ → Option (List ℕ)
add_prefixed16 b = if ltb 65535 (length b) then none else some (length b / 256 ∷ length b % 256 ∷ b)

abbrev read_prefixed16 : List ℕ → Option (List ℕ × List ℕ)
read_prefixed16 [] = none
read_prefixed16 (hi ∷ []) = none
read_prefixed16 (hi ∷ lo ∷ s) = read_value (hi * 256 + lo) s

abbrev read16 : List ℕ → Option (ℕ × List ℕ)
read16 [] = none
read16 (hi ∷ []) = none
read16 (hi ∷ lo ∷ s) = some (hi * 256 + lo, s)

abbrev octets_64 : ℕ → List ℕ
octets_64 v =
    v / 2 ^ 56 % 256
    ∷ v / 2 ^ 48 % 256
    ∷ v / 2 ^ 40 % 256
    ∷ v / 2 ^ 32 % 256
    ∷ v / 2 ^ 24 % 256
    ∷ v / 2 ^ 16 % 256
    ∷ v / 2 ^ 8 % 256
    ∷ v % 256
    ∷ []

octets_64-value : (v : ℕ) → v < 2 ^ 64 → big_endian 0 (octets_64 v) ≡ v
unfolding big_endian
octets_64-value v h = ground arith

octets_64-injective : (v w : ℕ) → v < 2 ^ 64 → w < 2 ^ 64 → octets_64 v ≡ octets_64 w → v ≡ w
octets_64-injective v w hv hw e =
    sym (octets_64-value v hv) ∙ ap (big_endian 0) e ∙ octets_64-value w hw

abbrev pub octets : Cryptobyte
octets = record {
  add_uint16 = λ v. v / 256 ∷ v % 256 ∷ [];
  add_uint64 = octets_64;
  add_uint8_prefixed = add_prefixed8;
  add_uint16_prefixed = add_prefixed16;
  read_uint16 = read16;
  read_uint8_prefixed = read_prefixed8;
  read_uint16_prefixed = read_prefixed16;
  copy_bytes = read_value;
}

read_value-append :
    (n : ℕ) (b rest : List ℕ) → n ≡ length b → read_value n (b ++ rest) ≡ some (b, rest)
read_value-append n b rest e =
    rw
      (
        e,
        le→not-ltb (length (b ++ rest)) (length b) (omega (arith, length-append b rest)),
        take-length b rest,
        drop-length b rest,
      )
      refl

octets-Prefixes8 : Prefixes add_prefixed8 read_prefixed8 255
octets-Prefixes8 = record {
  writes = λ b fits. (
    length b ∷ b,
    rw (le→not-ltb 255 (length b) fits) refl,
    omega arith,
    λ rest. read_value-append (length b) b rest refl,
  );
  refuses = λ b long. rw (lt→ltb 255 (length b) long) refl;
}

octets-Prefixes16 : Prefixes add_prefixed16 read_prefixed16 65535
octets-Prefixes16 = record {
  writes = λ b fits. (
    length b / 256 ∷ length b % 256 ∷ b,
    rw (le→not-ltb 65535 (length b) fits) refl,
    omega arith,
    λ rest. read_value-append (length b / 256 * 256 + length b % 256) b rest (omega arith),
  );
  refuses = λ b long. rw (lt→ltb 65535 (length b) long) refl;
}

pub octets-CryptobyteLaws : CryptobyteLaws octets
octets-CryptobyteLaws = record {
  uint16_two = λ v. refl;
  uint64_eight = λ v. refl;
  uint64_injective = octets_64-injective;
  reads_uint16 = λ v rest h. ground arith;
  prefixes_uint8 = octets-Prefixes8;
  prefixes_uint16 = octets-Prefixes16;
  copies = λ b rest. read_value-append (length b) b rest refl;
}
