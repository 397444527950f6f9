-- ===== src/Cert/Signing.antt =====
-- cert/proof.go and cert/keyid.go: what a cosigner signs, and how a signature stands in a note.
-- SHA-256 is a parameter. Octets are numbers below 256.
pub mod Timestamps
pub mod Binding
use cactus.Prelude.{
  ℕ, zero, suc, ◌+◌, ◌*◌, ◌/◌, ◌%◌, ◌^◌, Bool, true, false, not, Option, none, some, List, [], ◌∷◌,
  ◌++◌, length, take, drop, ltb, ◌==◌, ◌||◌, if◌then◌else◌, Result, ok, err, guard, or_err, ◌>>=◌,
  ◌>>◌,
}
use cactus.Log.{MtcSubtree}
use cactus.Cert.Wire.{Cryptobyte}

pub data Error : Type 0 where
  name_out_of_range origin_out_of_range builder_overflow bad_key_length no_key_id short_signature :
      Error

-- "oid/1.3.6.1.4.1."
abbrev oid_prefix : List ℕ
oid_prefix =
    b'o' ∷ b'i' ∷ b'd' ∷ b'/' ∷ b'1' ∷ b'.' ∷ b'3' ∷ b'.' ∷ b'6' ∷ b'.' ∷ b'1' ∷ b'.' ∷ b'4' ∷ b'.'
    ∷ b'1' ∷ b'.' ∷ []

unfoldable pub oid_name : List ℕ → List ℕ
oid_name id = oid_prefix ++ id

-- "subtree/v1", a newline and a zero octet
abbrev subtree_signature_label : List ℕ
subtree_signature_label =
    b's' ∷ b'u' ∷ b'b' ∷ b't' ∷ b'r' ∷ b'e' ∷ b'e' ∷ b'/' ∷ b'v' ∷ b'1' ∷ 10 ∷ 0 ∷ []

unfoldable pub marshal_signature_input : Cryptobyte → List ℕ → MtcSubtree → Result Error (List ℕ)
unfolding oid_name
marshal_signature_input cb cosigner_id subtree =
    let cosigner_name = oid_name cosigner_id in
    let log_origin = oid_name subtree.log_id in
    do
      guard (not (ltb (length cosigner_name) 1 || ltb 0xff (length cosigner_name)))
          name_out_of_range
      guard (not (ltb (length log_origin) 1 || ltb 0xff (length log_origin))) origin_out_of_range
      name ← or_err (cb.add_uint8_prefixed cosigner_name) builder_overflow
      origin ← or_err (cb.add_uint8_prefixed log_origin) builder_overflow
      ok (
          subtree_signature_label
          ++ (name
              ++ (cb.add_uint64 0
                  ++ (origin
                      ++ (cb.add_uint64 subtree.start
                          ++ (cb.add_uint64 subtree.end ++ subtree.hash))))))

pub data Algorithm : Type 0 where
  mldsa_44 mldsa_65 mldsa_87 : Algorithm
  other : ℕ → Algorithm

unfoldable pub expected_pub_key_len : Algorithm → Option ℕ
expected_pub_key_len mldsa_44 = some 1312
expected_pub_key_len mldsa_65 = some 1952
expected_pub_key_len mldsa_87 = some 2592
expected_pub_key_len (other code) = none

-- What follows the key's name and a newline in the hash
unfoldable pub key_type : Algorithm → Option (List ℕ)
key_type mldsa_44 = some (0x06 ∷ [])
key_type mldsa_65 = some (0xff ∷ b'm' ∷ b'l' ∷ b'-' ∷ b'd' ∷ b's' ∷ b'a' ∷ b'-' ∷ b'6' ∷ b'5' ∷ [])
key_type mldsa_87 = some (0xff ∷ b'm' ∷ b'l' ∷ b'-' ∷ b'd' ∷ b's' ∷ b'a' ∷ b'-' ∷ b'8' ∷ b'7' ∷ [])
key_type (other code) = none

unfoldable pub length_as_expected : Option ℕ → ℕ → Bool
length_as_expected none n = true
length_as_expected (some want) n = n == want

unfoldable pub cosignature_key_id :
    (List ℕ → List ℕ) → List ℕ → Algorithm → List ℕ → Result Error (List ℕ)
unfolding expected_pub_key_len key_type length_as_expected
cosignature_key_id sha256 name alg key = do
  guard (length_as_expected (expected_pub_key_len alg) (length key)) bad_key_length
  kind ← or_err (key_type alg) no_key_id
  ok (take 4 (sha256 (name ++ (0x0a ∷ kind ++ key))))

-- binary.BigEndian.PutUint64
unfoldable pub big_endian_64 : ℕ → List ℕ
big_endian_64 v =
    v / 2 ^ 56 % 256
    ∷ v / 2 ^ 48 % 256
    ∷ v / 2 ^ 40 % 256
    ∷ v / 2 ^ 32 % 256
    ∷ v / 2 ^ 24 % 256
    ∷ v / 2 ^ 16 % 256
    ∷ v / 2 ^ 8 % 256
    ∷ v % 256
    ∷ []

-- binary.BigEndian.Uint64, on eight octets
unfoldable pub from_big_endian : ℕ → List ℕ → ℕ
from_big_endian v [] = v
from_big_endian v (b ∷ bs) = from_big_endian (v * 256 + b) bs

unfoldable pub marshal_timestamped_signature : ℕ → List ℕ → List ℕ
unfolding big_endian_64
marshal_timestamped_signature timestamp sig = big_endian_64 timestamp ++ sig

unfoldable pub parse_timestamped_signature : List ℕ → Result Error (ℕ × List ℕ)
unfolding from_big_endian
parse_timestamped_signature b =
    if ltb (length b) 8 then err short_signature else ok (from_big_endian 0 (take 8 b), drop 8 b)
