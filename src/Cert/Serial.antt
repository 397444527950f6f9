-- ===== src/Cert/Serial.antt =====
-- cert/caid.go: serial numbers.
use Prim.Native.Nat.{bit_and}
use cactus.Prelude.{
  ℕ, ◌+◌, ◌*◌, ◌/◌, ◌%◌, ◌^◌, ◌<◌, ◌≡◌, ◌⊎◌, inl, inr, refl, ◌∙◌, ltb, ◌==◌, if◌then◌else◌, Result,
  ok, err, Bool-cases, arith,
}
use cactus.Prelude.Words.{u64}
use cactus.Prelude.Words.Digits.{bit_and_mask}
use cactus.Cert.Wire.{max_uint48}

pub data Error : Type 0 where
  index_too_large zero_log_number : Error

-- The log number has 16 bits; it and the index have no bit in common.
unfoldable pub compose_serial : ℕ → ℕ → Result Error ℕ
compose_serial log_number index =
    if ltb max_uint48 index then err index_too_large else ok (u64 (log_number * 2 ^ 48) + index)

unfoldable pub split_serial : ℕ → Result Error (ℕ × ℕ)
split_serial serial =
    let log_number = serial / 2 ^ 48 % 2 ^ 16 in
    if log_number == 0 then err zero_log_number else ok (log_number, bit_and serial max_uint48)

-- For a log number of 16 bits, ComposeSerial refuses an index of more than 48 bits; else it gives
-- a serial of 64 bits, which SplitSerial takes apart again unless the log number is zero.
pub split_serial-compose_serial :
    (log_number index : ℕ)
    → log_number < 2 ^ 16
    → ((max_uint48 < index) × (compose_serial log_number index ≡ err index_too_large))
      ⊎ ((serial : ℕ) × (compose_serial log_number index ≡ ok serial)
          × (serial < 2 ^ 64)
          × (split_serial serial
              ≡ (if log_number == 0 then err zero_log_number else ok (log_number, index))))
unfolding compose_serial split_serial
split_serial-compose_serial log_number index h = elim (Bool-cases (ltb max_uint48 index)) [
  | inl large ↦ inl (ground arith, rw large refl)
  | inr fits ↦
      let serial : ℕ = u64 (log_number * 2 ^ 48) + index in
      let small : index < 2 ^ 48 = ground arith in
      let whole : u64 (log_number * 2 ^ 48) ≡ log_number * 2 ^ 48 = omega (arith, h) in
      let high : serial / 2 ^ 48 % 2 ^ 16 ≡ log_number = omega (arith, h, small, whole) in
      let low : bit_and serial max_uint48 ≡ index =
        bit_and_mask 48 serial ∙ omega (arith, small, whole) in
      inr (serial, rw fits refl, omega (arith, h, small, whole), rw (high, low) refl)
]
