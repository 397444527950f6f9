-- ===== src/Tlogx/Intervals.antt =====
-- bitCeil, IsValid and FindSubtrees of tlogx/subtree.go, against §4.1 and §4.5.
use Prim.Native.Nat.{bit_and}
use native.Mathlib.Decide.{dec_le, dec_lt}
use native.Mathlib.Nat.{mul-mod_left, div-add-mod'}
use cactus.Prelude.{
  ℕ, zero, suc, ◌-◌, ◌*◌, ◌/◌, ◌%◌, ◌^◌, ◌≤◌, ◌<◌, ◌≡◌, ◌↔◌, inl, inr, ap, ◌∙◌, true, false, ok,
  panic, Bool-cases, ◌==◌, arith,
}
use cactus.Prelude.Words.{len64, shl_one}
use cactus.Prelude.Words.Lengths.{
  IsLog-unique, IsLog-lt, len64-IsLog, pow_of_bit_and, pow-pos, pow-double, pow_mono,
}
use cactus.Tlogx.{bit_ceil, is_valid}

pub shl_one-pow : (s : ℕ) → s < 64 → shl_one s ≡ 2 ^ s
shl_one-pow s h = ground arith

not_pow-two : (n : ℕ) → 0 < n → (bit_and n (n - 1) == 0) ≡ false → 1 < n
not_pow-two zero pos f = elim pos [ ]
not_pow-two (suc zero) pos f = cc
not_pow-two (suc (suc n)) pos f = omega arith

wide_pow : (n : ℕ) → 2 ^ 63 < n → n < 2 ^ 64 → (j : ℕ) × (n ≡ 2 ^ j) → ⊥
wide_pow n lo hi (j, e) = elim (dec_le j 63) [
  | yes le ↦ omega (arith, pow_mono j 63 le)
  | no gt ↦ omega (arith, pow_mono 64 j (omega arith))
]

-- The least power of two that is at least n, up to 2 ^ 63.
pub bit_ceil-pow :
    (n : ℕ)
    → 0 < n
    → n ≤ 2 ^ 63
    → (j : ℕ) × (bit_ceil n ≡ 2 ^ j) × (n ≤ 2 ^ j) × (2 ^ j < 2 * n) × (j ≤ 63)
unfolding bit_ceil
bit_ceil-pow n pos fits = elim (Bool-cases (bit_and n (n - 1) == 0)) [
  | inl t ↦
      let (j, e) = pow_of_bit_and n pos (ground arith) in
      let (i, len, log, small) = len64-IsLog n pos (omega arith) in
      let same = IsLog-unique i j n log (omega (arith, pow-double j, pow-pos j)) in
      let size : j ≤ 63 = omega (arith) in (j, ground arith, omega arith, omega arith, size)
  | inr f ↦
      let two : 1 < n = not_pow-two n pos f in
      let (i, len, log, small) = len64-IsLog (n - 1) (omega arith) (omega arith) in
      let low : i < 63 = IsLog-lt i 63 (n - 1) log (omega arith) in
      (suc i, ground arith, omega arith, omega (arith, pow-double i), omega arith)
]

-- Above that the shift loses its one bit.
pub bit_ceil_wide : (n : ℕ) → 2 ^ 63 < n → n < 2 ^ 64 → bit_ceil n ≡ 0
unfolding bit_ceil
bit_ceil_wide n lo hi =
    let (i, len, log, small) = len64-IsLog (n - 1) (omega arith) (omega arith) in
    let top : i ≡ 63 = IsLog-unique i 63 (n - 1) log (omega arith) in
    let full : len64 (n - 1) ≡ 64 = omega arith in
    elim (Bool-cases (bit_and n (n - 1) == 0)) [
      | inl t ↦ absurd (wide_pow n lo hi (pow_of_bit_and n (omega arith) (ground arith)))
      | inr f ↦ rw (f, full) (ground arith)
    ]

-- §4.1: start < end, and start is a multiple of the least power of two from end - start on.
pub record ValidSubtree (start end : ℕ) : Type 0 where
  pub nonempty : start < end
  pub place : ℕ
  pub power : ℕ
  pub covers : end - start ≤ 2 ^ power
  pub least : 2 ^ power < 2 * (end - start)
  pub aligned : start ≡ place * 2 ^ power

-- Two powers of two in the range of the least one are equal.
least_pow_unique : (i j n : ℕ) → n ≤ 2 ^ i → 2 ^ i < 2 * n → n ≤ 2 ^ j → 2 ^ j < 2 * n → i ≡ j
least_pow_unique i j n a b c d = elim (dec_lt i j) [
  | yes l ↦ absurd (omega (arith, pow_mono (suc i) j l, pow-double i))
  | no g ↦ elim (dec_lt j i) [
    | yes l ↦ absurd (omega (arith, pow_mono (suc j) i l, pow-double j))
    | no e ↦ omega arith
  ]
]

-- IsValid tests exactly that, for widths up to 2 ^ 63.
pub is_valid_iff :
    (start end : ℕ) → end - start ≤ 2 ^ 63 → (is_valid start end ≡ ok true) ↔ ValidSubtree start end
unfolding is_valid
is_valid_iff start end fits = (to, from)
  where
    to : is_valid start end ≡ ok true → ValidSubtree start end
    to h =
        let below : start < end = ground arith in
        let (j, e, cov, lst, _) = bit_ceil-pow (end - start) (omega arith) fits in
        let rem : start % bit_ceil (end - start) ≡ 0 = ground arith in
        let rem' : start % 2 ^ j ≡ 0 = rw e at rem in
        record {
          nonempty = below;
          place = start / 2 ^ j;
          power = j;
          covers = cov;
          least = lst;
          aligned = omega (arith, div-add-mod' start (2 ^ j));
        }

    from : ValidSubtree start end → is_valid start end ≡ ok true
    from v =
        let below : start < end = v.nonempty in
        let (j, e, cov, lst, _) = bit_ceil-pow (end - start) (omega arith) fits in
        let same = least_pow_unique j v.power (end - start) cov lst v.covers v.least in
        let rem : v.place * 2 ^ v.power % 2 ^ v.power ≡ 0 = mul-mod_left v.place (2 ^ v.power) in
        let rem' : start % bit_ceil (end - start) ≡ 0 =
          rw (e, same) (ap (λ (x : ℕ). x % 2 ^ v.power) v.aligned ∙ rem) in
        ground (arith, pow-pos j)

-- For wider ranges, and only for those, IsValid panics.
pub is_valid_panics :
    (start end : ℕ) → end < 2 ^ 64 → (is_valid start end ≡ panic) ↔ (2 ^ 63 < end - start)
unfolding is_valid
is_valid_panics start end fits = (to, from)
  where
    to : is_valid start end ≡ panic → 2 ^ 63 < end - start
    to h = elim (dec_lt (2 ^ 63) (end - start)) [
      | yes l ↦ l
      | no g ↦
          let below : start < end = ground arith in
          let (j, e, _, _, _) = bit_ceil-pow (end - start) (omega arith) (omega arith) in
          absurd (ground (arith, pow-pos j))
    ]

    from : 2 ^ 63 < end - start → is_valid start end ≡ panic
    from wide = ground (arith, bit_ceil_wide (end - start))
