-- ===== src/Prelude/Words/Lengths.antt =====
-- bits.Len64 and the test `n & (n-1) == 0`, by powers of two.
use Prim.Native.Nat.add
use Prim.Native.Nat.{ℕ, zero, suc, ◌+◌, ◌-◌, ◌*◌, ◌/◌, ◌%◌, ◌^◌, ◌≤◌, ◌<◌, bit_and}
use mathlib.Core.Path.{◌≡◌, refl, ap, ◌≡⟨◌⟩◌, ◌∎}
use mathlib.Core.WellFounded
use native.Mathlib.Nat.{pow-suc, one-le-pow, pow-le-pow_right}
use native.Mathlib.Decide.{dec_lt}
use native.Mathlib.Omega.{arith}
use cactus.Prelude.Order.{lt_wf}
use cactus.Prelude.Words.{len_fuel, len64}
use cactus.Prelude.Words.Digits.{bit_and_step, bit_and_self}

pub pow-pos : (j : ℕ) → 0 < 2 ^ j
pow-pos j = one-le-pow j 2 (omega arith)

pub pow-double : (j : ℕ) → 2 ^ suc j ≡ 2 * 2 ^ j
pow-double j = omega (arith, pow-suc 2 j)

pub pow_mono : (i j : ℕ) → i ≤ j → 2 ^ i ≤ 2 ^ j
pow_mono i j h = pow-le-pow_right (omega arith) h

-- `n` has exactly `suc j` binary digits
abbrev pub IsLog : ℕ → ℕ → Type 0
IsLog j n = (2 ^ j ≤ n) × (n < 2 ^ suc j)

pub IsLog-unique : (i j n : ℕ) → IsLog i n → IsLog j n → i ≡ j
IsLog-unique i j n (a, b) (c, d) = elim (dec_lt i j) [
  | yes lt ↦ absurd (omega (arith, pow_mono (suc i) j lt))
  | no ge ↦ elim (dec_lt j i) [
    | yes gt ↦ absurd (omega (arith, pow_mono (suc j) i gt))
    | no le ↦ omega arith
  ]
]

-- 2 ^ j fits below what n fits below.
pub IsLog-lt : (j e n : ℕ) → IsLog j n → n < 2 ^ e → j < e
IsLog-lt j e n (lo, hi) h = elim (dec_lt j e) [
  | yes p ↦ p
  | no p ↦ absurd (omega (arith, pow_mono e j (omega arith)))
]

IsLog-half : (j n : ℕ) → IsLog j (n / 2) → IsLog (suc j) n
IsLog-half j n (lo, hi) =
    (omega (arith, pow-double j), omega (arith, pow-double j, pow-double (suc j)))

len_fuel-IsLog :
    (f n : ℕ) → 0 < n → n < 2 ^ f → (j : ℕ) × (len_fuel f n ≡ suc j) × IsLog j n × (j < f)
unfolding len_fuel
len_fuel-IsLog zero n p h = absurd (omega arith)
len_fuel-IsLog (suc f) n p h = elim (dec_lt 0 (n / 2)) [
  | no small ↦ (0, ground (arith, len_fuel-zero f (n / 2)), (omega arith, omega arith), omega arith)
  | yes more ↦
      let (j, e, l, b) = len_fuel-IsLog f (n / 2) more (omega (arith, pow-double f)) in
      (suc j, ground (arith), IsLog-half j n l, omega arith)
]
  where
    len_fuel-zero : (f n : ℕ) → n ≡ 0 → len_fuel f n ≡ 0
    len_fuel-zero zero n e = refl
    len_fuel-zero (suc f) n e = ground arith

-- On a positive uint64, bits.Len64 counts its binary digits.
pub len64-IsLog : (n : ℕ) → 0 < n → n < 2 ^ 64 → (j : ℕ) × (len64 n ≡ suc j) × IsLog j n × (j < 64)
unfolding len64
len64-IsLog n = len_fuel-IsLog 64 n

pub len64-zero : len64 0 ≡ 0
unfolding len64
len64-zero = refl

-- The test for powers of two: `n & (n-1) == 0`
pred_pow : (n : ℕ) → 0 < n → bit_and n (n - 1) ≡ 0 → (j : ℕ) × (n ≡ 2 ^ j)
pred_pow n =
    WellFounded.induction lt_wf {C = λ n. 0 < n → bit_and n (n - 1) ≡ 0 → (j : ℕ) × (n ≡ 2 ^ j)} n
      step
  where
    step :
        (n : ℕ)
        → ((m : ℕ) → m < n → 0 < m → bit_and m (m - 1) ≡ 0 → (j : ℕ) × (m ≡ 2 ^ j))
        → 0 < n
        → bit_and n (n - 1) ≡ 0
        → (j : ℕ) × (n ≡ 2 ^ j)
    step n ih p e = elim (dec_lt 0 (n % 2)) [
      | yes odd ↦
          let same : (n - 1) / 2 ≡ n / 2 = omega arith in
          let low : bit_and (n / 2) ((n - 1) / 2) ≡ 0 = omega (arith, bit_and_step n (n - 1)) in
          let low' : bit_and (n / 2) (n / 2) ≡ 0 = rw same at low in
          (0, omega (arith, bit_and_self (n / 2)))
      | no even ↦
          let same : (n - 1) / 2 ≡ n / 2 - 1 = omega arith in
          let low : bit_and (n / 2) ((n - 1) / 2) ≡ 0 = omega (arith, bit_and_step n (n - 1)) in
          let (j, q) = ih (n / 2) (omega arith) (omega arith) (rw same at low) in
          (suc j, omega (arith, pow-double j))
    ]

pub pow_of_bit_and : (n : ℕ) → 0 < n → bit_and n (n - 1) ≡ 0 → (j : ℕ) × (n ≡ 2 ^ j)
pow_of_bit_and = pred_pow

pub bit_and-pow : (j : ℕ) → bit_and (2 ^ j) (2 ^ j - 1) ≡ 0
bit_and-pow zero = refl
bit_and-pow (suc j) =
    let half : 2 ^ suc j / 2 ≡ 2 ^ j = omega (arith, pow-double j) in
    let pred : (2 ^ suc j - 1) / 2 ≡ 2 ^ j - 1 = omega (arith, pow-double j, pow-pos j) in
    let parts : bit_and (2 ^ suc j / 2) ((2 ^ suc j - 1) / 2) ≡ 0 =
      rw (half, pred) (bit_and-pow j) in
    omega (arith, bit_and_step (2 ^ suc j) (2 ^ suc j - 1), pow-double j)

pub pow-add : (i j : ℕ) → 2 ^ (i + j) ≡ 2 ^ i * 2 ^ j
pow-add zero j = rw add.zero (omega arith)
pow-add (suc i) j = rw (add.suc i j, pow-double (i + j), pow-double i, pow-add i j) (omega arith)

-- 2 ^ J over a smaller 2 ^ j
pub pow-split : (j J : ℕ) → j < J → 2 ^ J ≡ 2 * 2 ^ (J - j - 1) * 2 ^ j
pow-split j J h =
    let e : J ≡ suc (J - j - 1 + j) = omega arith in
    2 ^ J
    ≡⟨ ap (λ (x : ℕ). 2 ^ x) e ⟩ 2 ^ suc (J - j - 1 + j)
    ≡⟨ pow-double (J - j - 1 + j) ⟩ 2 * 2 ^ (J - j - 1 + j)
    ≡⟨ ap (λ (x : ℕ). 2 * x) (pow-add (J - j - 1) j) ⟩ 2 * (2 ^ (J - j - 1) * 2 ^ j)
    ≡⟨ omega arith ⟩ 2 * 2 ^ (J - j - 1) * 2 ^ j ∎
