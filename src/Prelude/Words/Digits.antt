-- ===== src/Prelude/Words/Digits.antt =====
-- The native `&` and `^`, one binary digit at a time, and masks of low bits.
use Prim.Native.Nat.{
  ℕ, zero, suc, ◌+◌, ◌-◌, ◌*◌, ◌/◌, ◌%◌, ◌^◌, ◌≤◌, ◌<◌, min, differ, digits, bit_and, bit_xor,
  bit_and-bitwise, bit_xor-bitwise,
}
use mathlib.Core.Path.{◌≡◌, refl, ap, ◌∙◌, sym}
use mathlib.Core.WellFounded
use native.Mathlib.Nat.{pow-suc, one-le-pow, div-div-eq-div-mul, div-add-mod'}
use native.Mathlib.Omega.{arith}
use cactus.Prelude.Order.{lt_wf}

-- The definition counts its rounds down from the first number. A longer count gives the same.
module _ (rest : ℕ → ℕ) (join : ℕ → ℕ → ℕ) where
  abbrev rounds : ℕ → ℕ → ℕ → ℕ
  rounds = digits rest join

  abbrev Settled : ℕ → Type 0
  Settled x = (y count : ℕ) → x ≤ count → rounds count x y ≡ rounds x x y

  settle : (x : ℕ) → ((h : ℕ) → h < x → Settled h) → Settled x
  settle zero below y zero le = refl
  settle zero below y (suc count) le = refl
  settle (suc x) below y zero le = absurd (omega arith)
  settle (suc x) below y (suc count) le =
      let half = below (suc x / 2) (omega arith) (y / 2) in
      ap (λ (high : ℕ). high * 2 + join (suc x % 2) (y % 2))
        (half count (omega arith) ∙ sym (half x (omega arith)))

  settled : (x : ℕ) → Settled x
  settled x = WellFounded.induction lt_wf {C = Settled} x settle

  -- What the definition says of a positive first number, with the count set right.
  lowest_digit :
      (x y : ℕ)
      → rounds (suc x) (suc x) y
        ≡ rounds (suc x / 2) (suc x / 2) (y / 2) * 2 + join (suc x % 2) (y % 2)
  lowest_digit x y =
      ap (λ (high : ℕ). high * 2 + join (suc x % 2) (y % 2))
        (settled (suc x / 2) (y / 2) x (omega arith))

pub bit_and_step : (x y : ℕ) → bit_and x y ≡ bit_and (x / 2) (y / 2) * 2 + min (x % 2) (y % 2)
bit_and_step zero y = omega (arith, bit_and-bitwise 0 y, bit_and-bitwise (0 / 2) (y / 2))
bit_and_step (suc x) y = omega (
  arith,
  lowest_digit (λ _. 0) min x y,
  bit_and-bitwise (suc x) y,
  bit_and-bitwise (suc x / 2) (y / 2),
)

pub bit_xor_step : (x y : ℕ) → bit_xor x y ≡ bit_xor (x / 2) (y / 2) * 2 + differ (x % 2) (y % 2)
bit_xor_step zero y =
    omega (arith, bit_xor-bitwise 0 y, bit_xor-bitwise (0 / 2) (y / 2), differ_zero (y % 2))
  where
    differ_zero : (b : ℕ) → differ 0 b ≡ b
    differ_zero b = refl
bit_xor_step (suc x) y = omega (
  arith,
  lowest_digit (λ b. b) differ x y,
  bit_xor-bitwise (suc x) y,
  bit_xor-bitwise (suc x / 2) (y / 2),
)

-- Both are by the halves of the number.
halving : (P : ℕ → Type 0) → P 0 → ((x : ℕ) → P (suc x / 2) → P (suc x)) → (x : ℕ) → P x
halving P base next x = WellFounded.induction lt_wf {C = P} x go
  where
    go : (x : ℕ) → ((h : ℕ) → h < x → P h) → P x
    go zero below = base
    go (suc x) below = next x (below (suc x / 2) (omega arith))

bit_and-zero : (x : ℕ) → bit_and x 0 ≡ 0
bit_and-zero = halving (λ x. bit_and x 0 ≡ 0) refl (λ x half. omega (arith, bit_and_step (suc x) 0))

pub bit_and_self : (x : ℕ) → bit_and x x ≡ x
bit_and_self =
    halving (λ x. bit_and x x ≡ x) refl (λ x half. omega (arith, bit_and_step (suc x) (suc x)))

-- `x & 1`
pub bit_and-one : (x : ℕ) → bit_and x 1 ≡ x % 2
bit_and-one x = omega (arith, bit_and_step x 1, bit_and-zero (x / 2))

pub div_suc : (x k : ℕ) → x / 2 / 2 ^ k ≡ x / 2 ^ suc k
div_suc x k =
    let double : 2 * 2 ^ k ≡ 2 ^ suc k = omega (arith, pow-suc 2 k) in
    div-div-eq-div-mul x 2 (2 ^ k) ∙ ap (λ (d : ℕ). x / d) double

-- The remainder by 2 ^ (k + 1) over the one of the half by 2 ^ k.
mod_suc : (x k : ℕ) → x % 2 ^ suc k ≡ x / 2 % 2 ^ k * 2 + x % 2
mod_suc x k = omega (
  arith,
  pow-suc 2 k,
  div-add-mod' x (2 ^ suc k),
  div-add-mod' (x / 2) (2 ^ k),
  ap (λ (q : ℕ). q * 2 ^ suc k) (div_suc x k),
  ap (λ (d : ℕ). x / 2 / 2 ^ k * d) (pow-suc 2 k),
)

-- `x & (1<<k - 1)` keeps the k low bits.
pub bit_and_mask : (k x : ℕ) → bit_and x (2 ^ k - 1) ≡ x % 2 ^ k
bit_and_mask zero x = omega (arith, bit_and-zero x)
bit_and_mask (suc k) x =
    let half : (2 ^ suc k - 1) / 2 ≡ 2 ^ k - 1 = omega (arith, pow-suc 2 k, one-le-pow k 2) in
    let high : bit_and (x / 2) ((2 ^ suc k - 1) / 2) ≡ x / 2 % 2 ^ k =
      rw half (bit_and_mask k (x / 2)) in
    omega (
      arith,
      bit_and_step x (2 ^ suc k - 1),
      mod_suc x k,
      pow-suc 2 k,
      one-le-pow k 2 (omega arith),
    )
