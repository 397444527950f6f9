-- ===== src/Prelude/Words/Masks.antt =====
-- The highest bit in which two numbers differ, and masks that clear low bits.
use Prim.Native.Nat.add
use Prim.Native.Nat.{
  ℕ, zero, suc, ◌+◌, ◌-◌, ◌*◌, ◌/◌, ◌%◌, ◌^◌, ◌<◌, differ, bit_and, bit_xor, bit_xor-bitwise,
}
use mathlib.Core.Path.{◌≡◌, refl, ap, sym, ◌∙◌}
use mathlib.Core.Logic.{◌≢◌}
use mathlib.Core.WellFounded
use native.Mathlib.Nat.{
  mod-eq_of_lt, div-add-mod', mod-lt, div-lt_iff_lt-mul, mul-add-mod_self_right,
}
use native.Mathlib.Omega.{arith}
use cactus.Prelude.Order.{lt_wf}
use cactus.Prelude.Words.{not64, len64}
use cactus.Prelude.Words.Digits.{bit_and_step, bit_xor_step, bit_and_mask, div_suc}
use cactus.Prelude.Words.Lengths.{IsLog, len64-IsLog, pow-double, pow-pos, pow-add}

differ_bits :
    (x y : ℕ)
    → x < 2
    → y < 2
    → (differ x y < 2) × (differ x y ≡ 0 → x ≡ y) × (x ≡ y → differ x y ≡ 0)
differ_bits zero zero p q = (omega arith, (λ _. refl), (λ _. refl))
differ_bits zero (suc zero) p q = (omega arith, (λ e. omega arith), (λ e. omega arith))
differ_bits (suc zero) zero p q = (omega arith, (λ e. omega arith), (λ e. omega arith))
differ_bits (suc zero) (suc zero) p q = (omega arith, (λ _. refl), (λ _. refl))
differ_bits zero (suc (suc y)) p q = absurd (omega arith)
differ_bits (suc zero) (suc (suc y)) p q = absurd (omega arith)
differ_bits (suc (suc x)) y p q = absurd (omega arith)

-- The lowest bit of a ^ b, and the others.
bit_xor_parts :
    (a b : ℕ)
    → (bit_xor a b / 2 ≡ bit_xor (a / 2) (b / 2)) × (bit_xor a b % 2 ≡ differ (a % 2) (b % 2))
bit_xor_parts a b =
    let (d, _, _) = differ_bits (a % 2) (b % 2) (omega arith) (omega arith) in
    (omega (arith, bit_xor_step a b), omega (arith, bit_xor_step a b))

bit_xor-zero : (a b : ℕ) → bit_xor a b ≡ 0 → a ≡ b
bit_xor-zero a = WellFounded.induction lt_wf {C = λ a. (b : ℕ) → bit_xor a b ≡ 0 → a ≡ b} a step
  where
    step :
        (a : ℕ)
        → ((m : ℕ) → m < a → (b : ℕ) → bit_xor m b ≡ 0 → m ≡ b)
        → (b : ℕ) → bit_xor a b ≡ 0
        → a ≡ b
    step zero ih b e = omega (arith, bit_xor-bitwise 0 b)
    step (suc a) ih b e =
        let (high, low) = bit_xor_parts (suc a) b in
        let half = ih (suc a / 2) (omega arith) (b / 2) (omega arith) in
        let (_, same, _) = differ_bits (suc a % 2) (b % 2) (omega arith) (omega arith) in
        let bits = same (omega arith) in omega arith

-- 2 ^ s is the highest bit in which a and b differ.
pub record Splits (s a b : ℕ) : Type 0 where
  pub above : a / 2 ^ s / 2 ≡ b / 2 ^ s / 2
  pub bits_differ : a / 2 ^ s ≢ b / 2 ^ s

bit_xor-IsLog : (s a b : ℕ) → IsLog s (bit_xor a b) → Splits s a b
bit_xor-IsLog zero a b (lo, hi) =
    let (high, low) = bit_xor_parts a b in
    let half = bit_xor-zero (a / 2) (b / 2) (omega arith) in
    let (_, _, none_differ) = differ_bits (a % 2) (b % 2) (omega arith) (omega arith) in
    record {
      above = omega arith;
      bits_differ = λ e. absurd (omega (arith, none_differ (omega arith)));
    }
bit_xor-IsLog (suc s) a b (lo, hi) =
    let (high, low) = bit_xor_parts a b in
    let rest =
      bit_xor-IsLog s (a / 2) (b / 2)
        (omega (arith, pow-double s), omega (arith, pow-double s, pow-double (suc s))) in
    record {
      above = rw (← div_suc a s, ← div_suc b s) rest.above;
      bits_differ = rw (← div_suc a s, ← div_suc b s) rest.bits_differ;
    }

bit_xor-lt : (w a b : ℕ) → a < 2 ^ w → b < 2 ^ w → bit_xor a b < 2 ^ w
bit_xor-lt zero zero b p q = omega (arith, bit_xor-bitwise 0 b)
bit_xor-lt zero (suc a) b p q = absurd (omega arith)
bit_xor-lt (suc w) a b p q =
    let (high, low) = bit_xor_parts a b in
    omega (
      arith,
      pow-double w,
      bit_xor-lt w (a / 2) (b / 2) (omega (arith, pow-double w)) (omega (arith, pow-double w)),
    )

-- bits.Len64 of a ^ b finds that place.
pub len64-bit_xor :
    (a b : ℕ)
    → a ≢ b
    → a < 2 ^ 64
    → b < 2 ^ 64
    → (s : ℕ) × (len64 (bit_xor a b) ≡ suc s) × (s < 64) × Splits s a b
len64-bit_xor a b ne p q =
    let fits = bit_xor-lt 64 a b p q in
    let (s, len, log, small) =
      len64-IsLog (bit_xor a b) (pos (bit_xor a b) (bit_xor-zero a b)) fits in
    (s, len, small, bit_xor-IsLog s a b log)
  where
    pos : (x : ℕ) → (x ≡ 0 → a ≡ b) → 0 < x
    pos zero h = absurd (ne (h refl))
    pos (suc x) h = omega arith

-- A mask of the bits from place k on clears the k low bits.
bit_and_high : (k m a : ℕ) → a < 2 ^ (k + m) → bit_and a (2 ^ (k + m) - 2 ^ k) ≡ a / 2 ^ k * 2 ^ k
bit_and_high zero m a h =
    rw add.zero (omega (arith, bit_and_mask m a, mod-eq_of_lt (rw add.zero at h)))
bit_and_high (suc k) m a h =
    let wide : 2 ^ (suc k + m) ≡ 2 * 2 ^ (k + m) =
      ap (λ (x : ℕ). 2 ^ x) (add.suc k m) ∙ pow-double (k + m) in
    let mask : (2 ^ (suc k + m) - 2 ^ suc k) / 2 ≡ 2 ^ (k + m) - 2 ^ k =
      omega (arith, pow-double k) in
    let ih = bit_and_high k m (a / 2) (omega arith) in
    let step : bit_and (a / 2) ((2 ^ (suc k + m) - 2 ^ suc k) / 2) ≡ a / 2 / 2 ^ k * 2 ^ k =
      rw mask ih in
    omega (
      arith,
      bit_and_step a (2 ^ (suc k + m) - 2 ^ suc k),
      pow-double k,
      ap (λ (x : ℕ). x * 2 ^ suc k) (div_suc a k),
      ap (λ (x : ℕ). a / 2 / 2 ^ k * x) (pow-double k),
    )

-- `a &^ (1<<k - 1)` on uint64
pub and_not_low :
    (k a : ℕ) → k < 64 → a < 2 ^ 64 → bit_and a (not64 (2 ^ k - 1)) ≡ a / 2 ^ k * 2 ^ k
and_not_low k a small fits =
    let e : k + (64 - k) ≡ 64 = omega arith in
    let width : 2 ^ (k + (64 - k)) ≡ 2 ^ 64 = ap (λ (x : ℕ). 2 ^ x) e in
    let mask : not64 (2 ^ k - 1) ≡ 2 ^ (k + (64 - k)) - 2 ^ k = omega (arith, width, pow-pos k) in
    rw mask (bit_and_high k (64 - k) a (omega arith))

-- `^a & (1<<k - 1)` on uint64
pub not_and_low :
    (k a : ℕ) → k < 64 → a < 2 ^ 64 → bit_and (not64 a) (2 ^ k - 1) ≡ 2 ^ k - 1 - a % 2 ^ k
not_and_low k a small fits =
    let e : 64 - k + k ≡ 64 = omega arith in
    let width : 2 ^ (64 - k) * 2 ^ k ≡ 2 ^ 64 =
      sym (pow-add (64 - k) k) ∙ ap (λ (x : ℕ). 2 ^ x) e in
    let whole = div-add-mod' a (2 ^ k) in
    let rem : a % 2 ^ k < 2 ^ k = mod-lt a (pow-pos k) in
    let high : a / 2 ^ k < 2 ^ (64 - k) = (div-lt_iff_lt-mul (pow-pos k)).1 (rw width fits) in
    let parts : not64 a ≡ (2 ^ (64 - k) - 1 - a / 2 ^ k) * 2 ^ k + (2 ^ k - 1 - a % 2 ^ k) =
      split_complement (2 ^ k) (2 ^ (64 - k)) (a / 2 ^ k) (a % 2 ^ k) a high rem (sym whole)
        width in
    bit_and_mask k (not64 a)
    ∙ ap (λ (x : ℕ). x % 2 ^ k) parts
    ∙ mul-add-mod_self_right _ (2 ^ k) _
    ∙ mod-eq_of_lt (omega arith)
  where
    split_complement :
        (P Q h r a : ℕ)
        → h < Q
        → r < P
        → a ≡ h * P + r
        → Q * P ≡ 2 ^ 64
        → not64 a ≡ (Q - 1 - h) * P + (P - 1 - r)
    split_complement P Q h r a hq hr ea eq =
        let sum : (Q - 1 - h) * P + h * P + P ≡ Q * P = factor (Q - 1 - h) h P Q (omega arith) in
        omega arith
      where
        factor : (x h P Q : ℕ) → x + h + 1 ≡ Q → x * P + h * P + P ≡ Q * P
        factor x h P Q e = rw (← e) (omega arith)
