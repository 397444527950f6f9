-- ===== src/Tlogx/Covering.antt =====
-- FindSubtrees of tlogx/subtree.go against §4.5: two valid subtrees that cover a range tightly.
use Prim.Native.Nat.{bit_and, bit_xor}
use native.Mathlib.Decide.{dec_lt, dec_le}
use native.Mathlib.Nat.{div-add-mod', mod-lt, div-eq_of_lt-le}
use cactus.Prelude.{
  ℕ, zero, suc, ◌+◌, ◌-◌, ◌*◌, ◌/◌, ◌%◌, ◌^◌, ◌≤◌, ◌<◌, ◌≡◌, refl, sym, ap, ◌∙◌, List, [], ◌∷◌, ok,
  lt→not-leb, arith, ◌==◌, false,
}
use cactus.Prelude.Words.{len64, not64}
use cactus.Prelude.Words.Lengths.{
  IsLog-lt, len64-IsLog, len64-zero, pow-pos, pow-double, pow_mono, pow-add,
}
use cactus.Prelude.Words.Masks.{Splits, len64-bit_xor, and_not_low, not_and_low}
use cactus.Tlogx.{Subtree, find_subtrees}
use cactus.Tlogx.Intervals.{ValidSubtree, bit_ceil-pow, shl_one-pow}

-- What §4.5 asks of a two-part cover of [start, end).
pub record Covers (start end : ℕ) (left right : Subtree) : Type 0 where
  pub left_valid : ValidSubtree left.start left.end
  pub right_valid : ValidSubtree right.start right.end
  pub reaches : left.start ≤ start
  pub meets : left.end ≡ right.start
  pub ends : right.end ≡ end
  pub splits : (start < left.end) × (right.start < end)
  -- the left subtree is full, and more than half of it is asked for
  pub tight : left.end - left.start < 2 * (left.end - start)

-- bits.Len64 of z is the least power of two above z.
len64_tight :
    (s z : ℕ)
    → s < 64
    → z < 2 ^ s
    → (l : ℕ) × (len64 z ≡ l) × (z < 2 ^ l) × (2 ^ l < 2 * (z + 1)) × (l ≤ s)
len64_tight s zero hs h = (0, len64-zero, omega arith, omega arith, omega arith)
len64_tight s (suc z) hs h =
    let (i, e, log, small) =
      len64-IsLog (suc z) (omega arith) (omega (arith, pow_mono s 64 (omega arith))) in
    (suc i, e, log.1, omega (arith, pow-double i, log.0), IsLog-lt i s (suc z) log h)

-- A multiple of a power of two is a multiple of the lower ones.
pow-multiple : (b l s : ℕ) → l ≤ s → (m : ℕ) × (b * 2 ^ s ≡ m * 2 ^ l)
pow-multiple b l s h =
    let e : s - l + l ≡ s = omega arith in
    let split : 2 ^ (s - l) * 2 ^ l ≡ 2 ^ s = sym (pow-add (s - l) l) ∙ ap (λ (x : ℕ). 2 ^ x) e in
    (b * 2 ^ (s - l), omega (arith, ap (λ (x : ℕ). b * x) split))

-- The pivot b * 2 ^ s between start and last = end - 1.
record Pivot (start last s b : ℕ) : Type 0 where
  above : start < b * 2 ^ s
  upto : b * 2 ^ s ≤ last
  near : last < b * 2 ^ s + 2 ^ s
  zeros : b * 2 ^ s ≡ start + 1 + (2 ^ s - 1 - start % 2 ^ s)

split-Pivot :
    (start last s : ℕ) → start < last → Splits s start last → Pivot start last s (last / 2 ^ s)
split-Pivot start last s lt sp =
    let P : ℕ = 2 ^ s in
    let a : ℕ = start / P in
    let b : ℕ = last / P in
    let ea : a * P + start % P ≡ start = div-add-mod' start P in
    let eb : b * P + last % P ≡ last = div-add-mod' last P in
    let ra : start % P < P = mod-lt start (pow-pos s) in
    let rb : last % P < P = mod-lt last (pow-pos s) in
    let next : b ≡ a + 1 = elim (dec_lt a b) [
      | yes l ↦ omega (arith, sp.above)
      | no g ↦
          let back : a ≡ b + 1 = omega (arith, sp.above, sp.bits_differ) in
          absurd (omega (arith, ap (λ (x : ℕ). x * P) back))
    ] in
    let eq : b * P ≡ a * P + P = ap (λ (x : ℕ). x * P) next ∙ omega arith in
    record { above = omega arith; upto = omega arith; near = omega arith; zeros = omega arith }

abbrev left_of : ℕ → ℕ → Subtree
left_of mid l = record { start = mid - 2 ^ l; end = mid }

abbrev right_of : ℕ → ℕ → Subtree
right_of mid end = record { start = mid; end = end }

-- Clearing the low bits of start leads to the last multiple of 2 ^ l below the pivot.
left_start-eq :
    (start mid m l : ℕ)
    → mid ≡ m * 2 ^ l
    → start < mid
    → mid ≤ start + 2 ^ l
    → start / 2 ^ l * 2 ^ l ≡ mid - 2 ^ l
left_start-eq start mid zero l e lt near = absurd (omega arith)
left_start-eq start mid (suc m) l e lt near =
    let e' : mid ≡ m * 2 ^ l + 2 ^ l = omega arith in
    let q : start / 2 ^ l ≡ m = div-eq_of_lt-le (2 ^ l) (omega arith) (omega arith) in
    ap (λ (x : ℕ). x * 2 ^ l) q ∙ omega arith

pred_times : (m x : ℕ) → m * x - x ≡ (m - 1) * x
pred_times zero x = omega arith
pred_times (suc m) x = let e : suc m - 1 ≡ m = omega arith in rw e (omega arith)

times_pos : (m x : ℕ) → 0 < m * x → x ≤ m * x
times_pos zero x h = absurd (omega arith)
times_pos (suc m) x h = omega arith

-- A least power of two above n is at most any power of two above it.
least_below : (j s n : ℕ) → 2 ^ j < 2 * n → n ≤ 2 ^ s → j ≤ s
least_below j s n lst h = elim (dec_le j s) [
  | yes p ↦ p
  | no g ↦ absurd (omega (arith, pow_mono (suc s) j (omega arith), pow-double s))
]

Covers-start :
    (start mid s l b : ℕ) {last : ℕ}
    → mid ≡ b * 2 ^ s
    → l ≤ s
    → Pivot start last s b
    → mid - start ≤ 2 ^ l
    → start / 2 ^ l * 2 ^ l ≡ mid - 2 ^ l
Covers-start start mid s l b e ls p cover =
    let (m, em) = pow-multiple b l s ls in
    left_start-eq start mid m l (e ∙ em) (omega (arith, p.above)) (omega arith)

module _ (start end s b : ℕ) (p : Pivot start (end - 1) s b) (l : ℕ) (ls : l ≤ s)
    (cover : b * 2 ^ s - start ≤ 2 ^ l) (least : 2 ^ l < 2 * (b * 2 ^ s - start))
    (small : s < 64) where
  -- The left subtree does not reach below 0.
  full_width : b * 2 ^ s - (b * 2 ^ s - 2 ^ l) ≡ 2 ^ l
  full_width = let (m, e) = pow-multiple b l s ls in omega (arith, times_pos m (2 ^ l), p.above)

  left-valid : ValidSubtree (b * 2 ^ s - 2 ^ l) (b * 2 ^ s)
  left-valid =
      let (m, e) = pow-multiple b l s ls in
      record {
        nonempty = omega (arith, pow-pos l, p.above);
        place = m - 1;
        power = l;
        covers = omega arith;
        least = omega (arith, full_width, pow-pos l);
        aligned = omega (arith, ap (λ (x : ℕ). x - 2 ^ l) e, pred_times m (2 ^ l));
      }

  right-valid : ValidSubtree (b * 2 ^ s) end
  right-valid =
      let upto : b * 2 ^ s < end = omega (arith, p.upto, p.above) in
      let near : end - b * 2 ^ s ≤ 2 ^ s = omega (arith, p.near) in
      let (j, _, cov, lst, _) =
        bit_ceil-pow (end - b * 2 ^ s) (omega arith) (omega (arith, pow_mono s 63 (omega arith))) in
      let js : j ≤ s = least_below j s (end - b * 2 ^ s) lst near in
      let (m, e) = pow-multiple b j s js in
      record { nonempty = upto; place = m; power = j; covers = cov; least = lst; aligned = e }

  cover-Covers : Covers start end (left_of (b * 2 ^ s) l) (right_of (b * 2 ^ s) end)
  cover-Covers = record {
    left_valid = left-valid;
    right_valid = right-valid;
    reaches = omega arith;
    meets = refl;
    ends = refl;
    splits = (p.above, omega (arith, p.above, p.upto));
    tight = omega (arith, full_width);
  }

abbrev two_parts : ℕ → ℕ → ℕ → List Subtree
two_parts mid end l = left_of mid l ∷ right_of mid end ∷ []

find_run :
    (start end s l mid : ℕ)
    → start + 1 < end
    → s < 64
    → l < 64
    → len64 (bit_xor start (end - 1)) ≡ suc s
    → bit_and (end - 1) (not64 (2 ^ s - 1)) ≡ mid
    → len64 (bit_and (not64 start) (2 ^ s - 1)) ≡ l
    → bit_and start (not64 (2 ^ l - 1)) ≡ mid - 2 ^ l
    → find_subtrees start end ≡ ok (two_parts mid end l)
unfolding find_subtrees
find_run start end s l mid more s64 l64 split em el es =
    let one : suc s - 1 ≡ s = omega arith in
    let many : (end - start == 1) ≡ false = ground arith in
    rw (
      lt→not-leb end start (omega arith),
      many,
      split,
      one,
      shl_one-pow s s64,
      em,
      el,
      shl_one-pow l l64,
      es,
    )

-- A range of two entries or more is covered by two subtrees as §4.5 asks.
pub find_subtrees-Covers :
    (start end : ℕ)
    → start + 1 < end
    → end < 2 ^ 64
    → (left : Subtree) × (right : Subtree) × (find_subtrees start end ≡ ok (left ∷ right ∷ []))
      × Covers start end left right
unfolding find_subtrees
find_subtrees-Covers start end more fits =
    let last : ℕ = end - 1 in
    let (s, split, small, sp) =
      len64-bit_xor start last (omega arith) (omega arith) (omega arith) in
    let b : ℕ = last / 2 ^ s in
    let mid : ℕ = b * 2 ^ s in
    let p = split-Pivot start last s (omega arith) sp in
    let rem : start % 2 ^ s < 2 ^ s = mod-lt start (pow-pos s) in
    let (l, left_split, over, least, ls) =
      len64_tight s (2 ^ s - 1 - start % 2 ^ s) small (omega arith) in
    let cover : mid - start ≤ 2 ^ l = omega (arith, p.zeros) in
    let least' : 2 ^ l < 2 * (mid - start) = omega (arith, p.zeros) in
    let below = Covers-start start mid s l b refl ls p cover in
    (
      left_of mid l,
      right_of mid end,
      find_run start end s l mid more small (omega arith) split
          (and_not_low s last small (omega arith))
          (ap len64 (not_and_low s start small (omega arith)) ∙ left_split)
          (and_not_low l start (omega arith) (omega arith) ∙ below),
      cover-Covers start end s b p l ls cover least' small,
    )
