-- ===== src/Tlogx/Merkle.antt =====
-- The Merkle tree hash of RFC 9162 over a range of leaves, and the path from a leaf to its root.
-- They are what the proofs of this package are about.
use cactus.Prelude.{
  ℕ, zero, suc, ◌+◌, ◌-◌, ◌^◌, ◌≤◌, ◌<◌, ◌≡◌, refl, List, [], ◌∷◌, ◌++◌, leb, ltb, lt→not-leb,
  lt→ltb, le→not-ltb, sym, ◌∙◌, if◌then◌else◌, arith,
}
use native.Mathlib.Decide.{dec_lt}
use cactus.Prelude.Words.{shl_one, len64}
use cactus.Prelude.Words.Lengths.{
  IsLog, IsLog-lt, len64-IsLog, pow-pos, pow-double, pow_mono, IsLog-unique,
}
use cactus.Tlogx.{Hash, hash_children}

-- tlogx/inclusion.go: the largest power of two below n
unfoldable pub largest_power_of_two_lt : ℕ → ℕ
largest_power_of_two_lt n = if leb n 1 then 0 else shl_one (len64 (n - 1) - 1)

pub largest_power_IsLog :
    (n : ℕ)
    → 2 ≤ n
    → n ≤ 2 ^ 64
    → (j : ℕ) × (largest_power_of_two_lt n ≡ 2 ^ j) × IsLog j (n - 1) × (j < 64)
unfolding largest_power_of_two_lt
largest_power_IsLog n h fits =
    let (j, e, l, b) = len64-IsLog (n - 1) (omega arith) (omega arith) in (j, ground arith, l, b)

-- `n - 1` has j + 1 digits exactly if 2 ^ j is the largest power of two below n.
pub largest_power_of_IsLog :
    (n j : ℕ) → 2 ≤ n → n ≤ 2 ^ 64 → IsLog j (n - 1) → largest_power_of_two_lt n ≡ 2 ^ j
largest_power_of_IsLog n j h fits l =
    let (i, e, l', b) = largest_power_IsLog n h fits in
    let same : i ≡ j = IsLog-unique i j (n - 1) l' l in rw (← same) e

pub split-IsLog : (n : ℕ) → 1 < n → n ≤ 2 ^ 64 → (j : ℕ) × IsLog j (n - 1)
split-IsLog n h fits = let (j, e, l, b) = largest_power_IsLog n h fits in (j, l)

-- The split of a tree of depth d + 1 leaves children of depth d.
pub split_depth : (d j n : ℕ) → IsLog j (n - 1) → n ≤ 2 ^ suc d → j ≤ d
split_depth d j n log h =
    omega (arith, IsLog-lt j (suc d) (n - 1) log (omega (arith, pow-pos j, log.0)))

split_bounds :
    (d e n : ℕ)
    → 1 < n
    → n ≤ 2 ^ suc d
    → n ≤ 2 ^ suc e
    → n ≤ 2 ^ 64
    → (j : ℕ) × IsLog j (n - 1) × (j ≤ d) × (j ≤ e)
split_bounds d e n h p q fits =
    let (j, log) = split-IsLog n h fits in
    (j, log, split_depth d j n log p, split_depth e j n log q)

module _ (hash : List ℕ → Hash) (leaf : ℕ → Hash) where
  -- MTH(D[lo : lo + n]) for 1 ≤ n ≤ 2 ^ depth
  unfoldable pub mth : ℕ → ℕ → ℕ → Hash
  mth zero lo n = leaf lo
  mth (suc depth) lo n =
      let k = largest_power_of_two_lt n in
      let node = hash_children hash (mth depth lo k) (mth depth (lo + k) (n - k)) in
      if leb n 1 then leaf lo else node

  -- The siblings of leaf lo + i on its way to the root of D[lo : lo + n], leaf upwards.
  unfoldable pub path : ℕ → ℕ → ℕ → ℕ → List Hash
  path zero lo n i = []
  path (suc depth) lo n i =
      let k = largest_power_of_two_lt n in
      let left = path depth lo k i ++ (mth depth (lo + k) (n - k) ∷ []) in
      let right = path depth (lo + k) (n - k) (i - k) ++ (mth depth lo k ∷ []) in
      if leb n 1 then [] else if ltb i k then left else right

  pub mth-one : (d lo : ℕ) → mth d lo 1 ≡ leaf lo
  unfolding mth
  mth-one zero lo = refl
  mth-one (suc d) lo = refl

  pub path-one : (d lo i : ℕ) → path d lo 1 i ≡ []
  unfolding path
  path-one zero lo i = refl
  path-one (suc d) lo i = refl

  -- The tree of n leaves has its left child over 2 ^ j leaves.
  module _ (d lo n j : ℕ) (log : IsLog j (n - 1)) (fits : n ≤ 2 ^ 64) where
    two_leaves : 2 ≤ n
    two_leaves = omega (arith, pow-pos j)

    pub mth-node :
        mth (suc d) lo n ≡ hash_children hash (mth d lo (2 ^ j)) (mth d (lo + 2 ^ j) (n - 2 ^ j))
    unfolding mth
    mth-node = rw (lt→not-leb n 1 two_leaves, largest_power_of_IsLog n j two_leaves fits log)

    pub path-left :
        (i : ℕ)
        → i < 2 ^ j
        → path (suc d) lo n i ≡ path d lo (2 ^ j) i ++ (mth d (lo + 2 ^ j) (n - 2 ^ j) ∷ [])
    unfolding path
    path-left i h = rw (
      lt→not-leb n 1 two_leaves,
      largest_power_of_IsLog n j two_leaves fits log,
      lt→ltb i (2 ^ j) h,
    )

    pub path-right :
        (i : ℕ)
        → 2 ^ j ≤ i
        → path (suc d) lo n i
          ≡ path d (lo + 2 ^ j) (n - 2 ^ j) (i - 2 ^ j) ++ (mth d lo (2 ^ j) ∷ [])
    unfolding path
    path-right i h = rw (
      lt→not-leb n 1 two_leaves,
      largest_power_of_IsLog n j two_leaves fits log,
      le→not-ltb i (2 ^ j) h,
    )

  -- The depth does not matter as long as it suffices.
  pub mth-depth :
      (d e lo n : ℕ) → 0 < n → n ≤ 2 ^ d → n ≤ 2 ^ e → n ≤ 2 ^ 64 → mth d lo n ≡ mth e lo n
  mth-depth zero e lo n pos p q fits =
      let one : n ≡ 1 = omega arith in rw one (mth-one 0 lo ∙ sym (mth-one e lo))
  mth-depth (suc d) zero lo n pos p q fits =
      let one : n ≡ 1 = omega arith in rw one (mth-one (suc d) lo ∙ sym (mth-one 0 lo))
  mth-depth (suc d) (suc e) lo n pos p q fits = elim (dec_lt 1 n) [
    | no small ↦
        let one : n ≡ 1 = omega arith in rw one (mth-one (suc d) lo ∙ sym (mth-one (suc e) lo))
    | yes more ↦
        let (j, log, dp, ep) = split_bounds d e n more p q fits in
        let left =
          mth-depth d e lo (2 ^ j) (pow-pos j) (pow_mono j d dp) (pow_mono j e ep) (omega arith) in
        let right =
          mth-depth d e (lo + 2 ^ j) (n - 2 ^ j) (omega arith)
            (omega (arith, log.1, pow-double j, pow_mono j d dp))
            (omega (arith, log.1, pow-double j, pow_mono j e ep)) (omega arith) in
        rw (mth-node d lo n j log fits, mth-node e lo n j log fits, left, right)
  ]
