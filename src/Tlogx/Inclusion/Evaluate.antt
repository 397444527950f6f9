-- ===== src/Tlogx/Inclusion/Evaluate.antt =====
-- The evaluation loop on the path of a leaf rebuilds the root.
use cactus.Prelude.{
  ℕ, zero, suc, ◌+◌, ◌-◌, ◌*◌, ◌/◌, ◌%◌, ◌^◌, ◌≤◌, ◌<◌, ◌≡◌, refl, ap, List, [], ◌∷◌, ◌++◌, ok,
  arith, ◌>>=◌,
}
use cactus.Prelude.Words.Digits.{bit_and-one}
use cactus.Prelude.Words.Lengths.{IsLog, IsLog-lt, pow-double, pow-pos, pow_mono, pow-split}
use cactus.Tlogx.{Hash, hash_children}
use native.Mathlib.Decide.{dec_lt}
use cactus.Tlogx.Merkle.{
  mth, path, mth-one, path-one, mth-node, path-left, path-right, split-IsLog, split_depth,
}
use cactus.Tlogx.Inclusion.{skip_zeros, EvalState, eval_step, eval_loop}

mul-pow-suc : (c t : ℕ) → c * 2 ^ suc t ≡ 2 * (c * 2 ^ t)
mul-pow-suc c t = omega (arith, ap (λ (x : ℕ). c * x) (pow-double t))

-- Trailing zero bits of fn = sn are dropped up to the lowest set bit.
skip_zeros-pow :
    (fuel t c fn : ℕ) → fn ≡ c * 2 ^ t → c % 2 ≡ 1 → t ≤ fuel → skip_zeros fuel fn fn ≡ (c, c)
unfolding skip_zeros
skip_zeros-pow zero zero c fn e odd h = ground arith
skip_zeros-pow zero (suc t) c fn e odd h = absurd (omega arith)
skip_zeros-pow (suc fuel) zero c fn e odd h = ground (arith, bit_and-one fn)
skip_zeros-pow (suc fuel) (suc t) c fn e odd h =
    let half : fn / 2 ≡ c * 2 ^ t = omega (arith, mul-pow-suc c t) in
    let even : fn % 2 ≡ 0 = omega (arith, mul-pow-suc c t) in
    let pos : 0 < c * 2 ^ t = grind (arith, pow-pos t) in
    ground (
      arith,
      bit_and-one fn,
      mul-pow-suc c t,
      skip_zeros-pow fuel t c (fn / 2) half odd (omega arith),
    )

-- An odd fn stops the inner loop at once.
skip_zeros-odd : (fuel fn sn : ℕ) → fn % 2 ≡ 1 → skip_zeros fuel fn sn ≡ (fn, sn)
unfolding skip_zeros
skip_zeros-odd zero fn sn odd = refl
skip_zeros-odd (suc fuel) fn sn odd = ground (arith, bit_and-one fn)

module _ (hash : List ℕ → Hash) where
  pub eval_loop-append :
      (s : EvalState) (ps qs : List Hash)
      → eval_loop hash s (ps ++ qs) ≡ (eval_loop hash s ps >>= λ t. eval_loop hash t qs)
  unfolding eval_loop
  eval_loop-append s [] qs = refl
  eval_loop-append s (p ∷ ps) qs = ground (arith, eval_loop-append (eval_step hash s p) ps qs)

  eval_loop-snoc :
      (s t t' : EvalState) (ps : List Hash) (p : Hash)
      → eval_loop hash s ps ≡ ok t
      → eval_loop hash t (p ∷ []) ≡ ok t'
      → eval_loop hash s (ps ++ (p ∷ [])) ≡ ok t'
  eval_loop-snoc s t t' ps p e f = rw (eval_loop-append s ps (p ∷ []), e) f

  -- The three ways a proof element joins.
  module _ (fn sn : ℕ) (r p : Hash) where
    abbrev at : EvalState
    at = record { fn = fn; sn = sn; r = r }

    step-right-sibling :
        (a b : ℕ)
        → fn ≡ 2 * a
        → sn / 2 ≡ b
        → fn < sn
        → eval_loop hash at (p ∷ []) ≡ ok (record { fn = a; sn = b; r = hash_children hash r p })
    unfolding eval_loop eval_step
    step-right-sibling a b even half below = ground (arith, bit_and-one fn)

    step-left-sibling :
        (a b : ℕ)
        → fn ≡ 2 * a + 1
        → sn / 2 ≡ b
        → fn < sn
        → eval_loop hash at (p ∷ []) ≡ ok (record { fn = a; sn = b; r = hash_children hash p r })
    unfolding eval_loop eval_step
    step-left-sibling a b odd half below =
        ground (arith, bit_and-one fn, skip_zeros-odd 64 fn sn (omega arith))

    step-right-edge :
        (t c a : ℕ)
        → c / 2 ≡ a
        → fn ≡ c * 2 ^ t
        → c % 2 ≡ 1
        → t ≤ 64
        → sn ≡ fn
        → eval_loop hash at (p ∷ []) ≡ ok (record { fn = a; sn = a; r = hash_children hash p r })
    unfolding eval_loop eval_step
    step-right-edge t c a half e odd small same =
        let pos : 0 < c * 2 ^ t = grind (arith, pow-pos t) in
        rw same (ground (arith, skip_zeros-pow 64 t c fn e odd small))

module _ (hash : List ℕ → Hash) (leaf : ℕ → Hash) where
  -- The bit of u at place j.
  top_bit :
      (j u : ℕ) → u < 2 ^ suc j → (e : ℕ) × (u' : ℕ) × (e < 2) × (u' < 2 ^ j) × (u ≡ u' + e * 2 ^ j)
  top_bit j u h = elim (dec_lt u (2 ^ j)) [
    | yes l ↦ (0, u, omega arith, l, omega arith)
    | no g ↦ (1, u - 2 ^ j, omega arith, omega (arith, pow-double j), omega arith)
  ]

  -- Inside a larger tree: a full subtree of 2 ^ j leaves that is not on the right edge.
  eval-interior :
      (j d lo i x a u b fn sn : ℕ)
      → j ≤ d
      → j < 64
      → i < 2 ^ j
      → x ≡ lo + i
      → fn ≡ i + a * 2 ^ j
      → u < 2 ^ j
      → sn ≡ u + b * 2 ^ j
      → a < b
      → eval_loop hash (record { fn = fn; sn = sn; r = leaf x }) (path hash leaf d lo (2 ^ j) i)
        ≡ ok (record { fn = a; sn = b; r = mth hash leaf d lo (2 ^ j) })
  eval-interior zero d lo i x a u b fn sn jd js hi ex ef hu es ab =
      rw (path-one hash leaf d lo i, mth-one hash leaf d lo)
        (let ex' : x ≡ lo = omega arith in
          let ef' : fn ≡ a = omega arith in
          let es' : sn ≡ b = omega arith in rw (ex', ef', es') (unfold eval_loop in refl))
  eval-interior (suc j) zero lo i x a u b fn sn jd js hi ex ef hu es ab = absurd (omega arith)
  eval-interior (suc j) (suc d) lo i x a u b fn sn jd js hi ex ef hu es ab =
      let log : IsLog j (2 ^ suc j - 1) =
        (omega (arith, pow-double j, pow-pos j), omega (arith, pow-pos (suc j))) in
      let fits : 2 ^ suc j ≤ 2 ^ 64 = pow_mono (suc j) 64 (omega arith) in
      let half : 2 ^ suc j - 2 ^ j ≡ 2 ^ j = omega (arith, pow-double j) in
      let (e, u', he, hu', eu) = top_bit j u hu in
      let es' : sn ≡ u' + (2 * b + e) * 2 ^ j = omega (arith, mul-pow-suc b j) in
      rw (mth-node hash leaf d lo (2 ^ suc j) j log fits, half)
        (elim (dec_lt i (2 ^ j)) [
          | yes l ↦
              rw (path-left hash leaf d lo (2 ^ suc j) j log fits i l, half)
                (eval_loop-snoc hash _ _ _ _ _
                  (eval-interior j d lo i x (2 * a) u' (2 * b + e) fn sn (omega arith) (omega arith)
                    l ex (omega (arith, mul-pow-suc a j)) hu' es' (omega arith))
                  (step-right-sibling hash (2 * a) (2 * b + e) _ _ a b (omega arith) (omega arith)
                    (omega arith)))
          | no g ↦
              rw (path-right hash leaf d lo (2 ^ suc j) j log fits i (omega arith), half)
                (eval_loop-snoc hash _ _ _ _ _
                  (eval-interior j d (lo + 2 ^ j) (i - 2 ^ j) x (2 * a + 1) u' (2 * b + e) fn sn
                    (omega arith) (omega arith) (omega (arith, pow-double j)) (omega arith)
                    (omega (arith, mul-pow-suc a j)) hu' es' (omega arith))
                  (step-left-sibling hash (2 * a + 1) (2 * b + e) _ _ a b (omega arith)
                    (omega arith) (omega arith)))
        ])

  -- On the right edge of the tree: n leaves that end where the tree does.
  -- What is left of fn and sn are equal, the bits above place J times a power of two.
  abbrev EdgeEnds : (d lo n i x c J fn sn : ℕ) → Type 0
  EdgeEnds d lo n i x c J fn sn =
      (t : ℕ) × (f : ℕ) × (t ≤ J)
      × (f ≡ c * 2 ^ t)
      × (eval_loop hash (record { fn = fn; sn = sn; r = leaf x }) (path hash leaf d lo n i)
          ≡ ok (record { fn = f; sn = f; r = mth hash leaf d lo n }))

  edge-one :
      (d lo n i x c J fn sn : ℕ)
      → n ≡ 1
      → i < n
      → x ≡ lo + i
      → fn ≡ i + c * 2 ^ J
      → sn ≡ n - 1 + c * 2 ^ J
      → EdgeEnds d lo n i x c J fn sn
  edge-one d lo n i x c J fn sn one hi ex ef es =
      let ex' : x ≡ lo = omega arith in
      let same : sn ≡ fn = omega arith in
      (
        J,
        fn,
        omega arith,
        omega arith,
        rw (one, path-one hash leaf d lo i, mth-one hash leaf d lo, ex', same)
            (unfold eval_loop in refl),
      )

  -- The element after the right half of a tree is the left half's root.
  edge-join :
      (fn sn x f q t : ℕ) (ps : List Hash) (left right : Hash)
      → eval_loop hash (record { fn = fn; sn = sn; r = leaf x }) ps
        ≡ ok (record { fn = f; sn = f; r = right })
      → f ≡ (2 * q + 1) * 2 ^ t
      → t ≤ 64
      → eval_loop hash (record { fn = fn; sn = sn; r = leaf x }) (ps ++ (left ∷ []))
        ≡ ok (record { fn = q; sn = q; r = hash_children hash left right })
  edge-join fn sn x f q t ps left right run ev small = eval_loop-snoc hash _ _ _ ps left run (
      step-right-edge hash f f right left t (2 * q + 1) q (omega arith) ev (omega arith) small refl)

  eval-edge :
      (d lo n i x c J fn sn : ℕ)
      → i < n
      → n ≤ 2 ^ d
      → n ≤ 2 ^ J
      → J ≤ 64
      → x ≡ lo + i
      → fn ≡ i + c * 2 ^ J
      → sn ≡ n - 1 + c * 2 ^ J
      → EdgeEnds d lo n i x c J fn sn
  eval-edge zero lo n i x c J fn sn hi nd nJ J64 ex ef es =
      edge-one zero lo n i x c J fn sn (omega arith) hi ex ef es
  eval-edge (suc d) lo n i x c J fn sn hi nd nJ J64 ex ef es = elim (dec_lt 1 n) [
    | no small ↦ edge-one (suc d) lo n i x c J fn sn (omega arith) hi ex ef es
    | yes more ↦
        let fits : n ≤ 2 ^ 64 = omega (arith, pow_mono J 64 J64) in
        let (j, log) = split-IsLog n more fits in
        let jd : j ≤ d = split_depth d j n log nd in
        let jJ : j < J = IsLog-lt j J (n - 1) log (omega arith) in
        let m : ℕ = J - j - 1 in
        let q : ℕ = c * 2 ^ m in
        let top : c * 2 ^ J ≡ 2 * q * 2 ^ j =
          omega (arith, ap (λ (y : ℕ). c * y) (pow-split j J jJ)) in
        let es' : sn ≡ n - 1 - 2 ^ j + (2 * q + 1) * 2 ^ j = omega (arith, log.0) in
        elim (dec_lt i (2 ^ j)) [
          | yes l ↦ (
            m,
            q,
            omega arith,
            refl,
            rw (path-left hash leaf d lo n j log fits i l, mth-node hash leaf d lo n j log fits)
                (eval_loop-snoc hash _ _ _ _ _
                  (eval-interior j d lo i x (2 * q) (n - 1 - 2 ^ j) (2 * q + 1) fn sn jd
                    (omega arith) l ex (omega arith) (omega (arith, log.1, pow-double j)) es'
                    (omega arith))
                  (step-right-sibling hash (2 * q) (2 * q + 1) _ _ q q (omega arith) (omega arith)
                    (omega arith))),
          )
          | no g ↦
              let (t, f, tj, ev, run) =
                eval-edge d (lo + 2 ^ j) (n - 2 ^ j) (i - 2 ^ j) x (2 * q + 1) j fn sn (omega arith)
                  (omega (arith, log.1, pow-double j, pow_mono j d jd))
                  (omega (arith, log.1, pow-double j)) (omega arith) (omega arith) (omega arith)
                  (omega arith) in
              (
                m,
                q,
                omega arith,
                refl,
                rw
                    (
                      path-right hash leaf d lo n j log fits i (omega arith),
                      mth-node hash leaf d lo n j log fits,
                    )
                    (edge-join fn sn x f q t _ _ _ run ev (omega arith)),
              )
        ]
  ]

  -- From the start of the loop on the path of leaf x, every round is made, and sn ends at 0.
  pub eval_loop-path :
      (d lo n i x : ℕ)
      → i < n
      → n ≤ 2 ^ d
      → n ≤ 2 ^ 64
      → x ≡ lo + i
      → eval_loop hash (record { fn = i; sn = n - 1; r = leaf x }) (path hash leaf d lo n i)
        ≡ ok (record { fn = 0; sn = 0; r = mth hash leaf d lo n })
  eval_loop-path d lo n i x hi nd n64 ex =
      let (t, f, _, ev, run) =
        eval-edge d lo n i x 0 64 i (n - 1) hi nd n64 (omega arith) ex (omega arith)
          (omega arith) in
      let zero_f : f ≡ 0 = omega arith in rw zero_f at run
