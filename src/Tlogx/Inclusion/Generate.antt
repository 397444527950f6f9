-- ===== src/Tlogx/Inclusion/Generate.antt =====
-- What SubtreeHash and GenerateInclusionProof return over a hash source that serves a tree.
use Prim.Native.Nat.{bit_and}
use native.Mathlib.Decide.{dec_lt}
use native.Mathlib.Nat.{div-add-mod'}
use mathlib.Core.Path.{ap₂}
use mathlib.Core.List.{reverse, reverse-append}
use cactus.Prelude.{
  ℕ, zero, suc, ◌+◌, ◌-◌, ◌*◌, ◌/◌, ◌%◌, ◌^◌, ◌≤◌, ◌<◌, ◌≡◌, sym, ap, ◌∙◌, Option, some, true,
  false, List, [], ◌∷◌, ◌++◌, Result, ok, arith, Bool, Bool-cases, inl, inr, ◌&&◌, ◌==◌,
  append_assoc, append-nil, lt→ltb, le→not-ltb, lt→not-leb,
}
use cactus.Prelude.Words.{len64, u64}
use cactus.Prelude.Words.Lengths.{
  IsLog, IsLog-unique, len64-IsLog, pow_of_bit_and, pow-pos, pow-double, pow_mono,
}
use cactus.Tlogx.{Hash, Error, hash_children}
use cactus.Tlogx.Merkle.{
  mth, path, path-one, mth-node, mth-depth, path-left, path-right, split-IsLog, split_depth,
  largest_power_of_two_lt, largest_power_of_IsLog,
}
use cactus.Tlogx.Inclusion.{first_hash, subtree_hash_fuel, subtree_hash, generate_loop}

-- A hash source for a tree of `tree_size` leaves: tlog.StoredHashIndex names the node at `level`
-- and position `n`, and ReadHashes returns the hash of the 2 ^ level leaves under it, where all of
-- these are in the tree.
pub record HashTree (hash : List ℕ → Hash) : Type 0 where
  pub stored_hash_index : ℕ → ℕ → ℕ
  pub read_hashes : List ℕ → Option (List Hash)
  pub leaf_hash : ℕ → Hash
  pub tree_size : ℕ
  pub size_fits : tree_size < 2 ^ 63
  pub serves :
      (level n : ℕ)
      → (n + 1) * 2 ^ level ≤ tree_size
      → read_hashes (stored_hash_index level n ∷ [])
        ≡ some (mth hash leaf_hash level (n * 2 ^ level) (2 ^ level) ∷ [])

-- The test of SubtreeHash for a range that is one stored hash.
abbrev stored_test : ℕ → ℕ → Bool
stored_test start width = bit_and width (width - 1) == 0 && start % width == 0

stored_node :
    (start width : ℕ)
    → 0 < width
    → width < 2 ^ 64
    → stored_test start width ≡ true
    → (j : ℕ) × (len64 width - 1 ≡ j) × (width ≡ 2 ^ j) × (start / width * 2 ^ j ≡ start) × (j ≤ 64)
stored_node start width pos fits t =
    let (j, pow) = pow_of_bit_and width pos (ground arith) in
    let (i, len, log, small) = len64-IsLog width pos fits in
    let same : i ≡ j = IsLog-unique i j width log (omega (arith, pow-double j, pow-pos j)) in
    let rem : start % width ≡ 0 = ground arith in
    (j, omega arith, pow, rw (← pow) (omega (arith, div-add-mod' start width)), omega arith)

-- A range that is not stored as one hash has two leaves at least.
split_width : (start width : ℕ) → 0 < width → stored_test start width ≡ false → 1 < width
split_width start width pos t = elim (dec_lt 1 width) [
  | yes h ↦ h
  | no small ↦
      let one : width ≡ 1 = omega arith in
      let one_is_stored : stored_test start 1 ≡ true = ground arith in
      absurd (cc (ap (stored_test start) one))
]

module _ (hash : List ℕ → Hash) (tree : HashTree hash) where
  open tree use {stored_hash_index, read_hashes, leaf_hash, tree_size, size_fits, serves}

  -- MTH(D[start : end])
  abbrev pub root : ℕ → ℕ → Hash
  root start end = mth hash leaf_hash 64 start (end - start)

  abbrev node_hash : ℕ → ℕ → Result Error Hash
  node_hash = subtree_hash hash stored_hash_index read_hashes

  abbrev fuel_hash : ℕ → ℕ → ℕ → Result Error Hash
  fuel_hash = subtree_hash_fuel hash stored_hash_index read_hashes

  module _ (f start end : ℕ) (below : start < end) (within : end ≤ tree_size) where
    -- An aligned full subtree is a stored hash.
    stored-root :
        stored_test start (end - start) ≡ true → fuel_hash (suc f) start end ≡ ok (root start end)
    unfolding subtree_hash_fuel first_hash
    stored-root t =
        let (j, len, pow, whole, small) =
          stored_node start (end - start) (omega arith) (omega (arith, size_fits)) t in
        let found = serves j (start / (end - start)) (omega (arith, ap (λ (x : ℕ). x) whole)) in
        let depth : mth hash leaf_hash j start (2 ^ j) ≡ mth hash leaf_hash 64 start (2 ^ j) =
          mth-depth hash leaf_hash j 64 start (2 ^ j) (pow-pos j) (omega arith)
            (pow_mono j 64 small) (pow_mono j 64 small) in
        rw (lt→not-leb end start below, t, len, found, whole)
          (ap ok (depth ∙ ap (mth hash leaf_hash 64 start) (sym pow)))

    mid_width : (j : ℕ) → start + 2 ^ j - start ≡ 2 ^ j
    mid_width j = omega arith

    -- The root of a range over the roots of its two parts, at any depth that suffices.
    pub root-node :
        (d j : ℕ)
        → IsLog j (end - start - 1)
        → end - start ≤ 2 ^ suc d
        → mth hash leaf_hash (suc d) start (end - start)
          ≡ hash_children hash (root start (start + 2 ^ j)) (root (start + 2 ^ j) end)
    root-node d j log fits =
        let jd : j ≤ d = split_depth d j (end - start) log fits in
        let rest : end - (start + 2 ^ j) ≡ end - start - 2 ^ j = omega arith in
        let jd' : 2 ^ j ≤ 2 ^ d = pow_mono j d jd in
        rw
          (
            mth-node hash leaf_hash d start (end - start) j log (omega (arith, size_fits)),
            mid_width j,
            rest,
          )
          (ap₂ (hash_children hash)
            (mth-depth hash leaf_hash d 64 start (2 ^ j) (pow-pos j) jd'
              (omega (arith, log.0, size_fits)) (omega (arith, log.0, size_fits)))
            (mth-depth hash leaf_hash d 64 (start + 2 ^ j) (end - start - 2 ^ j)
              (omega (arith, log.0, pow-pos j)) (omega (arith, log.1, pow-double j))
              (omega (arith, size_fits)) (omega (arith, size_fits))))

    -- Any other range is hashed from its two parts.
    split-root :
        (j : ℕ)
        → IsLog j (end - start - 1)
        → stored_test start (end - start) ≡ false
        → fuel_hash f start (start + 2 ^ j) ≡ ok (root start (start + 2 ^ j))
        → fuel_hash f (start + 2 ^ j) end ≡ ok (root (start + 2 ^ j) end)
        → fuel_hash (suc f) start end ≡ ok (root start end)
    unfolding subtree_hash_fuel
    split-root j log t left right =
        let two : 1 < end - start = omega (arith, log.0, pow-pos j) in
        let k = largest_power_of_IsLog (end - start) j two (omega (arith, size_fits)) log in
        let mid : u64 (start + 2 ^ j) ≡ start + 2 ^ j = omega (arith, log.0, size_fits) in
        rw (lt→not-leb end start below, t, k, mid, left, right)
          (ap ok (sym (root-node 63 j log (omega (arith, size_fits)))))

  fuel_hash-root :
      (f start end : ℕ)
      → start < end
      → end ≤ tree_size
      → end - start ≤ 2 ^ f
      → fuel_hash (suc f) start end ≡ ok (root start end)
  fuel_hash-root zero start end below within fits =
      elim (Bool-cases (stored_test start (end - start))) [
        | inl stored ↦ stored-root 0 start end below within stored
        | inr t ↦ absurd (omega (arith, split_width start (end - start) (omega arith) t))
      ]
  fuel_hash-root (suc f) start end below within fits =
      elim (Bool-cases (stored_test start (end - start))) [
        | inl stored ↦ stored-root (suc f) start end below within stored
        | inr t ↦
            let two = split_width start (end - start) (omega arith) t in
            let (j, log) = split-IsLog (end - start) two (omega (arith, size_fits)) in
            let jf = pow_mono j f (split_depth f j (end - start) log fits) in
            split-root (suc f) start end below within j log t
              (fuel_hash-root f start (start + 2 ^ j) (omega (arith, pow-pos j))
                (omega (arith, log.0)) (omega arith))
              (fuel_hash-root f (start + 2 ^ j) end (omega (arith, log.0, pow-pos j)) within
                (omega (arith, log.1, pow-double j)))
      ]

  pub subtree_hash-root :
      (start end : ℕ) → start < end → end ≤ tree_size → node_hash start end ≡ ok (root start end)
  unfolding subtree_hash
  subtree_hash-root start end below within =
      fuel_hash-root 64 start end below within (omega (arith, size_fits))

  abbrev gen_loop : ℕ → ℕ → ℕ → ℕ → List Hash → Result Error (List Hash)
  gen_loop = generate_loop hash stored_hash_index read_hashes

  abbrev pub leaf_path : ℕ → ℕ → ℕ → ℕ → List Hash
  leaf_path d start end index = path hash leaf_hash d start (end - start) (index - start)

  module _ (f start end index : ℕ) (proof : List Hash) where
    loop_done : ¬ (1 < end - start) → gen_loop (suc f) start end index proof ≡ ok proof
    unfolding generate_loop
    loop_done small = rw (le→not-ltb 1 (end - start) (omega arith))

    module _ (j : ℕ) (more : 1 < end - start) (within : end ≤ tree_size)
        (log : IsLog j (end - start - 1)) where
      split_at : largest_power_of_two_lt (end - start) ≡ 2 ^ j
      split_at = largest_power_of_IsLog (end - start) j more (omega (arith, size_fits)) log

      loop_left :
          index < start + 2 ^ j
          → gen_loop (suc f) start end index proof
            ≡ gen_loop f start (start + 2 ^ j) index (proof ++ (root (start + 2 ^ j) end ∷ []))
      unfolding generate_loop
      loop_left l = rw (
        lt→ltb 1 (end - start) more,
        split_at,
        lt→ltb index (start + 2 ^ j) l,
        subtree_hash-root (start + 2 ^ j) end (omega (arith, log.0, pow-pos j)) within,
      )

      loop_right :
          start + 2 ^ j ≤ index
          → gen_loop (suc f) start end index proof
            ≡ gen_loop f (start + 2 ^ j) end index (proof ++ (root start (start + 2 ^ j) ∷ []))
      unfolding generate_loop
      loop_right g = rw (
        lt→ltb 1 (end - start) more,
        split_at,
        le→not-ltb index (start + 2 ^ j) g,
        subtree_hash-root start (start + 2 ^ j) (omega (arith, pow-pos j)) (omega (arith, log.0)),
      )

      -- The path of a leaf over the path in its half.
      module _ (deep : end - start ≤ 2 ^ suc f) where
        halves_fit : (2 ^ j ≤ 2 ^ f) × (end - start - 2 ^ j ≤ 2 ^ f)
        halves_fit =
            let jf = pow_mono j f (split_depth f j (end - start) log deep) in
            (jf, omega (arith, log.1, pow-double j))

        path_left :
            start ≤ index
            → index < start + 2 ^ j
            → reverse (leaf_path (suc f) start end index)
              ≡ root (start + 2 ^ j) end ∷ reverse (leaf_path f start (start + 2 ^ j) index)
        path_left lo l =
            let rest : end - (start + 2 ^ j) ≡ end - start - 2 ^ j = omega arith in
            let width : start + 2 ^ j - start ≡ 2 ^ j = omega arith in
            let sibling =
              mth-depth hash leaf_hash f 64 (start + 2 ^ j) (end - start - 2 ^ j)
                (omega (arith, log.0, pow-pos j)) halves_fit.1 (omega (arith, size_fits))
                (omega (arith, size_fits)) in
            rw (
              path-left hash leaf_hash f start (end - start) j log (omega (arith, size_fits))
                  (index - start) (omega arith),
              reverse-append,
              width,
              rest,
              sibling,
            )

        path_right :
            start + 2 ^ j ≤ index
            → reverse (leaf_path (suc f) start end index)
              ≡ root start (start + 2 ^ j) ∷ reverse (leaf_path f (start + 2 ^ j) end index)
        path_right g =
            let rest : end - (start + 2 ^ j) ≡ end - start - 2 ^ j = omega arith in
            let width : start + 2 ^ j - start ≡ 2 ^ j = omega arith in
            let place : index - (start + 2 ^ j) ≡ index - start - 2 ^ j = omega arith in
            let sibling =
              mth-depth hash leaf_hash f 64 start (2 ^ j) (pow-pos j) halves_fit.0
                (omega (arith, log.0, size_fits)) (omega (arith, log.0, size_fits)) in
            rw (
              path-right hash leaf_hash f start (end - start) j log (omega (arith, size_fits))
                  (index - start) (omega arith),
              reverse-append,
              width,
              rest,
              place,
              sibling,
            )

  path_alone :
      (d start end index : ℕ) → start < end → ¬ (1 < end - start) → leaf_path d start end index ≡ []
  path_alone d start end index below small =
      let one : end - start ≡ 1 = omega arith in rw one (path-one hash leaf_hash d start _)

  -- The loop appends the path of the leaf, root downwards.
  pub generate_loop-path :
      (f start end index : ℕ) (proof : List Hash)
      → start ≤ index
      → index < end
      → end ≤ tree_size
      → end - start ≤ 2 ^ f
      → gen_loop (suc f) start end index proof ≡ ok (proof ++ reverse (leaf_path f start end index))
  generate_loop-path zero start end index proof lo hi within fits =
      rw (path_alone 0 start end index (omega arith) (omega arith), append-nil)
        (loop_done 0 start end index proof (omega arith))
  generate_loop-path (suc f) start end index proof lo hi within fits =
      elim (dec_lt 1 (end - start)) [
        | no small ↦
            rw (path_alone (suc f) start end index (omega arith) small, append-nil)
              (loop_done (suc f) start end index proof small)
        | yes more ↦
            let (j, log) = split-IsLog (end - start) more (omega (arith, size_fits)) in
            let fit = halves_fit f start end index proof j more within log fits in
            elim (dec_lt index (start + 2 ^ j)) [
              | yes l ↦
                  let sib : List Hash = root (start + 2 ^ j) end ∷ [] in
                  loop_left (suc f) start end index proof j more within log l
                  ∙ generate_loop-path f start (start + 2 ^ j) index (proof ++ sib) lo l
                      (omega (arith, log.0)) (omega (arith, fit.0))
                  ∙ ap ok (
                      append_assoc proof sib _
                      ∙ ap (λ t. proof ++ t)
                          (sym (path_left f start end index proof j more within log fits lo l)))
              | no g ↦
                  let sib : List Hash = root start (start + 2 ^ j) ∷ [] in
                  loop_right (suc f) start end index proof j more within log (omega arith)
                  ∙ generate_loop-path f (start + 2 ^ j) end index (proof ++ sib) (omega arith) hi
                      within (omega (arith, fit.1))
                  ∙ ap ok (
                      append_assoc proof sib _
                      ∙ ap (λ t. proof ++ t)
                          (sym (
                            path_right f start end index proof j more within log fits
                              (omega arith))))
            ]
      ]
