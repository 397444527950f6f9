-- ===== src/Tlogx/Consistency.antt =====
-- tlogx/consistency.go: consistency proofs of a subtree with a larger tree.
pub mod Binding
mod Examples
use Prim.Native.Nat.{bit_and}
use cactus.Prelude.{
  ℕ, zero, suc, ◌+◌, ◌-◌, ◌/◌, Bool, true, false, not, List, [], ◌∷◌, ◌++◌, ltb, leb, ◌==◌, ◌&&◌,
  ◌||◌, if◌then◌else◌, Result, ok, err, panic, stuck, guard, ◌>>=◌, ◌>>◌,
}
use cactus.Prelude.Words.{len64, shl_one, u64}
use cactus.Tlogx.{
  Hash, Error, hash_eq, is_valid, hash_children, invalid_subtree, end_beyond_size, empty_proof,
  extra_elements, too_short, subtree_mismatch, root_mismatch, spans_pivot, empty_subtree,
}

-- The three positions, in the order fn, sn, tn
pub record Positions : Type 0 where
  pub fn : ℕ
  pub sn : ℕ
  pub tn : ℕ

unfoldable pub shift : Positions → Positions
shift p = record { fn = p.fn / 2; sn = p.sn / 2; tn = p.tn / 2 }

-- `for fn != sn`: 64 rounds clear a uint64.
unfoldable pub equalize : ℕ → Positions → Positions
unfolding shift
equalize zero p = p
equalize (suc fuel) p = let rest = equalize fuel (shift p) in if p.fn == p.sn then p else rest

-- `for fn != sn && sn&1 != 0`
unfoldable pub skip_ones : ℕ → Positions → Positions
unfolding shift
skip_ones zero p = p
skip_ones (suc fuel) p =
    let rest = skip_ones fuel (shift p) in
    if not (p.fn == p.sn) && not (bit_and p.sn 1 == 0) then rest else p

-- `for sn&1 == 0 && tn != 0`
unfoldable pub skip_even : ℕ → Positions → Positions
unfolding shift
skip_even zero p = p
skip_even (suc fuel) p =
    let rest = skip_even fuel (shift p) in
    if bit_and p.sn 1 == 0 && not (p.tn == 0) then rest else p

-- Steps 2 to 4
unfoldable pub start_positions : ℕ → ℕ → ℕ → Positions
unfolding equalize skip_ones
start_positions start end n =
    let p : Positions = record { fn = start; sn = end - 1; tn = n - 1 } in
    if p.sn == p.tn then equalize 64 p else skip_ones 64 p

pub record Hashes : Type 0 where
  pub fr : Hash
  pub sr : Hash

module _ (hash : List ℕ → Hash) where
  unfoldable pub step_hashes : Positions → Hash → Hashes → Hashes
  step_hashes p c h =
      if not (bit_and p.sn 1 == 0) || p.sn == p.tn
      then record {
        fr = if ltb p.fn p.sn then hash_children hash c h.fr else h.fr;
        sr = hash_children hash c h.sr;
      }
      else record { fr = h.fr; sr = hash_children hash h.sr c }

  unfoldable pub step_positions : Positions → Positions
  unfolding skip_even shift
  step_positions p =
      if not (bit_and p.sn 1 == 0) || p.sn == p.tn then shift (skip_even 64 p) else shift p

  -- Step 7
  unfoldable pub consume : Positions → Hashes → List Hash → Result Error (Positions × Hashes)
  unfolding step_hashes step_positions
  consume p h [] = ok (p, h)
  consume p h (c ∷ proof) =
      let rest = consume (step_positions p) (step_hashes p c h) proof in
      if p.tn == 0 then err extra_elements else rest

  -- Steps 5 and 6, and the loop
  unfoldable pub reconstruct : Positions → Hash → List Hash → Result Error (Positions × Hashes)
  unfolding consume
  reconstruct p node_hash [] =
      if p.fn == p.sn then ok (p, record { fr = node_hash; sr = node_hash }) else err empty_proof
  reconstruct p node_hash (c ∷ proof) =
      if p.fn == p.sn
      then consume p (record { fr = node_hash; sr = node_hash }) (c ∷ proof)
      else consume p (record { fr = c; sr = c }) proof

  -- Step 8
  unfoldable pub compare_hashes : Positions × Hashes → Hash → Hash → Result Error (Unit {0})
  compare_hashes (p, h) node_hash root_hash = do
    guard (p.tn == 0) too_short
    guard (hash_eq h.fr node_hash) subtree_mismatch
    guard (hash_eq h.sr root_hash) root_mismatch

  unfoldable pub verify_consistency_proof :
      ℕ → ℕ → ℕ → List Hash → Hash → Hash → Result Error (Unit {0})
  unfolding start_positions reconstruct compare_hashes
  verify_consistency_proof start end n proof node_hash root_hash = do
    valid ← is_valid start end
    guard valid invalid_subtree
    guard (leb end n) end_beyond_size
    s ← reconstruct (start_positions start end n) node_hash proof
    compare_hashes s node_hash root_hash

  -- `leaf_hash` is the caller's, with its error.
  module _ (leaf_hash : ℕ → Result Error Hash) where
    -- `1 << (bits.Len64(size-1) - 1)`; a range of fewer than 2 ^ 64 leaves has 65 levels at most.
    unfoldable pub compute_range : ℕ → ℕ → ℕ → Result Error Hash
    compute_range zero lo hi = stuck
    compute_range (suc fuel) lo hi =
        let k = shl_one (len64 (hi - lo - 1) - 1) in
        let both = do
          left ← compute_range fuel lo (lo + k)
          right ← compute_range fuel (lo + k) hi
          ok (hash_children hash left right)
        in if hi - lo == 1 then leaf_hash lo else both

    unfoldable pub subtree_subproof : ℕ → ℕ → ℕ → ℕ → ℕ → Bool → Result Error (List Hash)
    unfolding compute_range
    subtree_subproof zero start end lo hi known = stuck
    subtree_subproof (suc fuel) start end lo hi known =
        let mid = lo + shl_one (len64 (hi - lo - 1) - 1) in
        let base = do h ← compute_range 65 lo hi; ok (h ∷ [])
        in let in_left = do
          left ← subtree_subproof fuel start end lo mid known
          right_hash ← compute_range 65 mid hi
          ok (left ++ (right_hash ∷ []))
          in let in_right = do
            right ← subtree_subproof fuel start end mid hi known
            left_hash ← compute_range 65 lo mid
            ok (right ++ (left_hash ∷ []))
            in let crossing = do
              cross ← subtree_subproof fuel mid end mid hi false
              left_hash ← compute_range 65 lo mid
              ok (cross ++ (left_hash ∷ []))
              in if start == lo && end == hi
                then (if known then ok [] else base)
                else if leb end mid
                then in_left
                else if leb mid start
                then in_right
                else if start == lo
                then crossing
                else err spans_pivot

    unfoldable pub generate_consistency_proof : ℕ → ℕ → ℕ → Result Error (List Hash)
    unfolding subtree_subproof
    generate_consistency_proof start end n = do
      valid ← is_valid start end
      guard valid invalid_subtree
      guard (leb end n) end_beyond_size
      if start == 0 && end == n then ok [] else subtree_subproof 65 start end 0 n true
