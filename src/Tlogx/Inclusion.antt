-- ===== src/Tlogx/Inclusion.antt =====
-- tlogx/subtree.go and tlogx/inclusion.go: subtree inclusion proofs, made and evaluated.
pub mod Evaluate
pub mod Generate
pub mod RoundTrip
pub mod Binding
use Prim.Native.Nat.{bit_and, bit_xor}
use mathlib.Core.List.{reverse}
use cactus.Prelude.{
  ℕ, zero, suc, ◌+◌, ◌-◌, ◌/◌, ◌%◌, ◌^◌, Bool, true, false, Option, List, [], ◌∷◌, ◌++◌, ltb, leb,
  ◌==◌, ◌&&◌, ◌||◌, if◌then◌else◌, Result, ok, err, panic, stuck, guard, or_err, ◌>>=◌, ◌>>◌, not,
}
use cactus.Prelude.Words.{len64, ones_count64, u64}
use cactus.Tlogx.{
  Hash, Error, is_valid, hash_children, invalid_subtree, index_outside, extra_elements, too_short,
  empty_subtree, reader,
}
use cactus.Tlogx.Merkle.{largest_power_of_two_lt}

-- `for fn&1 == 0 && sn != 0 { fn >>= 1; sn >>= 1 }`
unfoldable pub skip_zeros : ℕ → ℕ → ℕ → ℕ × ℕ
skip_zeros zero fn sn = (fn, sn)
skip_zeros (suc fuel) fn sn =
    let rest = skip_zeros fuel (fn / 2) (sn / 2) in
    if bit_and fn 1 == 0 && not (sn == 0) then rest else (fn, sn)

pub record EvalState : Type 0 where
  pub fn : ℕ
  pub sn : ℕ
  pub r : Hash

module _ (hash : List ℕ → Hash) where
  -- One round of the loop over the proof, past its first test. 64 shifts clear a uint64, so the
  -- inner loop has ended by then.
  unfoldable pub eval_step : EvalState → Hash → EvalState
  eval_step s p =
      let (fn', sn') = skip_zeros 64 s.fn s.sn in
      if bit_and s.fn 1 == 1 || s.fn == s.sn
      then record { fn = fn' / 2; sn = sn' / 2; r = hash_children hash p s.r }
      else record { fn = s.fn / 2; sn = s.sn / 2; r = hash_children hash s.r p }

  unfoldable pub eval_loop : EvalState → List Hash → Result Error EvalState
  eval_loop s [] = ok s
  eval_loop s (p ∷ rest) =
      let next = eval_loop (eval_step s p) rest in if s.sn == 0 then err extra_elements else next

  unfoldable pub evaluate_inclusion_proof : ℕ → ℕ → ℕ → Hash → List Hash → Result Error Hash
  evaluate_inclusion_proof start end index entry_hash proof = do
    valid ← is_valid start end
    guard valid invalid_subtree
    guard (not (ltb index start || leb end index)) index_outside
    s ← eval_loop (record { fn = index - start; sn = end - start - 1; r = entry_hash }) proof
    guard (s.sn == 0) too_short
    ok s.r

unfoldable pub proof_len : ℕ → ℕ → ℕ → ℕ
proof_len start end index =
    let fn = index - start in
    let sn = end - start - 1 in let l1 = len64 (bit_xor fn sn) in l1 + ones_count64 (fn / 2 ^ l1)

-- The hash source is golang.org/x/mod/sumdb/tlog: `stored_hash_index level n` is
-- tlog.StoredHashIndex, and `read_hashes` the caller's tlog.HashReader, with no value for an error.
module _ (hash : List ℕ → Hash) (stored_hash_index : ℕ → ℕ → ℕ)
    (read_hashes : List ℕ → Option (List Hash)) where
  -- `hs[0]` panics on an empty slice.
  unfoldable pub first_hash : List Hash → Result Error Hash
  first_hash [] = panic
  first_hash (h ∷ hs) = ok h

  -- subtreeHashFromHR; each call halves the width, so 65 levels are enough for a uint64.
  unfoldable pub subtree_hash_fuel : ℕ → ℕ → ℕ → Result Error Hash
  subtree_hash_fuel zero start end = stuck
  subtree_hash_fuel (suc fuel) start end =
      let width = end - start in
      let mid = u64 (start + largest_power_of_two_lt width) in
      let stored = do
        hs ← or_err (read_hashes (stored_hash_index (len64 width - 1) (start / width) ∷ [])) reader
        first_hash hs
      in let split = do
        left ← subtree_hash_fuel fuel start mid
        right ← subtree_hash_fuel fuel mid end
        ok (hash_children hash left right)
        in if leb end start
          then err empty_subtree
          else if bit_and width (width - 1) == 0 && start % width == 0
          then stored
          else split

  unfoldable pub subtree_hash : ℕ → ℕ → Result Error Hash
  subtree_hash start end = subtree_hash_fuel 65 start end

  -- The loop `for end-start > 1`, which halves the width too. `proof` grows root-down.
  unfoldable pub generate_loop : ℕ → ℕ → ℕ → ℕ → List Hash → Result Error (List Hash)
  generate_loop zero start end index proof = stuck
  generate_loop (suc fuel) start end index proof =
      let mid = start + largest_power_of_two_lt (end - start) in
      let left = do
        sib ← subtree_hash mid end
        generate_loop fuel start mid index (proof ++ (sib ∷ []))
      in let right = do
        sib ← subtree_hash start mid
        generate_loop fuel mid end index (proof ++ (sib ∷ []))
        in if ltb 1 (end - start) then (if ltb index mid then left else right) else ok proof

  -- The result is reversed, leaf upwards.
  unfoldable pub generate_inclusion_proof : ℕ → ℕ → ℕ → Result Error (List Hash)
  generate_inclusion_proof start end index = do
    valid ← is_valid start end
    guard valid invalid_subtree
    guard (not (ltb index start || leb end index)) index_outside
    proof ← generate_loop 65 start end index []
    ok (reverse proof)
