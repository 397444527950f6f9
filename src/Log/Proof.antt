-- ===== src/Log/Proof.antt =====
-- log/log.go, the proofs of an issued entry: walkInclusionProof and the hashes it reads.
pub mod Same
use Prim.Native.Nat.{bit_and}
use mathlib.Core.List.{reverse}
use cactus.Prelude.{
  ℕ, zero, suc, ◌+◌, ◌-◌, ◌*◌, ◌/◌, ◌%◌, Bool, true, false, not, Option, none, some, List, [], ◌∷◌,
  ◌++◌, ltb, leb, ◌==◌, ◌&&◌, ◌||◌, if◌then◌else◌, Result, ok, err, panic, stuck, guard, or_err,
  get_elem?, ◌>>=◌, ◌>>◌,
}
use cactus.Prelude.Words.{u64}
use cactus.Tlogx.{
  Hash, Error, is_valid, hash_children, invalid_subtree, index_outside, empty_subtree, reader,
}
use cactus.Tlogx.Inclusion.{first_hash}

-- `for k<<1 < n { k <<= 1 }`
unfoldable pub double_below : ℕ → ℕ → ℕ → ℕ
double_below zero n k = k
double_below (suc fuel) n k =
    let rest = double_below fuel n (u64 (2 * k)) in if ltb (u64 (2 * k)) n then rest else k

-- n has at most 64 bits; on more than 2 ^ 63 the loop would not end, and 64 rounds do not decide it.
unfoldable pub largest_power_of_two_lt : ℕ → ℕ
largest_power_of_two_lt n = if leb n 1 then 0 else double_below 64 n 1

-- `for x > 0 { n++; x >>= 1 }`
unfoldable pub bits_len_fuel : ℕ → ℕ → ℕ
bits_len_fuel zero x = 0
bits_len_fuel (suc fuel) x =
    let rest = bits_len_fuel fuel (x / 2) in if ltb 0 x then suc rest else 0

unfoldable pub bits_len : ℕ → ℕ
bits_len x = bits_len_fuel 64 x

-- hashesAsTlog.ReadHashes
unfoldable pub read_hashes : List Hash → List ℕ → Option (List Hash)
read_hashes h [] = some []
read_hashes h (i ∷ is) = elim (get_elem? h i) [
  | none ↦ none
  | some x ↦ elim (read_hashes h is) [ none ↦ none | some xs ↦ some (x ∷ xs) ]
]

-- `stored_hash_index` is tlog.StoredHashIndex of golang.org/x/mod.
module _ (hash : List ℕ → Hash) (stored_hash_index : ℕ → ℕ → ℕ)
    (hr : List ℕ → Option (List Hash)) where
  unfoldable pub subtree_hash_from_hr : ℕ → ℕ → ℕ → Result Error Hash
  subtree_hash_from_hr zero start end = stuck
  subtree_hash_from_hr (suc fuel) start end =
      let width = end - start in
      let mid = u64 (start + largest_power_of_two_lt width) in
      let stored = do
        hs ← or_err (hr (stored_hash_index (bits_len width - 1) (start / width) ∷ [])) reader
        first_hash hash stored_hash_index hr hs
      in let split = do
        left ← subtree_hash_from_hr fuel start mid
        right ← subtree_hash_from_hr fuel mid end
        ok (hash_children hash left right)
        in if leb end start
          then err empty_subtree
          else if bit_and width (width - 1) == 0 && start % width == 0
          then stored
          else split

  unfoldable pub walk_loop : ℕ → ℕ → ℕ → ℕ → List Hash → Result Error (List Hash)
  walk_loop zero start end index proof = stuck
  walk_loop (suc fuel) start end index proof =
      let mid = start + largest_power_of_two_lt (end - start) in
      let left = do
        sib ← subtree_hash_from_hr 65 mid end
        walk_loop fuel start mid index (proof ++ (sib ∷ []))
      in let right = do
        sib ← subtree_hash_from_hr 65 start mid
        walk_loop fuel mid end index (proof ++ (sib ∷ []))
        in if ltb 1 (end - start) then (if ltb index mid then left else right) else ok proof

  unfoldable pub walk_inclusion_proof : ℕ → ℕ → ℕ → Result Error (List Hash)
  walk_inclusion_proof start end index = do
    valid ← is_valid start end
    guard valid invalid_subtree
    guard (not (ltb index start || leb end index)) index_outside
    proof ← walk_loop 65 start end index []
    ok (reverse proof)
