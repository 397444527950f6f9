-- ===== src/Tlogx.antt =====
-- tlogx/subtree.go: the subtree intervals of the log and the two node hashes.
pub mod Intervals
pub mod Covering
pub mod Merkle
pub mod Inclusion
pub mod Consistency
mod Examples
use Prim.Native.Nat.{bit_and, bit_xor}
use cactus.Prelude.{
  ℕ, ◌+◌, ◌-◌, ◌%◌, Bool, true, false, not, List, [], ◌∷◌, ◌++◌, ltb, leb, ◌==◌, ◌&&◌,
  if◌then◌else◌, Result, ok, err, panic, ◌≡◌, ◌≢◌, ◌↔◌, ◌⊎◌, inl, inr, refl, sym, ◌∙◌, length,
  Bool-cases, arith,
}
use cactus.Prelude.Words.{not64, shl_one, len64}

-- The error returns of the package. `reader` and `leaf` stand for an error of the caller's hash
-- source.
pub data Error : Type 0 where
  invalid_subtree index_outside end_beyond_size extra_elements too_short empty_proof : Error
  subtree_mismatch root_mismatch spans_pivot empty_subtree reader leaf : Error

-- [32]byte, as the list of its bytes
abbrev pub Hash : Type 0
Hash = List ℕ

-- `a == b` on two hash values
unfoldable pub hash_eq : Hash → Hash → Bool
hash_eq [] [] = true
hash_eq [] (y ∷ ys) = false
hash_eq (x ∷ xs) [] = false
hash_eq (x ∷ xs) (y ∷ ys) = x == y && hash_eq xs ys

pub hash_eq_iff : (a b : Hash) → (hash_eq a b ≡ true) ↔ (a ≡ b)
unfolding hash_eq
hash_eq_iff [] [] = ground arith
hash_eq_iff [] (y ∷ ys) = ground arith
hash_eq_iff (x ∷ xs) [] = ground arith
hash_eq_iff (x ∷ xs) (y ∷ ys) = ground (arith, hash_eq_iff xs ys)

-- The range [start, end) of a Subtree; its hash is looked up by the caller.
pub record Subtree : Type 0 where
  pub start : ℕ
  pub end : ℕ

unfoldable pub size : Subtree → ℕ
size s = s.end - s.start

unfoldable pub full : Subtree → Bool
unfolding size
full s = let n = size s in not (n == 0) && bit_and n (n - 1) == 0

unfoldable pub bit_ceil : ℕ → ℕ
bit_ceil n = if n == 0 then 1 else if bit_and n (n - 1) == 0 then n else shl_one (len64 (n - 1))

-- `start % cap` panics where `cap` is 0.
unfoldable pub is_valid : ℕ → ℕ → Result Error Bool
is_valid start end =
    let cap = bit_ceil (end - start) in
    if leb end start then ok false else if cap == 0 then panic else ok (start % cap == 0)

unfoldable pub find_subtrees : ℕ → ℕ → Result Error (List Subtree)
find_subtrees start end =
    let last = end - 1 in
    let split = len64 (bit_xor start last) - 1 in
    let mask = shl_one split - 1 in
    let mid = bit_and last (not64 mask) in
    let left_split = len64 (bit_and (not64 start) mask) in
    let left_start = bit_and start (not64 (shl_one left_split - 1)) in
    if leb end start
    then panic
    else if end - start == 1
    then ok (record { start = start; end = end } ∷ [])
    else ok (record { start = left_start; end = mid } ∷ record { start = mid; end = end } ∷ [])

-- The hash function is a parameter of the package's functions.
module _ (hash : List ℕ → Hash) where
  unfoldable pub hash_leaf : List ℕ → Hash
  hash_leaf entry = hash (0 ∷ entry)

  unfoldable pub hash_children : Hash → Hash → Hash
  hash_children left right = hash (1 ∷ left ++ right)

-- A Hash has 32 bytes.
abbrev pub IsHash : Hash → Type 0
IsHash h = length h ≡ 32

-- Two inputs with one hash
abbrev pub Collision : (List ℕ → Hash) → Type 0
Collision hash = (x : List ℕ) × (y : List ℕ) × (x ≢ y) × (hash x ≡ hash y)

append-eq_parts : (a b c d : List ℕ) → length a ≡ length c → (a ++ b) ≡ (c ++ d) → (a ≡ c) × (b ≡ d)
append-eq_parts [] b [] d h e = (refl, e)
append-eq_parts [] b (y ∷ c) d h e = absurd (omega arith)
append-eq_parts (x ∷ a) b [] d h e = absurd (omega arith)
append-eq_parts (x ∷ a) b (y ∷ c) d h e = ground (arith, append-eq_parts a b c d)

-- Equal parents have equal children, or show a collision.
pub children_bind :
    (hash : List ℕ → Hash) (a b c d : Hash)
    → IsHash a
    → IsHash c
    → hash_children hash a b ≡ hash_children hash c d
    → ((a ≡ c) × (b ≡ d)) ⊎ Collision hash
unfolding hash_children
children_bind hash a b c d ha hc e = elim (Bool-cases (hash_eq (1 ∷ a ++ b) (1 ∷ c ++ d))) [
  | inl same ↦
      let eq = (hash_eq_iff (1 ∷ a ++ b) (1 ∷ c ++ d)).0 same in
      inl (append-eq_parts a b c d (ha ∙ sym hc) (cc eq))
  | inr other ↦ inr (
    1 ∷ a ++ b,
    1 ∷ c ++ d,
    (λ eq. absurd (no_eq (hash_eq_iff (1 ∷ a ++ b) (1 ∷ c ++ d)) eq other)),
    e,
  )
]
  where
    no_eq : {b : Bool} {P : Type 0} → ((b ≡ true) ↔ P) → P → b ≡ false → ⊥
    no_eq iff p f = cc (iff.1 p)
