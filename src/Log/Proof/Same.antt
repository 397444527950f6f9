-- ===== src/Log/Proof/Same.antt =====
-- The proofs that log/log.go makes with its own loops are those of tlogx/inclusion.go.
use native.Mathlib.Decide.{dec_lt, dec_le}
use cactus.Prelude.{
  ℕ, zero, suc, ◌+◌, ◌-◌, ◌*◌, ◌/◌, ◌^◌, ◌≤◌, ◌<◌, ◌≡◌, inl, inr, refl, sym, ap, ◌∙◌, Bool, true,
  false, if◌then◌else◌, Option, List, ◌∷◌, [], ltb, leb, Bool-cases, lt→ltb, le→not-ltb, lt→not-leb,
  le→leb, Result, ok, err, panic, stuck, arith, ◌>>=◌, ◌++◌,
}
use cactus.Prelude.Words.{u64, len64, len_fuel}
use cactus.Prelude.Words.Lengths.{IsLog, pow-double, pow_mono}
use cactus.Tlogx.{Hash, Error}
use cactus.Tlogx.Merkle.{largest_power_IsLog, largest_power_of_two_lt as tlogx_power}
use cactus.Tlogx.Inclusion.{
  subtree_hash_fuel, subtree_hash, generate_loop, generate_inclusion_proof,
}
use cactus.Log.Proof.{
  double_below, largest_power_of_two_lt, bits_len, bits_len_fuel, subtree_hash_from_hr, walk_loop,
  walk_inclusion_proof,
}

double_below-IsLog :
    (fuel i j n : ℕ)
    → IsLog i (n - 1)
    → 2 ≤ n
    → j ≤ i
    → i < j + fuel
    → i < 63
    → double_below fuel n (2 ^ j) ≡ 2 ^ i
unfolding double_below
double_below-IsLog zero i j n log h le lt small = absurd (omega arith)
double_below-IsLog (suc fuel) i j n log h le lt small =
    let big : 2 ^ suc j ≤ 2 ^ 63 = pow_mono (suc j) 63 (omega arith) in
    let twice : u64 (2 * 2 ^ j) ≡ 2 ^ suc j = omega (arith, pow-double j, big) in
    elim (dec_lt j i) [
      | yes more ↦
          let goes : ltb (2 ^ suc j) n ≡ true =
            lt→ltb (2 ^ suc j) n (omega (arith, pow_mono (suc j) i more, log.0)) in
          rw (twice, goes) (double_below-IsLog fuel i (suc j) n log h more (omega arith) small)
      | no done ↦
          let same : j ≡ i = omega (arith, le) in
          let stops : ltb (2 ^ suc j) n ≡ false =
            le→not-ltb (2 ^ suc j) n (omega (arith, log.1, ap (λ (x : ℕ). 2 ^ suc x) same)) in
          rw (twice, stops) (ap (λ (x : ℕ). 2 ^ x) same)
    ]

-- The loop computes what the tlogx function computes with bits.Len64.
largest_power-same : (n : ℕ) → n ≤ 2 ^ 63 → largest_power_of_two_lt n ≡ tlogx_power n
unfolding largest_power_of_two_lt tlogx_power
largest_power-same n h = elim (dec_le n 1) [
  | yes small ↦ rw (le→leb n 1 small) refl
  | no more ↦
      let (i, e, log, _) = largest_power_IsLog n (omega arith) (omega arith) in
      let i63 : i < 63 = below i (omega (arith, log.0)) in double n i (omega arith) log i63 ∙ sym e
]
  where
    below : (i : ℕ) → 2 ^ i < 2 ^ 63 → i < 63
    below i lt = elim (dec_lt i 63) [
      | yes p ↦ p
      | no p ↦ absurd (omega (arith, pow_mono 63 i (omega arith)))
    ]

    double : (n i : ℕ) → 2 ≤ n → IsLog i (n - 1) → i < 63 → largest_power_of_two_lt n ≡ 2 ^ i
    double n i h log i63 =
        rw (lt→not-leb n 1 h) (double_below-IsLog 64 i 0 n log h (omega arith) (omega arith) i63)

power-below : (n : ℕ) → 0 < n → n ≤ 2 ^ 63 → tlogx_power n < n
unfolding tlogx_power
power-below n pos h = elim (dec_le n 1) [
  | yes small ↦ rw (le→leb n 1 small) pos
  | no more ↦
      let (i, e, log, _) = largest_power_IsLog n (omega arith) (omega arith) in
      omega (arith, e, log.0)
]

bits_len_fuel-same : (f x : ℕ) → bits_len_fuel f x ≡ len_fuel f x
unfolding bits_len_fuel len_fuel
bits_len_fuel-same zero x = refl
bits_len_fuel-same (suc f) x = ground (arith, bits_len_fuel-same f (x / 2))

bits_len-same : (x : ℕ) → bits_len x ≡ len64 x
unfolding bits_len len64
bits_len-same x = bits_len_fuel-same 64 x

bind_same :
    {A B : Type 0} (m : Result Error A) {f g : A → Result Error B}
    → ((x : A) → f x ≡ g x)
    → (m >>= f) ≡ (m >>= g)
bind_same (ok x) h = h x
bind_same (err x) h = refl
bind_same panic h = refl
bind_same stuck h = refl

if_same :
    {A : Type 0} (b : Bool) {x x' y y' : A}
    → x ≡ x'
    → y ≡ y'
    → (if b then x else y) ≡ (if b then x' else y')
if_same true p q = p
if_same false p q = q

module _ (hash : List ℕ → Hash) (index : ℕ → ℕ → ℕ) (hr : List ℕ → Option (List Hash)) where
  subtree_hash_from_hr-same :
      (fuel start end : ℕ)
      → start < 2 ^ 63
      → end < 2 ^ 63
      → subtree_hash_from_hr hash index hr fuel start end
        ≡ subtree_hash_fuel hash index hr fuel start end
  unfolding subtree_hash_from_hr subtree_hash_fuel
  subtree_hash_from_hr-same zero start end s e = refl
  subtree_hash_from_hr-same (suc fuel) start end s e = elim (Bool-cases (leb end start)) [
    | inl empty ↦ rw empty refl
    | inr some_ ↦
        let k = tlogx_power (end - start) in
        let small : k < end - start = power-below (end - start) (ground arith) (omega (arith, e)) in
        let mid : u64 (start + k) < 2 ^ 63 = omega (arith, small, e) in
        rw (largest_power-same (end - start) (omega (arith, e)), bits_len-same (end - start), some_)
          (rw
            (
              subtree_hash_from_hr-same fuel start (u64 (start + k)) s mid,
              subtree_hash_from_hr-same fuel (u64 (start + k)) end mid e,
            )
            refl)
  ]

  walk_loop-same :
      (fuel start end i : ℕ) (proof : List Hash)
      → start < 2 ^ 63
      → end < 2 ^ 63
      → walk_loop hash index hr fuel start end i proof
        ≡ generate_loop hash index hr fuel start end i proof
  unfolding walk_loop generate_loop subtree_hash
  walk_loop-same zero start end i proof s e = refl
  walk_loop-same (suc fuel) start end i proof s e = elim (Bool-cases (ltb 1 (end - start))) [
    | inr done ↦ rw done refl
    | inl more ↦
        let k = tlogx_power (end - start) in
        let small : k < end - start = power-below (end - start) (ground arith) (omega (arith, e)) in
        let mid : start + k < 2 ^ 63 = omega (arith, small, e) in
        rw (largest_power-same (end - start) (omega (arith, e)), more)
          (rw
            (
              subtree_hash_from_hr-same 65 start (start + k) s mid,
              subtree_hash_from_hr-same 65 (start + k) end mid e,
            )
            (if_same (ltb i (start + k))
              (bind_same (subtree_hash_fuel hash index hr 65 (start + k) end)
                (λ sib. walk_loop-same fuel start (start + k) i (proof ++ (sib ∷ [])) s mid))
              (bind_same (subtree_hash_fuel hash index hr 65 start (start + k))
                (λ sib. walk_loop-same fuel (start + k) end i (proof ++ (sib ∷ [])) mid e))))
  ]

  -- For ranges of a tree of less than 2 ^ 63 entries, walkInclusionProof gives what
  -- GenerateInclusionProof gives, and subtreeHashFromHR what SubtreeHash gives, the errors included.
  pub walk_inclusion_proof-generate :
      (start end i : ℕ)
      → start < 2 ^ 63
      → end < 2 ^ 63
      → (walk_inclusion_proof hash index hr start end i
          ≡ generate_inclusion_proof hash index hr start end i)
        × (subtree_hash_from_hr hash index hr 65 start end ≡ subtree_hash hash index hr start end)
  unfolding walk_inclusion_proof generate_inclusion_proof subtree_hash
  walk_inclusion_proof-generate start end i s e =
      (rw (walk_loop-same 65 start end i [] s e) refl, subtree_hash_from_hr-same 65 start end s e)
