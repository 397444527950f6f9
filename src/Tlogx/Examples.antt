-- ===== src/Tlogx/Examples.antt =====
-- Runs of tlogx at concrete inputs, and its theorems at inputs that meet their hypotheses.
use cactus.Prelude.{
  ℕ, zero, suc, ◌+◌, ◌-◌, ◌*◌, ◌^◌, ◌≤◌, ◌<◌, ◌≡◌, ◌↔◌, ◌⊎◌, refl, true, false, Option, some, none,
  List, [], ◌∷◌, ok, err, panic, arith,
}
use cactus.Prelude.Words.{len64, ones_count64}
use cactus.Prelude.Words.Lengths.{pow-pos, pow-double}
use cactus.Tlogx.{
  Hash, Subtree, bit_ceil, is_valid, find_subtrees, hash_children, Collision, too_short,
}
use cactus.Tlogx.Merkle.{mth, largest_power_of_two_lt}
use cactus.Tlogx.Intervals.{ValidSubtree, is_valid_iff, is_valid_panics}
use cactus.Tlogx.Covering.{Covers, find_subtrees-Covers}
use cactus.Tlogx.Inclusion.{
  evaluate_inclusion_proof, eval_loop, eval_step, skip_zeros, generate_inclusion_proof,
  generate_loop, subtree_hash, subtree_hash_fuel, first_hash, proof_len,
}
use cactus.Tlogx.Inclusion.Generate.{HashTree}
use cactus.Tlogx.Inclusion.RoundTrip.{evaluate-generate}
use cactus.Tlogx.Inclusion.Binding.{evaluate-binding}

-- IsValid and FindSubtrees of the package's own tests
valid_runs :
    (is_valid 0 4 ≡ ok true)
    × (is_valid 4 6 ≡ ok true)
    × (is_valid 2 5 ≡ ok false)
    × (is_valid 3 3 ≡ ok false)
unfolding is_valid bit_ceil len64
valid_runs = (refl, refl, refl, refl)

find_runs :
    find_subtrees 5 13 ≡ ok (record { start = 4; end = 8 } ∷ record { start = 8; end = 13 } ∷ [])
unfolding find_subtrees len64
find_runs = refl

-- A hash function that shows its input, and a tree of three leaves stored as tlog numbers them.
abbrev show : List ℕ → Hash
show x = x

abbrev leaf : ℕ → Hash
leaf i = i ∷ []

abbrev three_index : ℕ → ℕ → ℕ
three_index zero zero = 0
three_index zero (suc zero) = 1
three_index zero (suc (suc n)) = 3
three_index (suc level) n = 2

abbrev three_read : List ℕ → Option (List Hash)
three_read (zero ∷ []) = some (leaf 0 ∷ [])
three_read (suc zero ∷ []) = some (leaf 1 ∷ [])
three_read (suc (suc zero) ∷ []) = some ((1 ∷ 0 ∷ 1 ∷ []) ∷ [])
three_read (suc (suc (suc zero)) ∷ []) = some (leaf 2 ∷ [])
three_read _ = none

three_serves :
    (level n : ℕ)
    → (n + 1) * 2 ^ level ≤ 3
    → three_read (three_index level n ∷ [])
      ≡ some (mth show leaf level (n * 2 ^ level) (2 ^ level) ∷ [])
unfolding mth hash_children largest_power_of_two_lt len64
three_serves zero zero h = refl
three_serves zero (suc zero) h = refl
three_serves zero (suc (suc zero)) h = refl
three_serves zero (suc (suc (suc n))) h = absurd (omega arith)
three_serves (suc zero) zero h = refl
three_serves (suc zero) (suc n) h = absurd (omega arith)
three_serves (suc (suc level)) n h =
    absurd (grind (arith, pow-pos level, pow-double level, pow-double (suc level)))

abbrev three : HashTree show
three = record {
  stored_hash_index = three_index;
  read_hashes = three_read;
  leaf_hash = leaf;
  tree_size = 3;
  size_fits = omega arith;
  serves = three_serves;
}

generate_runs :
    generate_inclusion_proof show three_index three_read 0 3 0 ≡ ok ((1 ∷ []) ∷ (2 ∷ []) ∷ [])
unfolding generate_inclusion_proof is_valid bit_ceil generate_loop subtree_hash subtree_hash_fuel
    first_hash largest_power_of_two_lt len64
generate_runs = refl

evaluate_short : evaluate_inclusion_proof show 0 3 0 (leaf 0) ((1 ∷ []) ∷ []) ≡ err too_short
unfolding evaluate_inclusion_proof is_valid bit_ceil eval_loop eval_step skip_zeros len64
evaluate_short = refl

proof_len_runs : (proof_len 0 3 0 ≡ 2) × (proof_len 0 3 2 ≡ 1) × (proof_len 8 13 12 ≡ 1)
unfolding proof_len len64 ones_count64
proof_len_runs = (refl, refl, refl)

three_is_valid : is_valid 0 3 ≡ ok true
unfolding is_valid bit_ceil len64
three_is_valid = refl

evaluate-generate_example :
    (proof : List Hash) × (generate_inclusion_proof show three_index three_read 0 3 2 ≡ ok proof)
    × (evaluate_inclusion_proof show 0 3 2 (leaf 2) proof
        ≡ subtree_hash show three_index three_read 0 3)
evaluate-generate_example =
    evaluate-generate show three 0 3 2 three_is_valid (omega arith) (omega arith) (omega arith)

is_valid_iff_example : (is_valid 4 6 ≡ ok true) ↔ ValidSubtree 4 6
is_valid_iff_example = is_valid_iff 4 6 (omega arith)

is_valid_panics_example : (is_valid 0 (2 ^ 63 + 1) ≡ panic) ↔ (2 ^ 63 < 2 ^ 63 + 1 - 0)
is_valid_panics_example = is_valid_panics 0 (2 ^ 63 + 1) (omega arith)

find_subtrees-Covers_example :
    (left : Subtree) × (right : Subtree) × (find_subtrees 5 13 ≡ ok (left ∷ right ∷ []))
    × Covers 5 13 left right
find_subtrees-Covers_example = find_subtrees-Covers 5 13 (omega arith) (omega arith)

-- A hash function of 32 bytes, with many collisions.
abbrev blank : Hash
blank =
    0 ∷ 0 ∷ 0 ∷ 0 ∷ 0 ∷ 0 ∷ 0 ∷ 0 ∷ 0 ∷ 0 ∷ 0 ∷ 0 ∷ 0 ∷ 0 ∷ 0 ∷ 0 ∷ 0 ∷ 0 ∷ 0 ∷ 0 ∷ 0 ∷ 0 ∷ 0 ∷ 0
    ∷ 0 ∷ 0 ∷ 0 ∷ 0 ∷ 0 ∷ 0 ∷ 0 ∷ 0 ∷ []

abbrev forget : List ℕ → Hash
forget x = blank

forget_evaluates : evaluate_inclusion_proof forget 0 2 1 blank (blank ∷ []) ≡ ok blank
unfolding evaluate_inclusion_proof is_valid bit_ceil eval_loop eval_step skip_zeros len64
    hash_children
forget_evaluates = refl

evaluate-binding_example : ((blank ≡ blank) × ((blank ∷ []) ≡ (blank ∷ []))) ⊎ Collision forget
evaluate-binding_example =
    evaluate-binding forget (λ x. refl) 0 2 1 blank blank blank (blank ∷ []) (blank ∷ []) refl refl
      (refl, tt) (refl, tt) forget_evaluates forget_evaluates
