-- ===== src/Tlogx/Inclusion/RoundTrip.antt =====
-- GenerateInclusionProof and EvaluateInclusionProof are inverse over a hash source of a tree.
use mathlib.Core.List.{reverse-reverse}
use cactus.Prelude.{
  ℕ, ◌-◌, ◌≤◌, ◌<◌, ◌≡◌, ap, sym, ◌∙◌, true, List, [], ok, le→not-ltb, lt→not-leb, arith,
}
use cactus.Tlogx.{Hash, is_valid}
use cactus.Tlogx.Inclusion.{evaluate_inclusion_proof, generate_inclusion_proof, subtree_hash}
use cactus.Tlogx.Inclusion.Evaluate.{eval_loop-path}
use cactus.Tlogx.Inclusion.Generate.{
  HashTree, root, leaf_path, subtree_hash-root, generate_loop-path,
}

module _ (hash : List ℕ → Hash) (tree : HashTree hash) where
  open tree use {stored_hash_index, read_hashes, leaf_hash, tree_size, size_fits}

  module _ (start end index : ℕ) (valid : is_valid start end ≡ ok true) (lo : start ≤ index)
      (hi : index < end) (within : end ≤ tree_size) where
    -- The generated proof is the path from the leaf to the subtree's root, leaf upwards.
    pub generate_inclusion_proof-path :
        generate_inclusion_proof hash stored_hash_index read_hashes start end index
        ≡ ok (leaf_path hash tree 64 start end index)
    unfolding generate_inclusion_proof
    generate_inclusion_proof-path =
        rw
          (
            valid,
            le→not-ltb index start lo,
            lt→not-leb end index hi,
            generate_loop-path hash tree 64 start end index [] lo hi within
                (omega (arith, size_fits)),
          )
          (ap ok (reverse-reverse _))

    pub evaluate-path :
        evaluate_inclusion_proof hash start end index
          (leaf_hash index)
          (leaf_path hash tree 64 start end index)
        ≡ ok (root hash tree start end)
    unfolding evaluate_inclusion_proof
    evaluate-path = rw (
      valid,
      le→not-ltb index start lo,
      lt→not-leb end index hi,
      eval_loop-path hash leaf_hash 64 start (end - start) (index - start) index (omega arith)
          (omega (arith, size_fits)) (omega (arith, size_fits)) (omega arith),
    )

    -- For a valid subtree inside the tree and an index in it, generation succeeds, and evaluating
    -- the generated proof from the index's leaf hash gives what SubtreeHash returns.
    pub evaluate-generate :
        (proof : List Hash) × (generate_inclusion_proof hash stored_hash_index read_hashes start end
            index
          ≡ ok proof)
        × (evaluate_inclusion_proof hash start end index (leaf_hash index) proof
            ≡ subtree_hash hash stored_hash_index read_hashes start end)
    evaluate-generate = (
      leaf_path hash tree 64 start end index,
      generate_inclusion_proof-path,
      evaluate-path ∙ sym (subtree_hash-root hash tree start end (omega arith) within),
    )
