-- ===== src/Tlogx/Consistency/Examples.antt =====
-- A subtree of two leaves in a tree of three, under a hash that forgets.
use cactus.Prelude.{ℕ, zero, suc, ◌≡◌, ◌⊎◌, refl, List, [], ◌∷◌, ok}
use cactus.Tlogx.{Hash, Collision, is_valid, bit_ceil, hash_eq, hash_children}
use cactus.Tlogx.Consistency.{verify_consistency_proof}
use cactus.Tlogx.Consistency.Binding.{consistency-binding}

abbrev zeros : ℕ → List ℕ
zeros zero = []
zeros (suc n) = 0 ∷ zeros n

abbrev blank : Hash
blank = zeros 32

abbrev forget : List ℕ → Hash
forget x = blank

accepted : verify_consistency_proof forget 0 2 3 (blank ∷ []) blank blank ≡ ok tt
unfolding verify_consistency_proof is_valid bit_ceil hash_eq hash_children
accepted = refl

consistency-binding_example : ((blank ≡ blank) × ((blank ∷ []) ≡ (blank ∷ []))) ⊎ Collision forget
consistency-binding_example =
    consistency-binding forget (λ x. refl) 0 2 3 (blank ∷ []) (blank ∷ []) blank blank blank refl
      refl (refl, tt) (refl, tt) accepted accepted
