-- ===== src/Landmark/Order.antt =====
-- The sequence invariant of §6.3.1: landmarks are numbered from 0 without gaps, landmark 0 has
-- tree size 0, and tree sizes grow strictly.
use cactus.Prelude.{ℕ, ◌+◌, ◌<◌, ◌≡◌, ◌↔◌, refl, List, [], ◌∷◌, ◌++◌, ok, arith}
use cactus.Landmark.{Landmark, check_numbers, check_sizes, validate, get_last}

-- From number n on, above the tree size `prev`
abbrev pub Continues : ℕ → ℕ → List Landmark → Type 0
Continues n prev [] = Unit
Continues n prev (l ∷ ls) = (l.number ≡ n) × (prev < l.tree_size) × Continues (n + 1) l.tree_size ls

abbrev pub IsSequence : List Landmark → Type 0
IsSequence [] = ⊥
IsSequence (l ∷ ls) = (l.number ≡ 0) × (l.tree_size ≡ 0) × Continues 1 0 ls

checks-Continues :
    (n prev : ℕ) (ls : List Landmark)
    → check_numbers n ls ≡ ok tt
    → check_sizes prev ls ≡ ok tt
    → Continues n prev ls
unfolding check_numbers check_sizes
checks-Continues n prev [] a b = tt
checks-Continues n prev (l ∷ ls) a b = ground (arith, checks-Continues (n + 1) l.tree_size ls)

Continues-checks :
    (n prev : ℕ) (ls : List Landmark)
    → Continues n prev ls
    → (check_numbers n ls ≡ ok tt) × (check_sizes prev ls ≡ ok tt)
unfolding check_numbers check_sizes
Continues-checks n prev [] h = (refl, refl)
Continues-checks n prev (l ∷ ls) h = ground (arith, Continues-checks (n + 1) l.tree_size ls)

-- On a list that is not empty, the validation of replay succeeds exactly if the list has the
-- sequence invariant.
pub validate_iff :
    (l : Landmark) (ls : List Landmark) → (validate (l ∷ ls) ≡ ok tt) ↔ IsSequence (l ∷ ls)
unfolding validate
validate_iff l ls = (to, from)
  where
    to : validate (l ∷ ls) ≡ ok tt → IsSequence (l ∷ ls)
    to h = ground (arith, checks-Continues 1 l.tree_size ls)

    from : IsSequence (l ∷ ls) → validate (l ∷ ls) ≡ ok tt
    from h = ground (arith, Continues-checks 1 l.tree_size ls)

-- The last landmark of a sequence, and what can follow it.
last-Continues :
    (n prev : ℕ) (l : Landmark) (ls : List Landmark) (next : Landmark)
    → l.number ≡ n
    → Continues (n + 1) l.tree_size ls
    → next.number ≡ (get_last l ls).number + 1
    → (get_last l ls).tree_size < next.tree_size
    → Continues (n + 1) l.tree_size (ls ++ (next ∷ []))
unfolding get_last
last-Continues n prev l [] next e c num grows = ground arith
last-Continues n prev l (m ∷ ls) next e c num grows =
    ground (arith, last-Continues (n + 1) l.tree_size m ls next)

pub snoc-IsSequence :
    (l : Landmark) (ls : List Landmark) (next : Landmark)
    → IsSequence (l ∷ ls)
    → next.number ≡ (get_last l ls).number + 1
    → (get_last l ls).tree_size < next.tree_size
    → IsSequence ((l ∷ ls) ++ (next ∷ []))
snoc-IsSequence l ls next h num grows = ground (arith, last-Continues 0 0 l ls next)
