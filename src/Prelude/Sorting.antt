-- ===== src/Prelude/Sorting.antt =====
-- sort.SliceStable by a `less`, as stable insertion.
use mathlib.Core.Path.{◌≡◌, refl, ap, ◌∙◌}
use mathlib.Core.Logic.{inl, inr}
use mathlib.Core.Bool.{Bool, true, false}
use mathlib.Core.List.{List, [], ◌∷◌, map, Permᴰ}
use mathlib.Core.List.Permᴰ
use cactus.Prelude.Tests.{if◌then◌else◌, Bool-cases}
use cactus.Prelude.Lists.{All}

module _ {A : Type 0} (less : A → A → Bool) where
  unfoldable pub insert_stable : A → List A → List A
  insert_stable x [] = x ∷ []
  insert_stable x (y ∷ ys) =
      let rest = insert_stable x ys in if less y x then y ∷ rest else x ∷ y ∷ ys

  unfoldable pub sort_stable : List A → List A
  unfolding insert_stable
  sort_stable [] = []
  sort_stable (x ∷ xs) = insert_stable x (sort_stable xs)

  abbrev pub NotBelow : A → List A → Type 0
  NotBelow x [] = Unit
  NotBelow x (y ∷ ys) = less y x ≡ false

  -- No element is less than the one before it.
  abbrev pub Ascending : List A → Type 0
  Ascending [] = Unit
  Ascending (x ∷ xs) = NotBelow x xs × Ascending xs

  insert_Permᴰ : (x : A) (ys : List A) → Permᴰ (insert_stable x ys) (x ∷ ys)
  unfolding insert_stable
  insert_Permᴰ x [] = Permᴰ.cons refl Permᴰ.nil
  insert_Permᴰ x (y ∷ ys) = elim (Bool-cases (less y x)) [
    | inl below ↦
        rw (insert_stable, below)
          (Permᴰ.trans (Permᴰ.cons refl (insert_Permᴰ x ys)) (Permᴰ.swap refl refl))
    | inr other ↦ rw (insert_stable, other) (Permᴰ.refl (x ∷ y ∷ ys))
  ]

  pub sort_stable-Permᴰ : (xs : List A) → Permᴰ (sort_stable xs) xs
  unfolding sort_stable
  sort_stable-Permᴰ [] = Permᴰ.nil
  sort_stable-Permᴰ (x ∷ xs) =
      Permᴰ.trans (insert_Permᴰ x (sort_stable xs)) (Permᴰ.cons refl (sort_stable-Permᴰ xs))

  All-insert : (P : A → Type 0) (x : A) (ys : List A) → P x → All P ys → All P (insert_stable x ys)
  unfolding insert_stable
  All-insert P x [] px h = (px, tt)
  All-insert P x (y ∷ ys) px (py, h) = elim (Bool-cases (less y x)) [
    | inl below ↦ rw (insert_stable, below) (py, All-insert P x ys px h)
    | inr other ↦ rw (insert_stable, other) (px, (py, h))
  ]

  pub All-sort_stable : (P : A → Type 0) (xs : List A) → All P xs → All P (sort_stable xs)
  unfolding sort_stable
  All-sort_stable P [] h = tt
  All-sort_stable P (x ∷ xs) (px, h) = All-insert P x (sort_stable xs) px (All-sort_stable P xs h)

  module _ (asymmetric : (x y : A) → less x y ≡ true → less y x ≡ false) where
    insert-NotBelow :
        (y x : A) (ys : List A) → less x y ≡ false → NotBelow y ys → NotBelow y (insert_stable x ys)
    unfolding insert_stable
    insert-NotBelow y x [] above h = above
    insert-NotBelow y x (z ∷ zs) above h = elim (Bool-cases (less z x)) [
      | inl below ↦ rw (insert_stable, below) h
      | inr other ↦ rw (insert_stable, other) above
    ]

    insert-Ascending : (x : A) (ys : List A) → Ascending ys → Ascending (insert_stable x ys)
    unfolding insert_stable
    insert-Ascending x [] h = (tt, tt)
    insert-Ascending x (y ∷ ys) (first, rest) = elim (Bool-cases (less y x)) [
      | inl below ↦
          rw (insert_stable, below)
            (insert-NotBelow y x ys (asymmetric y x below) first, insert-Ascending x ys rest)
      | inr other ↦ rw (insert_stable, other) (other, (first, rest))
    ]

    pub sort_stable-Ascending : (xs : List A) → Ascending (sort_stable xs)
    unfolding sort_stable
    sort_stable-Ascending [] = tt
    sort_stable-Ascending (x ∷ xs) = insert-Ascending x (sort_stable xs) (sort_stable-Ascending xs)

-- Sorting by what `f` keeps commutes with `f`.
module _ {A B : Type 0} (less : A → A → Bool) (less' : B → B → Bool) (f : A → B)
    (same : (x y : A) → less' (f x) (f y) ≡ less x y) where
  insert-map :
      (x : A) (ys : List A) → insert_stable less' (f x) (map f ys) ≡ map f (insert_stable less x ys)
  unfolding insert_stable
  insert-map x [] = refl
  insert-map x (y ∷ ys) = elim (Bool-cases (less y x)) [
    | inl below ↦ rw (insert_stable, same y x, below) (ap (λ zs. f y ∷ zs) (insert-map x ys))
    | inr other ↦ rw (insert_stable, same y x, other) refl
  ]

  pub sort_stable-map : (xs : List A) → sort_stable less' (map f xs) ≡ map f (sort_stable less xs)
  unfolding sort_stable
  sort_stable-map [] = refl
  sort_stable-map (x ∷ xs) =
      ap (insert_stable less' (f x)) (sort_stable-map xs) ∙ insert-map x (sort_stable less xs)
