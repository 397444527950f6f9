-- ===== src/Prelude/Dict.antt =====
-- Go maps with byte strings as keys, as association lists.
use cactus.Prelude.Tests.{◌==◌, Bool-cases, if◌then◌else◌}
use mathlib.Core.Path.{◌≡◌, refl}
use mathlib.Core.Logic.{◌↔◌, ◌≢◌, inl, inr}
use mathlib.Core.Bool.{Bool, true, false, ◌&&◌, ◌||◌}
use mathlib.Core.Option.{Option, none, some}
use mathlib.Core.List.{List, [], ◌∷◌}
use cactus.Prelude.Lists.{All}
use Prim.Native.Nat.{ℕ}
use native.Mathlib.Omega.{arith}

-- `a == b` on strings
unfoldable pub str_eq : List ℕ → List ℕ → Bool
str_eq [] [] = true
str_eq [] (y ∷ ys) = false
str_eq (x ∷ xs) [] = false
str_eq (x ∷ xs) (y ∷ ys) = x == y && str_eq xs ys

pub str_eq_iff : (a b : List ℕ) → (str_eq a b ≡ true) ↔ (a ≡ b)
unfolding str_eq
str_eq_iff [] [] = ground arith
str_eq_iff [] (y ∷ ys) = ground arith
str_eq_iff (x ∷ xs) [] = ground arith
str_eq_iff (x ∷ xs) (y ∷ ys) = ground (arith, str_eq_iff xs ys)

pub str_eq_self : (a : List ℕ) → str_eq a a ≡ true
str_eq_self a = (str_eq_iff a a).1 refl

pub str_eq_ne : (a b : List ℕ) → a ≢ b → str_eq a b ≡ false
str_eq_ne a b ne = elim (Bool-cases (str_eq a b)) [
  | inl same ↦ absurd (ne ((str_eq_iff a b).0 same))
  | inr other ↦ other
]

abbrev pub Dict : Type 0 → Type 0
Dict V = List (List ℕ × V)

module _ {V : Type 0} where
  -- `m[k]`, with its second result
  unfoldable pub lookup : List ℕ → Dict V → Option V
  lookup k [] = none
  lookup k ((j, v) ∷ m) = let rest = lookup k m in if str_eq j k then some v else rest

  -- `m[k] = v`
  unfoldable pub insert : List ℕ → V → Dict V → Dict V
  insert k v [] = (k, v) ∷ []
  insert k v ((j, w) ∷ m) =
      let rest = insert k v m in if str_eq j k then (k, v) ∷ m else (j, w) ∷ rest

  pub lookup-insert :
      (k j : List ℕ) (v : V) (m : Dict V)
      → lookup j (insert k v m) ≡ (if str_eq k j then some v else lookup j m)
  unfolding lookup insert
  lookup-insert k j v [] = refl
  lookup-insert k j v ((i, w) ∷ m) =
      ground (arith, str_eq_iff k j, str_eq_iff i k, str_eq_iff i j, lookup-insert k j v m)

  pub lookup-insert_self : (k : List ℕ) (v : V) (m : Dict V) → lookup k (insert k v m) ≡ some v
  lookup-insert_self k v m = rw (lookup-insert k k v m, str_eq_self k)

  pub lookup-insert_ne :
      (k j : List ℕ) (v : V) (m : Dict V) → k ≢ j → lookup j (insert k v m) ≡ lookup j m
  lookup-insert_ne k j v m ne = rw (lookup-insert k j v m, str_eq_ne k j ne)

-- The string is one of the list.
unfoldable pub is_in : List ℕ → List (List ℕ) → Bool
is_in id [] = false
is_in id (j ∷ js) = let rest = is_in id js in str_eq j id || rest

pub is_in-All :
    (P : List ℕ → Type 0) (id : List ℕ) (js : List (List ℕ)) → is_in id js ≡ true → All P js → P id
unfolding is_in
is_in-All P id [] h k = absurd (ground arith)
is_in-All P id (j ∷ js) h (pj, k) = elim (Bool-cases (str_eq j id)) [
  | inl same ↦ rw (← (str_eq_iff j id).0 same) pj
  | inr other ↦ is_in-All P id js (rw other at h) k
]
