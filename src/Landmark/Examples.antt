-- ===== src/Landmark/Examples.antt =====
-- The landmark theorems at concrete sequences, with a JSON codec of three numbers to a line.
use cactus.Prelude.{
  ℕ, ◌+◌, ◌-◌, ◌≡◌, ◌≢◌, refl, true, false, Option, none, some, List, [], ◌∷◌, ok, All, arith,
  get_elem?, ◌<◌, ◌≤◌, ◌↔◌,
}
use mathlib.Core.Path.{subst}
use cactus.Tlogx.{Subtree}
use cactus.Landmark.{
  Landmark, Config, Stored, missing, found, Json, new, append, seed, serialize, persist_line, put,
  join_line, validate, seeded, replay, get_last, latest_tree_size, newline, appended,
  containing_index, landmark_subtrees,
}
use cactus.Landmark.Order.{IsSequence, validate_iff}
use cactus.Landmark.Restart.{JsonLaws}
use cactus.Landmark.Runs.{starts, appends, restart-Reach}
use cactus.Landmark.Lookup.{landmark_of-index, Some}

-- Each number is above 10, so that none is a line break.
abbrev codec : Json
codec = record {
  encode = λ l. some ((l.number + 11) ∷ (l.tree_size + 11) ∷ (l.allocated_at + 11) ∷ []);
  decode_line = decode;
}
  where
    decode : List ℕ → Option Landmark
    decode [] = none
    decode (n ∷ []) = none
    decode (n ∷ t ∷ []) = none
    decode (n ∷ t ∷ a ∷ rest) =
        some (record { number = n - 11; tree_size = t - 11; allocated_at = a - 11 })

codec-JsonLaws : JsonLaws codec
codec-JsonLaws = record { reads_back = reads; one_line = lines; some_text = λ l h. ground arith }
  where
    add_sub : (n : ℕ) → n + 11 - 11 ≡ n
    add_sub n = omega arith

    reads :
        (l : Landmark) (line : List ℕ)
        → codec.encode l ≡ some line
        → codec.decode_line line ≡ some l
    reads l line h =
        let e : ((l.number + 11) ∷ (l.tree_size + 11) ∷ (l.allocated_at + 11) ∷ []) ≡ line =
          ground arith in
        subst (λ x. codec.decode_line x ≡ some l) e
          (rw (add_sub l.number, add_sub l.tree_size, add_sub l.allocated_at) refl)

    lines :
        (l : Landmark) (line : List ℕ) → codec.encode l ≡ some line → All (λ c. c ≢ newline) line
    lines l line h =
        let e : ((l.number + 11) ∷ (l.tree_size + 11) ∷ (l.allocated_at + 11) ∷ []) ≡ line =
          ground arith in
        subst (λ x. All (λ c. c ≢ newline) x) e
          ((λ k. omega (arith, k)), ((λ k. omega (arith, k)), ((λ k. omega (arith, k)), tt)))

abbrev hourly : Config
hourly = record { time_between = 60; lifetime_ratio = 3 }

abbrev second : Landmark
second = record { number = 1; tree_size = 13; allocated_at = 70 }

abbrev third : Landmark
third = record { number = 2; tree_size = 20; allocated_at = 140 }

abbrev one_landmark : Stored
one_landmark = found (11 ∷ 11 ∷ 16 ∷ 10 ∷ [])

abbrev two_landmarks : Stored
two_landmarks = found (11 ∷ 11 ∷ 16 ∷ 10 ∷ 12 ∷ 24 ∷ 81 ∷ 10 ∷ [])

first_start : new codec hourly false missing 5 ≡ ok (seed 5 ∷ [], one_landmark)
unfolding new replay seeded persist_line put serialize join_line
first_start = refl

first_append :
    append codec hourly false 13 70 (seed 5 ∷ []) one_landmark
    ≡ ok (appended second, seed 5 ∷ second ∷ [], two_landmarks)
unfolding append persist_line put serialize join_line get_last
first_append = refl

restart-Reach_example :
    IsSequence (seed 5 ∷ second ∷ [])
    × (new codec hourly true two_landmarks 200 ≡ ok (seed 5 ∷ second ∷ [], two_landmarks))
restart-Reach_example =
    restart-Reach codec codec-JsonLaws (seed 5 ∷ second ∷ []) two_landmarks hourly true 200
      (appends (seed 5 ∷ []) one_landmark hourly false 13 70 (appended second)
        (starts hourly false missing 5 first_start) first_append)
      (λ e. omega (arith, e))

latest : 15 < latest_tree_size (seed 5) (second ∷ third ∷ [])
unfolding latest_tree_size get_last
latest = omega arith

landmark_of-index_example :
    (m : Landmark) × (b : Landmark) × (ss : List Subtree) × (containing_index 15
        (seed 5 ∷ second ∷ third ∷ [])
      ≡ some m)
    × (get_elem? (seed 5 ∷ second ∷ third ∷ []) m.number ≡ some m)
    × (get_elem? (seed 5 ∷ second ∷ third ∷ []) (m.number - 1) ≡ some b)
    × (b.tree_size ≤ 15)
    × (15 < m.tree_size)
    × (landmark_subtrees (seed 5 ∷ second ∷ third ∷ []) m ≡ ok ss)
    × Some 15 ss
landmark_of-index_example =
    landmark_of-index 15 (seed 5) (second ∷ third ∷ [])
      (refl, refl, (refl, omega arith, (refl, omega arith, tt))) latest
      (omega arith, (omega arith, (omega arith, tt)))

validate_iff_example : (validate (seed 5 ∷ second ∷ []) ≡ ok tt) ↔ IsSequence (seed 5 ∷ second ∷ [])
validate_iff_example = validate_iff (seed 5) (second ∷ [])
