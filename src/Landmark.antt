-- ===== src/Landmark.antt =====
-- landmark/sequence.go: the append-only landmark sequence and its file.
-- Times and durations are in nanoseconds. `now.Sub(t) < d` is `now < t + d`.
pub mod Order
pub mod Restart
pub mod Runs
pub mod Lookup
mod Examples
use mathlib.Core.List.{reverse}
use cactus.Prelude.{
  ℕ, zero, suc, ◌+◌, ◌-◌, ◌^◌, Bool, true, false, not, ◌&&◌, ◌||◌, ◌==◌, ltb, leb, if◌then◌else◌,
  Option, none, some, List, [], ◌∷◌, ◌++◌, length, get_elem?, drop, Result, ok, err, panic, or_err,
  ◌>>=◌, ◌>>◌, guard,
}
use cactus.Tlogx.{Subtree, find_subtrees, Error as TlogError}

pub record Landmark : Type 0 where
  pub number : ℕ
  pub tree_size : ℕ
  pub allocated_at : ℕ

-- Config: the fields that the sequence computes with. `max_cert_lifetime / time_between` is
-- a division of floats, so its ceiling is given.
pub record Config : Type 0 where
  pub time_between : ℕ
  pub lifetime_ratio : ℕ

pub data Error : Type 0 where
  bad_interval read_failed decode marshal put_failed not_contiguous first_not_empty : Error
  not_increasing : Error

unfoldable pub max_active : Config → ℕ
max_active c = if c.time_between == 0 then 1 else c.lifetime_ratio + 1

-- encoding/json on a landmark: a line, or an error.
pub record Json : Type 0 where
  pub encode : Landmark → Option (List ℕ)
  pub decode_line : List ℕ → Option Landmark

-- What storage.FS answers to Get
pub data Stored : Type 0 where
  missing failed : Stored
  found : List ℕ → Stored

abbrev pub newline : ℕ
newline = 10

-- `a != b` on two landmarks, negated
unfoldable pub landmark_eq : Landmark → Landmark → Bool
landmark_eq a b =
    a.number == b.number && a.tree_size == b.tree_size && a.allocated_at == b.allocated_at

-- The range loops of `replay` that validate what was read.
unfoldable pub check_numbers : ℕ → List Landmark → Result Error (Unit {0})
check_numbers i [] = ok tt
check_numbers i (l ∷ ls) =
    let rest = check_numbers (i + 1) ls in if l.number == i then rest else err not_contiguous

unfoldable pub check_sizes : ℕ → List Landmark → Result Error (Unit {0})
check_sizes prev [] = ok tt
check_sizes prev (l ∷ ls) =
    let rest = check_sizes l.tree_size ls in
    if leb l.tree_size prev then err not_increasing else rest

-- The three checks in the source's order, on what is not empty.
unfoldable pub validate : List Landmark → Result Error (Unit {0})
unfolding check_numbers check_sizes
validate [] = ok tt
validate (l ∷ ls) = do
  check_numbers 0 (l ∷ ls)
  guard (l.tree_size == 0) first_not_empty
  check_sizes l.tree_size ls

-- The file after a write: the new content, or the old one where Put fails.
unfoldable pub put : Bool → Stored → Option (List ℕ) → Bool × Stored
put fails old none = (false, old)
put true old (some buf) = (false, old)
put false old (some buf) = (true, found buf)

unfoldable pub join_line : Option (List ℕ) → Option (List ℕ) → Option (List ℕ)
join_line none rest = none
join_line (some line) none = none
join_line (some line) (some rest) = some (line ++ (newline ∷ rest))

unfoldable pub get_last : Landmark → List Landmark → Landmark
get_last l [] = l
get_last l (m ∷ ls) = get_last m ls

-- What Append returns. `error` is a failed write.
pub data Appended : Type 0 where
  appended : Landmark → Appended
  unchanged error : Appended

-- Landmark 0
abbrev pub seed : ℕ → Landmark
seed now = record { number = 0; tree_size = 0; allocated_at = now }

module _ (json : Json) where
  -- The buffer that persistLineLocked builds: the whole file, a line for each landmark
  unfoldable pub serialize : List Landmark → Option (List ℕ)
  unfolding join_line
  serialize [] = some []
  serialize (l ∷ ls) = join_line (json.encode l) (serialize ls)

  -- persistLineLocked: whether it succeeded, and the file after it
  unfoldable pub persist_line : Bool → Stored → List Landmark → Bool × Stored
  unfolding put serialize
  persist_line fails old landmarks = put fails old (serialize landmarks)

  -- One line of the file: an empty one is skipped.
  unfoldable pub add_line : List ℕ → Result Error (List Landmark) → Result Error (List Landmark)
  add_line [] landmarks = landmarks
  add_line (c ∷ line) landmarks = do
    ls ← landmarks
    l ← or_err (json.decode_line (c ∷ line)) decode
    ok (ls ++ (l ∷ []))

  -- The loop over the file's bytes; the last line may lack its newline.
  unfoldable pub read_lines :
      List ℕ → Result Error (List Landmark) → List ℕ → Result Error (List Landmark)
  unfolding add_line
  read_lines line landmarks [] = add_line line landmarks
  read_lines line landmarks (c ∷ rest) =
      read_lines (if c == newline then [] else line ++ (c ∷ []))
        (if c == newline then add_line line landmarks else landmarks) rest

  -- The sequence that starts with landmark 0, written at once
  unfoldable pub seeded : Bool → Stored → ℕ → Result Error (List Landmark × Stored)
  seeded fails file now =
      let (written, file') = persist_line fails file (seed now ∷ []) in
      if written then ok (seed now ∷ [], file') else err put_failed

  -- What is read is validated, and an empty file is seeded.
  unfoldable pub restored :
      Bool → Stored → ℕ → List Landmark → Result Error (List Landmark × Stored)
  restored fails file now [] = seeded fails file now
  restored fails file now (l ∷ ls) = do validate (l ∷ ls); ok (l ∷ ls, file)

  -- replay: the landmarks, and the file that it leaves. `fails` is whether a Put fails.
  unfoldable pub replay : Bool → Stored → ℕ → Result Error (List Landmark × Stored)
  replay fails missing now = seeded fails missing now
  replay fails failed now = err read_failed
  replay fails (found bytes) now = do
    landmarks ← read_lines [] (ok []) bytes
    restored fails (found bytes) now landmarks

  unfoldable pub new : Config → Bool → Stored → ℕ → Result Error (List Landmark × Stored)
  new cfg fails file now = do
    guard (not (cfg.time_between == 0)) bad_interval
    replay fails file now

  -- The result of Append, the landmarks and the file after it. An empty list would panic.
  unfoldable pub append :
      Config
      → Bool
      → ℕ
      → ℕ
      → List Landmark
      → Stored
      → Result Error (Appended × List Landmark × Stored)
  append cfg fails tree_size now [] file = panic
  append cfg fails tree_size now (l ∷ ls) file =
      let last = get_last l ls in
      let next : Landmark = record {
        number = last.number + 1;
        tree_size = tree_size;
        allocated_at = now;
      } in
      let (written, file') = persist_line fails file ((l ∷ ls) ++ (next ∷ [])) in
      if leb tree_size last.tree_size
      then ok (unchanged, l ∷ ls, file)
      else if ltb now (last.allocated_at + cfg.time_between)
      then ok (unchanged, l ∷ ls, file)
      else if written
      then ok (appended next, (l ∷ ls) ++ (next ∷ []), file')
      else ok (error, l ∷ ls, file')

-- Active: the last MaxActive landmarks, newest first. MaxActive is at least 1.
unfoldable pub active : Config → List Landmark → List Landmark
active cfg landmarks = reverse (drop (length landmarks - max_active cfg) landmarks)

unfoldable pub containing_index : ℕ → List Landmark → Option Landmark
containing_index index [] = none
containing_index index (l ∷ ls) =
    let rest = containing_index index ls in if ltb index l.tree_size then some l else rest

-- `s.landmarks[i]`
unfoldable pub at : List Landmark → ℕ → Result TlogError Landmark
at landmarks i = elim (get_elem? landmarks i) [ none ↦ panic | some l ↦ ok l ]

-- The range from the landmark before, where that is not empty
unfoldable pub covering : Landmark → Landmark → Result TlogError (List Subtree)
covering before l =
    if leb l.tree_size before.tree_size then ok [] else find_subtrees before.tree_size l.tree_size

-- `int(l.Number)` is negative from 2 ^ 63 on.
unfoldable pub landmark_subtrees : List Landmark → Landmark → Result TlogError (List Subtree)
unfolding at covering
landmark_subtrees landmarks l =
    let before = (do b ← at landmarks (l.number - 1); covering b l) in
    let checked = (do same ← at landmarks l.number; if landmark_eq same l then before else ok []) in
    let beyond = ltb l.number (2 ^ 63) && leb (length landmarks) l.number in
    if l.number == 0 then ok [] else if beyond then ok [] else checked

unfoldable pub next_number : List Landmark → ℕ
next_number landmarks = length landmarks

-- The sequence is never empty where the next two are called.
unfoldable pub time_until_next_landmark : Config → ℕ → Landmark → List Landmark → ℕ
time_until_next_landmark cfg now l ls = cfg.time_between + (get_last l ls).allocated_at - now

unfoldable pub latest_tree_size : Landmark → List Landmark → ℕ
latest_tree_size l ls = (get_last l ls).tree_size
