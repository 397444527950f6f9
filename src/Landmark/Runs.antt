-- ===== src/Landmark/Runs.antt =====
-- Runs of landmark/sequence.go: a process starts on any file, appends, stops at any point and
-- starts again on what the file then holds.
use cactus.Prelude.{
  ℕ, ◌≡◌, ◌≢◌, inl, inr, refl, Bool, List, [], ◌∷◌, Result, ok, err, panic, stuck, arith, ◌>>=◌,
  ==_ne,
}
use cactus.Landmark.{
  Landmark, Config, Error, Stored, missing, failed, found, Json, Appended, read_lines, seeded,
  restored, replay, new, append,
}
use cactus.Landmark.Order.{IsSequence, validate_iff}
use cactus.Landmark.Restart.{
  JsonLaws, IsDurable, read_lines-serialize, seeded_cases, replay-IsSequence, append-IsSequence,
  append_cases,
}

module _ (json : Json) where
  -- The file's lines decode to the landmarks.
  abbrev pub Reads : List Landmark → Stored → Type 0
  Reads ls file =
      (bytes : List ℕ) × (file ≡ found bytes) × (read_lines json [] (ok []) bytes ≡ ok ls)

  -- The landmarks in memory and the file that a run can come to
  pub data Reach : List Landmark → Stored → Type 0 where
    -- a start, on whatever file there is
    starts :
        (cfg : Config) (fails : Bool) (file : Stored) (now : ℕ) {ls : List Landmark}
        {file' : Stored}
        → new json cfg fails file now ≡ ok (ls, file')
        → Reach ls file'
    -- a call of Append, also one that does nothing or whose write fails
    appends :
        (ls : List Landmark) (file : Stored) (cfg : Config) (fails : Bool) (tree_size now : ℕ)
        (r : Appended) {ls' : List Landmark} {file' : Stored}
        → Reach ls file
        → append json cfg fails tree_size now ls file ≡ ok (r, ls', file')
        → Reach ls' file'

  module _ (laws : JsonLaws json) where
    durable-Reads : (ls : List Landmark) (file : Stored) → IsDurable json ls file → Reads ls file
    durable-Reads ls file (buf, written, held) =
        (buf, held, read_lines-serialize json laws [] ls buf written)

    seeded-Reads :
        (fails : Bool) (file file' : Stored) (now : ℕ) (ls : List Landmark)
        → seeded json fails file now ≡ ok (ls, file')
        → Reads ls file'
    seeded-Reads fails file file' now ls h =
        durable-Reads ls file' ((seeded_cases json fails file file' now ls h).1)

    replay-Reads :
        (fails : Bool) (file file' : Stored) (now : ℕ) (ls : List Landmark)
        → replay json fails file now ≡ ok (ls, file')
        → Reads ls file'
    unfolding replay restored
    replay-Reads fails missing file' now ls h = seeded-Reads fails missing file' now ls h
    replay-Reads fails failed file' now ls h = absurd (ground arith)
    replay-Reads fails (found bytes) file' now ls h =
        bound (read_lines json [] (ok []) bytes) refl h
      where
        bound :
            (m : Result Error (List Landmark))
            → read_lines json [] (ok []) bytes ≡ m
            → (m >>= restored json fails (found bytes) now) ≡ ok (ls, file')
            → Reads ls file'
        bound (ok []) e k = seeded-Reads fails (found bytes) file' now ls k
        bound (ok (l ∷ read)) e k = (bytes, ground arith, ground arith)
        bound (err x) e k = absurd (ground arith)
        bound panic e k = absurd (ground arith)
        bound stuck e k = absurd (ground arith)

    new-replay :
        (cfg : Config) (fails : Bool) (file : Stored) (now : ℕ) (r : List Landmark × Stored)
        → new json cfg fails file now ≡ ok r
        → replay json fails file now ≡ ok r
    unfolding new
    new-replay cfg fails file now r h = ground arith

    -- What a run can come to is a sequence, and the file reads back as it.
    pub Reach-invariant :
        (ls : List Landmark) (file : Stored) → Reach ls file → IsSequence ls × Reads ls file
    Reach-invariant ls file (starts cfg fails before now h) =
        let e = new-replay cfg fails before now (ls, file) h in
        (replay-IsSequence json fails before file now ls e, replay-Reads fails before file now ls e)
    Reach-invariant ls' file' (appends [] file cfg fails tree_size now r before h) =
        absurd ((Reach-invariant [] file before).0)
    Reach-invariant ls' file' (appends (l ∷ ls) file cfg fails tree_size now r before h) =
        let (ordered, reads) = Reach-invariant (l ∷ ls) file before in
        (
          append-IsSequence json cfg fails tree_size now l ls ls' file file' r h ordered,
          elim (append_cases json cfg fails tree_size now l ls ls' file file' r h) [
            | inl (_, _, _, _, durable) ↦ durable-Reads ls' file' durable
            | inr (same, file_same) ↦ rw (same, file_same) reads
          ],
        )

    -- From whatever file a process first started, and after any appends, failed ones included,
    -- a restart succeeds, even if no write would, has the same landmarks, in the order of
    -- the sequence, and leaves the file as it is. encoding/json is to satisfy `JsonLaws`, and
    -- the time between landmarks is not zero.
    pub restart-Reach :
        (ls : List Landmark) (file : Stored) (cfg : Config) (fails : Bool) (now : ℕ)
        → Reach ls file
        → cfg.time_between ≢ 0
        → IsSequence ls × (new json cfg fails file now ≡ ok (ls, file))
    unfolding new replay restored
    restart-Reach [] file cfg fails now h timed = absurd ((Reach-invariant [] file h).0)
    restart-Reach (l ∷ ls) file cfg fails now h timed =
        let (ordered, (bytes, held, reads)) = Reach-invariant (l ∷ ls) file h in
        (
          ordered,
          rw held (
              rw (==_ne cfg.time_between 0 timed)
                (rw reads (rw ((validate_iff l ls).1 ordered) refl))),
        )
