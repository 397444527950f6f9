-- ===== src/Landmark/Restart.antt =====
-- Appends and restarts: the invariant, what the file holds, and what a restart reads back.
use cactus.Prelude.{
  ℕ, ◌+◌, ◌≤◌, ◌<◌, ◌≡◌, ◌≢◌, ◌⊎◌, inl, inr, refl, sym, ap, ◌∙◌, Bool, true, false, Option, some,
  none, List, [], ◌∷◌, ◌++◌, Result, ok, err, panic, stuck, arith, Bool-cases, All, append_assoc,
  append-nil, ==_ne, ltb, leb, ◌>>=◌,
}
use cactus.Landmark.{
  Landmark, Config, Error, Stored, missing, found, Json, Appended, appended, newline, seed,
  serialize, persist_line, add_line, read_lines, seeded, restored, replay, append, get_last,
  validate, put, join_line,
}
use cactus.Landmark.Order.{IsSequence, validate_iff, snoc-IsSequence}

-- encoding/json reads back what it wrote, and writes no line break.
pub record JsonLaws (json : Json) : Type 0 where
  pub reads_back :
      (l : Landmark) (line : List ℕ) → json.encode l ≡ some line → json.decode_line line ≡ some l
  pub one_line :
      (l : Landmark) (line : List ℕ) → json.encode l ≡ some line → All (λ c. c ≢ newline) line
  pub some_text : (l : Landmark) → json.encode l ≢ some []

-- One line, read with no newline in it
read_line :
    (json : Json) (acc line rest : List ℕ) (ls : Result Error (List Landmark))
    → All (λ c. c ≢ newline) line
    → read_lines json acc ls (line ++ (newline ∷ rest))
      ≡ read_lines json [] (add_line json (acc ++ line) ls) rest
unfolding read_lines
read_line json acc [] rest ls h =
    ap (λ l. read_lines json [] (add_line json l ls) rest) (sym (append-nil acc))
read_line json acc (c ∷ line) rest ls (hc, h) =
    rw (read_lines, ==_ne c newline hc)
      (read_line json (acc ++ (c ∷ [])) line rest ls h
        ∙ ap (λ l. read_lines json [] (add_line json l ls) rest) (append_assoc acc (c ∷ []) line))

module _ (json : Json) where
  -- The file holds the sequence.
  abbrev pub IsDurable : List Landmark → Stored → Type 0
  IsDurable landmarks file =
      (buf : List ℕ) × (serialize json landmarks ≡ some buf) × (file ≡ found buf)

  seed-IsSequence : (now : ℕ) → IsSequence (seed now ∷ [])
  seed-IsSequence now = (refl, refl, tt)

  put_cases :
      (fails : Bool) (old : Stored) (buf : Option (List ℕ))
      → (put fails old buf ≡ (false, old))
        ⊎ ((b : List ℕ) × (buf ≡ some b) × (put fails old buf ≡ (true, found b)))
  unfolding put
  put_cases fails old none = inl refl
  put_cases true old (some b) = inl refl
  put_cases false old (some b) = inr (b, refl, refl)

  pub seeded_cases :
      (fails : Bool) (file file' : Stored) (now : ℕ) (ls : List Landmark)
      → seeded json fails file now ≡ ok (ls, file')
      → (ls ≡ seed now ∷ []) × IsDurable ls file'
  unfolding seeded persist_line
  seeded_cases fails file file' now ls h =
      elim (put_cases fails file (serialize json (seed now ∷ []))) [
        | inl lost ↦ absurd (ground (arith, lost))
        | inr (b, e, kept) ↦
            let same : ls ≡ seed now ∷ [] = ground (arith, kept) in
            (same, (b, rw same e, ground (arith, kept)))
      ]

  restored-IsSequence :
      (fails : Bool) (file file' : Stored) (now : ℕ) (read ls : List Landmark)
      → restored json fails file now read ≡ ok (ls, file')
      → IsSequence ls
  unfolding restored
  restored-IsSequence fails file file' now [] ls h =
      rw ((seeded_cases fails file file' now ls h).0) (seed-IsSequence now)
  restored-IsSequence fails file file' now (l ∷ read) ls h =
      let valid : validate (l ∷ read) ≡ ok tt = ground arith in
      let same : ls ≡ l ∷ read = ground arith in rw same ((validate_iff l read).0 valid)

  -- Whatever the file holds, replay returns a sequence or an error.
  pub replay-IsSequence :
      (fails : Bool) (file file' : Stored) (now : ℕ) (ls : List Landmark)
      → replay json fails file now ≡ ok (ls, file')
      → IsSequence ls
  unfolding replay
  replay-IsSequence fails missing file' now ls h =
      rw ((seeded_cases fails missing file' now ls h).0) (seed-IsSequence now)
  replay-IsSequence fails Stored.failed file' now ls h = absurd (ground arith)
  replay-IsSequence fails (found bytes) file' now ls h = bound (read_lines json [] (ok []) bytes) h
    where
      bound :
          (m : Result Error (List Landmark))
          → (m >>= restored json fails (found bytes) now) ≡ ok (ls, file')
          → IsSequence ls
      bound (ok read) e = restored-IsSequence fails (found bytes) file' now read ls e
      bound (err x) e = absurd (ground arith)
      bound panic e = absurd (ground arith)
      bound stuck e = absurd (ground arith)

  module _ (cfg : Config) (fails : Bool) (tree_size now : ℕ) (l : Landmark) (ls ls' : List Landmark)
      (file file' : Stored) (r : Appended)
      (e : append json cfg fails tree_size now (l ∷ ls) file ≡ ok (r, ls', file')) where
    abbrev pub last : Landmark
    last = get_last l ls

    abbrev pub next : Landmark
    next = record { number = last.number + 1; tree_size = tree_size; allocated_at = now }

    -- What Append has done, when it added a landmark and when it did not.
    abbrev pub Added : Type 0
    Added =
        (last.tree_size < tree_size)
        × (last.allocated_at + cfg.time_between ≤ now)
        × (r ≡ appended next)
        × (ls' ≡ (l ∷ ls) ++ (next ∷ []))
        × IsDurable ls' file'

    abbrev pub Kept : Type 0
    Kept = (ls' ≡ l ∷ ls) × (file' ≡ file)

    pub append_cases : Added ⊎ Kept
    unfolding append persist_line
    append_cases = elim (put_cases fails file (serialize json ((l ∷ ls) ++ (next ∷ [])))) [
      | inl lost ↦ inr (ground (arith, lost))
      | inr (b, some_b, kept) ↦ elim (Bool-cases (leb tree_size last.tree_size)) [
        | inl small ↦ inr (ground arith)
        | inr grows ↦ elim (Bool-cases (ltb now (last.allocated_at + cfg.time_between))) [
          | inl early ↦ inr (ground arith)
          | inr due ↦
              let same : ls' ≡ (l ∷ ls) ++ (next ∷ []) = ground (arith, kept) in
              inl (
                ground arith,
                ground arith,
                ground (arith, kept),
                same,
                (b, rw same some_b, ground (arith, kept)),
              )
        ]
      ]
    ]

    pub append-IsSequence : IsSequence (l ∷ ls) → IsSequence ls'
    append-IsSequence h = elim append_cases [
      | inl (grows, _, _, same, _) ↦ rw same (snoc-IsSequence l ls next h refl grows)
      | inr (same, _) ↦ rw same h
    ]

    pub append-IsDurable : IsDurable (l ∷ ls) file → IsDurable ls' file'
    append-IsDurable (b, some_b, held) = elim append_cases [
      | inl (_, _, _, _, durable) ↦ durable
      | inr (same, file_same) ↦ (b, rw same some_b, file_same ∙ held)
    ]

module _ (json : Json) (laws : JsonLaws json) where
  -- A line that was encoded is not skipped, and adds its landmark.
  add-encoded :
      (l : Landmark) (line : List ℕ) (ls : List Landmark)
      → json.encode l ≡ some line
      → add_line json line (ok ls) ≡ ok (ls ++ (l ∷ []))
  unfolding add_line
  add-encoded l [] ls h = absurd (laws.some_text l h)
  add-encoded l (c ∷ line) ls h = rw (laws.reads_back l (c ∷ line) h) refl

  read_lines-nil : (read : List Landmark) → read_lines json [] (ok read) [] ≡ ok read
  unfolding read_lines add_line
  read_lines-nil read = refl

  -- Reading what was written, after the landmarks `read`
  pub read_lines-serialize :
      (read ls : List Landmark) (buf : List ℕ)
      → serialize json ls ≡ some buf
      → read_lines json [] (ok read) buf ≡ ok (read ++ ls)
  unfolding serialize join_line
  read_lines-serialize read [] buf h =
      let e : [] ≡ buf = ground arith in
      rw (sym e) (read_lines-nil read ∙ ap ok (sym (append-nil read)))
  read_lines-serialize read (l ∷ ls) buf h =
      let (line, tail, encoded, written, e) = joined (json.encode l) (serialize json ls) buf h in
      rw e (
        read_line json [] line tail (ok read) (laws.one_line l line encoded)
        ∙ ap (λ m. read_lines json [] m tail) (add-encoded l line read encoded)
        ∙ read_lines-serialize (read ++ (l ∷ [])) ls tail written
        ∙ ap ok (append_assoc read (l ∷ []) ls))
    where
      joined :
          (a b : Option (List ℕ)) (buf : List ℕ)
          → join_line a b ≡ some buf
          → (line : List ℕ) × (tail : List ℕ) × (a ≡ some line)
            × (b ≡ some tail)
            × (buf ≡ line ++ (newline ∷ tail))
      joined none b buf h = absurd (ground arith)
      joined (some line) none buf h = absurd (ground arith)
      joined (some line) (some tail) buf h = (line, tail, refl, refl, ground arith)
