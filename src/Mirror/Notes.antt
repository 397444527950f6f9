-- ===== src/Mirror/Notes.antt =====
-- mirror/note_parse.go: signed notes. What is read is given by its lines; base64 is a parameter.
use cactus.Prelude.{
  ℕ, Option, none, some, List, [], ◌∷◌, ◌++◌, ◌==◌, if◌then◌else◌, Result, ok, err, or_err, ◌>>=◌,
}

pub record NoteSignature : Type 0 where
  pub key_name : List ℕ
  pub sig_bytes : List ℕ

pub record SignedNote : Type 0 where
  pub body : List (List ℕ)
  pub sigs : List NoteSignature

pub data Error : Type 0 where
  no_note no_separator empty_body unexpected_line not_signature_line malformed_line bad_base64 :
      Error

unfoldable pub prepend : ℕ → List (List ℕ) → List (List ℕ)
prepend b [] = (b ∷ []) ∷ []
prepend b (l ∷ ls) = (b ∷ l) ∷ ls

-- What readLine returns until io.EOF
unfoldable pub lines_of : List ℕ → List (List ℕ)
unfolding prepend
lines_of [] = []
lines_of (b ∷ bs) = let rest = lines_of bs in if b == 10 then [] ∷ rest else prepend b rest

-- strings.CutPrefix
unfoldable pub cut_prefix : List ℕ → List ℕ → Option (List ℕ)
cut_prefix [] s = some s
cut_prefix (p ∷ ps) [] = none
cut_prefix (p ∷ ps) (c ∷ cs) = let rest = cut_prefix ps cs in if p == c then rest else none

-- The em-dash in UTF-8 and a space
abbrev pub em_dash : List ℕ
em_dash = 0xe2 ∷ 0x80 ∷ 0x94 ∷ b' ' ∷ []

-- strings.SplitN at a space, for two parts
unfoldable pub split_once : List ℕ → Option (List ℕ × List ℕ)
split_once [] = none
split_once (c ∷ cs) =
    let later : Option (List ℕ × List ℕ) = elim (split_once cs) [
      | none ↦ none
      | some (a, b) ↦ some (c ∷ a, b)
    ] in
    if c == b' ' then some ([], cs) else later

module _ (decode : List ℕ → Option (List ℕ)) where
  unfoldable pub parse_note_signature_line : List ℕ → Result Error NoteSignature
  unfolding cut_prefix split_once
  parse_note_signature_line line = do
    rest ← or_err (cut_prefix em_dash line) not_signature_line
    (name, text) ← or_err (split_once rest) malformed_line
    raw ← or_err (decode text) bad_base64
    ok (record { key_name = name; sig_bytes = raw })

  -- Up to the first blank line; `body` is what was read before.
  unfoldable pub read_body :
      List (List ℕ) → List (List ℕ) → Result Error (List (List ℕ) × List (List ℕ))
  read_body [] [] = err no_note
  read_body (l ∷ ls) [] = err no_separator
  read_body [] ([] ∷ rest) = err empty_body
  read_body (l ∷ ls) ([] ∷ rest) = ok (l ∷ ls, rest)
  read_body body ((b ∷ bs) ∷ rest) = read_body (body ++ ((b ∷ bs) ∷ [])) rest

  -- Up to a blank line or the end
  unfoldable pub read_signatures : List (List ℕ) → Result Error (List NoteSignature)
  unfolding parse_note_signature_line
  read_signatures [] = ok []
  read_signatures ([] ∷ rest) = ok []
  read_signatures ((b ∷ bs) ∷ rest) = elim (cut_prefix em_dash (b ∷ bs)) [
    | none ↦ err unexpected_line
    | some text ↦ do
      ns ← parse_note_signature_line (b ∷ bs)
      later ← read_signatures rest
      ok (ns ∷ later)
  ]

  unfoldable pub read_signed_note : List (List ℕ) → Result Error SignedNote
  unfolding read_body read_signatures
  read_signed_note lines = do
    (body, rest) ← read_body [] lines
    sigs ← read_signatures rest
    ok (record { body = body; sigs = sigs })
