-- ===== src/Mirror/Checkpoint.antt =====
-- mirror/note.go: the parser of an upstream checkpoint. Base64 is a parameter.
use cactus.Prelude.{
  ℕ, not, Option, none, some, List, [], ◌∷◌, ◌++◌, length, drop, ltb, ◌==◌, ◌&&◌, if◌then◌else◌,
  Result, ok, err, guard, or_err, lift_err, ◌>>=◌, ◌>>◌,
}
use cactus.Tlogx.{Hash}
use cactus.Cert.Signing.{parse_timestamped_signature}
use cactus.Cert.Signing as Signing
use cactus.Mirror.Notes.{cut_prefix, em_dash}
use cactus.Mirror.Requests.{split_byte, three, parse_canonical_decimal, read_hash}
use cactus.Mirror.Requests as Requests

pub record Checkpoint : Type 0 where
  pub size : ℕ
  pub root : Hash
  pub signature : List ℕ

pub data Error : Type 0 where
  no_separator bad_body_lines bad_base64 short_signature no_signature_line : Error
  field : Requests.Error → Error
  signing : Signing.Error → Error

unfoldable pub before : ℕ → Option (List ℕ × List ℕ) → Option (List ℕ × List ℕ)
before c none = none
before c (some (a, b)) = some (c ∷ a, b)

-- strings.SplitN at a blank line, for two parts
unfoldable pub split_blank_line : List ℕ → Option (List ℕ × List ℕ)
unfolding before
split_blank_line [] = none
split_blank_line (a ∷ []) = none
split_blank_line (a ∷ b ∷ cs) =
    let later = before a (split_blank_line (b ∷ cs)) in
    if a == 10 && b == 10 then some ([], cs) else later

unfoldable pub onto_trimmed : ℕ → List ℕ → List ℕ
onto_trimmed c [] = if c == 10 then [] else c ∷ []
onto_trimmed c (x ∷ xs) = c ∷ x ∷ xs

-- strings.TrimRight of newlines
unfoldable pub trim_newlines : List ℕ → List ℕ
unfolding onto_trimmed
trim_newlines [] = []
trim_newlines (c ∷ cs) = onto_trimmed c (trim_newlines cs)

module _ (decode : List ℕ → Option (List ℕ)) where
  -- The loop over the signature lines: the first with the prefix
  unfoldable pub find_signature : List ℕ → List (List ℕ) → Result Error (List ℕ)
  unfolding cut_prefix parse_timestamped_signature
  find_signature prefix [] = err no_signature_line
  find_signature prefix (line ∷ lines) = elim (cut_prefix prefix line) [
    | none ↦ find_signature prefix lines
    | some text ↦ do
      raw ← or_err (decode text) bad_base64
      guard (not (ltb (length raw) 5)) short_signature
      (timestamp, sig) ← lift_err signing (parse_timestamped_signature (drop 4 raw))
      ok sig
  ]

  unfoldable pub parse_signed_note : List ℕ → List ℕ → Result Error Checkpoint
  unfolding split_blank_line trim_newlines split_byte three parse_canonical_decimal read_hash
      find_signature
  parse_signed_note octets expect_key = do
    (body, rest) ← or_err (split_blank_line octets) no_separator
    (origin, size_line, root_line) ←
        or_err (three (split_byte 10 (trim_newlines body))) bad_body_lines
    size ← lift_err field (parse_canonical_decimal size_line)
    root ← lift_err field (read_hash decode root_line)
    sig ←
        find_signature (em_dash ++ (expect_key ++ (b' ' ∷ []))) (split_byte 10 (trim_newlines rest))
    ok (record { size = size; root = root; signature = sig })
