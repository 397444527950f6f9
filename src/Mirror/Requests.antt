-- ===== src/Mirror/Requests.antt =====
-- mirror/server.go: the parser of a sign-subtree request. Base64 is a parameter.
pub mod Bounds
use cactus.Prelude.{
  ℕ, zero, suc, ◌+◌, ◌-◌, ◌*◌, ◌^◌, Bool, true, false, not, Option, none, some, List, [], ◌∷◌, ◌++◌,
  length, ltb, leb, ◌==◌, ◌&&◌, if◌then◌else◌, Result, ok, err, panic, stuck, guard, or_err,
  lift_err, ◌>>=◌, ◌>>◌,
}
use cactus.Prelude.Dict.{str_eq}
use cactus.Tlogx.{Hash}
use cactus.Mirror.Notes.{
  NoteSignature, lines_of, prepend, cut_prefix, em_dash, parse_note_signature_line,
  read_signed_note,
}
use cactus.Mirror.Notes as Notes

-- checkpointNote, which nothing reads, is left out.
pub record ParsedRequest : Type 0 where
  pub start : ℕ
  pub end : ℕ
  pub subtree_hash : Hash
  pub subtree_cosigs : List NoteSignature
  pub proof : List Hash
  pub checkpoint_origin : List ℕ
  pub checkpoint_size : ℕ
  pub checkpoint_root : Hash

pub data Error : Type 0 where
  no_line malformed_range leading_zero bad_number bad_base64 bad_hash_length no_checkpoint : Error
  cosignature_after_proof too_many_cosignatures too_many_proof_lines : Error
  too_many_signatures bad_body_lines : Error
  note : Notes.Error → Error

-- strings.Split at one octet
unfoldable pub split_byte : ℕ → List ℕ → List (List ℕ)
unfolding prepend
split_byte sep [] = [] ∷ []
split_byte sep (c ∷ cs) =
    let rest = split_byte sep cs in if c == sep then [] ∷ rest else prepend c rest

unfoldable pub three : List (List ℕ) → Option (List ℕ × List ℕ × List ℕ)
three (a ∷ b ∷ c ∷ []) = some (a, b, c)
three _ = none

unfoldable pub parse_digits : ℕ → List ℕ → Option ℕ
parse_digits n [] = some n
parse_digits n (c ∷ cs) =
    let rest = parse_digits (n * 10 + (c - b'0')) cs in
    if leb b'0' c && leb c b'9' then rest else none

unfoldable pub in_64_bits : Option ℕ → Option ℕ
in_64_bits none = none
in_64_bits (some n) = if ltb n (2 ^ 64) then some n else none

-- strconv.ParseUint with base 10 and 64 bits
unfoldable pub parse_uint : List ℕ → Option ℕ
unfolding parse_digits in_64_bits
parse_uint [] = none
parse_uint (c ∷ cs) = in_64_bits (parse_digits 0 (c ∷ cs))

unfoldable pub starts_with_zero : List ℕ → Bool
starts_with_zero [] = false
starts_with_zero (c ∷ cs) = c == b'0'

unfoldable pub parse_canonical_decimal : List ℕ → Result Error ℕ
unfolding starts_with_zero parse_uint
parse_canonical_decimal s = do
  guard (not (ltb 1 (length s) && starts_with_zero s)) leading_zero
  or_err (parse_uint s) bad_number

unfoldable pub next_line : List (List ℕ) → Result Error (List ℕ × List (List ℕ))
next_line [] = err no_line
next_line (l ∷ ls) = ok (l, ls)

abbrev subtree_word : List ℕ
subtree_word = b's' ∷ b'u' ∷ b'b' ∷ b't' ∷ b'r' ∷ b'e' ∷ b'e' ∷ []

module _ (decode : List ℕ → Option (List ℕ)) where
  -- A line with the base64 of 32 octets
  unfoldable pub read_hash : List ℕ → Result Error Hash
  read_hash line = do
    raw ← or_err (decode line) bad_base64
    guard (length raw == 32) bad_hash_length
    ok raw

  unfoldable pub read_range : List ℕ → Result Error (ℕ × ℕ)
  unfolding split_byte three str_eq parse_canonical_decimal
  read_range line = do
    (word, from, to) ← or_err (three (split_byte b' ' line)) malformed_range
    guard (str_eq word subtree_word) malformed_range
    start ← parse_canonical_decimal from
    end ← parse_canonical_decimal to
    ok (start, end)

  -- The loop up to an empty line; `cosigs`, `proof` and `saw_proof` are its variables.
  unfoldable pub read_section :
      List NoteSignature
      → List Hash
      → Bool
      → List (List ℕ)
      → Result Error (List NoteSignature × List Hash × List (List ℕ))
  unfolding cut_prefix parse_note_signature_line read_hash
  read_section cosigs proof saw_proof [] = err no_checkpoint
  read_section cosigs proof saw_proof ([] ∷ rest) = ok (cosigs, proof, rest)
  read_section cosigs proof saw_proof ((b ∷ bs) ∷ rest) = elim (cut_prefix em_dash (b ∷ bs)) [
    | some text ↦ do
      guard (not saw_proof) cosignature_after_proof
      guard (ltb (length cosigs) 8) too_many_cosignatures
      ns ← lift_err note (parse_note_signature_line decode (b ∷ bs))
      read_section (cosigs ++ (ns ∷ [])) proof saw_proof rest
    | none ↦ do
      guard (ltb (length proof) 63) too_many_proof_lines
      h ← read_hash (b ∷ bs)
      read_section cosigs (proof ++ (h ∷ [])) true rest
  ]

  unfoldable pub read_checkpoint : List (List ℕ) → Result Error (List ℕ × ℕ × Hash)
  unfolding read_signed_note three parse_canonical_decimal read_hash
  read_checkpoint lines = do
    sn ← lift_err note (read_signed_note decode lines)
    guard (leb (length sn.sigs) 8) too_many_signatures
    (origin, size_line, root_line) ← or_err (three sn.body) bad_body_lines
    size ← parse_canonical_decimal size_line
    root ← read_hash root_line
    ok (origin, size, root)

  unfoldable pub parse_request : List ℕ → Result Error ParsedRequest
  unfolding lines_of next_line read_range read_hash read_section read_checkpoint
  parse_request body = do
    (range_line, after_range) ← next_line (lines_of body)
    (start, end) ← read_range range_line
    (hash_line, after_hash) ← next_line after_range
    subtree_hash ← read_hash hash_line
    (cosigs, proof, rest) ← read_section [] [] false after_hash
    (origin, size, root) ← read_checkpoint rest
    ok (record {
      start = start;
      end = end;
      subtree_hash = subtree_hash;
      subtree_cosigs = cosigs;
      proof = proof;
      checkpoint_origin = origin;
      checkpoint_size = size;
      checkpoint_root = root;
    })
