-- ===== src/Cert/Der.antt =====
-- cert/entry.go: the DER helpers of log entries. Octets are numbers below 256; an int has 64 bits.
pub mod Lengths
mod Examples
use cactus.Prelude.{
  ℕ, zero, suc, ◌+◌, ◌*◌, ◌/◌, ◌%◌, ◌^◌, Bool, true, false, not, List, [], ◌∷◌, ◌++◌, length, take,
  drop, ltb, leb, ◌==◌, ◌||◌, if◌then◌else◌, Result, ok, err,
}

pub data Error : Type 0 where
  short_input unexpected_tag bad_length truncated_length truncated_value : Error

unfoldable pub append_der_length : List ℕ → ℕ → List ℕ
append_der_length b n =
    if ltb n 0x80
    then b ++ (n % 256 ∷ [])
    else if leb n 0xff
    then b ++ (0x81 ∷ n % 256 ∷ [])
    else if leb n 0xffff
    then b ++ (0x82 ∷ n / 2 ^ 8 % 256 ∷ n % 256 ∷ [])
    else if leb n 0xffffff
    then b ++ (0x83 ∷ n / 2 ^ 16 % 256 ∷ n / 2 ^ 8 % 256 ∷ n % 256 ∷ [])
    else b ++ (0x84 ∷ n / 2 ^ 24 % 256 ∷ n / 2 ^ 16 % 256 ∷ n / 2 ^ 8 % 256 ∷ n % 256 ∷ [])

unfoldable pub wrap_sequence : List ℕ → List ℕ
unfolding append_der_length
wrap_sequence b = append_der_length (0x30 ∷ []) (length b) ++ b

-- `l = (l << 8) | b[i]`, over at most four octets
unfoldable pub big_endian : ℕ → List ℕ → ℕ
big_endian l [] = l
big_endian l (b ∷ bs) = big_endian (l * 256 + b) bs

-- The value behind a header of `hdr` octets
unfoldable pub strip_value : ℕ → ℕ → List ℕ → Result Error (ℕ × List ℕ)
strip_value hdr l rest =
    if ltb (length rest) l then err truncated_value else ok (hdr + l, take l rest)

unfoldable pub strip_long : ℕ → List ℕ → Result Error (ℕ × List ℕ)
unfolding strip_value big_endian
strip_long nbytes rest =
    if nbytes == 0 || ltb 4 nbytes
    then err bad_length
    else if ltb (length rest) nbytes
    then err truncated_length
    else strip_value (2 + nbytes) (big_endian 0 (take nbytes rest)) (drop nbytes rest)

unfoldable pub strip_der_header : List ℕ → ℕ → Result Error (ℕ × List ℕ)
unfolding strip_value strip_long
strip_der_header [] want_tag = err short_input
strip_der_header (tag ∷ []) want_tag = err short_input
strip_der_header (tag ∷ l ∷ rest) want_tag =
    if not (tag == want_tag)
    then err unexpected_tag
    else if ltb l 0x80
    then strip_value 2 l rest
    else strip_long (l % 128) rest
