-- ===== src/Cert/TrustAnchorId.antt =====
-- cert/trustanchorid.go: the binary form of a trust anchor ID, arcs in base 128.
pub mod Octets
pub mod RoundTrip
pub mod Examples
use cactus.Prelude.{
  ℕ, zero, suc, ◌+◌, ◌*◌, ◌/◌, ◌%◌, Bool, true, false, not, Option, none, some, List, [], ◌∷◌, ◌++◌,
  ltb, ◌==◌, ◌&&◌, if◌then◌else◌, Result, ok, err, panic, stuck, guard, or_err, ◌>>=◌, ◌>>◌,
}
use cactus.Prelude.Words.{u64}

-- strings.Split and strings.Join with ".", strconv.ParseUint of 64 bits, strconv.FormatUint
pub record Text : Type 0 where
  pub split : List ℕ → List (List ℕ)
  pub join : List (List ℕ) → List ℕ
  pub parse_uint : List ℕ → Option ℕ
  pub format_uint : ℕ → List ℕ

pub data Error : Type 0 where
  empty_id empty_arc not_a_number non_minimal overflows truncated : Error

unfoldable pub is_empty : List ℕ → Bool
is_empty [] = true
is_empty (c ∷ cs) = false

-- `for v >>= 7; v > 0; v >>= 7`, from the back of the buffer. Nine rounds clear a uint64.
unfoldable pub continue_loop : ℕ → ℕ → List ℕ → List ℕ
continue_loop zero v buf = buf
continue_loop (suc fuel) v buf =
    let rest = continue_loop fuel (v / 128) ((v % 128 + 128) ∷ buf) in if v == 0 then buf else rest

unfoldable pub append_base128 : List ℕ → ℕ → List ℕ
append_base128 dst v = dst ++ continue_loop 9 (v / 128) (v % 128 ∷ [])

-- The variables of the loop of TrustAnchorIDFromBinary
pub record Decoding : Type 0 where
  pub arcs : List (List ℕ)
  pub v : ℕ
  pub started : Bool
  pub bits : ℕ

module _ (text : Text) where
  unfoldable pub append_arcs : List ℕ → List (List ℕ) → Result Error (List ℕ)
  append_arcs out [] = ok out
  append_arcs out (part ∷ parts) = do
    guard (not (is_empty part)) empty_arc
    v ← or_err (text.parse_uint part) not_a_number
    append_arcs (append_base128 out v) parts

  unfoldable pub binary : List ℕ → Result Error (List ℕ)
  binary id = do guard (not (is_empty id)) empty_id; append_arcs [] (text.split id)

  -- One octet, a number below 256
  unfoldable pub decode_octet : Decoding → ℕ → Result Error Decoding
  decode_octet d c =
      let v = u64 (d.v * 128) + c % 128 in
      do
        guard (not (not d.started && c == 128)) non_minimal
        guard (not (ltb 64 (d.bits + 7))) overflows
        ok (
            if ltb c 128
            then record {
              arcs = d.arcs ++ (text.format_uint v ∷ []);
              v = 0;
              started = false;
              bits = 0;
            }
            else record { arcs = d.arcs; v = v; started = true; bits = d.bits + 7 })

  unfoldable pub decode_loop : Decoding → List ℕ → Result Error Decoding
  decode_loop d [] = ok d
  decode_loop d (c ∷ cs) = do d' ← decode_octet d c; decode_loop d' cs

  unfoldable pub from_binary : List ℕ → Result Error (List ℕ)
  from_binary b = do
    guard (not (is_empty b)) empty_id
    d ← decode_loop (record { arcs = []; v = 0; started = false; bits = 0 }) b
    guard (not d.started) truncated
    ok (text.join d.arcs)
