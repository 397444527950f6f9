-- ===== src/TileWriter.antt =====
-- log/tilewriter/tilewriter.go: the framing of entries in a data tile; Append is in Writer.
pub mod Framing
pub mod Writer
mod Examples
use cactus.Prelude.{
  ℕ, zero, suc, ◌+◌, ◌*◌, ◌/◌, ◌%◌, List, [], ◌∷◌, ◌++◌, length, take, drop, ltb, if◌then◌else◌,
  Result, ok, err, panic, stuck, ◌>>=◌,
}

pub data Error : Type 0 where
  short_tile truncated_entry : Error

-- The length in two octets, and the entry
unfoldable pub append_data_entry : List ℕ → List ℕ → Result Error (List ℕ)
append_data_entry buf entry =
    if ltb 65535 (length entry)
    then panic
    else ok (buf ++ (length entry / 256 % 256 ∷ length entry % 256 ∷ entry))

-- Each round takes two octets at least, so one round more than there are octets is enough.
unfoldable pub split_fuel : ℕ → List ℕ → Result Error (List (List ℕ))
split_fuel zero data_ = stuck
split_fuel (suc fuel) [] = ok []
split_fuel (suc fuel) (hi ∷ []) = err short_tile
split_fuel (suc fuel) (hi ∷ lo ∷ rest) =
    let n = hi * 256 + lo in
    let more = do out ← split_fuel fuel (drop n rest); ok (take n rest ∷ out)
    in if ltb (length rest) n then err truncated_entry else more

unfoldable pub split_data_tile : List ℕ → Result Error (List (List ℕ))
split_data_tile data_ = split_fuel (suc (length data_)) data_
