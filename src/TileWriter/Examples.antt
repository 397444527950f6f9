-- ===== src/TileWriter/Examples.antt =====
-- A data tile of two entries.
use cactus.Prelude.{ℕ, ◌≡◌, ◌≢◌, refl, List, [], ◌∷◌, ok, stuck, arith}
use cactus.TileWriter.{append_data_entry, split_data_tile, split_fuel}
use cactus.TileWriter.Framing.{split-append, split_data_tile-returns}

one_entry : split_data_tile (0 ∷ 2 ∷ 7 ∷ 8 ∷ []) ≡ ok ((7 ∷ 8 ∷ []) ∷ [])
unfolding split_data_tile split_fuel
one_entry = refl

split-append_example :
    (buf : List ℕ) × (append_data_entry (0 ∷ 2 ∷ 7 ∷ 8 ∷ []) (9 ∷ []) ≡ ok buf)
    × (split_data_tile buf ≡ ok ((7 ∷ 8 ∷ []) ∷ (9 ∷ []) ∷ []))
split-append_example =
    split-append (0 ∷ 2 ∷ 7 ∷ 8 ∷ []) (9 ∷ []) ((7 ∷ 8 ∷ []) ∷ []) one_entry (omega arith)

split_data_tile-returns_example : split_data_tile (0 ∷ 5 ∷ 1 ∷ []) ≢ stuck
split_data_tile-returns_example = split_data_tile-returns (0 ∷ 5 ∷ 1 ∷ [])
