-- ===== src/TileWriter/Writer.antt =====
-- log/tilewriter/tilewriter.go: Append, on the size and the stored hashes in memory. The functions
-- of golang.org/x/mod/sumdb/tlog are parameters, and whether persistAfterAppend fails is given;
-- an entry of more than 65535 octets ends the process there. A size is below 2^63, so that the count
-- of new hashes does not wrap.
pub mod Held
use cactus.Prelude.{
  ℕ, suc, ◌+◌, Bool, true, false, not, Option, none, some, List, [], ◌∷◌, ◌++◌, length, take, ◌==◌,
  if◌then◌else◌,
}
use cactus.Tlogx.{Hash}

pub record TileWriter : Type 0 where
  pub size : ℕ
  pub hashes : List Hash

-- tlog.StoredHashes, for a record's number, the record and the hashes so far,
-- tlog.StoredHashCount and tlog.TreeHash
pub record Tlog : Type 0 where
  pub stored_hashes : ℕ → List ℕ → List Hash → Option (List Hash)
  pub stored_hash_count : ℕ → ℕ
  pub tree_hash : ℕ → List Hash → Option Hash

module _ (tlog : Tlog) where
  -- The loop over the entries: the new hashes, where `n` is the number of the first entry
  unfoldable pub hash_entries : ℕ → List (List ℕ) → List Hash → Option (List Hash)
  hash_entries n [] hr = some []
  hash_entries n (e ∷ es) hr = elim (tlog.stored_hashes n e hr) [
    | none ↦ none
    | some hs ↦ elim (hash_entries (suc n) es (hr ++ hs)) [
      | none ↦ none
      | some later ↦ some (hs ++ later)
    ]
  ]

  -- From the count of the new hashes on
  unfoldable pub store : Bool → TileWriter → ℕ → List Hash → Bool × TileWriter
  store fails w size new =
      let hashes = w.hashes ++ new in
      if not (length new + tlog.stored_hash_count w.size == tlog.stored_hash_count size)
      then (false, w)
      else if fails
      then (false, record { size = w.size; hashes = take (tlog.stored_hash_count w.size) hashes })
      else (true, record { size = size; hashes = hashes })

  unfoldable pub append : Bool → TileWriter → List (List ℕ) → Bool × TileWriter
  unfolding hash_entries store
  append fails w [] = (true, w)
  append fails w (e ∷ es) = elim (hash_entries w.size (e ∷ es) w.hashes) [
    | none ↦ (false, w)
    | some new ↦ store fails w (w.size + length (e ∷ es)) new
  ]

  unfoldable pub root_hash : (List ℕ → Hash) → TileWriter → Option Hash
  root_hash sha256 w = if w.size == 0 then some (sha256 []) else tlog.tree_hash w.size w.hashes
