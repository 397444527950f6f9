-- ===== src/Log/Writes.antt =====
-- The log over the tile writer (log/log.go, log/tilewriter/tilewriter.go): the index that Append
-- returns is where the entry stands.
use cactus.Prelude.{ℕ, Option, List}
use cactus.Tlogx.{Hash}
use cactus.TileWriter.Writer as Writer
use cactus.TileWriter.Writer.{TileWriter, Tlog}
use cactus.TileWriter.Writer.Held.{Held, append-Held}
use cactus.Log.{Parts, Log, MtcSubtree, MtcSignature, append}
use cactus.Log.Indices.{TileLaws}

module _ (tlog : Tlog) (marshal_signature_input : MtcSubtree → Option (List ℕ))
    (build_signed_note : ℕ → Hash → MtcSignature → Option (List ℕ)) (stored_hash_index : ℕ → ℕ → ℕ)
    (sha256 : List ℕ → Hash) where
  abbrev pub writing : Parts
  writing = record {
    Tiles = TileWriter;
    tile_size = λ w. w.size;
    tile_append = Writer.append tlog;
    root_hash = Writer.root_hash tlog sha256;
    snapshot_hashes = λ w. w.hashes;
    marshal_signature_input = marshal_signature_input;
    build_signed_note = build_signed_note;
    stored_hash_index = stored_hash_index;
    sha256 = sha256;
  }

  abbrev writer-TileLaws : TileLaws writing
  writer-TileLaws = record {
    Holds = Held tlog;
    size_entries = λ w es held. held.counted;
    appends = append-Held tlog;
  }
