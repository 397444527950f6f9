-- ===== src/Mirror/Follower.antt =====
-- mirror/follower.go: one poll of the upstream log as a function of the state under the mutex and
-- of what the upstream and the storage answer. Only Run changes the state, so that its holds of the
-- mutex in one poll have nothing between them. Base64, tlog.TreeHash,
-- tlog.StoredHashes and the verification of a signature are parameters.
pub mod Growth
pub mod Attested
pub mod Restart
use cactus.Prelude.{
  ℕ, zero, suc, ◌+◌, ◌-◌, ◌*◌, ◌/◌, Bool, true, false, not, Option, none, some, List, [], ◌∷◌, ◌++◌,
  length, take, drop, ltb, leb, ◌==◌, if◌then◌else◌, Result, ok, err, panic, stuck, guard, or_err,
  lift_err, ◌>>=◌, ◌>>◌,
}
use cactus.Prelude.Words.{u64}
use cactus.Tlogx.{Hash, hash_eq}
use cactus.Log.{MtcSubtree}
use cactus.TileWriter.{split_data_tile}
use cactus.TileWriter as TileWriter
use cactus.Cert.Wire.{Cryptobyte}
use cactus.Cert.Signing.{oid_name, marshal_signature_input}
use cactus.Cert.Signing as Signing
use cactus.Mirror.Checkpoint.{Checkpoint, parse_signed_note}
use cactus.Mirror.Checkpoint as Checkpoint

pub record Follower : Type 0 where
  pub size : ℕ
  pub root : Hash
  pub signed_note : List ℕ
  pub hashes : List Hash
  pub halted : Bool

pub record Upstream : Type 0 where
  pub log_id : List ℕ
  pub ca_cosigner_id : List ℕ
  pub ca_cosigner_key : List ℕ

pub record Parts : Type 0 where
  pub bytes : Cryptobyte
  pub decode : List ℕ → Option (List ℕ)
  -- ML-DSA-44: the key, the signature and the message
  pub verify : List ℕ → List ℕ → List ℕ → Bool
  pub stored_hashes : ℕ → List ℕ → List Hash → Option (List Hash)
  pub tree_hash : ℕ → List Hash → Option Hash

abbrev zeros : ℕ → List ℕ
zeros zero = []
zeros (suc n) = 0 ∷ zeros n

-- What the upstream answers to a poll: its checkpoint, and its data tiles by number and by the
-- number of their entries
pub record Answers : Type 0 where
  pub checkpoint : Option (List ℕ)
  pub data_tile : ℕ → ℕ → Option (List ℕ)

pub data Error : Type 0 where
  no_answer not_verified rollback replay_failed no_tree_hash root_mismatch : Error
  failed_read bad_size_file no_stored_checkpoint : Error
  bad_tile : TileWriter.Error → Error
  bad_checkpoint : Checkpoint.Error → Error
  signing : Signing.Error → Error

-- What FS.Get returns: no such file, an error, or the octets
pub data Got : Type 0 where
  missing failed : Got
  found : List ℕ → Got

-- The files that loadFromDisk reads
pub record Disk : Type 0 where
  pub halted_file : Bool
  pub size_file : Got
  pub checkpoint_file : Got

unfoldable pub octets_of : Got → Option (List ℕ)
octets_of missing = none
octets_of failed = none
octets_of (found octets) = some octets

abbrev pub fresh : Bool → Follower
fresh stopped = record {
  size = 0;
  root = zeros 32;
  signed_note = [];
  hashes = [];
  halted = stopped;
}

-- Whether an error halts the follower (haltf)
unfoldable pub halts : Error → Bool
halts not_verified = true
halts rollback = true
halts root_mismatch = true
halts _ = false

abbrev entries_per_data_tile : ℕ
entries_per_data_tile = 256

-- The loop over the tiles from `tile_n` on. Each round is one tile further: one round more than
-- there are tiles is enough.
unfoldable pub fetch_loop :
    (ℕ → ℕ → Option (List ℕ)) → ℕ → ℕ → ℕ → ℕ → List (List ℕ) → Result Error (List (List ℕ))
unfolding split_data_tile
fetch_loop data_tile from to zero tile_n out = stuck
fetch_loop data_tile from to (suc fuel) tile_n out =
    let first = tile_n * entries_per_data_tile in
    let records =
      if ltb to (first + entries_per_data_tile) then to - first else entries_per_data_tile in
    let start_in_tile = if ltb first from then from - first else 0 in
    let round = do
      raw ← or_err (data_tile tile_n records) no_answer
      es ← lift_err bad_tile (split_data_tile raw)
      let out' = out ++ take (to - from - length out) (drop start_in_tile es) in
          let more = fetch_loop data_tile from to fuel (suc tile_n) out' in
          if leb to (from + length out') then ok out' else more
    in if ltb first to then round else ok out

unfoldable pub fetch_entries : (ℕ → ℕ → Option (List ℕ)) → ℕ → ℕ → Result Error (List (List ℕ))
unfolding fetch_loop
fetch_entries data_tile from to =
    fetch_loop data_tile from to (suc (suc (to / entries_per_data_tile)))
      (from / entries_per_data_tile) []

module _ (parts : Parts) where
  -- The loop over the entries, `i` being the index of the first, `hr` the hashes so far
  unfoldable pub replay_loop : ℕ → List (List ℕ) → List Hash → Result Error (List Hash)
  replay_loop i [] hr = ok []
  replay_loop i (e ∷ es) hr = do
    hs ← or_err (parts.stored_hashes i e hr) replay_failed
    later ← replay_loop (suc i) es (hr ++ hs)
    ok (hs ++ later)

  unfoldable pub replay_new_entries :
      (ℕ → ℕ → Option (List ℕ)) → ℕ → ℕ → List Hash → Result Error (List Hash)
  unfolding fetch_entries replay_loop
  replay_new_entries data_tile from to hashes = do
    entries ← fetch_entries data_tile from to
    replay_loop from entries hashes

  -- Steps 1 and 2
  unfoldable pub verified_checkpoint :
      Upstream → Option (List ℕ) → Result Error (List ℕ × Checkpoint)
  unfolding oid_name marshal_signature_input parse_signed_note
  verified_checkpoint up answer = do
    octets ← or_err answer no_answer
    cp ←
        lift_err bad_checkpoint (parse_signed_note parts.decode octets (oid_name up.ca_cosigner_id))
    msg ← lift_err signing (
        marshal_signature_input parts.bytes up.ca_cosigner_id
          (record { log_id = up.log_id; start = 0; end = cp.size; hash = cp.root }))
    guard (parts.verify up.ca_cosigner_key cp.signature msg) not_verified
    ok (octets, cp)

  -- Steps 4 to 6, for a larger checkpoint
  unfoldable pub extend : Answers → Follower → List ℕ × Checkpoint → Result Error Follower
  unfolding replay_new_entries hash_eq
  extend answers f (octets, cp) = do
    new ← replay_new_entries answers.data_tile f.size cp.size f.hashes
    root ← or_err (parts.tree_hash cp.size (f.hashes ++ new)) no_tree_hash
    guard (hash_eq root cp.root) root_mismatch
    ok (record {
      size = cp.size;
      root = cp.root;
      signed_note = octets;
      hashes = f.hashes ++ new;
      halted = f.halted;
    })

  -- Steps 3 to 6
  unfoldable pub compare_sizes : Answers → Follower → List ℕ × Checkpoint → Result Error Follower
  unfolding extend
  compare_sizes answers f (octets, cp) =
      let larger = extend answers f (octets, cp) in
      if cp.size == f.size
      then ok (record f { signed_note = octets })
      else if ltb cp.size f.size
      then err rollback
      else larger

  unfoldable pub advance : Upstream → Answers → Follower → Result Error Follower
  unfolding verified_checkpoint compare_sizes
  advance up answers f = do
    checked ← verified_checkpoint up answers.checkpoint
    compare_sizes answers f checked

  -- A write that fails is logged and changes nothing in memory.
  unfoldable pub settle : Follower → Result Error Follower → Follower
  unfolding halts
  settle f (ok f') = f'
  settle f (err e) = record f { halted = if halts e then true else f.halted }
  settle f panic = f
  settle f stuck = f

  unfoldable pub poll : Upstream → Answers → Follower → Follower
  unfolding advance settle
  poll up answers f = if f.halted then f else settle f (advance up answers f)

  unfoldable pub polls : Upstream → List Answers → Follower → Follower
  unfolding poll
  polls up [] f = f
  polls up (a ∷ rest) f = polls up rest (poll up a f)

  -- The size read is dropped: the follower starts again from no entries.
  unfoldable pub load_checkpoint : Upstream → Disk → Result Error Follower
  unfolding octets_of oid_name parse_signed_note
  load_checkpoint up disk = do
    octets ← or_err (octets_of disk.checkpoint_file) no_stored_checkpoint
    cp ←
        lift_err bad_checkpoint (parse_signed_note parts.decode octets (oid_name up.ca_cosigner_id))
    ok (record (fresh false) { root = cp.root; signed_note = octets })

  unfoldable pub load_size : Upstream → Disk → Got → Result Error Follower
  unfolding load_checkpoint
  load_size up disk missing = ok (fresh false)
  load_size up disk failed = err failed_read
  load_size up disk (found octets) = do
    guard (length octets == 8) bad_size_file
    load_checkpoint up disk

  unfoldable pub load_from_disk : Upstream → Disk → Result Error Follower
  unfolding load_size
  load_from_disk up disk =
      if disk.halted_file then ok (fresh true) else load_size up disk disk.size_file
