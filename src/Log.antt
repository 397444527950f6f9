-- ===== src/Log.antt =====
-- log/log.go: the issuance log. Each function is what happens under one hold of the log's mutex.
-- Metrics, logging, OnFlush and the notify channel are left out; they do not change this state.
pub mod Proof
pub mod Indices
pub mod Writes
pub mod Coverage
pub mod Kept
pub mod Waits
mod Examples
use cactus.Prelude.{
  ℕ, ◌+◌, Bool, true, false, not, Option, none, some, List, [], ◌∷◌, ◌++◌, map, length, ltb, leb,
  ◌==◌, ◌&&◌, ◌||◌, if◌then◌else◌, Result, ok, err, panic, stuck, guard, or_err, ◌>>=◌, ◌>>◌,
}
use cactus.Tlogx.{Hash, Subtree, hash_eq, find_subtrees, Error as TlogError}
use cactus.Log.Proof.{read_hashes, subtree_hash_from_hr, walk_inclusion_proof}

-- cert.MTCSubtree and cert.MTCSignature
pub record MtcSubtree : Type 0 where
  pub log_id : List ℕ
  pub start : ℕ
  pub end : ℕ
  pub hash : Hash

pub record MtcSignature : Type 0 where
  pub cosigner_id : List ℕ
  pub signature : List ℕ

pub record Issued : Type 0 where
  pub index : ℕ
  pub subtree : MtcSubtree
  pub inclusion_proof : List Hash
  pub signatures : List MtcSignature

pub record PoolItem : Type 0 where
  pub entry : List ℕ
  pub idem_key : List ℕ

pub record SignedSubtree : Type 0 where
  pub subtree : MtcSubtree
  pub sigs : List MtcSignature
  pub committed_at : ℕ

pub record CommittedCheckpoint : Type 0 where
  pub size : ℕ
  pub root : Hash
  pub subtrees : List SignedSubtree
  pub signed_note : List ℕ
  pub hashes_at_ckp : List Hash

pub data Error : Type 0 where
  append_failed root_failed sign_input_failed sign_failed note_failed persist_failed : Error
  not_committed : Error
  tlogx : TlogError → Error

-- subtreeRetention, 10 minutes in nanoseconds
abbrev pub subtree_retention : ℕ
subtree_retention = 600000000000

-- The parts that the log calls. The first five are the tile writer's methods (log/tilewriter),
-- where the Boolean is whether its storage fails in this call, and `append` answers whether it
-- succeeded. The next two are cert.MarshalSignatureInput for the log's cosigner and
-- buildSignedNote, each with no value for an error. The last two are tlog.StoredHashIndex of
-- golang.org/x/mod and SHA-256.
pub record Parts : Type 1 where
  pub Tiles : Type 0
  pub tile_size : Tiles → ℕ
  pub tile_append : Bool → Tiles → List (List ℕ) → Bool × Tiles
  pub root_hash : Tiles → Option Hash
  pub snapshot_hashes : Tiles → List Hash
  pub marshal_signature_input : MtcSubtree → Option (List ℕ)
  pub build_signed_note : ℕ → Hash → MtcSignature → Option (List ℕ)
  pub stored_hash_index : ℕ → ℕ → ℕ
  pub sha256 : List ℕ → Hash

pub record Config : Type 0 where
  pub log_id : List ℕ
  pub cosigner_id : List ℕ
  pub wait_for_cosigners : ℕ

-- What one flush meets: the clock, what the signer answers, and whether writes fail
pub record Flush : Type 0 where
  pub now : ℕ
  pub sign : List ℕ → Option (List ℕ)
  pub tiles_fail : Bool
  pub put_fails : Bool

-- `l.dedup[idemKey]`: the newest entry comes first
unfoldable pub lookup : List ℕ → List (List ℕ × ℕ) → Option ℕ
lookup key [] = none
lookup key ((k, i) ∷ rest) = let later = lookup key rest in if hash_eq key k then some i else later

unfoldable pub lift {ℓ} : {A : Type ℓ} → Result TlogError A → Result Error A
lift (ok a) = ok a
lift (err e) = err (tlogx e)
lift panic = panic
lift stuck = stuck

-- `now.Sub(s.committedAt) < subtreeRetention`, on what is carried forward
unfoldable pub retained : ℕ → List SignedSubtree → List SignedSubtree
retained now [] = []
retained now (s ∷ ss) =
    let rest = retained now ss in
    if ltb now (s.committed_at + subtree_retention) then s ∷ rest else rest

unfoldable pub carried : ℕ → Option CommittedCheckpoint → List SignedSubtree
carried now none = []
carried now (some c) = retained now c.subtrees

-- The first subtree with the range of `st` gets the mirrors' signatures.
unfoldable pub attach : MtcSubtree → List MtcSignature → List SignedSubtree → List SignedSubtree
attach st sigs [] = []
attach st sigs (s ∷ ss) =
    let rest = attach st sigs ss in
    if s.subtree.start == st.start && s.subtree.end == st.end
    then record { subtree = s.subtree; sigs = s.sigs ++ sigs; committed_at = s.committed_at } ∷ ss
    else s ∷ rest

unfoldable pub find_covering : ℕ → List SignedSubtree → Option SignedSubtree
find_covering index [] = none
find_covering index (s ∷ ss) =
    let rest = find_covering index ss in
    if leb s.subtree.start index && ltb index s.subtree.end then some s else rest

module _ (parts : Parts) (cfg : Config) where
  open parts use {
    Tiles, tile_size, tile_append, root_hash, snapshot_hashes, marshal_signature_input,
    build_signed_note, stored_hash_index, sha256,
  }

  pub record Log : Type 0 where
    pub tw : Tiles
    pub pool : List PoolItem
    pub dedup : List (List ℕ × ℕ)
    pub committed : Option CommittedCheckpoint

  unfoldable pub append : List ℕ → List ℕ → Log → ℕ × Log
  append entry idem_key l = elim (lookup idem_key l.dedup) [
    | some index ↦ (index, l)
    | none ↦
        let pending = tile_size l.tw + length l.pool in
        (
          pending,
          record {
            tw = l.tw;
            pool = l.pool ++ (record { entry = entry; idem_key = idem_key } ∷ []);
            dedup = (idem_key, pending) ∷ l.dedup;
            committed = l.committed;
          },
        )
  ]

  unfoldable pub sign_subtree : Flush → MtcSubtree → Result Error MtcSignature
  sign_subtree env st = do
    msg ← or_err (marshal_signature_input st) sign_input_failed
    sig ← or_err (env.sign msg) sign_failed
    ok (record { cosigner_id = cfg.cosigner_id; signature = sig })

  -- The loop over the covering subtrees of a flush
  unfoldable pub mint : Flush → List Hash → List Subtree → Result Error (List SignedSubtree)
  unfolding lift sign_subtree
  mint env hashes [] = ok []
  mint env hashes (s ∷ ss) = do
    h ← lift (subtree_hash_from_hr sha256 stored_hash_index (read_hashes hashes) 65 s.start s.end)
    sig ← sign_subtree env (record { log_id = cfg.log_id; start = s.start; end = s.end; hash = h })
    rest ← mint env hashes ss
    ok (
        record {
          subtree = record { log_id = cfg.log_id; start = s.start; end = s.end; hash = h };
          sigs = sig ∷ [];
          committed_at = env.now;
        }
        ∷ rest)

  unfoldable pub mint_range : Flush → List Hash → ℕ → ℕ → Result Error (List SignedSubtree)
  unfolding mint lift
  mint_range env hashes prev_size new_size =
      let minted = do covers ← lift (find_subtrees prev_size new_size); mint env hashes covers
      in if ltb prev_size new_size then minted else ok []

  -- A flush after its entries are in the tree: the checkpoint and the subtrees just minted
  unfoldable pub publish :
      Flush
      → ℕ
      → Tiles
      → Option CommittedCheckpoint
      → Result Error (CommittedCheckpoint × List SignedSubtree)
  unfolding sign_subtree mint_range carried retained
  publish env prev_size tw committed = do
    root ← or_err (root_hash tw) root_failed
    sig ←
        sign_subtree env
          (record { log_id = cfg.log_id; start = 0; end = tile_size tw; hash = root })
    note ← or_err (build_signed_note (tile_size tw) root sig) note_failed
    subs ← mint_range env (snapshot_hashes tw) prev_size (tile_size tw)
    guard (not env.put_fails) persist_failed
    ok (
      record {
        size = tile_size tw;
        root = root;
        subtrees = subs ++ carried env.now committed;
        signed_note = note;
        hashes_at_ckp = snapshot_hashes tw;
      },
      subs,
    )

  -- What a flush returns: an error or nil, with the subtrees that mirrors are then asked to sign.
  pub data Flushed : Type 0 where
    nothing_to_do : Flushed
    flushed : List SignedSubtree → Flushed
    failed : Error → Flushed
    panicked : Flushed

  unfoldable pub up_to_date : Log → Bool
  up_to_date l = elim l.committed [
    | none ↦ false
    | some c ↦ length l.pool == 0 && c.size == tile_size l.tw
  ]

  -- tw.Append is called on a non-empty pool only.
  unfoldable pub append_pool : Flush → Log → Bool × Tiles
  append_pool env l = elim l.pool [
    | [] ↦ (true, l.tw)
    | item ∷ rest ↦ tile_append env.tiles_fail l.tw (map (λ p. p.entry) (item ∷ rest))
  ]

  -- The pool is gone, whatever becomes of the checkpoint.
  unfoldable pub commit :
      Log → Tiles → Result Error (CommittedCheckpoint × List SignedSubtree) → Flushed × Log
  commit l tw (ok (c, subs)) =
      (flushed subs, record { tw = tw; pool = []; dedup = l.dedup; committed = some c })
  commit l tw (err e) =
      (failed e, record { tw = tw; pool = []; dedup = l.dedup; committed = l.committed })
  commit l tw panic =
      (panicked, record { tw = tw; pool = []; dedup = l.dedup; committed = l.committed })
  commit l tw stuck =
      (panicked, record { tw = tw; pool = []; dedup = l.dedup; committed = l.committed })

  unfoldable pub flush : Flush → Log → Flushed × Log
  unfolding up_to_date append_pool commit publish
  flush env l =
      let (appended, tw) = append_pool env l in
      let published = commit l tw (publish env (tile_size l.tw) tw l.committed) in
      let kept : Log = record {
        tw = tw;
        pool = l.pool;
        dedup = l.dedup;
        committed = l.committed;
      } in
      if up_to_date l
      then (nothing_to_do, l)
      else if appended
      then published
      else (failed append_failed, kept)

  -- collectMirrorSigs for one subtree, once the mirrors have answered
  unfoldable pub collect_mirror_sigs : MtcSubtree → List MtcSignature → Log → Log
  unfolding attach
  collect_mirror_sigs st [] l = l
  collect_mirror_sigs st (sig ∷ sigs) l = elim l.committed [
    | none ↦ l
    | some c ↦ record {
      tw = l.tw;
      pool = l.pool;
      dedup = l.dedup;
      committed = some (record {
        size = c.size;
        root = c.root;
        subtrees = attach st (sig ∷ sigs) c.subtrees;
        signed_note = c.signed_note;
        hashes_at_ckp = c.hashes_at_ckp;
      });
    }
  ]

  -- subtreeInclusionProof
  unfoldable pub subtree_inclusion_proof :
      CommittedCheckpoint → ℕ → ℕ → ℕ → Result Error (List Hash)
  unfolding lift
  subtree_inclusion_proof c start end index =
      lift (
        walk_inclusion_proof sha256 stored_hash_index (read_hashes c.hashes_at_ckp) start end index)

  -- The covering subtree of a recent flush, or the whole tree, without signatures
  unfoldable pub build_from : CommittedCheckpoint → ℕ → Result Error Issued
  unfolding find_covering subtree_inclusion_proof
  build_from c index = elim (find_covering index c.subtrees) [
    | some s ↦ do
      proof ← subtree_inclusion_proof c s.subtree.start s.subtree.end index
      ok (record {
        index = index;
        subtree = s.subtree;
        inclusion_proof = proof;
        signatures = s.sigs;
      })
    | none ↦ do
      proof ← subtree_inclusion_proof c 0 c.size index
      ok (record {
        index = index;
        subtree = record { log_id = cfg.log_id; start = 0; end = c.size; hash = c.root };
        inclusion_proof = proof;
        signatures = [];
      })
  ]

  unfoldable pub build_issued : Log → ℕ → Result Error Issued
  unfolding build_from
  build_issued l index = elim l.committed [
    | none ↦ err not_committed
    | some c ↦
        let built = build_from c index in if leb c.size index then err not_committed else built
  ]

  -- One round of the loop of Wait: `none` where it goes on to wait for the next change.
  unfoldable pub wait_step : Log → ℕ → Result Error (Option Issued)
  unfolding build_issued
  wait_step l index = elim l.committed [
    | none ↦ ok none
    | some c ↦
        let checked = do
          iss ← build_issued l index
          ok (
              if ltb 0 cfg.wait_for_cosigners && ltb (length iss.signatures) cfg.wait_for_cosigners
              then none
              else some iss)
        in if ltb index c.size then checked else ok none
  ]
