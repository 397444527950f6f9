-- ===== src/Log/Examples.antt =====
-- A log at work on a tree of up to two entries, and the theorems at its states.
use cactus.Prelude.{
  ℕ, zero, suc, ◌≤◌, ◌<◌, ◌≡◌, refl, Bool, true, false, none, some, List, [], ◌∷◌, ◌++◌, length, ok,
  arith, ap, ◌^◌,
}
use cactus.Prelude.Words.{len64}
use cactus.Tlogx.{Hash, find_subtrees, is_valid, bit_ceil}
use cactus.Tlogx.Inclusion.{generate_inclusion_proof, subtree_hash, first_hash}
use cactus.Log.Proof.{
  read_hashes, walk_inclusion_proof, subtree_hash_from_hr, walk_loop, largest_power_of_two_lt,
  bits_len, bits_len_fuel,
}
use cactus.Log.Proof.Same.{walk_inclusion_proof-generate}
use cactus.Log.{
  Parts, Config, Flush, Log, MtcSignature, SignedSubtree, CommittedCheckpoint, Issued, append,
  flush, flushed, lookup, commit, append_pool, up_to_date, publish, mint, mint_range, sign_subtree,
  lift, carried, find_covering, wait_step, build_issued, build_from, subtree_inclusion_proof,
  collect_mirror_sigs,
}
use cactus.TileWriter.Writer as Writer
use cactus.TileWriter.Writer.{Tlog}
use cactus.TileWriter.Writer.Held.{Held}
use cactus.Log.Indices.{now}
use cactus.Log.Writes.{writing}
use cactus.Log.Kept.{AllSigned, here, collecting, flush_covers-retention}
use cactus.Log.Waits.{wait_step-Issued}

-- Entries are kept as they are, and a hash shows its input.
abbrev toy_index : ℕ → ℕ → ℕ
toy_index zero n = n
toy_index (suc level) n = 2

abbrev toy_hashes : List (List ℕ) → List Hash
toy_hashes [] = []
toy_hashes (a ∷ []) = (0 ∷ a) ∷ []
toy_hashes (a ∷ b ∷ rest) = (0 ∷ a) ∷ (0 ∷ b) ∷ (1 ∷ 0 ∷ a ++ (0 ∷ b)) ∷ []

abbrev toy_append : Bool → List (List ℕ) → List (List ℕ) → Bool × List (List ℕ)
toy_append true tw new = (false, tw)
toy_append false tw new = (true, tw ++ new)

abbrev toy : Parts
toy = record {
  Tiles = List (List ℕ);
  tile_size = length;
  tile_append = toy_append;
  root_hash = λ tw. some (length tw ∷ []);
  snapshot_hashes = toy_hashes;
  marshal_signature_input = λ st. some (st.start ∷ st.end ∷ st.hash);
  build_signed_note = λ size root sig. some (size ∷ sig.signature);
  stored_hash_index = toy_index;
  sha256 = λ x. x;
}

abbrev one_cosigner : Config
one_cosigner = record { log_id = 7 ∷ []; cosigner_id = 8 ∷ []; wait_for_cosigners = 1 }

abbrev tick : Flush
tick = record { now = 100; sign = λ msg. some (99 ∷ msg); tiles_fail = false; put_fails = false }

abbrev empty_log : Log toy one_cosigner
empty_log = record { tw = []; pool = []; dedup = []; committed = none }

abbrev queued : Log toy one_cosigner
queued = record {
  tw = [];
  pool = record { entry = 5 ∷ []; idem_key = 1 ∷ [] } ∷ [];
  dedup = (1 ∷ [], 0) ∷ [];
  committed = none;
}

queued_run : append toy one_cosigner (5 ∷ []) (1 ∷ []) empty_log ≡ (0, queued)
unfolding append lookup
queued_run = refl

abbrev minted : SignedSubtree
minted = record {
  subtree = record { log_id = 7 ∷ []; start = 0; end = 1; hash = 0 ∷ 5 ∷ [] };
  sigs = record { cosigner_id = 8 ∷ []; signature = 99 ∷ 0 ∷ 1 ∷ 0 ∷ 5 ∷ [] } ∷ [];
  committed_at = 100;
}

abbrev checkpoint : CommittedCheckpoint
checkpoint = record {
  size = 1;
  root = 1 ∷ [];
  subtrees = minted ∷ [];
  signed_note = 1 ∷ 99 ∷ 0 ∷ 1 ∷ 1 ∷ [];
  hashes_at_ckp = (0 ∷ 5 ∷ []) ∷ [];
}

abbrev published : Log toy one_cosigner
published = record {
  tw = (5 ∷ []) ∷ [];
  pool = [];
  dedup = (1 ∷ [], 0) ∷ [];
  committed = some checkpoint;
}

published_run : flush toy one_cosigner tick queued ≡ (flushed (minted ∷ []), published)
unfolding flush commit append_pool up_to_date publish mint mint_range sign_subtree lift carried
    find_subtrees subtree_hash_from_hr read_hashes first_hash bits_len bits_len_fuel
    largest_power_of_two_lt len64
published_run = refl

abbrev issued : Issued
issued = record {
  index = 0;
  subtree = minted.subtree;
  inclusion_proof = [];
  signatures = minted.sigs;
}

issued_run : wait_step toy one_cosigner published 0 ≡ ok (some issued)
unfolding wait_step build_issued build_from find_covering subtree_inclusion_proof lift
    walk_inclusion_proof walk_loop is_valid bit_ceil
issued_run = refl

-- One stored hash for each record
abbrev flat : Tlog
flat = record {
  stored_hashes = λ n e hr. some ((n ∷ e) ∷ []);
  stored_hash_count = λ n. n;
  tree_hash = λ n hashes. some (n ∷ []);
}

abbrev on_writer : Parts
on_writer =
    writing flat toy.marshal_signature_input toy.build_signed_note toy.stored_hash_index toy.sha256

abbrev start : Log on_writer one_cosigner
start = record { tw = record { size = 0; hashes = [] }; pool = []; dedup = []; committed = none }

abbrev after_append : Log on_writer one_cosigner
after_append = (append on_writer one_cosigner (5 ∷ []) (1 ∷ []) start).1

-- A flush whose writes fail, and one whose writes do not
abbrev after_failure : Log on_writer one_cosigner
after_failure = (flush on_writer one_cosigner (record tick { tiles_fail = true }) after_append).1

abbrev after_flush : Log on_writer one_cosigner
after_flush = (flush on_writer one_cosigner tick after_failure).1

new : lookup (1 ∷ []) start.dedup ≡ none
unfolding lookup
new = refl

-- The entry is in the tree there, once.
after_flush-hashes : after_flush.tw.hashes ≡ (0 ∷ 5 ∷ []) ∷ []
unfolding flush append lookup Writer.append Writer.root_hash find_subtrees subtree_hash_from_hr
    read_hashes bits_len bits_len_fuel first_hash
after_flush-hashes = refl

abbrev mirror_signature : MtcSignature
mirror_signature = record { cosigner_id = 6 ∷ []; signature = 4 ∷ [] }

abbrev countersigned : Log toy one_cosigner
countersigned =
    collect_mirror_sigs toy one_cosigner minted.subtree (mirror_signature ∷ [])
      (flush toy one_cosigner tick queued).1

queued-AllSigned : AllSigned toy one_cosigner queued
queued-AllSigned c e = absurd (ground arith)

success : (flush toy one_cosigner tick queued).0 ≡ flushed (minted ∷ [])
success = ap (λ r. r.0) published_run

grown : 0 < length (flush toy one_cosigner tick queued).1.tw
grown = rw (ap (λ r. length r.1.tw) published_run) (omega arith)

fits : length (flush toy one_cosigner tick queued).1.tw < 2 ^ 64
fits = rw (ap (λ r. length r.1.tw) published_run) (omega arith)

flush_covers-retention_example :
    (c : CommittedCheckpoint) × (s : SignedSubtree) × (countersigned.committed ≡ some c)
    × (find_covering 0 c.subtrees ≡ some s)
    × (s.subtree.start ≤ 0)
    × (0 < s.subtree.end)
    × (1 ≤ length s.sigs)
flush_covers-retention_example =
    flush_covers-retention toy one_cosigner tick queued countersigned (minted ∷ []) 0
      queued-AllSigned success (omega arith) grown fits
      (collecting minted.subtree (mirror_signature ∷ []) ((flush toy one_cosigner tick queued).1)
        ((flush toy one_cosigner tick queued).1) here)

wait_step-Issued_example :
    (issued.index ≡ 0)
    × (issued.subtree.start ≤ 0)
    × (0 < issued.subtree.end)
    × (generate_inclusion_proof toy.sha256 toy_index (read_hashes checkpoint.hashes_at_ckp) 0 1 0
        ≡ ok issued.inclusion_proof)
    × (1 ≤ length issued.signatures)
wait_step-Issued_example =
    wait_step-Issued toy one_cosigner published checkpoint 0 issued refl issued_run (omega arith)

walk_inclusion_proof-generate_example :
    (walk_inclusion_proof toy.sha256 toy_index
        (read_hashes ((0 ∷ 5 ∷ []) ∷ (0 ∷ 6 ∷ []) ∷ (1 ∷ 0 ∷ 5 ∷ 0 ∷ 6 ∷ []) ∷ []))
        0
        2
        1
      ≡ generate_inclusion_proof toy.sha256 toy_index
          (read_hashes ((0 ∷ 5 ∷ []) ∷ (0 ∷ 6 ∷ []) ∷ (1 ∷ 0 ∷ 5 ∷ 0 ∷ 6 ∷ []) ∷ []))
          0
          2
          1)
    × (subtree_hash_from_hr toy.sha256 toy_index
          (read_hashes ((0 ∷ 5 ∷ []) ∷ (0 ∷ 6 ∷ []) ∷ (1 ∷ 0 ∷ 5 ∷ 0 ∷ 6 ∷ []) ∷ []))
          65
          0
          2
        ≡ subtree_hash toy.sha256 toy_index
            (read_hashes ((0 ∷ 5 ∷ []) ∷ (0 ∷ 6 ∷ []) ∷ (1 ∷ 0 ∷ 5 ∷ 0 ∷ 6 ∷ []) ∷ []))
            0
            2)
walk_inclusion_proof-generate_example =
    walk_inclusion_proof-generate toy.sha256 toy_index
      (read_hashes ((0 ∷ 5 ∷ []) ∷ (0 ∷ 6 ∷ []) ∷ (1 ∷ 0 ∷ 5 ∷ 0 ∷ 6 ∷ []) ∷ [])) 0 2 1
      (omega arith) (omega arith)
