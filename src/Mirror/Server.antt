-- ===== src/Mirror/Server.antt =====
-- mirror/server.go: the answer to a request to sign a subtree. The
-- follower is read twice, under two holds of its mutex, and may have been advanced in between: it
-- is given as it is at each of them. SHA-256, tlog.StoredHashIndex, the verification and the making
-- of an ML-DSA signature and base64 are parameters.
pub mod Signed
pub mod Answers
use cactus.Prelude.{
  ℕ, zero, suc, ◌+◌, Bool, true, false, not, Option, none, some, List, [], ◌∷◌, ◌++◌, length, take,
  drop, ltb, leb, ◌==◌, ◌&&◌, ◌||◌, if◌then◌else◌, Result, ok, err, panic, stuck, guard, or_err,
  lift_err, ◌>>=◌, ◌>>◌,
}
use cactus.Prelude.Dict.{str_eq}
use cactus.Tlogx.{Hash, hash_eq}
use cactus.Tlogx as Tlogx
use cactus.Tlogx.Inclusion.{subtree_hash}
use cactus.Tlogx.Consistency.{verify_consistency_proof}
use cactus.Log.{MtcSubtree}
use cactus.Log.Proof.{read_hashes}
use cactus.Cert.Wire.{Cryptobyte}
use cactus.Cert.Signing.{
  Algorithm, oid_name, marshal_signature_input, cosignature_key_id, marshal_timestamped_signature,
  parse_timestamped_signature,
}
use cactus.Cert.Signing as Signing
use cactus.Mirror.Follower.{Follower}
use cactus.Mirror.Notes.{NoteSignature}
use cactus.Mirror.Requests.{ParsedRequest, parse_request}
use cactus.Mirror.Requests as Requests

pub record CosignerKey : Type 0 where
  pub id : List ℕ
  pub algorithm : Algorithm
  pub public_key : List ℕ

-- `upstream_ca_key` with a key is RequireCASignatureOnSubtree, for which NewServer wants a key.
pub record ServerConfig : Type 0 where
  pub log_id : List ℕ
  pub cosigner_id : List ℕ
  pub algorithm : Algorithm
  pub public_key : List ℕ
  pub upstream_ca_key : Option CosignerKey

pub data CaError : Type 0 where
  nonzero_timestamp no_cosignature not_verified : CaError
  signing : Signing.Error → CaError

-- The answers other than a signature; a conflict carries the follower's own checkpoint.
pub data Refusal : Type 0 where
  bad_range unknown_origin subtree_hash_mismatch sign_failed method_not_allowed bad_body : Refusal
  parse_error : Requests.Error → Refusal
  ca_sig_error : CaError → Refusal
  checkpoint_conflict : List ℕ → Refusal
  consistency_error : Tlogx.Error → Refusal
  beyond_local_size : Refusal
  subtree_hash_error : Tlogx.Error → Refusal
  signing : Signing.Error → Refusal

unfoldable pub status : Refusal → ℕ
status bad_range = 400
status unknown_origin = 404
status subtree_hash_mismatch = 400
status sign_failed = 500
status method_not_allowed = 405
status bad_body = 400
status (parse_error e) = 400
status (ca_sig_error e) = 403
status (checkpoint_conflict note) = 409
status (consistency_error e) = 422
status beyond_local_size = 500
status (subtree_hash_error e) = 500
status (signing e) = 500

abbrev pub asked : ServerConfig → ParsedRequest → MtcSubtree
asked cfg p = record { log_id = cfg.log_id; start = p.start; end = p.end; hash = p.subtree_hash }

pub record Parts : Type 0 where
  pub bytes : Cryptobyte
  pub sha256 : List ℕ → List ℕ
  pub stored_hash_index : ℕ → ℕ → ℕ
  pub verify : CosignerKey → List ℕ → List ℕ → Bool
  pub sign : List ℕ → Option (List ℕ)
  pub encode : List ℕ → List ℕ
  pub decode : List ℕ → Option (List ℕ)

module _ (parts : Parts) where
  -- Follower.SubtreeHash
  unfoldable pub local_subtree_hash : Follower → ℕ → ℕ → Result Refusal Hash
  unfolding read_hashes
  local_subtree_hash f start end = do
    guard (leb end f.size) beyond_local_size
    lift_err subtree_hash_error
        (subtree_hash parts.sha256 parts.stored_hash_index (read_hashes f.hashes) start end)

  -- The loop over the cosignatures: the first with the name and the key ID
  unfoldable pub find_cosignature : List ℕ → List ℕ → List NoteSignature → Result CaError (List ℕ)
  unfolding str_eq parse_timestamped_signature
  find_cosignature want_key want_id [] = err no_cosignature
  find_cosignature want_key want_id (c ∷ cs) =
      let rest = find_cosignature want_key want_id cs in
      let found = do
        (ts, sig) ← lift_err signing (parse_timestamped_signature (drop 4 c.sig_bytes))
        guard (ts == 0) nonzero_timestamp
        ok sig
      in if not (str_eq c.key_name want_key)
        then rest
        else if ltb (length c.sig_bytes) 4 || not (str_eq (take 4 c.sig_bytes) want_id)
        then rest
        else found

  unfoldable pub verify_ca_on_subtree :
      ServerConfig → CosignerKey → ParsedRequest → Result CaError (Unit {0})
  unfolding oid_name cosignature_key_id find_cosignature marshal_signature_input
  verify_ca_on_subtree cfg key p = do
    want_id ←
        lift_err signing
          (cosignature_key_id parts.sha256 (oid_name key.id) key.algorithm key.public_key)
    raw_sig ← find_cosignature (oid_name key.id) want_id p.subtree_cosigs
    msg ← lift_err signing (marshal_signature_input parts.bytes key.id (asked cfg p))
    guard (parts.verify key raw_sig msg) not_verified

  unfoldable pub ca_gate :
      ServerConfig → Option CosignerKey → ParsedRequest → Result CaError (Unit {0})
  unfolding verify_ca_on_subtree
  ca_gate cfg none p = ok tt
  ca_gate cfg (some key) p = verify_ca_on_subtree cfg key p

  -- Steps 7 and 8: an em-dash, the key's name, and the base64 of the key ID and of the timestamped
  -- signature
  unfoldable pub signature_line : ServerConfig → MtcSubtree → Result Refusal (List ℕ)
  unfolding oid_name marshal_signature_input cosignature_key_id marshal_timestamped_signature
  signature_line cfg subtree = do
    msg ← lift_err signing (marshal_signature_input parts.bytes cfg.cosigner_id subtree)
    sig ← or_err (parts.sign msg) sign_failed
    key_id ←
        lift_err signing
          (cosignature_key_id parts.sha256 (oid_name cfg.cosigner_id) cfg.algorithm cfg.public_key)
    ok (
        0xe2
        ∷ 0x80
        ∷ 0x94
        ∷ b' '
        ∷ (oid_name cfg.cosigner_id
            ++ (b' '
                ∷ (parts.encode (key_id ++ marshal_timestamped_signature 0 sig) ++ (10 ∷ [])))))

  -- `now` is the follower at Current, `later` at SubtreeHash.
  unfoldable pub handle :
      ServerConfig → Follower → Follower → ParsedRequest → Result Refusal (List ℕ)
  unfolding oid_name str_eq ca_gate hash_eq verify_consistency_proof local_subtree_hash
      signature_line
  handle cfg now later p = do
    guard (ltb p.start p.end && leb p.end p.checkpoint_size) bad_range
    guard (str_eq p.checkpoint_origin (oid_name cfg.log_id)) unknown_origin
    gate ← lift_err ca_sig_error (ca_gate cfg cfg.upstream_ca_key p)
    guard (p.checkpoint_size == now.size && hash_eq p.checkpoint_root now.root)
        (checkpoint_conflict now.signed_note)
    proved ← lift_err consistency_error (
        verify_consistency_proof parts.sha256 p.start p.end now.size p.proof p.subtree_hash
          now.root)
    local ← local_subtree_hash later p.start p.end
    guard (hash_eq local p.subtree_hash) subtree_hash_mismatch
    signature_line cfg (asked cfg p)

  -- `post` tells whether the method is POST; http.MaxBytesReader refuses what is over 16 KiB.
  unfoldable pub answer :
      ServerConfig → Follower → Follower → Bool → List ℕ → Result Refusal (List ℕ)
  unfolding parse_request handle
  answer cfg now later post body = do
    guard post method_not_allowed
    guard (leb (length body) 16384) bad_body
    p ← lift_err parse_error (parse_request parts.decode body)
    handle cfg now later p
