-- ===== src/Mirror/Server/Signed.antt =====
-- What the witness has checked of a subtree that it signs (mirror/server.go).
use cactus.Prelude.{
  ℕ, ◌≤◌, ◌<◌, ◌≡◌, ◌⊎◌, ◌∙◌, ap, refl, Bool, true, false, List, All, ltb, leb, ◌==◌, ◌&&◌, ok,
  guard, lift_err, ok_of_bind, ok_of_guard, ok_of_lift_err, arith,
}
use cactus.Prelude.Dict.{str_eq, str_eq_iff}
use cactus.Tlogx.{Hash, hash_eq, hash_eq_iff, IsHash, Collision}
use cactus.Tlogx.Inclusion.{subtree_hash}
use cactus.Tlogx.Consistency.{verify_consistency_proof}
use cactus.Tlogx.Consistency.Binding.{consistency-binding}
use cactus.Log.Proof.{read_hashes}
use cactus.Cert.Signing.{oid_name}
use cactus.Mirror.Follower.{Follower}
use cactus.Mirror.Requests.{ParsedRequest}
use cactus.Mirror.Server.{
  ServerConfig, Parts, bad_range, unknown_origin, subtree_hash_mismatch, ca_sig_error,
  checkpoint_conflict, consistency_error, beyond_local_size, subtree_hash_error, local_subtree_hash,
  asked, ca_gate, signature_line, handle,
}

and_both : (a b : Bool) → (a && b) ≡ true → (a ≡ true) × (b ≡ true)
and_both true b h = (refl, h)
and_both false b h = absurd (ground arith)

below_of_ltb : (a b : ℕ) → ltb a b ≡ true → a < b
below_of_ltb a b h = ground arith

within_size : (e c n : ℕ) → leb e c ≡ true → (c == n) ≡ true → e ≤ n
within_size e c n h k = ground arith

module _ (parts : Parts) (cfg : ServerConfig) where
  pub record Signed (now later : Follower) (p : ParsedRequest) (line : List ℕ) : Type 0 where
    pub nonempty : p.start < p.end
    pub inside : p.end ≤ now.size
    pub origin : p.checkpoint_origin ≡ oid_name cfg.log_id
    pub gate : ca_gate parts cfg cfg.upstream_ca_key p ≡ ok tt
    pub same_root : p.checkpoint_root ≡ now.root
    pub proved :
        verify_consistency_proof parts.sha256 p.start p.end now.size p.proof p.subtree_hash now.root
        ≡ ok tt
    pub own_hash :
        subtree_hash parts.sha256 parts.stored_hash_index (read_hashes later.hashes) p.start p.end
        ≡ ok p.subtree_hash
    pub made : signature_line parts cfg (asked cfg p) ≡ ok line

  own :
      (f : Follower) (p : ParsedRequest) (h : Hash)
      → local_subtree_hash parts f p.start p.end ≡ ok h
      → subtree_hash parts.sha256 parts.stored_hash_index (read_hashes f.hashes) p.start p.end
        ≡ ok h
  unfolding local_subtree_hash
  own f p h e =
      let (t, inside, e1) = ok_of_bind (guard (leb p.end f.size) beyond_local_size) _ h e in
      ok_of_lift_err subtree_hash_error _ h e1

  -- A line that the witness answers with is the signature of the asked range, not empty and inside
  -- the follower's tree, with the asked hash; this hash is the one that the follower's own hashes
  -- give, the request's proof leads from it to the follower's root, which the request names along
  -- with the log's origin, and the gate of the CA's signature let the request pass.
  pub handle-Signed :
      (now later : Follower) (p : ParsedRequest) (line : List ℕ)
      → handle parts cfg now later p ≡ ok line
      → Signed now later p line
  unfolding handle
  handle-Signed now later p line h =
      let (t1, range, h1) =
        ok_of_bind (guard (ltb p.start p.end && leb p.end p.checkpoint_size) bad_range) _ line h in
      let (t2, origin, h2) =
        ok_of_bind (guard (str_eq p.checkpoint_origin (oid_name cfg.log_id)) unknown_origin) _ line
          h1 in
      let (t3, gate, h3) =
        ok_of_bind (lift_err ca_sig_error (ca_gate parts cfg cfg.upstream_ca_key p)) _ line h2 in
      let (t4, ours, h4) =
        ok_of_bind
          (guard (p.checkpoint_size == now.size && hash_eq p.checkpoint_root now.root)
            (checkpoint_conflict now.signed_note))
          _ line h3 in
      let (t5, proved, h5) =
        ok_of_bind
          (lift_err consistency_error (
            verify_consistency_proof parts.sha256 p.start p.end now.size p.proof p.subtree_hash
              now.root))
          _ line h4 in
      let (local, found, h6) =
        ok_of_bind (local_subtree_hash parts later p.start p.end) _ line h5 in
      let (t7, matches, h7) =
        ok_of_bind (guard (hash_eq local p.subtree_hash) subtree_hash_mismatch) _ line h6 in
      let (below, within) =
        and_both (ltb p.start p.end) (leb p.end p.checkpoint_size)
          (ok_of_guard _ bad_range t1 range) in
      let (sizes, roots) =
        and_both (p.checkpoint_size == now.size) (hash_eq p.checkpoint_root now.root)
          (ok_of_guard _ (checkpoint_conflict now.signed_note) t4 ours) in
      let equal : local ≡ p.subtree_hash =
        (hash_eq_iff local p.subtree_hash).0 (ok_of_guard _ subtree_hash_mismatch t7 matches) in
      record {
        nonempty = below_of_ltb p.start p.end below;
        inside = within_size p.end p.checkpoint_size now.size within sizes;
        origin =
            (str_eq_iff p.checkpoint_origin (oid_name cfg.log_id)).0
              (ok_of_guard _ unknown_origin t2 origin);
        gate = ok_of_lift_err ca_sig_error _ t3 gate;
        same_root = (hash_eq_iff p.checkpoint_root now.root).0 roots;
        proved = ok_of_lift_err consistency_error _ t5 proved;
        own_hash = own later p local found ∙ ap ok equal;
        made = h7;
      }

  -- Two requests for one range that the witness answers with signatures, at whatever moments at
  -- which the follower has one size and one root, have the same subtree hash and the same proof,
  -- or else two inputs with the same hash are at hand. All hashes have 32 bytes.
  pub handle-agree :
      (hash_sized : (x : List ℕ) → IsHash (parts.sha256 x)) (now later now' later' : Follower)
      (p q : ParsedRequest) (line line' : List ℕ)
      → now'.size ≡ now.size
      → now'.root ≡ now.root
      → q.start ≡ p.start
      → q.end ≡ p.end
      → IsHash p.subtree_hash
      → IsHash q.subtree_hash
      → All IsHash p.proof
      → All IsHash q.proof
      → handle parts cfg now later p ≡ ok line
      → handle parts cfg now' later' q ≡ ok line'
      → ((p.subtree_hash ≡ q.subtree_hash) × (p.proof ≡ q.proof)) ⊎ Collision parts.sha256
  handle-agree hash_sized now later now' later' p q line line' size root start end hp hq ps qs h k =
      let first = handle-Signed now later p line h in
      let second = handle-Signed now' later' q line' k in
      consistency-binding parts.sha256 hash_sized p.start p.end now.size p.proof q.proof
        p.subtree_hash q.subtree_hash now.root hp hq ps qs first.proved
        (rw (start, end, size, root) at second.proved)
