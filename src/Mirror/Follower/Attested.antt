-- ===== src/Mirror/Follower/Attested.antt =====
-- The CA has signed what the follower shows (mirror/follower.go).
use cactus.Prelude.{
  ℕ, ◌≡◌, ◌⊎◌, inl, inr, refl, true, false, Option, List, [], ◌∷◌, ◌++◌, ltb, ◌==◌, Bool-cases,
  Result, ok, err, panic, stuck, guard, or_err, lift_err, ok_of_bind, ok_of_guard, ok_of_lift_err,
  if◌then◌else◌, arith,
}
use cactus.Tlogx.{hash_eq}
use cactus.Log.{MtcSubtree}
use cactus.Cert.Signing.{oid_name, marshal_signature_input}
use cactus.Mirror.Checkpoint.{Checkpoint, parse_signed_note}
use cactus.Mirror.Follower.{
  Follower, Upstream, Parts, Answers, Error, bad_checkpoint, no_answer, not_verified, signing,
  root_mismatch, no_tree_hash, replay_new_entries, verified_checkpoint, extend, compare_sizes,
  advance, settle, poll, polls,
}

module _ (parts : Parts) (up : Upstream) where
  abbrev whole_tree : (size : ℕ) (root : List ℕ) → MtcSubtree
  whole_tree size root = record { log_id = up.log_id; start = 0; end = size; hash = root }

  pub record SignedByCa (size : ℕ) (root : List ℕ) : Type 0 where
    pub signature : List ℕ
    pub message : List ℕ
    pub input :
        marshal_signature_input parts.bytes up.ca_cosigner_id (whole_tree size root) ≡ ok message
    pub verified : parts.verify up.ca_cosigner_key signature message ≡ true

  abbrev pub Attested : Follower → Type 0
  Attested f = (f.size ≡ 0) ⊎ SignedByCa f.size f.root

  verified_checkpoint-SignedByCa :
      (answer : Option (List ℕ)) (octets : List ℕ) (cp : Checkpoint)
      → verified_checkpoint parts up answer ≡ ok (octets, cp)
      → SignedByCa cp.size cp.root
  unfolding verified_checkpoint
  verified_checkpoint-SignedByCa answer octets cp h =
      let (o, e1, h1) = ok_of_bind (or_err answer no_answer) _ (octets, cp) h in
      let (c, e2, h2) =
        ok_of_bind
          (lift_err bad_checkpoint (parse_signed_note parts.decode o (oid_name up.ca_cosigner_id)))
          _ (octets, cp) h1 in
      let (msg, e3, h3) =
        ok_of_bind
          (lift_err signing
            (marshal_signature_input parts.bytes up.ca_cosigner_id (whole_tree c.size c.root)))
          _ (octets, cp) h2 in
      let (t, e4, h4) =
        ok_of_bind (guard (parts.verify up.ca_cosigner_key c.signature msg) not_verified) _
          (octets, cp) h3 in
      let same : c ≡ cp = ground arith in
      rw (← same) (record {
        signature = c.signature;
        message = msg;
        input = ok_of_lift_err signing _ msg e3;
        verified = ok_of_guard _ not_verified t e4;
      })

  extend-Attested :
      (answers : Answers) (f f' : Follower) (octets : List ℕ) (cp : Checkpoint)
      → SignedByCa cp.size cp.root
      → extend parts answers f (octets, cp) ≡ ok f'
      → Attested f'
  unfolding extend
  extend-Attested answers f f' octets cp signed h =
      let (new, e1, h1) =
        ok_of_bind (replay_new_entries parts answers.data_tile f.size cp.size f.hashes) _ f' h in
      let (root, e2, h2) =
        ok_of_bind (or_err (parts.tree_hash cp.size (f.hashes ++ new)) no_tree_hash) _ f' h1 in
      let (t, e3, h3) = ok_of_bind (guard (hash_eq root cp.root) root_mismatch) _ f' h2 in
      let made : record {
        size = cp.size;
        root = cp.root;
        signed_note = octets;
        hashes = f.hashes ++ new;
        halted = f.halted;
      }
          ≡ f' =
        ground arith in
      rw (← made) (inr signed)

  compare_sizes-Attested :
      (answers : Answers) (f f' : Follower) (octets : List ℕ) (cp : Checkpoint)
      → SignedByCa cp.size cp.root
      → Attested f
      → compare_sizes parts answers f (octets, cp) ≡ ok f'
      → Attested f'
  unfolding compare_sizes
  compare_sizes-Attested answers f f' octets cp signed before h =
      elim (Bool-cases (cp.size == f.size)) [
        | inl equal ↦
            let h' : ok (record f { signed_note = octets }) ≡ ok f' =
              rw (compare_sizes, equal) at h in
            let made : record f { signed_note = octets } ≡ f' = ground arith in rw (← made) before
        | inr differ ↦ elim (Bool-cases (ltb cp.size f.size)) [
          | inl smaller ↦ absurd (ground arith)
          | inr fine ↦
              extend-Attested answers f f' octets cp signed (rw (compare_sizes, differ, fine) at h)
        ]
      ]

  settle-Attested :
      (answers : Answers) (f : Follower) (r : Result Error Follower)
      → Attested f
      → advance parts up answers f ≡ r
      → Attested (settle parts f r)
  unfolding settle advance
  settle-Attested answers f (ok f') before h =
      let ((octets, cp), c, h1) =
        ok_of_bind (verified_checkpoint parts up answers.checkpoint) _ f' h in
      compare_sizes-Attested answers f f' octets cp
        (verified_checkpoint-SignedByCa answers.checkpoint octets cp c) before h1
  settle-Attested answers f (err e) before h = before
  settle-Attested answers f panic before h = before
  settle-Attested answers f stuck before h = before

  poll-Attested :
      (answers : Answers) (f : Follower) → Attested f → Attested (poll parts up answers f)
  unfolding poll
  poll-Attested answers f before =
      elim f.halted
        as (λ stopped.
          Attested (if stopped then f else settle parts f (advance parts up answers f))) [
            | true ↦ before
            | false ↦ settle-Attested answers f (advance parts up answers f) before refl
          ]

  -- Whatever the upstream answers to any number of polls, the follower is empty or the CA's key
  -- verifies a signature on the range from zero to the follower's size with its root, where that
  -- was so before.
  pub polls-Attested :
      (answers : List Answers) (f : Follower) → Attested f → Attested (polls parts up answers f)
  unfolding polls
  polls-Attested [] f before = before
  polls-Attested (a ∷ rest) f before =
      polls-Attested rest (poll parts up a f) (poll-Attested a f before)
