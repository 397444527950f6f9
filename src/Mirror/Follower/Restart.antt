-- ===== src/Mirror/Follower/Restart.antt =====
-- A follower that starts from what is on disk (mirror/follower.go: NewFollower and Run).
use cactus.Prelude.{
  ◌≡◌, ◌⊎◌, inl, inr, refl, true, false, List, [], ◌∷◌, length, ◌==◌, Bool-cases, ok, guard, or_err,
  lift_err, ok_of_bind, arith,
}
use cactus.Cert.Signing.{oid_name}
use cactus.Mirror.Checkpoint.{parse_signed_note}
use cactus.Mirror.Follower.{
  Follower, Upstream, Parts, Answers, Got, Disk, missing, failed, found, octets_of, fresh,
  bad_size_file, no_stored_checkpoint, bad_checkpoint, load_checkpoint, load_size, load_from_disk,
  poll, polls,
}
use cactus.Mirror.Follower.Growth.{Rooted, polls-Grown}
use cactus.Mirror.Follower.Attested.{Attested, polls-Attested}

module _ (parts : Parts) (up : Upstream) where
  poll-halted : (a : Answers) (f : Follower) → f.halted ≡ true → poll parts up a f ≡ f
  unfolding poll
  poll-halted a f h = rw (h) refl

  polls-halted :
      (answers : List Answers) (f : Follower) → f.halted ≡ true → polls parts up answers f ≡ f
  unfolding polls
  polls-halted [] f h = refl
  polls-halted (a ∷ rest) f h = rw (poll-halted a f h) (polls-halted rest f h)

  load_checkpoint-empty :
      (disk : Disk) (f : Follower) → load_checkpoint parts up disk ≡ ok f → f.size ≡ 0
  unfolding load_checkpoint
  load_checkpoint-empty disk f h =
      let (octets, e1, h1) =
        ok_of_bind (or_err (octets_of disk.checkpoint_file) no_stored_checkpoint) _ f h in
      let (cp, e2, h2) =
        ok_of_bind
          (lift_err bad_checkpoint
            (parse_signed_note parts.decode octets (oid_name up.ca_cosigner_id)))
          _ f h1 in
      let made : record (fresh false) { root = cp.root; signed_note = octets } ≡ f = ground arith in
      rw (← made) refl

  load_size-empty :
      (disk : Disk) (got : Got) (f : Follower) → load_size parts up disk got ≡ ok f → f.size ≡ 0
  unfolding load_size
  load_size-empty disk missing f h = let made : fresh false ≡ f = ground arith in rw (← made) refl
  load_size-empty disk failed f h = absurd (ground arith)
  load_size-empty disk (found octets) f h =
      let (t, e, h1) = ok_of_bind (guard (length octets == 8) bad_size_file) _ f h in
      load_checkpoint-empty disk f h1

  load_from_disk-start :
      (disk : Disk) (f : Follower)
      → load_from_disk parts up disk ≡ ok f
      → (f.size ≡ 0) × ((f.halted ≡ true) ⊎ (disk.halted_file ≡ false))
  unfolding load_from_disk
  load_from_disk-start disk f h = elim (Bool-cases disk.halted_file) [
    | inl stopped ↦
        let h' : ok (fresh true) ≡ ok f = rw (load_from_disk, stopped) at h in
        let made : fresh true ≡ f = ground arith in rw (← made) (refl, inl refl)
    | inr runs ↦ (load_size-empty disk disk.size_file f (rw (load_from_disk, runs) at h), inr runs)
  ]

  -- A follower that is loaded from any files starts with no entries. Whatever the upstream answers
  -- to its polls, it is then empty or the CA's key verifies a signature on its size and root, and is
  -- empty or has the tree hash of its stored hashes as its root; with the halt marker on disk, it
  -- never changes.
  pub polls-load_from_disk :
      (disk : Disk) (answers : List Answers) (f : Follower)
      → load_from_disk parts up disk ≡ ok f
      → (f.size ≡ 0)
        × Attested parts up (polls parts up answers f)
        × Rooted parts up (polls parts up answers f)
        × ((polls parts up answers f ≡ f) ⊎ (disk.halted_file ≡ false))
  polls-load_from_disk disk answers f h =
      let (empty, mark) = load_from_disk-start disk f h in
      (
        empty,
        polls-Attested parts up answers f (inl empty),
        (polls-Grown parts up answers f (inl empty)).1,
        elim mark [ inl stopped ↦ inl (polls-halted answers f stopped) | inr runs ↦ inr runs ],
      )
