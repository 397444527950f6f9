-- ===== src/Mirror/Follower/Growth.antt =====
-- The follower only grows, and what it holds has the root that it shows (mirror/follower.go).
use cactus.Prelude.{
  ℕ, ◌≤◌, ◌≡◌, ◌⊎◌, inl, inr, refl, sym, true, false, some, List, [], ◌∷◌, ◌++◌, append-nil,
  append_assoc, ltb, ◌==◌, Bool-cases, Result, ok, err, panic, stuck, guard, or_err, ok_of_bind,
  ok_of_guard, some_of_or_err, if◌then◌else◌, arith, ap, ◌∙◌,
}
use cactus.Tlogx.{Hash, hash_eq, hash_eq_iff}
use cactus.Mirror.Checkpoint.{Checkpoint}
use cactus.Mirror.Follower.{
  Follower, Upstream, Parts, Answers, Error, root_mismatch, no_tree_hash, replay_new_entries,
  verified_checkpoint, extend, compare_sizes, advance, settle, poll, polls,
}

module _ (parts : Parts) (up : Upstream) where
  -- A follower has no entries, or the tree hash of its stored hashes as its root.
  abbrev pub Rooted : Follower → Type 0
  Rooted f = (f.size ≡ 0) ⊎ (parts.tree_hash f.size f.hashes ≡ some f.root)

  -- What comes later has the same stored hashes at its front.
  pub record Grown (f f' : Follower) : Type 0 where
    pub larger : f.size ≤ f'.size
    pub added : List Hash
    pub extends : f.hashes ++ added ≡ f'.hashes

  Grown-same : (f f' : Follower) → f.size ≡ f'.size → f.hashes ≡ f'.hashes → Grown f f'
  Grown-same f f' size same = record {
    larger = ground arith;
    added = [];
    extends = append-nil f.hashes ∙ same;
  }

  Grown-trans : (f g h : Follower) → Grown f g → Grown g h → Grown f h
  Grown-trans f g h a b = record {
    larger = omega (arith, a.larger, b.larger);
    added = a.added ++ b.added;
    extends =
        sym (append_assoc f.hashes a.added b.added) ∙ ap (λ l. l ++ b.added) a.extends ∙ b.extends;
  }

  extend-Grown :
      (answers : Answers) (f f' : Follower) (octets : List ℕ) (cp : Checkpoint)
      → f.size ≤ cp.size
      → extend parts answers f (octets, cp) ≡ ok f'
      → Grown f f' × Rooted f'
  unfolding extend
  extend-Grown answers f f' octets cp le h =
      let (new, replayed, h1) =
        ok_of_bind (replay_new_entries parts answers.data_tile f.size cp.size f.hashes) _ f' h in
      let (root, hashed, h2) =
        ok_of_bind (or_err (parts.tree_hash cp.size (f.hashes ++ new)) no_tree_hash) _ f' h1 in
      let (t, equal, h3) = ok_of_bind (guard (hash_eq root cp.root) root_mismatch) _ f' h2 in
      let same : root ≡ cp.root =
        (hash_eq_iff root cp.root).0 (ok_of_guard _ root_mismatch t equal) in
      let found = some_of_or_err _ no_tree_hash root hashed in
      let made : record {
        size = cp.size;
        root = cp.root;
        signed_note = octets;
        hashes = f.hashes ++ new;
        halted = f.halted;
      }
          ≡ f' =
        ground arith in
      rw (← made) (record { larger = le; added = new; extends = refl }, inr (found ∙ ap some same))

  compare_sizes-Grown :
      (answers : Answers) (f f' : Follower) (checked : List ℕ × Checkpoint)
      → Rooted f
      → compare_sizes parts answers f checked ≡ ok f'
      → Grown f f' × Rooted f'
  unfolding compare_sizes
  compare_sizes-Grown answers f f' (octets, cp) rooted h = elim (Bool-cases (cp.size == f.size)) [
    | inl equal ↦
        let h' : ok (record f { signed_note = octets }) ≡ ok f' = rw (compare_sizes, equal) at h in
        let made : record f { signed_note = octets } ≡ f' = ground arith in
        rw (← made) (Grown-same f (record f { signed_note = octets }) refl refl, rooted)
    | inr differ ↦ elim (Bool-cases (ltb cp.size f.size)) [
      | inl smaller ↦ absurd (ground arith)
      | inr fine ↦
          extend-Grown answers f f' octets cp (ground arith) (rw (compare_sizes, differ, fine) at h)
    ]
  ]

  settle-Grown :
      (answers : Answers) (f : Follower) (r : Result Error Follower)
      → Rooted f
      → advance parts up answers f ≡ r
      → Grown f (settle parts f r) × Rooted (settle parts f r)
  unfolding settle advance
  settle-Grown answers f (ok f') rooted h =
      let (checked, c, h1) = ok_of_bind (verified_checkpoint parts up answers.checkpoint) _ f' h in
      compare_sizes-Grown answers f f' checked rooted h1
  settle-Grown answers f (err e) rooted h = (Grown-same f _ refl refl, rooted)
  settle-Grown answers f panic rooted h = (Grown-same f f refl refl, rooted)
  settle-Grown answers f stuck rooted h = (Grown-same f f refl refl, rooted)

  poll-Grown :
      (answers : Answers) (f : Follower)
      → Rooted f
      → Grown f (poll parts up answers f) × Rooted (poll parts up answers f)
  unfolding poll
  poll-Grown answers f rooted =
      let next = settle parts f (advance parts up answers f) in
      elim f.halted
        as (λ stopped.
          Grown f (if stopped then f else next) × Rooted (if stopped then f else next)) [
            | true ↦ (Grown-same f f refl refl, rooted)
            | false ↦ settle-Grown answers f (advance parts up answers f) rooted refl
          ]

  -- Whatever the upstream answers to any number of polls, the follower's size does not shrink and
  -- its stored hashes keep what was there in front. Where it was empty before or had the tree hash
  -- of its stored hashes as its root, it is empty or has the tree hash as its root afterwards.
  pub polls-Grown :
      (answers : List Answers) (f : Follower)
      → Rooted f
      → Grown f (polls parts up answers f) × Rooted (polls parts up answers f)
  unfolding polls
  polls-Grown [] f rooted = (Grown-same f f refl refl, rooted)
  polls-Grown (a ∷ rest) f rooted =
      let (first, rooted') = poll-Grown a f rooted in
      let (later, last) = polls-Grown rest (poll parts up a f) rooted' in
      (
        Grown-trans f (poll parts up a f) (polls parts up rest (poll parts up a f)) first later,
        last,
      )
