-- ===== src/Log/Kept.antt =====
-- A signed covering subtree from the flush that took an entry until subtreeRetention has passed
-- (log/log.go), whatever happens to the log in between.
use cactus.Prelude.{
  ℕ, ◌+◌, ◌≤◌, ◌<◌, ◌^◌, ◌≡◌, ◌≢◌, ◌⊎◌, inl, inr, refl, sym, ap, ◌∙◌, Option, none, some, List, [],
  ◌∷◌, ◌++◌, length, Result, ok, err, panic, stuck, arith, Bool-cases, Option-cases, ltb, ◌>>=◌,
  ◌>>◌, ok_of_bind, All, Any, Any-append_left, Any-append_right, All-append, guard, or_err, not,
}
use cactus.Tlogx.{Hash}
use cactus.Landmark.Lookup.{find_subtrees-Some}
use cactus.Log.{
  Parts, Config, Flush, Log, MtcSubtree, MtcSignature, CommittedCheckpoint, SignedSubtree, flushed,
  lift, mint, mint_range, publish, carried, retained, commit, append_pool, append, flush,
  find_covering, up_to_date, subtree_retention, sign_subtree, collect_mirror_sigs, Error, attach,
  lookup, root_failed, note_failed, persist_failed,
}
use cactus.Log.Coverage.{
  HasSignature, Keeps, mint-Keeps, retained-Keeps, retained-HasSignature, attach-Keeps,
  attach-HasSignature, find_covering-Keeps,
}

-- The end of a flush: the write of the checkpoint, and the result
finish :
    Result Error (Unit {0})
    → (Hash → List ℕ → List SignedSubtree → CommittedCheckpoint)
    → Hash
    → List ℕ
    → List SignedSubtree
    → Result Error (CommittedCheckpoint × List SignedSubtree)
finish kept make root note subs = kept >> ok (make root note subs, subs)

-- What the checkpoint of a flush is made of
publish_round :
    (rooted : Result Error Hash) (signed : Hash → Result Error MtcSignature)
    (noted : Hash → MtcSignature → Result Error (List ℕ))
    (minted : Result Error (List SignedSubtree)) (kept : Result Error (Unit {0}))
    (make : Hash → List ℕ → List SignedSubtree → CommittedCheckpoint) (c : CommittedCheckpoint)
    (subs : List SignedSubtree)
    → (rooted >>= λ root.
        signed root >>= λ sig. noted root sig >>= λ note. minted >>= finish kept make root note)
      ≡ ok (c, subs)
    → (root : Hash) × (note : List ℕ) × (minted ≡ ok subs) × (make root note subs ≡ c)
unfolding finish
publish_round rooted signed noted minted kept make c subs e =
    let (root, _, e1) =
      ok_of_bind rooted
        (λ root.
          signed root >>= λ sig. noted root sig >>= λ note. minted >>= finish kept make root note)
        (c, subs) e in
    let (sig, _, e2) =
      ok_of_bind (signed root)
        (λ sig. noted root sig >>= λ note. minted >>= finish kept make root note) (c, subs) e1 in
    let (note, _, e3) =
      ok_of_bind (noted root sig) (λ note. minted >>= finish kept make root note) (c, subs) e2 in
    let (made, em, e4) = ok_of_bind minted (finish kept make root note) (c, subs) e3 in
    let result : Result Error (CommittedCheckpoint × List SignedSubtree) =
      ok (make root note made, made) in
    let (_, _, e5) = ok_of_bind kept (λ _. result) (c, subs) e4 in
    let same : made ≡ subs = ground arith in
    let built : make root note made ≡ c = ground arith in
    (root, note, rw same at em, rw same at built)

module _ (parts : Parts) (cfg : Config) where
  publish_made :
      (env : Flush) (prev : ℕ) (tw : parts.Tiles) (old : Option CommittedCheckpoint)
      (c : CommittedCheckpoint) (subs : List SignedSubtree)
      → publish parts cfg env prev tw old ≡ ok (c, subs)
      → (mint_range parts cfg env (parts.snapshot_hashes tw) prev (parts.tile_size tw) ≡ ok subs)
        × (c.size ≡ parts.tile_size tw)
        × (c.subtrees ≡ subs ++ carried env.now old)
  unfolding publish finish
  publish_made env prev tw old c subs h =
      let size = parts.tile_size tw in
      let (root, note, minted, made) =
        publish_round (or_err (parts.root_hash tw) root_failed)
          (λ root.
            sign_subtree parts cfg env
              (record { log_id = cfg.log_id; start = 0; end = size; hash = root }))
          (λ root sig. or_err (parts.build_signed_note size root sig) note_failed)
          (mint_range parts cfg env (parts.snapshot_hashes tw) prev size)
          (guard (not env.put_fails) persist_failed)
          (λ root note subs. record {
            size = size;
            root = root;
            subtrees = subs ++ carried env.now old;
            signed_note = note;
            hashes_at_ckp = parts.snapshot_hashes tw;
          })
          c subs h in
      (minted, ap (λ c. c.size) (sym made), ap (λ c. c.subtrees) (sym made))

  -- A flush that made a checkpoint
  record Published (env : Flush) (l : Log parts cfg) : Type 0 where
    checkpoint : CommittedCheckpoint
    subs : List SignedSubtree
    tw : parts.Tiles
    published : publish parts cfg env (parts.tile_size l.tw) tw l.committed ≡ ok (checkpoint, subs)
    outcome : flush parts cfg env l ≡ (
      flushed subs,
      record { tw = tw; pool = []; dedup = l.dedup; committed = some checkpoint },
    )

  -- A flush makes a checkpoint, or has no success to report and leaves the old one.
  flush_cases :
      (env : Flush) (l : Log parts cfg)
      → Published env l
        ⊎ (((flush parts cfg env l).1.committed ≡ l.committed)
            × ((subs : List SignedSubtree) → (flush parts cfg env l).0 ≢ flushed subs))
  unfolding flush commit
  flush_cases env l = elim (Bool-cases (up_to_date parts cfg l)) [
    | inl idle ↦ inr (rw idle (refl, (λ subs e. ground arith)))
    | inr busy ↦ elim (Bool-cases ((append_pool parts cfg env l).0)) [
      | inr lost ↦ inr (rw (busy, lost) (refl, (λ subs e. ground arith)))
      | inl added ↦
          let tw = (append_pool parts cfg env l).1 in
          let run : flush parts cfg env l
              ≡ commit parts cfg l tw
                  (publish parts cfg env (parts.tile_size l.tw) tw l.committed) =
            rw (busy, added) refl in
          go tw run (publish parts cfg env (parts.tile_size l.tw) tw l.committed) refl
    ]
  ]
    where
      go :
          (tw : parts.Tiles)
          → flush parts cfg env l
            ≡ commit parts cfg l tw (publish parts cfg env (parts.tile_size l.tw) tw l.committed)
          → (r : Result Error (CommittedCheckpoint × List SignedSubtree))
          → publish parts cfg env (parts.tile_size l.tw) tw l.committed ≡ r
          → Published env l
            ⊎ (((flush parts cfg env l).1.committed ≡ l.committed)
                × ((subs : List SignedSubtree) → (flush parts cfg env l).0 ≢ flushed subs))
      go tw run (ok (c, subs)) e = inl (record {
        checkpoint = c;
        subs = subs;
        tw = tw;
        published = e;
        outcome = run ∙ ap (commit parts cfg l tw) e;
      })
      go tw run (err x) e =
          inr (rw (run ∙ ap (commit parts cfg l tw) e) (refl, (λ subs k. ground arith)))
      go tw run panic e =
          inr (rw (run ∙ ap (commit parts cfg l tw) e) (refl, (λ subs k. ground arith)))
      go tw run stuck e =
          inr (rw (run ∙ ap (commit parts cfg l tw) e) (refl, (λ subs k. ground arith)))

  -- Every subtree of the checkpoint has a signature.
  abbrev pub AllSigned : Log parts cfg → Type 0
  AllSigned l = (c : CommittedCheckpoint) → l.committed ≡ some c → All HasSignature c.subtrees

  -- The checkpoint has a subtree that holds the index and is kept until the deadline.
  abbrev pub Holds : ℕ → ℕ → Log parts cfg → Type 0
  Holds index deadline l =
      (c : CommittedCheckpoint) × (l.committed ≡ some c)
      × All HasSignature c.subtrees
      × Any (Keeps index deadline) c.subtrees

  -- Steps, of which the flushes start before the deadline and leave a size of 64 bits
  pub data Before (deadline : ℕ) : Log parts cfg → Log parts cfg → Type 0 where
    here : {l : Log parts cfg} → Before deadline l l
    appending :
        (entry key : List ℕ) (l m : Log parts cfg)
        → Before deadline l m
        → Before deadline l ((append parts cfg entry key m).1)
    flushing :
        (env : Flush) (l m : Log parts cfg)
        → Before deadline l m
        → env.now < deadline
        → parts.tile_size ((flush parts cfg env m).1.tw) < 2 ^ 64
        → Before deadline l ((flush parts cfg env m).1)
    collecting :
        (st : MtcSubtree) (sigs : List MtcSignature) (l m : Log parts cfg)
        → Before deadline l m
        → Before deadline l (collect_mirror_sigs parts cfg st sigs m)

  mint_range-Keeps :
      (env : Flush) (hashes : List Hash) (prev size : ℕ) (subs : List SignedSubtree)
      → mint_range parts cfg env hashes prev size ≡ ok subs
      → size < 2 ^ 64
      → All HasSignature subs
        × ((index : ℕ)
            → prev ≤ index
            → index < size
            → Any (Keeps index (env.now + subtree_retention)) subs)
  unfolding mint_range lift
  mint_range-Keeps env hashes prev size subs h fits = elim (Bool-cases (ltb prev size)) [
    | inr none_new ↦
        let e : [] ≡ subs = ground arith in
        (rw (← e) tt, (λ index lo hi. absurd (ground (arith, lo, hi))))
    | inl new ↦
        let (covers, found, _) =
          find_subtrees-Some prev size prev (omega arith) (ground arith) fits in
        let minted : mint parts cfg env hashes covers ≡ ok subs = rw (new, found) at h in
        let (signed, kept) = mint-Keeps parts cfg env hashes covers subs minted in
        (
          signed,
          (λ index lo hi.
              let (covers', found', holds) = find_subtrees-Some prev size index lo hi fits in
              let same : covers ≡ covers' = ground (arith, found, found') in
              kept index (rw same holds)),
        )
  ]

  carried-HasSignature :
      (now : ℕ) (l : Log parts cfg) → AllSigned l → All HasSignature (carried now l.committed)
  unfolding carried
  carried-HasSignature now l signed = go l.committed signed
    where
      go :
          (old : Option CommittedCheckpoint)
          → ((c : CommittedCheckpoint) → old ≡ some c → All HasSignature c.subtrees)
          → All HasSignature (carried now old)
      go none h = tt
      go (some c) h = retained-HasSignature now c.subtrees (h c refl)

  -- What a flush that made a checkpoint leaves
  publish-Holds :
      (env : Flush) (l : Log parts cfg) (p : Published env l) (index : ℕ)
      → AllSigned l
      → parts.tile_size l.tw ≤ index
      → index < parts.tile_size p.tw
      → parts.tile_size p.tw < 2 ^ 64
      → Holds index (env.now + subtree_retention) ((flush parts cfg env l).1)
  publish-Holds env l p index signed lo hi fits =
      let (minted, _, subtrees) =
        publish_made env (parts.tile_size l.tw) p.tw l.committed p.checkpoint p.subs p.published in
      let (new_signed, kept) =
        mint_range-Keeps env (parts.snapshot_hashes p.tw) (parts.tile_size l.tw)
          (parts.tile_size p.tw) p.subs minted fits in
      let old = carried env.now l.committed in
      (
        p.checkpoint,
        ap (λ r. r.1.committed) p.outcome,
        rw subtrees
            (All-append HasSignature p.subs old new_signed (carried-HasSignature env.now l signed)),
        rw subtrees (
            Any-append_left (Keeps index (env.now + subtree_retention)) p.subs old
              (kept index lo hi)),
      )

  -- A flush before the deadline keeps what is held.
  flush-Holds :
      (env : Flush) (l : Log parts cfg) (index deadline : ℕ)
      → env.now < deadline
      → Holds index deadline l
      → parts.tile_size ((flush parts cfg env l).1.tw) < 2 ^ 64
      → Holds index deadline ((flush parts cfg env l).1)
  unfolding carried
  flush-Holds env l index deadline early (c, e, signed, kept) fits = elim (flush_cases env l) [
    | inr (same, _) ↦ (c, same ∙ e, signed, kept)
    | inl p ↦
        let (minted, _, subtrees) =
          publish_made env (parts.tile_size l.tw) p.tw l.committed p.checkpoint p.subs
            p.published in
        let (new_signed, _) =
          mint_range-Keeps env (parts.snapshot_hashes p.tw) (parts.tile_size l.tw)
            (parts.tile_size p.tw) p.subs minted (rw (ap (λ r. r.1.tw) p.outcome) at fits) in
        let old : carried env.now l.committed ≡ retained env.now c.subtrees =
          ap (carried env.now) e in
        (
          p.checkpoint,
          ap (λ r. r.1.committed) p.outcome,
          rw (subtrees, old)
              (All-append HasSignature p.subs (retained env.now c.subtrees) new_signed
                (retained-HasSignature env.now c.subtrees signed)),
          rw (subtrees, old)
              (Any-append_right (Keeps index deadline) p.subs (retained env.now c.subtrees)
                (retained-Keeps index deadline env.now c.subtrees early kept)),
        )
  ]

  collect-Holds :
      (st : MtcSubtree) (sigs : List MtcSignature) (l : Log parts cfg) (index deadline : ℕ)
      → Holds index deadline l
      → Holds index deadline (collect_mirror_sigs parts cfg st sigs l)
  unfolding collect_mirror_sigs
  collect-Holds st [] l index deadline h = h
  collect-Holds st (sig ∷ sigs) l index deadline (c, e, signed, kept) =
      let attached : CommittedCheckpoint = record {
        size = c.size;
        root = c.root;
        subtrees = attach st (sig ∷ sigs) c.subtrees;
        signed_note = c.signed_note;
        hashes_at_ckp = c.hashes_at_ckp;
      } in
      (
        attached,
        rw (collect_mirror_sigs, e) refl,
        attach-HasSignature st (sig ∷ sigs) c.subtrees signed,
        attach-Keeps st (sig ∷ sigs) c.subtrees index deadline kept,
      )

  append-Holds :
      (entry key : List ℕ) (l : Log parts cfg) (index deadline : ℕ)
      → Holds index deadline l
      → Holds index deadline ((append parts cfg entry key l).1)
  unfolding append
  append-Holds entry key l index deadline (c, e, signed, kept) = (c, unchanged ∙ e, signed, kept)
    where
      unchanged : (append parts cfg entry key l).1.committed ≡ l.committed
      unchanged = elim (Option-cases (lookup key l.dedup)) [
        | inl new ↦ rw (append, new) refl
        | inr (i, known) ↦ rw (append, known) refl
      ]

  Before-Holds :
      (deadline index : ℕ) (l l' : Log parts cfg)
      → Before deadline l l'
      → Holds index deadline l
      → Holds index deadline l'
  Before-Holds deadline index l _ here h = h
  Before-Holds deadline index _ _ (appending entry key l m before) h =
      append-Holds entry key m index deadline (Before-Holds deadline index l m before h)
  Before-Holds deadline index _ _ (flushing env l m before early fits) h =
      flush-Holds env m index deadline early (Before-Holds deadline index l m before h) fits
  Before-Holds deadline index _ _ (collecting st sigs l m before) h =
      collect-Holds st sigs m index deadline (Before-Holds deadline index l m before h)

  -- Let a flush of a log, all of whose covering subtrees are signed, succeed and take the tree
  -- past an index. From then on, after any calls of Append, mirror signatures, and flushes, failed
  -- ones included, that start within subtreeRetention of that flush, there is a checkpoint,
  -- and the first of its subtrees that holds the index has a signature. Tree sizes are to fit in
  -- 64 bits.
  pub flush_covers-retention :
      (env : Flush) (l l' : Log parts cfg) (subs : List SignedSubtree) (index : ℕ)
      → AllSigned l
      → (flush parts cfg env l).0 ≡ flushed subs
      → parts.tile_size l.tw ≤ index
      → index < parts.tile_size ((flush parts cfg env l).1.tw)
      → parts.tile_size ((flush parts cfg env l).1.tw) < 2 ^ 64
      → Before (env.now + subtree_retention) ((flush parts cfg env l).1) l'
      → (c : CommittedCheckpoint) × (s : SignedSubtree) × (l'.committed ≡ some c)
        × (find_covering index c.subtrees ≡ some s)
        × (s.subtree.start ≤ index)
        × (index < s.subtree.end)
        × (1 ≤ length s.sigs)
  flush_covers-retention env l l' subs index signed success lo hi fits before =
      elim (flush_cases env l) [
        | inr (_, never) ↦ absurd (never subs success)
        | inl p ↦
            let tw_same = ap (λ r. r.1.tw) p.outcome in
            let held =
              publish-Holds env l p index signed lo (rw tw_same at hi) (rw tw_same at fits) in
            let (c, e, all, kept) =
              Before-Holds (env.now + subtree_retention) index ((flush parts cfg env l).1) l' before
                held in
            let (s, found, above, below, has) =
              find_covering-Keeps index (env.now + subtree_retention) c.subtrees all kept in
            (c, s, e, found, above, below, has)
      ]
