-- ===== src/Log/Indices.antt =====
-- The indices of log/log.go: what Append returns is where the entry stands in the tree.
use cactus.Prelude.{
  ℕ, ◌+◌, ◌≡◌, inl, inr, refl, sym, ap, ◌∙◌, Bool, true, Option, none, some, List, [], ◌∷◌, ◌++◌,
  map, length, length-append, length-map, map-append, get_elem?, get_elem?-middle, append_assoc,
  append-nil, Result, ok, err, panic, stuck, arith, Bool-cases, Option-cases, if◌then◌else◌,
}
use cactus.Tlogx.{hash_eq, hash_eq_iff}
use cactus.Log.{
  Parts, Config, Flush, Log, PoolItem, MtcSubtree, MtcSignature, CommittedCheckpoint, SignedSubtree,
  lookup, append, flush, commit, append_pool, up_to_date, publish, collect_mirror_sigs,
}

-- What the log relies on of the tile writer: that its memory holds a list of entries, to which an
-- Append that succeeds adds and which one that fails keeps. Log/Writes has it of the tile writer.
pub record TileLaws (parts : Parts) : Type 1 where
  pub Holds : parts.Tiles → List (List ℕ) → Type 0
  pub size_entries :
      (tw : parts.Tiles) (es : List (List ℕ)) → Holds tw es → parts.tile_size tw ≡ length es
  pub appends :
      (fails : Bool) (tw : parts.Tiles) (es new : List (List ℕ))
      → Holds tw es
      → Holds
          (parts.tile_append fails tw new).1
          (if (parts.tile_append fails tw new).0 then es ++ new else es)

module _ (parts : Parts) (cfg : Config) where
  -- A step of a running log, and a run
  pub data Step : Log parts cfg → Log parts cfg → Type 0 where
    append_step :
        (entry key : List ℕ) (l : Log parts cfg) → Step l ((append parts cfg entry key l).1)
    flush_step : (env : Flush) (l : Log parts cfg) → Step l ((flush parts cfg env l).1)
    collect_step :
        (st : MtcSubtree) (sigs : List MtcSignature) (l : Log parts cfg)
        → Step l (collect_mirror_sigs parts cfg st sigs l)

  pub data Later : Log parts cfg → Log parts cfg → Type 0 where
    now : {l : Log parts cfg} → Later l l
    then_step : (l m n : Log parts cfg) → Later l m → Step m n → Later l n

  module _ (laws : TileLaws parts) where
    -- The entries of the tree and, after them, the queue
    pub record Contents (l : Log parts cfg) (all : List (List ℕ)) : Type 0 where
      pub entries : List (List ℕ)
      pub held : laws.Holds l.tw entries
      pub queued : all ≡ entries ++ map (λ p. p.entry) l.pool

    length-Contents :
        (l : Log parts cfg) (all : List (List ℕ))
        → Contents l all
        → parts.tile_size l.tw + length l.pool ≡ length all
    length-Contents l all c = rw c.queued (
        omega (
          arith,
          length-append c.entries (map (λ p. p.entry) l.pool),
          length-map (λ p. p.entry) l.pool,
          laws.size_entries l.tw c.entries c.held,
        ))

    append_pool-Holds :
        (env : Flush) (l : Log parts cfg) (es : List (List ℕ))
        → laws.Holds l.tw es
        → laws.Holds
            (append_pool parts cfg env l).1
            (if (append_pool parts cfg env l).0 then es ++ map (λ p. p.entry) l.pool else es)
    unfolding append_pool
    append_pool-Holds env l es held = go l.pool
      where
        go :
            (pool : List PoolItem)
            → let after =
                append_pool parts cfg env
                  (record { tw = l.tw; pool = pool; dedup = l.dedup; committed = l.committed }) in
              laws.Holds after.1 (if after.0 then es ++ map (λ p. p.entry) pool else es)
        go [] = rw (append-nil es) held
        go (item ∷ rest) =
            laws.appends env.tiles_fail l.tw es (map (λ p. p.entry) (item ∷ rest)) held

    commit-state :
        (l : Log parts cfg) (tw : parts.Tiles)
        (r : Result _ (CommittedCheckpoint × List SignedSubtree))
        → ((commit parts cfg l tw r).1.tw ≡ tw)
          × ((commit parts cfg l tw r).1.pool ≡ [])
          × ((commit parts cfg l tw r).1.dedup ≡ l.dedup)
    unfolding commit
    commit-state l tw (ok (c, subs)) = (refl, refl, refl)
    commit-state l tw (err e) = (refl, refl, refl)
    commit-state l tw panic = (refl, refl, refl)
    commit-state l tw stuck = (refl, refl, refl)

    -- Whatever a flush meets, the tree followed by the queue is what it was.
    flush-Contents :
        (env : Flush) (l : Log parts cfg) (all : List (List ℕ))
        → Contents l all
        → Contents ((flush parts cfg env l).1) all × ((flush parts cfg env l).1.dedup ≡ l.dedup)
    unfolding flush
    flush-Contents env l all c =
        let tw = (append_pool parts cfg env l).1 in
        let after = append_pool-Holds env l c.entries c.held in
        elim (Bool-cases (up_to_date parts cfg l)) [
          | inl idle ↦ rw idle (c, refl)
          | inr busy ↦ elim (Bool-cases ((append_pool parts cfg env l).0)) [
            | inr lost ↦
                let kept : laws.Holds tw c.entries = rw lost at after in
                rw (busy, lost)
                  (record { entries = c.entries; held = kept; queued = c.queued }, refl)
            | inl added ↦
                let result = publish parts cfg env (parts.tile_size l.tw) tw l.committed in
                let (tw_same, pool_empty, dedup_same) = commit-state l tw result in
                let moved : laws.Holds tw (c.entries ++ map (λ p. p.entry) l.pool) =
                  rw added at after in
                let l' : Log parts cfg = (commit parts cfg l tw result).1 in
                let done : Contents l' all = record {
                  entries = c.entries ++ map (λ p. p.entry) l.pool;
                  held = rw tw_same moved;
                  queued = c.queued ∙ sym (rw pool_empty (append-nil _));
                } in
                rw (busy, added) (done, dedup_same)
          ]
        ]

    collect-Contents :
        (st : MtcSubtree) (sigs : List MtcSignature) (l : Log parts cfg) (all : List (List ℕ))
        → Contents l all
        → Contents (collect_mirror_sigs parts cfg st sigs l) all
          × ((collect_mirror_sigs parts cfg st sigs l).dedup ≡ l.dedup)
    unfolding collect_mirror_sigs
    collect-Contents st [] l all c = (c, refl)
    collect-Contents st (sig ∷ sigs) l all c = go l.committed
      where
        go :
            (committed : Option CommittedCheckpoint)
            → let l' =
                collect_mirror_sigs parts cfg st
                  (sig ∷ sigs)
                  (record { tw = l.tw; pool = l.pool; dedup = l.dedup; committed = committed }) in
              Contents l' all × (l'.dedup ≡ l.dedup)
        go none = (record { entries = c.entries; held = c.held; queued = c.queued }, refl)
        go (some _) = (record { entries = c.entries; held = c.held; queued = c.queued }, refl)

    -- Append on a key that is not known, and on one that is
    append-fresh :
        (entry key : List ℕ) (l : Log parts cfg) (all : List (List ℕ))
        → Contents l all
        → lookup key l.dedup ≡ none
        → ((append parts cfg entry key l).0 ≡ length all)
          × Contents ((append parts cfg entry key l).1) (all ++ (entry ∷ []))
          × ((append parts cfg entry key l).1.dedup ≡ (key, length all) ∷ l.dedup)
    unfolding append
    append-fresh entry key l all c h =
        let item : PoolItem = record { entry = entry; idem_key = key } in
        rw (append, h)
          (
            length-Contents l all c,
            record {
              entries = c.entries;
              held = c.held;
              queued =
                  ap (λ es. es ++ (entry ∷ [])) c.queued
                  ∙ append_assoc c.entries (map (λ p. p.entry) l.pool) (entry ∷ [])
                  ∙ ap (λ es. c.entries ++ es) (sym (map-append (λ p. p.entry) l.pool (item ∷ [])));
            },
            ap (λ i. (key, i) ∷ l.dedup) (length-Contents l all c),
          )

    append-known :
        (entry key : List ℕ) (l : Log parts cfg) (i : ℕ)
        → lookup key l.dedup ≡ some i
        → append parts cfg entry key l ≡ (i, l)
    unfolding append
    append-known entry key l i h = rw (append, h) refl

    hash_eq_self : (key : List ℕ) → hash_eq key key ≡ true
    hash_eq_self key = (hash_eq_iff key key).1 refl

    lookup-head :
        (key : List ℕ) (i : ℕ) (rest : List (List ℕ × ℕ)) → lookup key ((key, i) ∷ rest) ≡ some i
    unfolding lookup
    lookup-head key i rest = rw (hash_eq_self key) refl

    -- A new key hides no other.
    lookup-fresh :
        (key other : List ℕ) (i j : ℕ) (rest : List (List ℕ × ℕ))
        → lookup other rest ≡ none
        → lookup key rest ≡ some i
        → lookup key ((other, j) ∷ rest) ≡ some i
    unfolding lookup
    lookup-fresh key other i j rest new known = elim (Bool-cases (hash_eq key other)) [
      | inl same ↦
          let e : key ≡ other = (hash_eq_iff key other).0 same in
          absurd (no_some i (sym new ∙ ap (λ k. lookup k rest) (sym e) ∙ known))
      | inr differs ↦ rw differs known
    ]
      where
        no_some : (i : ℕ) → none ≡ some i → ⊥
        no_some i e = ground arith

    -- A step only adds behind the contents, and forgets no key.
    record Grown (l l' : Log parts cfg) (all : List (List ℕ)) : Type 0 where
      more : List (List ℕ)
      extends : Contents l' (all ++ more)
      keeps : (key : List ℕ) (i : ℕ) → lookup key l.dedup ≡ some i → lookup key l'.dedup ≡ some i

    same-Grown :
        (l l' : Log parts cfg) (all : List (List ℕ))
        → Contents l' all
        → l'.dedup ≡ l.dedup
        → Grown l l' all
    same-Grown l l' all c d = record {
      more = [];
      extends = rw (append-nil all) c;
      keeps = λ key i h. rw d h;
    }

    Step-Grown :
        (l l' : Log parts cfg) (all : List (List ℕ)) → Contents l all → Step l l' → Grown l l' all
    Step-Grown _ l' all c (flush_step env l) =
        let (c', d) = flush-Contents env l all c in same-Grown l l' all c' d
    Step-Grown _ l' all c (collect_step st sigs l) =
        let (c', d) = collect-Contents st sigs l all c in same-Grown l l' all c' d
    Step-Grown _ l' all c (append_step entry key l) = elim (Option-cases (lookup key l.dedup)) [
      | inl new ↦
          let (_, c', d) = append-fresh entry key l all c new in
          record {
            more = entry ∷ [];
            extends = c';
            keeps = λ k i h. rw d (lookup-fresh k key i (length all) l.dedup new h);
          }
      | inr (i, known) ↦
          let e = ap (λ p. p.1) (append-known entry key l i known) in
          same-Grown l l' all (rw e c) (ap (λ m. m.dedup) e)
    ]

    Later-Grown :
        (l l' : Log parts cfg) (all : List (List ℕ)) → Contents l all → Later l l' → Grown l l' all
    Later-Grown l _ all c now = same-Grown l l all c refl
    Later-Grown _ _ all c (then_step l m l' before step) =
        let a = Later-Grown l m all c before in
        let b = Step-Grown m l' (all ++ a.more) a.extends step in
        record {
          more = a.more ++ b.more;
          extends = rw (← append_assoc all a.more b.more) b.extends;
          keeps = λ key i h. b.keeps key i (a.keeps key i h);
        }

    -- The index of an entry, for any tile writer with the laws
    pub append-index_of_laws :
        (entry key : List ℕ) (l l' : Log parts cfg) (again : List ℕ) (all : List (List ℕ))
        → Contents l all
        → lookup key l.dedup ≡ none
        → Later ((append parts cfg entry key l).1) l'
        → (append parts cfg again key l' ≡ ((append parts cfg entry key l).0, l'))
          × (all' : List (List ℕ)) × Contents l' all'
          × (get_elem? all' ((append parts cfg entry key l).0) ≡ some entry)
    append-index_of_laws entry key l l' again all c new later =
        let (at, added, recorded) = append-fresh entry key l all c new in
        let index : ℕ = length all in
        let g =
          Later-Grown ((append parts cfg entry key l).1) l' (all ++ (entry ∷ [])) added later in
        let known : lookup key l'.dedup ≡ some index =
          g.keeps key index (ap (lookup key) recorded ∙ lookup-head key index l.dedup) in
        let joined : (all ++ (entry ∷ [])) ++ g.more ≡ all ++ (entry ∷ g.more) =
          append_assoc all (entry ∷ []) g.more in
        rw at (
          append-known again key l' index known,
          all ++ (entry ∷ g.more),
          rw (← joined) g.extends,
          get_elem?-middle all g.more entry,
        )
