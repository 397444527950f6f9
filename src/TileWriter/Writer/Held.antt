-- ===== src/TileWriter/Writer/Held.antt =====
-- What the memory of the tile writer holds, after Append failed or not (log/tilewriter/tilewriter.go).
use cactus.Prelude.{
  ℕ, suc, ◌+◌, ◌≡◌, inl, inr, refl, Bool, true, false, none, some, List, [], ◌∷◌, ◌++◌, length,
  length-append, append_assoc, append-nil, take, take-length, ◌==◌, if◌then◌else◌, Bool-cases,
  Option-cases, arith,
}
use cactus.Tlogx.{Hash}
use cactus.TileWriter.Writer.{TileWriter, Tlog, hash_entries, store, append}

module _ (tlog : Tlog) where
  -- The writer's hashes are those of the entries, as loadFromDisk makes them, and as many as
  -- StoredHashCount tells.
  pub record Held (w : TileWriter) (entries : List (List ℕ)) : Type 0 where
    pub replayed : hash_entries tlog 0 entries [] ≡ some w.hashes
    pub counted : w.size ≡ length entries
    pub stored : length w.hashes ≡ tlog.stored_hash_count w.size

  hash_entries-append :
      (n : ℕ) (es fs : List (List ℕ)) (hr xs bs : List Hash)
      → hash_entries tlog n es hr ≡ some xs
      → hash_entries tlog (n + length es) fs (hr ++ xs) ≡ some bs
      → hash_entries tlog n (es ++ fs) hr ≡ some (xs ++ bs)
  unfolding hash_entries
  hash_entries-append n [] fs hr xs bs h k =
      let none_ : [] ≡ xs = ground arith in
      let here : n + 0 ≡ n = omega arith in rw (← none_) (rw (← none_, append-nil hr, here) at k)
  hash_entries-append n (e ∷ es) fs hr xs bs h k = elim (Option-cases (tlog.stored_hashes n e hr)) [
    | inl none_ ↦ let h' : none ≡ some xs = rw (hash_entries, none_) at h in absurd (ground arith)
    | inr (hs, found) ↦ elim (Option-cases (hash_entries tlog (suc n) es (hr ++ hs))) [
      | inl none_ ↦
          let h' : none ≡ some xs = rw (hash_entries, found, none_) at h in absurd (ground arith)
      | inr (later, more) ↦
          let h' : some (hs ++ later) ≡ some xs = rw (hash_entries, found, more) at h in
          let all : hs ++ later ≡ xs = ground arith in
          let at : n + length (e ∷ es) ≡ suc n + length es = omega arith in
          let k' : hash_entries tlog (suc n + length es) fs ((hr ++ hs) ++ later) ≡ some bs =
            rw (append_assoc hr hs later, all, ← at) k in
          let rest = hash_entries-append (suc n) es fs (hr ++ hs) later bs more k' in
          rw (hash_entries, found, rest, ← all, append_assoc hs later bs) refl
    ]
  ]

  store-Held :
      (fails : Bool) (w : TileWriter) (es fs : List (List ℕ)) (new : List Hash)
      → Held w es
      → hash_entries tlog w.size fs w.hashes ≡ some new
      → Held
          (store tlog fails w (w.size + length fs) new).1
          (if (store tlog fails w (w.size + length fs) new).0 then es ++ fs else es)
  unfolding store
  store-Held fails w es fs new held made =
      let size = w.size + length fs in
      let right = length new + tlog.stored_hash_count w.size == tlog.stored_hash_count size in
      elim (Bool-cases right) [
        | inr wrong ↦ rw (store, wrong) held
        | inl fits ↦
            let count : length (w.hashes ++ new) ≡ tlog.stored_hash_count size =
              ground (arith, length-append w.hashes new, held.stored) in
            let made' : hash_entries tlog (0 + length es) fs ([] ++ w.hashes) ≡ some new =
              let at : 0 + length es ≡ w.size = omega (arith, held.counted) in rw at made in
            let all = hash_entries-append 0 es fs [] w.hashes new held.replayed made' in
            let sum : size ≡ length (es ++ fs) =
              ground (arith, held.counted, length-append es fs) in
            let back : take (tlog.stored_hash_count w.size) (w.hashes ++ new) ≡ w.hashes =
              rw (← held.stored) (take-length w.hashes new) in
            elim fails
              as (λ b.
                Held (store tlog b w size new).1
                  (if (store tlog b w size new).0 then es ++ fs else es)) [
                    | true ↦ rw (store, fits, back) held
                    | false ↦
                        rw (store, fits) (record { replayed = all; counted = sum; stored = count })
                  ]
      ]

  -- After an Append that succeeds the memory holds the new entries behind the old; after one that
  -- fails, the old.
  pub append-Held :
      (fails : Bool) (w : TileWriter) (es fs : List (List ℕ))
      → Held w es
      → Held (append tlog fails w fs).1 (if (append tlog fails w fs).0 then es ++ fs else es)
  unfolding append
  append-Held fails w es [] held = rw (append-nil es) held
  append-Held fails w es (f ∷ fs) held =
      elim (Option-cases (hash_entries tlog w.size (f ∷ fs) w.hashes)) [
        | inl none_ ↦ rw (append, none_) held
        | inr (new, made) ↦ rw (append, made) (store-Held fails w es (f ∷ fs) new held made)
      ]
