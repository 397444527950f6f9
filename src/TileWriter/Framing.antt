-- ===== src/TileWriter/Framing.antt =====
-- SplitDataTile reads what appendDataEntry wrote (log/tilewriter/tilewriter.go).
use cactus.Prelude.{
  ℕ, zero, suc, ◌+◌, ◌*◌, ◌/◌, ◌%◌, ◌≤◌, ◌<◌, ◌≡◌, ◌≢◌, inl, inr, refl, ap, false, List, [], ◌∷◌,
  ◌++◌, length, length-append, take, drop, take-append, drop-append, take_all, drop_all,
  length-drop, ltb, le→not-ltb, Bool-cases, Result, ok, err, panic, stuck, arith, ok_of_bind, ◌>>=◌,
}
use cactus.TileWriter.{Error, append_data_entry, split_fuel, split_data_tile}

abbrev frame : List ℕ → List ℕ
frame entry = length entry / 256 % 256 ∷ length entry % 256 ∷ entry

split-frame :
    (fuel : ℕ) (entry : List ℕ)
    → length entry ≤ 65535
    → split_fuel (suc (suc fuel)) (frame entry) ≡ ok (entry ∷ [])
unfolding split_fuel
split-frame fuel entry h =
    let n : length entry / 256 % 256 * 256 + length entry % 256 ≡ length entry = omega (arith, h) in
    rw (n, le→not-ltb (length entry) (length entry) (omega arith), take_all entry, drop_all entry)
      refl

-- The rest of a tile, with one entry more at its end
split_fuel-append :
    (f g : ℕ) (buf entry : List ℕ) (es : List (List ℕ))
    → split_fuel f buf ≡ ok es
    → f ≤ g
    → length entry ≤ 65535
    → split_fuel (suc g) (buf ++ frame entry) ≡ ok (es ++ (entry ∷ []))
unfolding split_fuel
split_fuel-append zero g buf entry es h le fits = absurd (ground arith)
split_fuel-append (suc f) zero buf entry es h le fits = absurd (omega arith)
split_fuel-append (suc f) (suc g) [] entry es h le fits =
    let e : [] ≡ es = ground arith in rw (← e) (split-frame g entry fits)
split_fuel-append (suc f) (suc g) (hi ∷ []) entry es h le fits = absurd (ground arith)
split_fuel-append (suc f) (suc g) (hi ∷ lo ∷ rest) entry es h le fits =
    elim (Bool-cases (ltb (length rest) (hi * 256 + lo))) [
      | inl cut ↦ absurd (ground arith)
      | inr whole ↦
          let n : ℕ = hi * 256 + lo in
          let within : n ≤ length rest = ground arith in
          let run : (split_fuel f (drop n rest) >>= λ out. ok (take n rest ∷ out)) ≡ ok es =
            rw (split_fuel, whole) at h in
          let (out, later, made) =
            ok_of_bind (split_fuel f (drop n rest)) (λ out. ok (take n rest ∷ out)) es run in
          let e : (take n rest ∷ out) ≡ es = ground arith in
          let still : ltb (length (rest ++ frame entry)) n ≡ false =
            le→not-ltb (length (rest ++ frame entry)) n
              (omega (arith, within, length-append rest (frame entry))) in
          rw
            (
              still,
              take-append n rest (frame entry) within,
              drop-append n rest (frame entry) within,
              split_fuel-append f g (drop n rest) entry out later (omega arith) fits,
            )
            (ap (λ l. ok (l ++ (entry ∷ []))) e)
    ]

-- Where a tile splits into entries and one of at most 65535 octets is appended, the new tile
-- splits into the same entries and this one.
pub split-append :
    (buf entry : List ℕ) (es : List (List ℕ))
    → split_data_tile buf ≡ ok es
    → length entry ≤ 65535
    → (buf' : List ℕ) × (append_data_entry buf entry ≡ ok buf')
      × (split_data_tile buf' ≡ ok (es ++ (entry ∷ [])))
unfolding append_data_entry split_data_tile
split-append buf entry es h fits = (
  buf ++ frame entry,
  rw (le→not-ltb 65535 (length entry) fits) refl,
  split_fuel-append (suc (length buf)) (length (buf ++ frame entry)) buf entry es h
      (omega (arith, length-append buf (frame entry))) fits,
)

not_stuck : (f : ℕ) (buf : List ℕ) → length buf < f → split_fuel f buf ≢ stuck
unfolding split_fuel
not_stuck zero buf lt e = omega arith
not_stuck (suc f) [] lt e = ground arith
not_stuck (suc f) (hi ∷ []) lt e = ground arith
not_stuck (suc f) (hi ∷ lo ∷ rest) lt e = elim (Bool-cases (ltb (length rest) (hi * 256 + lo))) [
  | inl cut ↦ ground arith
  | inr whole ↦
      let n : ℕ = hi * 256 + lo in
      let run : (split_fuel f (drop n rest) >>= λ out. ok (take n rest ∷ out)) ≡ stuck =
        rw (split_fuel, whole) at e in
      bound (split_fuel f (drop n rest)) (take n rest)
        (not_stuck f (drop n rest) (omega (arith, lt, length-drop n rest))) run
]
  where
    bound :
        (m : Result Error (List (List ℕ))) (first : List ℕ)
        → m ≢ stuck
        → (m >>= λ out. ok (first ∷ out)) ≡ stuck
        → ⊥
    bound (ok out) first ne k = ground arith
    bound (err x) first ne k = ground arith
    bound panic first ne k = ground arith
    bound stuck first ne k = ne refl

-- The rounds that SplitDataTile is given are enough on any octets.
pub split_data_tile-returns : (data_ : List ℕ) → split_data_tile data_ ≢ stuck
unfolding split_data_tile
split_data_tile-returns data_ = not_stuck (suc (length data_)) data_ (omega arith)
