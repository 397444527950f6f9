-- ===== src/Cert/TrustAnchorId/Octets.antt =====
-- The octets of one arc (cert/trustanchorid.go), as appendBase128 writes and
-- TrustAnchorIDFromBinary reads them.
use cactus.Prelude.{
  ℕ, zero, suc, ◌+◌, ◌*◌, ◌/◌, ◌%◌, ◌^◌, ◌≤◌, ◌<◌, ◌≡◌, inl, inr, refl, ap, ◌∙◌, true, false, not,
  List, [], ◌∷◌, ◌++◌, ok, err, arith, Bool-cases, ltb, ◌==◌, ==_ne, lt→ltb, le→not-ltb, ◌&&◌,
  if◌then◌else◌, ◌>>=◌,
}
use cactus.Prelude.Words.{u64}
use cactus.Cert.TrustAnchorId.{
  Text, overflows, continue_loop, append_base128, Decoding, decode_octet, decode_loop,
}

-- How many octets continue_loop writes
septets : ℕ → ℕ → ℕ
septets zero w = 0
septets (suc f) w = let rest = septets f (w / 128) in if w == 0 then 0 else suc rest

abbrev cap : ℕ → ℕ
cap zero = 1
cap (suc k) = 128 * cap k

septets-le_fuel : (f w : ℕ) → septets f w ≤ f
unfolding septets
septets-le_fuel zero w = omega arith
septets-le_fuel (suc f) w = ground (arith, septets-le_fuel f (w / 128))

septets-below : (f k w : ℕ) → w < cap k → septets f w ≤ k
unfolding septets
septets-below zero k w h = omega arith
septets-below (suc f) zero w h = ground arith
septets-below (suc f) (suc k) w h = ground (arith, septets-below f k (w / 128) (omega arith))

septets-above : (f k w : ℕ) → k < f → cap k ≤ w → k < septets f w
unfolding septets
septets-above zero k w lt h = absurd (omega arith)
septets-above (suc f) zero w lt h = ground arith
septets-above (suc f) (suc k) w lt h =
    let more = septets-above f k (w / 128) (omega arith) (omega arith) in
    let some_ : (w == 0) ≡ false = ==_ne w 0 (λ e. absurd (omega (arith, h, e, cap_pos k))) in
    rw some_ (omega (arith, more))
  where
    cap_pos : (k : ℕ) → 0 < cap k
    cap_pos zero = omega arith
    cap_pos (suc k) = omega (arith, cap_pos k)

module _ (text : Text) where
  -- Before an arc, and after the octets of w, all of which continue
  abbrev pub fresh : List (List ℕ) → Decoding
  fresh arcs = record { arcs = arcs; v = 0; started = false; bits = 0 }

  abbrev reading : List (List ℕ) → ℕ → ℕ → Decoding
  reading arcs f w = record { arcs = arcs; v = w; started = ltb 0 w; bits = 7 * septets f w }

  reading-zero : (f : ℕ) (arcs : List (List ℕ)) → fresh arcs ≡ reading arcs f 0
  unfolding septets
  reading-zero zero arcs = refl
  reading-zero (suc f) arcs = refl

  -- One octet that continues
  decode_octet-reading :
      (f w : ℕ) (arcs : List (List ℕ))
      → f < 9
      → w < 2 ^ 57
      → 0 < w
      → decode_octet text (reading arcs f (w / 128)) (w % 128 + 128) ≡ ok (reading arcs (suc f) w)
  unfolding decode_octet septets
  decode_octet-reading f w arcs f9 fits pos =
      let le = septets-le_fuel f (w / 128) in
      let value : u64 (w / 128 * 128) + (w % 128 + 128) % 128 ≡ w = omega (arith, fits) in
      let room : ltb 64 (7 * septets f (w / 128) + 7) ≡ false =
        le→not-ltb 64 (7 * septets f (w / 128) + 7) (omega (arith, le, f9)) in
      let minimal : (not (ltb 0 (w / 128)) && (w % 128 + 128) == 128) ≡ false =
        ground (arith, pos) in
      let continues : ltb (w % 128 + 128) 128 ≡ false =
        le→not-ltb (w % 128 + 128) 128 (omega arith) in
      let nonzero : (w == 0) ≡ false = ==_ne w 0 (λ e. absurd (omega (arith, pos, e))) in
      let begun : ltb 0 w ≡ true = lt→ltb 0 w pos in
      let count : 7 * septets f (w / 128) + 7 ≡ 7 * suc (septets f (w / 128)) = omega arith in
      rw (minimal, room, continues, value, nonzero, begun, count) refl

  continued :
      (f w : ℕ) (arcs : List (List ℕ)) (buf rest : List ℕ)
      → f ≤ 9
      → w < cap f
      → w < 2 ^ 57
      → decode_loop text (fresh arcs) (continue_loop f w buf ++ rest)
        ≡ decode_loop text (reading arcs f w) (buf ++ rest)
  unfolding continue_loop decode_loop
  continued zero w arcs buf rest f9 small fits =
      let zero_ : w ≡ 0 = omega arith in
      rw zero_ (ap (λ d. decode_loop text d (buf ++ rest)) (reading-zero zero arcs))
  continued (suc f) w arcs buf rest f9 small fits = elim (Bool-cases (w == 0)) [
    | inl none_ ↦
        let zero_ : w ≡ 0 = ground arith in
        rw zero_ (ap (λ d. decode_loop text d (buf ++ rest)) (reading-zero (suc f) arcs))
    | inr some_ ↦
        let pos : 0 < w = ground arith in
        rw some_ (
          continued f (w / 128) arcs ((w % 128 + 128) ∷ buf) rest (omega arith)
            (omega (arith, small)) (omega arith)
          ∙ next (decode_octet-reading f w arcs (omega arith) fits pos))
  ]
    where
      next :
          decode_octet text (reading arcs f (w / 128)) (w % 128 + 128) ≡ ok (reading arcs (suc f) w)
          → decode_loop text (reading arcs f (w / 128)) ((w % 128 + 128) ∷ (buf ++ rest))
            ≡ decode_loop text (reading arcs (suc f) w) (buf ++ rest)
      next e = rw (decode_loop, e) refl

  -- The last octet of an arc: it fits if at most eight came before it.
  last_octet :
      (v : ℕ) (arcs : List (List ℕ))
      → v < 2 ^ 63
      → decode_octet text (reading arcs 9 (v / 128)) (v % 128)
        ≡ ok (fresh (arcs ++ (text.format_uint v ∷ [])))
  unfolding decode_octet
  last_octet v arcs fits =
      let few : septets 9 (v / 128) ≤ 8 = septets-below 9 8 (v / 128) (omega arith) in
      let value : u64 (v / 128 * 128) + v % 128 % 128 ≡ v = omega (arith, fits) in
      let room : ltb 64 (7 * septets 9 (v / 128) + 7) ≡ false =
        le→not-ltb 64 (7 * septets 9 (v / 128) + 7) (omega (arith, few)) in
      let minimal : (not (ltb 0 (v / 128)) && v % 128 == 128) ≡ false = ground arith in
      let ends : ltb (v % 128) 128 ≡ true = lt→ltb (v % 128) 128 (omega arith) in
      rw (minimal, room, ends, value) refl

  too_long :
      (v : ℕ) (arcs : List (List ℕ))
      → 2 ^ 63 ≤ v
      → decode_octet text (reading arcs 9 (v / 128)) (v % 128) ≡ err overflows
  unfolding decode_octet
  too_long v arcs big =
      let many : 8 < septets 9 (v / 128) =
        septets-above 9 8 (v / 128) (omega arith) (omega arith) in
      let full : ltb 64 (7 * septets 9 (v / 128) + 7) ≡ true =
        lt→ltb 64 (7 * septets 9 (v / 128) + 7) (omega (arith, many)) in
      let minimal : (not (ltb 0 (v / 128)) && v % 128 == 128) ≡ false = ground arith in
      rw (minimal, full) refl

  arc_octets :
      (v : ℕ) (arcs : List (List ℕ)) (rest : List ℕ)
      → v < 2 ^ 64
      → decode_loop text (fresh arcs) (append_base128 [] v ++ rest)
        ≡ (decode_octet text (reading arcs 9 (v / 128)) (v % 128) >>= λ d. decode_loop text d rest)
  unfolding append_base128 decode_loop
  arc_octets v arcs rest fits =
      continued 9 (v / 128) arcs (v % 128 ∷ []) rest (omega arith) (omega arith) (omega arith)

  -- An arc below 2 ^ 63 is read back, and an arc of 64 bits is refused.
  pub decode_arc :
      (v : ℕ) (arcs : List (List ℕ)) (rest : List ℕ)
      → (v < 2 ^ 63
          → decode_loop text (fresh arcs) (append_base128 [] v ++ rest)
            ≡ decode_loop text (fresh (arcs ++ (text.format_uint v ∷ []))) rest)
        × (2 ^ 63 ≤ v
            → v < 2 ^ 64
            → decode_loop text (fresh arcs) (append_base128 [] v ++ rest) ≡ err overflows)
  decode_arc v arcs rest = (
    (λ fits.
        arc_octets v arcs rest (omega (arith, fits))
        ∙ ap (λ m. m >>= λ d. decode_loop text d rest) (last_octet v arcs fits)),
    (λ big fits.
        arc_octets v arcs rest fits
        ∙ ap (λ m. m >>= λ d. decode_loop text d rest) (too_long v arcs big)),
  )
