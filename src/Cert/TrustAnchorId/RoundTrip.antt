-- ===== src/Cert/TrustAnchorId/RoundTrip.antt =====
-- TrustAnchorIDFromBinary after Binary (cert/trustanchorid.go): which IDs come back.
use native.Mathlib.Decide.{dec_lt}
use cactus.Prelude.{
  ℕ, zero, suc, ◌+◌, ◌/◌, ◌%◌, ◌^◌, ◌≤◌, ◌<◌, ◌≡◌, ◌≢◌, ◌⊎◌, inl, inr, refl, sym, ap, ◌∙◌, Bool,
  true, false, some, List, [], ◌∷◌, ◌++◌, ok, err, arith, Bool-cases, ltb, ◌==◌, ◌&&◌,
  if◌then◌else◌, All, append_assoc, append-nil,
}
use cactus.Cert.TrustAnchorId.{
  Text, overflows, is_empty, continue_loop, append_base128, append_arcs, binary, decode_loop,
  from_binary,
}
use cactus.Cert.TrustAnchorId.Octets.{fresh, decode_arc}

module _ (text : Text) where
  -- A part that is the decimal of a 64-bit number, as FormatUint writes it
  pub record Arc (part : List ℕ) : Type 0 where
    pub nonempty : is_empty part ≡ false
    pub value : ℕ
    pub parsed : text.parse_uint part ≡ some value
    pub formatted : text.format_uint value ≡ part
    pub fits : value < 2 ^ 64

  -- The arcs are below the bound; one of them is not.
  abbrev pub AllBelow : ℕ → (parts : List (List ℕ)) → All Arc parts → Type 0
  AllBelow bound [] t = Unit
  AllBelow bound (p ∷ ps) (a, t) = (a.value < bound) × AllBelow bound ps t

  abbrev pub SomeFrom : ℕ → (parts : List (List ℕ)) → All Arc parts → Type 0
  SomeFrom bound [] t = ⊥
  SomeFrom bound (p ∷ ps) (a, t) = (bound ≤ a.value) ⊎ SomeFrom bound ps t

  is_empty-continue :
      (f w c : ℕ) (buf rest : List ℕ) → is_empty (continue_loop f w (c ∷ buf) ++ rest) ≡ false
  unfolding continue_loop is_empty
  is_empty-continue zero w c buf rest = refl
  is_empty-continue (suc f) w c buf rest = elim (Bool-cases (w == 0)) [
    | inl ends ↦ rw ends refl
    | inr more ↦ rw more (is_empty-continue f (w / 128) (w % 128 + 128) (c ∷ buf) rest)
  ]

  is_empty-octets : (v : ℕ) (rest : List ℕ) → is_empty (append_base128 [] v ++ rest) ≡ false
  unfolding append_base128
  is_empty-octets v rest = is_empty-continue 9 (v / 128) (v % 128) [] rest

  append_octets :
      (out : List ℕ) (v : ℕ) (bs : List ℕ)
      → append_base128 out v ++ bs ≡ out ++ (append_base128 [] v ++ bs)
  unfolding append_base128
  append_octets out v bs = append_assoc out (continue_loop 9 (v / 128) (v % 128 ∷ [])) bs

  abbrev pub all_below : ℕ → (parts : List (List ℕ)) → All Arc parts → Bool
  all_below bound [] t = true
  all_below bound (p ∷ ps) (a, t) = ltb a.value bound && all_below bound ps t

  all_below_iff :
      (bound : ℕ) (parts : List (List ℕ)) (arcs : All Arc parts)
      → (all_below bound parts arcs ≡ true → AllBelow bound parts arcs)
        × (all_below bound parts arcs ≡ false → SomeFrom bound parts arcs)
  all_below_iff bound [] t = ((λ h. tt), (λ h. absurd (ground arith)))
  all_below_iff bound (p ∷ ps) (a, t) =
      let (yes_, no_) = all_below_iff bound ps t in
      (
        (λ h. (ground arith, yes_ (ground arith))),
        (λ h. elim (Bool-cases (ltb a.value bound)) [
          | inl below ↦ inr (no_ (ground arith))
          | inr above ↦ inl (ground arith)
        ]),
      )

  record Octets (out : List ℕ) (parts : List (List ℕ)) (arcs : All Arc parts) : Type 0 where
    bytes : List ℕ
    written : append_arcs text out parts ≡ ok (out ++ bytes)
    nonempty : parts ≢ [] → is_empty bytes ≡ false
    reads_back :
        (before : List (List ℕ))
        → AllBelow (2 ^ 63) parts arcs
        → decode_loop text (fresh text before) bytes ≡ ok (fresh text (before ++ parts))
    refuses :
        (before : List (List ℕ))
        → SomeFrom (2 ^ 63) parts arcs
        → decode_loop text (fresh text before) bytes ≡ err overflows

  arcs-Octets :
      (out : List ℕ) (parts : List (List ℕ)) (arcs : All Arc parts) → Octets out parts arcs
  unfolding append_arcs decode_loop
  arcs-Octets out [] t = record {
    bytes = [];
    written = ap ok (sym (append-nil out));
    nonempty = λ ne. absurd (ne refl);
    reads_back = λ before small. ap (λ a. ok (fresh text a)) (sym (append-nil before));
    refuses = λ before big. absurd big;
  }
  arcs-Octets out (p ∷ ps) (a, t) =
      let rest = arcs-Octets (append_base128 out a.value) ps t in
      let octets = append_base128 [] a.value in
      record {
        bytes = octets ++ rest.bytes;
        written =
            rw (a.nonempty, a.parsed) (rest.written ∙ ap ok (append_octets out a.value rest.bytes));
        nonempty = λ ne. is_empty-octets a.value rest.bytes;
        reads_back = λ before small.
            (decode_arc text a.value before rest.bytes).0 (small.0)
            ∙ rest.reads_back (before ++ (text.format_uint a.value ∷ [])) (small.1)
            ∙ ap (λ l. ok (fresh text l))
                (append_assoc before (text.format_uint a.value ∷ []) ps
                  ∙ ap (λ x. before ++ (x ∷ ps)) a.formatted);
        refuses = λ before big. elim (dec_lt a.value (2 ^ 63)) [
          | no large ↦ (decode_arc text a.value before rest.bytes).1 (omega (arith, large)) a.fits
          | yes small ↦
              (decode_arc text a.value before rest.bytes).0 small
              ∙ rest.refuses (before ++ (text.format_uint a.value ∷ [])) (elim big [
                | inl large ↦ absurd (omega (arith, large, small))
                | inr later ↦ later
              ])
        ];
      }

  -- An ID is to be a non-empty text that strings.Join puts together from its parts, each the
  -- decimal of a 64-bit number as strconv.FormatUint writes it. Binary then succeeds, and
  -- TrustAnchorIDFromBinary gives back the ID if all arcs are below 2 ^ 63, and otherwise refuses
  -- the octets as an overflow.
  pub from_binary-binary :
      (id : List ℕ) (arcs : All Arc (text.split id))
      → is_empty id ≡ false
      → text.split id ≢ []
      → text.join (text.split id) ≡ id
      → (b : List ℕ) × (binary text id ≡ ok b)
        × (from_binary text b
            ≡ (if all_below (2 ^ 63) (text.split id) arcs then ok id else err overflows))
  unfolding binary from_binary
  from_binary-binary id arcs nonempty parts joined =
      let o = arcs-Octets [] (text.split id) arcs in
      let (small, big) = all_below_iff (2 ^ 63) (text.split id) arcs in
      (
        o.bytes,
        rw nonempty o.written,
        elim (Bool-cases (all_below (2 ^ 63) (text.split id) arcs)) [
          | inl below ↦ rw (below, o.nonempty parts, o.reads_back [] (small below)) (ap ok joined)
          | inr above ↦ rw (above, o.nonempty parts, o.refuses [] (big above)) refl
        ],
      )
