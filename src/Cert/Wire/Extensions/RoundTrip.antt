-- ===== src/Cert/Wire/Extensions/RoundTrip.antt =====
-- parseEntryExtensions after marshalEntryExtensions (cert/entry.go).
use cactus.Prelude.{
  ℕ, zero, suc, ◌^◌, ◌<◌, ◌≡◌, inl, inr, refl, Option, none, some, List, [], ◌∷◌, ◌++◌, length,
  length-append, ltb, All, Bool-cases, Result, ok, or_err, ok_of_bind, ◌>>=◌, ◌>>◌, arith, ◌∙◌,
}
use cactus.Cert.Wire.{Cryptobyte, CryptobyteLaws}
use cactus.Cert.Wire.Extensions.{
  Extension, Error, short_type, short_data, check_order, check_sorted, marshal_each,
  marshal_entry_extensions, check_next, parse_loop, parse_entry_extensions,
}

module _ (cb : Cryptobyte) (laws : CryptobyteLaws cb) where
  abbrev check_from : Option ℕ → List Extension → Result Error (Unit {0})
  check_from before [] = ok tt
  check_from before (e ∷ es) = check_next cb before e.kind >> check_from (some e.kind) es

  check_sorted-from :
      (e : Extension) (es : List Extension)
      → check_sorted (e ∷ es) ≡ ok tt
      → check_from (some e.kind) es ≡ ok tt
  unfolding check_sorted check_next
  check_sorted-from e [] h = refl
  check_sorted-from e (f ∷ es) h =
      let (t, here, rest) =
        ok_of_bind (check_order e.kind f.kind) (λ t. check_sorted (f ∷ es)) tt h in
      rw here (check_sorted-from f es rest)

  check_sorted-all : (es : List Extension) → check_sorted es ≡ ok tt → check_from none es ≡ ok tt
  unfolding check_next
  check_sorted-all [] h = refl
  check_sorted-all (e ∷ es) h = check_sorted-from e es h

  abbrev parse_round : ℕ → Option ℕ → List ℕ → Result Error (List Extension)
  parse_round fuel before body = do
    (kind, s) ← or_err (cb.read_uint16 body) short_type
    (octets, rest) ← or_err (cb.read_uint16_prefixed s) short_data
    check_next cb before kind
    later ← parse_loop cb fuel (some kind) rest
    ok (record { kind = kind; octets = octets } ∷ later)

  parse_loop-round :
      (fuel : ℕ) (before : Option ℕ) (body : List ℕ)
      → 0 < length body
      → parse_loop cb (suc fuel) before body ≡ parse_round fuel before body
  unfolding parse_loop
  parse_loop-round fuel before [] h = absurd (omega arith)
  parse_loop-round fuel before (c ∷ cs) h = refl

  record Written (e : Extension) (es : List Extension) (w : List ℕ) : Type 0 where
    body : List ℕ
    later : List ℕ
    reads : (rest : List ℕ) → cb.read_uint16_prefixed (body ++ rest) ≡ some (e.octets, rest)
    marshals : marshal_each cb es ≡ ok later
    shape : cb.add_uint16 e.kind ++ (body ++ later) ≡ w

  marshal_each-Written :
      (e : Extension) (es : List Extension) (w : List ℕ)
      → marshal_each cb (e ∷ es) ≡ ok w
      → Written e es w
  unfolding marshal_each
  marshal_each-Written e es w h = elim (Bool-cases (ltb 65535 (length e.octets))) [
    | inl long ↦ absurd (ground arith)
    | inr fits ↦
        let (body, adds, longer, reads) = laws.prefixes_uint16.writes e.octets (ground arith) in
        let h' : (marshal_each cb es >>= λ later. ok (cb.add_uint16 e.kind ++ (body ++ later)))
            ≡ ok w =
          rw (marshal_each, fits, adds) at h in
        let (later, marshals, made) = ok_of_bind (marshal_each cb es) _ w h' in
        record {
          body = body;
          later = later;
          reads = reads;
          marshals = marshals;
          shape = ground arith;
        }
  ]

  parse_loop-marshal_each :
      (fuel : ℕ) (before : Option ℕ) (es : List Extension) (w : List ℕ)
      → marshal_each cb es ≡ ok w
      → check_from before es ≡ ok tt
      → All (λ e. e.kind < 2 ^ 16) es
      → length w < fuel
      → parse_loop cb fuel before w ≡ ok es
  unfolding parse_loop marshal_each
  parse_loop-marshal_each zero before es w h checked small enough = absurd (omega (arith, enough))
  parse_loop-marshal_each (suc fuel) before [] w h checked small enough =
      let e : [] ≡ w = ground arith in rw (← e) refl
  parse_loop-marshal_each (suc fuel) before (e ∷ es) w h checked (kind16, small) enough =
      let out = marshal_each-Written e es w h in
      let tail = out.body ++ out.later in
      let (t, here, later_checked) =
        ok_of_bind (check_next cb before e.kind) (λ t. check_from (some e.kind) es) tt checked in
      let split = length-append (cb.add_uint16 e.kind) tail in
      let two = laws.uint16_two e.kind in
      let size : length (cb.add_uint16 e.kind ++ tail) < suc fuel = rw (← out.shape) at enough in
      let rest =
        parse_loop-marshal_each fuel (some e.kind) es out.later out.marshals later_checked small
          (omega (arith, size, split, two, length-append out.body out.later)) in
      rw (← out.shape) (
        parse_loop-round fuel before (cb.add_uint16 e.kind ++ tail) (omega (arith, split, two))
        ∙ rw (laws.reads_uint16 e.kind tail kind16, out.reads out.later, here, rest) refl)

  -- With types of 16 bits, what marshalEntryExtensions writes is read back as the same extensions.
  pub parse_entry_extensions-marshal_entry_extensions :
      (exts : List Extension) (w : List ℕ)
      → All (λ e. e.kind < 2 ^ 16) exts
      → marshal_entry_extensions cb exts ≡ ok w
      → parse_entry_extensions cb w ≡ ok exts
  unfolding marshal_entry_extensions parse_entry_extensions
  parse_entry_extensions-marshal_entry_extensions exts w small h =
      let (t, sorted, each) = ok_of_bind (check_sorted exts) (λ t. marshal_each cb exts) w h in
      parse_loop-marshal_each (suc (length w)) none exts w each (check_sorted-all exts sorted) small
        (omega arith)
