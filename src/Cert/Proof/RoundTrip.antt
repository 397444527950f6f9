-- ===== src/Cert/Proof/RoundTrip.antt =====
-- ParseMTCProof after MarshalTLS (cert/proof.go).
use mathlib.Core.List.{Permᴰ}
use mathlib.Core.List.Permᴰ
use cactus.Prelude.{
  ℕ, zero, suc, ◌*◌, ◌%◌, ◌^◌, ◌≤◌, ◌<◌, ◌≡◌, inl, inr, refl, sym, true, not, Option, none, some,
  List, [], ◌∷◌, ◌++◌, map, append-nil, length, length-append, ltb, leb, ◌==◌, ◌&&◌, All,
  Bool-cases, ok, guard, or_err, lift_err, ok_of_bind, ok_of_guard, ok_of_lift_err, some_of_or_err,
  arith, ap, ◌∙◌,
}
use cactus.Prelude.Sorting.{
  sort_stable, sort_stable-Permᴰ, sort_stable-Ascending, sort_stable-map, All-sort_stable,
}
use cactus.Tlogx.{Hash}
use cactus.Log.{MtcSignature}
use cactus.Cert.TrustAnchorId.{Text, is_empty}
use cactus.Cert.Wire.{Cryptobyte, CryptobyteLaws, Prefixes, max_uint48, add_uint48}
use cactus.Cert.Wire.Uint48.{read_uint48-add_uint48}
use cactus.Cert.Wire.Extensions.{marshal_entry_extensions}
use cactus.Cert.Wire.Extensions.RoundTrip.{parse_entry_extensions-marshal_entry_extensions}
use cactus.Cert.Proof.{
  Proof, out_of_range, proof_too_long, bad_extensions, builder_overflow, WireSig, wire_less,
  wire_sigs, check_distinct, concat, add_signatures, build, marshal_tls, hash_loop, signature_loop,
  parse_mtc_proof,
}
use cactus.Cert.Proof.Order.{wire_less-asymmetric, sorted_row}
use cactus.Cert.Proof.Signatures.{
  Converted, wire, signed_of, IdRoundTrip, Fits, wire_sigs-Conversions,
  signature_loop-add_signatures,
}

module _ (add : List ℕ → Option (List ℕ)) (read : List ℕ → Option (List ℕ × List ℕ)) (bound : ℕ)
    (p : Prefixes add read bound) where
  -- What was written with a prefix reads back.
  pub reads_written : (b w rest : List ℕ) → add b ≡ some w → read (w ++ rest) ≡ some (b, rest)
  reads_written b w rest h = elim (Bool-cases (leb (length b) bound)) [
    | inl fits ↦
        let (w', adds, longer, reads) = p.writes b (ground arith) in
        let same : w' ≡ w = ground arith in rw (← same) (reads rest)
    | inr long ↦ let refused = p.refuses b (ground arith) in absurd (ground arith)
  ]

module _ (cb : Cryptobyte) (laws : CryptobyteLaws cb) where
  concat-length :
      (hs : List Hash) → All (λ h. length h ≡ 32) hs → length (concat hs) ≡ length hs * 32
  unfolding concat
  concat-length [] sized = refl
  concat-length (h ∷ hs) (here, sized) =
      omega (arith, length-append h (concat hs), here, concat-length hs sized)

  hash_loop-round :
      (fuel : ℕ) (h rest : List ℕ) (hs : List Hash)
      → length h ≡ 32
      → hash_loop cb fuel rest ≡ ok hs
      → hash_loop cb (suc fuel) (h ++ rest) ≡ ok (h ∷ hs)
  unfolding hash_loop
  hash_loop-round fuel [] rest hs sized later = absurd (omega (arith, sized))
  hash_loop-round fuel (c ∷ cs) rest hs sized later =
      rw (← sized, laws.copies (c ∷ cs) rest, later) refl

  hash_loop-concat :
      (fuel : ℕ) (hs : List Hash)
      → All (λ h. length h ≡ 32) hs
      → length (concat hs) < fuel
      → hash_loop cb fuel (concat hs) ≡ ok hs
  unfolding hash_loop concat
  hash_loop-concat zero hs sized enough = absurd (omega (arith, enough))
  hash_loop-concat (suc fuel) [] sized enough = refl
  hash_loop-concat (suc fuel) (h ∷ hs) (here, sized) enough =
      hash_loop-round fuel h (concat hs) hs here
        (hash_loop-concat fuel hs sized (omega (arith, enough, here, length-append h (concat hs))))

  record Built (ext_bytes : List ℕ) (p : Proof) (ws : List WireSig) (w : List ℕ) : Type 0 where
    exts : List ℕ
    hashes : List ℕ
    each : List ℕ
    sigs : List ℕ
    adds_exts : cb.add_uint16_prefixed ext_bytes ≡ some exts
    adds_hashes : cb.add_uint16_prefixed (concat p.inclusion_proof) ≡ some hashes
    adds_each : add_signatures cb ws ≡ ok each
    adds_sigs : cb.add_uint16_prefixed each ≡ some sigs
    shape : exts ++ (add_uint48 p.start ++ (add_uint48 p.end ++ (hashes ++ sigs))) ≡ w

  build-Built :
      (ext_bytes : List ℕ) (p : Proof) (ws : List WireSig) (w : List ℕ)
      → build cb ext_bytes p ws ≡ ok w
      → Built ext_bytes p ws w
  unfolding build
  build-Built ext_bytes p ws w h =
      let (exts, a1, h1) =
        ok_of_bind (or_err (cb.add_uint16_prefixed ext_bytes) builder_overflow) _ w h in
      let (hashes, a2, h2) =
        ok_of_bind (or_err (cb.add_uint16_prefixed (concat p.inclusion_proof)) builder_overflow) _ w
          h1 in
      let (each, a3, h3) = ok_of_bind (add_signatures cb ws) _ w h2 in
      let (sigs, a4, h4) =
        ok_of_bind (or_err (cb.add_uint16_prefixed each) builder_overflow) _ w h3 in
      record {
        exts = exts;
        hashes = hashes;
        each = each;
        sigs = sigs;
        adds_exts = some_of_or_err _ builder_overflow exts a1;
        adds_hashes = some_of_or_err _ builder_overflow hashes a2;
        adds_each = a3;
        adds_sigs = some_of_or_err _ builder_overflow sigs a4;
        shape = ground arith;
      }

  module _ (text : Text) where
    -- The checks of MarshalTLS, passed
    record Marshalled (p : Proof) (w : List ℕ) : Type 0 where
      start_fits : p.start ≤ max_uint48
      end_fits : p.end ≤ max_uint48
      ext_bytes : List ℕ
      marshals : marshal_entry_extensions cb p.extensions ≡ ok ext_bytes
      wires : List WireSig
      converts : wire_sigs text p.signatures ≡ ok wires
      distinct : check_distinct (sort_stable wire_less wires) ≡ ok tt
      built : Built ext_bytes p (sort_stable wire_less wires) w

    marshal_tls-Marshalled :
        (p : Proof) (w : List ℕ) → marshal_tls cb text p ≡ ok w → Marshalled p w
    unfolding marshal_tls
    marshal_tls-Marshalled p w h =
        let (t, range, h1) =
          ok_of_bind (guard (leb p.start max_uint48 && leb p.end max_uint48) out_of_range) _ w h in
        let (ext_bytes, exts, h2) =
          ok_of_bind (lift_err bad_extensions (marshal_entry_extensions cb p.extensions)) _ w h1 in
        let (u, short, h3) =
          ok_of_bind (guard (not (ltb 65535 (length p.inclusion_proof * 32))) proof_too_long) _ w
            h2 in
        let (wires, converts, h4) = ok_of_bind (wire_sigs text p.signatures) _ w h3 in
        let (v, distinct, h5) = ok_of_bind (check_distinct (sort_stable wire_less wires)) _ w h4 in
        let in_range = ok_of_guard _ out_of_range t range in
        record {
          start_fits = ground arith;
          end_fits = ground arith;
          ext_bytes = ext_bytes;
          marshals = ok_of_lift_err bad_extensions _ ext_bytes exts;
          wires = wires;
          converts = converts;
          distinct = distinct;
          built = build-Built ext_bytes p (sort_stable wire_less wires) w h5;
        }

    -- The signatures in the order in which they are written
    record Sorted (p : Proof) (ws : List WireSig) (each : List ℕ) : Type 0 where
      sorted : List MtcSignature
      permutes : Permᴰ sorted p.signatures
      reads : signature_loop cb text (suc (length each)) none each ≡ ok sorted

    Marshalled-Sorted :
        (p : Proof) (w : List ℕ) (m : Marshalled p w)
        → All (IdRoundTrip text) p.signatures
        → Sorted p m.wires m.built.each
    Marshalled-Sorted p w m ids =
        let c = wire_sigs-Conversions text p.signatures m.wires ids m.converts in
        let less = λ (a : Converted) (b : Converted). wire_less (wire a) (wire b) in
        let cs = sort_stable less c.list in
        let same : sort_stable wire_less m.wires ≡ map wire cs =
          ap (sort_stable wire_less) (sym c.wires)
          ∙ sort_stable-map less wire_less wire (λ a b. refl) c.list in
        let row =
          sorted_row cb (sort_stable wire_less m.wires)
            (sort_stable-Ascending wire_less wire_less-asymmetric m.wires) m.distinct in
        record {
          sorted = map signed_of cs;
          permutes = rw (← c.signatures) (Permᴰ.map signed_of (sort_stable-Permᴰ less c.list));
          reads =
              signature_loop-add_signatures text cb laws (suc (length m.built.each)) none cs
                m.built.each (All-sort_stable less (Fits text) c.list c.all_fit) (rw same at row)
                (rw same at m.built.adds_each) (omega arith);
        }

    -- A proof that MarshalTLS writes is what ParseMTCProof reads, its signatures in another order:
    -- where its hashes have 32 octets, its extension types 16 bits, and the cosigner IDs come back
    -- from their binary form.
    pub parse_mtc_proof-marshal_tls :
        (p : Proof) (w : List ℕ)
        → All (λ h. length h ≡ 32) p.inclusion_proof
        → All (λ e. e.kind < 2 ^ 16) p.extensions
        → All (IdRoundTrip text) p.signatures
        → marshal_tls cb text p ≡ ok w
        → (sigs : List MtcSignature) × Permᴰ sigs p.signatures
          × (parse_mtc_proof cb text w ≡ ok (record p { signatures = sigs }))
    unfolding parse_mtc_proof is_empty
    parse_mtc_proof-marshal_tls p w sized kinds ids h =
        let m = marshal_tls-Marshalled p w h in
        let b = m.built in
        let s = Marshalled-Sorted p w m ids in
        let read =
          reads_written cb.add_uint16_prefixed cb.read_uint16_prefixed 65535 laws.prefixes_uint16 in
        let r1 =
          read m.ext_bytes b.exts (add_uint48 p.start ++ (add_uint48 p.end ++ (b.hashes ++ b.sigs)))
            b.adds_exts in
        let exts =
          parse_entry_extensions-marshal_entry_extensions cb laws p.extensions m.ext_bytes kinds
            m.marshals in
        let r2 =
          read_uint48-add_uint48 cb laws p.start (add_uint48 p.end ++ (b.hashes ++ b.sigs))
            m.start_fits in
        let r3 = read_uint48-add_uint48 cb laws p.end (b.hashes ++ b.sigs) m.end_fits in
        let r4 = read (concat p.inclusion_proof) b.hashes b.sigs b.adds_hashes in
        let size : (length (concat p.inclusion_proof) % 32 == 0) ≡ true =
          ground (arith, concat-length p.inclusion_proof sized) in
        let hashes =
          hash_loop-concat (suc (length (concat p.inclusion_proof))) p.inclusion_proof sized
            (omega arith) in
        let r5 : cb.read_uint16_prefixed b.sigs ≡ some (b.each, []) =
          rw (append-nil b.sigs) at (read b.each b.sigs [] b.adds_sigs) in
        (
          s.sorted,
          s.permutes,
          rw (← b.shape) (rw (r1, exts, r2, r3, r4, size, hashes, r5, s.reads) refl),
        )
