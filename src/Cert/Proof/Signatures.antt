-- ===== src/Cert/Proof/Signatures.antt =====
-- The signatures of an MTCProof, written and read back (cert/proof.go).
use cactus.Prelude.{
  ℕ, zero, suc, ◌≤◌, ◌<◌, ◌≡◌, refl, false, not, Option, some, List, [], ◌∷◌, ◌++◌, map, length,
  length-append, ltb, ◌||◌, All, Result, ok, guard, or_err, lift_err, ok_of_bind, ok_of_guard,
  ◌>>=◌, ◌>>◌, arith, ap, ◌∙◌,
}
use cactus.Log.{MtcSignature}
use cactus.Cert.TrustAnchorId.{Text, binary, from_binary, is_empty}
use cactus.Cert.Wire.{Cryptobyte, CryptobyteLaws}
use cactus.Cert.Proof.{
  Error, short_read, empty_cosigner, bad_cosigner_id, id_out_of_range, signature_too_long, WireSig,
  wire_sigs, add_signatures, check_cosigner, signature_loop,
}
use cactus.Cert.Proof.Order.{check_row}

-- A signature with the binary form of its cosigner's ID
pub record Converted : Type 0 where
  pub bin : List ℕ
  pub signed : MtcSignature

abbrev pub wire : Converted → WireSig
wire c = record { id = c.bin; sig = c.signed.signature }

abbrev pub signed_of : Converted → MtcSignature
signed_of c = c.signed

module _ (text : Text) where
  -- TrustAnchorIDFromBinary takes the binary form of the ID back to the ID.
  abbrev pub IdRoundTrip : MtcSignature → Type 0
  IdRoundTrip s =
      (b : List ℕ) × (binary text s.cosigner_id ≡ ok b) × (from_binary text b ≡ ok s.cosigner_id)

  pub record Fits (c : Converted) : Type 0 where
    pub nonempty : is_empty c.bin ≡ false
    pub id_fits : length c.bin ≤ 255
    pub sig_fits : length c.signed.signature ≤ 65535
    pub back : from_binary text c.bin ≡ ok c.signed.cosigner_id

  pub record Conversions (ss : List MtcSignature) (ws : List WireSig) : Type 0 where
    pub list : List Converted
    pub wires : map wire list ≡ ws
    pub signatures : map signed_of list ≡ ss
    pub all_fit : All Fits list

  is_empty-length : (b : List ℕ) → ltb (length b) 1 ≡ false → is_empty b ≡ false
  unfolding is_empty
  is_empty-length [] h = absurd (ground arith)
  is_empty-length (c ∷ cs) h = refl

  pub wire_sigs-Conversions :
      (ss : List MtcSignature) (ws : List WireSig)
      → All IdRoundTrip ss
      → wire_sigs text ss ≡ ok ws
      → Conversions ss ws
  unfolding wire_sigs
  wire_sigs-Conversions [] ws ids h = record {
    list = [];
    wires = ground arith;
    signatures = refl;
    all_fit = tt;
  }
  wire_sigs-Conversions (s ∷ ss) ws ((bin, to_bin, back), ids) h =
      let (t, in_range, h1) =
        ok_of_bind (guard (not (ltb (length bin) 1 || ltb 255 (length bin))) id_out_of_range) _ ws
          (rw to_bin at h) in
      let (u, short, h2) =
        ok_of_bind (guard (not (ltb 65535 (length s.signature))) signature_too_long) _ ws h1 in
      let (later, rest, h3) = ok_of_bind (wire_sigs text ss) _ ws h2 in
      let more = wire_sigs-Conversions ss later ids rest in
      let c : Converted = record { bin = bin; signed = s } in
      let g1 = ok_of_guard _ id_out_of_range t in_range in
      let g2 = ok_of_guard _ signature_too_long u short in
      let shape : wire c ∷ later ≡ ws = ground arith in
      record {
        list = c ∷ more.list;
        wires = ap (λ l. wire c ∷ l) more.wires ∙ shape;
        signatures = ap (λ l. s ∷ l) more.signatures;
        all_fit = (
          record {
            nonempty = is_empty-length bin (ground arith);
            id_fits = ground arith;
            sig_fits = ground arith;
            back = back;
          },
          more.all_fit,
        );
      }

  module _ (cb : Cryptobyte) (laws : CryptobyteLaws cb) where
    abbrev signature_round : ℕ → Option (List ℕ) → List ℕ → Result Error (List MtcSignature)
    signature_round fuel before octets = do
      (bin, s) ← or_err (cb.read_uint8_prefixed octets) short_read
      guard (not (is_empty bin)) empty_cosigner
      check_cosigner cb before bin
      id ← lift_err bad_cosigner_id (from_binary text bin)
      (sig, rest) ← or_err (cb.read_uint16_prefixed s) short_read
      later ← signature_loop cb text fuel (some bin) rest
      ok (record { cosigner_id = id; signature = sig } ∷ later)

    signature_loop-round :
        (fuel : ℕ) (before : Option (List ℕ)) (s : List ℕ)
        → 0 < length s
        → signature_loop cb text (suc fuel) before s ≡ signature_round fuel before s
    unfolding signature_loop
    signature_loop-round fuel before [] h = absurd (omega arith)
    signature_loop-round fuel before (c ∷ cs) h = refl

    pub signature_loop-add_signatures :
        (fuel : ℕ) (before : Option (List ℕ)) (cs : List Converted) (octets : List ℕ)
        → All Fits cs
        → check_row cb before (map wire cs) ≡ ok tt
        → add_signatures cb (map wire cs) ≡ ok octets
        → length octets < fuel
        → signature_loop cb text fuel before octets ≡ ok (map signed_of cs)
    unfolding signature_loop add_signatures
    signature_loop-add_signatures zero before cs octets fits row h enough =
        absurd (omega (arith, enough))
    signature_loop-add_signatures (suc fuel) before [] octets fits row h enough =
        let e : [] ≡ octets = ground arith in rw (← e) refl
    signature_loop-add_signatures (suc fuel) before (c ∷ cs) octets (fit, fits) row h enough =
        let (id, adds_id, longer, reads_id) = laws.prefixes_uint8.writes c.bin fit.id_fits in
        let (sig, adds_sig, longer', reads_sig) =
          laws.prefixes_uint16.writes c.signed.signature fit.sig_fits in
        let h1 : (add_signatures cb (map wire cs) >>= λ later. ok (id ++ (sig ++ later)))
            ≡ ok octets =
          rw (add_signatures, adds_id, adds_sig) at h in
        let (later, adds_later, made) = ok_of_bind (add_signatures cb (map wire cs)) _ octets h1 in
        let shape : id ++ (sig ++ later) ≡ octets = ground arith in
        let (t, checked, row') = ok_of_bind (check_cosigner cb before c.bin) _ tt row in
        let size : length (id ++ (sig ++ later)) < suc fuel = rw (← shape) at enough in
        let split = length-append id (sig ++ later) in
        let split' = length-append sig later in
        let rest =
          signature_loop-add_signatures fuel (some c.bin) cs later fits row' adds_later
            (omega (arith, size, split, split', longer)) in
        rw (← shape) (
          signature_loop-round fuel before (id ++ (sig ++ later)) (omega (arith, split, longer))
          ∙ rw (reads_id (sig ++ later), fit.back, fit.nonempty, checked, reads_sig later, rest)
              refl)
