-- ===== src/Cert/Proof.antt =====
-- cert/proof.go: an MTCProof on the wire.
pub mod Order
pub mod Signatures
pub mod RoundTrip
mod Examples
use cactus.Prelude.{
  ℕ, zero, suc, ◌+◌, ◌*◌, ◌%◌, Bool, true, false, not, Option, none, some, List, [], ◌∷◌, ◌++◌,
  length, ltb, leb, ◌==◌, ◌&&◌, ◌||◌, if◌then◌else◌, Result, ok, err, panic, stuck, guard, or_err,
  lift_err, ◌>>=◌, ◌>>◌,
}
use cactus.Prelude.Dict.{str_eq}
use cactus.Prelude.Sorting.{sort_stable}
use cactus.Tlogx.{Hash}
use cactus.Log.{MtcSignature}
use cactus.Cert.TrustAnchorId.{Text, binary, from_binary, is_empty}
use cactus.Cert.TrustAnchorId as TrustAnchorId
use cactus.Cert.Wire.{Cryptobyte, max_uint48, add_uint48, read_uint48}
use cactus.Cert.Wire.Extensions.{Extension, marshal_entry_extensions, parse_entry_extensions}
use cactus.Cert.Wire.Extensions as Extensions

pub record Proof : Type 0 where
  pub extensions : List Extension
  pub start : ℕ
  pub end : ℕ
  pub inclusion_proof : List Hash
  pub signatures : List MtcSignature

pub data Error : Type 0 where
  out_of_range proof_too_long id_out_of_range signature_too_long duplicate_cosigner : Error
  builder_overflow short_read bad_proof_length copy_failed empty_cosigner not_sorted : Error
  trailing_bytes : Error
  bad_extensions : Extensions.Error → Error
  bad_cosigner_id : TrustAnchorId.Error → Error

-- `a < b` on strings
unfoldable pub str_lt : List ℕ → List ℕ → Bool
str_lt [] [] = false
str_lt [] (y ∷ ys) = true
str_lt (x ∷ xs) [] = false
str_lt (x ∷ xs) (y ∷ ys) = let rest = str_lt xs ys in if x == y then rest else ltb x y

unfoldable pub cosigner_id_less : List ℕ → List ℕ → Bool
unfolding str_lt
cosigner_id_less a b = if not (length a == length b) then ltb (length a) (length b) else str_lt a b

pub record WireSig : Type 0 where
  pub id : List ℕ
  pub sig : List ℕ

unfoldable pub wire_less : WireSig → WireSig → Bool
unfolding cosigner_id_less
wire_less a b = cosigner_id_less a.id b.id

unfoldable pub check_distinct : List WireSig → Result Error (Unit {0})
unfolding str_eq
check_distinct [] = ok tt
check_distinct (a ∷ []) = ok tt
check_distinct (a ∷ b ∷ ws) = do
  guard (not (str_eq b.id a.id)) duplicate_cosigner
  check_distinct (b ∷ ws)

unfoldable pub concat : List (List ℕ) → List ℕ
concat [] = []
concat (h ∷ hs) = h ++ concat hs

module _ (text : Text) where
  unfoldable pub wire_sigs : List MtcSignature → Result Error (List WireSig)
  unfolding binary
  wire_sigs [] = ok []
  wire_sigs (s ∷ ss) = do
    bin ← lift_err bad_cosigner_id (binary text s.cosigner_id)
    guard (not (ltb (length bin) 1 || ltb 255 (length bin))) id_out_of_range
    guard (not (ltb 65535 (length s.signature))) signature_too_long
    later ← wire_sigs ss
    ok (record { id = bin; sig = s.signature } ∷ later)

module _ (cb : Cryptobyte) where
  unfoldable pub add_signatures : List WireSig → Result Error (List ℕ)
  add_signatures [] = ok []
  add_signatures (w ∷ ws) = do
    id ← or_err (cb.add_uint8_prefixed w.id) builder_overflow
    sig ← or_err (cb.add_uint16_prefixed w.sig) builder_overflow
    later ← add_signatures ws
    ok (id ++ (sig ++ later))

  -- A length that does not fit its prefix shows in the Builder's Bytes, at the end.
  unfoldable pub build : List ℕ → Proof → List WireSig → Result Error (List ℕ)
  unfolding add_uint48 concat add_signatures
  build ext_bytes p wsigs = do
    exts ← or_err (cb.add_uint16_prefixed ext_bytes) builder_overflow
    hashes ← or_err (cb.add_uint16_prefixed (concat p.inclusion_proof)) builder_overflow
    each ← add_signatures wsigs
    sigs ← or_err (cb.add_uint16_prefixed each) builder_overflow
    ok (exts ++ (add_uint48 p.start ++ (add_uint48 p.end ++ (hashes ++ sigs))))

  unfoldable pub marshal_tls : Text → Proof → Result Error (List ℕ)
  unfolding marshal_entry_extensions wire_sigs sort_stable wire_less check_distinct build
  marshal_tls text p = do
    guard (leb p.start max_uint48 && leb p.end max_uint48) out_of_range
    ext_bytes ← lift_err bad_extensions (marshal_entry_extensions cb p.extensions)
    guard (not (ltb 65535 (length p.inclusion_proof * 32))) proof_too_long
    wsigs ← wire_sigs text p.signatures
    check_distinct (sort_stable wire_less wsigs)
    build ext_bytes p (sort_stable wire_less wsigs)

  -- Each round takes 32 octets: one more than there are is enough.
  unfoldable pub hash_loop : ℕ → List ℕ → Result Error (List Hash)
  hash_loop zero s = stuck
  hash_loop (suc fuel) [] = ok []
  hash_loop (suc fuel) (c ∷ cs) = do
    (h, rest) ← or_err (cb.copy_bytes 32 (c ∷ cs)) copy_failed
    later ← hash_loop fuel rest
    ok (h ∷ later)

  unfoldable pub check_cosigner : Option (List ℕ) → List ℕ → Result Error (Unit {0})
  unfolding cosigner_id_less str_eq
  check_cosigner none id = ok tt
  check_cosigner (some before) id = do
    guard (not (str_eq before id)) duplicate_cosigner
    guard (not (cosigner_id_less id before)) not_sorted

  -- Each round takes octets: one more than there are is enough.
  unfoldable pub signature_loop :
      Text → ℕ → Option (List ℕ) → List ℕ → Result Error (List MtcSignature)
  unfolding check_cosigner from_binary is_empty
  signature_loop text zero before s = stuck
  signature_loop text (suc fuel) before [] = ok []
  signature_loop text (suc fuel) before (c ∷ cs) = do
    (bin, s) ← or_err (cb.read_uint8_prefixed (c ∷ cs)) short_read
    guard (not (is_empty bin)) empty_cosigner
    check_cosigner before bin
    id ← lift_err bad_cosigner_id (from_binary text bin)
    (sig, rest) ← or_err (cb.read_uint16_prefixed s) short_read
    later ← signature_loop text fuel (some bin) rest
    ok (record { cosigner_id = id; signature = sig } ∷ later)

  unfoldable pub parse_mtc_proof : Text → List ℕ → Result Error Proof
  unfolding parse_entry_extensions read_uint48 hash_loop signature_loop is_empty
  parse_mtc_proof text octets = do
    (ext_bytes, s1) ← or_err (cb.read_uint16_prefixed octets) short_read
    exts ← lift_err bad_extensions (parse_entry_extensions cb ext_bytes)
    (start, s2) ← or_err (read_uint48 cb s1) short_read
    (end, s3) ← or_err (read_uint48 cb s2) short_read
    (ip_bytes, s4) ← or_err (cb.read_uint16_prefixed s3) short_read
    guard (length ip_bytes % 32 == 0) bad_proof_length
    hashes ← hash_loop (suc (length ip_bytes)) ip_bytes
    (sig_bytes, s5) ← or_err (cb.read_uint16_prefixed s4) short_read
    sigs ← signature_loop text (suc (length sig_bytes)) none sig_bytes
    guard (is_empty s5) trailing_bytes
    ok (record {
      extensions = exts;
      start = start;
      end = end;
      inclusion_proof = hashes;
      signatures = sigs;
    })
