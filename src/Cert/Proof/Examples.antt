-- ===== src/Cert/Proof/Examples.antt =====
-- A proof with an extension, a hash and two signatures, and the theorems of the wire formats
-- at it.
use mathlib.Core.List.{Permᴰ}
use cactus.Prelude.{ℕ, ◌≡◌, refl, List, [], ◌∷◌, ◌++◌, ok, arith}
use cactus.Log.{MtcSignature}
use cactus.Cert.TrustAnchorId.{
  binary, from_binary, is_empty, append_arcs, append_base128, continue_loop, decode_loop,
  decode_octet,
}
use cactus.Cert.TrustAnchorId.Examples.{signs}
use cactus.Cert.Wire.Octets.{octets, octets-CryptobyteLaws}
use cactus.Cert.Wire.Extensions.{marshal_entry_extensions, parse_entry_extensions}
use cactus.Cert.Wire.Extensions.RoundTrip.{parse_entry_extensions-marshal_entry_extensions}
use cactus.Cert.Proof.{Proof, marshal_tls, parse_mtc_proof}
use cactus.Cert.Proof.Signatures.{IdRoundTrip}
use cactus.Cert.Proof.RoundTrip.{parse_mtc_proof-marshal_tls}

abbrev eight : List ℕ
eight = 0 ∷ 0 ∷ 0 ∷ 0 ∷ 0 ∷ 0 ∷ 0 ∷ 0 ∷ []

abbrev a_hash : List ℕ
a_hash = eight ++ (eight ++ (eight ++ eight))

abbrev signature_of : ℕ → ℕ → MtcSignature
signature_of sign octet = record { cosigner_id = sign ∷ []; signature = octet ∷ [] }

abbrev two_signed : Proof
two_signed = record {
  extensions = record { kind = 3; octets = 1 ∷ [] } ∷ [];
  start = 0;
  end = 2;
  inclusion_proof = a_hash ∷ [];
  signatures = signature_of 3 8 ∷ signature_of 2 7 ∷ [];
}

abbrev on_the_wire : List ℕ
on_the_wire =
    0 ∷ 5 ∷ 0 ∷ 3 ∷ 0 ∷ 1 ∷ 1 ∷ 0 ∷ 0 ∷ 0 ∷ 0 ∷ 0 ∷ 0 ∷ 0 ∷ 0 ∷ 0 ∷ 0 ∷ 0 ∷ 2 ∷ 0 ∷ 32 ∷ a_hash
    ++ (0 ∷ 10 ∷ 1 ∷ 1 ∷ 0 ∷ 1 ∷ 7 ∷ 1 ∷ 2 ∷ 0 ∷ 1 ∷ 8 ∷ [])

two_signed-marshals : marshal_tls octets signs two_signed ≡ ok on_the_wire
unfolding marshal_tls is_empty append_arcs append_base128 continue_loop
two_signed-marshals = refl

two-IdRoundTrip : IdRoundTrip signs (signature_of 2 7)
unfolding binary from_binary is_empty append_arcs append_base128 continue_loop decode_loop
    decode_octet
two-IdRoundTrip = (1 ∷ [], refl, refl)

three-IdRoundTrip : IdRoundTrip signs (signature_of 3 8)
unfolding binary from_binary is_empty append_arcs append_base128 continue_loop decode_loop
    decode_octet
three-IdRoundTrip = (2 ∷ [], refl, refl)

parse_mtc_proof-marshal_tls_example :
    (sigs : List MtcSignature) × Permᴰ sigs (signature_of 3 8 ∷ signature_of 2 7 ∷ [])
    × (parse_mtc_proof octets signs on_the_wire ≡ ok (record two_signed { signatures = sigs }))
parse_mtc_proof-marshal_tls_example =
    parse_mtc_proof-marshal_tls octets octets-CryptobyteLaws signs two_signed on_the_wire (refl, tt)
      (omega arith, tt) (three-IdRoundTrip, (two-IdRoundTrip, tt)) two_signed-marshals

two_extensions-marshal :
    marshal_entry_extensions octets
      (record { kind = 3; octets = 1 ∷ [] } ∷ record { kind = 4; octets = [] } ∷ [])
    ≡ ok (0 ∷ 3 ∷ 0 ∷ 1 ∷ 1 ∷ 0 ∷ 4 ∷ 0 ∷ 0 ∷ [])
unfolding marshal_entry_extensions
two_extensions-marshal = refl

parse_entry_extensions-marshal_entry_extensions_example :
    parse_entry_extensions octets (0 ∷ 3 ∷ 0 ∷ 1 ∷ 1 ∷ 0 ∷ 4 ∷ 0 ∷ 0 ∷ [])
    ≡ ok (record { kind = 3; octets = 1 ∷ [] } ∷ record { kind = 4; octets = [] } ∷ [])
parse_entry_extensions-marshal_entry_extensions_example =
    parse_entry_extensions-marshal_entry_extensions octets octets-CryptobyteLaws
      (record { kind = 3; octets = 1 ∷ [] } ∷ record { kind = 4; octets = [] } ∷ []) _
      (omega arith, (omega arith, tt)) two_extensions-marshal
