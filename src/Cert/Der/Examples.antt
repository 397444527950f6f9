-- ===== src/Cert/Der/Examples.antt =====
-- A sequence of two octets, and one long enough for a second length octet.
use cactus.Prelude.{◌≡◌, refl, [], ◌∷◌, ◌++◌, length, ok, arith}
use cactus.Cert.Der.{append_der_length, wrap_sequence, strip_der_header}
use cactus.Cert.Der.Lengths.{strip_der_header-wrap_sequence}

wrapped : wrap_sequence (5 ∷ 6 ∷ []) ≡ 0x30 ∷ 2 ∷ 5 ∷ 6 ∷ []
unfolding wrap_sequence
wrapped = refl

lengths : append_der_length [] 300 ≡ 0x82 ∷ 1 ∷ 44 ∷ []
unfolding append_der_length
lengths = refl

strip_der_header-wrap_sequence_example :
    strip_der_header (wrap_sequence (5 ∷ 6 ∷ []) ++ (7 ∷ [])) 0x30
    ≡ ok (length (wrap_sequence (5 ∷ 6 ∷ [])), 5 ∷ 6 ∷ [])
strip_der_header-wrap_sequence_example =
    strip_der_header-wrap_sequence (5 ∷ 6 ∷ []) (7 ∷ []) (omega arith)
