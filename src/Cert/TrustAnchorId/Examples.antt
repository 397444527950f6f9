-- ===== src/Cert/TrustAnchorId/Examples.antt =====
-- A trust anchor ID of two arcs, and one whose second arc does not come back.
use cactus.Prelude.{
  ℕ, ◌+◌, ◌-◌, ◌≡◌, refl, Option, none, some, List, [], ◌∷◌, ◌++◌, ok, err, false, arith,
}
use cactus.Cert.TrustAnchorId.{
  Text, overflows, is_empty, append_base128, continue_loop, append_arcs, binary, decode_octet,
  decode_loop, from_binary,
}
use cactus.Cert.TrustAnchorId.RoundTrip.{Arc, from_binary-binary}

-- Each number is one sign, and the signs stand without dots.
abbrev pub signs : Text
signs = record {
  split = separate;
  join = joined;
  parse_uint = number;
  format_uint = λ v. (v + 1) ∷ [];
}
  where
    separate : List ℕ → List (List ℕ)
    separate [] = []
    separate (c ∷ cs) = (c ∷ []) ∷ separate cs

    joined : List (List ℕ) → List ℕ
    joined [] = []
    joined (p ∷ ps) = p ++ joined ps

    number : List ℕ → Option ℕ
    number [] = none
    number (c ∷ cs) = some (c - 1)

-- The example of the source's comment, 32473.1
source_example : binary signs (32474 ∷ 2 ∷ []) ≡ ok (129 ∷ 253 ∷ 89 ∷ 1 ∷ [])
unfolding binary append_arcs append_base128 continue_loop is_empty
source_example = refl

source_decoded : from_binary signs (129 ∷ 253 ∷ 89 ∷ 1 ∷ []) ≡ ok (32474 ∷ 2 ∷ [])
unfolding from_binary decode_loop decode_octet is_empty
source_decoded = refl

arc_one : Arc signs (2 ∷ [])
unfolding is_empty
arc_one = record { nonempty = refl; value = 1; parsed = refl; formatted = refl; fits = omega arith }

arc_largest : Arc signs (18446744073709551616 ∷ [])
unfolding is_empty
arc_largest = record {
  nonempty = refl;
  value = 18446744073709551615;
  parsed = refl;
  formatted = refl;
  fits = omega arith;
}

some_sign : is_empty (2 ∷ 18446744073709551616 ∷ []) ≡ false
unfolding is_empty
some_sign = refl

from_binary-binary_example :
    (b : List ℕ) × (binary signs (2 ∷ 18446744073709551616 ∷ []) ≡ ok b)
    × (from_binary signs b ≡ err overflows)
unfolding arc_one arc_largest
from_binary-binary_example =
    from_binary-binary signs (2 ∷ 18446744073709551616 ∷ []) (arc_one, (arc_largest, tt)) some_sign
      (λ e. ground arith) refl
