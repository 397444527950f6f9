-- ===== src/Cert/Proof/Order.antt =====
-- The order of cosigner IDs (cert/proof.go).
use cactus.Prelude.{
  ℕ, ◌≡◌, inl, inr, refl, true, false, not, Option, none, some, List, [], ◌∷◌, Bool-cases, Result,
  ok, guard, ok_of_bind, ok_of_guard, ◌>>◌, arith,
}
use cactus.Prelude.Dict.{str_eq, str_eq_iff}
use cactus.Prelude.Sorting.{Ascending}
use cactus.Cert.Proof.{
  Error, duplicate_cosigner, str_lt, cosigner_id_less, WireSig, wire_less, check_distinct,
  check_cosigner,
}
use cactus.Cert.Wire.{Cryptobyte}

pub str_lt-asymmetric : (a b : List ℕ) → str_lt a b ≡ true → str_lt b a ≡ false
unfolding str_lt
str_lt-asymmetric [] [] h = refl
str_lt-asymmetric [] (y ∷ ys) h = refl
str_lt-asymmetric (x ∷ xs) [] h = absurd (ground arith)
str_lt-asymmetric (x ∷ xs) (y ∷ ys) h = elim (Bool-cases (str_lt xs ys)) [
  | inl below ↦ let back = str_lt-asymmetric xs ys below in ground arith
  | inr other ↦ ground arith
]

cosigner_id_less-asymmetric :
    (a b : List ℕ) → cosigner_id_less a b ≡ true → cosigner_id_less b a ≡ false
unfolding cosigner_id_less
cosigner_id_less-asymmetric a b h = elim (Bool-cases (str_lt a b)) [
  | inl below ↦ let back = str_lt-asymmetric a b below in ground arith
  | inr other ↦ ground arith
]

pub wire_less-asymmetric : (v w : WireSig) → wire_less v w ≡ true → wire_less w v ≡ false
unfolding wire_less
wire_less-asymmetric v w h = cosigner_id_less-asymmetric v.id w.id h

-- What the parser asks of IDs in a row
abbrev pub check_row : Cryptobyte → Option (List ℕ) → List WireSig → Result Error (Unit {0})
check_row cb before [] = ok tt
check_row cb before (w ∷ ws) = check_cosigner cb before w.id >> check_row cb (some w.id) ws

pub Ascending-check_row :
    (cb : Cryptobyte) (w : WireSig) (ws : List WireSig)
    → Ascending wire_less (w ∷ ws)
    → check_distinct (w ∷ ws) ≡ ok tt
    → check_row cb (some w.id) ws ≡ ok tt
unfolding check_distinct check_cosigner wire_less
Ascending-check_row cb w [] asc distinct = refl
Ascending-check_row cb w (v ∷ vs) (first, rest) distinct =
    let (t, differ, later) =
      ok_of_bind (guard (not (str_eq v.id w.id)) duplicate_cosigner) _ tt distinct in
    let fresh : str_eq w.id v.id ≡ false = ground (
      arith,
      ok_of_guard (not (str_eq v.id w.id)) duplicate_cosigner t differ,
      str_eq_iff v.id w.id,
      str_eq_iff w.id v.id,
    ) in
    rw (fresh, first) (Ascending-check_row cb v vs rest later)

pub sorted_row :
    (cb : Cryptobyte) (ws : List WireSig)
    → Ascending wire_less ws
    → check_distinct ws ≡ ok tt
    → check_row cb none ws ≡ ok tt
unfolding check_cosigner
sorted_row cb [] asc distinct = refl
sorted_row cb (w ∷ ws) asc distinct = Ascending-check_row cb w ws asc distinct
