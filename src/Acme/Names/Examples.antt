-- ===== src/Acme/Names/Examples.antt =====
-- Names that are accepted and names that are not.
use cactus.Prelude.{ℕ, ◌≡◌, refl, true, false, List, [], ◌∷◌}
use cactus.Acme.Names.{valid_dns_name}
use cactus.Acme.Names.Safe.{SafeName, valid_dns_name-SafeName}

-- a.b:80
abbrev name : List ℕ
name = b'a' ∷ b'.' ∷ b'b' ∷ b':' ∷ b'8' ∷ b'0' ∷ []

accepted : valid_dns_name name ≡ true
unfolding valid_dns_name
accepted = refl

-- a/b, and a name with an empty label
refused :
    (valid_dns_name (b'a' ∷ b'/' ∷ b'b' ∷ []) ≡ false)
    × (valid_dns_name (b'a' ∷ b'.' ∷ b'.' ∷ b'b' ∷ []) ≡ false)
unfolding valid_dns_name
refused = (refl, refl)

valid_dns_name-SafeName_example : SafeName name
valid_dns_name-SafeName_example = valid_dns_name-SafeName name accepted
