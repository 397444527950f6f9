-- ===== src/Cert/Wire/Uint48.antt =====
-- readUint48 after addUint48 (cert/proof.go).
use cactus.Prelude.{ℕ, ◌≤◌, ◌≡◌, refl, some, List, ◌++◌, arith}
use cactus.Cert.Wire.{Cryptobyte, CryptobyteLaws, max_uint48, add_uint48, from_octets, read_uint48}

from_octets-add_uint48 : (v : ℕ) → v ≤ max_uint48 → from_octets 0 (add_uint48 v) ≡ v
unfolding from_octets add_uint48
from_octets-add_uint48 v h = ground arith

pub read_uint48-add_uint48 :
    (cb : Cryptobyte) (laws : CryptobyteLaws cb) (v : ℕ) (rest : List ℕ)
    → v ≤ max_uint48
    → read_uint48 cb (add_uint48 v ++ rest) ≡ some (v, rest)
unfolding read_uint48 add_uint48
read_uint48-add_uint48 cb laws v rest h =
    rw (read_uint48, laws.copies (add_uint48 v) rest, from_octets-add_uint48 v h) refl
