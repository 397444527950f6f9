-- ===== src/Cert/Signing/Timestamps.antt =====
-- Timestamped signatures (cert/keyid.go).
use cactus.Prelude.{ℕ, suc, ◌^◌, ◌<◌, ◌≡◌, refl, false, List, length, ltb, ok, arith}
use cactus.Cert.Signing.{
  big_endian_64, from_big_endian, marshal_timestamped_signature, parse_timestamped_signature,
}

from_big_endian-big_endian_64 : (v : ℕ) → v < 2 ^ 64 → from_big_endian 0 (big_endian_64 v) ≡ v
unfolding from_big_endian big_endian_64
from_big_endian-big_endian_64 v h = ground arith

-- A timestamp of 64 bits and a signature come back from their timestamped signature.
pub parse_timestamped_signature-marshal :
    (timestamp : ℕ) (sig : List ℕ)
    → timestamp < 2 ^ 64
    → parse_timestamped_signature (marshal_timestamped_signature timestamp sig)
      ≡ ok (timestamp, sig)
unfolding parse_timestamped_signature marshal_timestamped_signature big_endian_64
parse_timestamped_signature-marshal timestamp sig h =
    let long : ltb (suc (suc (suc (suc (suc (suc (suc (suc (length sig))))))))) 8 ≡ false =
      ground arith in
    rw (long, from_big_endian-big_endian_64 timestamp h) refl
