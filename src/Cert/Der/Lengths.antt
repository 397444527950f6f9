-- ===== src/Cert/Der/Lengths.antt =====
-- stripDERHeader after wrapSequence (cert/entry.go).
use cactus.Prelude.{
  ℕ, suc, ◌+◌, ◌*◌, ◌/◌, ◌%◌, ◌^◌, ◌<◌, ◌≡◌, inl, inr, refl, false, List, ◌++◌, length,
  length-append, take-length, ltb, leb, ok, Bool-cases, arith, le→not-ltb,
}
use cactus.Cert.Der.{
  append_der_length, wrap_sequence, big_endian, strip_value, strip_long, strip_der_header,
}

strip_value-append :
    (hdr total : ℕ) (body rest : List ℕ)
    → hdr + length body ≡ total
    → strip_value hdr (length body) (body ++ rest) ≡ ok (total, body)
unfolding strip_value
strip_value-append hdr total body rest sum =
    let fits =
      le→not-ltb (length (body ++ rest)) (length body) (omega (arith, length-append body rest)) in
    rw (fits, take-length body rest, sum) refl

-- A value of less than 2 ^ 32 octets comes back from its sequence, whatever follows it, with the
-- number of octets of the whole sequence.
pub strip_der_header-wrap_sequence :
    (body rest : List ℕ)
    → length body < 2 ^ 32
    → strip_der_header (wrap_sequence body ++ rest) 0x30 ≡ ok (length (wrap_sequence body), body)
unfolding strip_der_header wrap_sequence append_der_length strip_long big_endian
strip_der_header-wrap_sequence body rest small =
    let n : ℕ = length body in
    let octets : ℕ = length (body ++ rest) in
    elim (Bool-cases (ltb (length body) 0x80)) [
      | inl one ↦
          let value : n % 256 ≡ n = ground arith in
          rw (one, value, one) (strip_value-append 2 (suc (suc (n))) body rest (ground arith))
      | inr b1 ↦ elim (Bool-cases (leb (length body) 0xff)) [
        | inl two ↦
            let value : 0 + n % 256 ≡ n = ground arith in
            let whole : ltb (suc (octets)) 1 ≡ false = ground arith in
            rw (b1, two, whole, value)
              (strip_value-append 3 (suc (suc (suc (n)))) body rest (ground arith))
        | inr b2 ↦ elim (Bool-cases (leb (length body) 0xffff)) [
          | inl three ↦
              let value : (0 + n / 2 ^ 8 % 256) * 256 + n % 256 ≡ n = ground arith in
              let whole : ltb (suc (suc (octets))) 2 ≡ false = ground arith in
              rw (b1, b2, three, whole, value)
                (strip_value-append 4 (suc (suc (suc (suc (n))))) body rest (ground arith))
          | inr b3 ↦ elim (Bool-cases (leb (length body) 0xffffff)) [
            | inl four ↦
                let value : ((0 + n / 2 ^ 16 % 256) * 256 + n / 2 ^ 8 % 256) * 256 + n % 256 ≡ n =
                  ground arith in
                let whole : ltb (suc (suc (suc (octets)))) 3 ≡ false = ground arith in
                rw (b1, b2, b3, four, whole, value)
                  (strip_value-append 5 (suc (suc (suc (suc (suc (n)))))) body rest (ground arith))
            | inr b4 ↦
                let value : (((0 + n / 2 ^ 24 % 256) * 256 + n / 2 ^ 16 % 256) * 256
                          + n / 2 ^ 8 % 256)
                        * 256
                      + n % 256
                    ≡ n =
                  ground arith in
                let whole : ltb (suc (suc (suc (suc (octets))))) 4 ≡ false = ground arith in
                rw (b1, b2, b3, b4, whole, value)
                  (strip_value-append 6 (suc (suc (suc (suc (suc (suc (n))))))) body rest
                    (ground arith))
          ]
        ]
      ]
    ]
