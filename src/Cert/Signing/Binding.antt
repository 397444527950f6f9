-- ===== src/Cert/Signing/Binding.antt =====
-- A cosigner's message names one cosigner and one subtree (cert/proof.go, MarshalSignatureInput).
use cactus.Prelude.{
  ℕ, ◌^◌, ◌<◌, ◌≡◌, refl, sym, not, Option, some, List, ◌++◌, length, take, drop, take-length,
  drop-length, ltb, ◌||◌, ok, guard, or_err, ok_of_bind, some_of_or_err, arith, ap, ◌∙◌,
}
use cactus.Log.{MtcSubtree}
use cactus.Cert.Wire.{Cryptobyte, CryptobyteLaws}
use cactus.Cert.Proof.RoundTrip.{reads_written}
use cactus.Cert.Signing.{
  name_out_of_range, origin_out_of_range, builder_overflow, oid_name, subtree_signature_label,
  marshal_signature_input,
}

module _ {A : Type 0} where
  take-same :
      (xs ys us vs : List A) → length xs ≡ length ys → xs ++ us ≡ ys ++ vs → (xs ≡ ys) × (us ≡ vs)
  take-same xs ys us vs same e = (
    sym (take-length xs us) ∙ rw same (ap (take (length ys)) e) ∙ take-length ys vs,
    sym (drop-length xs us) ∙ rw same (ap (drop (length ys)) e) ∙ drop-length ys vs,
  )

some_pair :
    (a b c d : List ℕ)
    → ◌≡◌ {A = Option (List ℕ × List ℕ)} (some (a, b)) (some (c, d))
    → (a ≡ c) × (b ≡ d)
some_pair a b c d e = (ground arith, ground arith)

module _ (cb : Cryptobyte) (laws : CryptobyteLaws cb) where
  record Message (id : List ℕ) (st : MtcSubtree) (msg : List ℕ) : Type 0 where
    name : List ℕ
    origin : List ℕ
    adds_name : cb.add_uint8_prefixed (oid_name id) ≡ some name
    adds_origin : cb.add_uint8_prefixed (oid_name st.log_id) ≡ some origin
    shape :
        subtree_signature_label
          ++ (name
              ++ (cb.add_uint64 0
                  ++ (origin ++ (cb.add_uint64 st.start ++ (cb.add_uint64 st.end ++ st.hash)))))
        ≡ msg

  marshal_signature_input-Message :
      (id : List ℕ) (st : MtcSubtree) (msg : List ℕ)
      → marshal_signature_input cb id st ≡ ok msg
      → Message id st msg
  unfolding marshal_signature_input
  marshal_signature_input-Message id st msg h =
      let named = oid_name id in
      let origined = oid_name st.log_id in
      let (t, a, h1) =
        ok_of_bind (guard (not (ltb (length named) 1 || ltb 255 (length named))) name_out_of_range)
          _ msg h in
      let (u, b, h2) =
        ok_of_bind
          (guard (not (ltb (length origined) 1 || ltb 255 (length origined))) origin_out_of_range) _
          msg h1 in
      let (name, c, h3) =
        ok_of_bind (or_err (cb.add_uint8_prefixed named) builder_overflow) _ msg h2 in
      let (origin, d, h4) =
        ok_of_bind (or_err (cb.add_uint8_prefixed origined) builder_overflow) _ msg h3 in
      record {
        name = name;
        origin = origin;
        adds_name = some_of_or_err _ builder_overflow name c;
        adds_origin = some_of_or_err _ builder_overflow origin d;
        shape = ground arith;
      }

  -- One prefix read from two equal texts
  read_same :
      (b b' w w' us vs : List ℕ)
      → cb.add_uint8_prefixed b ≡ some w
      → cb.add_uint8_prefixed b' ≡ some w'
      → w ++ us ≡ w' ++ vs
      → (b ≡ b') × (us ≡ vs)
  read_same b b' w w' us vs h h' e =
      let read =
        reads_written cb.add_uint8_prefixed cb.read_uint8_prefixed 255 laws.prefixes_uint8 in
      some_pair b us b' vs (sym (read b w us h) ∙ ap cb.read_uint8_prefixed e ∙ read b' w' vs h')

  oid_name-injective : (a b : List ℕ) → oid_name a ≡ oid_name b → a ≡ b
  unfolding oid_name
  oid_name-injective a b e = ap (drop 16) e

  -- Equal messages are of one cosigner, one log, one range and one hash; the bounds of a range
  -- have 64 bits.
  pub marshal_signature_input-injective :
      (id id' : List ℕ) (st st' : MtcSubtree) (msg : List ℕ)
      → st.start < 2 ^ 64
      → st.end < 2 ^ 64
      → st'.start < 2 ^ 64
      → st'.end < 2 ^ 64
      → marshal_signature_input cb id st ≡ ok msg
      → marshal_signature_input cb id' st' ≡ ok msg
      → (id ≡ id')
        × ((st.log_id ≡ st'.log_id)
            × ((st.start ≡ st'.start) × ((st.end ≡ st'.end) × (st.hash ≡ st'.hash))))
  marshal_signature_input-injective id id' st st' msg hs he hs' he' h h' =
      let m = marshal_signature_input-Message id st msg h in
      let m' = marshal_signature_input-Message id' st' msg h' in
      let eights = λ (v w : ℕ). laws.uint64_eight v ∙ sym (laws.uint64_eight w) in
      let (label, e1) =
        take-same subtree_signature_label subtree_signature_label _ _ refl
          (m.shape ∙ sym m'.shape) in
      let (names, e2) = read_same _ _ m.name m'.name _ _ m.adds_name m'.adds_name e1 in
      let (zeros, e3) = take-same (cb.add_uint64 0) (cb.add_uint64 0) _ _ refl e2 in
      let (origins, e4) = read_same _ _ m.origin m'.origin _ _ m.adds_origin m'.adds_origin e3 in
      let (starts, e5) =
        take-same (cb.add_uint64 st.start) (cb.add_uint64 st'.start) _ _ (eights st.start st'.start)
          e4 in
      let (ends, hashes) =
        take-same (cb.add_uint64 st.end) (cb.add_uint64 st'.end) _ _ (eights st.end st'.end) e5 in
      (
        oid_name-injective id id' names,
        (
          oid_name-injective st.log_id st'.log_id origins,
          (
            laws.uint64_injective st.start st'.start hs hs' starts,
            (laws.uint64_injective st.end st'.end he he' ends, hashes),
          ),
        ),
      )
