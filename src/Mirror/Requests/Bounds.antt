-- ===== src/Mirror/Requests/Bounds.antt =====
-- The bounds of a request that the parser accepts (mirror/server.go: parseRequest).
use cactus.Prelude.{
  ℕ, ◌^◌, ◌≤◌, ◌<◌, ◌≡◌, inl, inr, refl, Bool, true, false, not, Option, none, some, List, [], ◌∷◌,
  ◌++◌, length, length-append, All, ltb, leb, ◌==◌, ◌&&◌, Bool-cases, ok, guard, or_err, lift_err,
  ok_of_bind, ok_of_guard, some_of_or_err, arith,
}
use cactus.Prelude.Dict.{str_eq}
use cactus.Tlogx.{Hash, IsHash}
use cactus.Mirror.Notes.{
  NoteSignature, lines_of, cut_prefix, em_dash, parse_note_signature_line, read_signed_note,
}
use cactus.Mirror.Requests.{
  ParsedRequest, leading_zero, bad_number, bad_base64, bad_hash_length, cosignature_after_proof,
  too_many_cosignatures, too_many_proof_lines, too_many_signatures, bad_body_lines, malformed_range,
  note, parse_digits, in_64_bits, parse_uint, starts_with_zero, parse_canonical_decimal, next_line,
  read_hash, read_range, read_section, read_checkpoint, parse_request, three, split_byte,
  subtree_word,
}

All-snoc : (l : List Hash) (x : Hash) → All IsHash l → IsHash x → All IsHash (l ++ (x ∷ []))
All-snoc [] x h k = (k, tt)
All-snoc (y ∷ ys) x (h, hs) k = (h, All-snoc ys x hs k)

length-snoc_bound :
    {A : Type 0} (l : List A) (x : A) (n : ℕ) → ltb (length l) n ≡ true → length (l ++ (x ∷ [])) ≤ n
length-snoc_bound l x n h = ground (arith, length-append l (x ∷ []))

bound_at : (m n : ℕ) → m ≡ n → m < 2 ^ 64 → n < 2 ^ 64
bound_at m n same h = rw (← same) h

sized_at : (g h : Hash) → g ≡ h → IsHash g → IsHash h
sized_at g h same k = rw (← same) k

in_64_bits_bound : (o : Option ℕ) (n : ℕ) → in_64_bits o ≡ some n → n < 2 ^ 64
unfolding in_64_bits
in_64_bits_bound none n h = absurd (ground arith)
in_64_bits_bound (some m) n h = elim (Bool-cases (ltb m (2 ^ 64))) [
  | inl small ↦ let same : m ≡ n = ground arith in ground arith
  | inr large ↦ absurd (ground arith)
]

parse_uint_bound : (s : List ℕ) (n : ℕ) → parse_uint s ≡ some n → n < 2 ^ 64
unfolding parse_uint
parse_uint_bound [] n h = absurd (ground arith)
parse_uint_bound (c ∷ cs) n h = in_64_bits_bound (parse_digits 0 (c ∷ cs)) n h

decimal_bound : (s : List ℕ) (n : ℕ) → parse_canonical_decimal s ≡ ok n → n < 2 ^ 64
unfolding parse_canonical_decimal
decimal_bound s n h =
    let (t, e, h1) =
      ok_of_bind (guard (not (ltb 1 (length s) && starts_with_zero s)) leading_zero) _ n h in
    parse_uint_bound s n (some_of_or_err (parse_uint s) bad_number n h1)

module _ (decode : List ℕ → Option (List ℕ)) where
  pub record WellFormed (p : ParsedRequest) : Type 0 where
    pub start_bound : p.start < 2 ^ 64
    pub end_bound : p.end < 2 ^ 64
    pub size_bound : p.checkpoint_size < 2 ^ 64
    pub hash_sized : IsHash p.subtree_hash
    pub root_sized : IsHash p.checkpoint_root
    pub proof_sized : All IsHash p.proof
    pub proof_bound : length p.proof ≤ 63
    pub cosigs_bound : length p.subtree_cosigs ≤ 8

  read_hash_sized : (line : List ℕ) (h : Hash) → read_hash decode line ≡ ok h → IsHash h
  unfolding read_hash
  read_hash_sized line h e =
      let (raw, e1, h1) = ok_of_bind (or_err (decode line) bad_base64) _ h e in
      let (t, e2, h2) = ok_of_bind (guard (length raw == 32) bad_hash_length) _ h h1 in
      let sized = ok_of_guard (length raw == 32) bad_hash_length t e2 in ground arith

  read_range_bounds :
      (line : List ℕ) (start end : ℕ)
      → read_range decode line ≡ ok (start, end)
      → (start < 2 ^ 64) × (end < 2 ^ 64)
  unfolding read_range
  read_range_bounds line start end e =
      let ((word, from, to), e1, h1) =
        ok_of_bind (or_err (three (split_byte b' ' line)) malformed_range) _ (start, end) e in
      let (t, e2, h2) =
        ok_of_bind (guard (str_eq word subtree_word) malformed_range) _ (start, end) h1 in
      let (s, e3, h3) = ok_of_bind (parse_canonical_decimal from) _ (start, end) h2 in
      let (r, e4, h4) = ok_of_bind (parse_canonical_decimal to) _ (start, end) h3 in
      let first : s ≡ start = ground arith in
      let second : r ≡ end = ground arith in
      (
        bound_at s start first (decimal_bound from s e3),
        bound_at r end second (decimal_bound to r e4),
      )

  read_section_bounds :
      (lines : List (List ℕ)) (cosigs : List NoteSignature) (proof : List Hash) (saw : Bool)
      (cs : List NoteSignature) (ps : List Hash) (rest : List (List ℕ))
      → All IsHash proof
      → length proof ≤ 63
      → length cosigs ≤ 8
      → read_section decode cosigs proof saw lines ≡ ok (cs, ps, rest)
      → All IsHash ps × (length ps ≤ 63) × (length cs ≤ 8)
  unfolding read_section
  read_section_bounds [] cosigs proof saw cs ps rest sized lp lc h = absurd (ground arith)
  read_section_bounds ([] ∷ ls) cosigs proof saw cs ps rest sized lp lc h =
      let same_cs : cosigs ≡ cs = ground arith in
      let same_ps : proof ≡ ps = ground arith in rw (← same_cs, ← same_ps) (sized, lp, lc)
  read_section_bounds ((b ∷ bs) ∷ ls) cosigs proof saw cs ps rest sized lp lc h =
      go (cut_prefix em_dash (b ∷ bs)) refl
        (λ cosigs' proof' saw'. read_section_bounds ls cosigs' proof' saw' cs ps rest)
    where
      go :
          (o : Option (List ℕ))
          → cut_prefix em_dash (b ∷ bs) ≡ o
          → ((cosigs' : List NoteSignature) (proof' : List Hash) (saw' : Bool)
              → All IsHash proof'
              → length proof' ≤ 63
              → length cosigs' ≤ 8
              → read_section decode cosigs' proof' saw' ls ≡ ok (cs, ps, rest)
              → All IsHash ps × (length ps ≤ 63) × (length cs ≤ 8))
          → All IsHash ps × (length ps ≤ 63) × (length cs ≤ 8)
      go (some text) e later =
          let h0 = rw (read_section, e) at h in
          let (t1, e1, h1) =
            ok_of_bind (guard (not saw) cosignature_after_proof) _ (cs, ps, rest) h0 in
          let (t2, e2, h2) =
            ok_of_bind (guard (ltb (length cosigs) 8) too_many_cosignatures) _ (cs, ps, rest) h1 in
          let (ns, e3, h3) =
            ok_of_bind (lift_err note (parse_note_signature_line decode (b ∷ bs))) _ (cs, ps, rest)
              h2 in
          later (cosigs ++ (ns ∷ [])) proof saw sized lp
            (length-snoc_bound cosigs ns 8 (ok_of_guard _ too_many_cosignatures t2 e2)) h3
      go none e later =
          let h0 = rw (read_section, e) at h in
          let (t1, e1, h1) =
            ok_of_bind (guard (ltb (length proof) 63) too_many_proof_lines) _ (cs, ps, rest) h0 in
          let (x, e2, h2) = ok_of_bind (read_hash decode (b ∷ bs)) _ (cs, ps, rest) h1 in
          later cosigs (proof ++ (x ∷ [])) true
            (All-snoc proof x sized (read_hash_sized (b ∷ bs) x e2))
            (length-snoc_bound proof x 63 (ok_of_guard _ too_many_proof_lines t1 e1)) lc h2

  read_checkpoint_bounds :
      (lines : List (List ℕ)) (origin : List ℕ) (size : ℕ) (root : Hash)
      → read_checkpoint decode lines ≡ ok (origin, size, root)
      → (size < 2 ^ 64) × IsHash root
  unfolding read_checkpoint
  read_checkpoint_bounds lines origin size root h =
      let (sn, e1, h1) =
        ok_of_bind (lift_err note (read_signed_note decode lines)) _ (origin, size, root) h in
      let (t, e2, h2) =
        ok_of_bind (guard (leb (length sn.sigs) 8) too_many_signatures) _ (origin, size, root) h1 in
      let ((a, b, c), e3, h3) =
        ok_of_bind (or_err (three sn.body) bad_body_lines) _ (origin, size, root) h2 in
      let (n, e4, h4) = ok_of_bind (parse_canonical_decimal b) _ (origin, size, root) h3 in
      let (r, e5, h5) = ok_of_bind (read_hash decode c) _ (origin, size, root) h4 in
      let first : n ≡ size = ground arith in
      let second : r ≡ root = ground arith in
      (
        bound_at n size first (decimal_bound b n e4),
        sized_at r root second (read_hash_sized c r e5),
      )

  -- In a request that the parser accepts, the bounds of the range and the size of the checkpoint
  -- have 64 bits, all hashes have 32 octets, and there are at most 63 hashes in the proof and at
  -- most 8 cosignatures of the subtree.
  pub parse_request-WellFormed :
      (body : List ℕ) (p : ParsedRequest) → parse_request decode body ≡ ok p → WellFormed p
  unfolding parse_request
  parse_request-WellFormed body p h =
      let ((l1, ls1), e1, h1) = ok_of_bind (next_line (lines_of body)) _ p h in
      let ((start, end), e2, h2) = ok_of_bind (read_range decode l1) _ p h1 in
      let ((l2, ls2), e3, h3) = ok_of_bind (next_line ls1) _ p h2 in
      let (hash, e4, h4) = ok_of_bind (read_hash decode l2) _ p h3 in
      let ((cs, ps, rest), e5, h5) = ok_of_bind (read_section decode [] [] false ls2) _ p h4 in
      let ((origin, size, root), e6, h6) = ok_of_bind (read_checkpoint decode rest) _ p h5 in
      let range = read_range_bounds l1 start end e2 in
      let section =
        read_section_bounds ls2 [] [] false cs ps rest tt (ground arith) (ground arith) e5 in
      let checkpoint = read_checkpoint_bounds rest origin size root e6 in
      let made : record {
        start = start;
        end = end;
        subtree_hash = hash;
        subtree_cosigs = cs;
        proof = ps;
        checkpoint_origin = origin;
        checkpoint_size = size;
        checkpoint_root = root;
      }
          ≡ p =
        ground arith in
      rw (← made) (record {
        start_bound = range.0;
        end_bound = range.1;
        size_bound = checkpoint.0;
        hash_sized = read_hash_sized l2 hash e4;
        root_sized = checkpoint.1;
        proof_sized = section.0;
        proof_bound = section.1;
        cosigs_bound = section.2;
      })
