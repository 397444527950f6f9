-- ===== src/Acme/Names/Safe.antt =====
-- What validDNSName lets through (acme/handler.go): nothing that could put a path, a query or
-- a user into a URL.
use cactus.Prelude.{
  ℕ, ◌≤◌, ◌≡◌, inl, inr, ap, true, some, List, [], ◌∷◌, ◌++◌, length, append_assoc, append-nil, All,
  All-append, ◌==◌, ◌&&◌, leb, Bool-cases, Option-cases, arith,
}
use cactus.Acme.Names.{
  split_last_colon, all_digits, label_byte, all_label_bytes, valid_label, split_dots, all_labels,
  valid_host, valid_port, valid_dns_name,
}

-- A byte of a host name
pub data InHost : ℕ → Type 0 where
  small_letter : (b : ℕ) → b'a' ≤ b → b ≤ b'z' → InHost b
  capital_letter : (b : ℕ) → b'A' ≤ b → b ≤ b'Z' → InHost b
  digit : (b : ℕ) → b'0' ≤ b → b ≤ b'9' → InHost b
  hyphen : InHost b'-'
  underscore : InHost b'_'
  dot : InHost b'.'

abbrev pub IsDigit : ℕ → Type 0
IsDigit b = (b'0' ≤ b) × (b ≤ b'9')

digits-IsDigit : (cs : List ℕ) → all_digits cs ≡ true → All IsDigit cs
unfolding all_digits
digits-IsDigit [] h = tt
digits-IsDigit (c ∷ cs) h = ((ground arith, ground arith), digits-IsDigit cs (ground arith))

label_byte-InHost : (b : ℕ) → label_byte b ≡ true → InHost b
unfolding label_byte
label_byte-InHost b h = elim (Bool-cases (leb b'a' b && leb b b'z')) [
  | inl small ↦ small_letter b (ground arith) (ground arith)
  | inr not_small ↦ elim (Bool-cases (leb b'A' b && leb b b'Z')) [
    | inl capital ↦ capital_letter b (ground arith) (ground arith)
    | inr not_capital ↦ elim (Bool-cases (leb b'0' b && leb b b'9')) [
      | inl number ↦ digit b (ground arith) (ground arith)
      | inr not_digit ↦ elim (Bool-cases (b == b'-')) [
        | inl minus ↦ let it : b ≡ b'-' = ground arith in rw it hyphen
        | inr other ↦ let it : b ≡ b'_' = ground arith in rw it underscore
      ]
    ]
  ]
]

label-InHost : (bs : List ℕ) → all_label_bytes bs ≡ true → All InHost bs
unfolding all_label_bytes
label-InHost [] h = tt
label-InHost (b ∷ bs) h = elim (Bool-cases (label_byte b)) [
  | inl ok_ ↦ (label_byte-InHost b ok_, label-InHost bs (ground arith))
  | inr bad ↦ absurd (ground arith)
]

valid_label-InHost : (label : List ℕ) → valid_label label ≡ true → All InHost label
unfolding valid_label
valid_label-InHost label h = label-InHost label (ground arith)

labels-InHost :
    (label cs : List ℕ) → all_labels (split_dots label cs) ≡ true → All InHost (label ++ cs)
unfolding all_labels split_dots
labels-InHost label [] h = rw (append-nil label) (valid_label-InHost label (ground arith))
labels-InHost label (c ∷ cs) h = elim (Bool-cases (c == b'.')) [
  | inl point ↦
      let parts : (valid_label label && all_labels (split_dots [] cs)) ≡ true = rw point at h in
      All-append InHost label (c ∷ cs) (valid_label-InHost label (ground arith))
        (let it : c ≡ b'.' = ground arith in rw it dot, labels-InHost [] cs (ground arith))
  | inr other ↦
      rw (← append_assoc label (c ∷ []) cs) (labels-InHost (label ++ (c ∷ [])) cs (rw other at h))
]

colon_splits :
    (name before after : List ℕ)
    → split_last_colon name ≡ some (before, after)
    → name ≡ before ++ (b':' ∷ after)
unfolding split_last_colon
colon_splits [] before after h = absurd (ground arith)
colon_splits (c ∷ cs) before after h = elim (Option-cases (split_last_colon cs)) [
  | inr ((x, y), e) ↦
      let ih = colon_splits cs x y e in
      let first : c ∷ x ≡ before = ground arith in
      let second : y ≡ after = ground arith in rw (← first) (rw (← second) (ap (λ zs. c ∷ zs) ih))
  | inl none_ ↦ elim (Bool-cases (c == b':')) [
    | inl colon ↦
        let first : [] ≡ before = ground arith in
        let second : cs ≡ after = ground arith in
        let here : c ≡ b':' = ground arith in rw (← first) (rw (← second) (ap (λ x. x ∷ cs) here))
    | inr other ↦ absurd (ground arith)
  ]
]

host-Safe : (name : List ℕ) → valid_host name ≡ true → All InHost name × (length name ≤ 253)
unfolding valid_host
host-Safe name h = (labels-InHost [] name (ground arith), ground arith)

port-Safe : (port : List ℕ) → valid_port port ≡ true → All IsDigit port × (length port ≤ 5)
unfolding valid_port
port-Safe port h = (digits-IsDigit port (ground arith), ground arith)

-- A host, or a host, a colon and a port
pub data SafeName : List ℕ → Type 0 where
  plain : (host : List ℕ) → All InHost host → length host ≤ 253 → SafeName host
  with_port :
      (host port name : List ℕ)
      → name ≡ host ++ (b':' ∷ port)
      → All InHost host
      → length host ≤ 253
      → All IsDigit port
      → length port ≤ 5
      → SafeName name

-- A name that validDNSName accepts is a host of at most 253 letters, digits, hyphens, underscores
-- and dots, with nothing after it or a colon and at most five digits.
pub valid_dns_name-SafeName : (name : List ℕ) → valid_dns_name name ≡ true → SafeName name
unfolding valid_dns_name
valid_dns_name-SafeName [] h = absurd (ground arith)
valid_dns_name-SafeName (c ∷ cs) h = elim (Option-cases (split_last_colon (c ∷ cs))) [
  | inl none_ ↦ let (bytes, short) = host-Safe (c ∷ cs) (ground arith) in plain (c ∷ cs) bytes short
  | inr ((host, port), e) ↦
      let (bytes, short) = host-Safe host (ground arith) in
      let (digits, few) = port-Safe port (ground arith) in
      with_port host port (c ∷ cs) (colon_splits (c ∷ cs) host port e) bytes short digits few
]
