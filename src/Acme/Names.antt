-- ===== src/Acme/Names.antt =====
-- acme/handler.go: the check of DNS names.
pub mod Safe
mod Examples
use cactus.Prelude.{
  ℕ, zero, suc, ◌+◌, ◌-◌, Bool, true, false, not, Option, none, some, List, [], ◌∷◌, ◌++◌, length,
  ltb, leb, ◌==◌, ◌&&◌, ◌||◌, if◌then◌else◌,
}

-- strings.LastIndexByte for a colon, with what stands before and after it
unfoldable pub split_last_colon : List ℕ → Option (List ℕ × List ℕ)
split_last_colon [] = none
split_last_colon (c ∷ cs) = elim (split_last_colon cs) [
  | some (before, after) ↦ some (c ∷ before, after)
  | none ↦ if c == b':' then some ([], cs) else none
]

unfoldable pub all_digits : List ℕ → Bool
all_digits [] = true
all_digits (c ∷ cs) = let rest = all_digits cs in leb b'0' c && leb c b'9' && rest

unfoldable pub label_byte : ℕ → Bool
label_byte b =
    (leb b'a' b && leb b b'z')
    || (leb b'A' b && leb b b'Z')
    || (leb b'0' b && leb b b'9')
    || b == b'-'
    || b == b'_'

unfoldable pub all_label_bytes : List ℕ → Bool
unfolding label_byte
all_label_bytes [] = true
all_label_bytes (b ∷ bs) = let rest = all_label_bytes bs in label_byte b && rest

unfoldable pub first_is : ℕ → List ℕ → Bool
first_is c [] = false
first_is c (b ∷ bs) = b == c

unfoldable pub last_is : ℕ → List ℕ → Bool
last_is c [] = false
last_is c (b ∷ []) = b == c
last_is c (b ∷ d ∷ bs) = last_is c (d ∷ bs)

unfoldable pub valid_label : List ℕ → Bool
unfolding all_label_bytes first_is last_is
valid_label label =
    not (length label == 0 || ltb 63 (length label))
    && not (first_is b'-' label || last_is b'-' label)
    && all_label_bytes label

-- strings.Split with "."
unfoldable pub split_dots : List ℕ → List ℕ → List (List ℕ)
split_dots label [] = label ∷ []
split_dots label (c ∷ cs) =
    let ends = label ∷ split_dots [] cs in
    let goes_on = split_dots (label ++ (c ∷ [])) cs in if c == b'.' then ends else goes_on

unfoldable pub all_labels : List (List ℕ) → Bool
unfolding valid_label
all_labels [] = true
all_labels (l ∷ ls) = let rest = all_labels ls in valid_label l && rest

-- The name without a port
unfoldable pub valid_host : List ℕ → Bool
unfolding all_labels split_dots first_is last_is
valid_host name =
    not (length name == 0 || ltb 253 (length name))
    && not (first_is b'.' name || last_is b'.' name)
    && all_labels (split_dots [] name)

unfoldable pub valid_port : List ℕ → Bool
unfolding all_digits
valid_port port = not (length port == 0 || ltb 5 (length port)) && all_digits port

unfoldable pub valid_dns_name : List ℕ → Bool
unfolding split_last_colon valid_port valid_host
valid_dns_name [] = false
valid_dns_name (c ∷ cs) = elim (split_last_colon (c ∷ cs)) [
  | none ↦ valid_host (c ∷ cs)
  | some (name, port) ↦ valid_port port && valid_host name
]
