-- ===== src/Cert/Wire/Extensions.antt =====
-- cert/entry.go: the extensions of a log entry.
pub mod RoundTrip
use cactus.Prelude.{
  ℕ, zero, suc, ◌+◌, ◌/◌, ◌%◌, Bool, true, false, not, Option, none, some, List, [], ◌∷◌, ◌++◌,
  length, ltb, ◌==◌, if◌then◌else◌, Result, ok, err, panic, stuck, guard, or_err, ◌>>=◌, ◌>>◌,
}
use cactus.Cert.Wire.{Cryptobyte}

pub record Extension : Type 0 where
  pub kind : ℕ
  pub octets : List ℕ

pub data Error : Type 0 where
  not_sorted duplicate_type data_too_long short_type short_data : Error

unfoldable pub check_order : ℕ → ℕ → Result Error (Unit {0})
check_order before kind =
    if ltb kind before then err not_sorted else if kind == before then err duplicate_type else ok tt

unfoldable pub check_sorted : List Extension → Result Error (Unit {0})
unfolding check_order
check_sorted [] = ok tt
check_sorted (a ∷ []) = ok tt
check_sorted (a ∷ b ∷ es) = do check_order a.kind b.kind; check_sorted (b ∷ es)

module _ (cb : Cryptobyte) where
  unfoldable pub marshal_each : List Extension → Result Error (List ℕ)
  marshal_each [] = ok []
  marshal_each (e ∷ es) = do
    guard (not (ltb 65535 (length e.octets))) data_too_long
    body ← or_err (cb.add_uint16_prefixed e.octets) data_too_long
    later ← marshal_each es
    ok (cb.add_uint16 e.kind ++ (body ++ later))

  unfoldable pub marshal_entry_extensions : List Extension → Result Error (List ℕ)
  unfolding check_sorted marshal_each
  marshal_entry_extensions exts = do check_sorted exts; marshal_each exts

  unfoldable pub check_next : Option ℕ → ℕ → Result Error (Unit {0})
  unfolding check_order
  check_next none kind = ok tt
  check_next (some before) kind = check_order before kind

  -- Each round takes octets: one more than there are is enough.
  unfoldable pub parse_loop : ℕ → Option ℕ → List ℕ → Result Error (List Extension)
  unfolding check_next
  parse_loop zero before body = stuck
  parse_loop (suc fuel) before [] = ok []
  parse_loop (suc fuel) before (c ∷ cs) = do
    (kind, s) ← or_err (cb.read_uint16 (c ∷ cs)) short_type
    (octets, rest) ← or_err (cb.read_uint16_prefixed s) short_data
    check_next before kind
    later ← parse_loop fuel (some kind) rest
    ok (record { kind = kind; octets = octets } ∷ later)

  unfoldable pub parse_entry_extensions : List ℕ → Result Error (List Extension)
  unfolding parse_loop
  parse_entry_extensions body = parse_loop (suc (length body)) none body

  unfoldable pub encode_entry_extensions_vector : List Extension → Result Error (List ℕ)
  unfolding marshal_entry_extensions
  encode_entry_extensions_vector exts = do
    body ← marshal_entry_extensions exts
    ok (length body / 256 % 256 ∷ length body % 256 ∷ body)
