-- ===== src/Cert/Quorum.antt =====
-- cert/cosigner_request.go: asking the mirrors for cosignatures. HTTP, base64, SHA-256, the
-- splitting of text and the verification of a signature are parameters. Which of the ready
-- channels `select` takes is not determined: a run is any list of what it took.
pub mod Collected
mod Examples
use cactus.Prelude.{
  ℕ, zero, suc, ◌+◌, Bool, true, false, not, Option, none, some, List, [], ◌∷◌, ◌++◌, length, take,
  drop, ltb, leb, ◌==◌, ◌&&◌, ◌||◌, if◌then◌else◌, Result, ok, err, panic, stuck, guard, or_err,
  lift_err, ◌>>=◌, ◌>>◌,
}
use cactus.Prelude.Dict.{str_eq}
use cactus.Log.{MtcSubtree, MtcSignature}
use cactus.Cert.Wire.{Cryptobyte}
use cactus.Cert.Signing.{
  Algorithm, mldsa_44, mldsa_65, mldsa_87, other, oid_name, marshal_signature_input,
  cosignature_key_id, parse_timestamped_signature,
}
use cactus.Cert.Signing as Signing

pub record Mirror : Type 0 where
  pub id : List ℕ
  pub algorithm : Algorithm
  pub public_key : List ℕ

pub data Error : Type 0 where
  not_mldsa_44 no_response bad_status bad_base64 no_key_id_octets nonzero_timestamp : Error
  not_verified no_matching_line : Error
  signing : Signing.Error → Error

unfoldable pub is_mldsa_44 : Algorithm → Bool
is_mldsa_44 mldsa_44 = true
is_mldsa_44 mldsa_65 = false
is_mldsa_44 mldsa_87 = false
is_mldsa_44 (other code) = false

pub record Parts : Type 0 where
  pub bytes : Cryptobyte
  pub sha256 : List ℕ → List ℕ
  -- The base64 text of a line with the prefix "— NAME ", where it has it
  pub after_prefix : List ℕ → List ℕ → Option (List ℕ)
  pub decode : List ℕ → Option (List ℕ)
  -- The lines of a body without the newlines at its end
  pub lines : List ℕ → List (List ℕ)
  pub verify : Mirror → List ℕ → List ℕ → Bool

-- What a request puts into the channel of results
unfoldable pub sent : Result Error MtcSignature → Option MtcSignature
sent (ok sig) = some sig
sent (err e) = none
sent panic = none
sent stuck = none

module _ (parts : Parts) (subtree : MtcSubtree) where
  -- A line of our key, from after its four octets
  unfoldable pub check_line : Mirror → List ℕ → Result Error MtcSignature
  unfolding parse_timestamped_signature marshal_signature_input
  check_line m octets = do
    (timestamp, raw_sig) ← lift_err signing (parse_timestamped_signature octets)
    guard (timestamp == 0) nonzero_timestamp
    msg ← lift_err signing (marshal_signature_input parts.bytes m.id subtree)
    guard (parts.verify m raw_sig msg) not_verified
    ok (record { cosigner_id = m.id; signature = raw_sig })

  -- What a decoded line comes to: none where it is of another key
  unfoldable pub read_line : Mirror → List ℕ → List ℕ → Option (Result Error MtcSignature)
  unfolding check_line
  read_line m want_key_id raw =
      if ltb (length raw) 4
      then some (err no_key_id_octets)
      else if str_eq (take 4 raw) want_key_id
      then some (check_line m (drop 4 raw))
      else none

  unfoldable pub scan_lines : Mirror → List ℕ → List ℕ → List (List ℕ) → Result Error MtcSignature
  unfolding read_line
  scan_lines m want_key want_key_id [] = err no_matching_line
  scan_lines m want_key want_key_id (line ∷ lines) =
      let later = scan_lines m want_key want_key_id lines in
      elim (parts.after_prefix want_key line) [
        | none ↦ later
        | some text ↦ elim (parts.decode text) [
          | none ↦ err bad_base64
          | some raw ↦ elim (read_line m want_key_id raw) [ none ↦ later | some result ↦ result ]
        ]
      ]

  -- The response: none, or a status and a body of at most 16 KiB
  unfoldable pub request_one : Mirror → Option (ℕ × List ℕ) → Result Error MtcSignature
  unfolding is_mldsa_44 oid_name cosignature_key_id scan_lines
  request_one m response = do
    guard (is_mldsa_44 m.algorithm) not_mldsa_44
    want_key_id ←
        lift_err signing (cosignature_key_id parts.sha256 (oid_name m.id) m.algorithm m.public_key)
    (status, body) ← or_err response no_response
    guard (status == 200) bad_status
    scan_lines m (oid_name m.id) want_key_id (parts.lines body)

  -- What `select` takes: a mirror's answer, the end of all requests, the
  -- deadline. A request that failed sends nothing.
  pub data Event : Type 0 where
    arrived : Mirror → Option (ℕ × List ℕ) → Event
    finished deadline : Event

  pub data Outcome : Type 0 where
    collected : List MtcSignature → Outcome
    quorum_not_met : List MtcSignature → Outcome

  unfoldable pub conclude : ℕ → List MtcSignature → Outcome
  conclude quorum sigs = if leb quorum (length sigs) then collected sigs else quorum_not_met sigs

  -- The loop over what `select` takes, none while it waits
  unfoldable pub collect : ℕ → Bool → List MtcSignature → List Event → Option Outcome
  unfolding conclude request_one sent
  collect quorum best_effort sigs [] = none
  collect quorum best_effort sigs (finished ∷ events) = some (conclude quorum sigs)
  collect quorum best_effort sigs (deadline ∷ events) = some (conclude quorum sigs)
  collect quorum best_effort sigs (arrived m response ∷ events) =
      let waiting = collect quorum best_effort sigs events in
      elim (sent (request_one m response)) [
        | some sig ↦
            let sigs' = sigs ++ (sig ∷ []) in
            let more = collect quorum best_effort sigs' events in
            if leb quorum (length sigs') && not best_effort then some (collected sigs') else more
        | none ↦ waiting
      ]

  -- A quorum that the mirrors cannot meet, or of zero, asks no one. (A negative one is an error. The
  -- body of the requests is taken as built.)
  unfoldable pub request_cosignatures : List Mirror → ℕ → Bool → List Event → Option Outcome
  unfolding collect
  request_cosignatures mirrors quorum best_effort events =
      if ltb (length mirrors) quorum
      then some (quorum_not_met [])
      else if quorum == 0
      then some (collected [])
      else collect quorum best_effort [] events
