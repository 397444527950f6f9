-- ===== src/Cert/Quorum/Collected.antt =====
-- What RequestCosignatures returns (cert/cosigner_request.go).
use cactus.Prelude.{
  ℕ, ◌≤◌, ◌≡◌, inl, inr, refl, Bool, true, not, Option, some, List, [], ◌∷◌, ◌++◌, length, take,
  drop, ltb, leb, ◌==◌, ◌&&◌, All, All-append, Bool-cases, Option-cases, Result, ok, err, panic,
  stuck, guard, or_err, lift_err, ok_of_bind, ok_of_guard, ok_of_lift_err, arith,
}
use cactus.Prelude.Dict.{str_eq}
use cactus.Log.{MtcSubtree, MtcSignature}
use cactus.Cert.Signing.{
  oid_name, marshal_signature_input, cosignature_key_id, parse_timestamped_signature,
}
use cactus.Cert.Quorum.{
  Mirror, Parts, Error, not_mldsa_44, no_response, bad_status, nonzero_timestamp, not_verified,
  signing, is_mldsa_44, check_line, read_line, scan_lines, request_one, sent, Event, arrived,
  finished, deadline, Outcome, collected, conclude, collect, request_cosignatures,
}

sent-ok : (r : Result Error MtcSignature) (sig : MtcSignature) → sent r ≡ some sig → r ≡ ok sig
unfolding sent
sent-ok (ok x) sig h = ground arith
sent-ok (err e) sig h = absurd (ground arith)
sent-ok panic sig h = absurd (ground arith)
sent-ok stuck sig h = absurd (ground arith)

module _ (parts : Parts) (subtree : MtcSubtree) where
  -- The signature is of this mirror's ID, and verifies under its key over the subtree's message.
  abbrev pub Verified : Mirror → MtcSignature → Type 0
  Verified m sig =
      (msg : List ℕ) × (sig.cosigner_id ≡ m.id)
      × ((marshal_signature_input parts.bytes m.id subtree ≡ ok msg)
          × (parts.verify m sig.signature msg ≡ true))

  check_line-Verified :
      (m : Mirror) (octets : List ℕ) (sig : MtcSignature)
      → check_line parts subtree m octets ≡ ok sig
      → Verified m sig
  unfolding check_line
  check_line-Verified m octets sig h =
      let ((timestamp, raw_sig), parsed, h1) =
        ok_of_bind (lift_err signing (parse_timestamped_signature octets)) _ sig h in
      let (t, zeroed, h2) = ok_of_bind (guard (timestamp == 0) nonzero_timestamp) _ sig h1 in
      let (msg, message, h3) =
        ok_of_bind (lift_err signing (marshal_signature_input parts.bytes m.id subtree)) _ sig h2 in
      let (u, verified, h4) =
        ok_of_bind (guard (parts.verify m raw_sig msg) not_verified) _ sig h3 in
      let made : record { cosigner_id = m.id; signature = raw_sig } ≡ sig = ground arith in
      rw (← made)
        (msg, refl, (ok_of_lift_err signing _ msg message, ok_of_guard _ not_verified u verified))

  read_line-Verified :
      (m : Mirror) (want_key_id raw : List ℕ) (sig : MtcSignature)
      → read_line parts subtree m want_key_id raw ≡ some (ok sig)
      → Verified m sig
  unfolding read_line
  read_line-Verified m want_key_id raw sig h = elim (Bool-cases (ltb (length raw) 4)) [
    | inl short ↦ absurd (ground arith)
    | inr long ↦ elim (Bool-cases (str_eq (take 4 raw) want_key_id)) [
      | inr other ↦ absurd (ground arith)
      | inl same ↦ check_line-Verified m (drop 4 raw) sig (ground arith)
    ]
  ]

  scan_lines-Verified :
      (m : Mirror) (want_key want_key_id : List ℕ) (lines : List (List ℕ)) (sig : MtcSignature)
      → scan_lines parts subtree m want_key want_key_id lines ≡ ok sig
      → Verified m sig
  unfolding scan_lines
  scan_lines-Verified m want_key want_key_id [] sig h = absurd (ground arith)
  scan_lines-Verified m want_key want_key_id (line ∷ lines) sig h =
      let later = scan_lines-Verified m want_key want_key_id lines sig in
      elim (Option-cases (parts.after_prefix want_key line)) [
        | inl other ↦ later (rw (scan_lines, other) at h)
        | inr (text, ours) ↦ elim (Option-cases (parts.decode text)) [
          | inl bad ↦ absurd (ground arith)
          | inr (raw, decoded) ↦ elim (Option-cases (read_line parts subtree m want_key_id raw)) [
            | inl other ↦ later (rw (scan_lines, ours, decoded, other) at h)
            | inr (result, read) ↦
                let it : result ≡ ok sig = rw (scan_lines, ours, decoded, read) at h in
                read_line-Verified m want_key_id raw sig (rw it at read)
          ]
        ]
      ]

  request_one-Verified :
      (m : Mirror) (response : Option (ℕ × List ℕ)) (sig : MtcSignature)
      → request_one parts subtree m response ≡ ok sig
      → Verified m sig
  unfolding request_one
  request_one-Verified m response sig h =
      let (t, kind, h1) = ok_of_bind (guard (is_mldsa_44 m.algorithm) not_mldsa_44) _ sig h in
      let (want_key_id, keyed, h2) =
        ok_of_bind
          (lift_err signing
            (cosignature_key_id parts.sha256 (oid_name m.id) m.algorithm m.public_key))
          _ sig h1 in
      let ((status, body), answered, h3) = ok_of_bind (or_err response no_response) _ sig h2 in
      let (u, fine, h4) = ok_of_bind (guard (status == 200) bad_status) _ sig h3 in
      scan_lines-Verified m (oid_name m.id) want_key_id (parts.lines body) sig h4

  module _ (Asked : Mirror → Type 0) (quorum : ℕ) (best_effort : Bool) where
    -- The answers are those of mirrors that were asked.
    abbrev pub AllAsked : List (Event parts subtree) → Type 0
    AllAsked [] = Unit
    AllAsked (arrived m response ∷ events) = Asked m × AllAsked events
    AllAsked (finished ∷ events) = AllAsked events
    AllAsked (deadline ∷ events) = AllAsked events

    abbrev pub VerifiedByAsked : MtcSignature → Type 0
    VerifiedByAsked sig = (m : Mirror) × Asked m × Verified m sig

    abbrev Enough : List MtcSignature → Type 0
    Enough sigs = (quorum ≤ length sigs) × All VerifiedByAsked sigs

    conclude-Enough :
        (got sigs : List MtcSignature)
        → All VerifiedByAsked got
        → ◌≡◌ {A = Option (Outcome parts subtree)}
            (some (conclude parts subtree quorum got))
            (some (collected sigs))
        → Enough sigs
    unfolding conclude
    conclude-Enough got sigs verified h = elim (Bool-cases (leb quorum (length got))) [
      | inl enough ↦ let same : got ≡ sigs = ground arith in rw (← same) (ground arith, verified)
      | inr few ↦ absurd (ground arith)
    ]

    collect-Enough :
        (got : List MtcSignature) (events : List (Event parts subtree)) (sigs : List MtcSignature)
        → All VerifiedByAsked got
        → AllAsked events
        → collect parts subtree quorum best_effort got events ≡ some (collected sigs)
        → Enough sigs
    unfolding collect
    collect-Enough got [] sigs verified asked h = absurd (ground arith)
    collect-Enough got (finished ∷ events) sigs verified asked h =
        conclude-Enough got sigs verified h
    collect-Enough got (deadline ∷ events) sigs verified asked h =
        conclude-Enough got sigs verified h
    collect-Enough got (arrived m response ∷ events) sigs verified (here, asked) h =
        elim (Option-cases (sent (request_one parts subtree m response))) [
          | inl none_ ↦ collect-Enough got events sigs verified asked (rw (collect, none_) at h)
          | inr (sig, e) ↦
              let got' : List MtcSignature = got ++ (sig ∷ []) in
              let answer = sent-ok (request_one parts subtree m response) sig e in
              let new : VerifiedByAsked sig =
                (m, here, request_one-Verified m response sig answer) in
              let verified' = All-append VerifiedByAsked got (sig ∷ []) verified (new, tt) in
              elim (Bool-cases (leb quorum (length got') && not best_effort)) [
                | inl done ↦
                    let h' : ◌≡◌ {A = Option (Outcome parts subtree)} (some (collected got'))
                        (some (collected sigs)) =
                      rw (collect, e, done) at h in
                    let same : got' ≡ sigs = ground arith in rw (← same) (ground arith, verified')
                | inr more ↦
                    collect-Enough got' events sigs verified' asked (rw (collect, e, more) at h)
              ]
        ]

    -- Whatever `select` takes in whatever order: signatures that RequestCosignatures returns without
    -- an error are as many as the quorum at least, and each verifies under the key of a mirror that
    -- was asked, over the message of the subtree, and carries the mirror's ID.
    pub request_cosignatures-verified :
        (mirrors : List Mirror) (events : List (Event parts subtree)) (sigs : List MtcSignature)
        → AllAsked events
        → request_cosignatures parts subtree mirrors quorum best_effort events
          ≡ some (collected sigs)
        → (quorum ≤ length sigs) × All VerifiedByAsked sigs
    unfolding request_cosignatures
    request_cosignatures-verified mirrors events sigs asked h =
        elim (Bool-cases (ltb (length mirrors) quorum)) [
          | inl few ↦ absurd (ground arith)
          | inr fine ↦ elim (Bool-cases (quorum == 0)) [
            | inl none_ ↦
                let h' : ◌≡◌ {A = Option (Outcome parts subtree)} (some (collected []))
                    (some (collected sigs)) =
                  rw (request_cosignatures, fine, none_) at h in
                let same : [] ≡ sigs = ground arith in rw (← same) (ground arith, tt)
            | inr some_ ↦
                collect-Enough [] events sigs tt asked (rw (request_cosignatures, fine, some_) at h)
          ]
        ]
