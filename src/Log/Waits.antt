-- ===== src/Log/Waits.antt =====
-- What Wait of log/log.go hands out.
use cactus.Prelude.{
  ℕ, ◌≤◌, ◌<◌, ◌^◌, ◌≡◌, inl, inr, refl, sym, ap, ◌∙◌, Option, none, some, List, [], ◌∷◌, length,
  Result, ok, err, panic, stuck, arith, Bool-cases, Option-cases, ltb, leb, lt→not-leb, ◌&&◌, ◌>>=◌,
  ok_of_bind, if◌then◌else◌,
}
use cactus.Tlogx.{Error as TlogError}
use cactus.Tlogx.Inclusion.{generate_inclusion_proof}
use cactus.Log.Proof.{read_hashes, walk_inclusion_proof}
use cactus.Log.Proof.Same.{walk_inclusion_proof-generate}
use cactus.Log.{
  Parts, Config, Log, CommittedCheckpoint, SignedSubtree, Issued, Error, lift, find_covering,
  subtree_inclusion_proof, MtcSubtree, MtcSignature, build_from, build_issued, wait_step,
}

lift-ok : {A : Type 0} (r : Result TlogError A) (a : A) → lift r ≡ ok a → r ≡ ok a
unfolding lift
lift-ok (ok x) a h = ground arith
lift-ok (err e) a h = absurd (ground arith)
lift-ok panic a h = absurd (ground arith)
lift-ok stuck a h = absurd (ground arith)

find_covering-holds :
    (index : ℕ) (ss : List SignedSubtree) (s : SignedSubtree)
    → find_covering index ss ≡ some s
    → (s.subtree.start ≤ index) × (index < s.subtree.end)
unfolding find_covering
find_covering-holds index [] s h = absurd (ground arith)
find_covering-holds index (x ∷ ss) s h =
    elim (Bool-cases (leb x.subtree.start index && ltb index x.subtree.end)) [
      | inl here ↦ let same : x ≡ s = ground arith in rw (← same) (ground arith, ground arith)
      | inr not_here ↦ find_covering-holds index ss s (rw not_here at h)
    ]

module _ (parts : Parts) (cfg : Config) where
  -- The proof of what is issued is the one of its range.
  abbrev pub Proves : CommittedCheckpoint → ℕ → Issued → Type 0
  Proves c index iss =
      (iss.index ≡ index)
      × (iss.subtree.start ≤ index)
      × (index < iss.subtree.end)
      × (walk_inclusion_proof parts.sha256 parts.stored_hash_index (read_hashes c.hashes_at_ckp)
            iss.subtree.start iss.subtree.end index
          ≡ ok iss.inclusion_proof)

  proof_round :
      (c : CommittedCheckpoint) (index : ℕ) (st : MtcSubtree) (sigs : List MtcSignature)
      (iss : Issued)
      → st.start ≤ index
      → index < st.end
      → (subtree_inclusion_proof parts cfg c st.start st.end index >>= λ proof.
          ok (record { index = index; subtree = st; inclusion_proof = proof; signatures = sigs }))
        ≡ ok iss
      → Proves c index iss
  unfolding subtree_inclusion_proof
  proof_round c index st sigs iss lo hi h =
      let walk =
        walk_inclusion_proof parts.sha256 parts.stored_hash_index (read_hashes c.hashes_at_ckp)
          st.start st.end index in
      let (proof, e, e1) =
        ok_of_bind (lift walk)
          (λ proof.
            ok (record { index = index; subtree = st; inclusion_proof = proof; signatures = sigs }))
          iss h in
      let made : record { index = index; subtree = st; inclusion_proof = proof; signatures = sigs }
          ≡ iss =
        ground arith in
      rw (← made) (refl, lo, hi, lift-ok walk proof e)

  build_from-Proves :
      (c : CommittedCheckpoint) (index : ℕ) (iss : Issued)
      → index < c.size
      → build_from parts cfg c index ≡ ok iss
      → Proves c index iss
  unfolding build_from
  build_from-Proves c index iss below h = elim (Option-cases (find_covering index c.subtrees)) [
    | inr (s, found) ↦
        let (lo, hi) = find_covering-holds index c.subtrees s found in
        proof_round c index s.subtree s.sigs iss lo hi (rw (build_from, found) at h)
    | inl not_found ↦
        proof_round c index (record { log_id = cfg.log_id; start = 0; end = c.size; hash = c.root })
          [] iss (omega arith) below (rw (build_from, not_found) at h)
  ]

  -- The test of the quorum lets only a quorum through.
  abbrev ready : Issued → Option Issued
  ready iss =
      if ltb 0 cfg.wait_for_cosigners && ltb (length iss.signatures) cfg.wait_for_cosigners
      then none
      else some iss

  ready-some :
      (built iss : Issued)
      → ready built ≡ some iss
      → (built ≡ iss) × (cfg.wait_for_cosigners ≤ length built.signatures)
  ready-some built iss h =
      elim (Bool-cases
        (ltb 0 cfg.wait_for_cosigners && ltb (length built.signatures) cfg.wait_for_cosigners)) [
          | inl short ↦ absurd (ground arith)
          | inr enough ↦ (ground arith, ground arith)
        ]

  -- What Wait returns for an index is for that index, with a range of entries that holds it, the
  -- proof that GenerateInclusionProof gives for that range on the checkpoint's hashes, and at
  -- least WaitForCosigners signatures. The range is to end below 2 ^ 63.
  pub wait_step-Issued :
      (l : Log parts cfg) (c : CommittedCheckpoint) (index : ℕ) (iss : Issued)
      → l.committed ≡ some c
      → wait_step parts cfg l index ≡ ok (some iss)
      → iss.subtree.end < 2 ^ 63
      → (iss.index ≡ index)
        × (iss.subtree.start ≤ index)
        × (index < iss.subtree.end)
        × (generate_inclusion_proof parts.sha256 parts.stored_hash_index
              (read_hashes c.hashes_at_ckp)
              iss.subtree.start
              iss.subtree.end
              index
            ≡ ok iss.inclusion_proof)
        × (cfg.wait_for_cosigners ≤ length iss.signatures)
  unfolding wait_step build_issued
  wait_step-Issued l c index iss e h fits = elim (Bool-cases (ltb index c.size)) [
    | inr beyond ↦
        let nothing : Result Error (Option Issued) = ok none in
        let waits : nothing ≡ ok (some iss) = rw (wait_step, e, beyond) at h in
        absurd (ground arith)
    | inl below ↦
        let checked : (build_issued parts cfg l index >>= λ built. ok (ready built))
            ≡ ok (some iss) =
          rw (wait_step, e, below) at h in
        let (built, eb, er) =
          ok_of_bind (build_issued parts cfg l index) (λ built. ok (ready built)) (some iss)
            checked in
        let (same, quorum) = ready-some built iss (ground arith) in
        let from : build_from parts cfg c index ≡ ok built =
          rw (build_issued, e, lt→not-leb c.size index (ground arith)) at eb in
        let (i, lo, hi, walked) = build_from-Proves c index built (ground arith) from in
        let bound : built.subtree.end < 2 ^ 63 = rw (ap (λ x. x.subtree.end) same) fits in
        let (generated, _) =
          walk_inclusion_proof-generate parts.sha256 parts.stored_hash_index
            (read_hashes c.hashes_at_ckp) built.subtree.start built.subtree.end index
            (omega (arith, lo, hi, bound)) bound in
        rw (← same) (i, lo, hi, sym generated ∙ walked, quorum)
  ]
