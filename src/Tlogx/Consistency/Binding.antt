-- ===== src/Tlogx/Consistency/Binding.antt =====
-- A root hash binds the hash of each subtree for which a consistency proof is accepted, unless the
-- hash function has a collision in sight.
use Prim.Native.Nat.{bit_and}
use cactus.Prelude.{
  ℕ, ◌≡◌, ◌≢◌, ◌⊎◌, inl, inr, refl, ap, sym, ◌∙◌, Bool, true, false, not, List, [], ◌∷◌, All,
  Result, ok, err, panic, stuck, guard, leb, ◌==◌, ◌||◌, Bool-cases, arith, ◌>>=◌, ◌>>◌,
}
use cactus.Tlogx.{
  Hash, Error, hash_eq_iff, is_valid, hash_children, Collision, IsHash, children_bind,
  invalid_subtree, end_beyond_size,
}
use cactus.Tlogx.Consistency.{
  Positions, Hashes, start_positions, step_hashes, step_positions, consume, reconstruct,
  compare_hashes, verify_consistency_proof,
}

module _ (hash : List ℕ → Hash) (hash_sized : (x : List ℕ) → IsHash (hash x)) where
  children-IsHash : (l r : Hash) → IsHash (hash_children hash l r)
  unfolding hash_children
  children-IsHash l r = hash_sized _

  -- The test that the hash from the proof stands on the left
  abbrev goes_left : Positions → Bool
  goes_left p = not (bit_and p.sn 1 == 0) || p.sn == p.tn

  step_left :
      (p : Positions) (c : Hash) (h : Hashes)
      → goes_left p ≡ true
      → (step_hashes hash p c h).sr ≡ hash_children hash c h.sr
  unfolding step_hashes
  step_left p c h t = rw t

  step_right :
      (p : Positions) (c : Hash) (h : Hashes)
      → goes_left p ≡ false
      → (step_hashes hash p c h).sr ≡ hash_children hash h.sr c
  unfolding step_hashes
  step_right p c h t = rw t

  step-IsHash : (p : Positions) (c : Hash) (h : Hashes) → IsHash (step_hashes hash p c h).sr
  step-IsHash p c h = elim (Bool-cases (goes_left p)) [
    | inl t ↦ rw (step_left p c h t) (children-IsHash c h.sr)
    | inr t ↦ rw (step_right p c h t) (children-IsHash h.sr c)
  ]

  step_bind :
      (p : Positions) (c d : Hash) (h g : Hashes)
      → IsHash h.sr
      → IsHash g.sr
      → IsHash c
      → IsHash d
      → (step_hashes hash p c h).sr ≡ (step_hashes hash p d g).sr
      → ((h.sr ≡ g.sr) × (c ≡ d)) ⊎ Collision hash
  step_bind p c d h g hh hg hc hd e = elim (Bool-cases (goes_left p)) [
    | inl l ↦
        elim (children_bind hash c h.sr d g.sr hc hd
          (sym (step_left p c h l) ∙ e ∙ step_left p d g l)) [
            | inl eqs ↦ inl (eqs.1, eqs.0)
            | inr x ↦ inr x
          ]
    | inr l ↦
        children_bind hash h.sr c g.sr d hh hg (sym (step_right p c h l) ∙ e ∙ step_right p d g l)
  ]

  consume_cons :
      (p : Positions) (h : Hashes) (c : Hash) (cs : List Hash) (r : Positions × Hashes)
      → consume hash p h (c ∷ cs) ≡ ok r
      → (p.tn ≢ 0) × (consume hash (step_positions hash p) (step_hashes hash p c h) cs ≡ ok r)
  unfolding consume
  consume_cons p h c cs r e = ground arith

  consume_nil :
      (p : Positions) (h : Hashes) (r : Positions × Hashes)
      → consume hash p h [] ≡ ok r
      → (p, h) ≡ r
  unfolding consume
  consume_nil p h r e = cc

  -- Two runs from the same positions that end at the same root hash
  consume_bind :
      (cs ds : List Hash) (p : Positions) (h g : Hashes) (r s : Positions × Hashes)
      → IsHash h.sr
      → IsHash g.sr
      → All IsHash cs
      → All IsHash ds
      → consume hash p h cs ≡ ok r
      → consume hash p g ds ≡ ok s
      → r.0.tn ≡ 0
      → s.0.tn ≡ 0
      → r.1.sr ≡ s.1.sr
      → ((h.sr ≡ g.sr) × (cs ≡ ds)) ⊎ Collision hash
  consume_bind [] [] p h g r s hh hg hc hd e f zr zs same =
      let a = ap (λ (x : Positions × Hashes). x.1.sr) (consume_nil p h r e) in
      let b = ap (λ (x : Positions × Hashes). x.1.sr) (consume_nil p g s f) in
      inl (a ∙ same ∙ sym b, refl)
  consume_bind [] (d ∷ ds) p h g r s hh hg hc hd e f zr zs same = absurd (
      (consume_cons p g d ds s f).0
        (ap (λ (x : Positions × Hashes). x.0.tn) (consume_nil p h r e) ∙ zr))
  consume_bind (c ∷ cs) [] p h g r s hh hg hc hd e f zr zs same = absurd (
      (consume_cons p h c cs r e).0
        (ap (λ (x : Positions × Hashes). x.0.tn) (consume_nil p g s f) ∙ zs))
  consume_bind (c ∷ cs) (d ∷ ds) p h g r s hh hg hc hd e f zr zs same =
      let e' = (consume_cons p h c cs r e).1 in
      let f' = (consume_cons p g d ds s f).1 in
      elim (consume_bind cs ds (step_positions hash p) (step_hashes hash p c h)
        (step_hashes hash p d g) r s (step-IsHash p c h) (step-IsHash p d g) hc.1 hd.1 e' f' zr zs
        same) [
          | inr x ↦ inr x
          | inl eqs ↦ elim (step_bind p c d h g hh hg hc.0 hd.0 eqs.0) [
            | inr x ↦ inr x
            | inl here ↦ inl (here.0, cc (here.1, eqs.1))
          ]
        ]

  reconstruct_known :
      (p : Positions) (node : Hash) (cs : List Hash) (r : Positions × Hashes)
      → (p.fn == p.sn) ≡ true
      → reconstruct hash p node cs ≡ ok r
      → consume hash p (record { fr = node; sr = node }) cs ≡ ok r
  unfolding reconstruct consume
  reconstruct_known p node [] r t e = ground arith
  reconstruct_known p node (c ∷ cs) r t e = rw (reconstruct, t) at e

  -- A proof that starts below the subtree has a first hash.
  reconstruct_below :
      (p : Positions) (node : Hash) (cs : List Hash) (r : Positions × Hashes)
      → (p.fn == p.sn) ≡ false
      → reconstruct hash p node cs ≡ ok r
      → (c : Hash) × (rest : List Hash) × (cs ≡ c ∷ rest)
        × (consume hash p (record { fr = c; sr = c }) rest ≡ ok r)
  unfolding reconstruct
  reconstruct_below p node [] r t e = absurd (ground arith)
  reconstruct_below p node (c ∷ cs) r t e = (c, cs, refl, rw (reconstruct, t) at e)

  compare_same :
      (r : Positions × Hashes) (node root : Hash)
      → compare_hashes hash r node root ≡ ok tt
      → (r.0.tn ≡ 0) × (r.1.fr ≡ node) × (r.1.sr ≡ root)
  unfolding compare_hashes
  compare_same (p, h) node root e = (
    ground arith,
    (hash_eq_iff h.fr node).0 (ground arith),
    (hash_eq_iff h.sr root).0 (ground arith),
  )

  consume_same :
      (p : Positions) (c d : Hash) (cs ds : List Hash) (r s : Positions × Hashes)
      → c ≡ d
      → cs ≡ ds
      → consume hash p (record { fr = c; sr = c }) cs ≡ ok r
      → consume hash p (record { fr = d; sr = d }) ds ≡ ok s
      → r ≡ s
  consume_same p c d cs ds r s e f run run' =
      let run_d : consume hash p (record { fr = d; sr = d }) ds ≡ ok r = rw (e, f) at run in
      cc (run_d, run')

  -- What an accepted proof has run
  verify_run :
      (start end n : ℕ) (cs : List Hash) (node root : Hash)
      → verify_consistency_proof hash start end n cs node root ≡ ok tt
      → (r : Positions × Hashes) × (reconstruct hash (start_positions start end n) node cs ≡ ok r)
        × (r.0.tn ≡ 0)
        × (r.1.fr ≡ node)
        × (r.1.sr ≡ root)
  unfolding verify_consistency_proof
  verify_run start end n cs node root e =
      tail (is_valid start end) (leb end n) (reconstruct hash (start_positions start end n) node cs)
        e
    where
      tail :
          (v : Result Error Bool) (b : Bool) (m : Result Error (Positions × Hashes))
          → (do
            valid ← v
            guard valid invalid_subtree
            guard b end_beyond_size
            s ← m
            compare_hashes hash s node root)
            ≡ ok tt
          → (r : Positions × Hashes) × (m ≡ ok r) × (r.0.tn ≡ 0) × (r.1.fr ≡ node) × (r.1.sr ≡ root)
      tail (ok true) true (ok r) e =
          let (z, f, s) = compare_same r node root e in (r, refl, z, f, s)
      tail (ok true) true (err x) e = absurd (ground arith)
      tail (ok true) true panic e = absurd (ground arith)
      tail (ok true) true stuck e = absurd (ground arith)
      tail (ok true) false m e = absurd (ground arith)
      tail (ok false) b m e = absurd (ground arith)
      tail (err x) b m e = absurd (ground arith)
      tail panic b m e = absurd (ground arith)
      tail stuck b m e = absurd (ground arith)

  module _ (start end n : ℕ) (cs ds : List Hash) (node node' root : Hash) (sized : IsHash node)
      (sized' : IsHash node') (hc : All IsHash cs) (hd : All IsHash ds)
      (run : verify_consistency_proof hash start end n cs node root ≡ ok tt)
      (run' : verify_consistency_proof hash start end n ds node' root ≡ ok tt) where
    abbrev p : Positions
    p = start_positions start end n

    from_below :
        (r s : Positions × Hashes)
        → (p.fn == p.sn) ≡ false
        → reconstruct hash p node cs ≡ ok r
        → reconstruct hash p node' ds ≡ ok s
        → r.0.tn ≡ 0
        → s.0.tn ≡ 0
        → r.1.fr ≡ node
        → s.1.fr ≡ node'
        → r.1.sr ≡ s.1.sr
        → ((node ≡ node') × (cs ≡ ds)) ⊎ Collision hash
    from_below r s t e f zr zs fr fs same =
        let (c, cs', ec, ran) = reconstruct_below p node cs r t e in
        let (d, ds', ed, ran') = reconstruct_below p node' ds s t f in
        let hc' : IsHash c × All IsHash cs' = rw ec at hc in
        let hd' : IsHash d × All IsHash ds' = rw ed at hd in
        elim (consume_bind cs' ds' p (record { fr = c; sr = c }) (record { fr = d; sr = d }) r s
          (hc'.0) (hd'.0) (hc'.1) (hd'.1) ran ran' zr zs same) [
            | inr x ↦ inr x
            | inl eqs ↦
                let runs_same = consume_same p c d cs' ds' r s eqs.0 eqs.1 ran ran' in
                inl (
                  sym fr ∙ ap (λ (x : Positions × Hashes). x.1.fr) runs_same ∙ fs,
                  cc (ec, ed, eqs.0, eqs.1),
                )
          ]

    from_known :
        (r s : Positions × Hashes)
        → (p.fn == p.sn) ≡ true
        → reconstruct hash p node cs ≡ ok r
        → reconstruct hash p node' ds ≡ ok s
        → r.0.tn ≡ 0
        → s.0.tn ≡ 0
        → r.1.sr ≡ s.1.sr
        → ((node ≡ node') × (cs ≡ ds)) ⊎ Collision hash
    from_known r s t e f zr zs same =
        consume_bind cs ds p (record { fr = node; sr = node }) (record { fr = node'; sr = node' }) r
          s sized sized' hc hd (reconstruct_known p node cs r t e)
          (reconstruct_known p node' ds s t f) zr zs same

    -- For one subtree, tree size and root hash, the subtree's hash and the accepted proof are
    -- determined, or else two inputs with the same hash are at hand. All hashes have 32 bytes.
    pub consistency-binding : ((node ≡ node') × (cs ≡ ds)) ⊎ Collision hash
    consistency-binding =
        let (r, er, zr, fr, sr) = verify_run start end n cs node root run in
        let (s, es, zs, fs, ss) = verify_run start end n ds node' root run' in
        elim (Bool-cases (p.fn == p.sn)) [
          | inl known ↦ from_known r s known er es zr zs (sr ∙ sym ss)
          | inr below ↦ from_below r s below er es zr zs fr fs (sr ∙ sym ss)
        ]
