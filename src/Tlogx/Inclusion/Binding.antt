-- ===== src/Tlogx/Inclusion/Binding.antt =====
-- A root hash binds the entry and the proof that evaluate to it, unless the hash function has a
-- collision in sight.
use cactus.Prelude.{
  ℕ, ◌-◌, ◌≡◌, ◌≢◌, ◌⊎◌, inl, inr, refl, ap, sym, ◌∙◌, true, false, List, [], ◌∷◌, All, Result, ok,
  err, Bool-cases, Bool, panic, stuck, guard, ◌>>=◌, ◌>>◌, not, ltb, leb, arith, ◌==◌, ◌||◌,
}
use Prim.Native.Nat.{bit_and}
use cactus.Tlogx.{
  Hash, Error, is_valid, hash_children, invalid_subtree, index_outside, too_short, Collision,
  IsHash, children_bind,
}
use cactus.Tlogx.Inclusion.{EvalState, eval_step, eval_loop, evaluate_inclusion_proof}

evaluate_tail :
    (v : Result Error Bool) (b : Bool) (l : Result Error EvalState) (h : Hash)
    → (do
      valid ← v
      guard valid invalid_subtree
      guard b index_outside
      s ← l
      guard (s.sn == 0) too_short
      ok s.r)
      ≡ ok h
    → (s : EvalState) × (l ≡ ok s) × (s.sn ≡ 0) × (s.r ≡ h)
evaluate_tail v b (ok s) h run = (s, refl, ground arith, ground arith)
evaluate_tail v b (err e) h run = absurd (ground arith)
evaluate_tail v b panic h run = absurd (ground arith)
evaluate_tail v b stuck h run = absurd (ground arith)

module _ (hash : List ℕ → Hash) (hash_sized : (x : List ℕ) → IsHash (hash x)) where
  children-IsHash : (l r : Hash) → IsHash (hash_children hash l r)
  unfolding hash_children
  children-IsHash l r = hash_sized _

  abbrev goes_left : EvalState → Bool
  goes_left s = bit_and s.fn 1 == 1 || s.fn == s.sn

  step_left :
      (s : EvalState) (p : Hash)
      → goes_left s ≡ true
      → (eval_step hash s p).r ≡ hash_children hash p s.r
  unfolding eval_step
  step_left s p t = rw t

  step_right :
      (s : EvalState) (p : Hash)
      → goes_left s ≡ false
      → (eval_step hash s p).r ≡ hash_children hash s.r p
  unfolding eval_step
  step_right s p t = rw t

  step-IsHash : (s : EvalState) (p : Hash) → IsHash (eval_step hash s p).r
  step-IsHash s p = elim (Bool-cases (goes_left s)) [
    | inl t ↦ rw (step_left s p t) (children-IsHash p s.r)
    | inr t ↦ rw (step_right s p t) (children-IsHash s.r p)
  ]

  -- The bits move on in the same way, whatever the hashes.
  abbrev with_hash : EvalState → Hash → EvalState
  with_hash s h = record s { r = h }

  step_same :
      (s : EvalState) (r' p q : Hash)
      → with_hash (eval_step hash s p) (eval_step hash (with_hash s r') q).r
        ≡ eval_step hash (with_hash s r') q
  unfolding eval_step
  step_same s r' p q = ground arith

  -- Equal results of a round come from equal hashes.
  step_bind :
      (s : EvalState) (r' p q : Hash)
      → IsHash s.r
      → IsHash r'
      → IsHash p
      → IsHash q
      → (eval_step hash s p).r ≡ (eval_step hash (with_hash s r') q).r
      → ((s.r ≡ r') × (p ≡ q)) ⊎ Collision hash
  step_bind s r' p q hr hr' hp hq e = elim (Bool-cases (goes_left s)) [
    | inl l ↦
        let same = sym (step_left s p l) ∙ e ∙ step_left (with_hash s r') q l in
        elim (children_bind hash p s.r q r' hp hq same) [
          | inl eqs ↦ inl (eqs.1, eqs.0)
          | inr c ↦ inr c
        ]
    | inr l ↦
        children_bind hash s.r p r' q hr hr'
          (sym (step_right s p l) ∙ e ∙ step_right (with_hash s r') q l)
  ]

  loop_cons :
      (s s' : EvalState) (p : Hash) (ps : List Hash)
      → eval_loop hash s (p ∷ ps) ≡ ok s'
      → (s.sn ≢ 0) × (eval_loop hash (eval_step hash s p) ps ≡ ok s')
  unfolding eval_loop
  loop_cons s s' p ps e = ground arith

  loop_nil : (s s' : EvalState) → eval_loop hash s [] ≡ ok s' → s ≡ s'
  unfolding eval_loop
  loop_nil s s' e = cc

  -- Two runs from one place that end at one hash.
  loop_bind :
      (ps qs : List Hash) (s s' t' : EvalState) (r' : Hash)
      → IsHash s.r
      → IsHash r'
      → All IsHash ps
      → All IsHash qs
      → eval_loop hash s ps ≡ ok s'
      → eval_loop hash (with_hash s r') qs ≡ ok t'
      → s'.sn ≡ 0
      → t'.sn ≡ 0
      → s'.r ≡ t'.r
      → ((s.r ≡ r') × (ps ≡ qs)) ⊎ Collision hash
  loop_bind [] [] s s' t' r' hr hr' hp hq e f zs zt same =
      let a = loop_nil s s' e in
      let b = loop_nil (with_hash s r') t' f in
      inl (cc (same, ap (λ (x : EvalState). x.r) a, ap (λ (x : EvalState). x.r) b), refl)
  loop_bind [] (q ∷ qs) s s' t' r' hr hr' hp hq e f zs zt same =
      absurd ((loop_cons _ t' q qs f).0 (ap (λ (x : EvalState). x.sn) (loop_nil s s' e) ∙ zs))
  loop_bind (p ∷ ps) [] s s' t' r' hr hr' hp hq e f zs zt same = absurd (
      (loop_cons s s' p ps e).0
        (ap (λ (x : EvalState). x.sn) (loop_nil (with_hash s r') t' f) ∙ zt))
  loop_bind (p ∷ ps) (q ∷ qs) s s' t' r' hr hr' hp hq e f zs zt same =
      let e' = (loop_cons s s' p ps e).1 in
      let f' = (loop_cons (with_hash s r') t' q qs f).1 in
      let rest =
        loop_bind ps qs (eval_step hash s p) s' t' (eval_step hash (with_hash s r') q).r
          (step-IsHash s p) (step-IsHash (with_hash s r') q) hp.1 hq.1 e'
          (rw (step_same s r' p q) f') zs zt same in
      elim rest [
        | inr c ↦ inr c
        | inl eqs ↦ elim (step_bind s r' p q hr hr' hp.0 hq.0 eqs.0) [
          | inr c ↦ inr c
          | inl here ↦ inl (here.0, cc (here.1, eqs.1))
        ]
      ]

  -- What a successful evaluation has run.
  evaluate_run :
      (start end index : ℕ) (e : Hash) (ps : List Hash) (h : Hash)
      → evaluate_inclusion_proof hash start end index e ps ≡ ok h
      → (s : EvalState) × (eval_loop hash
            (record { fn = index - start; sn = end - start - 1; r = e })
            ps
          ≡ ok s)
        × (s.sn ≡ 0)
        × (s.r ≡ h)
  unfolding evaluate_inclusion_proof
  evaluate_run start end index e ps h run =
      evaluate_tail (is_valid start end) (not (ltb index start || leb end index))
        (eval_loop hash (record { fn = index - start; sn = end - start - 1; r = e }) ps) h run

  -- For one subtree and index, entry hash and proof are determined by the hash they evaluate to,
  -- or else two inputs with the same hash are at hand.
  pub evaluate-binding :
      (start end index : ℕ) (e e' h : Hash) (ps qs : List Hash)
      → IsHash e
      → IsHash e'
      → All IsHash ps
      → All IsHash qs
      → evaluate_inclusion_proof hash start end index e ps ≡ ok h
      → evaluate_inclusion_proof hash start end index e' qs ≡ ok h
      → ((e ≡ e') × (ps ≡ qs)) ⊎ Collision hash
  evaluate-binding start end index e e' h ps qs he he' hp hq run run' =
      let (s, es, zs, rs) = evaluate_run start end index e ps h run in
      let (t, et, zt, rt) = evaluate_run start end index e' qs h run' in
      loop_bind ps qs _ s t e' he he' hp hq es et zs zt (rs ∙ sym rt)
