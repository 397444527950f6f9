-- ===== src/Landmark/Lookup.antt =====
-- The lookups of landmark/sequence.go, on which landmark-relative certificates rest: the
-- landmark of an entry, and the subtrees of that landmark.
use cactus.Prelude.{
  ℕ, zero, suc, ◌+◌, ◌-◌, ◌^◌, ◌≤◌, ◌<◌, ◌≡◌, inl, inr, refl, ap, ◌∙◌, some, List, [], ◌∷◌, ok,
  arith, ◌==◌, ==_self, ==_ne, ltb, leb, lt→not-leb, le→not-ltb, false, true, Bool-cases, Bool, All,
  Any, length, get_elem?, get_elem?-length, ◌&&◌,
}
use cactus.Tlogx.{Subtree, find_subtrees}
use cactus.Tlogx.Covering.{Covers, find_subtrees-Covers}
use cactus.Landmark.{
  Landmark, containing_index, landmark_subtrees, landmark_eq, get_last, latest_tree_size, at,
  covering,
}
use cactus.Landmark.Order.{IsSequence, Continues}

-- The entry is in the subtree's range.
abbrev pub IsIn : ℕ → Subtree → Type 0
IsIn index s = (s.start ≤ index) × (index < s.end)

abbrev pub Some : ℕ → List Subtree → Type 0
Some index ss = Any (IsIn index) ss

-- Whatever the range's length, its entries are in the subtrees that find_subtrees gives.
pub find_subtrees-Some :
    (start end index : ℕ)
    → start ≤ index
    → index < end
    → end < 2 ^ 64
    → (ss : List Subtree) × (find_subtrees start end ≡ ok ss) × Some index ss
unfolding find_subtrees
find_subtrees-Some start end index above below fits = elim (Bool-cases (end - start == 1)) [
  | inl one ↦ (record { start = start; end = end } ∷ [], run one, inl (above, below))
  | inr many ↦
      let (left, right, e, c) = find_subtrees-Covers start end (ground arith) fits in
      (left ∷ right ∷ [], e, place left right c)
]
  where
    run :
        (end - start == 1) ≡ true
        → find_subtrees start end ≡ ok (record { start = start; end = end } ∷ [])
    run one = rw (lt→not-leb end start (omega (arith, above, below)), one) refl

    place : (left right : Subtree) → Covers start end left right → Some index (left ∷ right ∷ [])
    place left right c = elim (Bool-cases (ltb index left.end)) [
      | inl first ↦ inl (omega (arith, c.reaches), ground arith)
      | inr second ↦ inr (inl (ground (arith, c.meets), ground (arith, c.ends)))
    ]

-- The first landmark above an index, and the one before it.
record Found (index n : ℕ) (ls : List Landmark) : Type 0 where
  before : Landmark
  landmark : Landmark
  place : ℕ
  before_at : get_elem? ls place ≡ some before
  landmark_at : get_elem? ls (suc place) ≡ some landmark
  number : landmark.number ≡ n + suc place
  covers : (before.tree_size ≤ index) × (index < landmark.tree_size)
  is_first : containing_index index ls ≡ some landmark

find :
    (index n : ℕ) (l : Landmark) (ls : List Landmark)
    → Continues (n + 1) l.tree_size ls
    → l.tree_size ≤ index
    → index < latest_tree_size l ls
    → Found index n (l ∷ ls)
unfolding latest_tree_size get_last containing_index
find index n l [] c above below = absurd (omega (arith, above, below))
find index n l (m ∷ ls) c above below = elim (Bool-cases (ltb index m.tree_size)) [
  | inl here ↦ record {
    before = l;
    landmark = m;
    place = 0;
    before_at = refl;
    landmark_at = refl;
    number = omega (arith, c.0);
    covers = (above, ground arith);
    is_first = rw (le→not-ltb index l.tree_size above) (rw here refl);
  }
  | inr later ↦
      let f = find index (n + 1) m ls (c.2) (ground arith) below in
      record {
        before = f.before;
        landmark = f.landmark;
        place = suc f.place;
        before_at = f.before_at;
        landmark_at = f.landmark_at;
        number = omega (arith, f.number);
        covers = f.covers;
        is_first = rw (le→not-ltb index l.tree_size above) f.is_first;
      }
]

landmark_eq_self : (l : Landmark) → landmark_eq l l ≡ true
unfolding landmark_eq
landmark_eq_self l = rw (==_self l.number, ==_self l.tree_size, ==_self l.allocated_at) refl

at-some : (ls : List Landmark) (i : ℕ) (l : Landmark) → get_elem? ls i ≡ some l → at ls i ≡ ok l
unfolding at
at-some ls i l e = rw (at, e) refl

and_false : (b : Bool) → (b && false) ≡ false
and_false true = refl
and_false false = refl

-- The subtrees of a landmark after the first of a sequence.
landmark_subtrees-find :
    (ls : List Landmark) (i : ℕ) (b l : Landmark)
    → get_elem? ls i ≡ some b
    → get_elem? ls (suc i) ≡ some l
    → l.number ≡ suc i
    → b.tree_size < l.tree_size
    → landmark_subtrees ls l ≡ find_subtrees b.tree_size l.tree_size
unfolding landmark_subtrees covering
landmark_subtrees-find ls i b l eb el number grows =
    let n0 : (l.number == 0) ≡ false = ==_ne l.number 0 (λ e. absurd (omega (arith, e, number))) in
    let within : leb (length ls) l.number ≡ false =
      lt→not-leb (length ls) l.number (omega (arith, get_elem?-length ls (suc i) l el)) in
    let beyond : (ltb l.number (2 ^ 63) && leb (length ls) l.number) ≡ false =
      ap (λ b. ltb l.number (2 ^ 63) && b) within ∙ and_false (ltb l.number (2 ^ 63)) in
    let prev : at ls (l.number - 1) ≡ ok b =
      at-some ls (l.number - 1) b (ap (get_elem? ls) (omega arith) ∙ eb) in
    let same : at ls l.number ≡ ok l = at-some ls l.number l (ap (get_elem? ls) number ∙ el) in
    rw (n0, beyond, same, prev, landmark_eq_self l, lt→not-leb l.tree_size b.tree_size grows) refl

-- In a sequence, an index below the latest tree size has a landmark: ContainingIndex gives the
-- landmark, above the index, of which the one before is not, and LandmarkSubtrees gives for it
-- subtrees one of which holds the index. The landmark's tree size is to fit in 64 bits.
pub landmark_of-index :
    (index : ℕ) (l : Landmark) (ls : List Landmark)
    → IsSequence (l ∷ ls)
    → index < latest_tree_size l ls
    → All (λ m. m.tree_size < 2 ^ 64) (l ∷ ls)
    → (m : Landmark) × (b : Landmark) × (ss : List Subtree) × (containing_index index (l ∷ ls)
        ≡ some m)
      × (get_elem? (l ∷ ls) m.number ≡ some m)
      × (get_elem? (l ∷ ls) (m.number - 1) ≡ some b)
      × (b.tree_size ≤ index)
      × (index < m.tree_size)
      × (landmark_subtrees (l ∷ ls) m ≡ ok ss)
      × Some index ss
landmark_of-index index l ls (numbered, empty, c) below fits =
    let f = find index 0 l ls (rw empty c) (omega (arith, empty)) below in
    let number : f.landmark.number ≡ suc f.place = omega (arith, f.number) in
    let (above, under) = f.covers in
    let (ss, run, holds) =
      find_subtrees-Some f.before.tree_size f.landmark.tree_size index above under
        (All-get (l ∷ ls) (suc f.place) f.landmark fits f.landmark_at) in
    (
      f.landmark,
      f.before,
      ss,
      f.is_first,
      ap (get_elem? (l ∷ ls)) number ∙ f.landmark_at,
      ap (get_elem? (l ∷ ls)) (omega (arith, f.number)) ∙ f.before_at,
      above,
      under,
      landmark_subtrees-find (l ∷ ls) f.place f.before f.landmark f.before_at f.landmark_at number
            (omega (arith, above, under))
          ∙ run,
      holds,
    )
  where
    All-get :
        (ms : List Landmark) (i : ℕ) (m : Landmark)
        → All (λ m. m.tree_size < 2 ^ 64) ms
        → get_elem? ms i ≡ some m
        → m.tree_size < 2 ^ 64
    All-get [] i m h e = absurd (ground arith)
    All-get (k ∷ ms) zero m h e = ground arith
    All-get (k ∷ ms) (suc i) m h e = All-get ms i m (h.1) e
