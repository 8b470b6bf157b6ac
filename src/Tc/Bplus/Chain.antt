-- ===== src/Tc/Bplus/Chain.antt =====
-- The chain of values and the root of the tree of TC/kernel_module/src/bplus.c after an insertion.
use mathlib.Core.List.{append-nil}
use mathlib.Core.Option.{some-injective}
use laft.Common.{
  ==_iff, Bool-cases, List, Option, Option-cases, [], ap, arith, false, inl, inr, length, ltb,
  lt→ltb, none, refl, some, subst, suc, sym, true, zero, ℕ, ◌++◌, ◌==◌, ◌∙◌, ◌∷◌, ◌≡◌, ◌≢◌, ◌≤◌,
}
use laft.Tc.Bplus.{
  Key, Node, Outcome, Part, absorb, chain_before, descend, endless, grow, halves, insert_below,
  present, seek, whole,
}
use laft.Tc.Bplus.Spans.{Below, Spans, Spans-le}
use laft.Tc.Bplus.Search.{IsPart, IsRoot, entries, root_degree}
use laft.Tc.Bplus.Split.{Grows}
use laft.Tc.Bplus.Insert.{put}

module _ {V : Type 0} where
  seek-past :
      (k : Key) (x : Key × V) (xs : List (Key × V)) → ltb x.0 k ≡ true → seek (x ∷ xs) k ≡ seek xs k
  seek-past k x xs d = rw d

  seek-here :
      (k : Key) (x : Key × V) (xs : List (Key × V)) → ltb x.0 k ≡ false → seek (x ∷ xs) k ≡ some x
  seek-here k x xs d = rw d

  seek-le : (k : Key) (es : List (Key × V)) (p : Key × V) → seek es k ≡ some p → k ≤ p.0
  seek-le k [] p e = cc
  seek-le k (x ∷ xs) p e = elim (Bool-cases (ltb x.0 k)) [
    | inl d ↦ seek-le k xs p (sym (seek-past k x xs d) ∙ e)
    | inr d ↦
        let same : x ≡ p = some-injective x p (sym (seek-here k x xs d) ∙ e) in
        ground (arith, ap (λ z. z.0) same)
  ]

  -- The chain grows before the first value that is not below the key.
  pub chain_before-puts :
      (k : Key) (v : V) (es : List (Key × V)) (p : Key × V)
      → seek es k ≡ some p
      → p.0 ≢ k
      → (chain_before es p.0 (k, v) ≡ put k v es) × (length (put k v es) ≡ suc (length es))
  unfolding chain_before
  chain_before-puts k v [] p e ne = cc
  chain_before-puts k v (x ∷ xs) p e ne = elim (Bool-cases (ltb x.0 k)) [
    | inl d ↦
        let e' : seek xs k ≡ some p = sym (seek-past k x xs d) ∙ e in
        let r = chain_before-puts k v xs p e' ne in
        let le = seek-le k xs p e' in
        let other : (x.0 == p.0) ≡ false = ground arith in
        rw (d, other) (ap (◌∷◌ x) r.0, ap suc r.1)
    | inr d ↦
        let same : x ≡ p = some-injective x p (sym (seek-here k x xs d) ∙ e) in
        let d' : ltb p.0 k ≡ false = subst (λ z. ltb z.0 k ≡ false) same d in
        let ne' : (p.0 == k) ≡ false = ground arith in
        rw (same, (==_iff p.0 p.0).1 refl, d', ne') (refl, refl)
  ]

  pub seek-put :
      (k : Key) (v : V) (es : List (Key × V)) (p : Key × V)
      → seek es k ≡ some p
      → p.0 ≡ k
      → put k v es ≡ es
  seek-put k v [] p e same = cc
  seek-put k v (x ∷ xs) p e same = elim (Bool-cases (ltb x.0 k)) [
    | inl d ↦ rw d (ap (◌∷◌ x) (seek-put k v xs p (sym (seek-past k x xs d) ∙ e) same))
    | inr d ↦
        let first : x ≡ p = some-injective x p (sym (seek-here k x xs d) ∙ e) in
        let f : (x.0 == k) ≡ true = (==_iff _ _).1 (ap (λ z. z.0) first ∙ same) in rw (d, f)
  ]

  -- A key at which the descent stops is there already.
  pub insert_below-present :
      (h : ℕ) (n : Node (Part V h)) (k : Key) (v : V) (p : Key × V)
      → descend h n.links k ≡ some p
      → p.0 ≡ k
      → insert_below h n k v ≡ present
  unfolding descend insert_below absorb
  insert_below-present zero n k v p e same =
      let e' : seek n.links k ≡ some p = e in rw (insert_below, e', (==_iff _ _).1 same)
  insert_below-present (suc h) n k v p e same = elim (Option-cases (seek n.links k)) [
    | inl d ↦ let e' : descend (suc h) n.links k ≡ none = rw (descend, d) in cc
    | inr (q, d) ↦
        let e' : descend (suc h) n.links k ≡ descend h q.1.links k = rw (descend, d) in
        let rest = insert_below-present h q.1 k v p (sym e' ∙ e) same in
        rw (insert_below, d, rest) (elim (Bool-cases (q.0 == k)) [ inl f ↦ rw f | inr f ↦ rw f ])
  ]

  pub append-puts :
      (k : Key) (v : V) (es : List (Key × V))
      → Below k es
      → (put k v es ≡ es ++ (k, v) ∷ []) × (length (put k v es) ≡ suc (length es))
  append-puts k v [] b = (refl, refl)
  append-puts k v (e ∷ es) b =
      let r = append-puts k v es b.1 in rw (lt→ltb _ _ b.0) (ap (◌∷◌ e) r.0, ap suc r.1)

-- The root that comes of a node that grew.
abbrev pub root_entries : (V : Type 0) → Option ((h : ℕ) × Node (Part V h)) → List (Key × V)
root_entries V r = elim r [ none ↦ [] | some (h, n) ↦ entries V h n.links ]

pub grow-IsRoot :
    (V : Type 0) (h top m : ℕ) (o : Outcome (Part V h)) (es : List (Key × V))
    → root_degree h ≤ m
    → Grows V h 0 top m ⊥ es o
    → IsRoot V (grow h o) × (root_entries V (grow h o) ≡ es)
unfolding grow
grow-IsRoot V h top m endless es d g = absurd g
grow-IsRoot V h top m present es d g = absurd g
grow-IsRoot V h top m (whole n) es d g = (
  (
    (refl, subst (λ z. Spans (IsPart V h) 0 n.links z) (sym g.0.0) g.0.1, g.0.2),
    omega (arith, d, g.1),
  ),
  g.2,
)
grow-IsRoot V h top m (halves l r) es d g =
    let high = Spans-le (IsPart V h) (suc l.key) r.links top g.1.1 in
    let right : IsPart V (suc h) (suc l.key) (suc r.key) r = (
      refl,
      subst (λ z. Spans (IsPart V h) (suc l.key) r.links z) (sym g.1.0) g.1.1,
      g.1.2,
      g.1.3,
    ) in
    (
      (
        (refl, (omega arith, g.0, (omega (arith, high, g.1), right, refl)), omega arith),
        omega arith,
      ),
      ap (λ z. entries V h l.links ++ z) (append-nil _) ∙ g.2,
    )
