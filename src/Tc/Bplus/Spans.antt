-- ===== src/Tc/Bplus/Spans.antt =====
-- Links in ascending order that share out a range of keys, for the B+ tree of
-- TC/kernel_module/src/bplus.c.
use laft.Common.{
  All, Bool-cases, List, [], ap, arith, drop, false, inl, inr, length, ltb, ltb→lt, lt→ltb, refl,
  some, subst, suc, sym, take, zero, ℕ, ◌++◌, ◌+◌, ◌<◌, ◌∷◌, ◌≡◌, ◌≤◌,
}
use laft.Tc.Bplus.{Key, Node, insert_link, key_at, put_child, put_halves, seek}

-- The links cover the keys from `lo` on and below `top`; `P` speaks of a part and of its own range.
abbrev pub Spans : {A : Type 0} → (ℕ → ℕ → A → Type 0) → ℕ → List (Key × A) → ℕ → Type 0
Spans P lo [] top = lo ≡ top
Spans P lo (p ∷ ps) top = (lo ≤ p.0) × P lo (suc p.0) p.1 × Spans P (suc p.0) ps top

abbrev pub Anything : {A : Type 0} → ℕ → ℕ → A → Type 0
Anything lo top a = Unit

abbrev pub Below : {A : Type 0} → Key → List (Key × A) → Type 0
Below k = All (λ p. p.0 < k)

module _ {A : Type 0} (P : ℕ → ℕ → A → Type 0) where
  pub Spans-le : (lo : ℕ) (ps : List (Key × A)) (top : ℕ) → Spans P lo ps top → lo + length ps ≤ top
  Spans-le lo [] top s = omega arith
  Spans-le lo (p ∷ ps) top s = omega (arith, Spans-le (suc p.0) ps top s.2)

  pub Spans-length_pos :
      (lo : ℕ) (ps : List (Key × A)) (top : ℕ) → lo < top → Spans P lo ps top → 0 < length ps
  Spans-length_pos lo [] top h s = absurd (omega arith)
  Spans-length_pos lo (p ∷ ps) top h s = omega arith

  pub append-Spans :
      (lo : ℕ) (xs : List (Key × A)) (mid : ℕ) (ys : List (Key × A)) (top : ℕ)
      → Spans P lo xs mid
      → Spans P mid ys top
      → Spans P lo (xs ++ ys) top
  append-Spans lo [] mid ys top s t = subst (λ z. Spans P z ys top) (sym s) t
  append-Spans lo (x ∷ xs) mid ys top s t = (s.0, s.1, append-Spans (suc x.0) xs mid ys top s.2 t)

  pub Spans-Below :
      (lo : ℕ) (ps : List (Key × A)) (top k : ℕ) → top ≤ k → Spans P lo ps top → Below k ps
  Spans-Below lo [] top k h s = tt
  Spans-Below lo (p ∷ ps) top k h s =
      (omega (arith, Spans-le (suc p.0) ps top s.2), Spans-Below (suc p.0) ps top k h s.2)

  -- A prefix of at least one link ends at its last key, and the others start there.
  pub take-Spans :
      (i lo : ℕ) (ps : List (Key × A)) (top : ℕ)
      → i < length ps
      → Spans P lo ps top
      → Spans P lo (take (suc i) ps) (suc (key_at ps i))
  take-Spans i lo [] top h s = absurd (omega arith)
  take-Spans zero lo (p ∷ ps) top h s = (s.0, s.1, refl)
  take-Spans (suc i) lo (p ∷ ps) top h s =
      (s.0, s.1, take-Spans i (suc p.0) ps top (omega arith) s.2)

  pub drop-Spans :
      (i lo : ℕ) (ps : List (Key × A)) (top : ℕ)
      → i < length ps
      → Spans P lo ps top
      → Spans P (suc (key_at ps i)) (drop (suc i) ps) top
  drop-Spans i lo [] top h s = absurd (omega arith)
  drop-Spans zero lo (p ∷ ps) top h s = s.2
  drop-Spans (suc i) lo (p ∷ ps) top h s = drop-Spans i (suc p.0) ps top (omega arith) s.2

  -- The link whose range holds a key, and what stands round it.
  pub record Spot (lo : ℕ) (ps : List (Key × A)) (top k : ℕ) : Type 0 where
    pub before : List (Key × A)
    pub mid : ℕ
    pub at : Key
    pub part : A
    pub after : List (Key × A)
    pub splits : ps ≡ before ++ (at, part) ∷ after
    pub spans_before : Spans P lo before mid
    pub mid_le : mid ≤ k
    pub le_at : k ≤ at
    pub at_part : P mid (suc at) part
    pub spans_after : Spans P (suc at) after top

  pub locate :
      (lo : ℕ) (ps : List (Key × A)) (top k : ℕ)
      → lo ≤ k
      → k < top
      → Spans P lo ps top
      → Spot lo ps top k
  locate lo [] top k h g s = absurd (omega arith)
  locate lo (p ∷ ps) top k h g s = elim (Bool-cases (ltb p.0 k)) [
    | inl e ↦
        let r = locate (suc p.0) ps top k (ltb→lt _ _ e) g s.2 in
        record {
          before = p ∷ r.before;
          mid = r.mid;
          at = r.at;
          part = r.part;
          after = r.after;
          splits = ap (◌∷◌ p) r.splits;
          spans_before = (s.0, s.1, r.spans_before);
          mid_le = r.mid_le;
          le_at = r.le_at;
          at_part = r.at_part;
          spans_after = r.spans_after;
        }
    | inr e ↦ record {
      before = [];
      mid = lo;
      at = p.0;
      part = p.1;
      after = ps;
      splits = refl;
      spans_before = refl;
      mid_le = h;
      le_at = ground arith;
      at_part = s.1;
      spans_after = s.2;
    }
  ]

-- What the loops of the tree do at such a link.
module _ {A : Type 0} (k : Key) where
  pub seek-at :
      (xs : List (Key × A)) (p : Key × A) (ys : List (Key × A))
      → Below k xs
      → k ≤ p.0
      → seek (xs ++ p ∷ ys) k ≡ some p
  seek-at [] p ys b h = let e : ltb p.0 k ≡ false = ground arith in rw e
  seek-at (x ∷ xs) p ys b h = rw (lt→ltb _ _ b.0) (seek-at xs p ys b.1 h)

  pub insert_link-at :
      (v : A) (xs : List (Key × A)) (p : Key × A) (ys : List (Key × A))
      → Below k xs
      → k ≤ p.0
      → insert_link (xs ++ p ∷ ys) k v ≡ xs ++ (k, v) ∷ p ∷ ys
  unfolding insert_link
  insert_link-at v [] p ys b h = let e : ltb p.0 k ≡ false = ground arith in rw e
  insert_link-at v (x ∷ xs) p ys b h =
      rw (lt→ltb _ _ b.0) (ap (◌∷◌ x) (insert_link-at v xs p ys b.1 h))

  pub put_child-at :
      (c : A) (xs : List (Key × A)) (p : Key × A) (ys : List (Key × A))
      → Below k xs
      → k ≤ p.0
      → put_child (xs ++ p ∷ ys) k c ≡ xs ++ (p.0, c) ∷ ys
  unfolding put_child
  put_child-at c [] p ys b h = let e : ltb p.0 k ≡ false = ground arith in rw e
  put_child-at c (x ∷ xs) p ys b h = rw (lt→ltb _ _ b.0) (ap (◌∷◌ x) (put_child-at c xs p ys b.1 h))

pub put_halves-at :
    {A : Type 0} (l r : Node A) (xs : List (Key × Node A)) (p : Key × Node A)
    (ys : List (Key × Node A))
    → Below l.key xs
    → l.key ≤ p.0
    → put_halves (xs ++ p ∷ ys) l r ≡ xs ++ (l.key, l) ∷ (p.0, r) ∷ ys
unfolding put_halves
put_halves-at l r [] p ys b h = let e : ltb p.0 l.key ≡ false = ground arith in rw e
put_halves-at l r (x ∷ xs) p ys b h =
    rw (lt→ltb _ _ b.0) (ap (◌∷◌ x) (put_halves-at l r xs p ys b.1 h))
