-- ===== src/Tc/Bplus/Insert.antt =====
-- `_bpinsert` of TC/kernel_module/src/bplus.c for a key within the range of the tree: it is the
-- insertion into the sorted list of all entries.
use laft.Common.{
  ==_iff, Bool-cases, List, [], ap, arith, false, if◌then◌else◌, inl, inr, length, length-append,
  ltb, ltb→lt, lt→ltb, refl, some, subst, suc, sym, true, zero, ℕ, ◌++◌, ◌<◌, ◌==◌, ◌∙◌, ◌∷◌, ◌≡◌,
  ◌≤◌,
}
use laft.Tc.Bplus.{
  Key, Node, Part, absorb, insert_below, insert_link, min_degree, pointer_num, seek, split,
}
use laft.Tc.Bplus.Spans.{
  Anything, Below, Spans-Below, Spans, append-Spans, insert_link-at, Spans-le, locate, seek-at,
}
use laft.Tc.Bplus.Search.{IsNode, IsPart, entries, entries-Spans, entries-zero}
use laft.Tc.Bplus.Split.{Grows, Grows-weaken, absorb-Grows, entries-around, split-Grows}

module _ {V : Type 0} where
  -- The plain insertion into a sorted list; a key that is there keeps its record.
  abbrev pub put : Key → V → List (Key × V) → List (Key × V)
  put k v [] = (k, v) ∷ []
  put k v (p ∷ ps) =
      let rest = put k v ps in
      if ltb p.0 k then p ∷ rest else if p.0 == k then p ∷ ps else (k, v) ∷ p ∷ ps

  pub put-skip :
      (k : Key) (v : V) (xs ys : List (Key × V))
      → Below k xs
      → put k v (xs ++ ys) ≡ xs ++ put k v ys
  put-skip k v [] ys b = refl
  put-skip k v (x ∷ xs) ys b = rw (lt→ltb _ _ b.0) (ap (◌∷◌ x) (put-skip k v xs ys b.1))

  pub put-stop :
      (k lo : ℕ) (v : V) (ys zs : List (Key × V)) (top : ℕ)
      → lo ≤ k
      → k < top
      → Spans Anything lo ys top
      → put k v (ys ++ zs) ≡ put k v ys ++ zs
  put-stop k lo v [] zs top h g s = absurd (omega arith)
  put-stop k lo v (y ∷ ys) zs top h g s = elim (Bool-cases (ltb y.0 k)) [
    | inl e ↦ rw e (ap (◌∷◌ y) (put-stop k (suc y.0) v ys zs top (ltb→lt _ _ e) g s.2))
    | inr e ↦ elim (Bool-cases (y.0 == k)) [ inl f ↦ rw (e, f) | inr f ↦ rw (e, f) ]
  ]

  -- The last key of a range is there.
  pub put-held :
      (k lo : ℕ) (v : V) (ys : List (Key × V))
      → lo ≤ k
      → Spans Anything lo ys (suc k)
      → put k v ys ≡ ys
  put-held k lo v [] h s = absurd (omega arith)
  put-held k lo v (y ∷ ys) h s = elim (Bool-cases (ltb y.0 k)) [
    | inl e ↦ rw e (ap (◌∷◌ y) (put-held k (suc y.0) v ys (ltb→lt _ _ e) s.2))
    | inr e ↦
        let f : (y.0 == k) ≡ true =
          (==_iff _ _).1 (ground (arith, Spans-le Anything (suc y.0) ys (suc k) s.2)) in
        rw (e, f)
  ]

  pub put-fresh :
      (k : Key) (v : V) (xs : List (Key × V)) (p : Key × V) (ys : List (Key × V))
      → Below k xs
      → k < p.0
      → put k v (xs ++ p ∷ ys) ≡ xs ++ (k, v) ∷ p ∷ ys
  put-fresh k v xs p ys b h =
      let e : ltb p.0 k ≡ false = ground arith in
      let f : (p.0 == k) ≡ false = ground arith in
      put-skip k v xs (p ∷ ys) b ∙ ap (λ z. xs ++ z) (rw (e, f))

  pub put-present :
      (k : Key) (v : V) (xs : List (Key × V)) (p : Key × V) (ys : List (Key × V))
      → Below k xs
      → p.0 ≡ k
      → put k v (xs ++ p ∷ ys) ≡ xs ++ p ∷ ys
  put-present k v xs p ys b h =
      let e : ltb p.0 k ≡ false = ground arith in
      put-skip k v xs (p ∷ ys) b ∙ ap (λ z. xs ++ z) (rw (e, (==_iff _ _).1 h))

-- Inserting among the entries under one child.
put-around :
    (V : Type 0) (h lo mid k j : ℕ) (v : V) (xs : List (Key × Node (Part V h)))
    (c : Node (Part V h)) (ys : List (Key × Node (Part V h)))
    → Spans (IsPart V (suc h)) lo xs mid
    → mid ≤ k
    → k ≤ j
    → IsPart V (suc h) mid (suc j) c
    → put k v (entries V (suc h) (xs ++ (j, c) ∷ ys))
      ≡ entries V (suc h) xs ++ (put k v (entries V h c.links) ++ entries V (suc h) ys)
put-around V h lo mid k j v xs c ys s ml la w =
    ap (put k v) (entries-around V h xs (j, c) ys)
    ∙ put-skip k v (entries V (suc h) xs) _ (
        Spans-Below Anything lo (entries V (suc h) xs) mid k ml
          (entries-Spans V (suc h) lo xs mid s))
    ∙ ap (λ z. entries V (suc h) xs ++ z)
        (put-stop k mid v (entries V h c.links) (entries V (suc h) ys) (suc j) ml (omega arith)
          (entries-Spans V h mid c.links (suc j) w.1))

insert_leaf-Grows :
    (V : Type 0) (lo top : ℕ) (S : Type 0) (n : Node V) (k : Key) (v : V)
    → lo ≤ k
    → k < top
    → IsNode V zero lo top n
    → (put k v (entries V zero n.links) ≡ entries V zero n.links → S)
    → Grows V zero lo top
        (pointer_num n)
        S
        (put k v (entries V zero n.links))
        (insert_below zero n k v)
unfolding insert_below
insert_leaf-Grows V lo top S n k v h g w f =
    let r = locate (IsPart V zero) lo n.links top k h g w.1 in
    let below = Spans-Below (IsPart V zero) lo r.before r.mid k r.mid_le r.spans_before in
    let seeks : seek n.links k ≡ some (r.at, r.part) =
      rw r.splits (seek-at k r.before (r.at, r.part) r.after below r.le_at) in
    rw (insert_below, seeks)
      (elim (Bool-cases (r.at == k)) [
        | inl e ↦
            let held : put k v n.links ≡ n.links =
              subst (λ z. put k v z ≡ z) (sym r.splits)
                (put-present k v r.before (r.at, r.part) r.after below ((==_iff _ _).0 e)) in
            rw e (f (ap (put k v) (entries-zero n.links) ∙ held ∙ sym (entries-zero n.links)))
        | inr e ↦
            let above : k < r.at = ground (arith, r.le_at) in
            let links' = r.before ++ (k, v) ∷ (r.at, r.part) ∷ r.after in
            let eq : insert_link n.links k v ≡ links' =
              rw r.splits (insert_link-at k v r.before (r.at, r.part) r.after below r.le_at) in
            let more : length links' ≡ suc (length n.links) = omega (
              arith,
              ap length r.splits,
              length-append {0} r.before ((r.at, r.part) ∷ r.after),
              length-append {0} r.before ((k, v) ∷ (r.at, r.part) ∷ r.after),
            ) in
            let puts : entries V zero links' ≡ put k v (entries V zero n.links) =
              entries-zero links'
              ∙ sym (put-fresh k v r.before (r.at, r.part) r.after below above)
              ∙ ap (put k v) (sym r.splits ∙ sym (entries-zero n.links)) in
            rw (e, eq)
              (subst
                (λ z.
                  Grows V zero lo top (pointer_num n) S z
                    (split (record { key = n.key; links = links' })))
                puts
                (split-Grows V zero lo top (pointer_num n) S
                  (record { key = n.key; links = links' }) w.0
                  (append-Spans (IsPart V zero) lo r.before r.mid
                    ((k, v) ∷ (r.at, r.part) ∷ r.after) top r.spans_before
                    (r.mid_le, tt, (above, tt, r.spans_after)))
                  (omega (arith, more, w.2)) (omega (arith, more))))
      ])

pub insert_below-Grows :
    (V : Type 0) (h lo top : ℕ) (S : Type 0) (n : Node (Part V h)) (k : Key) (v : V)
    → lo ≤ k
    → k < top
    → IsNode V h lo top n
    → (put k v (entries V h n.links) ≡ entries V h n.links → S)
    → Grows V h lo top (pointer_num n) S (put k v (entries V h n.links)) (insert_below h n k v)
unfolding insert_below
insert_below-Grows V zero lo top S n k v hl hg w f = insert_leaf-Grows V lo top S n k v hl hg w f
insert_below-Grows V (suc h) lo top S n k v hl hg w f =
    let r = locate (IsPart V (suc h)) lo n.links top k hl hg w.1 in
    let below = Spans-Below (IsPart V (suc h)) lo r.before r.mid k r.mid_le r.spans_before in
    let seeks : seek n.links k ≡ some (r.at, r.part) =
      rw r.splits (seek-at k r.before (r.at, r.part) r.after below r.le_at) in
    let puts : put k v (entries V (suc h) n.links)
        ≡ entries V (suc h) r.before
          ++ (put k v (entries V h r.part.links) ++ entries V (suc h) r.after) =
      ap (λ z. put k v (entries V (suc h) z)) r.splits
      ∙ put-around V h lo r.mid k r.at v r.before r.part r.after r.spans_before r.mid_le r.le_at
          r.at_part in
    let keeps : put k v (entries V h r.part.links) ≡ entries V h r.part.links
        → put k v (entries V (suc h) n.links) ≡ entries V (suc h) n.links =
      λ e.
        puts
        ∙ ap (λ z. entries V (suc h) r.before ++ (z ++ entries V (suc h) r.after)) e
        ∙ sym (entries-around V h r.before (r.at, r.part) r.after)
        ∙ ap (entries V (suc h)) (sym r.splits) in
    rw (insert_below, seeks)
      (elim (Bool-cases (r.at == k)) [
        | inl e ↦
            let same = (==_iff _ _).0 e in
            rw e (
              f (
                keeps (
                  put-held k r.mid v (entries V h r.part.links) r.mid_le (
                    subst (λ z. Spans Anything r.mid (entries V h r.part.links) (suc z)) same
                      (entries-Spans V h r.mid r.part.links (suc r.at) r.at_part.1)))))
        | inr e ↦ rw e (
            subst
              (λ z.
                Grows V (suc h) lo top (pointer_num n) S z (absorb n k (insert_below h r.part k v)))
              (sym puts)
              (absorb-Grows V h lo r.mid top r.at k n r.before r.part r.after r.splits w.0
                r.spans_before r.mid_le r.le_at r.spans_after w.2 S _ (insert_below h r.part k v)
                (Grows-weaken V h r.mid (suc r.at) (pointer_num r.part) min_degree S _
                  (insert_below h r.part k v) r.at_part.2
                  (insert_below-Grows V h r.mid (suc r.at) S r.part k v r.mid_le
                    (omega (arith, r.le_at)) (r.at_part.0, r.at_part.1, r.at_part.3)
                    (λ d. f (keeps d))))))
      ])
