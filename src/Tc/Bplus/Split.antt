-- ===== src/Tc/Bplus/Split.antt =====
-- Splitting a node of TC/kernel_module/src/bplus.c, and the way of a split up to its parent.
use mathlib.Core.List.{append_assoc}
use laft.Common.{
  Bool-cases, List, ap, arith, drop, false, inl, inr, leb, leb→le, length, length-append,
  length-drop, length-take, refl, subst, suc, sym, take, take-append-drop, ℕ, ◌++◌, ◌<◌, ◌∙◌, ◌∷◌,
  ◌≡◌, ◌≤◌,
}
use laft.Tc.Bplus.{
  Key, Node, Outcome, Part, absorb, endless, halves, key_at, max_degree, min_degree, pointer_num,
  present, put_child, put_halves, split, whole,
}
use laft.Tc.Bplus.Spans.{
  Below, Spans-Below, Spans, append-Spans, drop-Spans, Spans-le, put_child-at, put_halves-at,
  take-Spans,
}
use laft.Tc.Bplus.Search.{IsNode, IsPart, concat_links-append, entries, part_entries}

-- What becomes of a node: nothing if `S`, or it holds the entries `es` of its range, in one node of
-- at least `m` links or in two of at least four.
abbrev pub Grows :
    (V : Type 0) (h lo top m : ℕ) → Type 0 → List (Key × V) → Outcome (Part V h) → Type 0
Grows V h lo top m S es endless = ⊥
Grows V h lo top m S es present = S
Grows V h lo top m S es (whole n) =
    IsNode V h lo top n × (m ≤ pointer_num n) × (entries V h n.links ≡ es)
Grows V h lo top m S es (halves l r) =
    IsPart V (suc h) lo (suc l.key) l
    × IsPart V (suc h) (suc l.key) top r
    × (entries V h l.links ++ entries V h r.links ≡ es)

pub Grows-weaken :
    (V : Type 0) (h lo top m m' : ℕ) (S : Type 0) (es : List (Key × V)) (o : Outcome (Part V h))
    → m' ≤ m
    → Grows V h lo top m S es o
    → Grows V h lo top m' S es o
Grows-weaken V h lo top m m' S es endless le g = g
Grows-weaken V h lo top m m' S es present le g = g
Grows-weaken V h lo top m m' S es (whole n) le g = (g.0, omega (arith, g.1), g.2)
Grows-weaken V h lo top m m' S es (halves l r) le g = g

pub split-halves :
    {A : Type 0} (n : Node A)
    → max_degree < pointer_num n
    → (l : Node A) × (r : Node A) × (split n ≡ halves l r)
unfolding split
split-halves n big =
    let f : leb (pointer_num n) max_degree ≡ false = ground arith in
    (
      record { key = key_at n.links min_degree; links = take (suc min_degree) n.links },
      record { key = n.key; links = drop (suc min_degree) n.links },
      rw f,
    )

module _ (V : Type 0) (h : ℕ) where
  pub split-Grows :
      (lo top m : ℕ) (S : Type 0) (n : Node (Part V h))
      → suc n.key ≡ top
      → Spans (IsPart V h) lo n.links top
      → length n.links ≤ 13
      → m ≤ length n.links
      → Grows V h lo top m S (entries V h n.links) (split n)
  unfolding split
  split-Grows lo top m S n e s d g = elim (Bool-cases (leb (pointer_num n) max_degree)) [
    | inl f ↦ rw f ((e, s, leb→le _ _ f), g, refl)
    | inr f ↦
        let more : 9 ≤ length n.links = ground arith in
        rw f (
          (
            refl,
            take-Spans (IsPart V h) 4 lo n.links top (omega arith) s,
            omega (arith, length-take 5 n.links),
            omega (arith, length-take 5 n.links),
          ),
          (
            e,
            drop-Spans (IsPart V h) 4 lo n.links top (omega arith) s,
            omega (arith, length-drop 5 n.links),
            omega (arith, length-drop 5 n.links),
          ),
          sym (concat_links-append (part_entries V h) (take 5 n.links) (drop 5 n.links))
              ∙ ap (entries V h) (take-append-drop 5 n.links),
        )
  ]

module _ (V : Type 0) (h : ℕ) where
  pub entries-around :
      (xs : List (Key × Node (Part V h))) (p : Key × Node (Part V h))
      (ys : List (Key × Node (Part V h)))
      → entries V (suc h) (xs ++ p ∷ ys)
        ≡ entries V (suc h) xs ++ (entries V h p.1.links ++ entries V (suc h) ys)
  entries-around xs p ys = concat_links-append (part_entries V (suc h)) xs (p ∷ ys)

  -- The links after both halves of a split child have their links.
  pub record Relinked (lo top j : ℕ) (ps xs ys : List (Key × Node (Part V h))) (es : List (Key × V))
      (l r : Node (Part V h)) : Type 0 where
    pub relinked : put_halves ps l r ≡ xs ++ (l.key, l) ∷ (j, r) ∷ ys
    pub spans : Spans (IsPart V (suc h)) lo (xs ++ (l.key, l) ∷ (j, r) ∷ ys) top
    pub regroup :
        entries V (suc h) (xs ++ (l.key, l) ∷ (j, r) ∷ ys)
        ≡ entries V (suc h) xs ++ (es ++ entries V (suc h) ys)

  pub relinks :
      (lo mid top j : ℕ) (ps xs : List (Key × Node (Part V h))) (c : Node (Part V h))
      (ys : List (Key × Node (Part V h)))
      → ps ≡ xs ++ (j, c) ∷ ys
      → Spans (IsPart V (suc h)) lo xs mid
      → Spans (IsPart V (suc h)) (suc j) ys top
      → (es : List (Key × V)) (l r : Node (Part V h)) → IsPart V (suc h) mid (suc l.key) l
      → IsPart V (suc h) (suc l.key) (suc j) r
      → entries V h l.links ++ entries V h r.links ≡ es
      → Relinked lo top j ps xs ys es l r
  relinks lo mid top j ps xs c ys splits before after es l r wl wr e =
      let low : mid ≤ l.key = omega (arith, Spans-le (IsPart V h) mid l.links _ wl.1) in
      let high : l.key < j = omega (arith, Spans-le (IsPart V h) _ r.links _ wr.1) in
      record {
        relinked =
            ap (λ z. put_halves z l r) splits
            ∙ put_halves-at l r xs (j, c) ys
                (Spans-Below (IsPart V (suc h)) lo xs mid l.key low before) (omega arith);
        spans =
            append-Spans (IsPart V (suc h)) lo xs mid ((l.key, l) ∷ (j, r) ∷ ys) top before
              (low, wl, (omega (arith, high), wr, after));
        regroup =
            entries-around xs (l.key, l) ((j, r) ∷ ys)
            ∙ ap (λ z. entries V (suc h) xs ++ z)
                (sym (
                    append_assoc (entries V h l.links) (entries V h r.links) (entries V (suc h) ys))
                  ∙ ap (λ z. z ++ entries V (suc h) ys) e);
      }

  -- The link `j` to a child, with the links round it.
  module _ (lo mid top j k : ℕ) (n : Node (Node (Part V h))) (xs : List (Key × Node (Part V h)))
      (c : Node (Part V h)) (ys : List (Key × Node (Part V h)))
      (splits : n.links ≡ xs ++ (j, c) ∷ ys) (key_top : suc n.key ≡ top)
      (before : Spans (IsPart V (suc h)) lo xs mid) (mid_le : mid ≤ k) (le_at : k ≤ j)
      (after : Spans (IsPart V (suc h)) (suc j) ys top) (degree : pointer_num n ≤ max_degree) where
    below : Below k xs
    below = Spans-Below (IsPart V (suc h)) lo xs mid k mid_le before

    same : (c' : Node (Part V h)) → length (xs ++ (j, c') ∷ ys) ≡ pointer_num n
    same c' = omega (
      arith,
      ap length splits,
      length-append {0} xs ((j, c') ∷ ys),
      length-append {0} xs ((j, c) ∷ ys),
    )

    put_child-Grows :
        (S : Type 0) (es : List (Key × V)) (c' : Node (Part V h))
        → IsPart V (suc h) mid (suc j) c'
        → entries V h c'.links ≡ es
        → Grows V
            (suc h)
            lo
            top
            (pointer_num n)
            S
            (entries V (suc h) xs ++ (es ++ entries V (suc h) ys))
            (whole (record n { links = put_child n.links k c' }))
    put_child-Grows S es c' w e =
        let eq : put_child n.links k c' ≡ xs ++ (j, c') ∷ ys =
          rw splits (put_child-at k c' xs (j, c) ys below le_at) in
        rw eq (
          (
            key_top,
            append-Spans (IsPart V (suc h)) lo xs mid ((j, c') ∷ ys) top before
                (omega (arith, mid_le, le_at), w, after),
            omega (arith, same c', degree),
          ),
          omega (arith, same c'),
          rw (entries-around xs (j, c') ys, e),
        )

    put_halves-Grows :
        (S : Type 0) (es : List (Key × V)) (l r : Node (Part V h))
        → IsPart V (suc h) mid (suc l.key) l
        → IsPart V (suc h) (suc l.key) (suc j) r
        → entries V h l.links ++ entries V h r.links ≡ es
        → Grows V
            (suc h)
            lo
            top
            (pointer_num n)
            S
            (entries V (suc h) xs ++ (es ++ entries V (suc h) ys))
            (split (record n { links = put_halves n.links l r }))
    put_halves-Grows S es l r wl wr e =
        let r' = relinks lo mid top j n.links xs c ys splits before after es l r wl wr e in
        let more : length (xs ++ (l.key, l) ∷ (j, r) ∷ ys) ≡ suc (pointer_num n) = omega (
          arith,
          same r,
          length-append {0} xs ((j, r) ∷ ys),
          length-append {0} xs ((l.key, l) ∷ (j, r) ∷ ys),
        ) in
        rw r'.relinked (
          subst
            (λ z.
              Grows V (suc h) lo top (pointer_num n) S z
                (split (record { key = n.key; links = xs ++ (l.key, l) ∷ (j, r) ∷ ys })))
            r'.regroup
            (split-Grows V (suc h) lo top (pointer_num n) S
              (record { key = n.key; links = xs ++ (l.key, l) ∷ (j, r) ∷ ys }) key_top r'.spans
              (omega (arith, more, degree)) (omega (arith, more))))

    pub absorb-Grows :
        (S : Type 0) (es : List (Key × V)) (o : Outcome (Part V h))
        → Grows V h mid (suc j) min_degree S es o
        → Grows V
            (suc h)
            lo
            top
            (pointer_num n)
            S
            (entries V (suc h) xs ++ (es ++ entries V (suc h) ys))
            (absorb n k o)
    unfolding absorb
    absorb-Grows S es endless g = g
    absorb-Grows S es present g = g
    absorb-Grows S es (whole c') g = put_child-Grows S es c' (g.0.0, g.0.1, g.1, g.0.2) g.2
    absorb-Grows S es (halves l r) g = put_halves-Grows S es l r g.0 g.1 g.2
