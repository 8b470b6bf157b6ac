-- ===== src/Tc/Bplus/Delete/Merge.antt =====
-- `bpmerge` of TC/kernel_module/src/bplus.c: a child that has lost too many links merges with its
-- neighbour, the entries of the parent stay, and no node grows beyond its bounds.
use mathlib.Core.List.{append_assoc, append-nil}
use laft.Common.{
  ==_iff, Bool, Bool-cases, List, [], and→both, ap, arith, false, if◌then◌else◌, inl, inr, leb,
  leb→le, length, length-append, refl, subst, suc, sym, true, ℕ, ◌&&◌, ◌++◌, ◌+◌, ◌<◌, ◌==◌, ◌∙◌,
  ◌∷◌, ◌≡◌, ◌≤◌,
}
use laft.Tc.Bplus.{Key, Node, Part, halves, max_degree, min_degree, pointer_num, put_halves, split}
use laft.Tc.Bplus.Spans.{Spans, append-Spans}
use laft.Tc.Bplus.Search.{IsNode, IsPart, concat_links-append, entries, part_entries}
use laft.Tc.Bplus.Split.{Grows, entries-around, relinks, split-Grows, split-halves}
use laft.Tc.Bplus.Delete.{Merged, collapsed, kept, merge_at, merge_pair, settle, stuck}
use laft.Tc.Bplus.Delete.Unlink.{get_elem?-at, merge_at-at}

-- The parent of `m` links has lost at most one, and none unless `bpmerge` goes on with it.
pub record Kept (V : Type 0) (h lo top m : ℕ) (is_root : Bool) (es : List (Key × V))
    (n : Node (Node (Part V h))) (again : Bool) : Type 0 where
  pub node : IsNode V (suc h) lo top n
  pub holds : entries V (suc h) n.links ≡ es
  pub lost : m ≤ suc (pointer_num n)
  pub kept_all : again ≡ false → m ≤ pointer_num n
  pub two : is_root ≡ true → 2 ≤ pointer_num n

abbrev pub Merges :
    (V : Type 0) (h lo top m : ℕ) → Bool → List (Key × V) → Merged (Part V h) → Type 0
Merges V h lo top m is_root es stuck = ⊥
Merges V h lo top m is_root es (kept n again) = Kept V h lo top m is_root es n again
Merges V h lo top m is_root es (collapsed o) = (is_root ≡ true) × Grows V h lo top 2 ⊥ es o

-- A child on its range that may have lost one link too many.
abbrev pub IsThin : (V : Type 0) (h lo top : ℕ) → Node (Part V h) → Type 0
IsThin V h lo top n =
    (suc n.key ≡ top)
    × Spans (IsPart V h) lo n.links top
    × (3 ≤ pointer_num n)
    × (pointer_num n ≤ max_degree)

pub nil_of_length : {A : Type 0} (xs : List A) → length xs ≡ 0 → xs ≡ []
nil_of_length [] h = refl
nil_of_length (x ∷ xs) h = absurd (omega arith)

module _ (V : Type 0) (h lo mid top j key : ℕ) (ps xs : List (Key × Node (Part V h)))
    (m : Node (Part V h)) (ys : List (Key × Node (Part V h))) (splits : ps ≡ xs ++ (j, m) ∷ ys)
    (key_top : suc key ≡ top) (before : Spans (IsPart V (suc h)) lo xs mid) (mid_le : mid ≤ j)
    (after : Spans (IsPart V (suc h)) (suc j) ys top) (room : length ps ≤ 7)
    (key_j : suc m.key ≡ suc j) (spans : Spans (IsPart V h) mid m.links (suc j))
    (enough : 7 ≤ length m.links) (most : length m.links ≤ 11) (es : List (Key × V))
    (holds : entries V h m.links ≡ es) where
  grows : Grows V h mid (suc j) 2 ⊥ es (split m)
  grows =
      subst (λ z. Grows V h mid (suc j) 2 ⊥ z (split m)) holds
        (split-Grows V h mid (suc j) 2 ⊥ m key_j spans (omega arith) (omega arith))

  count : length ps ≡ suc (length xs + length ys)
  count = omega (arith, ap length splits, length-append {0} xs ((j, m) ∷ ys))

  -- The merged child takes the place of a root without other links.
  collapse-Grows :
      length ps ≡ 1
      → Grows V h lo top 2 ⊥ (entries V (suc h) xs ++ (es ++ entries V (suc h) ys)) (split m)
  collapse-Grows e =
      let nx = nil_of_length xs (omega (arith, count, e)) in
      let ny = nil_of_length ys (omega (arith, count, e)) in
      let from : mid ≡ lo = sym (subst (λ z. Spans (IsPart V (suc h)) lo z mid) nx before) in
      let to : suc j ≡ top = subst (λ z. Spans (IsPart V (suc h)) (suc j) z top) ny after in
      let same : es ≡ (entries V (suc h) xs ++ (es ++ entries V (suc h) ys)) = sym (
        ap (λ z. entries V (suc h) z ++ (es ++ entries V (suc h) ys)) nx
        ∙ ap (λ z. es ++ entries V (suc h) z) ny
        ∙ append-nil es) in
      subst (λ z. Grows V h lo top 2 ⊥ z (split m)) same
        (subst (λ z. Grows V h lo z 2 ⊥ es (split m)) to
          (subst (λ z. Grows V h z (suc j) 2 ⊥ es (split m)) from grows))

  whole-Kept :
      (is_root : Bool)
      → (is_root ≡ true → 2 ≤ length ps)
      → length m.links ≤ 8
      → Kept V h lo top
          (suc (length ps))
          is_root
          (entries V (suc h) xs ++ (es ++ entries V (suc h) ys))
          (record { key = key; links = ps })
          true
  whole-Kept is_root two small = record {
    node = (
      key_top,
      rw splits (
          append-Spans (IsPart V (suc h)) lo xs mid ((j, m) ∷ ys) top before
            (mid_le, (key_j, spans, omega arith, small), after)),
      omega (arith, room),
    );
    holds =
        ap (entries V (suc h)) splits
        ∙ entries-around V h xs (j, m) ys
        ∙ ap (λ z. entries V (suc h) xs ++ (z ++ entries V (suc h) ys)) holds;
    lost = omega arith;
    kept_all = λ f. cc;
    two = two;
  }

  halves-Merges :
      (is_root : Bool)
      → (is_root ≡ true → 2 ≤ length ps)
      → 8 < length m.links
      → Merges V h lo top
          (suc (length ps))
          is_root
          (entries V (suc h) xs ++ (es ++ entries V (suc h) ys))
          (elim (split m) [
            | halves l r ↦
                let relinked = put_halves ps l r in
                if leb (length relinked) max_degree
                then kept (record { key = key; links = relinked }) false
                else stuck
            | _ ↦ stuck
          ])
  halves-Merges is_root two big =
      let (l, r, e) = split-halves m big in
      let g : Grows V h mid (suc j) 2 ⊥ es (halves l r) =
        subst (λ z. Grows V h mid (suc j) 2 ⊥ es z) e grows in
      let q = relinks V h lo mid top j ps xs m ys splits before after es l r g.0 g.1 g.2 in
      let more : length (xs ++ (l.key, l) ∷ (j, r) ∷ ys) ≡ suc (length ps) =
        omega (arith, count, length-append {0} xs ((l.key, l) ∷ (j, r) ∷ ys)) in
      let fits : leb (length (xs ++ (l.key, l) ∷ (j, r) ∷ ys)) max_degree ≡ true =
        ground (arith, more) in
      rw (e, q.relinked, fits)
        (record {
          node = (key_top, q.spans, omega (arith, more));
          holds = q.regroup;
          lost = omega (arith, more);
          kept_all = λ f. omega (arith, more);
          two = λ f. omega (arith, more, two f);
        })

  pub settle-Merges :
      (is_root : Bool)
      → Merges V h lo top
          (suc (length ps))
          is_root
          (entries V (suc h) xs ++ (es ++ entries V (suc h) ys))
          (settle is_root key ps m)
  unfolding settle
  settle-Merges is_root = elim (Bool-cases (is_root && length ps == 1)) [
    | inl e ↦
        let both = and→both is_root (length ps == 1) e in
        rw e (both.0, collapse-Grows ((==_iff _ _).0 both.1))
    | inr e ↦
        let two : is_root ≡ true → 2 ≤ length ps = λ f. ground (arith, count) in
        elim (Bool-cases (leb (pointer_num m) max_degree)) [
          | inl f ↦ rw (e, f) (whole-Kept is_root two (leb→le _ _ f))
          | inr f ↦ rw (e, f) (halves-Merges is_root two (ground arith))
        ]
  ]

module _ (V : Type 0) (h lo mid top : ℕ) (is_root : Bool) (n : Node (Node (Part V h)))
    (key_top : suc n.key ≡ top) (degree : pointer_num n ≤ max_degree) where
  -- Two neighbours, of which one has lost a link.
  pub pair-Merges :
      (xs : List (Key × Node (Part V h))) (a b : Key) (c d : Node (Part V h))
      (ys : List (Key × Node (Part V h)))
      → n.links ≡ xs ++ (a, c) ∷ (b, d) ∷ ys
      → Spans (IsPart V (suc h)) lo xs mid
      → mid ≤ a
      → IsThin V h mid (suc a) c
      → suc a ≤ b
      → IsThin V h (suc a) (suc b) d
      → Spans (IsPart V (suc h)) (suc b) ys top
      → 7 ≤ pointer_num c + pointer_num d
      → pointer_num c + pointer_num d ≤ 11
      → Merges V h lo top
          (pointer_num n)
          is_root
          (entries V (suc h) n.links)
          (merge_pair is_root n (length xs))
  unfolding merge_pair
  pair-Merges xs a b c d ys splits before ma wc ab wd after low high =
      let m : Node (Part V h) = record { key = d.key; links = c.links ++ d.links } in
      let ps = xs ++ (b, m) ∷ ys in
      let merged : merge_at (length xs) n.links ≡ ps =
        ap (merge_at (length xs)) splits ∙ merge_at-at xs (a, c) (b, d) ys in
      let fewer : pointer_num n ≡ suc (length ps) = omega (
        arith,
        ap length splits,
        length-append {0} xs ((a, c) ∷ (b, d) ∷ ys),
        length-append {0} xs ((b, m) ∷ ys),
      ) in
      let links : length m.links ≡ pointer_num c + pointer_num d = length-append c.links d.links in
      let holds : entries V (suc h) xs
            ++ ((entries V h c.links ++ entries V h d.links) ++ entries V (suc h) ys)
          ≡ entries V (suc h) n.links =
        sym (
          ap (entries V (suc h)) splits
          ∙ entries-around V h xs (a, c) ((b, d) ∷ ys)
          ∙ ap (λ z. entries V (suc h) xs ++ z)
              (sym (
                append_assoc (entries V h c.links) (entries V h d.links)
                  (entries V (suc h) ys)))) in
      rw (merge_pair, merged, get_elem?-at xs (b, m) ys, merged)
        (subst
          (λ z. Merges V h lo top z is_root (entries V (suc h) n.links) (settle is_root n.key ps m))
          (sym fewer)
          (subst (λ z. Merges V h lo top (suc (length ps)) is_root z (settle is_root n.key ps m))
            holds
            (settle-Merges V h lo mid top b n.key ps xs m ys refl key_top before
              (omega (arith, ma, ab)) after (omega (arith, fewer, degree)) wd.0
              (append-Spans (IsPart V h) mid c.links (suc a) d.links (suc b) wc.1 wd.1)
              (omega (arith, links, low)) (omega (arith, links, high))
              (entries V h c.links ++ entries V h d.links)
              (concat_links-append (part_entries V h) c.links d.links) is_root)))

  -- A child at an index may have lost a link too many.
  module _ (xs : List (Key × Node (Part V h))) (a : Key) (c : Node (Part V h))
      (ys : List (Key × Node (Part V h))) (splits : n.links ≡ xs ++ (a, c) ∷ ys)
      (before : Spans (IsPart V (suc h)) lo xs mid) (ma : mid ≤ a) (wc : IsThin V h mid (suc a) c)
      (after : Spans (IsPart V (suc h)) (suc a) ys top) (two : 2 ≤ pointer_num n) where
    pub stays-Kept :
        min_degree ≤ pointer_num c
        → Kept V h lo top (pointer_num n) is_root (entries V (suc h) n.links) n false
    stays-Kept e = record {
      node = (
        key_top,
        rw splits (
            append-Spans (IsPart V (suc h)) lo xs mid ((a, c) ∷ ys) top before
              (ma, (wc.0, wc.1, e, wc.3), after)),
        degree,
      );
      holds = refl;
      lost = omega arith;
      kept_all = λ f. omega arith;
      two = λ f. two;
    }
