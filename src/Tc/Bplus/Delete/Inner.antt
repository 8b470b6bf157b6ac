-- ===== src/Tc/Bplus/Delete/Inner.antt =====
-- A deletion of TC/kernel_module/src/bplus.c below a node: the way up, with new keys and merges.
use mathlib.Core.List.{append_assoc}
use laft.Common.{
  ==_iff, Bool, Bool-cases, List, Option, [], ap, arith, get_elem?, inl, inr, leb, leb→le, length,
  length-append, none, refl, some, subst, suc, sym, ℕ, ◌++◌, ◌-◌, ◌<◌, ◌==◌, ◌∙◌, ◌∷◌, ◌≡◌, ◌≢◌,
  ◌≤◌,
}
use laft.Tc.Bplus.{Key, Node, Part, max_degree, min_degree, pointer_num, rename_last}
use laft.Tc.Bplus.Spans.{Spans-Below, Spans, Spans-le, Spans-length_pos}
use laft.Tc.Bplus.Search.{IsPart, entries}
use laft.Tc.Bplus.Append.{locate-End, rename_last-end}
use laft.Tc.Bplus.Delete.{merge, merge_pair, rename, rename_link, renamed, seek_index, set_part}
use laft.Tc.Bplus.Delete.Unlink.{
  get_elem?-at, lower-links, rename_link-at, seek_index-at, set_part-at,
}
use laft.Tc.Bplus.Delete.Leaf.{Renames, new_top}
use laft.Tc.Bplus.Delete.Merge.{IsThin, Merges, stays-Kept, nil_of_length, pair-Merges}

module _ (V : Type 0) (h lo mid top : ℕ) (is_root : Bool) (n : Node (Node (Part V h)))
    (key_top : suc n.key ≡ top) (degree : pointer_num n ≤ max_degree) (two : 2 ≤ pointer_num n)
    (a : Key) (c : Node (Part V h)) (ma : mid ≤ a) (wc : IsThin V h mid (suc a) c) where
  -- The first child goes to its right neighbour.
  merge_right-Merges :
      (ys : List (Key × Node (Part V h)))
      → n.links ≡ (a, c) ∷ ys
      → lo ≡ mid
      → Spans (IsPart V (suc h)) (suc a) ys top
      → pointer_num c ≡ 3
      → Merges V h lo top
          (pointer_num n)
          is_root
          (entries V (suc h) n.links)
          (merge_pair is_root n 0)
  merge_right-Merges [] splits at_lo after thin = absurd (omega (arith, ap length splits))
  merge_right-Merges ((b, d) ∷ ys) splits at_lo after thin =
      pair-Merges V h lo mid top is_root n key_top degree [] a b c d ys splits at_lo ma wc after.0
        (after.1.0, after.1.1, omega (arith, after.1.2), after.1.3) after.2
        (omega (arith, thin, after.1.2)) (omega (arith, thin, after.1.3))

  -- Any other child takes in its left neighbour.
  merge_left-Merges :
      (xs ys : List (Key × Node (Part V h)))
      → n.links ≡ xs ++ (a, c) ∷ ys
      → Spans (IsPart V (suc h)) lo xs mid
      → 0 < length xs
      → Spans (IsPart V (suc h)) (suc a) ys top
      → pointer_num c ≡ 3
      → Merges V h lo top
          (pointer_num n)
          is_root
          (entries V (suc h) n.links)
          (merge_pair is_root n (length xs - 1))
  merge_left-Merges xs ys splits before some_xs after thin =
      let r =
        locate-End (IsPart V (suc h)) lo xs mid
          (omega (arith, Spans-le (IsPart V (suc h)) lo xs mid before)) before in
      let index : length xs - 1 ≡ length r.before =
        omega (arith, ap length r.splits, length-append {0} r.before ((r.at, r.part) ∷ [])) in
      let w : IsPart V (suc h) r.mid (suc r.at) r.part = r.at_part in
      subst
        (λ i.
          Merges V h lo top (pointer_num n) is_root (entries V (suc h) n.links)
            (merge_pair is_root n i))
        (sym index)
        (pair-Merges V h lo r.mid top is_root n key_top degree r.before r.at a r.part c ys
          (splits
            ∙ ap (λ z. z ++ (a, c) ∷ ys) r.splits
            ∙ append_assoc r.before ((r.at, r.part) ∷ []) ((a, c) ∷ ys))
          r.spans_before r.mid_le (w.0, w.1, omega (arith, w.2), w.3) (omega (arith, ma, r.at_top))
          (wc.0, subst (λ z. Spans (IsPart V h) z c.links (suc a)) (sym r.at_top) wc.1, wc.2, wc.3)
          after (omega (arith, thin, w.2)) (omega (arith, thin, w.3)))

  pub merge-Merges :
      (xs ys : List (Key × Node (Part V h)))
      → n.links ≡ xs ++ (a, c) ∷ ys
      → Spans (IsPart V (suc h)) lo xs mid
      → Spans (IsPart V (suc h)) (suc a) ys top
      → Merges V h lo top
          (pointer_num n)
          is_root
          (entries V (suc h) n.links)
          (merge is_root n (length xs))
  unfolding merge
  merge-Merges xs ys splits before after =
      let there : get_elem? n.links (length xs) ≡ some (a, c) =
        ap (λ z. get_elem? z (length xs)) splits ∙ get_elem?-at xs (a, c) ys in
      rw (merge, there)
        (elim (Bool-cases (leb min_degree (pointer_num c))) [
          | inl e ↦ rw e (
              stays-Kept V h lo mid top is_root n key_top degree xs a c ys splits before ma wc after
                two (leb→le _ _ e))
          | inr e ↦
              let thin : pointer_num c ≡ 3 = ground (arith, wc.2) in
              rw e (at_index xs splits before thin)
        ])
    where
      at_index :
          (xs : List (Key × Node (Part V h)))
          → n.links ≡ xs ++ (a, c) ∷ ys
          → Spans (IsPart V (suc h)) lo xs mid
          → pointer_num c ≡ 3
          → Merges V h lo top
              (pointer_num n)
              is_root
              (entries V (suc h) n.links)
              (merge_pair is_root n (length xs - 1))
      at_index [] splits before thin = merge_right-Merges ys splits before after thin
      at_index (x ∷ xs) splits before thin =
          merge_left-Merges (x ∷ xs) ys splits before (omega arith) after thin

-- The new keys along the way.
module _ (V : Type 0) (h lo mid top : ℕ) (n : Node (Node (Part V h))) (k a : Key)
    (p c : Node (Part V h)) (xs ys : List (Key × Node (Part V h)))
    (splits : n.links ≡ xs ++ (a, p) ∷ ys) (key_top : suc n.key ≡ top)
    (before : Spans (IsPart V (suc h)) lo xs mid) (mid_le : mid ≤ k) (le_at : k ≤ a)
    (after : Spans (IsPart V (suc h)) (suc a) ys top) where
  -- The parent, its child being the changed one under the key `a'`.
  pub record Renamed (new new' : Option Key) (n' : Node (Node (Part V h))) : Type 0 where
    pub at : Key
    pub at_top : suc at ≡ new_top new (suc a)
    pub linked : n'.links ≡ xs ++ (at, c) ∷ ys
    pub renames : Renames new' top k
    pub key_new : suc n'.key ≡ new_top new' top
    pub spans_after : Spans (IsPart V (suc h)) (suc at) ys (new_top new' top)

  set_links : set_part n.links (seek_index n.links k) c ≡ xs ++ (a, c) ∷ ys
  set_links =
      let below = Spans-Below (IsPart V (suc h)) lo xs mid k mid_le before in
      let index : seek_index n.links k ≡ length xs =
        ap (λ z. seek_index z k) splits ∙ seek_index-at k xs (a, p) ys below le_at in
      ap (λ i. set_part n.links i c) index
      ∙ ap (λ z. set_part z (length xs) c) splits
      ∙ set_part-at c xs (a, p) ys

  pub renamed-Renamed :
      (new : Option Key)
      → Renames new (suc a) k
      → Renamed new (renamed n k c new).1 (renamed n k c new).0
  unfolding renamed rename
  renamed-Renamed none r = record {
    at = a;
    at_top = refl;
    linked = set_links;
    renames = tt;
    key_new = key_top;
    spans_after = after;
  }
  renamed-Renamed (some x) r =
      let a_k : a ≡ k = omega (arith, r.0) in
      elim (Bool-cases (n.key == k)) [
        | inl e ↦
            let same = (==_iff _ _).0 e in
            let nil : ys ≡ [] =
              nil_of_length ys
                (omega (arith, Spans-le (IsPart V (suc h)) (suc a) ys top after, same, a_k)) in
            let last : rename_last (set_part n.links (seek_index n.links k) c) x
                ≡ xs ++ (x, c) ∷ ys =
              ap (λ z. rename_last z x) (set_links ∙ ap (λ z. xs ++ (a, c) ∷ z) nil)
              ∙ rename_last-end xs (a, c) x
              ∙ ap (λ z. xs ++ (x, c) ∷ z) (sym nil) in
            rw e (record {
              at = x;
              at_top = refl;
              linked = last;
              renames = (omega (arith, same), r.1);
              key_new = refl;
              spans_after = subst (λ z. Spans (IsPart V (suc h)) (suc x) z (suc x)) (sym nil) refl;
            })
        | inr e ↦
            let ne : n.key ≢ k = λ d. cc ((==_iff _ _).1 d) in
            let later = Spans-le (IsPart V (suc h)) (suc a) ys top after in
            let below = Spans-Below (IsPart V (suc h)) lo xs mid k mid_le before in
            rw e (record {
              at = x;
              at_top = refl;
              linked =
                  ap (λ z. rename_link z k x) set_links ∙ rename_link-at k x xs (a, c) ys below a_k;
              renames = tt;
              key_new = key_top;
              spans_after =
                  lower-links V (suc h) (suc a) (suc x) ys top (omega (arith, r.1, a_k))
                    (Spans-length_pos (IsPart V (suc h)) (suc a) ys top
                      (omega (arith, later, ne, a_k)) after)
                    after;
            })
      ]
