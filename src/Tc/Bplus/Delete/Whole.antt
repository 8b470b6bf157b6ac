-- ===== src/Tc/Bplus/Delete/Whole.antt =====
-- `bpdelete` of TC/kernel_module/src/bplus.c on a whole tree, with the chain of its values, against a
-- sorted association list.
use laft.Common.{
  ==_iff, Bool-cases, List, [], ap, arith, false, inl, inr, length, none, refl, some, subst, suc,
  sym, true, zero, ℕ, ◌++◌, ◌==◌, ◌∙◌, ◌∷◌, ◌≡◌, ◌≤◌,
}
use laft.Tc.Bplus.{Key, Node, Part, pointer_num, seek}
use laft.Tc.Bplus.Spans.{Spans, Spans-Below, locate, seek-at}
use laft.Tc.Bplus.Search.{IsNode, IsPart, IsRoot, entries, entries-zero, lookup, root_degree}
use laft.Tc.Bplus.Delete.{
  Deletion, Merged, RootDeletion, absent, collapsed, delete_below, delete_leaf, delete_root,
  deleted, kept, leaf_root, merge, pass_root, renamed, root_after, seek_index, stuck, unlink,
}
use laft.Tc.Bplus.Delete.Leaf.{Deletes, delete_leaf-Deletes, new_top}
use laft.Tc.Bplus.Delete.Merge.{Merges}
use laft.Tc.Bplus.Delete.Below.{
  delete_below-Deletes, lookup-child, merge-Parent, renamed-IsNode, renamed-Parent,
}
use laft.Tc.Bplus.Chain.{grow-IsRoot, root_entries}

abbrev pub RootDeletes : (V : Type 0) → Key → List (Key × V) → RootDeletion V → Type 0
RootDeletes V k es stuck = ⊥
RootDeletes V k es absent = lookup k es ≡ none
RootDeletes V k es (deleted r v) =
    (lookup k es ≡ some v) × IsRoot V r × (root_entries V r ≡ unlink k es)

leaf_root-RootDeletes :
    (V : Type 0) (top k m : ℕ) (es : List (Key × V)) (d : Deletion V V)
    → 2 ≤ m
    → Deletes V zero 0 top k m es d
    → RootDeletes V k es (leaf_root d)
unfolding leaf_root
leaf_root-RootDeletes V top k m es stuck two d = absurd d
leaf_root-RootDeletes V top k m es absent two d = d
leaf_root-RootDeletes V top k m es (deleted n v new again) two d = (
  d.held,
  (
    (refl, subst (λ z. Spans (IsPart V zero) 0 n.links z) (sym d.key_top) d.spans, d.most),
    omega (arith, d.lost),
  ),
  d.entries_left,
)

root_after-RootDeletes :
    (V : Type 0) (h top m k : ℕ) (es : List (Key × V)) (v : V) (r : Merged (Part V h))
    → lookup k es ≡ some v
    → Merges V h 0 top m true (unlink k es) r
    → RootDeletes V k es (root_after h r v)
root_after-RootDeletes V h top m k es v stuck e g = g
root_after-RootDeletes V h top m k es v (kept n again) e g = (
  e,
  (
    (refl, subst (λ z. Spans (IsPart V (suc h)) 0 n.links z) (sym g.node.0) g.node.1, g.node.2),
    g.two refl,
  ),
  g.holds,
)
root_after-RootDeletes V h top m k es v (collapsed o) e g =
    let r = grow-IsRoot V h top 2 o (unlink k es) (degree h) g.1 in (e, r.0, r.1)
  where
    degree : (h : ℕ) → root_degree h ≤ 2
    degree zero = omega arith
    degree (suc h) = omega arith

single :
    {A : Type 0} (P : ℕ → ℕ → A → Type 0) (lo : ℕ) (ps : List (Key × A)) (top : ℕ)
    → length ps ≡ 1
    → Spans P lo ps top
    → (p : Key × A) × (ps ≡ p ∷ []) × (suc p.0 ≡ top)
single P lo [] top e s = absurd (omega arith)
single P lo (p ∷ []) top e s = (p, refl, s.2)
single P lo (p ∷ q ∷ ps) top e s = absurd (omega arith)

-- The only entry of a tree takes the root with it.
delete_only-RootDeletes :
    (V : Type 0) (n : Node V) (k : Key)
    → IsNode V zero 0 (suc n.key) n
    → pointer_num n ≡ 1
    → RootDeletes V k (entries V zero n.links) (delete_root zero n k)
unfolding delete_root unlink
delete_only-RootDeletes V n k w one =
    let (p, links, key_top) = single (IsPart V zero) 0 n.links (suc n.key) one w.1 in
    let es : entries V zero n.links ≡ p ∷ [] = entries-zero n.links ∙ links in
    rw ((==_iff _ _).1 one, es)
      (elim (Bool-cases (n.key == k)) [
        | inl e ↦
            let same : p.0 ≡ k = omega (arith, key_top, (==_iff _ _).0 e) in
            rw (e, links, (==_iff _ _).1 same) (refl, tt, refl)
        | inr e ↦ let ne : (p.0 == k) ≡ false = ground (arith, key_top) in rw (e, ne)
      ])

pub delete_root-RootDeletes :
    (V : Type 0) (h : ℕ) (n : Node (Part V h)) (k : Key)
    → k ≤ n.key
    → IsNode V h 0 (suc n.key) n
    → root_degree h ≤ pointer_num n
    → RootDeletes V k (entries V h n.links) (delete_root h n k)
unfolding delete_root pass_root
delete_root-RootDeletes V zero n k le w d = elim (Bool-cases (pointer_num n == 1)) [
  | inl e ↦ delete_only-RootDeletes V n k w ((==_iff _ _).0 e)
  | inr e ↦
      let two : 2 ≤ pointer_num n = ground arith in
      rw (delete_root, e)
        (leaf_root-RootDeletes V (suc n.key) k (pointer_num n) (entries V zero n.links)
          (delete_leaf n k) two
          (delete_leaf-Deletes V 0 (suc n.key) n k (omega arith) (omega arith) w two))
]
delete_root-RootDeletes V (suc h) n k le w d =
    let top = suc n.key in
    let r = locate (IsPart V (suc h)) 0 n.links top k (omega arith) (omega arith) w.1 in
    let p : IsPart V (suc h) r.mid (suc r.at) r.part = r.at_part in
    let seeks : seek n.links k ≡ some (r.at, r.part) =
      ap (λ z. seek z k) r.splits
      ∙ seek-at k r.before (r.at, r.part) r.after
          (Spans-Below (IsPart V (suc h)) 0 r.before r.mid k r.mid_le r.spans_before) r.le_at in
    let child =
      delete_below-Deletes V h r.mid (suc r.at) r.part k r.mid_le (omega (arith, r.le_at))
        (p.0, p.1, p.3) (omega (arith, p.2)) in
    rw (delete_root, seeks)
      (below (delete_below h r.part k) r.mid r.at r.part r.before r.after r.splits r.spans_before
        r.mid_le r.le_at p r.spans_after child)
  where
    below :
        (dd : Deletion (Part V h) V) (mid : ℕ) (a : Key) (p : Node (Part V h))
        (xs ys : List (Key × Node (Part V h)))
        → n.links ≡ xs ++ (a, p) ∷ ys
        → Spans (IsPart V (suc h)) 0 xs mid
        → mid ≤ k
        → k ≤ a
        → IsPart V (suc h) mid (suc a) p
        → Spans (IsPart V (suc h)) (suc a) ys (suc n.key)
        → Deletes V h mid (suc a) k (pointer_num p) (entries V h p.links) dd
        → RootDeletes V k (entries V (suc h) n.links) (pass_root h n k dd)
    below stuck mid a p xs ys e b ml la wp f g = g
    below absent mid a p xs ys e b ml la wp f g =
        lookup-child V h 0 mid (suc n.key) n k a p xs ys e w.0 w.2 d b ml la wp f ∙ g
    below (deleted c v new true) mid a p xs ys e b ml la wp f g =
        let q =
          renamed-Parent V h 0 mid (suc n.key) n k a p xs ys e w.0 w.2 d b ml la wp f c v new true
            g in
        root_after-RootDeletes V h (new_top (renamed n k c new).1 (suc n.key)) (pointer_num n) k
          (entries V (suc h) n.links) v (merge true (renamed n k c new).0 (seek_index n.links k))
          q.held_there
          (merge-Parent V h 0 mid (suc n.key) n k a p xs ys e w.0 w.2 d b ml la wp f true c v new
            (renamed n k c new).1 (renamed n k c new).0 q)
    below (deleted c v new false) mid a p xs ys e b ml la wp f g =
        let q =
          renamed-Parent V h 0 mid (suc n.key) n k a p xs ys e w.0 w.2 d b ml la wp f c v new false
            g in
        let x =
          renamed-IsNode V h 0 mid (suc n.key) n k a p xs ys e w.0 w.2 d b ml la wp f new
            (renamed n k c new).1 v c (renamed n k c new).0 q
            (omega (arith, g.kept_all refl, wp.2)) in
        (
          q.held_there,
          (
            (
              refl,
              subst (λ z. Spans (IsPart V (suc h)) 0 (renamed n k c new).0.links z) (sym x.0) x.1,
              x.2,
            ),
            omega (arith, q.same_num, d),
          ),
          q.left,
        )
