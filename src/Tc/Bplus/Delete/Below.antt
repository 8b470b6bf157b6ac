-- ===== src/Tc/Bplus/Delete/Below.antt =====
-- A deletion of TC/kernel_module/src/bplus.c below any node takes the entry out of the sorted list of
-- its entries, or finds that the key is not there.
use laft.Common.{
  Bool, List, Option, ap, arith, false, length, length-append, refl, some, subst, suc, sym, true,
  zero, ℕ, ◌++◌, ◌<◌, ◌∙◌, ◌∷◌, ◌≡◌, ◌≤◌,
}
use laft.Tc.Bplus.{Key, Node, Part, max_degree, min_degree, pointer_num, seek}
use laft.Tc.Bplus.Spans.{
  Anything, Below, Spans-Below, Spans, append-Spans, Spans-le, locate, seek-at,
}
use laft.Tc.Bplus.Search.{IsNode, IsPart, entries, entries-Spans, lookup}
use laft.Tc.Bplus.Split.{entries-around}
use laft.Tc.Bplus.Delete.{
  Deletion, Merged, absent, after_merge, collapsed, delete_below, deleted, kept, merge, pass_up,
  renamed, seek_index, stuck, unlink,
}
use laft.Tc.Bplus.Delete.Unlink.{lookup-skip, lookup-stop, seek_index-at, unlink-skip, unlink-stop}
use laft.Tc.Bplus.Delete.Leaf.{Deleted, Deletes, Renames, delete_leaf-Deletes, new_top}
use laft.Tc.Bplus.Delete.Merge.{IsThin, Merges}
use laft.Tc.Bplus.Delete.Inner.{merge-Merges, renamed-Renamed}

module _ (V : Type 0) (h lo mid top : ℕ) (n : Node (Node (Part V h))) (k a : Key)
    (p : Node (Part V h)) (xs ys : List (Key × Node (Part V h)))
    (splits : n.links ≡ xs ++ (a, p) ∷ ys) (key_top : suc n.key ≡ top)
    (degree : pointer_num n ≤ max_degree) (two : 2 ≤ pointer_num n)
    (before : Spans (IsPart V (suc h)) lo xs mid) (mid_le : mid ≤ k) (le_at : k ≤ a)
    (wp : IsPart V (suc h) mid (suc a) p) (after : Spans (IsPart V (suc h)) (suc a) ys top) where
  index : seek_index n.links k ≡ length xs
  index =
      ap (λ z. seek_index z k) splits
      ∙ seek_index-at k xs (a, p) ys (Spans-Below (IsPart V (suc h)) lo xs mid k mid_le before)
          le_at

  below : Below k (entries V (suc h) xs)
  below =
      Spans-Below Anything lo (entries V (suc h) xs) mid k mid_le
        (entries-Spans V (suc h) lo xs mid before)

  parts :
      entries V (suc h) n.links
      ≡ entries V (suc h) xs ++ (entries V h p.links ++ entries V (suc h) ys)
  parts = ap (entries V (suc h)) splits ∙ entries-around V h xs (a, p) ys

  -- The key is among the entries exactly if it is among those of the child.
  pub lookup-child : lookup k (entries V (suc h) n.links) ≡ lookup k (entries V h p.links)
  lookup-child =
      ap (lookup k) parts
      ∙ lookup-skip k (entries V (suc h) xs) _ below
      ∙ lookup-stop k mid (entries V h p.links) (entries V (suc h) ys) (suc a) top (omega arith)
          (entries-Spans V h mid p.links (suc a) wp.1)
          (entries-Spans V (suc h) (suc a) ys top after)

  -- The parent of a changed child, with the facts that a merge wants.
  pub record Parent (new new' : Option Key) (v : V) (c : Node (Part V h))
      (n' : Node (Node (Part V h))) : Type 0 where
    pub at : Key
    pub linked : n'.links ≡ xs ++ (at, c) ∷ ys
    pub renames : Renames new' top k
    pub key_new : suc n'.key ≡ new_top new' top
    pub spans_after : Spans (IsPart V (suc h)) (suc at) ys (new_top new' top)
    pub mid_at : mid ≤ at
    pub thin : IsThin V h mid (suc at) c
    pub same_num : pointer_num n' ≡ pointer_num n
    pub held_there : lookup k (entries V (suc h) n.links) ≡ some v
    pub left : entries V (suc h) n'.links ≡ unlink k (entries V (suc h) n.links)

  pub renamed-Parent :
      (c : Node (Part V h)) (v : V) (new : Option Key) (again : Bool)
      → Deleted V h mid (suc a) k (pointer_num p) (entries V h p.links) c v new again
      → Parent new (renamed n k c new).1 v c (renamed n k c new).0
  renamed-Parent c v new again d =
      let q =
        renamed-Renamed V h lo mid top n k a p c xs ys splits key_top before mid_le le_at after new
          d.renames in
      let spans = subst (λ z. Spans (IsPart V h) mid c.links z) (sym q.at_top) d.spans in
      let three : 3 ≤ pointer_num c = omega (arith, d.lost, wp.2) in
      record {
        at = q.at;
        linked = q.linked;
        renames = q.renames;
        key_new = q.key_new;
        spans_after = q.spans_after;
        mid_at = omega (arith, Spans-le (IsPart V h) mid c.links (suc q.at) spans);
        thin = (d.key_top ∙ sym q.at_top, spans, three, d.most);
        same_num = omega (
          arith,
          ap length q.linked,
          ap length splits,
          length-append {0} xs ((q.at, c) ∷ ys),
          length-append {0} xs ((a, p) ∷ ys),
        );
        held_there = lookup-child ∙ d.held;
        left =
            ap (entries V (suc h)) q.linked
            ∙ entries-around V h xs (q.at, c) ys
            ∙ ap (λ z. entries V (suc h) xs ++ (z ++ entries V (suc h) ys)) d.entries_left
            ∙ sym (
                ap (unlink k) parts
                ∙ unlink-skip k (entries V (suc h) xs) _ below
                ∙ ap (λ z. entries V (suc h) xs ++ z)
                    (unlink-stop k (entries V h p.links) (entries V (suc h) ys) v d.held));
      }

  -- `bpmerge` of the changed child.
  pub merge-Parent :
      (is_root : Bool) (c : Node (Part V h)) (v : V) (new new' : Option Key)
      (n' : Node (Node (Part V h)))
      → Parent new new' v c n'
      → Merges V h lo
          (new_top new' top)
          (pointer_num n)
          is_root
          (unlink k (entries V (suc h) n.links))
          (merge is_root n' (seek_index n.links k))
  merge-Parent is_root c v new new' n' q =
      let t = new_top new' top in
      subst
        (λ i.
          Merges V h lo t (pointer_num n) is_root (unlink k (entries V (suc h) n.links))
            (merge is_root n' i))
        (sym index)
        (subst (λ z. Merges V h lo t (pointer_num n) is_root z (merge is_root n' (length xs)))
          q.left
          (subst
            (λ z.
              Merges V h lo t z is_root (entries V (suc h) n'.links) (merge is_root n' (length xs)))
            q.same_num
            (merge-Merges V h lo mid t is_root n' q.key_new (omega (arith, q.same_num, degree))
              (omega (arith, q.same_num, two)) q.at c q.mid_at q.thin xs ys q.linked before
              q.spans_after)))

  -- The parent of a child that `bpmerge` does not go on with.
  pub renamed-IsNode :
      (new new' : Option Key) (v : V) (c : Node (Part V h)) (n' : Node (Node (Part V h)))
      → Parent new new' v c n'
      → min_degree ≤ pointer_num c
      → IsNode V (suc h) lo (new_top new' top) n'
  renamed-IsNode new new' v c n' q e = (
    q.key_new,
    subst (λ z. Spans (IsPart V (suc h)) lo z (new_top new' top)) (sym q.linked)
        (append-Spans (IsPart V (suc h)) lo xs mid ((q.at, c) ∷ ys) (new_top new' top) before
          (q.mid_at, (q.thin.0, q.thin.1, e, q.thin.3), q.spans_after)),
    omega (arith, q.same_num, degree),
  )

  after_merge-Deletes :
      (v : V) (new' : Option Key) (r : Merged (Part V h))
      → lookup k (entries V (suc h) n.links) ≡ some v
      → Renames new' top k
      → Merges V h lo
          (new_top new' top)
          (pointer_num n)
          false
          (unlink k (entries V (suc h) n.links))
          r
      → Deletes V
          (suc h)
          lo
          top
          k
          (pointer_num n)
          (entries V (suc h) n.links)
          (after_merge r v new')
  after_merge-Deletes v new' stuck e f g = g
  after_merge-Deletes v new' (kept n' again) e f g = record {
    held = e;
    entries_left = g.holds;
    renames = f;
    key_top = g.node.0;
    spans = g.node.1;
    most = g.node.2;
    lost = g.lost;
    kept_all = g.kept_all;
  }
  after_merge-Deletes v new' (collapsed o) e f g = cc

  pub pass_up-Deletes :
      (d : Deletion (Part V h) V)
      → Deletes V h mid (suc a) k (pointer_num p) (entries V h p.links) d
      → Deletes V (suc h) lo top k (pointer_num n) (entries V (suc h) n.links) (pass_up n k d)
  unfolding pass_up
  pass_up-Deletes stuck d = d
  pass_up-Deletes absent d = lookup-child ∙ d
  pass_up-Deletes (deleted c v new true) d =
      let q = renamed-Parent c v new true d in
      after_merge-Deletes v (renamed n k c new).1
        (merge false (renamed n k c new).0 (seek_index n.links k)) q.held_there q.renames
        (merge-Parent false c v new (renamed n k c new).1 (renamed n k c new).0 q)
  pass_up-Deletes (deleted c v new false) d =
      let q = renamed-Parent c v new false d in
      let w =
        renamed-IsNode new (renamed n k c new).1 v c (renamed n k c new).0 q
          (omega (arith, d.kept_all refl, wp.2)) in
      record {
        held = q.held_there;
        entries_left = q.left;
        renames = q.renames;
        key_top = w.0;
        spans = w.1;
        most = w.2;
        lost = omega (arith, q.same_num);
        kept_all = λ f. omega (arith, q.same_num);
      }

pub delete_below-Deletes :
    (V : Type 0) (h lo top : ℕ) (n : Node (Part V h)) (k : Key)
    → lo ≤ k
    → k < top
    → IsNode V h lo top n
    → 2 ≤ pointer_num n
    → Deletes V h lo top k (pointer_num n) (entries V h n.links) (delete_below h n k)
unfolding delete_below
delete_below-Deletes V zero lo top n k hl hg w two = delete_leaf-Deletes V lo top n k hl hg w two
delete_below-Deletes V (suc h) lo top n k hl hg w two =
    let r = locate (IsPart V (suc h)) lo n.links top k hl hg w.1 in
    let p : IsPart V (suc h) r.mid (suc r.at) r.part = r.at_part in
    let seeks : seek n.links k ≡ some (r.at, r.part) =
      ap (λ z. seek z k) r.splits
      ∙ seek-at k r.before (r.at, r.part) r.after
          (Spans-Below (IsPart V (suc h)) lo r.before r.mid k r.mid_le r.spans_before) r.le_at in
    rw (delete_below, seeks)
      (pass_up-Deletes V h lo r.mid top n k r.at r.part r.before r.after r.splits w.0 w.2 two
        r.spans_before r.mid_le r.le_at p r.spans_after (delete_below h r.part k)
        (delete_below-Deletes V h r.mid (suc r.at) r.part k r.mid_le (omega (arith, r.le_at))
          (p.0, p.1, p.3) (omega (arith, p.2))))
