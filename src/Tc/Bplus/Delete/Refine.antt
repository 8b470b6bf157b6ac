-- ===== src/Tc/Bplus/Delete/Refine.antt =====
-- `bpdelete` of TC/kernel_module/src/bplus.c with the chain of values and the size of the tree, as an
-- operation on the association list that the tree stands for.
use laft.Common.{
  Bool-cases, List, Option, [], ap, arith, if◌then◌else◌, inl, inr, length, ltb, ltb→lt, none, refl,
  some, subst, suc, sym, ℕ, ◌-◌, ◌==◌, ◌∙◌, ◌∷◌, ◌≡◌, ◌≤◌,
}
use laft.Tc.Bplus.{Key, Node, Part, Tree, find, init, pointer_num}
use laft.Tc.Bplus.Spans.{Anything, Spans-Below}
use laft.Tc.Bplus.Search.{
  IsNode, IsRoot, IsTree, entries, entries-Spans, find-lookup, lookup, lookup-Below, root_degree,
  tree_entries,
}
use laft.Tc.Bplus.Refine.{root_entries-Spans}
use laft.Tc.Bplus.Delete.{
  RootDeletion, absent, delete, delete_from, delete_root, deleted, store_deleted, stuck, unlink,
}
use laft.Tc.Bplus.Delete.Unlink.{length-unlink, lookup-unlink}
use laft.Tc.Bplus.Delete.Whole.{RootDeletes, delete_root-RootDeletes}
use laft.Tc.Bplus.Chain.{root_entries}

-- The call ends, returns the record under the key, if any, and takes the entry out of the list.
pub record Removes (V : Type 0) (t : Tree V) (k : Key) (o : Option (Tree V × Option V))
    : Type 0 where
  pub tree : Tree V
  pub runs : o ≡ some (tree, lookup k (tree_entries V t))
  pub keeps : IsTree V tree
  pub takes : tree_entries V tree ≡ unlink k (tree_entries V t)

pub unlink-absent :
    {V : Type 0} (k : Key) (es : List (Key × V)) → lookup k es ≡ none → unlink k es ≡ es
unfolding unlink
unlink-absent k [] e = refl
unlink-absent k (x ∷ xs) e = elim (Bool-cases (x.0 == k)) [
  | inl f ↦ let found : lookup k (x ∷ xs) ≡ some x.1 = rw f in cc
  | inr f ↦
      let rest : lookup k (x ∷ xs) ≡ lookup k xs = rw f in
      rw f (ap (◌∷◌ x) (unlink-absent k xs (sym rest ∙ e)))
]

module _ (V : Type 0) (t : Tree V) (k : Key) (w : IsTree V t) where
  nothing : lookup k (tree_entries V t) ≡ none → Removes V t k (some (t, none))
  nothing e = record {
    tree = t;
    runs = ap (λ z. some (t, z)) (sym e);
    keeps = w;
    takes = sym (unlink-absent k (tree_entries V t) e);
  }

  store_deleted-Removes :
      (r : RootDeletion V)
      → RootDeletes V k (tree_entries V t) r
      → Removes V t k (store_deleted t k r)
  unfolding init
  store_deleted-Removes stuck d = absurd d
  store_deleted-Removes absent d = nothing d
  store_deleted-Removes (deleted none v) d = record {
    tree = init;
    runs = ap (λ z. some (init, z)) (sym d.0);
    keeps = record { keeps = tt; chained = refl; counted = refl; bounded = omega arith };
    takes = d.2;
  }
  store_deleted-Removes (deleted (some (h, n)) v) d =
      let fewer = length-unlink k (tree_entries V t) v d.0 in
      let chained = ap (unlink k) w.chained in
      record {
        tree = record { root = some (h, n); header = unlink k t.header; size = t.size - 1 };
        runs =
            ap
              (λ z.
                some
                  (record { root = some (h, n); header = unlink k t.header; size = t.size - 1 }, z))
              (sym d.0);
        keeps = record {
          keeps = d.1;
          chained = chained ∙ sym d.2;
          counted = omega (arith, w.counted, ap length w.chained, ap length chained, fewer);
          bounded = omega (arith, w.bounded);
        };
        takes = d.2;
      }

  delete_from-Removes :
      (r : Option ((h : ℕ) × Node (Part V h))) → t.root ≡ r → Removes V t k (delete_from t r k)
  unfolding delete_from
  delete_from-Removes none e = nothing (ap (λ z. lookup k (root_entries V z)) e)
  delete_from-Removes (some (h, n)) e =
      let node : IsNode V h 0 (suc n.key) n × (root_degree h ≤ pointer_num n) =
        subst (IsRoot V) e w.keeps in
      let held : tree_entries V t ≡ entries V h n.links = ap (root_entries V) e in
      elim (Bool-cases (ltb n.key k)) [
        | inl f ↦ rw f (
            nothing (
              ap (lookup k) held
              ∙ lookup-Below k (entries V h n.links) (
                  Spans-Below Anything 0 (entries V h n.links) (suc n.key) k (ltb→lt _ _ f)
                    (entries-Spans V h 0 n.links (suc n.key) node.0.1))))
        | inr f ↦ rw f (
            store_deleted-Removes (delete_root h n k) (
              subst (λ z. RootDeletes V k z (delete_root h n k)) (sym held)
                (delete_root-RootDeletes V h n k (ground arith) node.0 node.1)))
      ]

-- On a well-formed tree, a deletion ends and returns the record under the key, if any, and leaves a
-- well-formed tree with the entries of the plain deletion.
pub delete-Removes : (V : Type 0) (t : Tree V) (k : Key) → IsTree V t → Removes V t k (delete t k)
unfolding delete
delete-Removes V t k w = delete_from-Removes V t k w t.root refl

-- A search after a deletion finds nothing under the key, and what was found before under any other.
pub find-delete :
    (V : Type 0) (t : Tree V) (k j : Key)
    → IsTree V t
    → (t' : Tree V) × (delete t k ≡ some (t', lookup k (tree_entries V t)))
      × (find t' j ≡ (if k == j then some none else find t j))
find-delete V t k j w =
    let r = delete-Removes V t k w in
    let s = root_entries-Spans V t.root w.keeps in
    let both : find r.tree j ≡ some (if k == j then none else lookup j (tree_entries V t)) =
      find-lookup V r.tree j r.keeps
      ∙ ap (λ z. some (lookup j z)) r.takes
      ∙ ap some (lookup-unlink k j 0 (tree_entries V t) s.0 s.1) in
    (
      r.tree,
      r.runs,
      elim (Bool-cases (k == j)) [
        | inl e ↦ both ∙ rw e
        | inr e ↦ both ∙ rw (e, find-lookup V t j w)
      ],
    )
