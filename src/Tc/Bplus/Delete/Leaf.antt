-- ===== src/Tc/Bplus/Delete/Leaf.antt =====
-- What a deletion of TC/kernel_module/src/bplus.c leaves of a node, and that it does so at a leaf.
use mathlib.Core.List.{append-nil}
use laft.Common.{
  ==_iff, Bool, Bool-cases, List, Option, [], ap, arith, false, inl, inr, length, length-append,
  none, refl, some, subst, suc, sym, zero, ℕ, ◌++◌, ◌<◌, ◌==◌, ◌∙◌, ◌∷◌, ◌≡◌, ◌≢◌, ◌≤◌,
}
use laft.Tc.Bplus.{Key, Node, Part, last_link, max_degree, pointer_num, seek}
use laft.Tc.Bplus.Spans.{
  Spans-Below, Spans, append-Spans, Spans-le, Spans-length_pos, locate, seek-at,
}
use laft.Tc.Bplus.Search.{IsNode, IsPart, entries, entries-zero, lookup, lookup-above}
use laft.Tc.Bplus.Append.{last_link-located, locate-End}
use laft.Tc.Bplus.Delete.{
  Deletion, absent, delete_leaf, deleted, drop_last, remove_link, stuck, unlink,
}
use laft.Tc.Bplus.Delete.Unlink.{
  drop_last-end, lookup-at, lookup-skip, lower-links, remove_link-at, unlink-at,
}

-- The range ends after the new key, if there is one: then the old key was the last of the range.
abbrev pub new_top : Option Key → ℕ → ℕ
new_top none top = top
new_top (some x) top = suc x

abbrev pub Renames : Option Key → ℕ → Key → Type 0
Renames none top k = Unit
Renames (some x) top k = (top ≡ suc k) × (x < k)

-- The node `n` after the deletion of `k` from a node of `m` links with the entries `es`: it has lost
-- at most one link, and none unless `bpmerge` goes on with it.
pub record Deleted (V : Type 0) (h lo top k m : ℕ) (es : List (Key × V)) (n : Node (Part V h))
    (v : V) (new : Option Key) (again : Bool) : Type 0 where
  pub held : lookup k es ≡ some v
  pub entries_left : entries V h n.links ≡ unlink k es
  pub renames : Renames new top k
  pub key_top : suc n.key ≡ new_top new top
  pub spans : Spans (IsPart V h) lo n.links (new_top new top)
  pub most : pointer_num n ≤ max_degree
  pub lost : m ≤ suc (pointer_num n)
  pub kept_all : again ≡ false → m ≤ pointer_num n

abbrev pub Deletes :
    (V : Type 0) (h lo top k m : ℕ) → List (Key × V) → Deletion (Part V h) V → Type 0
Deletes V h lo top k m es stuck = ⊥
Deletes V h lo top k m es absent = lookup k es ≡ none
Deletes V h lo top k m es (deleted n v new again) = Deleted V h lo top k m es n v new again

module _ (V : Type 0) (lo top : ℕ) (n : Node V) (k : Key) (hl : lo ≤ k) (hg : k < top)
    (w : IsNode V zero lo top n) (two : 2 ≤ pointer_num n) where
  delete_last-Deletes :
      n.key ≡ k → Deletes V zero lo top k (pointer_num n) (entries V zero n.links) (delete_leaf n k)
  unfolding delete_leaf
  delete_last-Deletes e =
      let r = locate-End (IsPart V zero) lo n.links top (omega arith) w.1 in
      let count : length n.links ≡ suc (length r.before) =
        omega (arith, ap length r.splits, length-append {0} r.before ((r.at, r.part) ∷ [])) in
      let q =
        locate-End (IsPart V zero) lo r.before r.mid
          (omega (arith, Spans-le (IsPart V zero) lo r.before r.mid r.spans_before))
          r.spans_before in
      let last : last_link n.links ≡ some (r.at, r.part) =
        last_link-located (IsPart V zero) lo n.links top r in
      let rest : drop_last n.links ≡ r.before =
        ap drop_last r.splits ∙ drop_last-end r.before (r.at, r.part) in
      let last' : last_link r.before ≡ some (q.at, q.part) =
        last_link-located (IsPart V zero) lo r.before r.mid q in
      let at_k : r.at ≡ k = omega (arith, r.at_top, w.0, e) in
      let below =
        Spans-Below (IsPart V zero) lo r.before r.mid k (omega (arith, r.mid_le, at_k))
          r.spans_before in
      rw (delete_leaf, (==_iff _ _).1 e, last, rest, last', rest)
        (record {
          held =
              ap (lookup k) (entries-zero n.links ∙ r.splits)
              ∙ lookup-at k r.before (r.at, r.part) [] below at_k;
          entries_left =
              entries-zero r.before
              ∙ sym (
                  ap (unlink k) (entries-zero n.links ∙ r.splits)
                  ∙ unlink-at k r.before (r.at, r.part) [] below at_k
                  ∙ append-nil r.before);
          renames = (omega (arith, w.0, e), omega (arith, q.at_top, r.mid_le, at_k));
          key_top = refl;
          spans = subst (λ z. Spans (IsPart V zero) lo r.before z) (sym q.at_top) r.spans_before;
          most = omega (arith, w.2, count);
          lost = omega (arith, count);
          kept_all = λ f. cc;
        })

  delete_other-Deletes :
      n.key ≢ k → Deletes V zero lo top k (pointer_num n) (entries V zero n.links) (delete_leaf n k)
  unfolding delete_leaf
  delete_other-Deletes ne =
      let r = locate (IsPart V zero) lo n.links top k hl hg w.1 in
      let below = Spans-Below (IsPart V zero) lo r.before r.mid k r.mid_le r.spans_before in
      let seeks : seek n.links k ≡ some (r.at, r.part) =
        rw r.splits (seek-at k r.before (r.at, r.part) r.after below r.le_at) in
      let rest : remove_link n.links k ≡ r.before ++ r.after =
        rw r.splits (remove_link-at k r.before (r.at, r.part) r.after below r.le_at) in
      let other : (n.key == k) ≡ false = ground arith in
      let absent_there : r.at ≢ k → lookup k (entries V zero n.links) ≡ none = λ f.
        ap (lookup k) (entries-zero n.links ∙ r.splits)
        ∙ lookup-skip k r.before ((r.at, r.part) ∷ r.after) below
        ∙ lookup-above k r.at ((r.at, r.part) ∷ r.after) top (omega (arith, r.le_at, f))
            (omega arith, tt, r.spans_after) in
      rw (delete_leaf, other, seeks)
        (elim (Bool-cases (r.at == k)) [
          | inl e ↦
              let at_k = (==_iff _ _).0 e in
              let count : length n.links ≡ suc (length (r.before ++ r.after)) = omega (
                arith,
                ap length r.splits,
                length-append {0} r.before ((r.at, r.part) ∷ r.after),
                length-append {0} r.before r.after,
              ) in
              rw (e, rest)
                (record {
                  held =
                      ap (lookup k) (entries-zero n.links ∙ r.splits)
                      ∙ lookup-at k r.before (r.at, r.part) r.after below at_k;
                  entries_left =
                      entries-zero (r.before ++ r.after)
                      ∙ sym (
                          ap (unlink k) (entries-zero n.links ∙ r.splits)
                          ∙ unlink-at k r.before (r.at, r.part) r.after below at_k);
                  renames = tt;
                  key_top = w.0;
                  spans =
                      append-Spans (IsPart V zero) lo r.before r.mid r.after top r.spans_before (
                        lower-links V zero (suc r.at) r.mid r.after top
                          (omega (arith, r.mid_le, at_k))
                          (Spans-length_pos (IsPart V zero) (suc r.at) r.after top
                            (omega (arith, at_k, w.0, ne)) r.spans_after)
                          r.spans_after);
                  most = omega (arith, w.2, count);
                  lost = omega (arith, count);
                  kept_all = λ f. cc;
                })
          | inr e ↦ rw e (absent_there (λ d. cc ((==_iff _ _).1 d)))
        ])

  pub delete_leaf-Deletes :
      Deletes V zero lo top k (pointer_num n) (entries V zero n.links) (delete_leaf n k)
  delete_leaf-Deletes = elim (Bool-cases (n.key == k)) [
    | inl e ↦ delete_last-Deletes ((==_iff _ _).0 e)
    | inr e ↦ delete_other-Deletes (λ d. cc ((==_iff _ _).1 d))
  ]
