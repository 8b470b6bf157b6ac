-- ===== src/Tc/Bplus/Refine.antt =====
-- `bpinsert` and `bpsearch` of TC/kernel_module/src/bplus.c on a whole tree, with the chain of its
-- values, against a sorted association list.
use laft.Common.{
  ==_iff, Bool-cases, List, Option, Option-cases, [], ap, arith, false, if◌then◌else◌, inl, inr,
  length, ltb, ltb→lt, lt→ltb, none, pos, refl, some, subst, suc, sym, zero, ℕ, ◌++◌, ◌<◌, ◌==◌,
  ◌∙◌, ◌∷◌, ◌≡◌, ◌≢◌, ◌≤◌,
}
use laft.Tc.Bplus.{
  Key, Node, Outcome, Part, Tree, append_below, chain_before, chain_last, descend, endless, find,
  grow, halves, insert, insert_below, insert_root, last_link, max_size, pointer_num, present,
  rightmost, store, whole,
}
use laft.Tc.Bplus.Spans.{Anything, Spans-Below, Spans}
use laft.Tc.Bplus.Search.{
  IsNode, IsRoot, IsTree, descend-seek, entries, entries-Spans, find-lookup, lookup, lookup-above,
  lookup-seek, root_degree, tree_entries,
}
use laft.Tc.Bplus.Split.{Grows}
use laft.Tc.Bplus.Insert.{insert_below-Grows, put}
use laft.Tc.Bplus.Append.{
  append_below-Grows, chain_last-appends, last_link-end, locate-End, rightmost-last,
}
use laft.Tc.Bplus.Chain.{
  append-puts, chain_before-puts, grow-IsRoot, insert_below-present, root_entries, seek-put,
}

module _ (V : Type 0) (t : Tree V) (k : Key) (v : V) where
  -- What a node that grew makes of the tree.
  record Stores (h : ℕ) (o : Outcome (Part V h)) (chain : List (Key × V)) : Type 0 where
    tree : Tree V
    runs : store t h o chain ≡ some (tree, pos 0)
    keeps : IsTree V tree
    puts : tree_entries V tree ≡ chain

  store-Stores :
      (h top m : ℕ) (o : Outcome (Part V h)) (chain : List (Key × V))
      → root_degree h ≤ m
      → t.size < max_size
      → length chain ≡ suc t.size
      → Grows V h 0 top m ⊥ chain o
      → Stores h o chain
  store-Stores h top m o chain d b c g =
      let r = grow-IsRoot V h top m o chain d g in
      record {
        tree = record { root = grow h o; header = chain; size = suc t.size };
        runs = runs o g;
        keeps = record { keeps = r.0; chained = sym r.1; counted = sym c; bounded = omega arith };
        puts = r.1;
      }
    where
      runs :
          (o : Outcome (Part V h))
          → Grows V h 0 top m ⊥ chain o
          → store t h o chain
            ≡ some (record { root = grow h o; header = chain; size = suc t.size }, pos 0)
      runs endless g = absurd g
      runs present g = absurd g
      runs (whole n) g = refl
      runs (halves l r) g = refl

  -- The call ends and returns 0, the tree is well formed, and its entries are those of the plain
  -- insertion.
  pub record Inserts : Type 0 where
    pub tree : Tree V
    pub runs : insert t k v ≡ some (tree, pos 0)
    pub keeps : IsTree V tree
    pub puts : tree_entries V tree ≡ put k v (tree_entries V t)

  Inserts_of_stores :
      (h : ℕ) (o : Outcome (Part V h)) (chain : List (Key × V))
      → insert t k v ≡ store t h o chain
      → chain ≡ put k v (tree_entries V t)
      → Stores h o chain
      → Inserts
  Inserts_of_stores h o chain e f s = record {
    tree = s.tree;
    runs = e ∙ s.runs;
    keeps = s.keeps;
    puts = s.puts ∙ f;
  }

  module _ (w : IsTree V t) (room : t.size < max_size) where
    not_full : (t.size == max_size) ≡ false
    not_full = ground arith

    to_root :
        (r : Option ((h : ℕ) × Node (Part V h))) → t.root ≡ r → insert t k v ≡ insert_root t r k v
    unfolding insert
    to_root r e = rw not_full (ap (λ z. insert_root t z k v) e)

    insert_first : t.root ≡ none → Inserts
    unfolding insert_root
    insert_first e =
        let chained : t.header ≡ [] = w.chained ∙ rw e in
        record {
          tree = record {
            root = some (zero, record { key = k; links = (k, v) ∷ [] });
            header = (k, v) ∷ [];
            size = suc t.size;
          };
          runs = to_root none e;
          keeps = record {
            keeps = ((refl, (omega arith, tt, refl), omega arith), omega arith);
            chained = refl;
            counted = omega (arith, w.counted, ap length chained);
            bounded = omega arith;
          };
          puts = rw e;
        }

    module _ (h : ℕ) (n : Node (Part V h)) (at_root : t.root ≡ some (h, n)) where
      node : IsNode V h 0 (suc n.key) n × (root_degree h ≤ pointer_num n)
      node = subst (IsRoot V) at_root w.keeps

      spans : Spans Anything 0 (entries V h n.links) (suc n.key)
      spans = entries-Spans V h 0 n.links (suc n.key) node.0.1

      held : tree_entries V t ≡ entries V h n.links
      held = rw at_root

      counts : length (entries V h n.links) ≡ t.size
      counts = ap length (sym (w.chained ∙ held)) ∙ sym w.counted

      insert_beyond : n.key < k → Inserts
      unfolding insert_root
      insert_beyond b =
          let es = entries V h n.links in
          let r = locate-End Anything 0 es (suc n.key) (omega arith) spans in
          let last : last_link es ≡ some (r.at, r.part) =
            rw r.splits (last_link-end r.before (r.at, r.part)) in
          let right : rightmost h n.links ≡ some (r.at, r.part) =
            rightmost-last h 0 n.links (suc n.key) (omega arith) node.0.1 ∙ last in
          let puts = append-puts k v es (Spans-Below Anything 0 es (suc n.key) k b spans) in
          let chain : chain_last t.header r.at (k, v) ≡ es ++ (k, v) ∷ [] =
            ap (λ z. chain_last z r.at (k, v)) (w.chained ∙ held)
            ∙ chain_last-appends 0 es (r.at, r.part) (k, v) (suc n.key) spans last in
          Inserts_of_stores h (append_below h n k v) (es ++ (k, v) ∷ [])
            (to_root (some (h, n)) at_root ∙ rw (insert_root, lt→ltb _ _ b, right, chain))
            (sym puts.0 ∙ ap (put k v) (sym held))
            (store-Stores h (suc k) (pointer_num n) (append_below h n k v) (es ++ (k, v) ∷ [])
              node.1 room (ap length (sym puts.0) ∙ puts.1 ∙ ap suc counts)
              (append_below-Grows V h 0 (suc n.key) n k v (omega arith) b node.0))

      insert_within : k ≤ n.key → Inserts
      unfolding insert_root
      insert_within b =
          let es = entries V h n.links in
          let r = lookup-seek k 0 es (suc n.key) (omega arith) (omega arith) spans in
          let lands : descend h n.links k ≡ some r.entry =
            descend-seek h 0 n.links (suc n.key) k (omega arith) (omega arith) node.0.1 ∙ r.found in
          let within : ltb n.key k ≡ false = ground arith in
          let runs : insert t k v
              ≡ store t h (insert_below h n k v) (chain_before t.header r.entry.0 (k, v)) =
            to_root (some (h, n)) at_root ∙ rw (insert_root, within, lands) in
          elim (Bool-cases (r.entry.0 == k)) [
            | inl e ↦
                let same = (==_iff _ _).0 e in
                record {
                  tree = t;
                  runs = runs ∙ rw (insert_below-present h n k v r.entry lands same);
                  keeps = w;
                  puts =
                      held ∙ sym (seek-put k v es r.entry r.found same) ∙ ap (put k v) (sym held);
                }
            | inr e ↦
                let ne : r.entry.0 ≢ k = λ d. cc ((==_iff _ _).1 d) in
                let puts = chain_before-puts k v es r.entry r.found ne in
                let chain : chain_before t.header r.entry.0 (k, v) ≡ put k v es =
                  ap (λ z. chain_before z r.entry.0 (k, v)) (w.chained ∙ held) ∙ puts.0 in
                Inserts_of_stores h (insert_below h n k v) (put k v es) (runs ∙ rw chain)
                  (ap (put k v) (sym held))
                  (store-Stores h (suc n.key) (pointer_num n) (insert_below h n k v) (put k v es)
                    node.1 room (puts.1 ∙ ap suc counts)
                    (insert_below-Grows V h 0 (suc n.key) ⊥ n k v (omega arith) (omega arith) node.0
                      (λ d. omega (arith, ap length d, puts.1))))
          ]

-- On a well-formed tree of fewer entries than the bound, an insertion ends and returns 0, and leaves
-- a well-formed tree with the entries of the plain insertion.
pub insert-Inserts :
    (V : Type 0) (t : Tree V) (k : Key) (v : V) → IsTree V t → t.size < max_size → Inserts V t k v
insert-Inserts V t k v w room = elim (Option-cases t.root) [
  | inl e ↦ insert_first V t k v w room e
  | inr ((h, n), e) ↦ elim (Bool-cases (ltb n.key k)) [
    | inl b ↦ insert_beyond V t k v w room h n e (ltb→lt _ _ b)
    | inr b ↦ insert_within V t k v w room h n e (ground arith)
  ]
]

-- The record under a key that may be there already.
abbrev pub kept_or : {V : Type 0} → Option V → V → V
kept_or none v = v
kept_or (some u) v = u

module _ {V : Type 0} where
  pub lookup-put :
      (k j : Key) (v : V) (lo : ℕ) (es : List (Key × V)) (top : ℕ)
      → Spans Anything lo es top
      → lookup j (put k v es) ≡ (if k == j then some (kept_or (lookup k es) v) else lookup j es)
  lookup-put k j v lo [] top s = refl
  lookup-put k j v lo (e ∷ es) top s =
      ground (arith, lookup-put k j v (suc e.0) es top s.2, lookup-above k (suc e.0) es top)

pub root_entries-Spans :
    (V : Type 0) (r : Option ((h : ℕ) × Node (Part V h)))
    → IsRoot V r
    → (top : ℕ) × Spans Anything 0 (root_entries V r) top
root_entries-Spans V none w = (0, refl)
root_entries-Spans V (some (h, n)) w = (suc n.key, entries-Spans V h 0 n.links (suc n.key) w.0.1)

-- A search after an insertion finds the new record under a key that was not there, the old one
-- under a key that was, and what was found before under any other.
pub find-insert :
    (V : Type 0) (t : Tree V) (k j : Key) (v : V)
    → IsTree V t
    → t.size < max_size
    → (t' : Tree V) × (insert t k v ≡ some (t', pos 0))
      × (find t' j
          ≡ (if k == j then some (some (kept_or (lookup k (tree_entries V t)) v)) else find t j))
find-insert V t k j v w room =
    let r = insert-Inserts V t k v w room in
    let s = root_entries-Spans V t.root w.keeps in
    let both : find r.tree j
        ≡ some (
            if k == j
            then some (kept_or (lookup k (tree_entries V t)) v)
            else lookup j (tree_entries V t)) =
      find-lookup V r.tree j r.keeps
      ∙ ap (λ z. some (lookup j z)) r.puts
      ∙ ap some (lookup-put k j v 0 (tree_entries V t) s.0 s.1) in
    (
      r.tree,
      r.runs,
      elim (Bool-cases (k == j)) [
        | inl e ↦ both ∙ rw e
        | inr e ↦ both ∙ rw (e, find-lookup V t j w)
      ],
    )
