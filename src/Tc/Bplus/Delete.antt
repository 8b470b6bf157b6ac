-- ===== src/Tc/Bplus/Delete.antt =====
-- `bpdelete` and `bpmerge` of TC/kernel_module/src/bplus.c. `stuck` means that a loop along the
-- links finds no end, that a node has lost all its links, or that a parent would have to be split.
pub mod Unlink
pub mod Leaf
pub mod Merge
pub mod Inner
pub mod Below
pub mod Whole
pub mod Refine
use laft.Common.{
  Bool, List, Option, [], false, get_elem?, if◌then◌else◌, leb, length, ltb, none, some, suc, true,
  zero, ℕ, ◌&&◌, ◌++◌, ◌-◌, ◌==◌, ◌∷◌,
}
use laft.Tc.Bplus.{
  Key, Node, Outcome, Part, Tree, grow, halves, init, last_link, max_degree, min_degree,
  pointer_num, put_halves, rename_last, seek, split,
}

-- Deleted from a node: the node without the entry, the record, the new key that its ancestors are
-- to take, and whether `bpmerge` goes on with the node.
pub data Deletion (A V : Type 0) : Type 0 where
  stuck : Deletion A V
  absent : Deletion A V
  deleted : Node A → V → Option Key → Bool → Deletion A V

-- What `bpmerge` of a child makes of its parent: it stays, and `bpmerge` may go on with it, or it
-- was a root of one link, which the child takes the place of.
pub data Merged (A : Type 0) : Type 0 where
  stuck : Merged A
  kept : Node (Node A) → Bool → Merged A
  collapsed : Outcome A → Merged A

module _ {A : Type 0} where
  -- The number of links before the first one that is not below the key.
  abbrev pub seek_index : List (Key × A) → Key → ℕ
  seek_index [] k = 0
  seek_index (p ∷ ps) k = if ltb p.0 k then suc (seek_index ps k) else 0

  unfoldable pub drop_last : List (Key × A) → List (Key × A)
  drop_last [] = []
  drop_last (p ∷ []) = []
  drop_last (p ∷ q ∷ ps) = p ∷ drop_last (q ∷ ps)

  unfoldable pub remove_link : List (Key × A) → Key → List (Key × A)
  remove_link [] k = []
  remove_link (p ∷ ps) k = let rest = remove_link ps k in if ltb p.0 k then p ∷ rest else ps

  -- The first link with the key `k` takes the key `new`.
  unfoldable pub rename_link : List (Key × A) → Key → Key → List (Key × A)
  rename_link [] k new = []
  rename_link (p ∷ ps) k new =
      let rest = rename_link ps k new in if p.0 == k then (new, p.1) ∷ ps else p ∷ rest

  unfoldable pub set_part : List (Key × A) → ℕ → A → List (Key × A)
  set_part [] i a = []
  set_part (p ∷ ps) zero a = (p.0, a) ∷ ps
  set_part (p ∷ ps) (suc i) a = p ∷ set_part ps i a

  -- The value with a key taken out of the chain.
  unfoldable pub unlink : Key → List (Key × A) → List (Key × A)
  unlink k [] = []
  unlink k (p ∷ ps) = let rest = unlink k ps in if p.0 == k then ps else p ∷ rest

module _ {A : Type 0} where
  -- A child takes in the links of its left neighbour at the index, which is dropped.
  unfoldable pub merge_at : ℕ → List (Key × Node A) → List (Key × Node A)
  merge_at i [] = []
  merge_at zero (a ∷ []) = []
  merge_at zero (a ∷ b ∷ ps) = (b.0, record { key = b.1.key; links = a.1.links ++ b.1.links }) ∷ ps
  merge_at (suc i) (a ∷ ps) = a ∷ merge_at i ps

  -- The end of `bpmerge` for the merged child `m`, its parent having the links `ps` now.
  unfoldable pub settle : Bool → Key → List (Key × Node A) → Node A → Merged A
  settle is_root key ps m =
      if is_root && length ps == 1
      then collapsed (split m)
      else if leb (pointer_num m) max_degree
      then kept (record { key = key; links = ps }) true
      else elim (split m) [
        | halves l r ↦
            let relinked = put_halves ps l r in
            if leb (length relinked) max_degree
            then kept (record { key = key; links = relinked }) false
            else stuck
        | _ ↦ stuck
      ]

  -- The child that the link at an index leads to merges with the next one.
  unfoldable pub merge_pair : Bool → Node (Node A) → ℕ → Merged A
  merge_pair is_root n i =
      let ps = merge_at i n.links in
      elim (get_elem? ps i) [ none ↦ stuck | some q ↦ settle is_root n.key ps q.1 ]

  -- `bpmerge` of the child at an index. The first child merges with its right neighbour, any other
  -- with its left one.
  unfoldable pub merge : Bool → Node (Node A) → ℕ → Merged A
  merge is_root n i = elim (get_elem? n.links i) [
    | none ↦ stuck
    | some p ↦
        if leb min_degree (pointer_num p.1) then kept n false else merge_pair is_root n (i - 1)
  ]

  -- An ancestor of the leaf takes a new key for the deleted one, on and on while it is its own.
  unfoldable pub rename : Node (Node A) → Key → Option Key → Node (Node A) × Option Key
  unfolding rename_last rename_link
  rename n k none = (n, none)
  rename n k (some new) =
      if n.key == k
      then (record { key = new; links = rename_last n.links new }, some new)
      else (record { key = n.key; links = rename_link n.links k new }, none)

  -- A parent with its child at the key changed and the keys renamed.
  unfoldable pub renamed : Node (Node A) → Key → Node A → Option Key → Node (Node A) × Option Key
  renamed n k c new =
      rename (record { key = n.key; links = set_part n.links (seek_index n.links k) c }) k new

  -- The parent of a child from which an entry was deleted.
  abbrev pub after_merge : {V : Type 0} → Merged A → V → Option Key → Deletion (Node A) V
  after_merge stuck v new = stuck
  after_merge (kept n again) v new = deleted n v new again
  after_merge (collapsed o) v new = stuck

-- What is left of the root, with the record.
pub data RootDeletion (V : Type 0) : Type 0 where
  stuck : RootDeletion V
  absent : RootDeletion V
  deleted : Option ((h : ℕ) × Node (Part V h)) → V → RootDeletion V

module _ {V : Type 0} where
  -- A leaf with more than one link.
  unfoldable pub delete_leaf : Node V → Key → Deletion V V
  unfolding drop_last remove_link
  delete_leaf n k =
      if n.key == k
      then elim (last_link n.links) [
        | none ↦ stuck
        | some p ↦
            let rest = drop_last n.links in
            elim (last_link rest) [
              | none ↦ stuck
              | some q ↦ deleted (record { key = q.0; links = rest }) p.1 (some q.0) true
            ]
      ]
      else elim (seek n.links k) [
        | none ↦ stuck
        | some p ↦
            if p.0 == k
            then deleted (record { key = n.key; links = remove_link n.links k }) p.1 none true
            else absent
      ]

  -- From a child that was deleted from up to its parent.
  unfoldable pub pass_up : {A : Type 0} → Node (Node A) → Key → Deletion A V → Deletion (Node A) V
  pass_up n k stuck = stuck
  pass_up n k absent = absent
  pass_up n k (deleted c v new again) =
      let (n', new') = renamed n k c new in
      if again
      then after_merge (merge false n' (seek_index n.links k)) v new'
      else deleted n' v new' false

  unfoldable pub delete_below : (h : ℕ) → Node (Part V h) → Key → Deletion (Part V h) V
  delete_below zero n k = delete_leaf n k
  delete_below (suc h) n k = elim (seek n.links k) [
    | none ↦ stuck
    | some p ↦ pass_up n k (delete_below h p.1 k)
  ]

  abbrev pub root_after : (h : ℕ) → Merged (Part V h) → V → RootDeletion V
  root_after h stuck v = stuck
  root_after h (kept n again) v = deleted (some (suc h, n)) v
  root_after h (collapsed o) v = deleted (grow h o) v

  unfoldable pub pass_root :
      (h : ℕ) → Node (Node (Part V h)) → Key → Deletion (Part V h) V → RootDeletion V
  pass_root h n k stuck = stuck
  pass_root h n k absent = absent
  pass_root h n k (deleted c v new again) =
      let (n', new') = renamed n k c new in
      if again
      then root_after h (merge true n' (seek_index n.links k)) v
      else deleted (some (suc h, n')) v

  -- The root as a leaf.
  unfoldable pub leaf_root : Deletion V V → RootDeletion V
  leaf_root stuck = stuck
  leaf_root absent = absent
  leaf_root (deleted n v new again) = deleted (some (zero, n)) v

  -- `_bpdelete` from the root on, for a key that is not above the root's.
  unfoldable pub delete_root : (h : ℕ) → Node (Part V h) → Key → RootDeletion V
  delete_root zero n k =
      if pointer_num n == 1
      then if n.key == k
        then elim (last_link n.links) [ none ↦ stuck | some p ↦ deleted none p.1 ]
        else absent
      else leaf_root (delete_leaf n k)
  delete_root (suc h) n k = elim (seek n.links k) [
    | none ↦ stuck
    | some p ↦ pass_root h n k (delete_below h p.1 k)
  ]

  -- The tree and the record after a deletion; the last entry takes the whole tree with it.
  abbrev pub store_deleted : Tree V → Key → RootDeletion V → Option (Tree V × Option V)
  store_deleted t k stuck = none
  store_deleted t k absent = some (t, none)
  store_deleted t k (deleted none v) = some (init, some v)
  store_deleted t k (deleted (some r) v) =
      some (record { root = some r; header = unlink k t.header; size = t.size - 1 }, some v)

  unfoldable pub delete_from :
      Tree V → Option ((h : ℕ) × Node (Part V h)) → Key → Option (Tree V × Option V)
  delete_from t none k = some (t, none)
  delete_from t (some (h, n)) k =
      if ltb n.key k then some (t, none) else store_deleted t k (delete_root h n k)

  -- `bpdelete` with `_bpdelete`; the inner `none` is NULL.
  unfoldable pub delete : Tree V → Key → Option (Tree V × Option V)
  unfolding delete_from
  delete t k = delete_from t t.root k
