-- ===== src/Tc/Bplus.antt =====
-- The B+ tree of TC/kernel_module/src/bplus.c. A key is the number that its bytes spell, the first
-- byte the highest. The links of a node are a list. A part at height 0 is a record and a part at
-- height h + 1 a node whose links hold parts at height h, so the `type` of a link is its height.
-- `none` and `endless` mean that a loop along the links finds no end.
pub mod Keys
pub mod Height
pub mod Spans
pub mod Search
pub mod Split
pub mod Insert
pub mod Append
pub mod Chain
pub mod Refine
pub mod Delete
pub mod Simulate
mod Tests
use laft.Common.{
  List, Option, [], drop, if◌then◌else◌, leb, length, ltb, negsuc, none, pos, some, suc, take, zero,
  ℕ, ℤ, ◌++◌, ◌==◌, ◌∷◌,
}

abbrev pub Key : Type 0
Key = ℕ

pub record Node (A : Type 0) : Type 0 where
  pub key : Key
  pub links : List (Key × A)

abbrev pub min_degree : ℕ
min_degree = 4

abbrev pub max_degree : ℕ
max_degree = 8

abbrev pub max_size : ℕ
max_size = 600000

abbrev pub pointer_num : {A : Type 0} → Node A → ℕ
pointer_num n = length n.links

abbrev pub Part : Type 0 → ℕ → Type 0
Part V zero = V
Part V (suc h) = Node (Part V h)

-- `header` is the chain of the values, each with the copy of its key.
pub record Tree (V : Type 0) : Type 0 where
  pub root : Option ((h : ℕ) × Node (Part V h))
  pub header : List (Key × V)
  pub size : ℕ

unfoldable pub init : {V : Type 0} → Tree V
init = record { root = none; header = []; size = 0 }

module _ {A : Type 0} where
  -- `while (bpcmp(p->key, key) < 0) p = p->next`
  abbrev pub seek : List (Key × A) → Key → Option (Key × A)
  seek [] k = none
  seek (p ∷ ps) k = if ltb p.0 k then seek ps k else some p

  abbrev pub last_link : List (Key × A) → Option (Key × A)
  last_link [] = none
  last_link (p ∷ []) = some p
  last_link (p ∷ q ∷ ps) = last_link (q ∷ ps)

  -- The key of the link `i` steps from the first one.
  abbrev pub key_at : List (Key × A) → ℕ → Key
  key_at [] i = 0
  key_at (p ∷ ps) zero = p.0
  key_at (p ∷ ps) (suc i) = key_at ps i

-- The outcome for a node: its loop does not end, the key is there already, the node changed in its
-- place, or the node was split in two.
pub data Outcome (A : Type 0) : Type 0 where
  endless : Outcome A
  present : Outcome A
  whole : Node A → Outcome A
  halves : Node A → Node A → Outcome A

module _ {A : Type 0} where
  -- `bpsplit` of one node
  unfoldable pub split : Node A → Outcome A
  split n =
      if leb (pointer_num n) max_degree
      then whole n
      else halves
          (record { key = key_at n.links min_degree; links = take (suc min_degree) n.links })
          (record { key = n.key; links = drop (suc min_degree) n.links })

  -- The new link goes before the first one that is not below it.
  unfoldable pub insert_link : List (Key × A) → Key → A → List (Key × A)
  insert_link [] k v = []
  insert_link (p ∷ ps) k v =
      let rest = insert_link ps k v in if ltb p.0 k then p ∷ rest else (k, v) ∷ p ∷ ps

  -- The child on the way to a key, changed in its place.
  unfoldable pub put_child : List (Key × A) → Key → A → List (Key × A)
  put_child [] k c = []
  put_child (p ∷ ps) k c =
      let rest = put_child ps k c in if ltb p.0 k then p ∷ rest else (p.0, c) ∷ ps

  unfoldable pub rename_last : List (Key × A) → Key → List (Key × A)
  rename_last [] k = []
  rename_last (p ∷ []) k = (k, p.1) ∷ []
  rename_last (p ∷ q ∷ ps) k = p ∷ rename_last (q ∷ ps) k

-- The rest of `bpsplit`: a link to the left half goes before the link of the child that was split,
-- and that link takes the right half.
unfoldable pub put_halves :
    {A : Type 0} → List (Key × Node A) → Node A → Node A → List (Key × Node A)
put_halves [] l r = []
put_halves (p ∷ ps) l r =
    let rest = put_halves ps l r in if ltb p.0 l.key then p ∷ rest else (l.key, l) ∷ (p.0, r) ∷ ps

unfoldable pub absorb : {A : Type 0} → Node (Node A) → Key → Outcome A → Outcome (Node A)
unfolding split
absorb n k endless = endless
absorb n k present = present
absorb n k (whole c) = whole (record n { links = put_child n.links k c })
absorb n k (halves l r) = split (record n { links = put_halves n.links l r })

module _ {V : Type 0} where
  -- The link of a value at which the descent of a search stops.
  unfoldable pub descend : (h : ℕ) → List (Key × Part V h) → Key → Option (Key × V)
  descend zero ps k = seek ps k
  descend (suc h) ps k = elim (seek ps k) [ none ↦ none | some p ↦ descend h p.1.links k ]

  unfoldable pub rightmost : (h : ℕ) → List (Key × Part V h) → Option (Key × V)
  rightmost zero ps = last_link ps
  rightmost (suc h) ps = elim (last_link ps) [ none ↦ none | some p ↦ rightmost h p.1.links ]

  -- `_bpinsert` below a node whose key is not below the new one.
  unfoldable pub insert_below : (h : ℕ) → Node (Part V h) → Key → V → Outcome (Part V h)
  unfolding split insert_link absorb
  insert_below zero n k v = elim (seek n.links k) [
    | none ↦ endless
    | some p ↦ if p.0 == k then present else split (record n { links = insert_link n.links k v })
  ]
  insert_below (suc h) n k v = elim (seek n.links k) [
    | none ↦ endless
    | some p ↦ if p.0 == k then present else absorb n k (insert_below h p.1 k v)
  ]

  -- `_bpinsert` below a node whose key is below the new one.
  unfoldable pub append_below : (h : ℕ) → Node (Part V h) → Key → V → Outcome (Part V h)
  unfolding split absorb rename_last
  append_below zero n k v = split (record { key = k; links = n.links ++ (k, v) ∷ [] })
  append_below (suc h) n k v = elim (last_link n.links) [
    | none ↦ endless
    | some p ↦ absorb (record { key = k; links = rename_last n.links k }) k (append_below h p.1 k v)
  ]

  -- The new value is chained before the value with the first key, or after it and as the last one.
  unfoldable pub chain_before : List (Key × V) → Key → Key × V → List (Key × V)
  chain_before [] j x = []
  chain_before (y ∷ ys) j x =
      let rest = chain_before ys j x in if y.0 == j then x ∷ y ∷ ys else y ∷ rest

  unfoldable pub chain_last : List (Key × V) → Key → Key × V → List (Key × V)
  chain_last [] j x = []
  chain_last (y ∷ ys) j x =
      let rest = chain_last ys j x in if y.0 == j then y ∷ x ∷ [] else y ∷ rest

  -- A root that was split gets a new root above its halves.
  unfoldable pub grow : (h : ℕ) → Outcome (Part V h) → Option ((h : ℕ) × Node (Part V h))
  grow h endless = none
  grow h present = none
  grow h (whole n) = some (h, n)
  grow h (halves l r) = some (suc h, record { key = r.key; links = (l.key, l) ∷ (r.key, r) ∷ [] })

  -- The tree after `_bpinsert`, with the value that it returns.
  abbrev pub store : Tree V → (h : ℕ) → Outcome (Part V h) → List (Key × V) → Option (Tree V × ℤ)
  store t h endless chain = none
  store t h present chain = some (t, pos 0)
  store t h o chain = some (record { root = grow h o; header = chain; size = suc t.size }, pos 0)

  unfoldable pub insert_root :
      Tree V → Option ((h : ℕ) × Node (Part V h)) → Key → V → Option (Tree V × ℤ)
  unfolding insert_below append_below chain_before chain_last grow descend rightmost
  insert_root t none k v = some (
    record {
      root = some (zero, record { key = k; links = (k, v) ∷ [] });
      header = (k, v) ∷ [];
      size = suc t.size;
    },
    pos 0,
  )
  insert_root t (some (h, n)) k v =
      if ltb n.key k
      then elim (rightmost h n.links) [
        | none ↦ none
        | some p ↦ store t h (append_below h n k v) (chain_last t.header p.0 (k, v))
      ]
      else elim (descend h n.links k) [
        | none ↦ none
        | some p ↦ store t h (insert_below h n k v) (chain_before t.header p.0 (k, v))
      ]

  -- `bpinsert` with `_bpinsert`
  unfoldable pub insert : Tree V → Key → V → Option (Tree V × ℤ)
  unfolding insert_root
  insert t k v = if t.size == max_size then some (t, negsuc 0) else insert_root t t.root k v

  -- `bpsearch` with `_bpsearch`; the inner `none` is NULL.
  unfoldable pub find : Tree V → Key → Option (Option V)
  unfolding descend
  find t k = elim t.root [
    | none ↦ some none
    | some (h, n) ↦ if ltb n.key k then some none else elim (descend h n.links k) [
      | none ↦ none
      | some p ↦ some (if p.0 == k then some p.1 else none)
    ]
  ]

-- `bpheight`: the nodes on the way along the first links.
unfoldable pub levels : (V : Type 0) (h : ℕ) → List (Key × Part V h) → ℕ
levels V zero ps = 1
levels V (suc h) [] = 1
levels V (suc h) (p ∷ ps) = suc (levels V h p.1.links)

unfoldable pub height : {V : Type 0} → Tree V → ℕ
unfolding levels
height {V = V} t = elim t.root [ none ↦ 0 | some (h, n) ↦ levels V h n.links ]

module _ {V S : Type 0} where
  -- `bptraverse`: the function runs on the record of each value of the chain, over a state.
  unfoldable pub run_chain : List (Key × V) → (S → V → S) → S → S
  run_chain [] f s = s
  run_chain (x ∷ xs) f s = run_chain xs f (f s x.1)

  unfoldable pub traverse : Tree V → (S → V → S) → S → S
  unfolding run_chain
  traverse t f s = run_chain t.header f s
