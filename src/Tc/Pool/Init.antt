-- ===== src/Tc/Pool/Init.antt =====
-- `InitAddrPool` of TC/user_module/src/addrpoolentity.c: the pool of a configured address range.
use mathlib.Core.List.{append-nil, append_assoc}
use laft.Common.{
  Bool, Bool-cases, List, [], arith, false, if◌then◌else◌, inl, inr, is_empty, is_empty→eq, leb,
  length, length-append, length_pos, ltb, ltb→lt, map, negsuc, none, not-is_empty, refl, some, suc,
  sym, take-length, true, zero, ℕ, ◌%◌, ◌++◌, ◌+◌, ◌-◌, ◌<◌, ◌^◌, ◌∙◌, ◌∷◌, ◌≡◌, ◌≢◌, ◌≤◌,
}
use laft.Tc.Bitmap.{fresh_map}
use laft.Tc.Bitmap.Laws.{fresh_map-IsBitmap}
use laft.Tc.Pool.{PoolList, PoolNode, add_node, alloc_node, init_from, init_pool, node_at}
use laft.Tc.Pool.Free.{Distinct}
use laft.Tc.Pool.Multiples.{HaveMultiples}
use laft.Tc.Pool.Calls.{IsSound}

-- The current node is the last.
abbrev AtEnd : PoolList → Type 0
AtEnd l = l.nodes ≢ [] → l.curnode + 1 ≡ length l.nodes

add_node-none : (l : PoolList) → add_node l none ≡ (negsuc 0, l)
unfolding add_node
add_node-none l = refl

add_node-nodes :
    (l : PoolList) (c : PoolNode)
    → AtEnd l
    → ((add_node l (some c)).1.nodes ≡ l.nodes ++ (c ∷ [])) × AtEnd (add_node l (some c)).1
unfolding add_node
add_node-nodes l c at_end = elim (Bool-cases (is_empty l.nodes)) [
  | inl e ↦ rw e (rw (is_empty→eq l.nodes e), λ _. omega arith)
  | inr e ↦
      rw (e, at_end (not-is_empty l.nodes e), take-length l.nodes)
        (refl, λ _. omega (arith, length-append l.nodes (c ∷ [])))
]

module _ (mem : ℕ → Bool) where
  -- A node for each of the `n` addresses from `start` on for which there was memory, in order.
  abbrev pub range_nodes : ℕ → ℕ → List PoolNode
  range_nodes start zero = []
  range_nodes start (suc n) =
      if mem start then alloc_node start ∷ range_nodes (start + 1) n else range_nodes (start + 1) n

  init_from_step :
      (fuel idx end : ℕ) (l : PoolList)
      → idx ≤ end
      → end + 1 < 2 ^ 32
      → init_from mem (suc fuel) idx end l
        ≡ init_from mem fuel
            (idx + 1)
            end
            (add_node l (if mem idx then some (alloc_node idx) else none)).1
  unfolding init_from
  init_from_step fuel idx end l h small =
      let more : leb idx end ≡ true = ground arith in
      let next : (idx + 1) % 2 ^ 32 ≡ idx + 1 = omega arith in rw (more, next)

  init_from-nodes :
      (fuel n idx end : ℕ) (l : PoolList)
      → idx + n ≡ end + 1
      → end + 1 < 2 ^ 32
      → n < fuel
      → AtEnd l
      → (l' : PoolList) × (init_from mem fuel idx end l ≡ some l')
        × (l'.nodes ≡ l.nodes ++ range_nodes idx n)
  unfolding init_from
  init_from-nodes zero n idx end l e h lt at_end = absurd (omega arith)
  init_from-nodes (suc fuel) zero idx end l e h lt at_end =
      let done : leb idx end ≡ false = ground arith in (l, rw done, sym (append-nil l.nodes))
  init_from-nodes (suc fuel) (suc n) idx end l e h lt at_end =
      let step = init_from_step fuel idx end l (omega arith) h in
      elim (Bool-cases (mem idx)) [
        | inr m ↦
            let (l', run, eq) =
              init_from-nodes fuel n (idx + 1) end l (omega arith) h (omega arith) at_end in
            (l', step ∙ rw (m, add_node-none l) run, rw m eq)
        | inl m ↦
            let c = alloc_node idx in
            let (nodes_eq, at_end') = add_node-nodes l c at_end in
            let (l', run, eq) =
              init_from-nodes fuel n (idx + 1) end (add_node l (some c)).1 (omega arith) h
                (omega arith) at_end' in
            (
              l',
              step ∙ rw m run,
              rw m (eq ∙ rw (nodes_eq, append_assoc l.nodes (c ∷ []) (range_nodes (idx + 1) n))),
            )
      ]

-- Nodes with increasing addresses from `start` on, as `AllocAddrPoolNode` leaves them.
abbrev pub AreFresh : ℕ → List PoolNode → Type 0
AreFresh start nodes =
    (p : ℕ)
    → p < length nodes
    → (start ≤ (node_at nodes p).ip)
      × ((node_at nodes p).bitmap ≡ fresh_map)
      × ((node_at nodes p).validbit ≡ 0)
      × ((q : ℕ) → q < length nodes → p < q → (node_at nodes p).ip < (node_at nodes q).ip)

AreFresh-cons :
    (start : ℕ) (nodes : List PoolNode)
    → AreFresh (start + 1) nodes
    → AreFresh start (alloc_node start ∷ nodes)
unfolding alloc_node
AreFresh-cons start nodes h zero hp = (omega arith, refl, refl, above)
  where
    above :
        (q : ℕ) → q < suc (length nodes) → 0 < q → start < (node_at (alloc_node start ∷ nodes) q).ip
    above zero hq lt = absurd (omega arith)
    above (suc q) hq lt = omega (arith, (h q (omega arith)).0)
AreFresh-cons start nodes h (suc p) hp =
    let (low, map, bit, above) = h p (omega arith) in (omega arith, map, bit, beyond above)
  where
    beyond :
        ((q : ℕ) → q < length nodes → p < q → (node_at nodes p).ip < (node_at nodes q).ip)
        → (q : ℕ) → q < suc (length nodes)
        → suc p < q
        → (node_at nodes p).ip < (node_at (alloc_node start ∷ nodes) q).ip
    beyond above zero hq lt = absurd (omega arith)
    beyond above (suc q) hq lt = above q (omega arith) (omega arith)

AreFresh-later :
    (start : ℕ) (nodes : List PoolNode) → AreFresh (start + 1) nodes → AreFresh start nodes
AreFresh-later start nodes h p hp =
    let (low, map, bit, above) = h p hp in (omega arith, map, bit, above)

pub range_nodes-AreFresh : (mem : ℕ → Bool) (start n : ℕ) → AreFresh start (range_nodes mem start n)
range_nodes-AreFresh mem start zero = λ p h. absurd (omega arith)
range_nodes-AreFresh mem start (suc n) = elim (Bool-cases (mem start)) [
  | inl m ↦ rw m (AreFresh-cons start _ (range_nodes-AreFresh mem (start + 1) n))
  | inr m ↦ rw m (AreFresh-later start _ (range_nodes-AreFresh mem (start + 1) n))
]

AreFresh-Distinct : (start : ℕ) (nodes : List PoolNode) → AreFresh start nodes → Distinct nodes
AreFresh-Distinct start nodes h p q hp hq e = elim (Bool-cases (ltb p q)) [
  | inl lt ↦ absurd (omega (arith, (h p hp).3 q hq (ltb→lt p q lt)))
  | inr ge ↦ elim (Bool-cases (ltb q p)) [
    | inl lt ↦ absurd (omega (arith, (h q hq).3 p hp (ltb→lt q p lt)))
    | inr le ↦ ground arith
  ]
]

-- A pool of new nodes, with nothing handed out.
pub fresh_pool-IsSound :
    (range start count : ℕ) (nodes : List PoolNode)
    → AreFresh start nodes
    → IsSound range
        (record { pool = record { nodes = nodes; curnode = 0; count = count }; leases = [] })
fresh_pool-IsSound range start count nodes fresh = record {
  valid = record {
    maps = λ q hq. rw (fresh q hq).1 fresh_map-IsBitmap;
    low = λ q hq. omega (arith, (fresh q hq).2);
    cur_in = λ ne. length_pos nodes ne;
  };
  distinct = AreFresh-Distinct start nodes fresh;
  holds = tt;
  apart = tt;
}

pub fresh-Multiples :
    (range start : ℕ) (nodes : List PoolNode) → AreFresh start nodes → HaveMultiples range nodes
fresh-Multiples range start nodes fresh q hq = (0, (fresh q hq).2 ∙ omega arith)

module _ (mem : ℕ → Bool) (start end : ℕ) where
  -- A pool that `InitAddrPool` leaves: the addresses of the configured range for which there was
  -- memory, in order, none handed out; the walk starts at the first.
  pub record IsFilled (range : ℕ) (l : PoolList) : Type 0 where
    pub nodes_eq : l.nodes ≡ range_nodes mem start (end + 1 - start)
    pub at_start : l.curnode ≡ 0
    pub sound : IsSound range (record { pool = l; leases = [] })
    pub multiples : HaveMultiples range l.nodes

  -- `InitAddrPool` returns on a range that ends before the last 32-bit address.
  pub init_pool-IsFilled :
      (range fuel : ℕ)
      → start ≤ end
      → end + 1 < 2 ^ 32
      → end + 1 - start < fuel
      → (l : PoolList) × (init_pool mem fuel start end ≡ some l) × IsFilled range l
  unfolding init_pool
  init_pool-IsFilled range fuel le small enough =
      let empty : PoolList = record { nodes = []; curnode = 0; count = 0 } in
      let (l, run, eq) =
        init_from-nodes mem fuel (end + 1 - start) start end empty (omega arith) small enough
          (λ ne. absurd (ne refl)) in
      let fresh : AreFresh start l.nodes =
        rw eq (range_nodes-AreFresh mem start (end + 1 - start)) in
      (
        record l { curnode = 0 },
        rw (init_pool, run),
        record {
          nodes_eq = eq;
          at_start = refl;
          sound = fresh_pool-IsSound range start l.count l.nodes fresh;
          multiples = fresh-Multiples range start l.nodes fresh;
        },
      )

-- A range that ends at the last 32-bit address is never done: the index wraps to 0.
pub init_from-never_ends :
    (mem : ℕ → Bool) (fuel idx : ℕ) (l : PoolList)
    → idx < 2 ^ 32
    → init_from mem fuel idx (2 ^ 32 - 1) l ≡ none
unfolding init_from
init_from-never_ends mem zero idx l h = refl
init_from-never_ends mem (suc fuel) idx l h =
    let more : leb idx (2 ^ 32 - 1) ≡ true = ground arith in
    rw (more, init_from-never_ends mem fuel ((idx + 1) % 2 ^ 32) _ (omega arith))
