-- ===== src/Tc/Pool/Free.antt =====
-- `DeallocAddrPort` of TC/user_module/src/addrpoolentity.c: what it gives back.
use native.Mathlib.Nat.{lt_irrefl, lt_of_le_of_lt, lt_trans, ne_of_lt}
use laft.Common.{
  ==_iff, List, [], ap, arith, eq_false, false, if_intro, if◌then◌else◌, is_empty, is_empty→eq,
  length, length-set, none, not, refl, set, some, suc, zero, ℕ, ◌&&◌, ◌+◌, ◌-◌, ◌<◌, ◌==◌, ◌∷◌, ◌≡◌,
  ◌≢◌, ◌≤◌,
}
use laft.Tc.Bitmap.{portrange_set, rounds_to, set_from}
use laft.Tc.Bitmap.Laws.{IsBitmap, taken}
use laft.Tc.Bitmap.Ranges.{set_from-IsBitmap, taken-set_from_zero, within}
use laft.Tc.Pool.{
  PoolList, PoolNode, dealloc_addr_port, failed, freed, last_bit, node_at, port_bit, release,
  start_port,
}
use laft.Tc.Pool.Tries.{busy, node_at-set}
use laft.Tc.Pool.Alloc.{IsPool}

-- No two nodes have one address.
abbrev pub Distinct : List PoolNode → Type 0
Distinct nodes =
    (p q : ℕ)
    → p < length nodes
    → q < length nodes
    → (node_at nodes p).ip ≡ (node_at nodes q).ip
    → p ≡ q

-- The bit that `DeallocAddrPort` finds for a start port of `AllocAddrPort`: none for the last bit.
pub port_bit-start_port :
    (bit : ℕ) → bit < 64 → port_bit (start_port bit) ≡ (if bit == 63 then none else some bit)
unfolding port_bit
port_bit-start_port bit h = ground arith

abbrev pub unmark : ℕ → ℕ → PoolNode → PoolNode
unmark range bit node = record node {
  bitmap = portrange_set node.bitmap bit (last_bit bit range) 0;
}

-- The walk ends at the first node with the address.
release-at :
    (range bit : ℕ) (nodes : List PoolNode) (p : ℕ)
    → p < length nodes
    → ((q : ℕ) → q < p → (node_at nodes q).ip ≢ (node_at nodes p).ip)
    → release range bit (node_at nodes p).ip nodes
      ≡ some (set nodes p (unmark range bit (node_at nodes p)))
unfolding release
release-at range bit [] p hp first = absurd (omega arith)
release-at range bit (n ∷ nodes) zero hp first = rw ((==_iff n.ip n.ip).1 refl)
release-at range bit (n ∷ nodes) (suc p) hp first =
    let e : (n.ip == (node_at nodes p).ip) ≡ false = ground (arith, first 0) in
    rw (e, release-at range bit nodes p (omega arith) (λ q hq. first (suc q) (omega arith)))

-- The pool after a range of the node `slot` is given back: nothing else changes.
pub record Frees (range slot bit : ℕ) (l l' : PoolList) : Type 0 where
  pub same_length : length l'.nodes ≡ length l.nodes
  pub same_ip : (q : ℕ) → (node_at l'.nodes q).ip ≡ (node_at l.nodes q).ip
  pub same_validbit : (q : ℕ) → (node_at l'.nodes q).validbit ≡ (node_at l.nodes q).validbit
  pub valid : IsPool range l'
  pub bits :
      (q j : ℕ)
      → q < length l.nodes
      → j < 64
      → busy l'.nodes q j ≡ (if slot == q && within bit range j then false else busy l.nodes q j)

module _ (range slot bit : ℕ) (l : PoolList) (some_range : 1 ≤ range) (fits : bit + range ≤ 64)
    (valid : IsPool range l) (hs : slot < length l.nodes) where
  node : PoolNode
  node = node_at l.nodes slot

  unmark-eq :
      portrange_set (node_at l.nodes slot).bitmap bit (last_bit bit range) 0
      ≡ set_from (node_at l.nodes slot).bitmap bit range 0
  unfolding portrange_set
  unmark-eq =
      let e : last_bit bit range ≡ bit + range - 1 = omega arith in
      let r : rounds_to bit (bit + range - 1) ≡ range = ground arith in rw (e, r)

  pub freed_pool : PoolList
  freed_pool = record l { nodes = set l.nodes slot (unmark range bit (node_at l.nodes slot)) }

  -- What holds of the node with the range given back, and of the others, holds of every node.
  at_freed :
      (P : ℕ → PoolNode → Type 0) (q : ℕ)
      → (slot ≡ q → P q (unmark range bit (node_at l.nodes slot)))
      → (slot ≢ q → P q (node_at l.nodes q))
      → P q (node_at freed_pool.nodes q)
  unfolding freed_pool
  at_freed P q new old =
      rw (node_at-set l.nodes slot q _ hs)
        (if_intro (P q) (slot == q) _ _ (λ e. new ((==_iff slot q).0 e)) (λ e. old (ground arith)))

  unmark-IsBitmap : IsBitmap (unmark range bit (node_at l.nodes slot)).bitmap
  unmark-IsBitmap =
      rw unmark-eq
        (set_from-IsBitmap (node_at l.nodes slot).bitmap bit range 0 (valid.maps slot hs))

  taken-unmark :
      (j : ℕ)
      → j < 64
      → taken (unmark range bit (node_at l.nodes slot)).bitmap j
        ≡ (not (within bit range j) && busy l.nodes slot j)
  taken-unmark j hj = rw unmark-eq (taken-set_from_zero _ bit range j (valid.maps slot hs) hj)

  freed_length : length freed_pool.nodes ≡ length l.nodes
  unfolding freed_pool
  freed_length = length-set l.nodes slot _

  freed_cur : freed_pool.nodes ≢ [] → freed_pool.curnode < length freed_pool.nodes
  unfolding freed_pool
  freed_cur n =
      rw (length-set l.nodes slot (unmark range bit (node_at l.nodes slot)))
        (valid.cur_in (λ e. lt_irrefl 0 (lt_of_le_of_lt (omega arith) (rw e at hs))))

  pub freed_pool-Frees : Frees range slot bit l freed_pool
  freed_pool-Frees = record {
    same_length = freed_length;
    same_ip = λ q.
        at_freed (λ q n. n.ip ≡ (node_at l.nodes q).ip) q (λ e. ap (λ k. (node_at l.nodes k).ip) e)
          (λ ne. refl);
    same_validbit = λ q.
        at_freed (λ q n. n.validbit ≡ (node_at l.nodes q).validbit) q
          (λ e. ap (λ k. (node_at l.nodes k).validbit) e) (λ ne. refl);
    valid = record {
      maps = λ q hq.
          at_freed (λ q n. IsBitmap n.bitmap) q (λ e. unmark-IsBitmap)
            (λ ne. valid.maps q (rw freed_length at hq));
      low = λ q hq.
          at_freed (λ q n. n.validbit < 64 + range) q (λ e. valid.low slot hs)
            (λ ne. valid.low q (rw freed_length at hq));
      cur_in = freed_cur;
    };
    bits = λ q j hq hj.
        at_freed
          (λ q n.
            taken n.bitmap j
            ≡ (if slot == q && within bit range j then false else busy l.nodes q j))
          q (λ e. rw (← e, (==_iff slot slot).1 refl, taken-unmark j hj) (ground arith))
          (λ ne. ground arith);
  }

  -- The bits of a range that `AllocAddrPort` handed out at the node `slot` are free again after
  -- `DeallocAddrPort`, and no other bit of the pool changes.
  pub dealloc_addr_port-Frees :
      bit ≢ 63
      → Distinct l.nodes
      → (l' : PoolList) × (dealloc_addr_port range (start_port bit) (node_at l.nodes slot).ip l
          ≡ freed l')
        × Frees range slot bit l l'
  unfolding dealloc_addr_port freed_pool
  dealloc_addr_port-Frees low distinct =
      let e : (bit == 63) ≡ false = ground arith in
      let some_node : is_empty l.nodes ≡ false =
        eq_false (is_empty l.nodes)
          (λ h. lt_irrefl 0 (lt_of_le_of_lt (omega arith) (rw (is_empty→eq l.nodes h) at hs))) in
      let walk =
        release-at range bit l.nodes slot hs
          (λ q hq same. ne_of_lt hq (distinct q slot (lt_trans hq hs) hs same)) in
      (
        freed_pool,
        rw (dealloc_addr_port, port_bit-start_port bit (omega arith), e, some_node, walk),
        freed_pool-Frees,
      )

-- The range of one unit at the last bit gets port 0, and `DeallocAddrPort` refuses port 0: what
-- `AllocAddrPort` handed out there is never given back.
pub dealloc_last_bit :
    (range addr : ℕ) (l : PoolList) → dealloc_addr_port range (start_port 63) addr l ≡ failed
unfolding dealloc_addr_port port_bit
dealloc_last_bit range addr l = refl
