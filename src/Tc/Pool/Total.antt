-- ===== src/Tc/Pool/Total.antt =====
-- `AllocAddrPort` of TC/user_module/src/addrpoolentity.c returns, with the fuel that a pool asks for.
use native.Mathlib.Nat.{mul-le-mul_left}
use laft.Common.{
  ==_iff, All-get, Bool-cases, List, Option, arith, inl, inr, is_empty, leb, length, none,
  not-is_empty, refl, some, subst, sym, ℕ, ◌*◌, ◌+◌, ◌<◌, ◌≡◌, ◌≢◌, ◌≤◌,
}
use laft.Tc.Pool.{
  Allocated, PoolList, PoolNode, alloc_addr_port, alloc_nodes, attempt, deliver, exhausted,
  first_try, leased, next_node, node_at, rewind,
}
use laft.Tc.Pool.Tries.{HaveMaps, attempt-Tried, node_at-set}
use laft.Tc.Pool.Alloc.{IsPool}
use laft.Tc.Pool.Ends.{Ends, or_go_on-Ends, walk-Ends}
use laft.Tc.Pool.Multiples.{AllMultiples, HaveMultiples, alloc_addr_port-Multiples}
use laft.Tc.Pool.Leases.{Calls-IsSound, freed_lease}
use laft.Tc.Pool.Calls.{
  Call, Calls, Holds, IsSound, World, deny, give_back, grant, none_yet, then_call,
}
use laft.Tc.Pool.Scan.{HaveLowBits, Moves-low, When, next_node-lt, rewind-Keeps, rewind-low}

-- Fuel that is enough for a pool: some 67 rounds for each address.
abbrev pub alloc_fuel : List PoolNode → ℕ
alloc_fuel nodes = 67 * length nodes + 200

module _ (range : ℕ) (some_range : 1 ≤ range) (short : range < 64) where
  first_try-Ends :
      (fuel m bit b : ℕ) (nodes : List PoolNode) (p : ℕ)
      → bit ≡ m * range
      → bit < 64 + range
      → HaveMaps nodes
      → p < length nodes
      → b < length nodes
      → HaveLowBits range nodes
      → (p ≢ b → (node_at nodes b).validbit ≡ 0)
      → 67 * length nodes + 200 ≤ fuel
      → Ends (first_try fuel range nodes p b bit)
  unfolding first_try
  first_try-Ends fuel m bit b nodes p aligned bit_low maps hp hb low at_b enough =
      let lp = low p hp in
      let m_le : m * 1 ≤ m * range = mul-le-mul_left m some_range in
      or_go_on-Ends range some_range short b m bit aligned bit_low nodes p (attempt range nodes p) _
        (attempt-Tried range nodes p some_range short maps hp (omega arith))
        (λ nodes' mv.
          walk-Ends range some_range short b m bit aligned bit_low fuel nodes' p mv.keeps.maps
            (rw mv.keeps.same_length hp) (rw mv.keeps.same_length hb)
            (Moves-low range some_range short nodes nodes' p (λ q hq ne. low q hq) mv)
            (rw mv.moved (omega arith)) (λ ne. rw (mv.others b ne) (at_b ne))
            (rw mv.keeps.same_length (ground arith)))

  alloc_nodes-Ends :
      (fuel : ℕ) (nodes : List PoolNode) (b : ℕ)
      → HaveMaps nodes
      → HaveLowBits range nodes
      → HaveMultiples range nodes
      → b < length nodes
      → 67 * length nodes + 200 ≤ fuel
      → Ends (alloc_nodes fuel range nodes b)
  unfolding alloc_nodes
  alloc_nodes-Ends fuel nodes b maps low mult hb enough =
      let bit = (node_at nodes b).validbit in
      let (m, aligned) = mult b hb in
      let k = rewind-Keeps range some_range short nodes b maps hb in
      elim (Bool-cases (leb 64 bit)) [
        | inr e ↦ rw e (
            first_try-Ends fuel m bit b nodes b aligned (low b hb) maps hb hb low
              (λ ne. absurd (ne refl)) enough)
        | inl e ↦ rw e (
            first_try-Ends fuel m bit b (rewind nodes b) (next_node nodes b) aligned (low b hb)
              k.maps (rw k.same_length (next_node-lt range some_range short nodes b hb))
              (rw k.same_length hb)
              (rewind-low range some_range short nodes b hb (λ q hq ne. low q hq))
              (λ ne. rw (node_at-set nodes b b _ hb, (==_iff b b).1 refl))
              (rw k.same_length enough))
      ]

  deliver-Ends : (l : PoolList) (o : Option Allocated) → Ends o → Ends (deliver l o)
  deliver-Ends l none h = h
  deliver-Ends l (some (exhausted nodes)) h = tt
  deliver-Ends l (some (leased start stop addr nodes)) h = tt

  -- With the fuel that the pool asks for, a call on a well-formed pool whose bits are multiples of
  -- the range ends, with or without a range.
  pub alloc_addr_port-Ends :
      (fuel : ℕ) (l : PoolList)
      → IsPool range l
      → HaveMultiples range l.nodes
      → alloc_fuel l.nodes ≤ fuel
      → Ends (alloc_addr_port fuel range l)
  unfolding alloc_addr_port
  alloc_addr_port-Ends fuel l valid mult enough = elim (Bool-cases (is_empty l.nodes)) [
    | inl e ↦ rw e tt
    | inr e ↦ rw e (
        deliver-Ends l (alloc_nodes fuel range l.nodes l.curnode) (
          alloc_nodes-Ends fuel l.nodes l.curnode valid.maps valid.low mult
            (valid.cur_in (not-is_empty l.nodes e)) enough))
  ]

-- Every call keeps every bit a multiple of the range.
module _ (range : ℕ) (some_range : 1 ≤ range) (short : range < 64) where
  Call-Multiples :
      {w w' : World}
      → Call range w w'
      → IsSound range w
      → HaveMultiples range w.pool.nodes
      → HaveMultiples range w'.pool.nodes
  Call-Multiples {w} (grant fuel start stop addr pool e e') s h =
      subst (λ u. HaveMultiples range u.pool.nodes) (sym e')
        (subst (When (AllMultiples range some_range short)) e
          (alloc_addr_port-Multiples range some_range short fuel w.pool s.valid h))
  Call-Multiples {w} (deny fuel pool e e') s h =
      subst (λ u. HaveMultiples range u.pool.nodes) (sym e')
        (subst (When (AllMultiples range some_range short)) e
          (alloc_addr_port-Multiples range some_range short fuel w.pool s.valid h))
  Call-Multiples {w} (give_back i start addr pool held e e') s h =
      let a = All-get (Holds range w.pool) w.leases i (start, addr) held s.holds in
      let f = freed_lease range some_range short w.pool pool (start, addr) a s.valid s.distinct e in
      subst (λ u. HaveMultiples range u.pool.nodes) (sym e')
        (λ q hq. rw f.same_validbit (h q (rw (← f.same_length) hq)))

  Calls-Multiples :
      {w w' : World}
      → IsSound range w
      → HaveMultiples range w.pool.nodes
      → Calls range w w'
      → HaveMultiples range w'.pool.nodes
  Calls-Multiples s h none_yet = h
  Calls-Multiples s h (then_call r c) =
      Call-Multiples c (Calls-IsSound range some_range short s r) (Calls-Multiples s h r)

  -- With a range from 1 to 63: after any calls with that range, from a sound state whose bits are
  -- multiples of the range, the next `AllocAddrPort` with that range returns, within `alloc_fuel`.
  pub Calls-alloc-Ends :
      {w w' : World} (fuel : ℕ)
      → IsSound range w
      → HaveMultiples range w.pool.nodes
      → Calls range w w'
      → alloc_fuel w'.pool.nodes ≤ fuel
      → Ends (alloc_addr_port fuel range w'.pool)
  Calls-alloc-Ends {w} {w'} fuel s h r enough =
      alloc_addr_port-Ends range some_range short fuel w'.pool
        (Calls-IsSound range some_range short s r).valid (Calls-Multiples s h r) enough
