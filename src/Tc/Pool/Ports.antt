-- ===== src/Tc/Pool/Ports.antt =====
-- The ports of a range that `AllocAddrPort` (TC/user_module/src/addrpoolentity.c) hands out.
use laft.Common.{
  Bool-cases, List, arith, inl, inr, some, subst, ℕ, ◌%◌, ◌*◌, ◌+◌, ◌-◌, ◌<◌, ◌==◌, ◌^◌, ◌≡◌, ◌≤◌,
  ◌⊎◌,
}
use laft.Tc.Pool.{PoolList, PoolNode, alloc_addr_port, got, mini_range}
use laft.Tc.Pool.Tries.{Grants}
use laft.Tc.Pool.Alloc.{Delivered, IsPool, alloc_addr_port-Delivered}
use laft.Tc.Pool.Scan.{When}

-- The ports of the range: in order, above the system ports, one block, in 16 bits.
pub record IsPortRange (range start stop : ℕ) : Type 0 where
  pub above : mini_range ≤ start
  pub block : stop + 1 ≡ start + range * mini_range
  pub below : stop < 2 ^ 16

pub Grants-ports :
    {range slot bit start stop addr : ℕ} {nodes nodes' : List PoolNode}
    → 1 ≤ range
    → Grants range nodes nodes' slot bit start stop addr
    → IsPortRange range start stop ⊎ ((range ≡ 1) × (bit ≡ 63) × (start ≡ 0) × (stop ≡ 1023))
Grants-ports {range} {slot} {bit} {start} {stop} h g = elim (Bool-cases (bit == 63)) [
  | inl e ↦ inr (ground arith, ground arith, ground arith, ground arith)
  | inr e ↦
      let low : bit < 63 = ground (arith, g.bits_in) in
      let start_eq : start ≡ bit * mini_range + mini_range = omega (arith, g.starts) in
      let stop_eq : stop ≡ (start + range * mini_range - 1) % 2 ^ 16 = omega (arith, g.stops) in
      let below : start + range * mini_range ≤ 2 ^ 16 = omega (arith, g.in_order, g.bits_in) in
      inl (record { above = omega arith; block = omega arith; below = omega arith })
]

-- The ports that `AllocAddrPort` returns are a block of 16-bit ports above the system ports, as
-- long as the range asks for; but for the last bit with a range of one unit, which gets the ports
-- from 0 to 1023.
pub alloc_addr_port-ports :
    (range fuel : ℕ) (l : PoolList) {start stop addr : ℕ} {l' : PoolList}
    → 1 ≤ range
    → range < 64
    → IsPool range l
    → alloc_addr_port fuel range l ≡ some (got start stop addr l')
    → IsPortRange range start stop ⊎ ((range ≡ 1) × (start ≡ 0) × (stop ≡ 1023))
alloc_addr_port-ports range fuel l some_range short valid e =
    let (k, v, c, slot, bit, g) =
      subst (When (Delivered range l)) e
        (alloc_addr_port-Delivered range some_range short fuel l valid) in
    elim (Grants-ports some_range g) [ inl a ↦ inl a | inr b ↦ inr (b.0, b.2, b.3) ]
