-- ===== src/Tc/Pool/Alloc.antt =====
-- `AllocAddrPort` of TC/user_module/src/addrpoolentity.c: what a call that ends has handed out.
use native.Mathlib.Nat.{lt_trans}
use laft.Common.{
  Bool-cases, List, Option, [], arith, inl, inr, is_empty, is_empty→eq, leb, length, none,
  not-is_empty, refl, some, ℕ, ◌+◌, ◌<◌, ◌≡◌, ◌≢◌, ◌≤◌,
}
use laft.Tc.Pool.{
  Allocated, Outcome, PoolList, PoolNode, alloc_addr_port, alloc_nodes, attempt, crashed, deliver,
  exhausted, first_try, got, leased, next_node, node_at, refused, rewind,
}
use laft.Tc.Pool.Tries.{Grants, HaveMaps, Keeps, attempt-Tried}
use laft.Tc.Pool.Scan.{
  HaveLowBits, Moves-low, Settled, Settled-before, When, When-map, next_node-lt, or_go_on-Settled,
  rewind-Keeps, rewind-low, scan-Settled,
}

-- A pool between two calls.
pub record IsPool (range : ℕ) (l : PoolList) : Type 0 where
  pub maps : HaveMaps l.nodes
  pub low : HaveLowBits range l.nodes
  pub cur_in : l.nodes ≢ [] → l.curnode < length l.nodes

-- What a call that ends tells the caller, and what it leaves.
abbrev pub Delivered : ℕ → PoolList → Outcome → Type 0
Delivered range l crashed = l.nodes ≡ []
Delivered range l (refused l') = Keeps l.nodes l'.nodes × IsPool range l' × (l'.curnode ≡ l.curnode)
Delivered range l (got start stop addr l') =
    Keeps l.nodes l'.nodes
    × IsPool range l'
    × (l'.curnode ≡ l.curnode)
    × (slot : ℕ) × (bit : ℕ) × Grants range l.nodes l'.nodes slot bit start stop addr

module _ (range : ℕ) (some_range : 1 ≤ range) (short : range < 64) where
  first_try-Settled :
      (fuel : ℕ) (nodes : List PoolNode) (p b bit : ℕ)
      → bit < 64 + range
      → HaveMaps nodes
      → p < length nodes
      → HaveLowBits range nodes
      → When (Settled range nodes) (first_try fuel range nodes p b bit)
  unfolding first_try
  first_try-Settled fuel nodes p b bit hb maps hp low =
      let lt = lt_trans (low p hp) (omega arith) in
      or_go_on-Settled range some_range short nodes p (attempt range nodes p) _
        (λ q hq ne. low q hq) lt
        (attempt-Tried range nodes p some_range short maps hp (omega (arith, low p hp)))
        (λ nodes' m.
          scan-Settled range some_range short b bit hb fuel nodes' p m.keeps.maps
            (rw m.keeps.same_length hp)
            (Moves-low range some_range short nodes nodes' p (λ q hq ne. low q hq) m)
            (rw m.moved (omega (arith, low p hp))))

  pub alloc_nodes-Settled :
      (fuel : ℕ) (nodes : List PoolNode) (b : ℕ)
      → HaveMaps nodes
      → HaveLowBits range nodes
      → b < length nodes
      → When (Settled range nodes) (alloc_nodes fuel range nodes b)
  unfolding alloc_nodes
  alloc_nodes-Settled fuel nodes b maps low hb =
      let bit = (node_at nodes b).validbit in
      elim (Bool-cases (leb 64 bit)) [
        | inr e ↦ rw e (first_try-Settled fuel nodes b b bit (low b hb) maps hb low)
        | inl e ↦
            let k = rewind-Keeps range some_range short nodes b maps hb in
            rw e (
              When-map _ _ (first_try fuel range (rewind nodes b) (next_node nodes b) b bit)
                (λ r s. Settled-before range nodes (rewind nodes b) r k s)
                (first_try-Settled fuel (rewind nodes b) (next_node nodes b) b bit (low b hb) k.maps
                  (rw k.same_length (next_node-lt range some_range short nodes b hb))
                  (rewind-low range some_range short nodes b hb (λ q hq ne. low q hq))))
      ]

  keep-IsPool :
      (l : PoolList) (nodes : List PoolNode)
      → IsPool range l
      → l.nodes ≢ []
      → Keeps l.nodes nodes
      → HaveLowBits range nodes
      → IsPool range (record l { nodes = nodes })
  keep-IsPool l nodes valid some_node k low = record {
    maps = k.maps;
    low = low;
    cur_in = λ _. rw k.same_length (valid.cur_in some_node);
  }

  deliver-Delivered :
      (l : PoolList) (o : Option Allocated)
      → IsPool range l
      → l.nodes ≢ []
      → When (Settled range l.nodes) o
      → When (Delivered range l) (deliver l o)
  deliver-Delivered l none valid some_node s = tt
  deliver-Delivered l (some (exhausted nodes)) valid some_node (k, low) =
      (k, keep-IsPool l nodes valid some_node k low, refl)
  deliver-Delivered l (some (leased start stop addr nodes)) valid some_node (k, low, slot, bit, g) =
      (k, keep-IsPool l nodes valid some_node k low, refl, slot, bit, g)

  -- A call on a well-formed pool that ends: it crashes only on an empty pool; else the pool stays
  -- well formed, with the addresses in their places and all that was handed out still handed out;
  -- and what it returns is a range of the pool that was free before the call and is taken after it.
  pub alloc_addr_port-Delivered :
      (fuel : ℕ) (l : PoolList)
      → IsPool range l
      → When (Delivered range l) (alloc_addr_port fuel range l)
  unfolding alloc_addr_port
  alloc_addr_port-Delivered fuel l valid = elim (Bool-cases (is_empty l.nodes)) [
    | inl e ↦ rw e (is_empty→eq l.nodes e)
    | inr e ↦ rw e (
        deliver-Delivered l (alloc_nodes fuel range l.nodes l.curnode) valid
          (not-is_empty l.nodes e)
          (alloc_nodes-Settled fuel l.nodes l.curnode valid.maps valid.low
            (valid.cur_in (not-is_empty l.nodes e))))
  ]
