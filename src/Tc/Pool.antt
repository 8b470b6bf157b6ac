-- ===== src/Tc/Pool.antt =====
-- TC/user_module/src/addrpoolentity.c: the pool of public addresses, and the ranges of ports that
-- are handed out and given back. `PADDRPOOLLIST` is a circular list: here the list of its nodes
-- from the header on, where the last node's `next` is the first. A pointer to a node is its index.
-- `uiRange`, at most 63 in the program's one call, keeps `validbit` far below 2 ^ 31.
pub mod Tries
pub mod Scan
pub mod Alloc
pub mod Ports
pub mod Free
pub mod Calls
pub mod Leases
pub mod Ends
pub mod Multiples
pub mod Total
pub mod Init
mod Tests
use laft.Common.{
  Bool, List, Option, [], get_or, if◌then◌else◌, is_empty, leb, length, ltb, negsuc, none, pos, set,
  some, suc, take, zero, ℕ, ℤ, ◌%◌, ◌&&◌, ◌*◌, ◌++◌, ◌+◌, ◌-◌, ◌/◌, ◌==◌, ◌^◌, ◌∷◌,
}
use laft.Tc.Bitmap.{fresh_map, portrange_set, portrange_test}

-- `ADDRPOOLNODE`
pub record PoolNode : Type 0 where
  pub ip : ℕ
  pub validbit : ℕ
  pub bitmap : List ℕ

-- `ADDRPOOLLIST`; the header is NULL if there is no node.
pub record PoolList : Type 0 where
  pub nodes : List PoolNode
  pub curnode : ℕ
  pub count : ℕ

-- `MINI_RANGE_VALUE`
abbrev pub mini_range : ℕ
mini_range = 1024

-- `AllocAddrPoolNode`, where `malloc` succeeds.
unfoldable pub alloc_node : ℕ → PoolNode
alloc_node addr = record { ip = addr; validbit = 0; bitmap = fresh_map }

abbrev pub node_at : List PoolNode → ℕ → PoolNode
node_at nodes p = get_or nodes p (record { ip = 0; validbit = 0; bitmap = [] })

-- `AddAddrPoolNode`: behind the current node, which then points to the header.
unfoldable pub add_node : PoolList → Option PoolNode → ℤ × PoolList
add_node l none = (negsuc 0, l)
add_node l (some node) = (
  pos 1,
  if is_empty l.nodes
      then record { nodes = node ∷ []; curnode = 0; count = (l.count + 1) % 2 ^ 32 }
      else record {
        nodes = take (l.curnode + 1) l.nodes ++ (node ∷ []);
        curnode = l.curnode + 1;
        count = (l.count + 1) % 2 ^ 32;
      },
)

-- `mem` says for which addresses `malloc` succeeds.
module _ (mem : ℕ → Bool) where
  -- The loop of `InitAddrPool`, whose index is a 32-bit word; `none` if the fuel runs out.
  unfoldable pub init_from : ℕ → ℕ → ℕ → PoolList → Option PoolList
  init_from zero idx end l = none
  init_from (suc fuel) idx end l =
      let node = if mem idx then some (alloc_node idx) else none in
      let rest = init_from fuel ((idx + 1) % 2 ^ 32) end (add_node l node).1 in
      if leb idx end then rest else some l

  unfoldable pub init_pool : ℕ → ℕ → ℕ → Option PoolList
  unfolding init_from
  init_pool fuel start end =
      elim (init_from fuel start end (record { nodes = []; curnode = 0; count = 0 })) [
        | none ↦ none
        | some l ↦ some (record l { curnode = 0 })
      ]

-- `pCur->next`
abbrev pub next_node : List PoolNode → ℕ → ℕ
next_node nodes p = if p + 1 == length nodes then 0 else p + 1

-- What one try at the current bit of a node does to the nodes.
pub data Attempt : Type 0 where
  passed : List PoolNode → Attempt
  granted : ℕ → ℕ → ℕ → List PoolNode → Attempt

-- The 16-bit port of a bit, and the last port of a range that starts there.
abbrev pub start_port : ℕ → ℕ
start_port bit = (bit * mini_range + mini_range) % 2 ^ 16

abbrev pub stop_port : ℕ → ℕ → ℕ
stop_port start range = (start + mini_range - 1 + (range + 2 ^ 32 - 1) * mini_range) % 2 ^ 16

-- `validbit + uiRange - 1`, unsigned.
abbrev pub last_bit : ℕ → ℕ → ℕ
last_bit bit range = (bit + range + 2 ^ 32 - 1) % 2 ^ 32

-- The try, which the code has twice. A range whose last port wraps stays marked, and is passed over.
unfoldable pub attempt : ℕ → List PoolNode → ℕ → Attempt
attempt range nodes p =
    let cur = node_at nodes p in
    let v = cur.validbit in
    let last = last_bit v range in
    let beyond = (v + range) % 2 ^ 32 in
    let skipped = set nodes p (record cur { validbit = beyond }) in
    let start = start_port v in
    let stop = stop_port start range in
    let marked =
      set nodes p (record cur { validbit = beyond; bitmap = portrange_set cur.bitmap v last 1 }) in
    if leb 64 last
    then passed skipped
    else if portrange_test cur.bitmap v last == 1
    then (if ltb stop start then passed marked else granted start stop cur.ip marked)
    else passed skipped

-- The address used up by the walk: its bit goes back to 0.
abbrev pub rewind : List PoolNode → ℕ → List PoolNode
rewind nodes p = set nodes p (record (node_at nodes p) { validbit = 0 })

-- How the call ends: -1 with every try made, or 1 with the ports and the address.
pub data Allocated : Type 0 where
  exhausted : List PoolNode → Allocated
  leased : ℕ → ℕ → ℕ → List PoolNode → Allocated

-- A granted range ends the call, and otherwise the walk goes on from the nodes that are left.
abbrev pub or_go_on : Attempt → (List PoolNode → Option Allocated) → Option Allocated
or_go_on (passed nodes) go_on = go_on nodes
or_go_on (granted start stop addr nodes) go_on = some (leased start stop addr nodes)

-- The loop at FALG, from node `p`; it started at node `b`, whose bit was `bit`.
unfoldable pub scan : ℕ → ℕ → ℕ → ℕ → List PoolNode → ℕ → Option Allocated
scan zero range b bit nodes p = none
scan (suc fuel) range b bit nodes p =
    let v = (node_at nodes p).validbit in
    let onward = scan fuel range b bit (rewind nodes p) (next_node nodes p) in
    let try = or_go_on (attempt range nodes p) (λ nodes'. scan fuel range b bit nodes' p) in
    if p == b && bit == v then some (exhausted nodes) else if leb 64 v then onward else try

-- The first try, behind the test of the current node's bit.
unfoldable pub first_try : ℕ → ℕ → List PoolNode → ℕ → ℕ → ℕ → Option Allocated
first_try fuel range nodes p b bit =
    or_go_on (attempt range nodes p) (λ nodes'. scan fuel range b bit nodes' p)

unfoldable pub alloc_nodes : ℕ → ℕ → List PoolNode → ℕ → Option Allocated
unfolding first_try
alloc_nodes fuel range nodes b =
    let bit = (node_at nodes b).validbit in
    if leb 64 bit
    then first_try fuel range (rewind nodes b) (next_node nodes b) b bit
    else first_try fuel range nodes b b bit

-- `crashed` is a read through the NULL header of an empty pool.
pub data Outcome : Type 0 where
  crashed : Outcome
  refused : PoolList → Outcome
  got : ℕ → ℕ → ℕ → PoolList → Outcome

abbrev pub deliver : PoolList → Option Allocated → Option Outcome
deliver l none = none
deliver l (some (exhausted nodes)) = some (refused (record l { nodes = nodes }))
deliver l (some (leased start stop addr nodes)) =
    some (got start stop addr (record l { nodes = nodes }))

unfoldable pub alloc_addr_port : ℕ → ℕ → PoolList → Option Outcome
unfolding alloc_nodes
alloc_addr_port fuel range l =
    if is_empty l.nodes then some crashed else deliver l (alloc_nodes fuel range l.nodes l.curnode)

-- `(usStartPort - MINI_RANGE_VALUE) / MINI_RANGE_VALUE`, as C's `/` rounds towards 0, with the
-- test of the range: only port 0 gives a negative bit.
unfoldable pub port_bit : ℕ → Option ℕ
port_bit start =
    if start == 0
    then none
    else let bit = (start - mini_range) / mini_range in if leb 64 bit then none else some bit

-- The walk of `DeallocAddrPort` from the header to the first node with the address.
unfoldable pub release : ℕ → ℕ → ℕ → List PoolNode → Option (List PoolNode)
release range bit addr [] = none
release range bit addr (node ∷ nodes) =
    let rest = release range bit addr nodes in
    if node.ip == addr
    then some
        (record node { bitmap = portrange_set node.bitmap bit (last_bit bit range) 0 } ∷ nodes)
    else elim rest [ none ↦ none | some nodes' ↦ some (node ∷ nodes') ]

pub data Freed : Type 0 where
  crash : Freed
  failed : Freed
  freed : PoolList → Freed

abbrev pub put_back : PoolList → Option (List PoolNode) → Freed
put_back l none = failed
put_back l (some nodes) = freed (record l { nodes = nodes })

unfoldable pub dealloc_addr_port : ℕ → ℕ → ℕ → PoolList → Freed
dealloc_addr_port range start addr l = elim (port_bit start) [
  | none ↦ failed
  | some bit ↦ if is_empty l.nodes then crash else put_back l (release range bit addr l.nodes)
]
