-- ===== src/Tc/Pool/Tests.antt =====
-- The pool of TC/user_module/src/addrpoolentity.c on two addresses, with ranges of two units
-- (the mask 0xf800 of the default configuration) and of one.
use laft.Common.{Bool, List, [], arith, none, refl, set, some, true, ℕ, ◌-◌, ◌^◌, ◌∷◌, ◌≡◌, ◌⊎◌}
use laft.Tc.Bitmap.{
  bitmap_get, bitmap_set, fresh_map, mask, portrange_set, portrange_test, set_from, test_from,
}
use laft.Tc.Pool.{
  PoolList, PoolNode, alloc_addr_port, alloc_node, attempt, dealloc_addr_port, freed, got,
  init_from, init_pool, start_port,
}
use laft.Tc.Pool.Alloc.{Delivered, alloc_addr_port-Delivered}
use laft.Tc.Pool.Ports.{IsPortRange, alloc_addr_port-ports}
use laft.Tc.Pool.Free.{Frees, dealloc_addr_port-Frees}
use laft.Tc.Pool.Leases.{Calls-IsSound}
use laft.Tc.Pool.Multiples.{HaveMultiples}
use laft.Tc.Pool.Total.{Calls-alloc-Ends}
use laft.Tc.Pool.Ends.{Ends}
use laft.Tc.Pool.Init.{
  IsFilled, fresh-Multiples, fresh_pool-IsSound, init_from-never_ends, init_pool-IsFilled,
  range_nodes, range_nodes-AreFresh,
}
use laft.Tc.Pool.Calls.{Calls, IsSound, World, grant, none_yet, then_call}
use laft.Tc.Pool.Scan.{When}

abbrev always : ℕ → Bool
always addr = true

abbrev new_nodes : List PoolNode
new_nodes = range_nodes always 5 2

abbrev new_pool : PoolList
new_pool = record { nodes = new_nodes; curnode = 0; count = 2 }

abbrev new_world : World
new_world = record { pool = new_pool; leases = [] }

new_world-IsSound : (range : ℕ) → IsSound range new_world
new_world-IsSound range = fresh_pool-IsSound range 5 2 new_nodes (range_nodes-AreFresh always 5 2)

-- After one range of two units.
abbrev used_pool : PoolList
used_pool = record {
  nodes = record { ip = 5; validbit = 2; bitmap = set fresh_map 0 0xc0 } ∷ alloc_node 6 ∷ [];
  curnode = 0;
  count = 2;
}

first_range : alloc_addr_port 334 2 new_pool ≡ some (got 1024 3071 5 used_pool)
unfolding alloc_addr_port attempt portrange_test test_from bitmap_get mask portrange_set set_from
    bitmap_set alloc_node
first_range = refl

used_world : World
used_world = record { pool = used_pool; leases = (1024, 5) ∷ [] }

one_call : Calls 2 new_world used_world
unfolding used_world
one_call = then_call none_yet (grant 334 1024 3071 5 used_pool first_range refl)

Calls-IsSound_example : IsSound 2 used_world
Calls-IsSound_example = Calls-IsSound 2 (omega arith) (omega arith) (new_world-IsSound 2) one_call

alloc_addr_port-Delivered_example : When (Delivered 2 new_pool) (alloc_addr_port 334 2 new_pool)
alloc_addr_port-Delivered_example =
    alloc_addr_port-Delivered 2 (omega arith) (omega arith) 334 new_pool (new_world-IsSound 2).valid

new_world-Multiples : HaveMultiples 2 new_nodes
new_world-Multiples = fresh-Multiples 2 5 new_nodes (range_nodes-AreFresh always 5 2)

Calls-alloc-Ends_example : Ends (alloc_addr_port 334 2 used_world.pool)
unfolding used_world
Calls-alloc-Ends_example =
    Calls-alloc-Ends 2 (omega arith) (omega arith) 334 (new_world-IsSound 2) new_world-Multiples
      one_call (omega arith)

alloc_addr_port-ports_example :
    IsPortRange 2 1024 3071 ⊎ (◌≡◌ {A = ℕ} 2 1 × ◌≡◌ {A = ℕ} 1024 0 × ◌≡◌ {A = ℕ} 3071 1023)
alloc_addr_port-ports_example =
    alloc_addr_port-ports 2 334 new_pool (omega arith) (omega arith) (new_world-IsSound 2).valid
      first_range

dealloc_addr_port-Frees_example :
    (l' : PoolList) × (dealloc_addr_port 2 (start_port 0) 5 used_world.pool ≡ freed l')
    × Frees 2 0 0 used_world.pool l'
unfolding used_world
dealloc_addr_port-Frees_example =
    dealloc_addr_port-Frees 2 0 0 used_pool (omega arith) (omega arith) Calls-IsSound_example.valid
      (omega arith) (omega arith) Calls-IsSound_example.distinct

init_pool-IsFilled_example :
    (l : PoolList) × (init_pool always 3 5 6 ≡ some l) × IsFilled always 5 6 2 l
init_pool-IsFilled_example =
    init_pool-IsFilled always 5 6 2 3 (omega arith) (omega arith) (omega arith)

init_from-never_ends_example :
    init_from always 9 0xffff_fffe (2 ^ 32 - 1) (record { nodes = []; curnode = 0; count = 0 })
    ≡ none
init_from-never_ends_example = init_from-never_ends always 9 0xffff_fffe _ (omega arith)

-- The last bit of an address, with a range of one unit: port 0, which is never given back.
last_bit_pool : PoolList
last_bit_pool = record {
  nodes = record { ip = 5; validbit = 63; bitmap = fresh_map } ∷ [];
  curnode = 0;
  count = 1;
}

last_range :
    alloc_addr_port 300 1 last_bit_pool
    ≡ some (
        got 0 1023 5 (record last_bit_pool {
          nodes = record { ip = 5; validbit = 64; bitmap = set fresh_map 7 1 } ∷ [];
        }))
unfolding last_bit_pool alloc_addr_port attempt portrange_test test_from bitmap_get mask
    portrange_set set_from bitmap_set
last_range = refl
