-- ===== src/Tc/Tunnels.antt =====
-- The bindings of TC/kernel_module/src/storage.c and TC/kernel_module/src/packet.c: two B+ trees that
-- lead from an external address and port and from a client to the same tunnel. Their records are
-- pointers to tunnels. `none` means that a loop of a tree does not end or a freed tunnel is read.
pub mod Maps
pub mod Pairs
pub mod Release
pub mod Ages
pub mod Messages
mod Tests
use laft.Common.{
  List, Option, [], if◌then◌else◌, leb, negsuc, none, pos, some, ℕ, ℤ, ◌%◌, ◌*◌, ◌+◌, ◌-◌, ◌/◌,
  ◌==◌, ◌^◌, ◌∷◌,
}
use laft.Tc.Bplus.{Key, Tree, find, init, insert}
use laft.Tc.Bplus.Keys.{spelled}
use laft.Tc.Bplus.Delete.{delete}

pub record Tunnel : Type 0 where
  pub first_port : ℕ
  pub last_port : ℕ
  pub ext_ip : ℕ
  pub client : List ℕ
  pub live_time : ℕ

-- The bytes of the packed keys, an integer with its lowest byte first.
abbrev pub key4 : ℕ → ℕ → Key
key4 ip port = spelled 0 (
    ip % 256
    ∷ ip / 256 % 256
    ∷ ip / 65536 % 256
    ∷ ip / 16777216 % 256
    ∷ port % 256
    ∷ port / 256 % 256
    ∷ [])

abbrev pub key6 : List ℕ → Key
key6 client = spelled 0 client

-- The trees, and the memory of the tunnels that are allocated.
pub record Storage : Type 0 where
  pub tree4 : Tree ℕ
  pub tree6 : Tree ℕ
  pub tunnels : ℕ → Option Tunnel

unfoldable pub init_storage : Storage
init_storage = record { tree4 = init; tree6 = init; tunnels = λ p. none }

-- `InsertElement`
unfoldable pub insert_element : Tree ℕ → Key → ℕ → Option (Tree ℕ × ℤ)
insert_element t k p = elim (insert t k p) [
  | none ↦ none
  | some (t', negsuc n) ↦ some (t', negsuc 0)
  | some (t', pos n) ↦ some (t', pos 1)
]

-- `SizeOfElement`
unfoldable pub size_of_element : Storage → ℤ
size_of_element s = if s.tree4.size == s.tree6.size then pos s.tree4.size else negsuc 0

abbrev pub update : (ℕ → Option Tunnel) → ℕ → Option Tunnel → ℕ → Option Tunnel
update m p t q = if p == q then t else m q

-- The second half of `CreateTunnel`.
unfoldable pub create_in_tree6 : Storage → Tree ℕ → Key → Key → ℕ → Option (Storage × ℤ)
create_in_tree6 s t4 k4 k6 p = elim (insert_element s.tree6 k6 p) [
  | none ↦ none
  | some (t6, negsuc n) ↦ elim (delete t4 k4) [
    | none ↦ none
    | some (t4', r) ↦ some (record s { tree4 = t4'; tree6 = t6 }, negsuc 0)
  ]
  | some (t6, pos n) ↦ some (record s { tree4 = t4; tree6 = t6 }, pos 1)
]

-- `CreateTunnel` of the tunnel at a pointer
unfoldable pub create_tunnel : Storage → ℕ → Tunnel → Option (Storage × ℤ)
create_tunnel s p t =
    let k4 = key4 t.ext_ip t.first_port in
    elim (find s.tree4 k4) [
      | none ↦ none
      | some (some q) ↦ some (s, negsuc 0)
      | some none ↦ elim (insert_element s.tree4 k4 p) [
        | none ↦ none
        | some (t4, negsuc n) ↦ some (record s { tree4 = t4 }, negsuc 0)
        | some (t4, pos n) ↦ create_in_tree6 s t4 k4 (key6 t.client) p
      ]
    ]

-- The message NETLINK_ALLOC_ADDR: the tunnel is allocated at `p`, and stays so if it is refused.
unfoldable pub alloc_addr : Storage → ℕ → Tunnel → Option (Storage × ℤ)
alloc_addr s p t = create_tunnel (record s { tunnels = update s.tunnels p (some t) }) p t

-- `LookupTunnel_v6`, `LookupTunnel_v4`
unfoldable pub lookup_tunnel_v6 : Storage → List ℕ → Option (Option ℕ)
lookup_tunnel_v6 s client = find s.tree6 (key6 client)

unfoldable pub lookup_tunnel_v4 : Storage → ℕ → ℕ → Option (Option ℕ)
lookup_tunnel_v4 s ip port = find s.tree4 (key4 ip port)

-- The tunnel at a pointer leaves both trees, in either order, and is freed.
unfoldable pub drop_tunnel : Storage → ℕ → Key → Key → Option Storage
drop_tunnel s p k4 k6 = elim (delete s.tree6 k6) [
  | none ↦ none
  | some (t6, r6) ↦ elim (delete s.tree4 k4) [
    | none ↦ none
    | some (t4, r4) ↦ some (record { tree4 = t4; tree6 = t6; tunnels = update s.tunnels p none })
  ]
]

-- `DeleteTunnel`, with the address and the port that it hands back.
unfoldable pub delete_tunnel : Storage → List ℕ → Option (Storage × Option (ℕ × ℕ))
delete_tunnel s client = elim (lookup_tunnel_v6 s client) [
  | none ↦ none
  | some none ↦ some (s, none)
  | some (some p) ↦ elim (s.tunnels p) [
    | none ↦ none
    | some t ↦ elim (drop_tunnel s p (key4 t.ext_ip t.first_port) (key6 client)) [
      | none ↦ none
      | some s' ↦ some (s', some (t.ext_ip, t.first_port))
    ]
  ]
]

-- An `unsigned long` of 64 bits.
abbrev pub long_mod : ℕ
long_mod = 2 ^ 64

-- `TunnelTimeCheck` of the tunnel at a pointer, `quarter` being the quarter of the longest lifetime.
unfoldable pub tunnel_time_check : ℕ → Storage → ℕ → Option Storage
tunnel_time_check quarter s p = elim (s.tunnels p) [
  | none ↦ none
  | some t ↦
      let left = (t.live_time + long_mod - quarter) % long_mod in
      if left == 0
      then drop_tunnel s p (key4 t.ext_ip t.first_port) (key6 t.client)
      else some (record s { tunnels = update s.tunnels p (some (record t { live_time = left })) })
]

-- `TunnelTimeOut`: `bptraverse` takes the next value of the chain before the check of the current
-- one, which takes at most that one out, so the values checked are those at the start.
unfoldable pub check_all : ℕ → List (Key × ℕ) → Storage → Option Storage
check_all quarter [] s = some s
check_all quarter (x ∷ xs) s = elim (tunnel_time_check quarter s x.1) [
  | none ↦ none
  | some s' ↦ check_all quarter xs s'
]

unfoldable pub tunnel_time_out : ℕ → Storage → Option Storage
tunnel_time_out quarter s = check_all quarter s.tree4.header s

-- `getstartport`, an int division cut to 16 bits.
unfoldable pub get_start_port : ℕ → ℕ → ℕ
get_start_port range port =
    if leb 1024 port
    then ((port - 1024) / range * range + 1024) % 65536
    else 1024 - (1024 - port) / range * range
