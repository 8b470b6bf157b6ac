-- ===== src/Cpe/Ports.antt =====
-- TI/openwrt_cpe/src/tool.c: the tables of TCP and UDP ports in use, one bit for each port from
-- LowPort on, and the choice of an identifier for ICMP. An `int` of a table is its 32-bit pattern;
-- a write outside of a table is not followed, and leaves it as it is.
pub mod Bits
pub mod Count
pub mod Get
pub mod Held
pub mod Icmp
mod Tests
use laft.Common.{
  List, Option, bit_and, bit_or, get_or, if◌then◌else◌, leb, ltb, negsuc, none, pos, set, some, suc,
  zero, ℕ, ℤ, ◌%◌, ◌+◌, ◌-◌, ◌/◌, ◌==◌, ◌^◌,
}

-- One table with its counter, `tcpport` and `tcp_port_used` or those of UDP; NULL is `none`.
pub record PortTable : Type 0 where
  pub ports : Option (List ℕ)
  pub used : ℕ

-- `port[i >> SHIFT] |= (1 << (i & MASK))`
abbrev pub mark : List ℕ → ℕ → List ℕ
mark port i = set port (i / 32) (bit_or (get_or port (i / 32) 0) (2 ^ (i % 32)))

abbrev pub unmark : List ℕ → ℕ → List ℕ
unmark port i = set port (i / 32) (bit_and (get_or port (i / 32) 0) (2 ^ 32 - 1 - 2 ^ (i % 32)))

unfoldable pub set_port : Option (List ℕ) → ℕ → Option (List ℕ)
set_port none i = none
set_port (some port) i = some (mark port i)

-- What the loop counter subtracts, an `unsigned short` again when it is passed.
abbrev pub offset : ℕ → ℕ → ℕ
offset i low = (i + 2 ^ 16 - low) % 2 ^ 16

-- `fallen` is the value of a call of `test` that ends without a `return`.
module _ (fallen : ℕ) where
  unfoldable pub test : Option (List ℕ) → ℕ → ℕ
  test none i = fallen
  test (some port) i = bit_and (get_or port (i / 32) 0) (2 ^ (i % 32))

  -- The loop from `i` on; it ends behind `high` if it finds no free port.
  unfoldable pub get_from : ℕ → ℕ → ℕ → PortTable → ℕ → Option (ℤ × PortTable)
  get_from zero low high t i = none
  get_from (suc fuel) low high t i =
      let rest = get_from fuel low high t ((i + 1) % 2 ^ 16) in
      if ltb high i
      then some (pos i, t)
      else if test t.ports (offset i low) == 0
      then some
          (pos i, record { ports = set_port t.ports (offset i low); used = (t.used + 1) % 2 ^ 16 })
      else rest

  -- `get_tcp_port`, and `get_udp_port` on the other table.
  unfoldable pub get_port : ℕ → ℕ → ℕ → PortTable → Option (ℤ × PortTable)
  get_port fuel low high t =
      if leb (high + 1) (t.used + low) then some (negsuc 0, t) else get_from fuel low high t low

-- `reset_tcp_port` and `reset_udp_port`; `low` is LowPort.
unfoldable pub reset_port : ℕ → ℕ → PortTable → PortTable
reset_port low i t = elim t.ports [
  | none ↦ t
  | some port ↦ record {
    ports = some (if ltb i low then port else unmark port (i - low));
    used = if t.used == 0 then t.used else t.used - 1;
  }
]

-- Both tables of `laft_info`.
pub record NatPorts : Type 0 where
  pub tcp : PortTable
  pub udp : PortTable

abbrev pub put_tcp : NatPorts → Option (ℤ × PortTable) → Option (ℤ × NatPorts)
put_tcp s none = none
put_tcp s (some (r, t)) = some (r, record s { tcp = t })

abbrev pub put_udp : NatPorts → Option (ℤ × PortTable) → Option (ℤ × NatPorts)
put_udp s none = none
put_udp s (some (r, t)) = some (r, record s { udp = t })

unfoldable pub get_tcp_port : ℕ → ℕ → ℕ → ℕ → NatPorts → Option (ℤ × NatPorts)
get_tcp_port fallen fuel low high s = put_tcp s (get_port fallen fuel low high s.tcp)

unfoldable pub get_udp_port : ℕ → ℕ → ℕ → ℕ → NatPorts → Option (ℤ × NatPorts)
get_udp_port fallen fuel low high s = put_udp s (get_port fallen fuel low high s.udp)

unfoldable pub reset_tcp_port : ℕ → ℕ → NatPorts → NatPorts
reset_tcp_port low i s = record s { tcp = reset_port low i s.tcp }

unfoldable pub reset_udp_port : ℕ → ℕ → NatPorts → NatPorts
reset_udp_port low i s = record s { udp = reset_port low i s.udp }

-- The two static variables of `get_icmp_port`.
pub record IcmpPort : Type 0 where
  pub last : ℕ
  pub i : ℕ

unfoldable pub get_icmp_port : ℕ → ℕ → IcmpPort → ℕ × IcmpPort
get_icmp_port low high s =
    let next = (s.i + 1) % 2 ^ 16 in
    let wrapped = if ltb high next then low else next in
    if s.i == 0
    then (low, record { last = low; i = low })
    else if s.last == low
    then (wrapped, record s { i = wrapped })
    else (low, record s { i = low })
