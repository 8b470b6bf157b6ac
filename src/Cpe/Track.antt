-- ===== src/Cpe/Track.antt =====
-- TI/openwrt_cpe/src/packet.c and TI/openwrt_cpe/src/packet.h: the state of a session, and what a
-- packet of TCP, UDP or ICMP does to it.
pub mod Laws
pub mod Sequences
mod Tests
use laft.Common.{
  Bool, List, [], false, if◌then◌else◌, leb, negsuc, not, pos, true, ℕ, ℤ, ◌%◌, ◌&&◌, ◌+◌, ◌-◌,
  ◌==◌, ◌^◌, ◌||◌, ◌∷◌,
}
use laft.Cpe.Ports.{NatPorts, reset_tcp_port, reset_udp_port}

-- `enum tcp_conntrack`
pub data Conntrack : Type 0 where
  no_state : Conntrack
  established : Conntrack
  syn_sent : Conntrack
  syn_recv : Conntrack
  fin_wait : Conntrack
  time_wait : Conntrack
  closed : Conntrack
  close_wait : Conntrack
  last_ack : Conntrack
  listen : Conntrack
  invalid : Conntrack

pub data Direction : Type 0 where
  original : Direction
  reply : Direction

-- The flags of a TCP header that the code reads, and its sequence number in host order.
pub record TcpHeader : Type 0 where
  pub rst : Bool
  pub syn : Bool
  pub fin : Bool
  pub ack : Bool
  pub seq : ℕ

-- The row of the table that a header selects.
pub data Flags : Type 0 where
  syn_row : Flags
  fin_row : Flags
  ack_row : Flags
  rst_row : Flags
  none_row : Flags

unfoldable pub get_conntrack_index : TcpHeader → Flags
get_conntrack_index h =
    if h.rst
    then rst_row
    else if h.syn
    then syn_row
    else if h.fin
    then fin_row
    else if h.ack
    then ack_row
    else none_row

-- `tcp_conntracks`
abbrev pub conntracks_original : Flags → Conntrack → Conntrack
conntracks_original none_row s = invalid
conntracks_original f invalid = invalid
conntracks_original syn_row established = established
conntracks_original syn_row syn_recv = syn_recv
conntracks_original syn_row listen = listen
conntracks_original syn_row s = syn_sent
conntracks_original fin_row no_state = time_wait
conntracks_original fin_row established = fin_wait
conntracks_original fin_row syn_recv = time_wait
conntracks_original fin_row close_wait = time_wait
conntracks_original fin_row s = s
conntracks_original ack_row no_state = established
conntracks_original ack_row syn_recv = established
conntracks_original ack_row listen = established
conntracks_original ack_row s = s
conntracks_original rst_row syn_sent = syn_sent
conntracks_original rst_row time_wait = time_wait
conntracks_original rst_row s = closed

abbrev pub conntracks_reply : Flags → Conntrack → Conntrack
conntracks_reply none_row s = invalid
conntracks_reply f invalid = invalid
conntracks_reply syn_row established = established
conntracks_reply syn_row s = syn_recv
conntracks_reply fin_row no_state = closed
conntracks_reply fin_row established = close_wait
conntracks_reply fin_row syn_recv = time_wait
conntracks_reply fin_row fin_wait = time_wait
conntracks_reply fin_row s = s
conntracks_reply ack_row no_state = closed
conntracks_reply ack_row last_ack = closed
conntracks_reply ack_row s = s
conntracks_reply rst_row last_ack = last_ack
conntracks_reply rst_row listen = listen
conntracks_reply rst_row s = closed

-- `tcp_timeouts`, in seconds.
abbrev pub tcp_timeout : Conntrack → ℕ
tcp_timeout no_state = 1800
tcp_timeout established = 480
tcp_timeout syn_sent = 120
tcp_timeout syn_recv = 60
tcp_timeout fin_wait = 120
tcp_timeout time_wait = 120
tcp_timeout closed = 10
tcp_timeout close_wait = 60
tcp_timeout last_ack = 30
tcp_timeout listen = 120
tcp_timeout invalid = 0

-- `SESSIONTUPLES`; of `con_status` the two bits that are used.
pub record Session : Type 0 where
  pub srcip : ℕ
  pub dstip : ℕ
  pub oldport : ℕ
  pub newport : ℕ
  pub prot : ℕ
  pub icmp_seq : ℕ
  pub state : Conntrack
  pub handshake_ack : ℕ
  pub seen_reply : Bool
  pub assured : Bool
  pub time_out : ℕ

-- `setportbit`; `low` is LowPort.
unfoldable pub setportbit : ℕ → Session → NatPorts → NatPorts
setportbit low s ports =
    if s.prot == 6
    then reset_tcp_port low s.newport ports
    else if s.prot == 17
    then reset_udp_port low s.newport ports
    else ports

-- What a handler does next to changing the session: `put_back` is a call of `setportbit`, and
-- `delete` one of `sessiondel`, which finds the session in the table and calls `DataDel`.
pub data Effect : Type 0 where
  put_back : Effect
  delete : Effect

-- `DataDel` is `setportbit` and the release of the memory.
unfoldable pub run_effects : ℕ → Session → List Effect → NatPorts → NatPorts
run_effects low s [] ports = ports
run_effects low s (put_back ∷ es) ports = run_effects low s es (setportbit low s ports)
run_effects low s (delete ∷ es) ports = run_effects low s es (setportbit low s ports)

abbrev pub next_state : Direction → Flags → Conntrack → Conntrack
next_state original f s = conntracks_original f s
next_state reply f s = conntracks_reply f s

abbrev pub is_syn_sent : Conntrack → Bool
is_syn_sent syn_sent = true
is_syn_sent s = false

abbrev pub is_syn_recv : Conntrack → Bool
is_syn_recv syn_recv = true
is_syn_recv s = false

abbrev pub is_invalid : Conntrack → Bool
is_invalid invalid = true
is_invalid s = false

abbrev pub is_reply : Direction → Bool
is_reply original = false
is_reply reply = true

-- The number that the flag `ack` is compared as. `swap` is `htonl`.
abbrev pub flag_value : Bool → ℕ
flag_value true = 1
flag_value false = 0

unfoldable pub tcp_pkt_track : (ℕ → ℕ) → TcpHeader → Session → Direction → ℤ × Session × List Effect
tcp_pkt_track swap h s dir =
    let new = next_state dir (get_conntrack_index h) s.state in
    let handshake =
      if is_syn_sent s.state && is_reply dir && h.syn && h.ack
      then swap ((h.seq + 1) % 2 ^ 32)
      else s.handshake_ack in
    let moved = record s { state = new; handshake_ack = handshake } in
    let assured =
      if is_syn_recv s.state
        && not (is_reply dir)
        && h.ack
        && not h.syn
        && flag_value h.ack == handshake
      then true
      else s.assured in
    if is_invalid new
    then (negsuc 0, s, [])
    else if not s.seen_reply && h.rst
    then (pos 1, moved, put_back ∷ delete ∷ [])
    else (pos 1, record moved { assured = assured; time_out = tcp_timeout new }, [])

unfoldable pub udp_pkt_track : Session → Session
udp_pkt_track s =
    if s.seen_reply then record s { time_out = 180; assured = true } else record s { time_out = 30 }

-- `icmp_seq` is a `short`, here its 16-bit pattern.
unfoldable pub icmp_pkt_track : Session → Direction → Session × List Effect
icmp_pkt_track s reply =
    let seq = (s.icmp_seq + 2 ^ 16 - 1) % 2 ^ 16 in
    let after = record s { icmp_seq = seq } in
    if seq == 0 || leb (2 ^ 15) seq then (after, delete ∷ []) else (after, [])
icmp_pkt_track s original = (record s { icmp_seq = (s.icmp_seq + 1) % 2 ^ 16; time_out = 30 }, [])
