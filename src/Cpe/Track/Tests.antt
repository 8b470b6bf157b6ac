-- ===== src/Cpe/Track/Tests.antt =====
-- A new TCP session of TI/openwrt_cpe/src/packet.c and the packets of its handshake.
use laft.Common.{Bool, [], false, refl, some, true, ℕ, ◌∷◌, ◌≡◌}
use laft.Cpe.Ports.{NatPorts}
use laft.Cpe.Track.{
  Session, TcpHeader, delete, established, get_conntrack_index, icmp_pkt_track, no_state, original,
  reply, syn_recv, tcp_pkt_track, udp_pkt_track,
}
use laft.Cpe.Track.Laws.{Tracked, tcp_pkt_track-Tracked}
use laft.Cpe.Track.Sequences.{tcp_pkt_track-handshake}

abbrev header : (rst syn ack : Bool) → TcpHeader
header rst syn ack = record { rst = rst; syn = syn; fin = false; ack = ack; seq = 700 }

abbrev fresh : Session
fresh = record {
  srcip = 1;
  dstip = 2;
  oldport = 3;
  newport = 2048;
  prot = 6;
  icmp_seq = 0;
  state = no_state;
  handshake_ack = 0;
  seen_reply = false;
  assured = false;
  time_out = 30;
}

-- `htonl` on a machine whose byte order is the network's.
abbrev same : ℕ → ℕ
same n = n

tcp_pkt_track-Tracked_example :
    Tracked
      (header false true false)
      fresh
      original
      (tcp_pkt_track same (header false true false) fresh original)
tcp_pkt_track-Tracked_example =
    tcp_pkt_track-Tracked same (header false true false) fresh original refl

tcp_pkt_track-handshake_example :
    (tcp_pkt_track same
      (header false false true)
      (tcp_pkt_track same
        (header false true true)
        (tcp_pkt_track same (header false true false) fresh original).1
        reply).1
      original).1.state
    ≡ established
tcp_pkt_track-handshake_example =
    tcp_pkt_track-handshake same (header false true false) (header false true true)
      (header false false true) fresh refl (refl, refl) (refl, refl) (refl, refl, refl, refl)

-- An ACK that the code takes for the end of a handshake.
abbrev answered_once : Session
answered_once = record fresh { state = syn_recv; handshake_ack = 1 }

assured_now : (tcp_pkt_track same (header false false true) answered_once original).1.assured ≡ true
unfolding tcp_pkt_track get_conntrack_index
assured_now = refl

abbrev two_ports : NatPorts
two_ports = record {
  tcp = record { ports = some (3 ∷ []); used = 2 };
  udp = record { ports = some (0 ∷ []); used = 0 };
}

udp_seen : (udp_pkt_track (record fresh { seen_reply = true })).time_out ≡ 180
unfolding udp_pkt_track
udp_seen = refl

icmp_reply : (icmp_pkt_track (record fresh { icmp_seq = 1 }) reply).1 ≡ delete ∷ []
unfolding icmp_pkt_track
icmp_reply = refl
