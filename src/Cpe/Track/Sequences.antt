-- ===== src/Cpe/Track/Sequences.antt =====
-- The handshake of TCP, and its end by a reset, in TI/openwrt_cpe/src/packet.c.
use laft.Cpe.Track.Laws.{
  IsLive, for_states_at, has_flag, is_none_row, next_state-is_invalid, of_not, track-state,
}
use laft.Common.{
  ==_iff, Bool, Bool-cases, List, ap, arith, false, if◌then◌else◌, inl, inr, not, refl, some, sym,
  true, ℕ, ◌%◌, ◌&&◌, ◌+◌, ◌-◌, ◌==◌, ◌^◌, ◌∙◌, ◌≡◌, ◌≤◌,
}
use laft.Cpe.Ports.{NatPorts, reset_port, reset_tcp_port}
use laft.Cpe.Track.{
  Conntrack, Direction, Session, TcpHeader, ack_row, conntracks_original, conntracks_reply,
  established, flag_value, get_conntrack_index, is_invalid, is_reply, is_syn_recv, is_syn_sent,
  next_state, no_state, original, reply, run_effects, setportbit, syn_recv, syn_row, syn_sent,
  tcp_pkt_track,
}
use mathlib.Core.Bool.{false≢true}

-- The handshake: a SYN, the SYN and ACK in reply, and an ACK take a session from its first state to
-- ESTABLISHED, if no packet is a reset, only the first two are SYNs, and the last is no FIN.
pub tcp_pkt_track-handshake :
    (swap : ℕ → ℕ) (syn syn_ack ack : TcpHeader) (s : Session)
    → s.state ≡ no_state
    → (syn.rst ≡ false) × (syn.syn ≡ true)
    → (syn_ack.rst ≡ false) × (syn_ack.syn ≡ true)
    → (ack.rst ≡ false) × (ack.syn ≡ false) × (ack.fin ≡ false) × (ack.ack ≡ true)
    → let one = (tcp_pkt_track swap syn s original).1 in
      let two = (tcp_pkt_track swap syn_ack one reply).1 in
      (tcp_pkt_track swap ack two original).1.state ≡ established
unfolding get_conntrack_index
tcp_pkt_track-handshake swap syn syn_ack ack s e (r, y) (r₂, y₂) (r₃, y₃, f₃, a₃) =
    let one = (tcp_pkt_track swap syn s original).1 in
    let two = (tcp_pkt_track swap syn_ack one reply).1 in
    let first : one.state ≡ syn_sent =
      track-state swap syn s original syn_row (rw e) (rw (r, y)) refl
      ∙ ap (conntracks_original syn_row) e in
    let second : two.state ≡ syn_recv =
      track-state swap syn_ack one reply syn_row (rw first) (rw (r₂, y₂)) refl
      ∙ ap (conntracks_reply syn_row) first in
    track-state swap ack two original ack_row (rw second) (rw (r₃, y₃, f₃, a₃)) refl
    ∙ ap (conntracks_original ack_row) second

recv-not_sent :
    (s : Conntrack) → is_invalid s ≡ false → is_syn_recv s ≡ true → is_syn_sent s ≡ false
recv-not_sent s live h =
    let both = for_states_at (λ s. not (is_syn_recv s && is_syn_sent s)) refl s live in
    ground (arith, of_not _ both)

-- What the test for ASSURED asks.
abbrev handshake_done : Session → Direction → TcpHeader → ℕ → Bool
handshake_done s dir h number =
    is_syn_recv s.state && not (is_reply dir) && h.ack && not h.syn && flag_value h.ack == number

all_five :
    (a b c d e : Bool)
    → (a && b && c && d && e) ≡ true
    → (a ≡ true) × (b ≡ true) × (c ≡ true) × (d ≡ true) × (e ≡ true)
all_five a b c d e h = ground arith

done-one :
    (s : Session) (dir : Direction) (h : TcpHeader) (number : ℕ)
    → handshake_done s dir h number ≡ true
    → (is_syn_recv s.state ≡ true) × (number ≡ 1)
done-one s dir h number all =
    let (recv, dir', ack, syn, same) =
      all_five (is_syn_recv s.state) (not (is_reply dir)) h.ack (not h.syn)
        (flag_value h.ack == number) all in
    (recv, sym ((==_iff (flag_value h.ack) number).0 same) ∙ ap flag_value ack)

-- A session becomes ASSURED by a packet of TCP only if the number that the handshake recorded is 1.
pub tcp_pkt_track-assured :
    (swap : ℕ → ℕ) (h : TcpHeader) (s : Session) (dir : Direction)
    → IsLive s
    → s.assured ≡ false
    → (tcp_pkt_track swap h s dir).1.assured ≡ true
    → s.handshake_ack ≡ 1
unfolding tcp_pkt_track
tcp_pkt_track-assured swap h s dir live fresh now =
    let f = get_conntrack_index h in
    let asked = is_syn_sent s.state && is_reply dir && h.syn && h.ack in
    let number = if asked then swap ((h.seq + 1) % 2 ^ 32) else s.handshake_ack in
    elim (Bool-cases (is_invalid (next_state dir f s.state))) [
      | inl e ↦ absurd (false≢true (sym fresh ∙ rw e at now))
      | inr e ↦ elim (Bool-cases (not s.seen_reply && h.rst)) [
        | inl g ↦ absurd (false≢true (sym fresh ∙ rw (e, g) at now))
        | inr g ↦ elim (Bool-cases (handshake_done s dir h number)) [
          | inr d ↦ absurd (false≢true (sym fresh ∙ rw (e, g, d) at now))
          | inl d ↦
              let (recv, one) = done-one s dir h number d in
              rw (recv-not_sent s.state live recv) at one
        ]
      ]
    ]

-- A reset of a TCP session before any reply gives its port back twice: the counter of the ports in
-- use, if it is at least two, goes down by two.
pub tcp_pkt_track-reset :
    (swap : ℕ → ℕ) (low : ℕ) (h : TcpHeader) (s : Session) (dir : Direction) (ports : NatPorts)
    (table : List ℕ)
    → IsLive s
    → h.rst ≡ true
    → s.seen_reply ≡ false
    → s.prot ≡ 6
    → ports.tcp.ports ≡ some table
    → 2 ≤ ports.tcp.used
    → (run_effects low s (tcp_pkt_track swap h s dir).2 ports).tcp.used ≡ ports.tcp.used - 2
unfolding tcp_pkt_track run_effects setportbit reset_tcp_port reset_port
tcp_pkt_track-reset swap low h s dir ports table live rst unseen tcp e two =
    let f = get_conntrack_index h in
    let some_row : is_none_row f ≡ false = has_flag h ∙ rw rst in
    let row : is_invalid (next_state dir f s.state) ≡ false =
      next_state-is_invalid dir f s.state live ∙ some_row in
    let is_tcp : (s.prot == 6) ≡ true = (==_iff _ _).1 tcp in
    rw (row, unseen, rst, is_tcp, e) (ground arith)
