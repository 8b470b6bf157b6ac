-- ===== src/Cpe/Track/Laws.antt =====
-- The tracking of sessions in TI/openwrt_cpe/src/packet.c.
use laft.Common.{
  Bool, Bool-cases, List, [], and→both, arith, beq, beq→eq, false, inl, inr, ltb, ltb→lt, negsuc,
  not, pos, refl, sym, true, ℕ, ℤ, ◌&&◌, ◌<◌, ◌||◌, ◌∙◌, ◌∷◌, ◌≡◌,
}
use laft.Cpe.Track.{
  Conntrack, Direction, Effect, Flags, Session, TcpHeader, ack_row, close_wait, closed, delete,
  established, fin_row, fin_wait, get_conntrack_index, invalid, is_invalid, last_ack, listen,
  next_state, no_state, none_row, original, put_back, reply, rst_row, syn_recv, syn_row, syn_sent,
  tcp_pkt_track, tcp_timeout, time_wait,
}

-- A test of every state of a session in the table, and of every row.
abbrev pub for_states : (Conntrack → Bool) → Bool
for_states p =
    p no_state
    && p established
    && p syn_sent
    && p syn_recv
    && p fin_wait
    && p time_wait
    && p closed
    && p close_wait
    && p last_ack
    && p listen

pub for_states_at :
    (p : Conntrack → Bool)
    → for_states p ≡ true
    → (s : Conntrack) → is_invalid s ≡ false
    → p s ≡ true
for_states_at p h no_state live = ground arith
for_states_at p h established live = ground arith
for_states_at p h syn_sent live = ground arith
for_states_at p h syn_recv live = ground arith
for_states_at p h fin_wait live = ground arith
for_states_at p h time_wait live = ground arith
for_states_at p h closed live = ground arith
for_states_at p h close_wait live = ground arith
for_states_at p h last_ack live = ground arith
for_states_at p h listen live = ground arith
for_states_at p h invalid live = cc

abbrev pub is_none_row : Flags → Bool
is_none_row none_row = true
is_none_row f = false

pub next_state-is_invalid :
    (dir : Direction) (f : Flags) (s : Conntrack)
    → is_invalid s ≡ false
    → is_invalid (next_state dir f s) ≡ is_none_row f
next_state-is_invalid dir f s live = beq→eq _ _ (
    for_states_at (λ s. beq (is_invalid (next_state dir f s)) (is_none_row f)) (table dir f) s live)
  where
    table :
        (dir : Direction) (f : Flags)
        → for_states (λ s. beq (is_invalid (next_state dir f s)) (is_none_row f)) ≡ true
    table original syn_row = refl
    table original fin_row = refl
    table original ack_row = refl
    table original rst_row = refl
    table original none_row = refl
    table reply syn_row = refl
    table reply fin_row = refl
    table reply ack_row = refl
    table reply rst_row = refl
    table reply none_row = refl

pub has_flag :
    (h : TcpHeader) → is_none_row (get_conntrack_index h) ≡ not (h.rst || h.syn || h.fin || h.ack)
unfolding get_conntrack_index
has_flag h = elim (Bool-cases h.rst) [
  | inl e ↦ rw e
  | inr e ↦ elim (Bool-cases h.syn) [
    | inl f ↦ rw (e, f)
    | inr f ↦ elim (Bool-cases h.fin) [
      | inl g ↦ rw (e, f, g)
      | inr g ↦ elim (Bool-cases h.ack) [ inl k ↦ rw (e, f, g, k) | inr k ↦ rw (e, f, g, k) ]
    ]
  ]
]

pub of_not : (b : Bool) → not b ≡ true → b ≡ false
of_not true h = cc
of_not false h = refl

true_of_not : (b : Bool) → not b ≡ false → b ≡ true
true_of_not true h = refl
true_of_not false h = cc

reset_seen : (seen rst : Bool) → (not seen && rst) ≡ false → rst ≡ true → seen ≡ true
reset_seen true rst h r = refl
reset_seen false rst h r = cc

tcp_timeout-pos : (s : Conntrack) → is_invalid s ≡ false → 0 < tcp_timeout s
tcp_timeout-pos s live = ltb→lt _ _ (for_states_at (λ s. ltb 0 (tcp_timeout s)) refl s live)

-- A live session is in a state that the table has a column for.
abbrev pub IsLive : Session → Type 0
IsLive s = is_invalid s.state ≡ false

-- What a packet of TCP does to a live session.
pub data Tracked (h : TcpHeader) (s : Session) (dir : Direction) (r : ℤ × Session × List Effect)
    : Type 0 where
  ignored : (h.rst || h.syn || h.fin || h.ack) ≡ false → r ≡ (negsuc 0, s, []) → Tracked h s dir r
  ended :
      (h.rst || h.syn || h.fin || h.ack) ≡ true
      → h.rst ≡ true
      → s.seen_reply ≡ false
      → r.0 ≡ pos 1
      → r.1.state ≡ next_state dir (get_conntrack_index h) s.state
      → r.2 ≡ put_back ∷ delete ∷ []
      → Tracked h s dir r
  went_on :
      (h.rst || h.syn || h.fin || h.ack) ≡ true
      → (h.rst ≡ true → s.seen_reply ≡ true)
      → r.0 ≡ pos 1
      → r.1.state ≡ next_state dir (get_conntrack_index h) s.state
      → IsLive r.1
      → r.1.time_out ≡ tcp_timeout r.1.state
      → 0 < r.1.time_out
      → r.2 ≡ []
      → Tracked h s dir r

-- A packet of TCP on a live session: exactly without a flag of the table it is ignored, and changes
-- nothing; else the session moves along the table, where a reset before any reply ends it, and
-- otherwise it stays live and gets the time of its new state, which is positive.
pub tcp_pkt_track-Tracked :
    (swap : ℕ → ℕ) (h : TcpHeader) (s : Session) (dir : Direction)
    → IsLive s
    → Tracked h s dir (tcp_pkt_track swap h s dir)
unfolding tcp_pkt_track
tcp_pkt_track-Tracked swap h s dir live =
    let f = get_conntrack_index h in
    let row : is_invalid (next_state dir f s.state) ≡ is_none_row f =
      next_state-is_invalid dir f s.state live in
    let flagged : is_none_row f ≡ false → (h.rst || h.syn || h.fin || h.ack) ≡ true =
      λ e. true_of_not _ (sym (has_flag h) ∙ e) in
    elim (Bool-cases (is_none_row f)) [
      | inl e ↦ rw (row, e) (ignored (of_not _ (sym (has_flag h) ∙ e)) refl)
      | inr e ↦ elim (Bool-cases (not s.seen_reply && h.rst)) [
        | inl g ↦
            rw (row, e, g)
              (ended (flagged e) (and→both _ _ g).1 (of_not _ (and→both _ _ g).0) refl refl refl)
        | inr g ↦
            rw (row, e, g)
              (went_on (flagged e) (reset_seen _ _ g) refl refl (row ∙ e) refl
                (tcp_timeout-pos _ (row ∙ e)) refl)
      ]
    ]

-- Any packet with a flag of the table moves a live session along the table.
pub track-state :
    (swap : ℕ → ℕ) (h : TcpHeader) (s : Session) (dir : Direction) (f : Flags)
    → IsLive s
    → get_conntrack_index h ≡ f
    → is_none_row f ≡ false
    → (tcp_pkt_track swap h s dir).1.state ≡ next_state dir f s.state
unfolding tcp_pkt_track
track-state swap h s dir f live at some_row =
    let row : is_invalid (next_state dir f s.state) ≡ false =
      next_state-is_invalid dir f s.state live ∙ some_row in
    elim (Bool-cases (not s.seen_reply && h.rst)) [
      | inl g ↦ rw (at, row, g)
      | inr g ↦ rw (at, row, g)
    ]
