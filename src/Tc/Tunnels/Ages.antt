-- ===== src/Tc/Tunnels/Ages.antt =====
-- The time of a tunnel of TC/kernel_module/src/packet.c, from check to check, and the block of ports
-- that its first port stands for.
use native.Mathlib.Nat.{add-mul, div-eq_of_lt-le, suc-mul}
use mathlib.Core.Option.{some-injective}
use laft.Common.{
  ==_iff, Bool-cases, Option, ap, arith, false, inl, inr, leb, none, refl, some, suc, sym, true,
  zero, ℕ, ◌%◌, ◌*◌, ◌+◌, ◌-◌, ◌/◌, ◌<◌, ◌==◌, ◌∙◌, ◌≡◌, ◌≤◌,
}
use laft.Tc.Bplus.{Key}
use laft.Tc.Tunnels.{
  Storage, Tunnel, get_start_port, key4, key6, long_mod, lookup_tunnel_v4, tunnel_time_check,
  update,
}
use laft.Tc.Tunnels.Maps.{ArePaired, find-held, held}
use laft.Tc.Tunnels.Release.{tunnel_time_check-over}
use laft.Tc.Bplus.Search.{IsTree}

-- Checks of the tunnel at a pointer, one after the other.
abbrev pub checks : ℕ → ℕ → Storage → ℕ → Option Storage
checks zero quarter s p = some s
checks (suc n) quarter s p = elim (tunnel_time_check quarter s p) [
  | none ↦ none
  | some s' ↦ checks n quarter s' p
]

abbrev pub aged : Storage → ℕ → Tunnel → ℕ → Storage
aged s p t left = record s { tunnels = update s.tunnels p (some (record t { live_time = left })) }

module _ (s : Storage) (p : ℕ) (t : Tunnel) (left : ℕ) (w : ArePaired s)
    (there : s.tunnels p ≡ some t) where
  record Aged (q : ℕ) (u : Tunnel) : Type 0 where
    tunnel : Tunnel
    at : (aged s p t left).tunnels q ≡ some tunnel
    same_port : tunnel.first_port ≡ u.first_port
    same_ip : tunnel.ext_ip ≡ u.ext_ip
    same_client : tunnel.client ≡ u.client

  tunnel-Aged : (q : ℕ) (u : Tunnel) → s.tunnels q ≡ some u → Aged q u
  tunnel-Aged q u e = elim (Bool-cases (p == q)) [
    | inl d ↦
        let same : t ≡ u = some-injective t u (sym there ∙ ap s.tunnels ((==_iff p q).0 d) ∙ e) in
        record {
          tunnel = record t { live_time = left };
          at = rw d;
          same_port = ap (λ z. z.first_port) same;
          same_ip = ap (λ z. z.ext_ip) same;
          same_client = ap (λ z. z.client) same;
        }
    | inr d ↦ record {
      tunnel = u;
      at = rw (d, e);
      same_port = refl;
      same_ip = refl;
      same_client = refl;
    }
  ]

  -- Only the time changes.
  pub aged-ArePaired : ArePaired (aged s p t left)
  aged-ArePaired = record {
    well4 = w.well4;
    well6 = w.well6;
    from4 = λ k q e.
        let l = w.from4 k q e in
        let a = tunnel-Aged q l.tunnel l.there in
        record {
          tunnel = a.tunnel;
          there = a.at;
          key = rw (a.same_port, a.same_ip) l.key;
          back = rw a.same_client l.back;
        };
    from6 = λ k q e.
        let l = w.from6 k q e in
        let a = tunnel-Aged q l.tunnel l.there in
        record {
          tunnel = a.tunnel;
          there = a.at;
          key = rw a.same_client l.key;
          back = rw (a.same_port, a.same_ip) l.back;
        };
  }

tunnel_time_check-left :
    (quarter : ℕ) (s : Storage) (p : ℕ) (t : Tunnel)
    → s.tunnels p ≡ some t
    → quarter < t.live_time
    → t.live_time < long_mod
    → tunnel_time_check quarter s p ≡ some (aged s p t (t.live_time - quarter))
unfolding tunnel_time_check
tunnel_time_check-left quarter s p t f more range =
    let left : (t.live_time + long_mod - quarter) % long_mod ≡ t.live_time - quarter =
      omega arith in
    let ne : ((t.live_time + long_mod - quarter) % long_mod == 0) ≡ false = ground (arith, left) in
    rw (tunnel_time_check, f, ne, left)

-- In trees in step, a tunnel whose time is n + 1 quarters, a quarter above 0 and the time below
-- 2 ^ 64, leaves both trees and is freed with the check n + 1, and the trees stay in step.
pub checks-over :
    (n quarter : ℕ) (s : Storage) (k : Key) (p : ℕ) (t : Tunnel)
    → ArePaired s
    → held s.tree4 k ≡ some p
    → s.tunnels p ≡ some t
    → 0 < quarter
    → t.live_time ≡ suc n * quarter
    → t.live_time < long_mod
    → (s' : Storage) × (checks (suc n) quarter s p ≡ some s')
      × ArePaired s'
      × (held s'.tree4 k ≡ none)
      × (held s'.tree6 (key6 t.client) ≡ none)
      × (s'.tunnels p ≡ none)
checks-over zero quarter s k p t w e f pos_q time range =
    let (s', runs, d) =
      tunnel_time_check-over quarter s k p t w e f (omega (arith, suc-mul 0 quarter)) in
    (
      s',
      rw (checks, runs),
      d.paired,
      d.maps4 k ∙ rw ((==_iff k k).1 refl),
      d.maps6 (key6 t.client) ∙ rw ((==_iff (key6 t.client) (key6 t.client)).1 refl),
      ap (λ m. m p) d.memory ∙ rw ((==_iff p p).1 refl),
    )
checks-over (suc n) quarter s k p t w e f pos_q time range =
    let more = suc-mul (suc n) quarter in
    let one = suc-mul n quarter in
    let left = t.live_time - quarter in
    let rest =
      checks-over n quarter (aged s p t left) k p (record t { live_time = left })
        (aged-ArePaired s p t left w f) e (rw ((==_iff p p).1 refl)) pos_q (omega arith)
        (omega arith) in
    (
      rest.0,
      rw (checks, tunnel_time_check-left quarter s p t f (omega arith) range) rest.1,
      rest.2,
      rest.3,
      rest.4,
      rest.5,
    )

-- The ports of a block that begins a whole number of blocks above 1024 lead to its first port.
get_start_port-block :
    (range i port : ℕ)
    → 0 < range
    → 1024 + i * range ≤ port
    → port < 1024 + i * range + range
    → port < 65536
    → get_start_port range port ≡ 1024 + i * range
unfolding get_start_port
get_start_port-block range i port h low high short =
    let block : (port - 1024) / range ≡ i =
      div-eq_of_lt-le {k = i} range {m = port - 1024} (omega arith)
        (omega (arith, add-mul i 1 range)) in
    let above : leb 1024 port ≡ true = ground arith in rw (above, block) (omega arith)

-- In a well-formed tree with a tunnel whose first port is a whole number of blocks above 1024, each
-- of at least one port, any 16-bit port of its block finds the tunnel.
pub lookup_tunnel_v4-block :
    (s : Storage) (p : ℕ) (t : Tunnel) (range i port : ℕ)
    → IsTree ℕ s.tree4
    → held s.tree4 (key4 t.ext_ip t.first_port) ≡ some p
    → 0 < range
    → t.first_port ≡ 1024 + i * range
    → t.first_port ≤ port
    → port < t.first_port + range
    → port < 65536
    → lookup_tunnel_v4 s t.ext_ip (get_start_port range port) ≡ some (some p)
unfolding lookup_tunnel_v4
lookup_tunnel_v4-block s p t range i port w e h first low high short =
    let start : get_start_port range port ≡ t.first_port =
      get_start_port-block range i port h (omega arith) (omega arith) short ∙ sym first in
    rw start (find-held s.tree4 (key4 t.ext_ip t.first_port) w ∙ ap some e)
