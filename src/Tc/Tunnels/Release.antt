-- ===== src/Tc/Tunnels/Release.antt =====
-- Tunnels of TC/kernel_module/src/packet.c that are deleted, on request or when their time is over.
use mathlib.Core.Option.{some-injective}
use laft.Common.{
  ==_iff, Bool-cases, List, ap, arith, eq_false, false, if◌then◌else◌, inl, inr, none, refl, some,
  subst, sym, true, ℕ, ◌%◌, ◌+◌, ◌-◌, ◌<◌, ◌==◌, ◌∙◌, ◌≡◌,
}
use laft.Tc.Bplus.{Key}
use laft.Tc.Tunnels.{
  Storage, Tunnel, delete_tunnel, drop_tunnel, key4, key6, long_mod, lookup_tunnel_v6,
  tunnel_time_check, update,
}
use laft.Tc.Tunnels.Maps.{ArePaired, Deleted, Linked4, Linked6, delete-Deleted, find-held, held}

-- Both keys of the tunnel are gone, and it is freed; the trees stay in step.
pub record Dropped (s : Storage) (p : ℕ) (k4 k6 : Key) (s' : Storage) : Type 0 where
  pub paired : ArePaired s'
  pub memory : s'.tunnels ≡ update s.tunnels p none
  pub maps4 : (j : Key) → held s'.tree4 j ≡ (if k4 == j then none else held s.tree4 j)
  pub maps6 : (j : Key) → held s'.tree6 j ≡ (if k6 == j then none else held s.tree6 j)

-- A pointer stands under one key of each tree.
only4 :
    (s : Storage) (p : ℕ) (k k' : Key)
    → ArePaired s
    → held s.tree4 k ≡ some p
    → held s.tree4 k' ≡ some p
    → k ≡ k'
only4 s p k k' w e f =
    let l = w.from4 k p e in
    let m = w.from4 k' p f in
    let same = some-injective l.tunnel m.tunnel (sym l.there ∙ m.there) in
    sym l.key ∙ ap (λ z. key4 z.ext_ip z.first_port) same ∙ m.key

only6 :
    (s : Storage) (p : ℕ) (k k' : Key)
    → ArePaired s
    → held s.tree6 k ≡ some p
    → held s.tree6 k' ≡ some p
    → k ≡ k'
only6 s p k k' w e f =
    let l = w.from6 k p e in
    let m = w.from6 k' p f in
    let same = some-injective l.tunnel m.tunnel (sym l.there ∙ m.there) in
    sym l.key ∙ ap (λ z. key6 z.client) same ∙ m.key

module _ (s : Storage) (p : ℕ) (k4 k6 : Key) (w : ArePaired s) (at4 : held s.tree4 k4 ≡ some p)
    (at6 : held s.tree6 k6 ≡ some p) where
  out4 : Deleted s.tree4 k4
  out4 = delete-Deleted s.tree4 k4 w.well4

  out6 : Deleted s.tree6 k6
  out6 = delete-Deleted s.tree6 k6 w.well6

  left : Storage
  left = record { tree4 = out4.tree; tree6 = out6.tree; tunnels = update s.tunnels p none }

  runs : drop_tunnel s p k4 k6 ≡ some left
  unfolding left drop_tunnel
  runs = rw (drop_tunnel, out6.runs, out4.runs)

  -- The pointer stands under no other key.
  linked4 : (k : Key) (q : ℕ) → held left.tree4 k ≡ some q → Linked4 left k q
  unfolding left
  linked4 k q e = elim (Bool-cases (k4 == k)) [
    | inl d ↦ let gone : held out4.tree k ≡ none = out4.maps k ∙ rw d in cc
    | inr d ↦
        let old : held s.tree4 k ≡ some q = sym (out4.maps k ∙ rw d) ∙ e in
        let l = w.from4 k q old in
        let ne : (p == q) ≡ false = eq_false (p == q) (λ f.
          let same : held s.tree4 k ≡ some p = old ∙ ap some (sym ((==_iff _ _).0 f)) in
          cc ((==_iff k4 k).1 (only4 s p k4 k w at4 same))) in
        let other : (k6 == key6 l.tunnel.client) ≡ false =
          eq_false (k6 == key6 l.tunnel.client) (λ f.
            let same : held s.tree6 k6 ≡ some q = ap (held s.tree6) ((==_iff _ _).0 f) ∙ l.back in
            cc ((==_iff p q).1 (some-injective p q (sym at6 ∙ same)))) in
        record {
          tunnel = l.tunnel;
          there = rw (ne, l.there);
          key = l.key;
          back = out6.maps (key6 l.tunnel.client) ∙ rw (other, l.back);
        }
  ]

  linked6 : (k : Key) (q : ℕ) → held left.tree6 k ≡ some q → Linked6 left k q
  unfolding left
  linked6 k q e = elim (Bool-cases (k6 == k)) [
    | inl d ↦ let gone : held out6.tree k ≡ none = out6.maps k ∙ rw d in cc
    | inr d ↦
        let old : held s.tree6 k ≡ some q = sym (out6.maps k ∙ rw d) ∙ e in
        let l = w.from6 k q old in
        let l4 = key4 l.tunnel.ext_ip l.tunnel.first_port in
        let ne : (p == q) ≡ false = eq_false (p == q) (λ f.
          let same : held s.tree6 k ≡ some p = old ∙ ap some (sym ((==_iff _ _).0 f)) in
          cc ((==_iff k6 k).1 (only6 s p k6 k w at6 same))) in
        let other : (k4 == l4) ≡ false = eq_false (k4 == l4) (λ f.
          let same : held s.tree4 k4 ≡ some q = ap (held s.tree4) ((==_iff _ _).0 f) ∙ l.back in
          cc ((==_iff p q).1 (some-injective p q (sym at4 ∙ same)))) in
        record {
          tunnel = l.tunnel;
          there = rw (ne, l.there);
          key = l.key;
          back = out4.maps l4 ∙ rw (other, l.back);
        }
  ]

  pub drop_tunnel-Dropped :
      (s' : Storage) × (drop_tunnel s p k4 k6 ≡ some s') × Dropped s p k4 k6 s'
  unfolding left
  drop_tunnel-Dropped = (
    left,
    runs,
    record {
      paired = record { well4 = out4.well; well6 = out6.well; from4 = linked4; from6 = linked6 };
      memory = refl;
      maps4 = out4.maps;
      maps6 = out6.maps;
    },
  )

-- `DeleteTunnel` of a client that has a tunnel.
pub record Deletes (s : Storage) (client : List ℕ) (p : ℕ) (t : Tunnel) : Type 0 where
  pub storage : Storage
  pub deletes : delete_tunnel s client ≡ some (storage, some (t.ext_ip, t.first_port))
  pub dropped : Dropped s p (key4 t.ext_ip t.first_port) (key6 client) storage

-- In trees in step, a client with a tunnel loses it: its address and port come back, both keys are
-- gone, the tunnel is freed, and the trees stay in step.
pub delete_tunnel-Deletes :
    (s : Storage) (client : List ℕ) (p : ℕ) (t : Tunnel)
    → ArePaired s
    → held s.tree6 (key6 client) ≡ some p
    → s.tunnels p ≡ some t
    → Deletes s client p t
unfolding delete_tunnel lookup_tunnel_v6
delete_tunnel-Deletes s client p t w e f =
    let l = w.from6 (key6 client) p e in
    let same : l.tunnel ≡ t = some-injective l.tunnel t (sym l.there ∙ f) in
    let at4 : held s.tree4 (key4 t.ext_ip t.first_port) ≡ some p =
      subst (λ z. held s.tree4 (key4 z.ext_ip z.first_port) ≡ some p) same l.back in
    let (s', runs, d) =
      drop_tunnel-Dropped s p (key4 t.ext_ip t.first_port) (key6 client) w at4 e in
    record {
      storage = s';
      deletes =
          rw (delete_tunnel, lookup_tunnel_v6, find-held s.tree6 (key6 client) w.well6, e, f, runs);
      dropped = d;
    }

-- A client without a tunnel.
pub delete_tunnel-none :
    (s : Storage) (client : List ℕ)
    → ArePaired s
    → held s.tree6 (key6 client) ≡ none
    → delete_tunnel s client ≡ some (s, none)
unfolding delete_tunnel lookup_tunnel_v6
delete_tunnel-none s client w e =
    rw (delete_tunnel, lookup_tunnel_v6, find-held s.tree6 (key6 client) w.well6, e)

-- A tunnel whose time is a quarter is dropped by the next check.
pub tunnel_time_check-over :
    (quarter : ℕ) (s : Storage) (k : Key) (p : ℕ) (t : Tunnel)
    → ArePaired s
    → held s.tree4 k ≡ some p
    → s.tunnels p ≡ some t
    → t.live_time ≡ quarter
    → (s' : Storage) × (tunnel_time_check quarter s p ≡ some s') × Dropped s p k (key6 t.client) s'
unfolding tunnel_time_check
tunnel_time_check-over quarter s k p t w e f over =
    let l = w.from4 k p e in
    let same : l.tunnel ≡ t = some-injective l.tunnel t (sym l.there ∙ f) in
    let key : key4 t.ext_ip t.first_port ≡ k =
      subst (λ z. key4 z.ext_ip z.first_port ≡ k) same l.key in
    let at6 : held s.tree6 (key6 t.client) ≡ some p =
      subst (λ z. held s.tree6 (key6 z.client) ≡ some p) same l.back in
    let (s', runs, d) = drop_tunnel-Dropped s p k (key6 t.client) w e at6 in
    let zero_left : ((t.live_time + long_mod - quarter) % long_mod == 0) ≡ true =
      (==_iff _ _).1 (omega (arith, over)) in
    (s', rw (tunnel_time_check, f, zero_left, key) runs, d)

-- A tunnel with less time than a quarter, itself below 2 ^ 64, is kept, and its time wraps around.
pub tunnel_time_check-wraps :
    (quarter : ℕ) (s : Storage) (p : ℕ) (t : Tunnel)
    → s.tunnels p ≡ some t
    → quarter < long_mod
    → t.live_time < quarter
    → tunnel_time_check quarter s p
      ≡ some (record s {
        tunnels =
            update s.tunnels p (some (record t { live_time = t.live_time + long_mod - quarter }));
      })
unfolding tunnel_time_check
tunnel_time_check-wraps quarter s p t f range less =
    let left : (t.live_time + long_mod - quarter) % long_mod ≡ t.live_time + long_mod - quarter =
      omega arith in
    let more : ((t.live_time + long_mod - quarter) % long_mod == 0) ≡ false =
      ground (arith, left) in
    rw (tunnel_time_check, f, more, left)
