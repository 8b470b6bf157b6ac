-- ===== src/Tc/Tunnels/Tests.antt =====
-- Tunnels of TC/kernel_module/src/packet.c on small storages.
use laft.Common.{[], arith, if◌then◌else◌, none, pos, refl, some, subst, zero, ℕ, ◌==◌, ◌∷◌, ◌≡◌}
use laft.Tc.Bplus.{Key, Tree}
use laft.Tc.Tunnels.{
  Storage, Tunnel, alloc_addr, get_start_port, key4, key6, lookup_tunnel_v4, lookup_tunnel_v6,
  tunnel_time_check, update,
}
use laft.Tc.Tunnels.Maps.{ArePaired, Linked4, Linked6, held}
use laft.Tc.Tunnels.Pairs.{Created, alloc_addr-Created, alloc_addr-shadowed}
use laft.Tc.Tunnels.Release.{Deletes, delete_tunnel-Deletes, tunnel_time_check-wraps}
use laft.Tc.Tunnels.Ages.{checks, checks-over, lookup_tunnel_v4-block}
use laft.Tc.Tunnels.Messages.{Handles, detect, handl_message-Handles}

abbrev home : Tunnel
home = record {
  first_port = 2048;
  last_port = 3071;
  ext_ip = 3232235777;
  client = 32 ∷ 1 ∷ [];
  live_time = 300;
}

abbrev empty : Storage
empty = record {
  tree4 = record { root = none; header = []; size = 0 };
  tree6 = record { root = none; header = []; size = 0 };
  tunnels = λ p. none;
}

abbrev one_entry : Key → Tree ℕ
one_entry k = record {
  root = some (zero, record { key = k; links = (k, 7) ∷ [] });
  header = (k, 7) ∷ [];
  size = 1;
}

-- The tunnel above at the pointer 7.
abbrev at_home : Storage
at_home = record {
  tree4 = one_entry (key4 3232235777 2048);
  tree6 = one_entry (key6 (32 ∷ 1 ∷ []));
  tunnels = λ p. if 7 == p then some home else none;
}

empty-ArePaired : ArePaired empty
empty-ArePaired = record {
  well4 = record { keeps = tt; chained = refl; counted = refl; bounded = omega arith };
  well6 = record { keeps = tt; chained = refl; counted = refl; bounded = omega arith };
  from4 = λ k p e. cc;
  from6 = λ k p e. cc;
}

one_entry-held : (k j : Key) (p : ℕ) → held (one_entry k) j ≡ some p → (k ≡ j) × (7 ≡ p)
one_entry-held k j p e = ground arith

at_home-ArePaired : ArePaired at_home
at_home-ArePaired = record {
  well4 = record { keeps = omega arith; chained = refl; counted = refl; bounded = omega arith };
  well6 = record { keeps = omega arith; chained = refl; counted = refl; bounded = omega arith };
  from4 = λ k p e.
      let r = one_entry-held (key4 3232235777 2048) k p e in
      subst (λ z. Linked4 at_home k z) r.1
        (record { tunnel = home; there = refl; key = r.0; back = refl });
  from6 = λ k p e.
      let r = one_entry-held (key6 (32 ∷ 1 ∷ [])) k p e in
      subst (λ z. Linked6 at_home k z) r.1
        (record { tunnel = home; there = refl; key = r.0; back = refl });
}

alloc_addr-Created_example : Created empty 7 home
alloc_addr-Created_example =
    alloc_addr-Created empty 7 home empty-ArePaired refl refl (omega arith) (omega arith) refl

-- A second range for the same client.
abbrev second : Tunnel
second = record home { first_port = 4096; last_port = 5119 }

alloc_addr-shadowed_example :
    (s' : Storage) × (alloc_addr at_home 9 second ≡ some (s', pos 1))
    × (lookup_tunnel_v4 s' 3232235777 4096 ≡ some (some 9))
    × (lookup_tunnel_v6 s' (32 ∷ 1 ∷ []) ≡ some (some 7))
alloc_addr-shadowed_example =
    alloc_addr-shadowed at_home 9 second at_home-ArePaired refl refl (omega arith) (omega arith) 7
      refl

delete_tunnel-Deletes_example : Deletes at_home (32 ∷ 1 ∷ []) 7 home
delete_tunnel-Deletes_example =
    delete_tunnel-Deletes at_home (32 ∷ 1 ∷ []) 7 home at_home-ArePaired refl refl

checks-over_example :
    (s' : Storage) × (checks 3 100 at_home 7 ≡ some s')
    × ArePaired s'
    × (held s'.tree4 (key4 3232235777 2048) ≡ none)
    × (held s'.tree6 (key6 (32 ∷ 1 ∷ [])) ≡ none)
    × (s'.tunnels 7 ≡ none)
checks-over_example =
    checks-over 2 100 at_home (key4 3232235777 2048) 7 home at_home-ArePaired refl refl
      (omega arith) refl (omega arith)

tunnel_time_check-wraps_example :
    tunnel_time_check 400 at_home 7
    ≡ some (record at_home {
      tunnels = update at_home.tunnels 7 (some (record home { live_time = 18446744073709551516 }));
    })
tunnel_time_check-wraps_example =
    tunnel_time_check-wraps 400 at_home 7 home refl (omega arith) (omega arith)

lookup_tunnel_v4-block_example :
    lookup_tunnel_v4 at_home 3232235777 (get_start_port 1024 2500) ≡ some (some 7)
lookup_tunnel_v4-block_example =
    lookup_tunnel_v4-block at_home 7 home 1024 1 2500 at_home-ArePaired.well4 refl (omega arith)
      refl (omega arith) (omega arith) (omega arith)

handl_message-Handles_example : Handles at_home 8 (detect (32 ∷ 1 ∷ []) 600)
handl_message-Handles_example =
    handl_message-Handles at_home 8 (detect (32 ∷ 1 ∷ []) 600) at_home-ArePaired refl (omega arith)
      (omega arith) tt
