-- ===== src/Tc/Tunnels/Messages.antt =====
-- The messages that the daemon sends to the kernel, of TC/kernel_module/src/netlink.c: each of them
-- ends with an answer, and leaves the two trees in step.
use laft.Common.{
  ==_iff, Bool-cases, List, Option, Option-cases, ap, inl, inr, negsuc, none, pos, some, ℕ, ℤ, ◌<◌,
  ◌==◌, ◌≡◌,
}
use laft.Tc.Tunnels.{
  Storage, Tunnel, alloc_addr, create_tunnel, delete_tunnel, key4, key6, lookup_tunnel_v6, update,
}
use laft.Tc.Tunnels.Maps.{ArePaired, find-held, held}
use laft.Tc.Tunnels.Pairs.{alloc_addr-Created}
use laft.Tc.Tunnels.Release.{delete_tunnel-Deletes, delete_tunnel-none}
use laft.Tc.Tunnels.Ages.{aged, aged-ArePaired}
use laft.Tc.Bplus.{max_size}

-- NETLINK_DETECT_MSG, NETLINK_ALLOC_ADDR and NETLINK_DELETE_NODE.
pub data Message : Type 0 where
  detect : List ℕ → ℕ → Message
  allocate : Tunnel → Message
  remove : List ℕ → ℕ → Message

-- NETLINK_UPDATE_MSG with the client, the address and the ports, NETLINK_ALLOC_ADDR, NETLINK_RESULT
-- and NETLINK_DELETE_NODE.
pub data Answer : Type 0 where
  updated : List ℕ → ℕ → ℕ → ℕ → Answer
  to_allocate : List ℕ → ℕ → Answer
  result : List ℕ → ℕ → ℕ → Answer
  deleted : List ℕ → ℕ → ℕ → Answer

-- `HandlMessage`, with the pointer that an allocation gets.
unfoldable pub handl_message : Storage → ℕ → Message → Option (Storage × Answer × ℤ)
handl_message s p (detect client left) = elim (lookup_tunnel_v6 s client) [
  | none ↦ none
  | some none ↦ some (s, to_allocate client left, pos 0)
  | some (some q) ↦ elim (s.tunnels q) [
    | none ↦ none
    | some t ↦ some (
      record s { tunnels = update s.tunnels q (some (record t { live_time = left })) },
      updated t.client t.ext_ip t.first_port t.last_port,
      pos 0,
    )
  ]
]
handl_message s p (allocate t) = elim (alloc_addr s p t) [
  | none ↦ none
  | some (s', pos n) ↦ some (s', result t.client 0 t.live_time, pos 0)
  | some (s', negsuc n) ↦ some (s', result t.client 1 t.live_time, negsuc 0)
]
handl_message s p (remove client left) = elim (delete_tunnel s client) [
  | none ↦ none
  | some (s', some x) ↦ some (s', deleted client x.0 x.1, pos 0)
  | some (s', none) ↦ some (s', result client 1 left, negsuc 0)
]

-- An allocation is for a client without a tunnel.
abbrev pub IsFresh : Storage → Message → Type 0
IsFresh s (detect client left) = Unit
IsFresh s (allocate t) = held s.tree6 (key6 t.client) ≡ none
IsFresh s (remove client left) = Unit

-- The message is answered, and the trees stay in step.
pub record Handles (s : Storage) (p : ℕ) (m : Message) : Type 0 where
  pub storage : Storage
  pub answer : Answer
  pub value : ℤ
  pub runs : handl_message s p m ≡ some (storage, answer, value)
  pub paired : ArePaired storage

-- A tunnel in memory that no key leads to.
module _ (s : Storage) (p : ℕ) (t : Tunnel) (w : ArePaired s) (fresh : s.tunnels p ≡ none) where
  abbrev kept_aside : Storage
  kept_aside = record s { tunnels = update s.tunnels p (some t) }

  other_pointer : (q : ℕ) (u : Tunnel) → s.tunnels q ≡ some u → kept_aside.tunnels q ≡ some u
  other_pointer q u e = elim (Bool-cases (p == q)) [
    | inl d ↦ let same = ap s.tunnels ((==_iff p q).0 d) in absurd cc
    | inr d ↦ rw (d, e)
  ]

  kept_aside-ArePaired : ArePaired kept_aside
  kept_aside-ArePaired = record {
    well4 = w.well4;
    well6 = w.well6;
    from4 = λ k q e.
        let l = w.from4 k q e in
        record {
          tunnel = l.tunnel;
          there = other_pointer q l.tunnel l.there;
          key = l.key;
          back = l.back;
        };
    from6 = λ k q e.
        let l = w.from6 k q e in
        record {
          tunnel = l.tunnel;
          there = other_pointer q l.tunnel l.there;
          key = l.key;
          back = l.back;
        };
  }

  -- The address and port are taken.
  alloc_addr-refused :
      (q : ℕ)
      → held s.tree4 (key4 t.ext_ip t.first_port) ≡ some q
      → alloc_addr s p t ≡ some (kept_aside, negsuc 0)
  unfolding alloc_addr create_tunnel
  alloc_addr-refused q e =
      rw (alloc_addr, create_tunnel, find-held s.tree4 (key4 t.ext_ip t.first_port) w.well4, e)

-- In trees in step with room, a message with a fresh pointer, which if it is an allocation is for a
-- client without a tunnel, is answered, and the trees stay in step.
pub handl_message-Handles :
    (s : Storage) (p : ℕ) (m : Message)
    → ArePaired s
    → s.tunnels p ≡ none
    → s.tree4.size < max_size
    → s.tree6.size < max_size
    → IsFresh s m
    → Handles s p m
unfolding handl_message lookup_tunnel_v6
handl_message-Handles s p (detect client left) w f r4 r6 free =
    elim (Option-cases (held s.tree6 (key6 client))) [
      | inl e ↦ record {
        storage = s;
        answer = to_allocate client left;
        value = pos 0;
        runs = rw (handl_message, lookup_tunnel_v6, find-held s.tree6 (key6 client) w.well6, e);
        paired = w;
      }
      | inr (q, e) ↦
          let l = w.from6 (key6 client) q e in
          let t = l.tunnel in
          record {
            storage = aged s q t left;
            answer = updated t.client t.ext_ip t.first_port t.last_port;
            value = pos 0;
            runs = rw (
              handl_message,
              lookup_tunnel_v6,
              find-held s.tree6 (key6 client) w.well6,
              e,
              l.there,
            );
            paired = aged-ArePaired s q t left w l.there;
          }
    ]
handl_message-Handles s p (allocate t) w f r4 r6 free =
    elim (Option-cases (held s.tree4 (key4 t.ext_ip t.first_port))) [
      | inl e ↦
          let c = alloc_addr-Created s p t w f e r4 r6 free in
          record {
            storage = c.storage;
            answer = result t.client 0 t.live_time;
            value = pos 0;
            runs = rw (handl_message, c.runs);
            paired = c.paired;
          }
      | inr (q, e) ↦ record {
        storage = kept_aside s p t w f;
        answer = result t.client 1 t.live_time;
        value = negsuc 0;
        runs = rw (handl_message, alloc_addr-refused s p t w f q e);
        paired = kept_aside-ArePaired s p t w f;
      }
    ]
handl_message-Handles s p (remove client left) w f r4 r6 free =
    elim (Option-cases (held s.tree6 (key6 client))) [
      | inl e ↦ record {
        storage = s;
        answer = result client 1 left;
        value = negsuc 0;
        runs = rw (handl_message, delete_tunnel-none s client w e);
        paired = w;
      }
      | inr (q, e) ↦
          let l = w.from6 (key6 client) q e in
          let d = delete_tunnel-Deletes s client q l.tunnel w e l.there in
          record {
            storage = d.storage;
            answer = deleted client l.tunnel.ext_ip l.tunnel.first_port;
            value = pos 0;
            runs = rw (handl_message, d.deletes);
            paired = d.dropped.paired;
          }
    ]
