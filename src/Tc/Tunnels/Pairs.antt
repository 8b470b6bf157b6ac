-- ===== src/Tc/Tunnels/Pairs.antt =====
-- The two trees of bindings of TC/kernel_module/src/packet.c stay in step.
use mathlib.Core.Option.{some-injective}
use laft.Common.{
  ==_iff, Bool-cases, ap, eq_false, false, if◌then◌else◌, inl, inr, none, pos, refl, some, subst,
  sym, ℕ, ◌<◌, ◌==◌, ◌∙◌, ◌≡◌,
}
use laft.Tc.Bplus.{Key, max_size}
use laft.Tc.Bplus.Refine.{kept_or}
use laft.Tc.Tunnels.{
  Storage, Tunnel, alloc_addr, create_in_tree6, create_tunnel, key4, key6, lookup_tunnel_v4,
  lookup_tunnel_v6, update,
}
use laft.Tc.Tunnels.Maps.{
  ArePaired, Inserted, Linked4, Linked6, find-held, held, insert_element-Inserted,
}

-- The tunnel is created under both of its keys, and all other keys keep theirs.
pub record Created (s : Storage) (p : ℕ) (t : Tunnel) : Type 0 where
  pub storage : Storage
  pub runs : alloc_addr s p t ≡ some (storage, pos 1)
  pub paired : ArePaired storage
  pub memory : storage.tunnels ≡ update s.tunnels p (some t)
  pub maps4 :
      (j : Key)
      → held storage.tree4 j ≡ (if key4 t.ext_ip t.first_port == j then some p else held s.tree4 j)
  pub maps6 :
      (j : Key) → held storage.tree6 j ≡ (if key6 t.client == j then some p else held s.tree6 j)

module _ (s : Storage) (p : ℕ) (t : Tunnel) (w : ArePaired s) (fresh : s.tunnels p ≡ none)
    (free4 : held s.tree4 (key4 t.ext_ip t.first_port) ≡ none) (room4 : s.tree4.size < max_size)
    (room6 : s.tree6.size < max_size) where
  k4 : Key
  k4 = key4 t.ext_ip t.first_port

  k6 : Key
  k6 = key6 t.client

  in4 : Inserted s.tree4 k4 p
  in4 = insert_element-Inserted s.tree4 k4 p w.well4 room4

  in6 : Inserted s.tree6 k6 p
  in6 = insert_element-Inserted s.tree6 k6 p w.well6 room6

  made : Storage
  made = record { tree4 = in4.tree; tree6 = in6.tree; tunnels = update s.tunnels p (some t) }

  runs : alloc_addr s p t ≡ some (made, pos 1)
  unfolding made k4 k6 alloc_addr create_tunnel create_in_tree6
  runs = rw (
    alloc_addr,
    create_tunnel,
    find-held s.tree4 k4 w.well4,
    free4,
    in4.runs,
    create_in_tree6,
    in6.runs,
  )

  maps4 : (j : Key) → held made.tree4 j ≡ (if k4 == j then some p else held s.tree4 j)
  unfolding made k4
  maps4 j = in4.maps j ∙ ap (λ z. if k4 == j then some (kept_or z p) else held s.tree4 j) free4

  maps6_over :
      (j : Key)
      → held made.tree6 j ≡ (if k6 == j then some (kept_or (held s.tree6 k6) p) else held s.tree6 j)
  unfolding made k6
  maps6_over j = in6.maps j

  module _ (free6 : held s.tree6 (key6 t.client) ≡ none) where
    maps6 : (j : Key) → held made.tree6 j ≡ (if k6 == j then some p else held s.tree6 j)
    unfolding k6
    maps6 j = maps6_over j ∙ ap (λ z. if k6 == j then some (kept_or z p) else held s.tree6 j) free6

    old_pointer : (q : ℕ) (u : Tunnel) → s.tunnels q ≡ some u → made.tunnels q ≡ some u
    unfolding made
    old_pointer q u e =
        let ne : (p == q) ≡ false = eq_false (p == q) (λ d.
          let same : p ≡ q = (==_iff _ _).0 d in
          let none_there : s.tunnels q ≡ none = subst (λ z. s.tunnels z ≡ none) same fresh in cc) in
        rw (ne, e)

    new_pointer : made.tunnels p ≡ some t
    unfolding made
    new_pointer = rw ((==_iff p p).1 refl)

    linked4 : (k : Key) (q : ℕ) → held made.tree4 k ≡ some q → Linked4 made k q
    unfolding k4 k6
    linked4 k q e = elim (Bool-cases (k4 == k)) [
      | inl d ↦
          let here : held made.tree4 k ≡ some p = maps4 k ∙ rw d in
          let same : p ≡ q = some-injective p q (sym here ∙ e) in
          subst (λ z. Linked4 made k z) same
            (record {
              tunnel = t;
              there = new_pointer;
              key = (==_iff _ _).0 d;
              back = maps6 (key6 t.client) ∙ rw ((==_iff k6 k6).1 refl);
            })
      | inr d ↦
          let old : held s.tree4 k ≡ some q = sym (maps4 k ∙ rw d) ∙ e in
          let l = w.from4 k q old in
          let other : (k6 == key6 l.tunnel.client) ≡ false =
            eq_false (k6 == key6 l.tunnel.client) (λ f.
              let gone : held s.tree6 (key6 l.tunnel.client) ≡ none =
                subst (λ z. held s.tree6 z ≡ none) ((==_iff _ _).0 f) free6 in
              let there = l.back in cc) in
          record {
            tunnel = l.tunnel;
            there = old_pointer q l.tunnel l.there;
            key = l.key;
            back = maps6 (key6 l.tunnel.client) ∙ rw (other, l.back);
          }
    ]

    linked6 : (k : Key) (q : ℕ) → held made.tree6 k ≡ some q → Linked6 made k q
    unfolding k4 k6
    linked6 k q e = elim (Bool-cases (k6 == k)) [
      | inl d ↦
          let here : held made.tree6 k ≡ some p = maps6 k ∙ rw d in
          let same : p ≡ q = some-injective p q (sym here ∙ e) in
          subst (λ z. Linked6 made k z) same
            (record {
              tunnel = t;
              there = new_pointer;
              key = (==_iff _ _).0 d;
              back = maps4 k4 ∙ rw ((==_iff k4 k4).1 refl);
            })
      | inr d ↦
          let old : held s.tree6 k ≡ some q = sym (maps6 k ∙ rw d) ∙ e in
          let l = w.from6 k q old in
          let l4 = key4 l.tunnel.ext_ip l.tunnel.first_port in
          let other : (k4 == l4) ≡ false = eq_false (k4 == l4) (λ f.
            let gone : held s.tree4 l4 ≡ none =
              subst (λ z. held s.tree4 z ≡ none) ((==_iff _ _).0 f) free4 in
            let there = l.back in cc) in
          record {
            tunnel = l.tunnel;
            there = old_pointer q l.tunnel l.there;
            key = l.key;
            back = maps4 l4 ∙ rw (other, l.back);
          }
    ]

    -- In trees in step with room, a tunnel at a fresh pointer, for an address and port and a client
    -- that are free, is created: both keys lead to it, and the trees stay in step.
    pub alloc_addr-Created : Created s p t
    unfolding made k4 k6
    alloc_addr-Created = record {
      storage = made;
      runs = runs;
      paired = record { well4 = in4.well; well6 = in6.well; from4 = linked4; from6 = linked6 };
      memory = refl;
      maps4 = maps4;
      maps6 = maps6;
    }

  -- In trees in step with room, a tunnel at a fresh pointer, for a free address and port but a
  -- client that has a tunnel: success is returned, and the client's key stays with the old one.
  pub alloc_addr-shadowed :
      (q : ℕ)
      → held s.tree6 (key6 t.client) ≡ some q
      → (s' : Storage) × (alloc_addr s p t ≡ some (s', pos 1))
        × (lookup_tunnel_v4 s' t.ext_ip t.first_port ≡ some (some p))
        × (lookup_tunnel_v6 s' t.client ≡ some (some q))
  unfolding made k4 k6 lookup_tunnel_v4 lookup_tunnel_v6
  alloc_addr-shadowed q e = (
    made,
    runs,
    find-held in4.tree k4 in4.well ∙ ap some (maps4 k4 ∙ rw ((==_iff k4 k4).1 refl)),
    find-held in6.tree k6 in6.well ∙ ap some (maps6_over k6 ∙ rw ((==_iff k6 k6).1 refl, e)),
  )
