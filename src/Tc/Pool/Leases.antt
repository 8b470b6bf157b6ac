-- ===== src/Tc/Pool/Leases.antt =====
-- The calls of the pool of TC/user_module/src/addrpoolentity.c keep the leases of its clients apart.
use laft.Common.{
  ==_iff, All-erase_at, All-get, All-map, All-map₂, AllPairs-erase_at, AllPairs-get, Bool-cases,
  List, ap, arith, erase_at, false, get_elem?, inl, inr, some, subst, sym, true, ℕ, ◌&&◌, ◌+◌, ◌<◌,
  ◌==◌, ◌∙◌, ◌∷◌, ◌≡◌, ◌≢◌, ◌≤◌, ◌⊎◌,
}
use laft.Tc.Bitmap.Ranges.{within}
use laft.Tc.Pool.{
  PoolList, PoolNode, alloc_addr_port, dealloc_addr_port, failed, freed, got, node_at, refused,
}
use laft.Tc.Pool.Tries.{Grants, Keeps}
use laft.Tc.Pool.Alloc.{Delivered, IsPool, alloc_addr_port-Delivered}
use laft.Tc.Pool.Free.{Distinct, Frees, dealloc_addr_port-Frees, dealloc_last_bit}
use laft.Tc.Pool.Calls.{
  Apart, Apart-symm, Call, Calls, Holds, IsSound, Lease, World, bits_apart, deny, free_apart,
  give_back, grant, none_yet, ports_apart, then_call,
}
use laft.Tc.Pool.Scan.{When, within-lt}

module _ (range : ℕ) (some_range : 1 ≤ range) (short : range < 64) where
  Keeps-Distinct :
      {nodes nodes' : List PoolNode} → Keeps nodes nodes' → Distinct nodes → Distinct nodes'
  Keeps-Distinct k d p q hp hq e =
      d p q (rw (← k.same_length) hp) (rw (← k.same_length) hq)
        (sym (k.same_ip p) ∙ e ∙ k.same_ip q)

  Keeps-Holds :
      (l l' : PoolList) (a : Lease) → Keeps l.nodes l'.nodes → Holds range l a → Holds range l' a
  Keeps-Holds l l' a k h = record {
    slot = h.slot;
    bit = h.bit;
    slot_in = rw k.same_length h.slot_in;
    bits_in = h.bits_in;
    of_slot = h.of_slot ∙ sym (k.same_ip h.slot);
    starts = h.starts;
    held =
        λ j w. k.still_busy h.slot j h.slot_in (within-lt h.bit range j h.bits_in w) (h.held j w);
  }

  -- A range that was free is apart from every lease.
  grant-Apart :
      (l : PoolList) (nodes : List PoolNode) (start stop addr slot bit : ℕ) (a : Lease)
      → Distinct l.nodes
      → Grants range l.nodes nodes slot bit start stop addr
      → Holds range l a
      → Apart range (start, addr) a
  grant-Apart l nodes start stop addr slot bit a distinct g h = elim (Bool-cases (addr == a.1)) [
    | inr e ↦ inl (ground arith)
    | inl e ↦
        let same : slot ≡ h.slot =
          distinct slot h.slot g.slot_in h.slot_in
            (sym g.of_slot ∙ (==_iff addr a.1).0 e ∙ h.of_slot) in
        let bits =
          free_apart range bit h.bit (node_at l.nodes h.slot).bitmap some_range
            (λ j w. rw same at (g.was_free j w)) h.held in
        inr (
          rw (g.starts, h.starts) (ports_apart range bit h.bit some_range g.bits_in h.bits_in bits))
  ]

  grant-Holds :
      (l : PoolList) (l' : PoolList) (start stop addr slot bit : ℕ)
      → Keeps l.nodes l'.nodes
      → Grants range l.nodes l'.nodes slot bit start stop addr
      → Holds range l' (start, addr)
  grant-Holds l l' start stop addr slot bit k g = record {
    slot = slot;
    bit = bit;
    slot_in = rw k.same_length g.slot_in;
    bits_in = g.bits_in;
    of_slot = g.of_slot ∙ sym (k.same_ip slot);
    starts = g.starts;
    held = g.now_busy;
  }

  -- What is given back touches no lease that is apart from it.
  free_keeps_Holds :
      (l l' : PoolList) (a b : Lease) (h : Holds range l a)
      → Frees range h.slot h.bit l l'
      → Apart range a b
      → Holds range l b
      → Holds range l' b
  free_keeps_Holds l l' a b h f apart k = record {
    slot = k.slot;
    bit = k.bit;
    slot_in = rw f.same_length k.slot_in;
    bits_in = k.bits_in;
    of_slot = k.of_slot ∙ sym (f.same_ip k.slot);
    starts = k.starts;
    held = λ j w.
        rw (f.bits k.slot j k.slot_in (within-lt k.bit range j k.bits_in w), other j w)
          (k.held j w);
  }
    where
      bits_of :
          Apart range a b → h.slot ≡ k.slot → (h.bit + range ≤ k.bit) ⊎ (k.bit + range ≤ h.bit)
      bits_of (inl ne) e =
          absurd (ne (h.of_slot ∙ ap (λ q. (node_at l.nodes q).ip) e ∙ sym k.of_slot))
      bits_of (inr p) e =
          bits_apart range h.bit k.bit some_range h.bits_in k.bits_in (rw (h.starts, k.starts) at p)

      other :
          (j : ℕ) → within k.bit range j ≡ true → (h.slot == k.slot && within h.bit range j) ≡ false
      other j w = elim (Bool-cases (h.slot == k.slot)) [
        | inr e ↦ rw e
        | inl e ↦ let p = bits_of apart ((==_iff h.slot k.slot).0 e) in ground arith
      ]

  grant-IsSound :
      (w : World) (fuel start stop addr : ℕ) (pool : PoolList)
      → IsSound range w
      → alloc_addr_port fuel range w.pool ≡ some (got start stop addr pool)
      → IsSound range (record { pool = pool; leases = (start, addr) ∷ w.leases })
  grant-IsSound w fuel start stop addr pool s e =
      let (k, valid, cur, slot, bit, g) =
        subst (When (Delivered range w.pool)) e
          (alloc_addr_port-Delivered range some_range short fuel w.pool s.valid) in
      record {
        valid = valid;
        distinct = Keeps-Distinct k s.distinct;
        holds = (
          grant-Holds w.pool pool start stop addr slot bit k g,
          All-map w.leases (λ a h. Keeps-Holds w.pool pool a k h) s.holds,
        );
        apart = (
          All-map w.leases
              (λ a h. grant-Apart w.pool pool.nodes start stop addr slot bit a s.distinct g h)
              s.holds,
          s.apart,
        );
      }

  deny-IsSound :
      (w : World) (fuel : ℕ) (pool : PoolList)
      → IsSound range w
      → alloc_addr_port fuel range w.pool ≡ some (refused pool)
      → IsSound range (record w { pool = pool })
  deny-IsSound w fuel pool s e =
      let (k, valid, cur) =
        subst (When (Delivered range w.pool)) e
          (alloc_addr_port-Delivered range some_range short fuel w.pool s.valid) in
      record {
        valid = valid;
        distinct = Keeps-Distinct k s.distinct;
        holds = All-map w.leases (λ a h. Keeps-Holds w.pool pool a k h) s.holds;
        apart = s.apart;
      }

  failed-ne-freed : (l : PoolList) → failed ≢ freed l
  failed-ne-freed l e = cc

  freed-eq : (a b : PoolList) → freed a ≡ freed b → a ≡ b
  freed-eq a b e = cc

  -- A call that gives back a lease frees its bits, and those only.
  pub freed_lease :
      (l l' : PoolList) (a : Lease) (h : Holds range l a)
      → IsPool range l
      → Distinct l.nodes
      → dealloc_addr_port range a.0 a.1 l ≡ freed l'
      → Frees range h.slot h.bit l l'
  freed_lease l l' a h valid distinct e = elim (Bool-cases (h.bit == 63)) [
    | inl last ↦
        let lost : dealloc_addr_port range a.0 a.1 l ≡ failed =
          rw (h.starts, (==_iff h.bit 63).0 last) (dealloc_last_bit range a.1 l) in
        absurd (failed-ne-freed l' (sym lost ∙ e))
    | inr last ↦
        let (m, run, f) =
          dealloc_addr_port-Frees range h.slot h.bit l some_range h.bits_in valid h.slot_in
            (ground arith) distinct in
        subst (Frees range h.slot h.bit l) (freed-eq m l' (sym run ∙ rw (h.starts, h.of_slot) at e))
          f
  ]

  give_back-IsSound :
      (w : World) (i start addr : ℕ) (pool : PoolList)
      → IsSound range w
      → get_elem? w.leases i ≡ some (start, addr)
      → dealloc_addr_port range start addr w.pool ≡ freed pool
      → IsSound range (record { pool = pool; leases = erase_at w.leases i })
  give_back-IsSound w i start addr pool s held e =
      let h = All-get (Holds range w.pool) w.leases i (start, addr) held s.holds in
      let f = freed_lease w.pool pool (start, addr) h s.valid s.distinct e in
      let rest = erase_at w.leases i in
      let apart =
        AllPairs-get (Apart range) (Apart-symm range) w.leases i (start, addr) held s.apart in
      record {
        valid = f.valid;
        distinct = λ p q hp hq same.
            s.distinct p q (rw (← f.same_length) hp) (rw (← f.same_length) hq)
              (sym (f.same_ip p) ∙ same ∙ f.same_ip q);
        holds =
            All-map₂ rest (λ b p k. free_keeps_Holds w.pool pool (start, addr) b h f p k) apart
              (All-erase_at (Holds range w.pool) w.leases i s.holds);
        apart = AllPairs-erase_at (Apart range) w.leases i s.apart;
      }

  Call-IsSound : {w w' : World} → Call range w w' → IsSound range w → IsSound range w'
  Call-IsSound {w} (grant fuel start stop addr pool e e') s =
      subst (IsSound range) (sym e') (grant-IsSound w fuel start stop addr pool s e)
  Call-IsSound {w} (deny fuel pool e e') s =
      subst (IsSound range) (sym e') (deny-IsSound w fuel pool s e)
  Call-IsSound {w} (give_back i start addr pool held e e') s =
      subst (IsSound range) (sym e') (give_back-IsSound w i start addr pool s held e)

  -- Whatever calls are made, in whatever order: from a sound state, where the leases share no port
  -- and their bits are taken, only sound states are reached. So the pool never hands out a port of
  -- an address that a client still holds.
  pub Calls-IsSound : {w w' : World} → IsSound range w → Calls range w w' → IsSound range w'
  Calls-IsSound s none_yet = s
  Calls-IsSound s (then_call r c) = Call-IsSound c (Calls-IsSound s r)
