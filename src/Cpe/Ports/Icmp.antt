-- ===== src/Cpe/Ports/Icmp.antt =====
-- `get_icmp_port` of TI/openwrt_cpe/src/tool.c over many calls.
use laft.Common.{
  ==_iff, Bool-cases, arith, false, inl, inr, refl, suc, true, zero, ℕ, ◌<◌, ◌==◌, ◌≡◌, ◌≢◌, ◌≤◌,
}
use laft.Cpe.Ports.{IcmpPort, get_icmp_port}

-- The state after a number of calls with one range.
abbrev pub icmp_after : (low high n : ℕ) → IcmpPort → IcmpPort
icmp_after low high zero s = s
icmp_after low high (suc n) s = (get_icmp_port low high (icmp_after low high n s)).1

-- The call for the next identifier after a number of calls.
abbrev pub icmp_call : (low high n : ℕ) → IcmpPort → ℕ
icmp_call low high n s = (get_icmp_port low high (icmp_after low high n s)).0

-- As long as the range is the first one that there was, the state is in it.
record IsInRange (low high : ℕ) (s : IcmpPort) : Type 0 where
  same_range : s.last ≡ low
  above : low ≤ s.i
  below : s.i ≤ high

module _ (low high : ℕ) (some_low : 0 < low) (order : low ≤ high) (small : high < 65535) where
  first-IsInRange : (s : IcmpPort) → s.i ≡ 0 → IsInRange low high (get_icmp_port low high s).1
  unfolding get_icmp_port
  first-IsInRange s e =
      rw e (record { same_range = refl; above = omega arith; below = omega arith })

  step-IsInRange :
      (s : IcmpPort) → IsInRange low high s → IsInRange low high (get_icmp_port low high s).1
  unfolding get_icmp_port
  step-IsInRange s v =
      let started : (s.i == 0) ≡ false = ground (arith, v.above) in
      let same : (s.last == low) ≡ true = (==_iff _ _).1 v.same_range in
      rw (started, same)
        (record {
          same_range = v.same_range;
          above = ground (arith, v.above);
          below = ground (arith, v.below);
        })

  answer : (s : IcmpPort) → (get_icmp_port low high s).0 ≡ (get_icmp_port low high s).1.i
  unfolding get_icmp_port
  answer s = elim (Bool-cases (s.i == 0)) [
    | inl e ↦ rw e
    | inr e ↦ elim (Bool-cases (s.last == low)) [ inl f ↦ rw (e, f) | inr f ↦ rw (e, f) ]
  ]

  all-IsInRange :
      (n : ℕ) (s : IcmpPort) → s.i ≡ 0 → IsInRange low high (icmp_after low high (suc n) s)
  all-IsInRange zero s e = first-IsInRange s e
  all-IsInRange (suc n) s e = step-IsInRange (icmp_after low high (suc n) s) (all-IsInRange n s e)

  -- From the start, and with one range of ports above 0 and below 65535: every identifier is in the range.
  pub icmp_call-range :
      (n : ℕ) (s : IcmpPort)
      → s.i ≡ 0
      → (low ≤ icmp_call low high n s) × (icmp_call low high n s ≤ high)
  icmp_call-range n s e =
      let v = all-IsInRange n s e in rw (answer (icmp_after low high n s)) (v.above, v.below)

  changed_call :
      (s : IcmpPort)
      → (s.i ≢ 0) × (s.last ≢ low)
      → get_icmp_port low high s ≡ (low, record s { i = low })
  unfolding get_icmp_port
  changed_call s (started, changed) =
      let a : (s.i == 0) ≡ false = ground arith in
      let b : (s.last == low) ≡ false = ground arith in rw (a, b)

  still_changed :
      (n : ℕ) (s : IcmpPort)
      → (s.i ≢ 0) × (s.last ≢ low)
      → ((icmp_after low high n s).i ≢ 0) × ((icmp_after low high n s).last ≢ low)
  still_changed zero s h = h
  still_changed (suc n) s h =
      let before = still_changed n s h in
      rw (icmp_after, changed_call (icmp_after low high n s) before) ((λ e. omega arith), before.1)

  -- Once the range has changed, every call returns the same identifier, the first of the new range.
  pub icmp_call-same :
      (n : ℕ) (s : IcmpPort) → s.i ≢ 0 → s.last ≢ low → icmp_call low high n s ≡ low
  icmp_call-same n s started changed =
      rw (icmp_call, changed_call (icmp_after low high n s) (still_changed n s (started, changed)))
