-- ===== src/Cpe/Ports/Get.antt =====
-- `get_tcp_port` and `reset_tcp_port` of TI/openwrt_cpe/src/tool.c on one table.
use mathlib.Core.Bool.{false≢true}
use laft.Common.{
  ==_iff, Bool-cases, List, Option, ap, arith, false, inl, inr, leb, ltb, negsuc, pos, refl, some,
  subst, suc, sym, true, zero, ℕ, ℤ, ◌%◌, ◌+◌, ◌-◌, ◌<◌, ◌==◌, ◌^◌, ◌∙◌, ◌≡◌, ◌≤◌,
}
use laft.Cpe.Ports.{PortTable, get_from, get_port, mark, offset, set_port}
use laft.Cpe.Ports.Bits.{taken, test-taken}
use laft.Cpe.Ports.Count.{IsCounted, count, count-all, count-full}

-- How the loop ends: at the first free port from `i` on, or behind `high` if there is none.
data Sought (port : List ℕ) (used low high i : ℕ) (r : Option (ℤ × PortTable)) : Type 0 where
  found :
      (j : ℕ)
      → i ≤ j
      → j ≤ high
      → taken port (j - low) ≡ false
      → r ≡ some (pos j, record { ports = some (mark port (j - low)); used = (used + 1) % 2 ^ 16 })
      → Sought port used low high i r
  missed :
      ((k : ℕ) → i ≤ k → k ≤ high → taken port (k - low) ≡ true)
      → r ≡ some (pos (high + 1), record { ports = some port; used = used })
      → Sought port used low high i r

module _ (fallen low high : ℕ) (small : high < 65535) (port : List ℕ) (used : ℕ) where
  Sought-before :
      (i : ℕ) (r : Option (ℤ × PortTable))
      → taken port (i - low) ≡ true
      → Sought port used low high (i + 1) r
      → Sought port used low high i r
  Sought-before i r here (found j a b free e) = found j (omega arith) b free e
  Sought-before i r here (missed all e) =
      missed
        (λ k a b. elim (Bool-cases (i == k)) [
          | inl f ↦ rw (← (==_iff i k).0 f) here
          | inr f ↦ all k (ground arith) b
        ])
        e

  get_from-Sought :
      (fuel i : ℕ)
      → low ≤ i
      → i ≤ high + 1
      → high + 1 < i + fuel
      → Sought port used low high i
          (get_from fallen fuel low high (record { ports = some port; used = used }) i)
  unfolding get_from set_port
  get_from-Sought zero i a b enough = absurd (omega arith)
  get_from-Sought (suc fuel) i a b enough = elim (Bool-cases (ltb high i)) [
    | inl e ↦
        let at_end : i ≡ high + 1 = ground arith in
        rw e (missed (λ k a b. absurd (ground arith)) (rw at_end))
    | inr e ↦
        let at : offset i low ≡ i - low = ground arith in
        let next : (i + 1) % 2 ^ 16 ≡ i + 1 = ground arith in
        rw (e, at, next, test-taken fallen port (i - low))
          (elim (Bool-cases (taken port (i - low))) [
            | inl f ↦ rw f (
                Sought-before i _ f
                  (get_from-Sought fuel (i + 1) (omega arith) (ground arith) (omega arith)))
            | inr f ↦ rw f (found i (omega arith) (ground arith) f refl)
          ])
  ]

-- What a call of `get_tcp_port` on a counted table may do: give a port of the range that was free,
-- and mark it and no other; or refuse, with every port of the range taken.
pub data Gets (low high : ℕ) (port : List ℕ) (t : PortTable) (r : Option (ℤ × PortTable))
    : Type 0 where
  gave :
      (j : ℕ)
      → low ≤ j
      → j ≤ high
      → taken port (j - low) ≡ false
      → r ≡ some (pos j, record { ports = some (mark port (j - low)); used = t.used + 1 })
      → Gets low high port t r
  refused :
      ((k : ℕ) → k < high + 1 - low → taken port k ≡ true)
      → r ≡ some (negsuc 0, t)
      → Gets low high port t r

module _ (low high : ℕ) (order : low ≤ high) (small : high < 65535) where
  Sought-Gets :
      (port : List ℕ) (t : PortTable) (c : IsCounted (high + 1 - low) port t)
      (r : Option (ℤ × PortTable))
      → t.used + low < high + 1
      → Sought port t.used low high low r
      → Gets low high port t r
  Sought-Gets port t c r less (found j a b free e) =
      let exact : (t.used + 1) % 2 ^ 16 ≡ t.used + 1 = omega arith in
      gave j a b free (rw exact at e)
  Sought-Gets port t c r less (missed all e) =
      let full : count (high + 1 - low) (taken port) ≡ high + 1 - low = count-all _ _ (λ k h.
        subst (λ x. taken port x ≡ true) (omega arith)
          (all (low + k) (omega arith) (omega arith))) in
      absurd (omega (arith, c.counted))

  -- A call of `get_tcp_port` on a table whose counter is right, for a range that ends before port
  -- 65535, returns: either a port of the range that was free, which it marks and counts, and no
  -- other; or -1, where every port of the range is taken and nothing changes.
  pub get_port-Gets :
      (fallen fuel : ℕ) (port : List ℕ) (t : PortTable) (c : IsCounted (high + 1 - low) port t)
      → high + 1 - low < fuel
      → Gets low high port t (get_port fallen fuel low high t)
  unfolding get_port
  get_port-Gets fallen fuel port t c enough = elim (Bool-cases (leb (high + 1) (t.used + low))) [
    | inl e ↦ rw e (refused (count-full _ _ (ground (arith, c.counted))) refl)
    | inr e ↦
        let eta : record { ports = some port; used = t.used } ≡ t =
          ap (λ ports. record t { ports = ports }) (sym c.is_table) in
        rw e (
          Sought-Gets port t c _ (ground arith) (
            subst (λ z. Sought port t.used low high low (get_from fallen fuel low high z low)) eta
              (get_from-Sought fallen low high small port t.used fuel low (omega arith)
                (omega arith) (omega arith))))
  ]

  Sought-missed :
      (port : List ℕ) (used : ℕ) (r : Option (ℤ × PortTable))
      → ((k : ℕ) → k < high + 1 - low → taken port k ≡ true)
      → Sought port used low high low r
      → r ≡ some (pos (high + 1), record { ports = some port; used = used })
  Sought-missed port used r all (found j a b free e) =
      absurd (false≢true (sym free ∙ all (j - low) (omega arith)))
  Sought-missed port used r all (missed every e) = e

  -- If all ports of the range are taken, but the counter says less, `get_tcp_port` returns the port
  -- behind the range, as if it were free.
  pub get_port-miscounted :
      (fallen fuel : ℕ) (port : List ℕ) (used : ℕ)
      → ((k : ℕ) → k < high + 1 - low → taken port k ≡ true)
      → used + low < high + 1
      → high + 1 - low < fuel
      → get_port fallen fuel low high (record { ports = some port; used = used })
        ≡ some (pos (high + 1), record { ports = some port; used = used })
  unfolding get_port
  get_port-miscounted fallen fuel port used all less enough =
      let more : leb (high + 1) (used + low) ≡ false = ground arith in
      rw more (
        Sought-missed port used _ all (
          get_from-Sought fallen low high small port used fuel low (omega arith) (omega arith)
            (omega arith)))
