-- ===== src/Cpe/Ports/Held.antt =====
-- The ports that the sessions of the router hold (TI/openwrt_cpe/src/tool.c): each is taken when a
-- session starts, and put back when it ends.
use mathlib.Core.Bool.{false≢true}
use mathlib.Core.Option.{some-injective}
use laft.Common.{
  All, All-erase_at, All-get, All-map, All-map₂, AllPairs, AllPairs-erase_at, AllPairs-get, List,
  Option, ap, arith, erase_at, false, get_elem?, ltb, negsuc, pos, some, subst, suc, sym, true, ℕ,
  ℤ, ◌+◌, ◌-◌, ◌<◌, ◌==◌, ◌∙◌, ◌∷◌, ◌≡◌, ◌≢◌, ◌≤◌,
}
use laft.Cpe.Ports.{PortTable, get_port, mark, reset_port, unmark}
use laft.Cpe.Ports.Bits.{taken, taken-mark, taken-unmark}
use laft.Cpe.Ports.Count.{IsCounted, mark-IsCounted, unmark-IsCounted}
use laft.Cpe.Ports.Get.{Gets, gave, get_port-Gets, refused}

-- The table, and the ports of the sessions.
pub record Sessions : Type 0 where
  pub table : PortTable
  pub held : List ℕ

pub data Step (fallen low high : ℕ) (s s' : Sessions) : Type 0 where
  start :
      (fuel port : ℕ) (table : PortTable)
      → high + 1 - low < fuel
      → get_port fallen fuel low high s.table ≡ some (pos port, table)
      → s' ≡ record { table = table; held = port ∷ s.held }
      → Step fallen low high s s'
  refuse :
      (fuel : ℕ) (table : PortTable)
      → high + 1 - low < fuel
      → get_port fallen fuel low high s.table ≡ some (negsuc 0, table)
      → s' ≡ record s { table = table }
      → Step fallen low high s s'
  finish :
      (k port : ℕ)
      → get_elem? s.held k ≡ some port
      → s' ≡ record { table = reset_port low port s.table; held = erase_at s.held k }
      → Step fallen low high s s'

pub data Steps (fallen low high : ℕ) (s : Sessions) : Sessions → Type 0 where
  no_step : Steps fallen low high s s
  then_step :
      {t u : Sessions}
      → Steps fallen low high s t
      → Step fallen low high t u
      → Steps fallen low high s u

abbrev magnitude : ℤ → ℕ
magnitude (pos n) = n
magnitude (negsuc n) = suc n

-- A port of the range whose bit is set.
pub record IsMarked (low high : ℕ) (table : List ℕ) (port : ℕ) : Type 0 where
  pub above : low ≤ port
  pub below : port ≤ high
  pub bit : taken table (port - low) ≡ true

-- Each session holds a port of the range that is marked, and no two hold the same.
pub record AreDistinct (low high : ℕ) (s : Sessions) : Type 0 where
  pub words : List ℕ
  pub counts : IsCounted (high + 1 - low) words s.table
  pub marked : All (IsMarked low high words) s.held
  pub distinct : AllPairs (λ p q. p ≢ q) s.held

module _ (low high : ℕ) (order : low ≤ high) (small : high < 65535) where
  start-AreDistinct :
      (s : Sessions) (d : AreDistinct low high s) (j : ℕ)
      → low ≤ j
      → j ≤ high
      → taken d.words (j - low) ≡ false
      → AreDistinct low high (record {
        table = record { ports = some (mark d.words (j - low)); used = s.table.used + 1 };
        held = j ∷ s.held;
      })
  start-AreDistinct s d j a b free =
      let c = d.counts in
      let now = taken-mark d.words (j - low) (omega (arith, c.wide)) in
      record {
        words = mark d.words (j - low);
        counts =
            mark-IsCounted (high + 1 - low) d.words s.table.used (j - low) (omega arith) c.wide
              c.counted free;
        marked = (
          record { above = a; below = b; bit = now (j - low) ∙ ground arith },
          All-map s.held
              (λ p h. record {
                above = h.above;
                below = h.below;
                bit = now (p - low) ∙ ground (arith, h.bit);
              })
              d.marked,
        );
        distinct = (
          All-map s.held
              (λ p h e. false≢true (sym free ∙ ap (λ q. taken d.words (q - low)) e ∙ h.bit))
              d.marked,
          d.distinct,
        );
      }

  finish-AreDistinct :
      (s : Sessions) (d : AreDistinct low high s) (k j : ℕ)
      → get_elem? s.held k ≡ some j
      → AreDistinct low high (record { table = reset_port low j s.table; held = erase_at s.held k })
  unfolding reset_port
  finish-AreDistinct s d k j e =
      let c = d.counts in
      let h = All-get (IsMarked low high d.words) s.held k j e d.marked in
      let gone = taken-unmark d.words (j - low) (omega (arith, c.wide, h.above, h.below)) in
      let (some_used, counts) =
        unmark-IsCounted (high + 1 - low) d.words s.table.used (j - low)
          (omega (arith, h.above, h.below)) c.wide c.counted h.bit in
      let rest = erase_at s.held k in
      let others = AllPairs-get (λ p q. p ≢ q) (λ a b ne e. ne (sym e)) s.held k j e d.distinct in
      let above : ltb j low ≡ false = ground (arith, h.above) in
      let positive : (s.table.used == 0) ≡ false = ground arith in
      rw (c.is_table, above, positive)
        (record {
          words = unmark d.words (j - low);
          counts = counts;
          marked =
              All-map₂ rest
                (λ p h' ne. record {
                  above = h'.above;
                  below = h'.below;
                  bit = gone (p - low) ∙ ground (arith, h'.bit, h'.above, h.above, ne);
                })
                (All-erase_at (IsMarked low high d.words) s.held k d.marked) others;
          distinct = AllPairs-erase_at (λ p q. p ≢ q) s.held k d.distinct;
        })

  -- The answer that `get_tcp_port` gave, by the two ways it may answer.
  start_of :
      (s : Sessions) (d : AreDistinct low high s) (r : Option (ℤ × PortTable)) (port : ℕ)
      (table : PortTable)
      → Gets low high d.words s.table r
      → r ≡ some (pos port, table)
      → AreDistinct low high (record { table = table; held = port ∷ s.held })
  start_of s d r port table (refused all e) e' = cc
  start_of s d r port table (gave j a b free e) e' =
      let same : (pos j, record { ports = some (mark d.words (j - low)); used = s.table.used + 1 })
          ≡ (pos port, table) =
        some-injective _ _ (sym e ∙ e') in
      subst (λ a. AreDistinct low high (record { table = a.1; held = magnitude a.0 ∷ s.held })) same
        (start-AreDistinct s d j a b free)

  refuse_of :
      (s : Sessions) (d : AreDistinct low high s) (r : Option (ℤ × PortTable)) (table : PortTable)
      → Gets low high d.words s.table r
      → r ≡ some (negsuc 0, table)
      → AreDistinct low high (record s { table = table })
  refuse_of s d r table (gave j a b free e) e' = cc
  refuse_of s d r table (refused all e) e' =
      let same : (negsuc 0, s.table) ≡ (negsuc 0, table) = some-injective _ _ (sym e ∙ e') in
      subst (λ a. AreDistinct low high (record s { table = a.1 })) same d

  module _ (fallen : ℕ) where
    Step-AreDistinct :
        {s s' : Sessions}
        → Step fallen low high s s'
        → AreDistinct low high s
        → AreDistinct low high s'
    Step-AreDistinct {s} (start fuel port table enough run e) d =
        subst (AreDistinct low high) (sym e) (
          start_of s d _ port table
            (get_port-Gets low high order small fallen fuel d.words s.table d.counts enough) run)
    Step-AreDistinct {s} (refuse fuel table enough run e) d = subst (AreDistinct low high) (sym e) (
        refuse_of s d _ table
          (get_port-Gets low high order small fallen fuel d.words s.table d.counts enough) run)
    Step-AreDistinct {s} (finish k port held e) d =
        subst (AreDistinct low high) (sym e) (finish-AreDistinct s d k port held)

    -- However sessions start and end, each ending once and with its own port: no two sessions hold
    -- the same port, each port is in the range and marked, and the counter stays right; for a
    -- range that ends before port 65535.
    pub Steps-AreDistinct :
        {s s' : Sessions}
        → AreDistinct low high s
        → Steps fallen low high s s'
        → AreDistinct low high s'
    Steps-AreDistinct d no_step = d
    Steps-AreDistinct d (then_step r c) = Step-AreDistinct c (Steps-AreDistinct d r)
