-- ===== src/Cpe/Ports/Count.antt =====
-- The counter of a table of ports (TI/openwrt_cpe/src/tool.c) against the bits of the table.
use laft.Common.{
  ==_iff, Bool, Bool-cases, List, arith, false, if◌then◌else◌, inl, inr, length, length-set, not,
  refl, some, suc, true, zero, ℕ, ◌&&◌, ◌*◌, ◌+◌, ◌-◌, ◌/◌, ◌<◌, ◌==◌, ◌||◌, ◌∙◌, ◌≡◌, ◌≤◌,
}
use laft.Cpe.Ports.{PortTable, mark, unmark}
use laft.Cpe.Ports.Bits.{taken, taken-mark, taken-unmark}

-- How many numbers below a bound satisfy a test.
abbrev pub count : ℕ → (ℕ → Bool) → ℕ
count zero f = 0
count (suc n) f = count n f + (if f n then 1 else 0)

count-le : (n : ℕ) (f : ℕ → Bool) → count n f ≤ n
count-le zero f = omega arith
count-le (suc n) f = ground (arith, count-le n f)

count-same : (n : ℕ) (f g : ℕ → Bool) → ((q : ℕ) → q < n → g q ≡ f q) → count n g ≡ count n f
count-same zero f g same = refl
count-same (suc n) f g same =
    rw (count-same n f g (λ q h. same q (omega arith)), same n (omega arith))

-- One more, and one fewer.
pub count-add :
    (n : ℕ) (f g : ℕ → Bool) (p : ℕ)
    → p < n
    → f p ≡ false
    → ((q : ℕ) → g q ≡ (p == q || f q))
    → count n g ≡ count n f + 1
count-add zero f g p h free new = absurd (omega arith)
count-add (suc n) f g p h free new = elim (Bool-cases (p == n)) [
  | inl e ↦
      let same : count n g ≡ count n f =
        count-same n f g (λ q hq. new q ∙ ground (arith, (==_iff p n).0 e)) in
      let here : g n ≡ true = new n ∙ rw e in
      let was : f n ≡ false = rw (← (==_iff p n).0 e) free in rw (same, here, was) (omega arith)
  | inr e ↦
      let here : g n ≡ f n = new n ∙ rw e in
      rw here (omega (arith, count-add n f g p (ground arith) free new))
]

pub count-all : (n : ℕ) (f : ℕ → Bool) → ((q : ℕ) → q < n → f q ≡ true) → count n f ≡ n
count-all zero f all = refl
count-all (suc n) f all =
    let last = all n (omega arith) in
    rw last (omega (arith, count-all n f (λ q h. all q (omega arith))))

pub count-full : (n : ℕ) (f : ℕ → Bool) → n ≤ count n f → (q : ℕ) → q < n → f q ≡ true
count-full zero f full q h = absurd (omega arith)
count-full (suc n) f full q h = elim (Bool-cases (f n)) [
  | inr e ↦ absurd (ground (arith, count-le n f))
  | inl e ↦ elim (Bool-cases (q == n)) [
    | inl s ↦ rw ((==_iff q n).0 s) e
    | inr s ↦ count-full n f (ground arith) q (ground arith)
  ]
]

-- The table has a word for each of its `n` ports, and the counter says how many are taken.
pub record IsCounted (n : ℕ) (table : List ℕ) (t : PortTable) : Type 0 where
  pub is_table : t.ports ≡ some table
  pub wide : n ≤ 32 * length table
  pub counted : t.used ≡ count n (taken table)

pub mark-IsCounted :
    (n : ℕ) (table : List ℕ) (used p : ℕ)
    → p < n
    → n ≤ 32 * length table
    → used ≡ count n (taken table)
    → taken table p ≡ false
    → IsCounted n (mark table p) (record { ports = some (mark table p); used = used + 1 })
mark-IsCounted n table used p h wide counted free = record {
  is_table = refl;
  wide = rw length-set wide;
  counted = omega (
    arith,
    count-add n (taken table) (taken (mark table p)) p h free
        (λ q. taken-mark table p (omega arith) q),
  );
}

pub unmark-IsCounted :
    (n : ℕ) (table : List ℕ) (used p : ℕ)
    → p < n
    → n ≤ 32 * length table
    → used ≡ count n (taken table)
    → taken table p ≡ true
    → (0 < used)
      × IsCounted n (unmark table p) (record { ports = some (unmark table p); used = used - 1 })
unmark-IsCounted n table used p h wide counted held =
    let inside : p / 32 < length table = omega arith in
    let gone : (q : ℕ) → taken (unmark table p) q ≡ (not (p == q) && taken table q) =
      taken-unmark table p inside in
    let back : (q : ℕ) → taken table q ≡ (p == q || taken (unmark table p) q) = λ q.
      elim (Bool-cases (p == q)) [
        | inl e ↦ rw (e, ← (==_iff p q).0 e) held
        | inr e ↦ rw (gone q, e)
      ] in
    let one : count n (taken table) ≡ count n (taken (unmark table p)) + 1 =
      count-add n (taken (unmark table p)) (taken table) p h (gone p ∙ ground arith) back in
    (omega arith, record { is_table = refl; wide = rw length-set wide; counted = omega arith })
