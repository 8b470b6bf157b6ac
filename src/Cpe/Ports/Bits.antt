-- ===== src/Cpe/Ports/Bits.antt =====
-- A table of TI/openwrt_cpe/src/tool.c as a predicate on ports, which are counted from LowPort.
use laft.Common.{
  ==_iff, Bool, Bool-cases, List, arith, bit_and, bit_and-power, bit_or, digit, digit-bit_and,
  digit-bit_or, digit-power, digit_lt, false, get_or, get_or-set, holds_for, holds_for_at,
  if◌then◌else◌, inl, inr, length, not, refl, some, true, ℕ, ◌%◌, ◌&&◌, ◌-◌, ◌/◌, ◌<◌, ◌==◌, ◌^◌,
  ◌||◌, ◌∙◌, ◌≡◌,
}
use laft.Cpe.Ports.{mark, test, unmark}

abbrev pub taken : List ℕ → ℕ → Bool
taken port p = digit (get_or port (p / 32) 0) (p % 32) == 1

pub mark_digit : (w k j : ℕ) → (digit (bit_or w (2 ^ k)) j == 1) ≡ (k == j || digit w j == 1)
mark_digit w k j = rw (digit-bit_or w (2 ^ k) j, digit-power k j) (ground (arith, digit_lt w j))

unmark_table :
    holds_for 32
      (λ k. holds_for 32 (λ j. digit (2 ^ 32 - 1 - 2 ^ k) j == (if k == j then 0 else 1)))
    ≡ true
unfolding holds_for digit
unmark_table = refl

pub unmark_digit :
    (w k j : ℕ)
    → k < 32
    → j < 32
    → (digit (bit_and w (2 ^ 32 - 1 - 2 ^ k)) j == 1) ≡ (not (k == j) && digit w j == 1)
unmark_digit w k j hk hj =
    let ones : digit (2 ^ 32 - 1 - 2 ^ k) j ≡ (if k == j then 0 else 1) =
      (==_iff _ _).0 (holds_for_at _ 32 (holds_for_at _ 32 unmark_table k hk) j hj) in
    rw (digit-bit_and w (2 ^ 32 - 1 - 2 ^ k) j, ones) (ground (arith, digit_lt w j))

pub test-taken :
    (fallen : ℕ) (port : List ℕ) (p : ℕ) → (test fallen (some port) p == 0) ≡ not (taken port p)
unfolding test
test-taken fallen port p =
    let w = get_or port (p / 32) 0 in bit_and-power w (p % 32) ∙ ground (arith, digit_lt w (p % 32))

same_word : (p q : ℕ) → p / 32 ≡ q / 32 → (p % 32 == q % 32) ≡ (p == q)
same_word p q e = ground arith

other_word : (p q : ℕ) → (p / 32 == q / 32) ≡ false → (p == q) ≡ false
other_word p q e = ground arith

-- Either write changes the one bit, in a table that has its word.
module _ (port : List ℕ) (p : ℕ) (inside : p / 32 < length port) where
  pub taken-mark : (q : ℕ) → taken (mark port p) q ≡ (p == q || taken port q)
  taken-mark q = elim (Bool-cases (p / 32 == q / 32)) [
    | inl e ↦
        let same : p / 32 ≡ q / 32 = (==_iff _ _).0 e in
        rw (
          get_or-set port (p / 32) (q / 32) (bit_or (get_or port (p / 32) 0) (2 ^ (p % 32))) 0
              inside,
          e,
          mark_digit (get_or port (p / 32) 0) (p % 32) (q % 32),
          same_word p q same,
          same,
        )
    | inr e ↦ rw (
      get_or-set port (p / 32) (q / 32) (bit_or (get_or port (p / 32) 0) (2 ^ (p % 32))) 0 inside,
      e,
      other_word p q e,
    )
  ]

  pub taken-unmark : (q : ℕ) → taken (unmark port p) q ≡ (not (p == q) && taken port q)
  taken-unmark q =
      let w = bit_and (get_or port (p / 32) 0) (2 ^ 32 - 1 - 2 ^ (p % 32)) in
      elim (Bool-cases (p / 32 == q / 32)) [
        | inl e ↦
            let same : p / 32 ≡ q / 32 = (==_iff _ _).0 e in
            rw (
              get_or-set port (p / 32) (q / 32) w 0 inside,
              e,
              unmark_digit (get_or port (p / 32) 0) (p % 32) (q % 32) (omega arith) (omega arith),
              same_word p q same,
              same,
            )
        | inr e ↦ rw (get_or-set port (p / 32) (q / 32) w 0 inside, e, other_word p q e)
      ]
