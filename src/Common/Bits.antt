-- ===== src/Common/Bits.antt =====
-- The binary digits of a number, and what the bitwise operations do to them.
use Prim.Native.Nat.{
  ℕ, zero, suc, ◌/◌, ◌%◌, ◌^◌, ◌≤◌, ◌<◌, min, max, bit_and, bit_or, digits, bit_and-bitwise,
  bit_or-bitwise,
}
use mathlib.Core.Path.{◌≡◌, refl, ap, ◌∙◌}
use native.Mathlib.Omega.{arith}
use mathlib.Core.Logic.{inl, inr}
use laft.Common.Tests.{==_iff, Bool-cases, eq_false, if◌then◌else◌, ◌==◌}

-- Digit `k`, lowest first.
unfoldable pub digit : ℕ → ℕ → ℕ
digit n zero = n % 2
digit n (suc k) = digit (n / 2) k

pub digit_lt : (n k : ℕ) → digit n k < 2
unfolding digit
digit_lt n zero = omega arith
digit_lt n (suc k) = digit_lt (n / 2) k

pub digit-zero : (k : ℕ) → digit 0 k ≡ 0
unfolding digit
digit-zero zero = refl
digit-zero (suc k) = digit-zero k

-- An operation that works digit by digit; `rest` is its result once the first number has run out.
module _ (rest : ℕ → ℕ) (on_digits : ℕ → ℕ → ℕ)
    (on_rest : (b k : ℕ) → digit (rest b) k ≡ on_digits 0 (digit b k))
    (closed : (x y : ℕ) → x < 2 → y < 2 → on_digits x y < 2) where
  digit-digits :
      (n a b k : ℕ)
      → a ≤ n
      → digit (digits rest on_digits n a b) k ≡ on_digits (digit a k) (digit b k)
  unfolding digit
  digit-digits zero zero b k h = rw (on_rest b k, digit-zero k)
  digit-digits zero (suc a) b k h = absurd (omega arith)
  digit-digits (suc n) zero b k h = rw (on_rest b k, digit-zero k)
  digit-digits (suc n) (suc a) b zero h =
      omega (arith, closed (suc a % 2) (b % 2) (omega arith) (omega arith))
  digit-digits (suc n) (suc a) b (suc k) h =
      ap (λ x. digit x k) (omega (arith, closed (suc a % 2) (b % 2) (omega arith) (omega arith)))
      ∙ digit-digits n (suc a / 2) (b / 2) k (omega arith)

pub digit-bit_or : (a b k : ℕ) → digit (bit_or a b) k ≡ max (digit a k) (digit b k)
digit-bit_or a b k =
    ap (λ x. digit x k) (bit_or-bitwise a b)
    ∙ digit-digits (λ b. b) max (λ b k. omega arith) (λ x y p q. omega arith) a a b k (omega arith)

pub digit-bit_and : (a b k : ℕ) → digit (bit_and a b) k ≡ min (digit a k) (digit b k)
digit-bit_and a b k =
    ap (λ x. digit x k) (bit_and-bitwise a b)
    ∙ digit-digits (λ b. 0) min (λ b k. omega (arith, digit-zero k)) (λ x y p q. omega arith) a a b
        k (omega arith)

pub digit-power : (k j : ℕ) → digit (2 ^ k) j ≡ (if k == j then 1 else 0)
unfolding digit
digit-power zero zero = refl
digit-power zero (suc j) = digit-zero j ∙ ground arith
digit-power (suc k) zero = ground arith
digit-power (suc k) (suc j) = ap (λ x. digit x j) (omega arith) ∙ digit-power k j ∙ ground arith

zero_digits : (n x : ℕ) → x ≤ n → ((k : ℕ) → digit x k ≡ 0) → x ≡ 0
unfolding digit
zero_digits zero x h all = omega arith
zero_digits (suc n) zero h all = refl
zero_digits (suc n) (suc x) h all =
    let half = zero_digits n (suc x / 2) (omega arith) (λ k. all (suc k)) in omega (arith, all 0)

digit-bit_and_power :
    (a k j : ℕ) → digit (bit_and a (2 ^ k)) j ≡ min (digit a j) (if k == j then 1 else 0)
digit-bit_and_power a k j = digit-bit_and a (2 ^ k) j ∙ ap (min (digit a j)) (digit-power k j)

-- What `x & (1 << k)` asks.
pub bit_and-power : (a k : ℕ) → (bit_and a (2 ^ k) == 0) ≡ (digit a k == 0)
bit_and-power a k = elim (Bool-cases (digit a k == 0)) [
  | inl e ↦
      let none_at : (j : ℕ) → min (digit a j) (if k == j then 1 else 0) ≡ 0 = λ j.
        elim (Bool-cases (k == j)) [
          | inl f ↦ rw (f, ← (==_iff k j).0 f) (omega (arith, (==_iff _ 0).0 e))
          | inr f ↦ rw f (omega arith)
        ] in
      let none : bit_and a (2 ^ k) ≡ 0 =
        zero_digits (bit_and a (2 ^ k)) (bit_and a (2 ^ k)) (omega arith)
          (λ j. digit-bit_and_power a k j ∙ none_at j) in
      rw (none, e)
  | inr e ↦
      let here : digit (bit_and a (2 ^ k)) k ≡ min (digit a k) 1 =
        digit-bit_and_power a k k
        ∙ ap (λ b. min (digit a k) (if b then 1 else 0)) ((==_iff k k).1 refl) in
      rw e (eq_false _ (λ z. ground (arith, here, digit-zero k, (==_iff _ 0).0 z)))
]
