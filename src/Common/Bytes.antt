-- ===== src/Common/Bytes.antt =====
-- Bytes of C's signed `char`, and the check of a claim at every number below a bound.
use Prim.Native.Nat.{ℕ, zero, suc, ◌-◌, ◌<◌}
use mathlib.Core.Path.{◌≡◌, refl, sym}
use mathlib.Core.Logic.{inl, inr}
use mathlib.Core.List.{List, [], ◌∷◌}
use mathlib.Core.Bool.{Bool, true, false, ◌&&◌}
use native.Mathlib.Omega.{arith}
use laft.Common.Tests.{==_iff, Bool-cases, and→both, if◌then◌else◌, ltb, ◌==◌}

-- A C `int`: `negsuc n` is -(n + 1).
pub data ℤ : Type 0 where
  pos : ℕ → ℤ
  negsuc : ℕ → ℤ

-- The `int` that a signed `char` with this bit pattern is promoted to.
abbrev pub sign_extend : ℕ → ℤ
sign_extend b = if ltb b 128 then pos b else negsuc (255 - b)

-- The claim at every value below `count`, checked by evaluation.
unfoldable pub holds_for : (count : ℕ) → (claim : ℕ → Bool) → Bool
holds_for zero claim = true
holds_for (suc count) claim = claim count && holds_for count claim

pub holds_for_at :
    (claim : ℕ → Bool) (count : ℕ)
    → holds_for count claim ≡ true
    → (value : ℕ) → value < count
    → claim value ≡ true
unfolding holds_for
holds_for_at claim zero h value lt = absurd (omega arith)
holds_for_at claim (suc count) h value lt =
    let (here, below) = and→both (claim count) (holds_for count claim) h in
    elim (Bool-cases (value == count)) [
      | inl e ↦ rw ((==_iff value count).0 e) here
      | inr e ↦ holds_for_at claim count below value (ground arith)
    ]

abbrev pub beq : Bool → Bool → Bool
beq true b = b
beq false true = false
beq false false = true

pub beq→eq : (a b : Bool) → beq a b ≡ true → a ≡ b
beq→eq true b h = sym h
beq→eq false true h = cc
beq→eq false false h = refl

-- What `memcmp` finds equal.
abbrev pub same_bytes : List ℕ → List ℕ → Bool
same_bytes [] [] = true
same_bytes (x ∷ xs) (y ∷ ys) = x == y && same_bytes xs ys
same_bytes xs ys = false
