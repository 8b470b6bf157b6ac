-- ===== src/Tc/Bplus/Keys.antt =====
-- The comparison of keys of TC/kernel_module/src/bplus.c. A key is its bytes.
use Prim.Native.Nat.{Ordering, compare}
use laft.Common.{
  ==_iff, All, Bool-cases, List, Option, [], ap, arith, if◌then◌else◌, inl, inr, length, ltb,
  ltb→lt, none, some, sym, ℕ, ◌*◌, ◌+◌, ◌<◌, ◌==◌, ◌∙◌, ◌∷◌, ◌≡◌,
}

-- The sign of `memcmp` over the length of the first key; `none` is a read beyond the second one.
unfoldable pub bpcmp : List ℕ → List ℕ → Option Ordering
bpcmp [] ys = some Ordering.eq
bpcmp (x ∷ xs) [] = none
bpcmp (x ∷ xs) (y ∷ ys) = let rest = bpcmp xs ys in if x == y then rest else some (compare x y)

-- The number that the bytes of a key spell, after those that spell `n`.
abbrev pub spelled : ℕ → List ℕ → ℕ
spelled n [] = n
spelled n (x ∷ xs) = spelled (n * 256 + x) xs

abbrev pub AreBytes : List ℕ → Type 0
AreBytes = All (λ b. b < 256)

lt-spelled :
    (n m : ℕ) (xs ys : List ℕ)
    → length xs ≡ length ys
    → AreBytes xs
    → AreBytes ys
    → n < m
    → spelled n xs < spelled m ys
lt-spelled n m [] [] l a b h = h
lt-spelled n m [] (y ∷ ys) l a b h = absurd (omega arith)
lt-spelled n m (x ∷ xs) [] l a b h = absurd (omega arith)
lt-spelled n m (x ∷ xs) (y ∷ ys) l a b h =
    lt-spelled (n * 256 + x) (m * 256 + y) xs ys (omega arith) a.1 b.1 (omega (arith, a.0, b.0, h))

compare_lt : (a b : ℕ) → a < b → compare a b ≡ Ordering.lt
compare_lt a b h = ground arith

compare_gt : (a b : ℕ) → b < a → compare a b ≡ Ordering.gt
compare_gt a b h = ground arith

compare_self : (a : ℕ) → compare a a ≡ Ordering.eq
compare_self a = ground arith

-- Keys of the same length, of bytes, are ordered as the numbers that they spell, after any common
-- leading number.
pub bpcmp-compare :
    (n : ℕ) (xs ys : List ℕ)
    → length xs ≡ length ys
    → AreBytes xs
    → AreBytes ys
    → bpcmp xs ys ≡ some (compare (spelled n xs) (spelled n ys))
unfolding bpcmp
bpcmp-compare n [] [] l a b = ap some (sym (compare_self n))
bpcmp-compare n [] (y ∷ ys) l a b = absurd (omega arith)
bpcmp-compare n (x ∷ xs) [] l a b = absurd (omega arith)
bpcmp-compare n (x ∷ xs) (y ∷ ys) l a b = elim (Bool-cases (x == y)) [
  | inl e ↦
      let same = (==_iff _ _).0 e in
      rw e (
        bpcmp-compare (n * 256 + x) xs ys (omega arith) a.1 b.1
        ∙ ap (λ z. some (compare (spelled (n * 256 + x) xs) (spelled (n * 256 + z) ys))) same)
  | inr e ↦ elim (Bool-cases (ltb x y)) [
    | inl f ↦
        let h = ltb→lt _ _ f in
        let big =
          lt-spelled (n * 256 + x) (n * 256 + y) xs ys (omega arith) a.1 b.1 (omega (arith, h)) in
        rw (e, compare_lt x y h, compare_lt _ _ big)
    | inr f ↦
        let h : y < x = ground arith in
        let big =
          lt-spelled (n * 256 + y) (n * 256 + x) ys xs (omega arith) b.1 a.1 (omega (arith, h)) in
        rw (e, compare_gt x y h, compare_gt _ _ big)
  ]
]
