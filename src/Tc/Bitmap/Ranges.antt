-- ===== src/Tc/Bitmap/Ranges.antt =====
-- `portrange_test` and `portrange_set` of TC/user_module/src/portmap.c, by the bits they cover.
use laft.Common.{
  ==_iff, Bool, Bool-cases, List, arith, false, inl, inr, leb, ltb, ltb→lt, not, refl, suc, sym,
  true, zero, ℕ, ◌&&◌, ◌+◌, ◌<◌, ◌==◌, ◌^◌, ◌||◌, ◌↔◌, ◌∙◌, ◌≡◌, ◌≤◌, ◌⊎◌,
}
use laft.Tc.Bitmap.{bitmap_set, portrange_set, portrange_test, rounds_to, set_from, test_from}
use laft.Tc.Bitmap.Laws.{
  IsBitmap, bitmap_set-IsBitmap, bitmap_set_out, taken, taken-set_one, taken-set_zero,
}

-- The bits from `start` on, `count` of them.
abbrev pub within : ℕ → ℕ → ℕ → Bool
within start count bit = leb start bit && ltb bit (start + count)

pub bitmap_set-IsBitmap_any :
    (bitmap : List ℕ) (i value : ℕ) → IsBitmap bitmap → IsBitmap (bitmap_set bitmap i value).1
bitmap_set-IsBitmap_any bitmap i value valid = elim (Bool-cases (ltb i 64)) [
  | inl e ↦ bitmap_set-IsBitmap bitmap i value (ltb→lt i 64 e) valid
  | inr e ↦ rw (bitmap_set_out bitmap i value (ground arith)) valid
]

pub set_from-IsBitmap :
    (bitmap : List ℕ) (i rounds value : ℕ)
    → IsBitmap bitmap
    → IsBitmap (set_from bitmap i rounds value)
unfolding set_from
set_from-IsBitmap bitmap i zero value valid = valid
set_from-IsBitmap bitmap i (suc rounds) value valid =
    set_from-IsBitmap (bitmap_set bitmap i value).1 (i + 1) rounds value
      (bitmap_set-IsBitmap_any bitmap i value valid)

set_one_any :
    (bitmap : List ℕ) (i j : ℕ)
    → IsBitmap bitmap
    → j < 64
    → taken (bitmap_set bitmap i 1).1 j ≡ (i == j || taken bitmap j)
set_one_any bitmap i j valid hj = elim (Bool-cases (ltb i 64)) [
  | inl e ↦ taken-set_one bitmap valid i (ltb→lt i 64 e) j hj
  | inr e ↦ rw (bitmap_set_out bitmap i 1 (ground arith)) (ground arith)
]

set_zero_any :
    (bitmap : List ℕ) (i j : ℕ)
    → IsBitmap bitmap
    → j < 64
    → taken (bitmap_set bitmap i 0).1 j ≡ (not (i == j) && taken bitmap j)
set_zero_any bitmap i j valid hj = elim (Bool-cases (ltb i 64)) [
  | inl e ↦ taken-set_zero bitmap valid i (ltb→lt i 64 e) j hj
  | inr e ↦ rw (bitmap_set_out bitmap i 0 (ground arith)) (ground arith)
]

pub taken-set_from_one :
    (bitmap : List ℕ) (i rounds j : ℕ)
    → IsBitmap bitmap
    → j < 64
    → taken (set_from bitmap i rounds 1) j ≡ (within i rounds j || taken bitmap j)
unfolding set_from
taken-set_from_one bitmap i zero j valid hj = ground arith
taken-set_from_one bitmap i (suc rounds) j valid hj =
    rw
      (
        taken-set_from_one (bitmap_set bitmap i 1).1 (i + 1) rounds j
            (bitmap_set-IsBitmap_any bitmap i 1 valid) hj,
        set_one_any bitmap i j valid hj,
      )
      (ground arith)

pub taken-set_from_zero :
    (bitmap : List ℕ) (i rounds j : ℕ)
    → IsBitmap bitmap
    → j < 64
    → taken (set_from bitmap i rounds 0) j ≡ (not (within i rounds j) && taken bitmap j)
unfolding set_from
taken-set_from_zero bitmap i zero j valid hj = ground arith
taken-set_from_zero bitmap i (suc rounds) j valid hj =
    rw
      (
        taken-set_from_zero (bitmap_set bitmap i 0).1 (i + 1) rounds j
            (bitmap_set-IsBitmap_any bitmap i 0 valid) hj,
        set_zero_any bitmap i j valid hj,
      )
      (ground arith)

-- The test passes exactly if no bit of the range is taken.
pub test_from_free :
    (bitmap : List ℕ) (i rounds : ℕ)
    → test_from bitmap i rounds ≡ 1
    → (j : ℕ) → within i rounds j ≡ true
    → taken bitmap j ≡ false
unfolding test_from
test_from_free bitmap i zero h j w = absurd (ground arith)
test_from_free bitmap i (suc rounds) h j w = elim (Bool-cases (taken bitmap i)) [
  | inl e ↦ ground arith
  | inr e ↦ elim (Bool-cases (i == j)) [
    | inl s ↦ rw (← (==_iff i j).0 s) e
    | inr s ↦ test_from_free bitmap (i + 1) rounds (ground arith) j (ground arith)
  ]
]

pub free_test_from :
    (bitmap : List ℕ) (i rounds : ℕ)
    → ((j : ℕ) → within i rounds j ≡ true → taken bitmap j ≡ false)
    → test_from bitmap i rounds ≡ 1
unfolding test_from
free_test_from bitmap i zero h = refl
free_test_from bitmap i (suc rounds) h =
    rw (h i (ground arith)) (free_test_from bitmap (i + 1) rounds (λ j w. h j (ground arith)))

pub test_from_01 :
    (bitmap : List ℕ) (i rounds : ℕ)
    → (test_from bitmap i rounds ≡ 0) ⊎ (test_from bitmap i rounds ≡ 1)
unfolding test_from
test_from_01 bitmap i zero = inr refl
test_from_01 bitmap i (suc rounds) = ground (arith, test_from_01 bitmap (i + 1) rounds)

-- The bits from `start` to `end`.
abbrev pub covers : ℕ → ℕ → ℕ → Bool
covers start end bit = leb start bit && leb bit end

rounds_to-within :
    (start end j : ℕ)
    → start ≤ end
    → end < 2 ^ 31
    → within start (rounds_to start end) j ≡ covers start end j
rounds_to-within start end j h small = ground arith

-- `portrange_set` with value 1 hands out exactly the bits of the range, and with value 0 frees
-- exactly those; the bits past the map are ignored, and the map stays well formed.
pub portrange_set-taken :
    (bitmap : List ℕ) (start end : ℕ)
    → IsBitmap bitmap
    → start ≤ end
    → end < 2 ^ 31
    → ((j : ℕ)
        → j < 64
        → (taken (portrange_set bitmap start end 1) j ≡ (covers start end j || taken bitmap j))
          × (taken (portrange_set bitmap start end 0) j
              ≡ (not (covers start end j) && taken bitmap j)))
      × IsBitmap (portrange_set bitmap start end 1)
      × IsBitmap (portrange_set bitmap start end 0)
unfolding portrange_set
portrange_set-taken bitmap start end valid h small =
    let n = rounds_to start end in
    (
      λ j hj. (
        rw (← rounds_to-within start end j h small) (taken-set_from_one bitmap start n j valid hj),
        rw (← rounds_to-within start end j h small) (taken-set_from_zero bitmap start n j valid hj),
      ),
      set_from-IsBitmap bitmap start n 1 valid,
      set_from-IsBitmap bitmap start n 0 valid,
    )

-- `portrange_test` returns 1 exactly if no bit of the range is handed out, and 0 otherwise.
pub portrange_test_iff :
    (bitmap : List ℕ) (start end : ℕ)
    → start ≤ end
    → end < 2 ^ 31
    → ((portrange_test bitmap start end ≡ 1)
        ↔ ((j : ℕ) → covers start end j ≡ true → taken bitmap j ≡ false))
      × ((portrange_test bitmap start end ≡ 0) ⊎ (portrange_test bitmap start end ≡ 1))
unfolding portrange_test
portrange_test_iff bitmap start end h small =
    let n = rounds_to start end in
    (
      (
        λ t j c. test_from_free bitmap start n t j (rounds_to-within start end j h small ∙ c),
        λ free.
            free_test_from bitmap start n
              (λ j w. free j (sym (rounds_to-within start end j h small) ∙ w)),
      ),
      test_from_01 bitmap start n,
    )
