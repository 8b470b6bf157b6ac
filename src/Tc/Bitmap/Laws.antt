-- ===== src/Tc/Bitmap/Laws.antt =====
-- The bit map of TC/user_module/src/portmap.c as a set of bits.
use Prim.Native.Nat.{bit_and-bitwise}
use laft.Common.{
  ==_iff, Bool, Bool-cases, List, and→both, arith, beq, beq→eq, bit_and, bit_or, false, get_or,
  get_or-replicate, get_or-set, holds_for, holds_for_at, inl, inr, leb, length, length-set, ltb,
  ltb→lt, negsuc, not, refl, set, sign_extend, true, ℕ, ◌%◌, ◌&&◌, ◌-◌, ◌/◌, ◌<◌, ◌==◌, ◌||◌, ◌∙◌,
  ◌≡◌, ◌≤◌,
}
use laft.Tc.Bitmap.{bitmap_get, bitmap_row, bitmap_set, fresh_map, mask, nonzero}

-- A bit map of the program: eight bytes.
pub record IsBitmap (bitmap : List ℕ) : Type 0 where
  pub width : length bitmap ≡ 8
  pub bytes : (n : ℕ) → get_or bitmap n 0 < 256

-- The abstract view: the bit is handed out.
abbrev pub taken : List ℕ → ℕ → Bool
taken bitmap bit = nonzero (bitmap_get bitmap bit)

row : ℕ → ℕ
row r = get_or bitmap_row r 0

mask_table : holds_for 64 (λ bit. mask bit == row (bit % 8)) ≡ true
unfolding holds_for mask row
mask_table = refl

mask-eq-row : (bit : ℕ) → bit < 64 → mask bit ≡ row (bit % 8)
mask-eq-row bit h = (==_iff _ _).0 (holds_for_at _ 64 mask_table bit h)

-- The effect of one write within a byte on every bit of that byte.
write_bit : ℕ → ℕ → ℕ → Bool
write_bit b r s =
    beq (nonzero (sign_extend (bit_and (bit_or b (row r)) (row s))))
      (r == s || nonzero (sign_extend (bit_and b (row s))))
    && beq (nonzero (sign_extend (bit_and (bit_and b (255 - row r)) (row s))))
        (not (r == s) && nonzero (sign_extend (bit_and b (row s))))
    && ltb (bit_or b (row r)) 256
    && ltb (bit_and b (255 - row r)) 256

write_table : holds_for 256 (λ b. holds_for 8 (λ r. holds_for 8 (write_bit b r))) ≡ true
unfolding holds_for write_bit row
write_table = refl

record Writes (b r s : ℕ) : Type 0 where
  on :
      nonzero (sign_extend (bit_and (bit_or b (row r)) (row s)))
      ≡ (r == s || nonzero (sign_extend (bit_and b (row s))))
  off :
      nonzero (sign_extend (bit_and (bit_and b (255 - row r)) (row s)))
      ≡ (not (r == s) && nonzero (sign_extend (bit_and b (row s))))
  on_byte : bit_or b (row r) < 256
  off_byte : bit_and b (255 - row r) < 256

write_byte : (b r s : ℕ) → b < 256 → r < 8 → s < 8 → Writes b r s
unfolding write_bit
write_byte b r s hb hr hs =
    let all : write_bit b r s ≡ true =
      holds_for_at _ 8 (holds_for_at _ 8 (holds_for_at _ 256 write_table b hb) r hr) s hs in
    let (abc, d) = and→both _ _ all in
    let (ab, c) = and→both _ _ abc in
    let (a, b) = and→both _ _ ab in
    record {
      on = beq→eq _ _ a;
      off = beq→eq _ _ b;
      on_byte = ltb→lt _ _ c;
      off_byte = ltb→lt _ _ d;
    }

-- A bit is its byte and its place in the byte.
same_bit : (i j : ℕ) → (i == j) ≡ (i / 8 == j / 8 && i % 8 == j % 8)
same_bit i j = ground arith

get-eq :
    (bitmap : List ℕ) (j : ℕ)
    → j < 64
    → bitmap_get bitmap j ≡ sign_extend (bit_and (get_or bitmap (j / 8) 0) (row (j % 8)))
unfolding bitmap_get
get-eq bitmap j h = rw (← mask-eq-row j h) (ground arith)

set_one-eq :
    (bitmap : List ℕ) (i : ℕ)
    → i < 64
    → (bitmap_set bitmap i 1).1
      ≡ set bitmap (i / 8) (bit_or (get_or bitmap (i / 8) 0) (row (i % 8)))
unfolding bitmap_set
set_one-eq bitmap i h = rw (← mask-eq-row i h) (ground arith)

set_zero-eq :
    (bitmap : List ℕ) (i : ℕ)
    → i < 64
    → (bitmap_set bitmap i 0).1
      ≡ set bitmap (i / 8) (bit_and (get_or bitmap (i / 8) 0) (255 - row (i % 8)))
unfolding bitmap_set
set_zero-eq bitmap i h = rw (← mask-eq-row i h) (ground arith)

module _ (bitmap : List ℕ) (valid : IsBitmap bitmap) (i : ℕ) (hi : i < 64) where
  wrote : (j : ℕ) → j < 64 → Writes (get_or bitmap (i / 8) 0) (i % 8) (j % 8)
  wrote j hj = write_byte _ _ _ (valid.bytes (i / 8)) (omega arith) (omega arith)

  -- Handing out a bit takes that bit and no other.
  pub taken-set_one :
      (j : ℕ) → j < 64 → taken (bitmap_set bitmap i 1).1 j ≡ (i == j || taken bitmap j)
  taken-set_one j hj =
      rw
        (
          set_one-eq bitmap i hi,
          get-eq _ j hj,
          get-eq bitmap j hj,
          get_or-set bitmap (i / 8) (j / 8) _ 0 (omega (arith, valid.width)),
          same_bit i j,
        )
        (elim (Bool-cases (i / 8 == j / 8)) [
          | inl e ↦ rw (e, ← (==_iff (i / 8) (j / 8)).0 e, (wrote j hj).on)
          | inr e ↦ rw e
        ])

  -- Giving back a bit frees that bit and no other.
  pub taken-set_zero :
      (j : ℕ) → j < 64 → taken (bitmap_set bitmap i 0).1 j ≡ (not (i == j) && taken bitmap j)
  taken-set_zero j hj =
      rw
        (
          set_zero-eq bitmap i hi,
          get-eq _ j hj,
          get-eq bitmap j hj,
          get_or-set bitmap (i / 8) (j / 8) _ 0 (omega (arith, valid.width)),
          same_bit i j,
        )
        (elim (Bool-cases (i / 8 == j / 8)) [
          | inl e ↦ rw (e, ← (==_iff (i / 8) (j / 8)).0 e, (wrote j hj).off)
          | inr e ↦ rw e
        ])

set-IsBitmap :
    (bitmap : List ℕ) (n v : ℕ) → n < 8 → v < 256 → IsBitmap bitmap → IsBitmap (set bitmap n v)
set-IsBitmap bitmap n v hn hv valid = record {
  width = length-set bitmap n v ∙ valid.width;
  bytes = λ k.
      rw (get_or-set bitmap n k v 0 (omega (arith, valid.width))) (ground (arith, valid.bytes k));
}

-- A call with any value keeps the map well formed.
pub bitmap_set-IsBitmap :
    (bitmap : List ℕ) (i value : ℕ)
    → i < 64
    → IsBitmap bitmap
    → IsBitmap (bitmap_set bitmap i value).1
unfolding bitmap_set
bitmap_set-IsBitmap bitmap i value hi valid =
    let n = i / 8 in
    let w = write_byte (get_or bitmap n 0) (i % 8) 0 (valid.bytes n) (omega arith) (omega arith) in
    let in_range : leb 8 n ≡ false = ground arith in
    let on =
      set-IsBitmap bitmap n (bit_or (get_or bitmap n 0) (row (i % 8))) (omega arith) w.on_byte
        valid in
    let off =
      set-IsBitmap bitmap n (bit_and (get_or bitmap n 0) (255 - row (i % 8))) (omega arith)
        w.off_byte valid in
    rw (in_range, mask-eq-row i hi)
      (elim (Bool-cases (value == 1)) [
        | inl e ↦ rw e on
        | inr e ↦ rw e (elim (Bool-cases (value == 0)) [ inl z ↦ rw z off | inr z ↦ rw z valid ])
      ])

pub fresh_map-IsBitmap : IsBitmap fresh_map
fresh_map-IsBitmap = record {
  width = refl;
  bytes = λ n. rw (get_or-replicate {A = ℕ} 8 n 0) (omega arith);
}

zero-bit_and : (b : ℕ) → bit_and 0 b ≡ 0
zero-bit_and b = bit_and-bitwise 0 b

-- A bit map of zeros has no bit taken.
pub taken-fresh_map : (j : ℕ) → j < 64 → taken fresh_map j ≡ false
taken-fresh_map j h =
    rw (get-eq fresh_map j h, get_or-replicate {A = ℕ} 8 (j / 8) 0, zero-bit_and (row (j % 8)))

-- Out of range `bitmap_set` changes nothing.
pub bitmap_set_out :
    (bitmap : List ℕ) (i value : ℕ) → 64 ≤ i → bitmap_set bitmap i value ≡ (negsuc 0, bitmap)
unfolding bitmap_set
bitmap_set_out bitmap i value h = let e : leb 8 (i / 8) ≡ true = ground arith in rw e
