-- ===== src/Tc/Bitmap.antt =====
-- TC/user_module/src/portmap.c: the bit map of port ranges that an address has handed out.
-- A `char bitmap[8]` is the list of its eight bytes, as bit patterns; the most significant bit of
-- a byte comes first. The callers pass bits that are not negative, so a bit is a number.
pub mod Laws
pub mod Ranges
use laft.Common.{
  Bool, List, [], bit_and, bit_or, false, get_or, if◌then◌else◌, leb, ltb, negsuc, pos, replicate,
  set, sign_extend, suc, true, zero, ℕ, ℤ, ◌++◌, ◌+◌, ◌-◌, ◌/◌, ◌==◌, ◌^◌, ◌∷◌,
}

-- `bitmaparray`, eight rows that are alike.
abbrev pub bitmap_row : List ℕ
bitmap_row = 0x80 ∷ 0x40 ∷ 0x20 ∷ 0x10 ∷ 0x08 ∷ 0x04 ∷ 0x02 ∷ 0x01 ∷ []

abbrev pub bitmaparray : List ℕ
bitmaparray =
    bitmap_row ++ bitmap_row ++ bitmap_row ++ bitmap_row ++ bitmap_row ++ bitmap_row ++ bitmap_row
    ++ bitmap_row

unfoldable pub mask : ℕ → ℕ
mask bit = get_or bitmaparray bit 0

-- What `memset` leaves.
abbrev pub fresh_map : List ℕ
fresh_map = replicate 8 0

-- `bitmap_empty`, the loop from index `i` with `rounds` bytes left.
bitmap_empty_from : List ℕ → ℕ → ℕ → Bool
bitmap_empty_from bitmap i zero = true
bitmap_empty_from bitmap i (suc rounds) =
    let rest = bitmap_empty_from bitmap (i + 1) rounds in
    if get_or bitmap i 0 == 0 then rest else false

unfoldable pub bitmap_empty : List ℕ → ℕ → Bool
unfolding bitmap_empty_from
bitmap_empty bitmap size = bitmap_empty_from bitmap 0 size

bitmap_full_from : List ℕ → ℕ → ℕ → Bool
bitmap_full_from bitmap i zero = true
bitmap_full_from bitmap i (suc rounds) =
    let rest = bitmap_full_from bitmap (i + 1) rounds in
    if get_or bitmap i 0 == 255 then rest else false

unfoldable pub bitmap_full : List ℕ → ℕ → Bool
unfolding bitmap_full_from
bitmap_full bitmap size = bitmap_full_from bitmap 0 size

-- The `int` that the two `char`s are promoted to, `-1` out of range.
unfoldable pub bitmap_get : List ℕ → ℕ → ℤ
bitmap_get bitmap bit =
    let n = bit / 8 in
    if leb 8 n then negsuc 0 else sign_extend (bit_and (get_or bitmap n 0) (mask bit))

-- The return value, and the bit map. `~` on a byte is its distance from 255.
unfoldable pub bitmap_set : List ℕ → ℕ → ℕ → ℤ × List ℕ
bitmap_set bitmap bit value =
    let n = bit / 8 in
    let old = get_or bitmap n 0 in
    if leb 8 n
    then (negsuc 0, bitmap)
    else if value == 1
    then (pos 0, set bitmap n (bit_or old (mask bit)))
    else if value == 0
    then (pos 0, set bitmap n (bit_and old (255 - mask bit)))
    else (pos 0, bitmap)

-- What `!= 0` asks of an `int`.
abbrev pub nonzero : ℤ → Bool
nonzero (pos n) = if n == 0 then false else true
nonzero (negsuc n) = true

-- The rounds of `for (i = start; i <= end; i++)`, where `end` is a 32-bit pattern read as an `int`.
abbrev pub rounds_to : ℕ → ℕ → ℕ
rounds_to start end = if ltb end (2 ^ 31) then end + 1 - start else 0

-- `portrange_test`: 1 if no bit of the range is taken.
unfoldable pub test_from : List ℕ → ℕ → ℕ → ℕ
test_from bitmap i zero = 1
test_from bitmap i (suc rounds) =
    let rest = test_from bitmap (i + 1) rounds in if nonzero (bitmap_get bitmap i) then 0 else rest

unfoldable pub portrange_test : List ℕ → ℕ → ℕ → ℕ
portrange_test bitmap start end = test_from bitmap start (rounds_to start end)

unfoldable pub set_from : List ℕ → ℕ → ℕ → ℕ → List ℕ
set_from bitmap i zero value = bitmap
set_from bitmap i (suc rounds) value = set_from (bitmap_set bitmap i value).1 (i + 1) rounds value

unfoldable pub portrange_set : List ℕ → ℕ → ℕ → ℕ → List ℕ
portrange_set bitmap start end value = set_from bitmap start (rounds_to start end) value
