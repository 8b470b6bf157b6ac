-- ===== src/Cpe/Checksum.antt =====
-- TI/openwrt_cpe/src/helper.c: the Internet checksum, its update when one field changes, and the
-- hash of the session keys. A buffer of `unsigned short` is the list of its values.
pub mod Laws
use laft.Common.{
  Bool, List, [], bit_and, bit_xor, if◌then◌else◌, ltb, suc, zero, ℕ, ◌%◌, ◌*◌, ◌+◌, ◌-◌, ◌/◌, ◌==◌,
  ◌^◌, ◌∷◌,
}

-- The value that `~` leaves in an `unsigned short`.
abbrev pub complement : ℕ → ℕ
complement x = 65535 - x % 2 ^ 16

-- `cksum = (cksum >> 16) + (cksum & 0xffff)`, then `cksum += cksum >> 16`.
abbrev pub shuffle : ℕ → ℕ
shuffle cksum = let once = cksum / 2 ^ 16 + cksum % 2 ^ 16 in once + once / 2 ^ 16

-- `long` is one more than the greatest `unsigned long`, and `little` the byte order of the router.
module _ (long : ℕ) (little : Bool) where
  -- The byte at the address of a word.
  abbrev pub first_byte : ℕ → ℕ
  first_byte word = if little then word % 256 else word / 256

  -- The loop of `ip_checksum` with the odd byte behind it; `size` counts bytes. A buffer that is
  -- shorter than `size` is read no further than its end.
  unfoldable pub sum_words : List ℕ → ℕ → ℕ → ℕ
  sum_words [] size cksum = cksum
  sum_words (word ∷ buffer) zero cksum = cksum
  sum_words (word ∷ buffer) (suc zero) cksum = (cksum + first_byte word) % long
  sum_words (word ∷ buffer) (suc (suc size)) cksum = sum_words buffer size ((cksum + word) % long)

  unfoldable pub ip_checksum : List ℕ → ℕ → ℕ
  ip_checksum buffer size = complement (shuffle (sum_words buffer size 0))

unfoldable pub csum_incremental_update : ℕ → ℕ → ℕ → ℕ
csum_incremental_update old_csum old_field new_field =
    complement (shuffle (complement old_csum + complement old_field + new_field))

-- A `char` promoted to `unsigned int`.
abbrev pub promoted : ℕ → ℕ
promoted c = if ltb c 128 then c else c + 0xffff_ff00

-- The loop of `APHash` from index `i` on, on 32-bit words.
unfoldable pub hash_from : List ℕ → ℕ → ℕ → ℕ
hash_from [] i hash = hash
hash_from (c ∷ str) i hash =
    let even = bit_xor (bit_xor (hash * 2 ^ 7 % 2 ^ 32) (promoted c)) (hash / 2 ^ 3) in
    let odd = bit_xor (bit_xor (hash * 2 ^ 11 % 2 ^ 32) (promoted c)) (hash / 2 ^ 5) in
    hash_from str (i + 1) (bit_xor hash (if i % 2 == 0 then even else 0xffff_ffff - odd))

unfoldable pub ap_hash : List ℕ → ℕ
ap_hash str = bit_and (hash_from str 0 0) 0x7fff_ffff
