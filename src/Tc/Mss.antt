-- ===== src/Tc/Mss.antt =====
-- The segment size that a TCP connection announces, of TC/kernel_module/src/packet.c. A packet is the
-- list of the bytes from its IPv4 header on; what is behind them reads as 0.
pub mod Words
pub mod Scan
pub mod Options
pub mod Search
pub mod Clamp
mod Tests
use laft.Common.{
  List, Option, get_or, if◌then◌else◌, leb, ltb, none, not, set, some, suc, zero, ℕ, ◌%◌, ◌&&◌, ◌*◌,
  ◌+◌, ◌-◌, ◌/◌, ◌==◌, ◌||◌,
}

-- Two bytes in network order.
abbrev pub word_at : List ℕ → ℕ → ℕ
word_at buf i = get_or buf i 0 * 256 + get_or buf (suc i) 0

abbrev pub put_word : List ℕ → ℕ → ℕ → List ℕ
put_word buf i w = set (set buf i (w / 256)) (suc i) (w % 256)

-- The checksum for a size `newmss` in place of `m`; `^ 0xffff` of 16 bits is the rest to 65535.
unfoldable pub new_sum : (sum m newmss : ℕ) → ℕ
new_sum sum m newmss =
    let all = 65535 - sum + (65535 - (m / 65536 + m % 65536)) + newmss in
    let folded = all / 65536 + all % 65536 in 65535 - (folded + folded / 65536) % 65536

-- `fix_msscksum`, with the places of the checksum and of the size.
unfoldable pub fix_msscksum : List ℕ → ℕ → ℕ → ℕ → List ℕ
fix_msscksum buf psum pmss newmss =
    put_word (put_word buf pmss newmss) psum (new_sum (word_at buf psum) (word_at buf pmss) newmss)

-- The loop over the options: `some none` is a return, `none` that the fuel is used up.
unfoldable pub scan : ℕ → List ℕ → ℕ → ℕ → ℕ → Option (Option ℕ)
scan zero buf len i found = none
scan (suc fuel) buf len i found =
    let kind = get_or buf i 0 in
    let size = get_or buf (i + 1) 0 in
    let skip = scan fuel buf len (i + 1) found in
    let next = scan fuel buf len (i + size) (if (kind == 2) && (found == 0) then i else found) in
    if leb len i || (kind == 0)
    then some (some found)
    else if kind == 1
    then skip
    else if ltb len (i + 2) || ltb size 2 || ltb len (i + size) || (kind == 19)
    then some none
    else next

abbrev pub ip_header : ℕ
ip_header = 20

-- The place of the option, after all guards of `patch_tcpmss` but the last; 0 if there is none.
unfoldable pub mss_option : List ℕ → ℕ → Option (Option ℕ)
mss_option buf len =
    let hl = get_or buf 32 0 / 16 * 4 in
    if (get_or buf 9 0 == 6)
      && (get_or buf 33 0 / 2 % 2 == 1)
      && (hl + ip_header == len)
      && ltb 20 hl
    then scan len buf len (ip_header + 20) 0
    else some none

-- `patch_tcpmss`
unfoldable pub patch_tcpmss : ℕ → List ℕ → ℕ → Option (List ℕ)
patch_tcpmss mtu buf len = elim (mss_option buf len) [
  | none ↦ none
  | some none ↦ some buf
  | some (some i) ↦ some (
      if (i == 0) || not (get_or buf (i + 1) 0 == 4) || leb (word_at buf (i + 2) + 80) mtu
      then buf
      else fix_msscksum buf 36 (i + 2) ((mtu + 65536 - 80) % 65536))
]
