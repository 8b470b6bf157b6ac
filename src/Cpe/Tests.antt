-- ===== src/Cpe/Tests.antt =====
-- The checksums of TI/openwrt_cpe/src/helper.c on a packet of three words and a byte, its hash on
-- two keys, and the filter of TI/openwrt_cpe/src/tool.c on four addresses.
use laft.Common.{
  List, [], arith, false, if◌then◌else◌, leb, negsuc, refl, some, ℕ, ◌&&◌, ◌++◌, ◌<◌, ◌==◌, ◌^◌,
  ◌||◌, ◌∷◌, ◌≡◌,
}
use laft.Cpe.Checksum.{ap_hash, csum_incremental_update, hash_from, ip_checksum, sum_words}
use laft.Cpe.Checksum.Laws.{csum_incremental_update-ip_checksum, ip_checksum-verifies}
use laft.Cpe.Filter.{ipdst_filter_little, nf_accept}
use laft.Cpe.Filter.Laws.{Address, ipdst_filter_little-is_local, is_local, little}

abbrev before : List ℕ
before = 0x4500 ∷ 0x1234 ∷ []

abbrev after : List ℕ
after = 0xfeed ∷ 0x7f00 ∷ []

checksum : ip_checksum (2 ^ 32) false (before ++ (0 ∷ after)) 9 ≡ 0xa95e
unfolding ip_checksum sum_words
checksum = refl

ip_checksum-verifies_example :
    ip_checksum
      (2 ^ 32)
      false
      (before ++ (ip_checksum (2 ^ 32) false (before ++ (0 ∷ after)) 9 ∷ after))
      9
    ≡ 0
ip_checksum-verifies_example =
    ip_checksum-verifies (2 ^ 32) false (omega arith) before after 9
      (omega arith, (omega arith, (omega arith, (omega arith, (omega arith, tt))))) (omega arith)
      (omega arith)

csum_incremental_update-ip_checksum_example :
    csum_incremental_update
      (ip_checksum (2 ^ 32) false (before ++ (0x0a01 ∷ after)) 9)
      0x0a01
      0xc0a8
    ≡ ip_checksum (2 ^ 32) false (before ++ (0xc0a8 ∷ after)) 9
csum_incremental_update-ip_checksum_example =
    csum_incremental_update-ip_checksum (2 ^ 32) false (omega arith) before after 0x0a01 0xc0a8 9
      (omega arith, (omega arith, (omega arith, (omega arith, (omega arith, tt))))) (omega arith)
      (omega arith) (omega arith) (omega arith)

one_byte_hash : ap_hash (0x61 ∷ []) ≡ 0x61
unfolding ap_hash hash_from
one_byte_hash = refl

abbrev address : (a b c d : ℕ) → a < 256 → b < 256 → c < 256 → d < 256 → Address
address a b c d ha hb hc hd = record {
  a = a;
  b = b;
  c = c;
  d = d;
  a_byte = ha;
  b_byte = hb;
  c_byte = hc;
  d_byte = hd;
}

abbrev host : Address
host = address 192 168 1 2 (omega arith) (omega arith) (omega arith) (omega arith)

-- A public address whose second byte is 24.
abbrev public : Address
public = address 8 24 3 4 (omega arith) (omega arith) (omega arith) (omega arith)

ipdst_filter_little-is_local_example : ipdst_filter_little (some (little host, little public)) ≡ (
    if is_local host public
      || (leb 17 public.b && leb public.b 30)
      || (public.b == 16 && leb 172 public.a)
      || (public.b == 31 && leb public.a 172)
    then nf_accept
    else negsuc 0)
ipdst_filter_little-is_local_example = ipdst_filter_little-is_local host public
