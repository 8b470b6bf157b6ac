-- ===== src/Cpe/Filter.antt =====
-- TI/openwrt_cpe/src/tool.c: `ipdst_filter`, which says which packets of the local network are left
-- alone. It is written twice, for the two byte orders; addresses are the 32-bit words as loaded.
pub mod Laws
use laft.Common.{
  Option, if◌then◌else◌, leb, negsuc, none, pos, some, ℕ, ℤ, ◌%◌, ◌&&◌, ◌*◌, ◌/◌, ◌==◌, ◌^◌, ◌||◌,
}

-- `NF_ACCEPT` of the kernel's headers.
abbrev pub nf_accept : ℤ
nf_accept = pos 1

-- The header of the packet, if it has one.
abbrev pub Header : Type 0
Header = Option (ℕ × ℕ)

-- The body of the big-endian function, from the addresses on.
abbrev pub filter_big : ℕ → ℕ → ℤ
filter_big saddr daddr =
    let dstaddr = daddr / 2 ^ 24 in
    let addr2 = daddr / 2 ^ 16 in
    if saddr / 2 ^ 8 == daddr / 2 ^ 8
    then nf_accept
    else if leb 0xe0 dstaddr
    then nf_accept
    else if addr2 == 0xc0a8
        || addr2 == 0xa9fe
        || dstaddr == 0x0a
        || (leb 0xac10 addr2 && leb addr2 0xac1f)
    then nf_accept
    else negsuc 0

abbrev pub filter_little : ℕ → ℕ → ℤ
filter_little saddr daddr =
    let dstaddr = daddr * 2 ^ 24 % 2 ^ 32 in
    let addr2 = daddr * 2 ^ 16 % 2 ^ 32 in
    if saddr * 2 ^ 8 % 2 ^ 32 == daddr * 2 ^ 8 % 2 ^ 32
    then nf_accept
    else if leb 0xe000_0000 dstaddr
    then nf_accept
    else if addr2 == 0xa8c0_0000
        || addr2 == 0xfea9_0000
        || dstaddr == 0x0a00_0000
        || (leb 0x10ac_0000 addr2 && leb addr2 0x1fac_0000)
    then nf_accept
    else negsuc 0

unfoldable pub ipdst_filter_big : Header → ℤ
ipdst_filter_big none = nf_accept
ipdst_filter_big (some (saddr, daddr)) = filter_big saddr daddr

unfoldable pub ipdst_filter_little : Header → ℤ
ipdst_filter_little none = nf_accept
ipdst_filter_little (some (saddr, daddr)) = filter_little saddr daddr
