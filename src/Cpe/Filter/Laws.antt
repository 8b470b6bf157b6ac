-- ===== src/Cpe/Filter/Laws.antt =====
-- The two versions of `ipdst_filter` (TI/openwrt_cpe/src/tool.c) on the same packets.
use laft.Common.{
  Bool, arith, if◌then◌else◌, leb, negsuc, some, ℕ, ◌%◌, ◌&&◌, ◌*◌, ◌+◌, ◌/◌, ◌<◌, ◌==◌, ◌^◌, ◌||◌,
  ◌≡◌,
}
use laft.Cpe.Filter.{ipdst_filter_big, ipdst_filter_little, nf_accept}

-- An address by its bytes, in the order of the network.
pub record Address : Type 0 where
  pub a : ℕ
  pub b : ℕ
  pub c : ℕ
  pub d : ℕ
  pub a_byte : a < 256
  pub b_byte : b < 256
  pub c_byte : c < 256
  pub d_byte : d < 256

-- The word that a load gives on a machine of either byte order.
abbrev pub big : Address → ℕ
big x = x.a * 2 ^ 24 + x.b * 2 ^ 16 + x.c * 2 ^ 8 + x.d

abbrev pub little : Address → ℕ
little x = x.d * 2 ^ 24 + x.c * 2 ^ 16 + x.b * 2 ^ 8 + x.a

abbrev pub same_network : Address → Address → Bool
same_network src dst = src.a == dst.a && src.b == dst.b && src.c == dst.c

-- The first two bytes of an address.
abbrev pub in_block : ℕ → ℕ → Address → Bool
in_block p q x = x.a == p && x.b == q

-- 172.16.0.0 to 172.31.255.255.
abbrev pub in_172 : Address → Bool
in_172 x = x.a == 172 && leb 16 x.b && leb x.b 31

-- What the comments say is left alone: the same network, multicast, and the private networks.
abbrev pub is_local : Address → Address → Bool
is_local src dst =
    same_network src dst
    || leb 224 dst.a
    || in_block 192 168 dst
    || in_block 169 254 dst
    || dst.a == 10
    || in_172 dst

module _ (x : Address) where
  big-network : big x / 2 ^ 8 ≡ x.a * 2 ^ 16 + x.b * 2 ^ 8 + x.c
  big-network = omega arith

  big-first : big x / 2 ^ 24 ≡ x.a
  big-first = omega arith

  big-two : big x / 2 ^ 16 ≡ x.a * 2 ^ 8 + x.b
  big-two = omega arith

  little-network : little x * 2 ^ 8 % 2 ^ 32 ≡ x.c * 2 ^ 24 + x.b * 2 ^ 16 + x.a * 2 ^ 8
  little-network = omega arith

  little-first : little x * 2 ^ 24 % 2 ^ 32 ≡ x.a * 2 ^ 24
  little-first = omega arith

  little-two : little x * 2 ^ 16 % 2 ^ 32 ≡ x.b * 2 ^ 24 + x.a * 2 ^ 16
  little-two = omega arith

-- The tests of either version, as tests of the bytes.
module _ (a b : ℕ) (hb : b < 256) where
  big-pair : (p q : ℕ) → q < 256 → (a * 2 ^ 8 + b == p * 2 ^ 8 + q) ≡ (a == p && b == q)
  big-pair p q hq = ground arith

  big-range :
      (leb 0xac10 (a * 2 ^ 8 + b) && leb (a * 2 ^ 8 + b) 0xac1f)
      ≡ (a == 172 && leb 16 b && leb b 31)
  big-range = ground arith

  module _ (ha : a < 256) where
    little-pair :
        (p q : ℕ)
        → p < 256
        → (b * 2 ^ 24 + a * 2 ^ 16 == q * 2 ^ 24 + p * 2 ^ 16) ≡ (a == p && b == q)
    little-pair p q hp = ground arith

    little-range :
        (leb 0x10ac_0000 (b * 2 ^ 24 + a * 2 ^ 16) && leb (b * 2 ^ 24 + a * 2 ^ 16) 0x1fac_0000) ≡ (
          (a == 172 && leb 16 b && leb b 31)
          || (leb 17 b && leb b 30)
          || (b == 16 && leb 172 a)
          || (b == 31 && leb a 172))
    little-range = ground arith

little-top : (a n : ℕ) → leb (n * 2 ^ 24) (a * 2 ^ 24) ≡ leb n a
little-top a n = ground arith

little-one : (a n : ℕ) → (a * 2 ^ 24 == n * 2 ^ 24) ≡ (a == n)
little-one a n = ground arith

module _ (x y : Address) where
  big-same :
      (x.a * 2 ^ 16 + x.b * 2 ^ 8 + x.c == y.a * 2 ^ 16 + y.b * 2 ^ 8 + y.c)
      ≡ (x.a == y.a && x.b == y.b && x.c == y.c)
  big-same = ground arith

  little-same :
      (x.c * 2 ^ 24 + x.b * 2 ^ 16 + x.a * 2 ^ 8 == y.c * 2 ^ 24 + y.b * 2 ^ 16 + y.a * 2 ^ 8)
      ≡ (x.a == y.a && x.b == y.b && x.c == y.c)
  little-same = ground arith

one_test :
    (net top p q r s : Bool)
    → (if net
        then nf_accept
        else if top
        then nf_accept
        else if p || q || r || s
        then nf_accept
        else negsuc 0)
      ≡ (if net || top || p || q || r || s then nf_accept else negsuc 0)
one_test net top p q r s = ground arith

one_test_more :
    (net top p q r s t u v : Bool)
    → (if net
        then nf_accept
        else if top
        then nf_accept
        else if p || q || r || (s || t || u || v)
        then nf_accept
        else negsuc 0)
      ≡ (if (net || top || p || q || r || s) || t || u || v then nf_accept else negsuc 0)
one_test_more net top p q r s t u v = ground arith

-- The big-endian version leaves alone what its comments say, and nothing else.
pub ipdst_filter_big-is_local :
    (src dst : Address)
    → ipdst_filter_big (some (big src, big dst))
      ≡ (if is_local src dst then nf_accept else negsuc 0)
unfolding ipdst_filter_big
ipdst_filter_big-is_local src dst =
    rw
      (
        big-network src,
        big-network dst,
        big-first dst,
        big-two dst,
        big-same src dst,
        big-pair dst.a dst.b dst.b_byte 0xc0 0xa8 (omega arith),
        big-pair dst.a dst.b dst.b_byte 0xa9 0xfe (omega arith),
        big-range dst.a dst.b dst.b_byte,
      )
      (one_test (same_network src dst) (leb 224 dst.a) (in_block 192 168 dst) (in_block 169 254 dst)
        (dst.a == 10) (in_172 dst))

-- The little-endian version also leaves alone every address whose second byte is between 17 and
-- 30, those with second byte 16 and first byte from 172 on, and those with second byte 31 and first
-- byte up to 172.
pub ipdst_filter_little-is_local :
    (src dst : Address)
    → ipdst_filter_little (some (little src, little dst)) ≡ (
        if is_local src dst
          || (leb 17 dst.b && leb dst.b 30)
          || (dst.b == 16 && leb 172 dst.a)
          || (dst.b == 31 && leb dst.a 172)
        then nf_accept
        else negsuc 0)
unfolding ipdst_filter_little
ipdst_filter_little-is_local src dst =
    rw
      (
        little-network src,
        little-network dst,
        little-first dst,
        little-two dst,
        little-same src dst,
        little-top dst.a 224,
        little-pair dst.a dst.b dst.b_byte dst.a_byte 0xc0 0xa8 (omega arith),
        little-pair dst.a dst.b dst.b_byte dst.a_byte 0xa9 0xfe (omega arith),
        little-one dst.a 10,
        little-range dst.a dst.b dst.b_byte dst.a_byte,
      )
      (one_test_more (same_network src dst) (leb 224 dst.a) (in_block 192 168 dst)
        (in_block 169 254 dst) (dst.a == 10) (in_172 dst) (leb 17 dst.b && leb dst.b 30)
        (dst.b == 16 && leb 172 dst.a) (dst.b == 31 && leb dst.a 172))
