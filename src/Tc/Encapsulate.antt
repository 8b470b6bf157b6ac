-- ===== src/Tc/Encapsulate.antt =====
-- Packets that are longer than the MTU, of TC/kernel_module/src/packet.c and
-- TC/kernel_module/src/defrag6.c: the sizes of the fragments, and what stands in their headers.
-- `none` is a division by 0.
pub mod Balance
pub mod Covers
pub mod Packets
mod Tests
use mathlib.Core.Option
use laft.Common.{
  Bool, List, Option, [], bit_or, drop, if◌then◌else◌, length, ltb, map, none, some, suc, take,
  zero, ℕ, ◌%◌, ◌*◌, ◌+◌, ◌-◌, ◌/◌, ◌==◌, ◌^◌, ◌∷◌,
}

abbrev pub word : ℕ
word = 2 ^ 32

-- unsigned a - b
abbrev pub sub32 : ℕ → ℕ → ℕ
sub32 a b = (a + word - b % word) % word

-- `& ~7`, and `+ 7` before it.
abbrev pub down8 : ℕ → ℕ
down8 x = x / 8 * 8

abbrev pub up8 : ℕ → ℕ
up8 x = down8 ((x + 7) % word)

-- The sizes of the first fragment (flen0) and of the others but the last (fleno).
pub record Sizes : Type 0 where
  pub first : ℕ
  pub other : ℕ

abbrev pub larger_first : ℕ → ℕ → Sizes
larger_first flen0 fleno = record {
  first = if ltb flen0 fleno then fleno else flen0;
  other = fleno;
}

abbrev pub remainder_size : ℕ → ℕ → ℕ → ℕ
remainder_size len fleno nfrag = up8 (sub32 len (fleno * (nfrag - 1)))

-- A size for the others that leaves too much for the first fragment is raised once.
unfoldable pub choose : (fmtu len nfrag fleno : ℕ) → Sizes
choose fmtu len nfrag fleno =
    if ltb fmtu (remainder_size len fleno nfrag)
    then larger_first (remainder_size len (fleno + 8) nfrag) (fleno + 8)
    else larger_first (remainder_size len fleno nfrag) fleno

-- `len` bytes in `nfrag` fragments of at most `fmtu` bytes.
unfoldable pub balance : ℕ → ℕ → ℕ → Sizes
balance fmtu len nfrag = choose fmtu len nfrag (down8 (len / nfrag))

unfoldable pub count_frags : ℕ → ℕ → ℕ
count_frags fmtu len = if len % fmtu == 0 then len / fmtu else len / fmtu + 1

unfoldable pub frag_sizes : ℕ → ℕ → ℕ → Option Sizes
frag_sizes header mtu len =
    let fmtu = down8 (sub32 mtu header) in
    if fmtu == 0
    then none
    else if count_frags fmtu len == 0
    then none
    else some (balance fmtu len (count_frags fmtu len))

-- A fragment: where its bytes start, how many they are, and the flag for more.
pub record Piece : Type 0 where
  pub off : ℕ
  pub flen : ℕ
  pub more : Bool

-- The `for` loop over the fragments, `room` being the bytes for which a packet has room.
unfoldable pub pieces_from : ℕ → ℕ → ℕ → Sizes → ℕ → Option (List Piece)
pieces_from zero room len z off = none
pieces_from (suc fuel) room len z off =
    let rest = len - off in
    let flen = if ltb room rest then (if off == 0 then z.first else z.other) else rest in
    let next = pieces_from fuel room len z (off + flen) in
    if ltb off len
    then elim next [
      | none ↦ none
      | some ps ↦ some (record { off = off; flen = flen; more = ltb (flen + off) len } ∷ ps)
    ]
    else some []

unfoldable pub pieces : ℕ → ℕ → ℕ → ℕ → Option (List Piece)
pieces header mtu len fuel = elim (frag_sizes header mtu len) [
  | none ↦ none
  | some z ↦ pieces_from fuel (sub32 mtu header) len z 0
]

-- The sizes of the headers: IPv6 with its fragment header, and IPv4.
abbrev pub frag6_header : ℕ
frag6_header = 48

abbrev pub ipv4_header : ℕ
ipv4_header = 20

-- `IPv4FragandIPinIP`: payload_len and frag_off of each packet, with the bytes behind the header.
pub record Frag6 : Type 0 where
  pub payload_len : ℕ
  pub frag_off : ℕ
  pub body : List ℕ

abbrev pub frag6_of : List ℕ → Piece → Frag6
frag6_of bytes p = record {
  payload_len = (p.flen + 8) % 2 ^ 16;
  frag_off = (if p.more then bit_or p.off 1 else p.off) % 2 ^ 16;
  body = take p.flen (drop p.off bytes);
}

unfoldable pub ipv4_frag_and_ipinip : ℕ → List ℕ → ℕ → Option (List Frag6)
ipv4_frag_and_ipinip mtu bytes fuel =
    Option.map (map (frag6_of bytes)) (pieces frag6_header mtu (length bytes) fuel)

-- `pkt_fraghandle`: tot_len and frag_off of each packet.
pub record Frag4 : Type 0 where
  pub tot_len : ℕ
  pub frag_off : ℕ
  pub body : List ℕ

abbrev pub frag4_of : List ℕ → Piece → Frag4
frag4_of bytes p = record {
  tot_len = (p.flen + ipv4_header) % 2 ^ 16;
  frag_off = (if p.more then bit_or (p.off / 8) 0x2000 else p.off / 8) % 2 ^ 16;
  body = take p.flen (drop p.off bytes);
}

unfoldable pub pkt_fraghandle : ℕ → List ℕ → ℕ → Option (List Frag4)
pkt_fraghandle mtu packet fuel =
    let bytes = drop ipv4_header packet in
    Option.map (map (frag4_of bytes)) (pieces ipv4_header mtu (length bytes) fuel)
