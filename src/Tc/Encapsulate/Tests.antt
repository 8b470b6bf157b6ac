-- ===== src/Tc/Encapsulate/Tests.antt =====
-- A packet of three thousand bytes of TC/kernel_module/src/packet.c, and small ones.
use laft.Common.{List, [], arith, drop, refl, some, take, ℕ, ◌∷◌, ◌≡◌}
use laft.Tc.Encapsulate.{
  balance, choose, count_frags, frag_sizes, ipv4_frag_and_ipinip, pieces, pieces_from,
}
use laft.Tc.Encapsulate.Packets.{Sent6, ipv4_frag_and_ipinip-Sent6}

sizes_3000 : frag_sizes 48 1500 3000 ≡ some (record { first = 1000; other = 1000 })
unfolding frag_sizes balance choose count_frags
sizes_3000 = refl

-- The last of them is short.
sizes_2000 : frag_sizes 48 1500 2000 ≡ some (record { first = 1000; other = 1000 })
unfolding frag_sizes balance choose count_frags
sizes_2000 = refl

abbrev some_bytes : List ℕ
some_bytes = 1 ∷ 2 ∷ 3 ∷ 4 ∷ 5 ∷ 6 ∷ 7 ∷ 8 ∷ 9 ∷ 10 ∷ []

ten_bytes :
    ipv4_frag_and_ipinip 56 some_bytes 11
    ≡ some (
        record { payload_len = 16; frag_off = 1; body = take 8 some_bytes }
        ∷ record { payload_len = 10; frag_off = 8; body = drop 8 some_bytes }
        ∷ [])
unfolding ipv4_frag_and_ipinip pieces pieces_from frag_sizes balance choose count_frags
ten_bytes = refl

ipv4_frag_and_ipinip-Sent6_example : Sent6 56 some_bytes (ipv4_frag_and_ipinip 56 some_bytes 11)
ipv4_frag_and_ipinip-Sent6_example =
    ipv4_frag_and_ipinip-Sent6 56 11 some_bytes (omega arith) (omega arith) (omega arith)
      (omega arith) (omega arith)
