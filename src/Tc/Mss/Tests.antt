-- ===== src/Tc/Mss/Tests.antt =====
-- Segments of TC/kernel_module/src/packet.c whose size is patched.
use laft.Common.{List, Option, [], arith, none, refl, replicate, some, ℕ, ◌%◌, ◌++◌, ◌↔◌, ◌∷◌, ◌≡◌}
use laft.Tc.Mss.{fix_msscksum, mss_option, new_sum, patch_tcpmss, scan, word_at}
use laft.Tc.Mss.Words.{word_sum}
use laft.Tc.Mss.Clamp.{patch_tcpmss-clamps}
use laft.Tc.Mss.Options.{IsSyn, Options, ends, size_option}
use laft.Tc.Mss.Search.{mss_option_iff}

-- An IPv4 header, with only the protocol set.
abbrev ip_bytes : List ℕ
ip_bytes = replicate 9 0 ++ (6 ∷ replicate 10 0)

-- A TCP header of 24 bytes with the flag SYN and a size of 1460.
abbrev syn : List ℕ
syn = ip_bytes ++ (replicate 12 0 ++ (96 ∷ 2 ∷ 0 ∷ 0 ∷ 18 ∷ 52 ∷ 0 ∷ 0 ∷ 2 ∷ 4 ∷ 5 ∷ 180 ∷ []))

IsSyn-syn : IsSyn syn 44
IsSyn-syn = record { protocol = refl; syn = refl; no_data = refl; some_options = omega arith }

Options-syn : Options syn 44 (some 40) 40
Options-syn = size_option 40 refl (omega arith) (omega arith) (ends 44 refl)

mss_option_iff_example :
    (mss_option syn 44 ≡ some (some 40)) ↔ (IsSyn syn 44 × Options syn 44 (some 40) 40)
mss_option_iff_example = mss_option_iff syn 44 40 (omega arith)

patch_tcpmss-clamps_example :
    (buf' : List ℕ) × (patch_tcpmss 1500 syn 44 ≡ some buf')
    × (word_at buf' 42 ≡ 1420)
    × (word_sum buf' % 65535 ≡ word_sum syn % 65535)
patch_tcpmss-clamps_example =
    patch_tcpmss-clamps 1500 44 syn 40 (omega arith) (omega arith) (omega arith) (omega arith)
      IsSyn-syn Options-syn refl refl

-- The same behind a NOP, in a header of 28 bytes.
abbrev syn_odd : List ℕ
syn_odd =
    ip_bytes
    ++ (replicate 12 0
        ++ (112 ∷ 2 ∷ 0 ∷ 0 ∷ 18 ∷ 52 ∷ 0 ∷ 0 ∷ 1 ∷ 2 ∷ 4 ∷ 5 ∷ 180 ∷ 0 ∷ 0 ∷ 0 ∷ []))

abbrev sum_of : Option (List ℕ) → ℕ
sum_of none = 0
sum_of (some buf) = word_sum buf % 65535

-- At an odd place the sum does not stay the same.
odd_sums : (sum_of (patch_tcpmss 1500 syn_odd 48) ≡ 4972) × (sum_of (some syn_odd) ≡ 15172)
unfolding patch_tcpmss mss_option scan fix_msscksum new_sum
odd_sums = (refl, refl)
