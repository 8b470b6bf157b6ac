-- ===== src/Tc/Mss/Clamp.antt =====
-- What `patch_tcpmss` of TC/kernel_module/src/packet.c does to a segment.
use mathlib.Core.Option.{some-injective}
use laft.Common.{
  ==_iff, Bool-cases, List, Option, [], ap, arith, false, get_or, inl, inr, leb, length, min, none,
  refl, some, subst, suc, sym, true, zero, ℕ, ◌%◌, ◌+◌, ◌-◌, ◌<◌, ◌==◌, ◌∙◌, ◌∷◌, ◌≡◌, ◌≤◌,
}
use laft.Tc.Mss.{fix_msscksum, mss_option, new_sum, patch_tcpmss, put_word, word_at}
use laft.Tc.Mss.Words.{
  length-put_word, new_sum-same, word_at-put_word, word_at-put_word_ne, word_sum, word_sum-put_word,
}
use laft.Tc.Mss.Scan.{Finds, IsOption, mss_option-Finds}
use laft.Tc.Bplus.Keys.{AreBytes}
use laft.Tc.Mss.Options.{IsSyn, Options, Options-Behind}
use laft.Tc.Mss.Search.{mss_option_iff}

get_or_byte : (buf : List ℕ) (i : ℕ) → AreBytes buf → get_or buf i 0 < 256
get_or_byte [] i b = omega arith
get_or_byte (x ∷ xs) zero b = b.0
get_or_byte (x ∷ xs) (suc i) b = get_or_byte xs i b.1

word_at_lt : (buf : List ℕ) (i : ℕ) → AreBytes buf → word_at buf i < 65536
word_at_lt buf i b = omega (arith, get_or_byte buf i b, get_or_byte buf (suc i) b)

sums_same :
    (before middle after sum m newmss sum_new : ℕ)
    → middle + m ≡ before + newmss
    → after + sum ≡ middle + sum_new
    → (sum_new + newmss) % 65535 ≡ (sum + m) % 65535
    → after % 65535 ≡ before % 65535
sums_same before middle after sum m newmss sum_new one two same = omega arith

mss_option-IsOption :
    (buf : List ℕ) (len i : ℕ) → 0 < i → mss_option buf len ≡ some (some i) → IsOption buf len i
mss_option-IsOption buf len i some_i option = place (mss_option-Finds buf len)
  where
    place : (o : Option ℕ) × (mss_option buf len ≡ some o) × Finds buf len o → IsOption buf len i
    place (none, runs, finds) = absurd cc
    place (some j, runs, inl zero_j) =
        let same = some-injective j i (some-injective (some j) (some i) (sym runs ∙ option)) in
        absurd (omega arith)
    place (some j, runs, inr at_j) =
        subst (λ z. IsOption buf len z)
          (some-injective j i (some-injective (some j) (some i) (sym runs ∙ option))) at_j

-- A new size at an even place behind the checksum, which is at one too.
fix_msscksum-Keeps :
    (buf : List ℕ) (psum pmss newmss : ℕ)
    → AreBytes buf
    → psum % 2 ≡ 0
    → pmss % 2 ≡ 0
    → suc psum < pmss
    → suc pmss < length buf
    → newmss < 65536
    → (word_at (fix_msscksum buf psum pmss newmss) pmss ≡ newmss)
      × (word_sum (fix_msscksum buf psum pmss newmss) % 65535 ≡ word_sum buf % 65535)
unfolding fix_msscksum
fix_msscksum-Keeps buf psum pmss newmss b es em behind inside small =
    let sum = new_sum (word_at buf psum) (word_at buf pmss) newmss in
    let mid = put_word buf pmss newmss in
    let long : suc psum < length mid = omega (arith, length-put_word buf pmss newmss) in
    let one = word_sum-put_word buf pmss newmss em inside in
    let two = word_sum-put_word mid psum sum es long in
    let old : word_at mid psum ≡ word_at buf psum =
      word_at-put_word_ne buf pmss psum newmss inside (inr behind) in
    let same =
      new_sum-same (word_at buf psum) (word_at buf pmss) newmss (word_at_lt buf psum b)
        (word_at_lt buf pmss b) small in
    (
      word_at-put_word_ne mid psum pmss sum long (inl behind)
          ∙ word_at-put_word buf pmss newmss inside,
      sums_same (word_sum buf) (word_sum mid) (word_sum (put_word mid psum sum)) (word_at buf psum)
          (word_at buf pmss) newmss sum one
          (ap (λ z. word_sum (put_word mid psum sum) + z) (sym old) ∙ two) same,
    )

-- A segment with SYN, no data and well-formed options without a signature, whose first size has four
-- bytes and an even place, and whose bytes are all there, for an MTU of at least 80 and 16 bits:
-- `patch_tcpmss` returns, the size becomes the smaller of the old one and the MTU less the headers,
-- and the sum of all words stays the same in ones' complement.
pub patch_tcpmss-clamps :
    (mtu len : ℕ) (buf : List ℕ) (i : ℕ)
    → AreBytes buf
    → 80 ≤ mtu
    → mtu < 65536
    → len ≤ length buf
    → IsSyn buf len
    → Options buf len (some i) 40
    → get_or buf (i + 1) 0 ≡ 4
    → i % 2 ≡ 0
    → (buf' : List ℕ) × (patch_tcpmss mtu buf len ≡ some buf')
      × (word_at buf' (i + 2) ≡ min (word_at buf (i + 2)) (mtu - 80))
      × (word_sum buf' % 65535 ≡ word_sum buf % 65535)
unfolding patch_tcpmss
patch_tcpmss-clamps mtu len buf i b low high whole syn o four even =
    let behind = Options-Behind o in
    let option = (mss_option_iff buf len i (omega (arith, behind))).1 (syn, o) in
    let found = mss_option-IsOption buf len i (omega (arith, behind)) option in
    let here : (i == 0) ≡ false = ground (arith, behind) in
    let size : (get_or buf (i + 1) 0 == 4) ≡ true = (==_iff _ _).1 four in
    let room : (mtu + 65536 - 80) % 65536 ≡ mtu - 80 = omega arith in
    elim (Bool-cases (leb (word_at buf (i + 2) + 80) mtu)) [
      | inl e ↦ (buf, rw (patch_tcpmss, option, here, size, e), ground (arith, e), refl)
      | inr e ↦
          let (put, sum) =
            fix_msscksum-Keeps buf 36 (i + 2) (mtu - 80) b refl (omega arith)
              (omega (arith, found.behind)) (omega (arith, found.within, four)) (omega arith) in
          (
            fix_msscksum buf 36 (i + 2) (mtu - 80),
            rw (patch_tcpmss, option, here, size, e, room),
            put ∙ ground (arith, e),
            sum,
          )
    ]
