-- ===== src/Tc/Mss/Words.antt =====
-- The words of a packet of TC/kernel_module/src/packet.c, and their sum.
use laft.Common.{
  List, [], ap, arith, false, get_or, get_or-set, length, length-set, set, suc, zero, ℕ, ◌%◌, ◌*◌,
  ◌+◌, ◌/◌, ◌<◌, ◌==◌, ◌∙◌, ◌∷◌, ◌≡◌, ◌⊎◌,
}
use laft.Tc.Mss.{new_sum, put_word, word_at}

-- The sum that a checksum is taken of.
abbrev pub word_sum : List ℕ → ℕ
word_sum [] = 0
word_sum (x ∷ []) = x * 256
word_sum (x ∷ y ∷ xs) = x * 256 + y + word_sum xs

pub word_sum-put_word :
    (buf : List ℕ) (i w : ℕ)
    → i % 2 ≡ 0
    → suc i < length buf
    → word_sum (put_word buf i w) + word_at buf i ≡ word_sum buf + w
word_sum-put_word [] i w e h = elim h [ ]
word_sum-put_word (x ∷ []) i w e h = absurd (omega arith)
word_sum-put_word (x ∷ y ∷ xs) zero w e h = omega arith
word_sum-put_word (x ∷ y ∷ xs) (suc zero) w e h = absurd (omega arith)
word_sum-put_word (x ∷ y ∷ xs) (suc (suc i)) w e h =
    omega (arith, word_sum-put_word xs i w (omega arith) (omega arith))

pub word_at-put_word :
    (buf : List ℕ) (i w : ℕ) → suc i < length buf → word_at (put_word buf i w) i ≡ w
word_at-put_word [] i w h = elim h [ ]
word_at-put_word (x ∷ []) i w h = absurd (omega arith)
word_at-put_word (x ∷ y ∷ xs) zero w h = omega arith
word_at-put_word (x ∷ y ∷ xs) (suc i) w h = word_at-put_word (y ∷ xs) i w (omega arith)

get_or-put_word :
    (buf : List ℕ) (i j w : ℕ)
    → suc i < length buf
    → (i == j) ≡ false
    → (suc i == j) ≡ false
    → get_or (put_word buf i w) j 0 ≡ get_or buf j 0
get_or-put_word buf i j w h a b =
    get_or-set (set buf i (w / 256)) (suc i) j (w % 256) 0
      (omega (arith, length-set buf i (w / 256)))
    ∙ rw b (get_or-set buf i j (w / 256) 0 (omega arith) ∙ rw a)

pub word_at-put_word_ne :
    (buf : List ℕ) (i j w : ℕ)
    → suc i < length buf
    → (suc i < j) ⊎ (suc j < i)
    → word_at (put_word buf i w) j ≡ word_at buf j
word_at-put_word_ne buf i j w h apart =
    let first = get_or-put_word buf i j w h (ground (arith, apart)) (ground (arith, apart)) in
    let second =
      get_or-put_word buf i (suc j) w h (ground (arith, apart)) (ground (arith, apart)) in
    ap (λ z. z * 256 + get_or (put_word buf i w) (suc j) 0) first
    ∙ ap (λ z. get_or buf j 0 * 256 + z) second

pub length-put_word : (buf : List ℕ) (i w : ℕ) → length (put_word buf i w) ≡ length buf
length-put_word buf i w =
    length-set (set buf i (w / 256)) (suc i) (w % 256) ∙ length-set buf i (w / 256)

-- The old and the new checksum and size have the same sum, in ones' complement.
pub new_sum-same :
    (sum m newmss : ℕ)
    → sum < 65536
    → m < 65536
    → newmss < 65536
    → (new_sum sum m newmss + newmss) % 65535 ≡ (sum + m) % 65535
unfolding new_sum
new_sum-same sum m newmss a b c = omega arith
