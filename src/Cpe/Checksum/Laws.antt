-- ===== src/Cpe/Checksum/Laws.antt =====
-- The checksums of TI/openwrt_cpe/src/helper.c, against the plain sum of the words of a buffer.
use native.Mathlib.Nat.{mod-eq_of_lt, lt_of_lt_of_le}
use laft.Common.{
  All, Bool, Bool-cases, List, [], ap, arith, if◌then◌else◌, inl, inr, length, ltb, suc, zero, ℕ,
  ◌%◌, ◌*◌, ◌++◌, ◌+◌, ◌/◌, ◌<◌, ◌^◌, ◌∙◌, ◌∷◌, ◌≡◌, ◌≤◌,
}
use laft.Cpe.Checksum.{complement, csum_incremental_update, ip_checksum, shuffle, sum_words}

abbrev pub AreWords : List ℕ → Type 0
AreWords = All (λ w. w < 2 ^ 16)

module _ (little : Bool) where
  -- The number that the checksum of `size` bytes stands for.
  abbrev pub summed : List ℕ → ℕ → ℕ
  summed [] size = 0
  summed (w ∷ ws) zero = 0
  summed (w ∷ ws) (suc zero) = if little then w % 256 else w / 256
  summed (w ∷ ws) (suc (suc size)) = w + summed ws size

  pub summed_bound : (ws : List ℕ) (size : ℕ) → AreWords ws → summed ws size ≤ 65535 * length ws
  summed_bound [] size h = omega arith
  summed_bound (w ∷ ws) zero h = omega arith
  summed_bound (w ∷ ws) (suc zero) h = ground (arith, h.0)
  summed_bound (w ∷ ws) (suc (suc size)) h = omega (arith, h.0, summed_bound ws size h.1)

  -- All but one field of a buffer, which lies before the end.
  abbrev pub around : List ℕ → List ℕ → ℕ → ℕ
  around [] ys (suc (suc size)) = summed ys size
  around (x ∷ xs) ys (suc (suc size)) = x + around xs ys size
  around xs ys zero = 0
  around xs ys (suc zero) = 0

  pub summed-field :
      (xs ys : List ℕ) (field size : ℕ)
      → 2 * length xs + 2 ≤ size
      → summed (xs ++ (field ∷ ys)) size ≡ around xs ys size + field
  summed-field xs ys field zero h = absurd (omega arith)
  summed-field xs ys field (suc zero) h = absurd (omega arith)
  summed-field [] ys field (suc (suc size)) h = omega arith
  summed-field (x ∷ xs) ys field (suc (suc size)) h =
      omega (arith, summed-field xs ys field size (omega arith))

  module _ (long : ℕ) (wide : 2 ^ 32 ≤ long) where
    small : (x : ℕ) → x < 2 ^ 32 → x % long ≡ x
    small x h = mod-eq_of_lt (lt_of_lt_of_le h wide)

    -- No carry is lost at the top of an `unsigned long`.
    pub sum_words-summed :
        (ws : List ℕ) (size c : ℕ)
        → c + summed ws size < 2 ^ 32
        → sum_words long little ws size c ≡ c + summed ws size
    unfolding sum_words
    sum_words-summed [] size c h = omega arith
    sum_words-summed (w ∷ ws) zero c h = omega arith
    sum_words-summed (w ∷ ws) (suc zero) c h = small _ h
    sum_words-summed (w ∷ ws) (suc (suc size)) c h =
        rw (small (c + w) (omega arith))
          (sum_words-summed ws size (c + w) (omega arith) ∙ omega arith)

pub length-around :
    (xs ys : List ℕ) (field : ℕ) → length (xs ++ (field ∷ ys)) ≡ length xs + length ys + 1
length-around [] ys field = omega arith
length-around (x ∷ xs) ys field = omega (arith, length-around xs ys field)

pub AreWords-field :
    (xs ys : List ℕ) (old new : ℕ)
    → AreWords (xs ++ (old ∷ ys))
    → new < 2 ^ 16
    → AreWords (xs ++ (new ∷ ys))
AreWords-field [] ys old new h w = (w, h.1)
AreWords-field (x ∷ xs) ys old new h w = (h.0, AreWords-field xs ys old new h.1 w)

-- The field in the middle of a packet of at most 65534 bytes.
module _ (long : ℕ) (little : Bool) (wide : 2 ^ 32 ≤ long) (xs ys : List ℕ) (field size : ℕ)
    (words : AreWords (xs ++ (field ∷ ys))) (short : length (xs ++ (field ∷ ys)) < 2 ^ 15)
    (inside : 2 * length xs + 2 ≤ size) where
  pub around_bound : around little xs ys size + field < 2 ^ 31
  around_bound =
      omega (arith, summed-field little xs ys field size inside, summed_bound little _ size words)

  pub ip_checksum-field :
      ip_checksum long little (xs ++ (field ∷ ys)) size
      ≡ complement (shuffle (around little xs ys size + field))
  unfolding ip_checksum
  ip_checksum-field =
      let e : sum_words long little (xs ++ (field ∷ ys)) size 0 ≡ around little xs ys size + field =
        omega (
          arith,
          sum_words-summed little long wide (xs ++ (field ∷ ys)) size 0
              (omega (arith, around_bound, summed-field little xs ys field size inside)),
          summed-field little xs ys field size inside,
        ) in
      rw e

-- The 16 bits that are left of a sum: it is the same modulo 65535, and 0 only of 0.
abbrev folded : ℕ → ℕ
folded x = shuffle x % 2 ^ 16

record IsFolded (x f : ℕ) : Type 0 where
  carries : ℕ
  split : x ≡ 65535 * carries + f
  upper : f ≤ 65535
  lower : 0 < x → 0 < f

folded-IsFolded : (x : ℕ) → x < 2 ^ 32 → IsFolded x (folded x)
folded-IsFolded x h = elim (Bool-cases (ltb (x / 2 ^ 16 + x % 2 ^ 16) 65536)) [
  | inl e ↦ record {
    carries = x / 2 ^ 16;
    split = ground arith;
    upper = omega arith;
    lower = λ p. ground arith;
  }
  | inr e ↦ record {
    carries = x / 2 ^ 16 + 1;
    split = ground arith;
    upper = omega arith;
    lower = λ p. ground arith;
  }
]

IsFolded-unique :
    (x y k l f g : ℕ)
    → x + 65535 * k ≡ y + 65535 * l
    → 0 < x
    → 0 < y
    → IsFolded x f
    → IsFolded y g
    → f ≡ g
IsFolded-unique x y k l f g e hx hy a b =
    omega (arith, a.split, a.upper, a.lower hx, b.split, b.upper, b.lower hy)

-- What is added to a sum makes all its bits 1, or takes an old field out and puts a new one in.
folded-complement : (t : ℕ) → t < 2 ^ 31 → folded (t + complement (shuffle t)) ≡ 65535
folded-complement t h =
    let a = folded-IsFolded t (omega arith) in
    IsFolded-unique (t + complement (shuffle t)) 65535 0 a.carries _ _ (omega (arith, a.split))
      (omega arith) (omega arith) (folded-IsFolded _ (omega arith))
      (folded-IsFolded 65535 (omega arith))

folded_update :
    (t old new : ℕ)
    → t + old < 2 ^ 31
    → old < 2 ^ 16
    → new < 2 ^ 16
    → 0 < t + new
    → folded (complement (complement (shuffle (t + old))) + complement old + new) ≡ folded (t + new)
folded_update t old new h ho hn some_bit =
    let a = folded-IsFolded (t + old) (omega arith) in
    IsFolded-unique _ (t + new) a.carries 1 _ _ (omega (arith, a.split, a.upper))
      (omega (arith, a.split, a.upper, a.lower)) some_bit (folded-IsFolded _ (omega arith))
      (folded-IsFolded (t + new) (omega arith))

pub field-word : (xs ys : List ℕ) (field : ℕ) → AreWords (xs ++ (field ∷ ys)) → field < 2 ^ 16
field-word [] ys field h = h.0
field-word (x ∷ xs) ys field h = field-word xs ys field h.1

pub complement-word : (x : ℕ) → complement x < 2 ^ 16
complement-word x = omega arith

module _ (long : ℕ) (little : Bool) (wide : 2 ^ 32 ≤ long) where
  -- The receiver's test: a packet of at most 65534 bytes whose checksum field was 0 while the
  -- checksum of its words was computed, and then holds it, has the checksum 0; wherever the field
  -- stands, and whether the number of bytes is odd or even.
  pub ip_checksum-verifies :
      (xs ys : List ℕ) (size : ℕ)
      → AreWords (xs ++ (0 ∷ ys))
      → length (xs ++ (0 ∷ ys)) < 2 ^ 15
      → 2 * length xs + 2 ≤ size
      → ip_checksum long little (xs ++ (ip_checksum long little (xs ++ (0 ∷ ys)) size ∷ ys)) size
        ≡ 0
  ip_checksum-verifies xs ys size words short inside =
      let t = around little xs ys size in
      let c = ip_checksum long little (xs ++ (0 ∷ ys)) size in
      let before : c ≡ complement (shuffle t) =
        ip_checksum-field long little wide xs ys 0 size words short inside
        ∙ ap (λ z. complement (shuffle z)) (omega arith) in
      let after =
        ip_checksum-field long little wide xs ys c size
          (AreWords-field xs ys 0 c words (rw before (complement-word _)))
          (omega (arith, length-around xs ys 0, length-around xs ys c)) inside in
      after
      ∙ rw before (
          omega (
            arith,
            folded-complement t
                (omega (arith, around_bound long little wide xs ys 0 size words short inside)),
          ))

  -- RFC 1624: if one field of a packet changes, the update of the checksum of the old packet is
  -- the checksum of the new one, but for a packet all of whose words are then 0.
  pub csum_incremental_update-ip_checksum :
      (xs ys : List ℕ) (old new size : ℕ)
      → AreWords (xs ++ (old ∷ ys))
      → new < 2 ^ 16
      → length (xs ++ (old ∷ ys)) < 2 ^ 15
      → 2 * length xs + 2 ≤ size
      → 0 < summed little (xs ++ (new ∷ ys)) size
      → csum_incremental_update (ip_checksum long little (xs ++ (old ∷ ys)) size) old new
        ≡ ip_checksum long little (xs ++ (new ∷ ys)) size
  unfolding csum_incremental_update
  csum_incremental_update-ip_checksum xs ys old new size words w short inside some_bit =
      let t = around little xs ys size in
      let before = ip_checksum-field long little wide xs ys old size words short inside in
      let after =
        ip_checksum-field long little wide xs ys new size (AreWords-field xs ys old new words w)
          (omega (arith, length-around xs ys old, length-around xs ys new)) inside in
      rw (before, after)
        (omega (
          arith,
          folded_update t old new (around_bound long little wide xs ys old size words short inside)
              (field-word xs ys old words) w
              (omega (arith, summed-field little xs ys new size inside)),
        ))
