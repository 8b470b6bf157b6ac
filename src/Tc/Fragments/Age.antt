-- ===== src/Tc/Fragments/Age.antt =====
-- The timer of TC/kernel_module/src/defrag6.c on one chain of buckets.
use laft.Common.{
  All, Bool-cases, List, [], ap, arith, false, if◌then◌else◌, inl, inr, leb, refl, suc, sym, true,
  zero, ℕ, ◌*◌, ◌+◌, ◌-◌, ◌<◌, ◌∙◌, ◌∷◌, ◌≡◌,
}
use laft.Tc.Fragments.{Bucket, age, max_frag_per_time}

-- The timer, called a number of times.
abbrev pub age_times : ℕ → List Bucket → List Bucket
age_times zero bs = bs
age_times (suc n) bs = age (age_times n bs)

-- What is left after `seconds`, at once.
abbrev pub aged : ℕ → List Bucket → List Bucket
aged seconds [] = []
aged seconds (b ∷ bs) =
    let rest = aged seconds bs in
    if leb b.tuple.time_out seconds
    then rest
    else record b { tuple = record b.tuple { time_out = b.tuple.time_out - seconds } } ∷ rest

aged-zero : (bs : List Bucket) → All (λ b. 0 < b.tuple.time_out) bs → aged 0 bs ≡ bs
aged-zero [] h = refl
aged-zero (b ∷ bs) h =
    let later : leb b.tuple.time_out 0 ≡ false = ground (arith, h.0) in
    let same : b.tuple.time_out - 0 ≡ b.tuple.time_out = omega arith in
    rw (later, same, aged-zero bs h.1)

age-aged : (seconds : ℕ) (bs : List Bucket) → age (aged seconds bs) ≡ aged (seconds + 5) bs
unfolding age
age-aged seconds [] = refl
age-aged seconds (b ∷ bs) = elim (Bool-cases (leb b.tuple.time_out seconds)) [
  | inl e ↦
      let gone : leb b.tuple.time_out (seconds + 5) ≡ true = ground arith in
      rw (e, gone, age-aged seconds bs)
  | inr e ↦
      let same : leb (b.tuple.time_out - seconds) max_frag_per_time
          ≡ leb b.tuple.time_out (seconds + 5) =
        ground arith in
      let less : b.tuple.time_out - seconds - max_frag_per_time ≡ b.tuple.time_out - (seconds + 5) =
        omega arith in
      rw (e, same, less, age-aged seconds bs)
]

-- After n calls of the timer, which comes every 5 seconds, the buckets left are those that had
-- more than 5 n seconds, in their order, with 5 n seconds less.
pub age_times-aged :
    (n : ℕ) (bs : List Bucket)
    → All (λ b. 0 < b.tuple.time_out) bs
    → age_times n bs ≡ aged (5 * n) bs
age_times-aged zero bs h = sym (aged-zero bs h)
age_times-aged (suc n) bs h =
    ap age (age_times-aged n bs h) ∙ age-aged (5 * n) bs ∙ ap (λ s. aged s bs) (omega arith)
