-- ===== src/Tc/Mss/Options.antt =====
-- The options of a TCP header as the protocol lays them out, and what `patch_tcpmss` of
-- TC/kernel_module/src/packet.c makes of them.
use laft.Common.{
  ==_iff, Bool-cases, List, Option, ap, arith, eq_false, false, get_or, if◌then◌else◌, inl, inr,
  leb, ltb, none, refl, some, suc, sym, true, zero, ℕ, ◌%◌, ◌*◌, ◌+◌, ◌/◌, ◌<◌, ◌==◌, ◌||◌, ◌∙◌,
  ◌≡◌, ◌≢◌, ◌≤◌,
}
use laft.Tc.Mss.{scan}
use mathlib.Core.Option.{some-injective}

-- The options from a place on are well formed up to `len`: an end of the list is a 0 or the end of
-- the header, a NOP is a 1, and any other option has its length in the second byte and fits. A
-- signature (19) is not among them, and `first` is the place of the first size (2).
pub data Options (buf : List ℕ) (len : ℕ) : (first : Option ℕ) → (i : ℕ) → Type 0 where
  ends : (i : ℕ) → i ≡ len → Options buf len none i
  end_of_list : (i : ℕ) → i < len → get_or buf i 0 ≡ 0 → Options buf len none i
  nop :
      {first : Option ℕ}
      → (i : ℕ) → i < len
      → get_or buf i 0 ≡ 1
      → Options buf len first (i + 1)
      → Options buf len first i
  size_option :
      {first : Option ℕ}
      → (i : ℕ) → get_or buf i 0 ≡ 2
      → 2 ≤ get_or buf (i + 1) 0
      → i + get_or buf (i + 1) 0 ≤ len
      → Options buf len first (i + get_or buf (i + 1) 0)
      → Options buf len (some i) i
  other :
      {first : Option ℕ}
      → (i : ℕ) → 2 < get_or buf i 0
      → get_or buf i 0 ≢ 19
      → 2 ≤ get_or buf (i + 1) 0
      → i + get_or buf (i + 1) 0 ≤ len
      → Options buf len first (i + get_or buf (i + 1) 0)
      → Options buf len first i

-- A TCP segment of `len` bytes with the IPv4 header, with the flag SYN, no data and some options.
pub record IsSyn (buf : List ℕ) (len : ℕ) : Type 0 where
  pub protocol : get_or buf 9 0 ≡ 6
  pub syn : get_or buf 33 0 / 2 % 2 ≡ 1
  pub no_data : get_or buf 32 0 / 16 * 4 + 20 ≡ len
  pub some_options : 40 < len

-- The place that is kept: the first, unless one was found before.
abbrev pub kept : ℕ → Option ℕ → ℕ
kept zero none = 0
kept zero (some i) = i
kept (suc found) first = suc found

kept-later :
    (i found : ℕ) (first : Option ℕ)
    → 0 < i
    → kept (if found == 0 then i else found) first ≡ kept found (some i)
kept-later zero found first h = absurd (omega arith)
kept-later (suc i) zero first h = refl
kept-later (suc i) (suc found) first h =
    let later : (suc found == 0) ≡ false = ground arith in rw later

kept-none : (found : ℕ) → kept found none ≡ found
kept-none zero = refl
kept-none (suc found) = refl

-- The tests that send an option on to the next one.
runs_on :
    (buf : List ℕ) (len i : ℕ)
    → 2 ≤ get_or buf i 0
    → get_or buf i 0 ≢ 19
    → 2 ≤ get_or buf (i + 1) 0
    → i + get_or buf (i + 1) 0 ≤ len
    → ((leb len i || get_or buf i 0 == 0) ≡ false)
      × ((get_or buf i 0 == 1) ≡ false)
      × ((ltb len (i + 2)
            || ltb (get_or buf (i + 1) 0) 2
            || ltb len (i + get_or buf (i + 1) 0)
            || get_or buf i 0 == 19)
          ≡ false)
runs_on buf len i kind unsigned two fits =
    let not_19 : (get_or buf i 0 == 19) ≡ false =
      eq_false (get_or buf i 0 == 19) (λ e. unsigned ((==_iff _ _).0 e)) in
    (ground arith, ground arith, ground (arith, not_19))

module _ (buf : List ℕ) (len : ℕ) where
  pub Options-scan :
      {first : Option ℕ} (fuel i found : ℕ)
      → 0 < i
      → len < fuel + i
      → Options buf len first i
      → scan fuel buf len i found ≡ some (some (kept found first))
  unfolding scan
  Options-scan zero i found p enough (ends j e) = absurd (omega arith)
  Options-scan zero i found p enough (end_of_list j lt e) = absurd (omega arith)
  Options-scan zero i found p enough (nop j lt e o) = absurd (omega arith)
  Options-scan zero i found p enough (size_option j e two fits o) = absurd (omega arith)
  Options-scan zero i found p enough (other j large unsigned two fits o) = absurd (omega arith)
  Options-scan (suc fuel) i found p enough (ends j e) =
      let stop : (leb len i || (get_or buf i 0 == 0)) ≡ true = ground (arith, e) in
      rw (scan, stop) (ap (λ z. some (some z)) (sym (kept-none found)))
  Options-scan (suc fuel) i found p enough (end_of_list j lt e) =
      let stop : (leb len i || (get_or buf i 0 == 0)) ≡ true = ground (arith, e) in
      rw (scan, stop) (ap (λ z. some (some z)) (sym (kept-none found)))
  Options-scan (suc fuel) i found p enough (nop j lt e o) =
      let go : (leb len i || (get_or buf i 0 == 0)) ≡ false = ground (arith, e, lt) in
      let one : (get_or buf i 0 == 1) ≡ true = (==_iff _ _).1 e in
      rw (scan, go, one) (Options-scan fuel (i + 1) found (omega arith) (omega arith) o)
  Options-scan (suc fuel) i found p enough (size_option {first = rest} j e two fits o) =
      let t = runs_on buf len i (omega (arith, e)) (λ f. absurd (omega (arith, e, f))) two fits in
      let kind : (get_or buf i 0 == 2) ≡ true = (==_iff _ _).1 e in
      rw (scan, t.0, t.1, t.2, kind)
        (Options-scan fuel (i + get_or buf (i + 1) 0) (if found == 0 then i else found)
            (omega arith) (omega (arith, two)) o
          ∙ ap (λ z. some (some z)) (kept-later i found rest p))
  Options-scan (suc fuel) i found p enough (other j large unsigned two fits o) =
      let t = runs_on buf len i (omega (arith, large)) unsigned two fits in
      let kind : (get_or buf i 0 == 2) ≡ false = ground (arith, large) in
      rw (scan, t.0, t.1, t.2, kind)
        (Options-scan fuel (i + get_or buf (i + 1) 0) found (omega arith) (omega (arith, two)) o)

  -- If the loop finds its way through, the options are well formed.
  pub scan-Options :
      (fuel i found f : ℕ)
      → 0 < i
      → i ≤ len
      → scan fuel buf len i found ≡ some (some f)
      → (first : Option ℕ) × Options buf len first i × (f ≡ kept found first)
  unfolding scan
  scan-Options zero i found f p le run = absurd cc
  scan-Options (suc fuel) i found f p le run =
      let kind = get_or buf i 0 in
      let size = get_or buf (i + 1) 0 in
      elim (Bool-cases (leb len i || (kind == 0))) [
        | inl e ↦
            let stop : scan (suc fuel) buf len i found ≡ some (some found) = rw (scan, e) in
            let same : found ≡ f =
              some-injective found f (some-injective (some found) (some f) (sym stop ∙ run)) in
            (none, ended i le e, sym same ∙ sym (kept-none found))
        | inr e ↦ elim (Bool-cases (kind == 1)) [
          | inl one ↦
              let on : scan (suc fuel) buf len i found ≡ scan fuel buf len (i + 1) found =
                rw (scan, e, one) in
              let (first, o, g) =
                scan-Options fuel (i + 1) found f (omega arith) (ground (arith, e))
                  (sym on ∙ run) in
              (first, nop i (ground (arith, e)) ((==_iff _ _).0 one) o, g)
          | inr one ↦
              elim (Bool-cases
                (ltb len (i + 2) || ltb size 2 || ltb len (i + size) || (kind == 19))) [
                  | inl bad ↦
                      let gone : scan (suc fuel) buf len i found ≡ some none =
                        rw (scan, e, one, bad) in
                      absurd cc
                  | inr bad ↦
                      let fits : i + size ≤ len = ground (arith, bad) in
                      let two : 2 ≤ size = ground (arith, bad) in
                      let unsigned : kind ≢ 19 = λ x. ground (arith, bad, x) in
                      elim (Bool-cases (kind == 2)) [
                        | inl mss ↦
                            let on : scan (suc fuel) buf len i found
                                ≡ scan fuel buf len (i + size) (if found == 0 then i else found) =
                              rw (scan, e, one, bad, mss) in
                            let (first, o, g) =
                              scan-Options fuel (i + size) (if found == 0 then i else found) f
                                (omega arith) fits (sym on ∙ run) in
                            (
                              some i,
                              size_option i ((==_iff _ _).0 mss) two fits o,
                              g ∙ kept-later i found first p,
                            )
                        | inr mss ↦
                            let on : scan (suc fuel) buf len i found
                                ≡ scan fuel buf len (i + size) found =
                              rw (scan, e, one, bad, mss) in
                            let (first, o, g) =
                              scan-Options fuel (i + size) found f (omega arith) fits
                                (sym on ∙ run) in
                            (first, other i (ground (arith, e, one, mss)) unsigned two fits o, g)
                      ]
                ]
        ]
      ]
    where
      ended :
          (i : ℕ) → i ≤ len → (leb len i || (get_or buf i 0 == 0)) ≡ true → Options buf len none i
      ended i le e = elim (Bool-cases (leb len i)) [
        | inl at_end ↦ ends i (ground (arith, at_end))
        | inr before ↦ end_of_list i (ground (arith, before)) (ground (arith, e, before))
      ]

abbrev Behind : ℕ → Option ℕ → Type 0
Behind i none = Unit
Behind i (some j) = i ≤ j

Behind-le : (i j : ℕ) (first : Option ℕ) → i ≤ j → Behind j first → Behind i first
Behind-le i j none h b = tt
Behind-le i j (some k) h b = omega arith

pub Options-Behind :
    {buf : List ℕ} {len : ℕ} {first : Option ℕ} {i : ℕ} → Options buf len first i → Behind i first
Options-Behind (ends i e) = tt
Options-Behind (end_of_list i lt e) = tt
Options-Behind {first = first} (nop i lt e o) =
    Behind-le i (i + 1) first (omega arith) (Options-Behind o)
Options-Behind (size_option i e two fits o) = omega arith
Options-Behind {buf = buf} {first = first} (other i large unsigned two fits o) =
    Behind-le i (i + get_or buf (i + 1) 0) first (omega arith) (Options-Behind o)
