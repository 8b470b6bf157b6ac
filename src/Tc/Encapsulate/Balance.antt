-- ===== src/Tc/Encapsulate/Balance.antt =====
-- The sizes of the fragments that TC/kernel_module/src/packet.c and TC/kernel_module/src/defrag6.c
-- choose are multiples of 8 and fit.
use native.Mathlib.Nat.{
  add-mul, div-add-mod, mul-zero, div-add-mod', mod-lt, mul-le-mul_right, mul-suc,
}
use laft.Common.{
  ==_iff, Bool-cases, ap, arith, false, inl, inr, leb, leb→le, ltb, ltb→lt, refl, some, subst, suc,
  sym, zero, ℕ, ◌%◌, ◌*◌, ◌+◌, ◌-◌, ◌/◌, ◌<◌, ◌==◌, ◌≡◌, ◌≢◌, ◌≤◌, ◌⊎◌,
}
use laft.Tc.Encapsulate.{
  Sizes, balance, choose, count_frags, down8, frag_sizes, larger_first, remainder_size, sub32, up8,
  word,
}

-- The sizes do for `len` bytes, if no fragment may be longer than `fmtu`.
pub record Fits (fmtu len : ℕ) (z : Sizes) : Type 0 where
  pub first_8 : z.first % 8 ≡ 0
  pub other_8 : z.other % 8 ≡ 0
  pub first_le : z.first ≤ fmtu
  pub other_le : z.other ≤ fmtu
  pub first_pos : 0 < z.first
  pub goes_on : (0 < z.other) ⊎ (len ≤ z.first)

remainder_size-eq :
    (len y m : ℕ)
    → len ≤ 65535
    → y * m ≤ len
    → remainder_size len y (suc m) ≡ (len - y * m + 7) / 8 * 8
remainder_size-eq len y m h le =
    let same : suc m - 1 ≡ m = omega arith in
    subst (λ z. up8 (sub32 len (y * z)) ≡ (len - y * m + 7) / 8 * 8) (sym same) (omega arith)

larger_first-Fits :
    (fmtu len a b : ℕ)
    → a % 8 ≡ 0
    → b % 8 ≡ 0
    → a ≤ fmtu
    → b ≤ fmtu
    → (0 < b) ⊎ ((0 < a) × (len ≤ a))
    → Fits fmtu len (larger_first a b)
larger_first-Fits fmtu len a b a8 b8 la lb (inl p) = record {
  first_8 = ground arith;
  other_8 = b8;
  first_le = ground arith;
  other_le = lb;
  first_pos = ground arith;
  goes_on = inl p;
}
larger_first-Fits fmtu len a b a8 b8 la lb (inr p) = record {
  first_8 = ground arith;
  other_8 = b8;
  first_le = ground arith;
  other_le = lb;
  first_pos = ground arith;
  goes_on = inr (ground arith);
}

module _ (fmtu len m : ℕ) (range : len ≤ 65535) (some_bytes : 0 < len) (room : 8 ≤ fmtu)
    (whole : fmtu % 8 ≡ 0) (low : fmtu * m < len) (high : len ≤ fmtu * m + fmtu) where
  module _ (q r x : ℕ) (shares : q * m + q + r ≡ len) (left_over : r ≤ m) (q_le : q ≤ fmtu)
      (x8 : x % 8 ≡ 0) (x_le : x ≤ q) (x_near : q < x + 8) where
    below : x * m ≤ q * m
    below = mul-le-mul_right m x_le

    above : q * m + m ≤ (x + 8) * m
    above =
        let near : q + 1 ≤ x + 8 = omega arith in
        omega (arith, mul-le-mul_right m near, add-mul q 1 m)

    first-eq : remainder_size len x (suc m) ≡ (len - x * m + 7) / 8 * 8
    first-eq = remainder_size-eq len x m range (omega (arith, below, shares))

    -- The sizes are raised only where there is room for it.
    raised_room : fmtu < remainder_size len x (suc m) → x + 8 ≤ fmtu
    raised_room over = elim (Bool-cases (x == fmtu)) [
      | inl e ↦
          let same = ap (λ z. z * m) ((==_iff x fmtu).0 e) in
          absurd (omega (arith, first-eq, over, same, high))
      | inr e ↦ let ne : x ≢ fmtu = λ d. cc ((==_iff x fmtu).1 d) in omega arith
    ]

    raised-Fits :
        fmtu < remainder_size len x (suc m)
        → Fits fmtu len (larger_first (remainder_size len (x + 8) (suc m)) (x + 8))
    raised-Fits over =
        let fits = raised_room over in
        let less : (x + 8) * m ≤ fmtu * m = mul-le-mul_right m fits in
        let second : remainder_size len (x + 8) (suc m) ≡ (len - (x + 8) * m + 7) / 8 * 8 =
          remainder_size-eq len (x + 8) m range (omega (arith, less)) in
        larger_first-Fits fmtu len (remainder_size len (x + 8) (suc m)) (x + 8)
          (omega (arith, second)) (omega arith) (omega (arith, second, above, shares)) fits
          (inl (omega arith))

    kept-Fits :
        remainder_size len x (suc m) ≤ fmtu
        → Fits fmtu len (larger_first (remainder_size len x (suc m)) x)
    kept-Fits fits =
        larger_first-Fits fmtu len (remainder_size len x (suc m)) x (omega (arith, first-eq)) x8
          fits (omega arith)
          (elim (Bool-cases (x == 0)) [
            | inl e ↦
                let none_taken = ap (λ z. z * m) ((==_iff x 0).0 e) in
                inr (omega (arith, first-eq, none_taken), omega (arith, first-eq, none_taken))
            | inr e ↦ inl (ground arith)
          ])

    choose-Fits : Fits fmtu len (choose fmtu len (suc m) x)
    unfolding choose
    choose-Fits = elim (Bool-cases (ltb fmtu (remainder_size len x (suc m)))) [
      | inl e ↦ rw e (raised-Fits (ltb→lt _ _ e))
      | inr e ↦ rw e (kept-Fits (ground arith))
    ]

  shares : len / suc m * m + len / suc m + len % suc m ≡ len
  shares = omega (arith, mul-suc (len / suc m) m, div-add-mod' len (suc m))

  q-le : len / suc m ≤ fmtu
  q-le = elim (Bool-cases (leb (len / suc m) fmtu)) [
    | inl e ↦ leb→le _ _ e
    | inr e ↦
        let more : fmtu + 1 ≤ len / suc m = ground arith in
        absurd (omega (arith, mul-le-mul_right m more, add-mul fmtu 1 m, shares, high))
  ]

  pub balance-Fits : Fits fmtu len (balance fmtu len (suc m))
  unfolding balance
  balance-Fits =
      choose-Fits (len / suc m) (len % suc m) (down8 (len / suc m)) shares
        (omega (arith, mod-lt len {m = suc m} (omega arith))) q-le (omega arith) (omega arith)
        (omega arith)

-- The number of fragments, less one.
pub record Counted (fmtu len n : ℕ) : Type 0 where
  pub others : ℕ
  pub is_suc : n ≡ suc others
  pub low : fmtu * others < len
  pub high : len ≤ fmtu * others + fmtu

exact-Counted : (fmtu len k : ℕ) → 0 < len → 0 < fmtu → fmtu * k ≡ len → Counted fmtu len k
exact-Counted fmtu len zero h g e = absurd (omega (arith, mul-zero fmtu))
exact-Counted fmtu len (suc k) h g e =
    let more = mul-suc fmtu k in
    record { others = k; is_suc = refl; low = omega arith; high = omega arith }

count_frags-Counted : (fmtu len : ℕ) → 0 < len → 0 < fmtu → Counted fmtu len (count_frags fmtu len)
unfolding count_frags
count_frags-Counted fmtu len h g =
    let whole = div-add-mod len fmtu in
    let rest = mod-lt len g in
    elim (Bool-cases (len % fmtu == 0)) [
      | inl e ↦
          let none_left = (==_iff _ _).0 e in
          rw e (exact-Counted fmtu len (len / fmtu) h g (omega arith))
      | inr e ↦
          let ne : len % fmtu ≢ 0 = λ d. cc ((==_iff (len % fmtu) 0).1 d) in
          rw e (record {
            others = len / fmtu;
            is_suc = omega arith;
            low = omega arith;
            high = omega arith;
          })
    ]

pub frag_sizes-Fits :
    (header mtu len : ℕ)
    → header + 8 ≤ mtu
    → mtu < word
    → 0 < len
    → len ≤ 65535
    → (z : Sizes) × (frag_sizes header mtu len ≡ some z) × Fits (down8 (sub32 mtu header)) len z
unfolding frag_sizes
frag_sizes-Fits header mtu len small range some_bytes short =
    let fmtu = down8 (sub32 mtu header) in
    let room : 8 ≤ fmtu = omega arith in
    let c = count_frags-Counted fmtu len some_bytes (omega arith) in
    let e : (fmtu == 0) ≡ false = ground arith in
    let g : (count_frags fmtu len == 0) ≡ false = ground (arith, c.is_suc) in
    (
      balance fmtu len (count_frags fmtu len),
      rw (e, g),
      subst (λ n. Fits fmtu len (balance fmtu len n)) (sym c.is_suc)
          (balance-Fits fmtu len c.others short some_bytes room (omega arith) c.low c.high),
    )
