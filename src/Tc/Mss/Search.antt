-- ===== src/Tc/Mss/Search.antt =====
-- The search of `patch_tcpmss` of TC/kernel_module/src/packet.c: its guards, and what it ends with.
use laft.Common.{
  Bool, Bool-cases, List, Option, arith, get_or, inl, inr, ltb, none, some, subst, sym, true, ℕ,
  ◌%◌, ◌&&◌, ◌*◌, ◌+◌, ◌/◌, ◌<◌, ◌==◌, ◌↔◌, ◌∙◌, ◌≡◌,
}
use laft.Tc.Mss.{ip_header, mss_option, scan}
use laft.Tc.Mss.Options.{IsSyn, Options, Options-scan, kept, scan-Options}

module _ (buf : List ℕ) (len i : ℕ) (p : 0 < i) where
  abbrev guards : Bool
  guards =
      (get_or buf 9 0 == 6)
      && (get_or buf 33 0 / 2 % 2 == 1)
      && (get_or buf 32 0 / 16 * 4 + ip_header == len)
      && ltb 20 (get_or buf 32 0 / 16 * 4)

  IsSyn-guards : IsSyn buf len → guards ≡ true
  IsSyn-guards syn = ground (arith, syn.protocol, syn.syn, syn.no_data, syn.some_options)

  guards-IsSyn : guards ≡ true → IsSyn buf len
  guards-IsSyn e = record {
    protocol = ground (arith, e);
    syn = ground (arith, e);
    no_data = ground (arith, e);
    some_options = ground (arith, e);
  }

  first_of :
      (first : Option ℕ) → Options buf len first 40 → i ≡ kept 0 first → Options buf len (some i) 40
  first_of none o e = absurd (omega arith)
  first_of (some j) o e = subst (λ z. Options buf len (some z) 40) (sym e) o

  mss_option-Options :
      mss_option buf len ≡ some (some i) → IsSyn buf len × Options buf len (some i) 40
  unfolding mss_option
  mss_option-Options run = elim (Bool-cases guards) [
    | inl e ↦
        let syn = guards-IsSyn e in
        let on : mss_option buf len ≡ scan len buf len 40 0 = rw (mss_option, e) in
        let (first, o, g) =
          scan-Options buf len len 40 0 i (omega arith) (omega (arith, syn.some_options))
            (sym on ∙ run) in
        (syn, first_of first o g)
    | inr e ↦ let gone : mss_option buf len ≡ some none = rw (mss_option, e) in absurd cc
  ]

  -- For a place above 0: the search of `patch_tcpmss` ends with it exactly on a segment with SYN, no
  -- data and well-formed options without a signature, of which it is the place of the first size.
  pub mss_option_iff :
      (mss_option buf len ≡ some (some i)) ↔ (IsSyn buf len × Options buf len (some i) 40)
  unfolding mss_option
  mss_option_iff = (
    mss_option-Options,
    λ (syn, o).
        let pass = IsSyn-guards syn in
        rw (mss_option, pass) (Options-scan buf len len 40 0 (omega arith) (omega arith) o),
  )
