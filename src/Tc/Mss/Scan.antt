-- ===== src/Tc/Mss/Scan.antt =====
-- The loop over the options of TC/kernel_module/src/packet.c ends, and what it finds is an option.
use laft.Common.{
  Bool-cases, List, Option, arith, get_or, if◌then◌else◌, inl, inr, leb, ltb, none, refl, some, suc,
  zero, ℕ, ◌%◌, ◌&&◌, ◌*◌, ◌+◌, ◌/◌, ◌<◌, ◌==◌, ◌||◌, ◌≡◌, ◌≤◌, ◌⊎◌,
}
use laft.Tc.Mss.{ip_header, mss_option, scan}

-- An option that lies within the segment.
pub record IsOption (buf : List ℕ) (len i : ℕ) : Type 0 where
  pub behind : 40 ≤ i
  pub kind : get_or buf i 0 ≡ 2
  pub within : i + get_or buf (i + 1) 0 ≤ len

module _ (buf : List ℕ) (len : ℕ) where
  abbrev Found : ℕ → Type 0
  Found f = (f ≡ 0) ⊎ IsOption buf len f

  abbrev pub Finds : Option ℕ → Type 0
  Finds none = Unit
  Finds (some f) = Found f

  -- Each round moves on, so that more rounds than bytes are enough.
  pub scan-Finds :
      (fuel i found : ℕ)
      → 40 ≤ i
      → i ≤ len
      → len < fuel + i
      → Found found
      → (o : Option ℕ) × (scan fuel buf len i found ≡ some o) × Finds o
  unfolding scan
  scan-Finds zero i found low high enough f = absurd (omega arith)
  scan-Finds (suc fuel) i found low high enough f =
      let kind = get_or buf i 0 in
      let size = get_or buf (i + 1) 0 in
      elim (Bool-cases (leb len i || (kind == 0))) [
        | inl e ↦ (some found, rw (scan, e), f)
        | inr e ↦ elim (Bool-cases (kind == 1)) [
          | inl one ↦
              let (o, runs, finds) =
                scan-Finds fuel (i + 1) found (omega arith) (ground (arith, e)) (omega arith) f in
              (o, rw (scan, e, one, runs), finds)
          | inr one ↦
              elim (Bool-cases
                (ltb len (i + 2) || ltb size 2 || ltb len (i + size) || (kind == 19))) [
                  | inl bad ↦ (none, rw (scan, e, one, bad), tt)
                  | inr bad ↦
                      let fits : i + size ≤ len = ground (arith, bad) in
                      let moves : 2 ≤ size = ground (arith, bad) in
                      let now = if (kind == 2) && (found == 0) then i else found in
                      let keeps : Found now = elim (Bool-cases ((kind == 2) && (found == 0))) [
                        | inl d ↦
                            let is_mss : kind ≡ 2 = ground (arith, d) in
                            rw d (inr (record { behind = low; kind = is_mss; within = fits }))
                        | inr d ↦ rw d f
                      ] in
                      let (o, runs, finds) =
                        scan-Finds fuel (i + size) now (omega arith) fits (omega arith) keeps in
                      (o, rw (scan, e, one, bad, runs), finds)
                ]
        ]
      ]

-- The place is looked up in any segment, without running out of fuel.
pub mss_option-Finds :
    (buf : List ℕ) (len : ℕ) → (o : Option ℕ) × (mss_option buf len ≡ some o) × Finds buf len o
unfolding mss_option
mss_option-Finds buf len =
    elim (Bool-cases (
      (get_or buf 9 0 == 6)
      && (get_or buf 33 0 / 2 % 2 == 1)
      && (get_or buf 32 0 / 16 * 4 + ip_header == len)
      && ltb 20 (get_or buf 32 0 / 16 * 4))) [
        | inl e ↦
            let (o, runs, finds) =
              scan-Finds buf len len 40 0 (omega arith) (ground (arith, e)) (omega arith)
                (inl refl) in
            (o, rw (mss_option, e, runs), finds)
        | inr e ↦ (none, rw (mss_option, e), tt)
      ]
