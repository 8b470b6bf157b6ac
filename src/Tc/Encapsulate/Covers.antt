-- ===== src/Tc/Encapsulate/Covers.antt =====
-- The fragments of TC/kernel_module/src/packet.c and TC/kernel_module/src/defrag6.c cover the packet.
use native.Mathlib.Nat.{zero-add, suc-add}
use laft.Common.{
  Bool-cases, List, Option, [], ap, arith, drop, if◌then◌else◌, inl, inr, is_empty, length, ltb,
  ltb→lt, lt→ltb, not, refl, some, subst, suc, sym, take, take-append-drop, true, zero, ℕ, ◌%◌,
  ◌++◌, ◌+◌, ◌-◌, ◌<◌, ◌==◌, ◌∙◌, ◌∷◌, ◌≡◌, ◌≤◌, ◌⊎◌,
}
use laft.Tc.Encapsulate.{Piece, Sizes, down8, pieces, pieces_from, sub32, word}
use laft.Tc.Encapsulate.Balance.{Fits, frag_sizes-Fits}

-- The pieces run on from `off` to `len`, each of them with some bytes, and not more than there is
-- room for; all but the last are marked for more, and are a multiple of 8 long.
abbrev pub Covers : ℕ → ℕ → ℕ → List Piece → Type 0
Covers room len off [] = off ≡ len
Covers room len off (p ∷ ps) =
    (p.off ≡ off)
    × (0 < p.flen)
    × (p.flen ≤ room)
    × (p.more ≡ not (is_empty ps))
    × (p.more ≡ true → p.flen % 8 ≡ 0)
    × Covers room len (off + p.flen) ps

pub Covers-le : (room len off : ℕ) (ps : List Piece) → Covers room len off ps → off ≤ len
Covers-le room len off [] c = omega arith
Covers-le room len off (p ∷ ps) c = omega (arith, Covers-le room len (off + p.flen) ps c.5)

more_iff :
    (room len off end : ℕ) (ps : List Piece)
    → end ≡ off
    → Covers room len off ps
    → ltb end len ≡ not (is_empty ps)
more_iff room len off end [] e c = ground arith
more_iff room len off end (p ∷ ps) e c =
    lt→ltb _ _ (omega (arith, c.1, Covers-le room len (off + p.flen) ps c.5))

module _ (room len fmtu : ℕ) (z : Sizes) (fits : Fits fmtu len z) (fmtu_le : fmtu ≤ room) where
  others_pos : room < len → 0 < z.other
  others_pos h = at fits.goes_on
    where
      at : ((0 < z.other) ⊎ (len ≤ z.first)) → 0 < z.other
      at (inl p) = p
      at (inr p) = absurd (omega (arith, fits.first_le))

  -- The length of one piece.
  abbrev flen_at : ℕ → ℕ
  flen_at off = if ltb room (len - off) then (if off == 0 then z.first else z.other) else len - off

  flen_at-bounds :
      (off : ℕ)
      → off < len
      → (0 < flen_at off)
        × (flen_at off ≤ room)
        × (flen_at off ≤ len - off)
        × (flen_at off < len - off → flen_at off % 8 ≡ 0)
  flen_at-bounds off h = elim (Bool-cases (ltb room (len - off))) [
    | inl e ↦
        let large = ltb→lt _ _ e in
        let others = others_pos (omega arith) in
        elim (Bool-cases (off == 0)) [
          | inl f ↦
              rw (e, f)
                (
                  fits.first_pos,
                  omega (arith, fits.first_le),
                  omega (arith, fits.first_le),
                  λ g. fits.first_8,
                )
          | inr f ↦
              rw (e, f)
                (
                  others,
                  omega (arith, fits.other_le),
                  omega (arith, fits.other_le),
                  λ g. fits.other_8,
                )
        ]
    | inr e ↦
        let small : len - off ≤ room = ground arith in
        rw e (omega arith, small, omega arith, λ g. absurd (omega arith))
  ]

  pieces_from-Covers :
      (fuel off : ℕ)
      → len - off < fuel
      → off ≤ len
      → (ps : List Piece) × (pieces_from fuel room len z off ≡ some ps) × Covers room len off ps
  unfolding pieces_from
  pieces_from-Covers zero off enough le = absurd (omega arith)
  pieces_from-Covers (suc fuel) off enough le = elim (Bool-cases (ltb off len)) [
    | inl e ↦
        let h = ltb→lt _ _ e in
        let b = flen_at-bounds off h in
        let (ps, runs, covers) =
          pieces_from-Covers fuel (off + flen_at off) (omega (arith, b)) (omega (arith, b)) in
        (
          record { off = off; flen = flen_at off; more = ltb (flen_at off + off) len } ∷ ps,
          rw (e, runs),
          (
            refl,
            b.0,
            b.1,
            more_iff room len (off + flen_at off) (flen_at off + off) ps (omega arith) covers,
            λ m. b.3 (omega (arith, ltb→lt _ _ m)),
            covers,
          ),
        )
    | inr e ↦ ([], rw e, ground arith)
  ]

-- What the packets carry, one behind the other.
abbrev pub bodies : List ℕ → List Piece → List ℕ
bodies bytes [] = []
bodies bytes (p ∷ ps) = take p.flen (drop p.off bytes) ++ bodies bytes ps

drop-drop : {A : Type 0} (n k : ℕ) (xs : List A) → drop n (drop k xs) ≡ drop (k + n) xs
drop-drop n zero xs = rw (zero-add n)
drop-drop zero (suc k) [] = rw (suc-add k 0)
drop-drop (suc n) (suc k) [] = rw (suc-add k (suc n))
drop-drop n (suc k) (x ∷ xs) = rw (suc-add k n) (drop-drop n k xs)

drop-all : {A : Type 0} (xs : List A) → drop (length xs) xs ≡ []
drop-all [] = refl
drop-all (x ∷ xs) = drop-all xs

take-drop : {A : Type 0} (n k : ℕ) (xs : List A) → take n (drop k xs) ++ drop (k + n) xs ≡ drop k xs
take-drop n k xs =
    ap (λ z. take n (drop k xs) ++ z) (sym (drop-drop n k xs)) ∙ take-append-drop n (drop k xs)

bodies-Covers :
    (bytes : List ℕ) (room off : ℕ) (ps : List Piece)
    → Covers room (length bytes) off ps
    → bodies bytes ps ≡ drop off bytes
bodies-Covers bytes room off [] c = sym (ap (λ z. drop z bytes) c ∙ drop-all bytes)
bodies-Covers bytes room off (p ∷ ps) c =
    ap (λ z. take p.flen (drop z bytes) ++ bodies bytes ps) c.0
    ∙ ap (λ z. take p.flen (drop off bytes) ++ z) (bodies-Covers bytes room (off + p.flen) ps c.5)
    ∙ take-drop p.flen off bytes

-- The loop ends, and the packets fit, cover the bytes and carry them in order.
pub record Fragmented (header mtu : ℕ) (bytes : List ℕ) (o : Option (List Piece)) : Type 0 where
  pub parts : List Piece
  pub runs : o ≡ some parts
  pub covers : Covers (mtu - header) (length bytes) 0 parts
  pub carries : bodies bytes parts ≡ bytes

pub pieces-Fragmented :
    (header mtu fuel : ℕ) (bytes : List ℕ)
    → header + 8 ≤ mtu
    → mtu < word
    → 0 < length bytes
    → length bytes ≤ 65535
    → length bytes < fuel
    → Fragmented header mtu bytes (pieces header mtu (length bytes) fuel)
unfolding pieces
pieces-Fragmented header mtu fuel bytes small range some_bytes short enough =
    let (z, sizes, fits) = frag_sizes-Fits header mtu (length bytes) small range some_bytes short in
    let room : sub32 mtu header ≡ mtu - header = omega arith in
    let (ps, runs, covers) =
      pieces_from-Covers (sub32 mtu header) (length bytes) (down8 (sub32 mtu header)) z fits
        (omega arith) fuel 0 (omega arith) (omega arith) in
    record {
      parts = ps;
      runs = rw (pieces, sizes, runs);
      covers = subst (λ r. Covers r (length bytes) 0 ps) room covers;
      carries = bodies-Covers bytes (sub32 mtu header) 0 ps covers;
    }
