-- ===== src/Tc/Bplus/Delete/Unlink.antt =====
-- Taking an entry out of a sorted list, and the links at a key that `bpdelete` of
-- TC/kernel_module/src/bplus.c changes.
use laft.Common.{
  ==_iff, Bool-cases, List, [], ap, arith, false, get_elem?, if◌then◌else◌, inl, inr, length, ltb,
  lt→ltb, none, refl, some, suc, sym, zero, ℕ, ◌++◌, ◌<◌, ◌==◌, ◌∙◌, ◌∷◌, ◌≡◌, ◌≤◌,
}
use laft.Tc.Bplus.{Key, Node, Part}
use laft.Tc.Bplus.Spans.{Anything, Below, Spans}
use laft.Tc.Bplus.Search.{IsPart, lookup, lookup-above}
use laft.Tc.Bplus.Delete.{
  drop_last, merge_at, remove_link, rename_link, seek_index, set_part, unlink,
}

module _ {V : Type 0} where
  pub unlink-skip :
      (k : Key) (xs ys : List (Key × V)) → Below k xs → unlink k (xs ++ ys) ≡ xs ++ unlink k ys
  unfolding unlink
  unlink-skip k [] ys b = refl
  unlink-skip k (x ∷ xs) ys b =
      let ne : (x.0 == k) ≡ false = ground arith in rw ne (ap (◌∷◌ x) (unlink-skip k xs ys b.1))

  pub unlink-stop :
      (k : Key) (ys zs : List (Key × V)) (v : V)
      → lookup k ys ≡ some v
      → unlink k (ys ++ zs) ≡ unlink k ys ++ zs
  unfolding unlink
  unlink-stop k [] zs v e = cc
  unlink-stop k (y ∷ ys) zs v e = elim (Bool-cases (y.0 == k)) [
    | inl f ↦ rw f
    | inr f ↦
        let rest : lookup k (y ∷ ys) ≡ lookup k ys = rw f in
        rw f (ap (◌∷◌ y) (unlink-stop k ys zs v (sym rest ∙ e)))
  ]

  pub unlink-at :
      (k : Key) (xs : List (Key × V)) (p : Key × V) (ys : List (Key × V))
      → Below k xs
      → p.0 ≡ k
      → unlink k (xs ++ p ∷ ys) ≡ xs ++ ys
  unfolding unlink
  unlink-at k xs p ys b h = unlink-skip k xs (p ∷ ys) b ∙ ap (λ z. xs ++ z) (rw ((==_iff _ _).1 h))

  pub lookup-skip :
      (k : Key) (xs ys : List (Key × V)) → Below k xs → lookup k (xs ++ ys) ≡ lookup k ys
  lookup-skip k [] ys b = refl
  lookup-skip k (x ∷ xs) ys b =
      let ne : (x.0 == k) ≡ false = ground arith in rw ne (lookup-skip k xs ys b.1)

  pub lookup-stop :
      (k lo : ℕ) (ys zs : List (Key × V)) (top top' : ℕ)
      → k < top
      → Spans Anything lo ys top
      → Spans Anything top zs top'
      → lookup k (ys ++ zs) ≡ lookup k ys
  lookup-stop k lo [] zs top top' h s t = lookup-above k top zs top' h t
  lookup-stop k lo (y ∷ ys) zs top top' h s t = elim (Bool-cases (y.0 == k)) [
    | inl f ↦ rw f
    | inr f ↦ rw f (lookup-stop k (suc y.0) ys zs top top' h s.2 t)
  ]

  pub lookup-at :
      (k : Key) (xs : List (Key × V)) (p : Key × V) (ys : List (Key × V))
      → Below k xs
      → p.0 ≡ k
      → lookup k (xs ++ p ∷ ys) ≡ some p.1
  lookup-at k xs p ys b h = lookup-skip k xs (p ∷ ys) b ∙ rw ((==_iff _ _).1 h)

  pub length-unlink :
      (k : Key) (es : List (Key × V)) (v : V)
      → lookup k es ≡ some v
      → suc (length (unlink k es)) ≡ length es
  unfolding unlink
  length-unlink k [] v e = cc
  length-unlink k (y ∷ ys) v e = elim (Bool-cases (y.0 == k)) [
    | inl f ↦ rw f
    | inr f ↦
        let rest : lookup k (y ∷ ys) ≡ lookup k ys = rw f in
        rw f (ap suc (length-unlink k ys v (sym rest ∙ e)))
  ]

  pub lookup-unlink :
      (k j : Key) (lo : ℕ) (es : List (Key × V)) (top : ℕ)
      → Spans Anything lo es top
      → lookup j (unlink k es) ≡ (if k == j then none else lookup j es)
  unfolding unlink
  lookup-unlink k j lo [] top s = elim (Bool-cases (k == j)) [ inl e ↦ rw e | inr e ↦ rw e ]
  lookup-unlink k j lo (e ∷ es) top s =
      ground (arith, lookup-unlink k j (suc e.0) es top s.2, lookup-above k (suc e.0) es top)

-- A range may be taken to begin earlier, where it holds a link.
pub lower-Spans :
    {A : Type 0} (P : ℕ → ℕ → A → Type 0) (lo lo' : ℕ) (ps : List (Key × A)) (top : ℕ)
    → ((k : ℕ) (a : A) → P lo k a → P lo' k a)
    → lo' ≤ lo
    → 0 < length ps
    → Spans P lo ps top
    → Spans P lo' ps top
lower-Spans P lo lo' [] top f h n s = absurd (omega arith)
lower-Spans P lo lo' (p ∷ ps) top f h n s = (omega (arith, h, s.0), f (suc p.0) p.1 s.1, s.2)

pub lower-IsPart :
    (V : Type 0) (h lo lo' k : ℕ) (a : Part V h) → lo' ≤ lo → IsPart V h lo k a → IsPart V h lo' k a
lower-IsPart V zero lo lo' k a le w = tt
lower-IsPart V (suc h) lo lo' k n le w = (
  w.0,
  lower-Spans (IsPart V h) lo lo' n.links k (λ z b. lower-IsPart V h lo lo' z b le) le
      (omega (arith, w.2)) w.1,
  w.2,
  w.3,
)

pub lower-links :
    (V : Type 0) (h lo lo' : ℕ) (ps : List (Key × Part V h)) (top : ℕ)
    → lo' ≤ lo
    → 0 < length ps
    → Spans (IsPart V h) lo ps top
    → Spans (IsPart V h) lo' ps top
lower-links V h lo lo' ps top le n s =
    lower-Spans (IsPart V h) lo lo' ps top (λ z b. lower-IsPart V h lo lo' z b le) le n s

-- The loops at a link with a key and the links below it before it.
module _ {A : Type 0} (k : Key) where
  pub seek_index-at :
      (xs : List (Key × A)) (p : Key × A) (ys : List (Key × A))
      → Below k xs
      → k ≤ p.0
      → seek_index (xs ++ p ∷ ys) k ≡ length xs
  seek_index-at [] p ys b h = let e : ltb p.0 k ≡ false = ground arith in rw e
  seek_index-at (x ∷ xs) p ys b h = rw (lt→ltb _ _ b.0) (ap suc (seek_index-at xs p ys b.1 h))

  pub remove_link-at :
      (xs : List (Key × A)) (p : Key × A) (ys : List (Key × A))
      → Below k xs
      → k ≤ p.0
      → remove_link (xs ++ p ∷ ys) k ≡ xs ++ ys
  unfolding remove_link
  remove_link-at [] p ys b h = let e : ltb p.0 k ≡ false = ground arith in rw e
  remove_link-at (x ∷ xs) p ys b h = rw (lt→ltb _ _ b.0) (ap (◌∷◌ x) (remove_link-at xs p ys b.1 h))

  pub rename_link-at :
      (new : Key) (xs : List (Key × A)) (p : Key × A) (ys : List (Key × A))
      → Below k xs
      → p.0 ≡ k
      → rename_link (xs ++ p ∷ ys) k new ≡ xs ++ (new, p.1) ∷ ys
  unfolding rename_link
  rename_link-at new [] p ys b h = rw ((==_iff _ _).1 h)
  rename_link-at new (x ∷ xs) p ys b h =
      let ne : (x.0 == k) ≡ false = ground arith in
      rw ne (ap (◌∷◌ x) (rename_link-at new xs p ys b.1 h))

module _ {A : Type 0} where
  pub set_part-at :
      (c : A) (xs : List (Key × A)) (p : Key × A) (ys : List (Key × A))
      → set_part (xs ++ p ∷ ys) (length xs) c ≡ xs ++ (p.0, c) ∷ ys
  unfolding set_part
  set_part-at c [] p ys = refl
  set_part-at c (x ∷ xs) p ys = ap (◌∷◌ x) (set_part-at c xs p ys)

  pub get_elem?-at :
      (xs : List (Key × A)) (p : Key × A) (ys : List (Key × A))
      → get_elem? (xs ++ p ∷ ys) (length xs) ≡ some p
  get_elem?-at [] p ys = refl
  get_elem?-at (x ∷ xs) p ys = get_elem?-at xs p ys

  pub drop_last-end : (xs : List (Key × A)) (p : Key × A) → drop_last (xs ++ p ∷ []) ≡ xs
  unfolding drop_last
  drop_last-end [] p = refl
  drop_last-end (x ∷ []) p = refl
  drop_last-end (x ∷ y ∷ xs) p = ap (◌∷◌ x) (drop_last-end (y ∷ xs) p)

pub merge_at-at :
    {A : Type 0} (xs : List (Key × Node A)) (a b : Key × Node A) (ys : List (Key × Node A))
    → merge_at (length xs) (xs ++ a ∷ b ∷ ys)
      ≡ xs ++ (b.0, record { key = b.1.key; links = a.1.links ++ b.1.links }) ∷ ys
unfolding merge_at
merge_at-at [] a b ys = refl
merge_at-at (x ∷ xs) a b ys = ap (◌∷◌ x) (merge_at-at xs a b ys)
