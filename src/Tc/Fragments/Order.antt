-- ===== src/Tc/Fragments/Order.antt =====
-- The chain of fragments of TC/kernel_module/src/hash.c is an ordered set of offsets.
use mathlib.Core.Bool.{false≢true}
use laft.Common.{
  ==_iff, All, All-map, AllPairs, Bool, Bool-cases, List, [], ap, arith, false, if_intro,
  if◌then◌else◌, inl, inr, ltb, ltb→lt, refl, sym, true, ℕ, ◌<◌, ◌==◌, ◌||◌, ◌∙◌, ◌∷◌, ◌≡◌,
}
use laft.Tc.Fragments.{Fragment, below_zero, frag_compare, insert_from, is_zero, shash_frag_insert}

-- The plain insertion into an ordered list.
abbrev pub place : List Fragment → Fragment → List Fragment
place [] d = d ∷ []
place (p ∷ ps) d =
    let rest = place ps d in
    if ltb d.offset p.offset then d ∷ p ∷ ps else if p.offset == d.offset then p ∷ ps else p ∷ rest

abbrev pub has_offset : List Fragment → ℕ → Bool
has_offset [] o = false
has_offset (p ∷ ps) o = p.offset == o || has_offset ps o

abbrev pub IsAscending : List Fragment → Type 0
IsAscending = AllPairs (λ a b. a.offset < b.offset)

frag_compare-is_zero : (p d : Fragment) → is_zero (frag_compare p d) ≡ (p.offset == d.offset)
frag_compare-is_zero p d = ground arith

frag_compare-below_zero : (p d : Fragment) → below_zero (frag_compare p d) ≡ ltb d.offset p.offset
frag_compare-below_zero p d = ground arith

-- The two tests exclude each other, so their order does not matter.
either_order :
    {A : Type 0} (a b : ℕ) (x y z : A)
    → (if a == b then x else if ltb b a then y else z)
      ≡ (if ltb b a then y else if a == b then x else z)
either_order a b x y z = elim (Bool-cases (ltb b a)) [
  | inl e ↦ let ne : (a == b) ≡ false = ground arith in rw (ne, e)
  | inr e ↦ rw e
]

pub insert_from-place :
    (p : Fragment) (ps : List Fragment) (d : Fragment) → insert_from (p ∷ ps) d ≡ place (p ∷ ps) d
unfolding insert_from
insert_from-place p [] d =
    rw (frag_compare-is_zero p d, frag_compare-below_zero p d)
      (either_order p.offset d.offset (p ∷ []) (d ∷ p ∷ []) (p ∷ d ∷ []))
insert_from-place p (q ∷ ps) d =
    rw
      (
        frag_compare-is_zero p d,
        frag_compare-below_zero p d,
        frag_compare-below_zero q d,
        insert_from-place q ps d,
      )
      (elim (Bool-cases (ltb d.offset q.offset)) [
        | inl e ↦
            rw e (either_order p.offset d.offset (p ∷ q ∷ ps) (d ∷ p ∷ q ∷ ps) (p ∷ d ∷ q ∷ ps))
        | inr e ↦ rw e (
            either_order p.offset d.offset (p ∷ q ∷ ps) (d ∷ p ∷ q ∷ ps)
              (p ∷ (if q.offset == d.offset then q ∷ ps else q ∷ place ps d)))
      ])

place-All :
    (P : Fragment → Type 0) (ps : List Fragment) (d : Fragment)
    → P d
    → All P ps
    → All P (place ps d)
place-All P [] d h hs = (h, tt)
place-All P (p ∷ ps) d h hs =
    if_intro {A = List Fragment} (All P) (ltb d.offset p.offset) _ _ (λ e. (h, hs))
      (λ e.
        if_intro {A = List Fragment} (All P) (p.offset == d.offset) _ _ (λ f. hs)
          (λ f. (hs.0, place-All P ps d h hs.1)))

place-IsAscending : (ps : List Fragment) (d : Fragment) → IsAscending ps → IsAscending (place ps d)
place-IsAscending [] d a = (tt, tt)
place-IsAscending (p ∷ ps) d a =
    if_intro {A = List Fragment} IsAscending (ltb d.offset p.offset) _ _
      (λ e. ((ltb→lt _ _ e, All-map ps (λ q h. omega (arith, ltb→lt _ _ e, h)) a.0), a))
      (λ e.
        if_intro {A = List Fragment} IsAscending (p.offset == d.offset) _ _ (λ f. a)
          (λ f. (
            place-All (λ q. p.offset < q.offset) ps d (ground arith) a.0,
            place-IsAscending ps d a.1,
          )))

or_again : (a b : Bool) → (a || b) ≡ (a || (a || b))
or_again true b = refl
or_again false b = refl

or_swap : (a b c : Bool) → (a || (b || c)) ≡ (b || (a || c))
or_swap true true c = refl
or_swap true false c = refl
or_swap false b c = refl

pub place-has_offset :
    (ps : List Fragment) (d : Fragment) (o : ℕ)
    → has_offset (place ps d) o ≡ (d.offset == o || has_offset ps o)
place-has_offset [] d o = refl
place-has_offset (p ∷ ps) d o = elim (Bool-cases (ltb d.offset p.offset)) [
  | inl e ↦ rw e
  | inr e ↦ elim (Bool-cases (p.offset == d.offset)) [
    | inl f ↦ rw (e, f, ← (==_iff _ _).0 f) (or_again (p.offset == o) (has_offset ps o))
    | inr f ↦
        rw (e, f, place-has_offset ps d o)
          (or_swap (p.offset == o) (d.offset == o) (has_offset ps o))
  ]
]

offset_absent : (o : ℕ) (ps : List Fragment) → All (λ q. o < q.offset) ps → has_offset ps o ≡ false
offset_absent o [] h = refl
offset_absent o (p ∷ ps) h =
    let here : (p.offset == o) ≡ false = ground (arith, h.0) in rw (here, offset_absent o ps h.1)

pub place-present :
    (ps : List Fragment) (d : Fragment)
    → IsAscending ps
    → has_offset ps d.offset ≡ true
    → place ps d ≡ ps
place-present [] d a h = cc
place-present (p ∷ ps) d a h = elim (Bool-cases (ltb d.offset p.offset)) [
  | inl e ↦
      let none_here : has_offset (p ∷ ps) d.offset ≡ false =
        offset_absent d.offset (p ∷ ps)
          (ltb→lt _ _ e, All-map ps (λ q k. omega (arith, ltb→lt _ _ e, k)) a.0) in
      absurd (false≢true (sym none_here ∙ h))
  | inr e ↦ elim (Bool-cases (p.offset == d.offset)) [
    | inl f ↦ rw (e, f)
    | inr f ↦ rw (e, f) (ap (λ r. p ∷ r) (place-present ps d a.1 (rw f at h)))
  ]
]

-- `ShashFragInsert`, if there is memory, keeps the fragments of a packet in strictly ascending
-- order of their offsets, and adds the offset of the new fragment to them; a fragment at an offset
-- that is there already is dropped.
pub shash_frag_insert-IsAscending :
    (frags : List Fragment) (d : Fragment)
    → IsAscending frags
    → IsAscending (shash_frag_insert true frags d).1
      × ((o : ℕ)
          → has_offset (shash_frag_insert true frags d).1 o ≡ (d.offset == o || has_offset frags o))
      × (has_offset frags d.offset ≡ true → (shash_frag_insert true frags d).1 ≡ frags)
unfolding shash_frag_insert
shash_frag_insert-IsAscending [] d a = ((tt, tt), λ o. refl, λ h. absurd (false≢true h))
shash_frag_insert-IsAscending (p ∷ ps) d a =
    rw insert_from-place
      (place-IsAscending (p ∷ ps) d a, place-has_offset (p ∷ ps) d, place-present (p ∷ ps) d a)
