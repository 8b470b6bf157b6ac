-- ===== src/Tc/Fragments/Count.antt =====
-- The count of bytes of TC/kernel_module/src/defrag6.c, by which a packet is found complete.
use mathlib.Core.Bool.{true≢false}
use laft.Common.{
  ==_iff, Bool, Bool-cases, List, [], ap, arith, bit_and, false, if◌then◌else◌, inl, inr, ltb,
  negsuc, pos, refl, sym, true, ℕ, ◌%◌, ◌&&◌, ◌+◌, ◌-◌, ◌<◌, ◌==◌, ◌^◌, ◌||◌, ◌↔◌, ◌∙◌, ◌∷◌, ◌≡◌,
  ◌≢◌, ◌≤◌,
}
use laft.Tc.Fragments.{Bucket, Fragment, join, shash_frag_insert, size_of, update_length}
use laft.Tc.Fragments.Order.{
  IsAscending, has_offset, insert_from-place, place, shash_frag_insert-IsAscending,
}

answer_one :
    (flag : Bool) (a b : ℕ)
    → (if flag && a == b then pos 1 else negsuc 0) ≡ pos 1
    → (flag ≡ true) × (a ≡ b)
answer_one false a b h = cc
answer_one true a b h = elim (Bool-cases (a == b)) [
  | inl e ↦ (refl, (==_iff a b).0 e)
  | inr e ↦ absurd (one_ne (sym (rw e) ∙ h))
]
  where
    one_ne : negsuc 0 ≢ pos 1
    one_ne e = cc

-- Whether one of the fragments is marked as the last of its packet.
abbrev pub has_last : List Fragment → Bool
has_last [] = false
has_last (p ∷ ps) = p.frag_off % 2 == 0 || has_last ps

place-has_last :
    (ps : List Fragment) (d : Fragment)
    → has_offset ps d.offset ≡ false
    → has_last (place ps d) ≡ (d.frag_off % 2 == 0 || has_last ps)
place-has_last [] d h = refl
place-has_last (p ∷ ps) d h = elim (Bool-cases (ltb d.offset p.offset)) [
  | inl e ↦ rw e
  | inr e ↦ elim (Bool-cases (p.offset == d.offset)) [
    | inl f ↦ absurd (true≢false (sym (rw f) ∙ h))
    | inr f ↦
        let further = place-has_last ps d (rw f at h) in
        rw (e, f, further) (or_swap (p.frag_off % 2 == 0) (d.frag_off % 2 == 0) (has_last ps))
  ]
]
  where
    or_swap : (a b c : Bool) → (a || (b || c)) ≡ (b || (a || c))
    or_swap true true c = refl
    or_swap true false c = refl
    or_swap false b c = refl

insert-has_last :
    (ps : List Fragment) (d : Fragment)
    → has_offset ps d.offset ≡ false
    → has_last (shash_frag_insert true ps d).1 ≡ (d.frag_off % 2 == 0 || has_last ps)
unfolding shash_frag_insert
insert-has_last [] d h = refl
insert-has_last (p ∷ ps) d h = rw insert_from-place (place-has_last (p ∷ ps) d h)

-- The bytes of the fragments that are kept, each of which is its payload less the header.
abbrev pub bytes_of : List Fragment → ℕ
bytes_of [] = 0
bytes_of (p ∷ ps) = p.payload_len - 8 + bytes_of ps

-- A fragment whose payload has the header, with the offset that its header gives, of a packet of
-- `size` bytes: the last fragment ends there.
pub record IsPart (size : ℕ) (d : Fragment) : Type 0 where
  pub has_header : 8 ≤ d.payload_len
  pub short : d.payload_len < 2 ^ 16
  pub at_offset : bit_and d.frag_off 0xfffe ≡ d.offset
  pub low : d.offset < 2 ^ 16
  pub ends : d.frag_off % 2 ≡ 0 → d.offset + (d.payload_len - 8) ≡ size

-- The tuple of a packet of `size` bytes: it counts the bytes that are kept, in a 32-bit word, and
-- knows the size once the last fragment has come.
pub record Counts (size : ℕ) (b : Bucket) : Type 0 where
  pub counted : b.tuple.len ≡ bytes_of b.frags % 2 ^ 32
  pub last : b.tuple.flag ≡ has_last b.frags
  pub total : b.tuple.flag ≡ true → b.tuple.total ≡ size

place-bytes_of :
    (ps : List Fragment) (d : Fragment)
    → has_offset ps d.offset ≡ false
    → bytes_of (place ps d) ≡ d.payload_len - 8 + bytes_of ps
place-bytes_of [] d h = refl
place-bytes_of (p ∷ ps) d h = elim (Bool-cases (ltb d.offset p.offset)) [
  | inl e ↦ rw e
  | inr e ↦ elim (Bool-cases (p.offset == d.offset)) [
    | inl f ↦ absurd (true≢false (sym (rw f) ∙ h))
    | inr f ↦ rw (e, f) (omega (arith, place-bytes_of ps d (rw f at h)))
  ]
]

insert-bytes_of :
    (ps : List Fragment) (d : Fragment)
    → has_offset ps d.offset ≡ false
    → bytes_of (shash_frag_insert true ps d).1 ≡ d.payload_len - 8 + bytes_of ps
unfolding shash_frag_insert
insert-bytes_of [] d h = refl
insert-bytes_of (p ∷ ps) d h = rw insert_from-place (place-bytes_of (p ∷ ps) d h)

-- The answer of `updatelength`, where the flag and the total are what they stand for.
answer_iff :
    (flag last : Bool) (len total bytes size : ℕ)
    → flag ≡ last
    → (flag ≡ true → total ≡ size)
    → len ≡ bytes
    → ((if flag && len == total then pos 1 else negsuc 0) ≡ pos 1)
      ↔ ((last ≡ true) × (bytes ≡ size))
answer_iff flag last len total bytes size same known counted = (
  λ h.
      let (seen, equal) = answer_one flag len total h in
      (sym same ∙ seen, sym counted ∙ equal ∙ known seen),
  λ (seen, equal).
      let raised : flag ≡ true = same ∙ seen in
      let full : (len == total) ≡ true =
        (==_iff len total).1 (counted ∙ equal ∙ sym (known raised)) in
      rw (raised, full),
)

module _ (b : Bucket) (d : Fragment) where
  -- The last fragment tells the size; else it is known from before.
  known_total :
      (size : ℕ)
      → Counts size b
      → IsPart size d
      → (if d.frag_off % 2 == 0 then true else b.tuple.flag) ≡ true
      → (if d.frag_off % 2 == 0
          then (bit_and d.frag_off 0xfffe + size_of d) % 2 ^ 32
          else b.tuple.total)
        ≡ size
  known_total size c part = elim (Bool-cases (d.frag_off % 2 == 0)) [
    | inl e ↦
        let ends = part.ends ((==_iff _ _).0 e) in
        rw e (λ seen. omega (arith, ends, part.at_offset, part.low, part.has_header, part.short))
    | inr e ↦ rw e c.total
  ]

  -- A fragment at a new offset, if there is memory for it, of a packet of `size` bytes: the tuple
  -- still counts the bytes and knows the size, and the packet is found complete exactly if its last
  -- fragment has come and the bytes that are kept are as many as the packet has.
  pub join-IsExact :
      (size : ℕ)
      → Counts size b
      → IsPart size d
      → has_offset b.frags d.offset ≡ false
      → Counts size (join true b d).1
        × (((join true b d).0 ≡ pos 1) ↔ (
            (has_last (join true b d).1.frags ≡ true)
            × (bytes_of (join true b d).1.frags % 2 ^ 32 ≡ size)))
  unfolding join update_length
  join-IsExact size c part new =
      let sum = insert-bytes_of b.frags d new in
      let marked = insert-has_last b.frags d new in
      let len : (b.tuple.len + size_of d) % 2 ^ 32
          ≡ bytes_of (shash_frag_insert true b.frags d).1 % 2 ^ 32 =
        omega (arith, c.counted, sum, part.has_header, part.short) in
      let last = d.frag_off % 2 == 0 in
      let flag : (if last then true else b.tuple.flag) ≡ (last || has_last b.frags) =
        ap (λ z. if last then true else z) c.last ∙ either last (has_last b.frags) in
      let known = known_total size c part in
      (
        record { counted = len; last = flag ∙ sym marked; total = known },
        answer_iff _ _ _ _ _ _ (flag ∙ sym marked) known len,
      )
    where
      either : (a c : Bool) → (if a then true else c) ≡ (a || c)
      either true c = refl
      either false c = refl

  -- A fragment that comes again is dropped, but its bytes are counted a second time.
  pub join-again :
      IsAscending b.frags
      → has_offset b.frags d.offset ≡ true
      → ((join true b d).1.frags ≡ b.frags)
        × ((join true b d).1.tuple.len ≡ (b.tuple.len + size_of d) % 2 ^ 32)
  unfolding join update_length
  join-again a h = ((shash_frag_insert-IsAscending b.frags d a).2 h, refl)
