-- ===== src/Tc/Bplus/Append.antt =====
-- `_bpinsert` of TC/kernel_module/src/bplus.c for a key beyond the range of the tree: it goes to the
-- end of the list of all entries.
use mathlib.Core.List.{append_assoc, append-nil}
use laft.Common.{
  ==_iff, List, [], ap, arith, false, length, length-append, refl, some, subst, suc, sym, zero, ℕ,
  ◌++◌, ◌<◌, ◌==◌, ◌∙◌, ◌∷◌, ◌≡◌, ◌≤◌,
}
use laft.Tc.Bplus.{
  Key, Node, Part, absorb, append_below, chain_last, last_link, min_degree, pointer_num,
  rename_last, rightmost,
}
use laft.Tc.Bplus.Spans.{Anything, Spans, append-Spans, Spans-le, Spans-length_pos}
use laft.Tc.Bplus.Search.{
  IsNode, IsPart, concat_links-append, entries, entries-Spans, entries-zero, part_entries,
}
use laft.Tc.Bplus.Split.{Grows, Grows-weaken, absorb-Grows, entries-around, split-Grows}

module _ {A : Type 0} (P : ℕ → ℕ → A → Type 0) where
  -- The last link of a range.
  pub record End (lo : ℕ) (ps : List (Key × A)) (top : ℕ) : Type 0 where
    pub before : List (Key × A)
    pub mid : ℕ
    pub at : Key
    pub part : A
    pub splits : ps ≡ before ++ (at, part) ∷ []
    pub spans_before : Spans P lo before mid
    pub mid_le : mid ≤ at
    pub at_part : P mid (suc at) part
    pub at_top : suc at ≡ top

  pub locate-End :
      (lo : ℕ) (ps : List (Key × A)) (top : ℕ) → lo < top → Spans P lo ps top → End lo ps top
  locate-End lo [] top h s = absurd (omega arith)
  locate-End lo (p ∷ []) top h s = record {
    before = [];
    mid = lo;
    at = p.0;
    part = p.1;
    splits = refl;
    spans_before = refl;
    mid_le = s.0;
    at_part = s.1;
    at_top = s.2;
  }
  locate-End lo (p ∷ q ∷ ps) top h s =
      let le = Spans-le P (suc p.0) (q ∷ ps) top s.2 in
      let r = locate-End (suc p.0) (q ∷ ps) top (omega arith) s.2 in
      record {
        before = p ∷ r.before;
        mid = r.mid;
        at = r.at;
        part = r.part;
        splits = ap (◌∷◌ p) r.splits;
        spans_before = (s.0, s.1, r.spans_before);
        mid_le = r.mid_le;
        at_part = r.at_part;
        at_top = r.at_top;
      }

module _ {A : Type 0} where
  pub last_link-end : (xs : List (Key × A)) (p : Key × A) → last_link (xs ++ p ∷ []) ≡ some p
  last_link-end [] p = refl
  last_link-end (x ∷ []) p = refl
  last_link-end (x ∷ y ∷ xs) p = last_link-end (y ∷ xs) p

  last_link-append : (xs ys : List (Key × A)) → 0 < length ys → last_link (xs ++ ys) ≡ last_link ys
  last_link-append [] ys h = refl
  last_link-append (x ∷ []) [] h = absurd (omega arith)
  last_link-append (x ∷ []) (y ∷ ys) h = refl
  last_link-append (x ∷ z ∷ xs) ys h = last_link-append (z ∷ xs) ys h

  pub last_link-located :
      (P : ℕ → ℕ → A → Type 0) (lo : ℕ) (ps : List (Key × A)) (top : ℕ) (r : End P lo ps top)
      → last_link ps ≡ some (r.at, r.part)
  last_link-located P lo ps top r = ap last_link r.splits ∙ last_link-end r.before (r.at, r.part)

  pub rename_last-end :
      (xs : List (Key × A)) (p : Key × A) (k : Key)
      → rename_last (xs ++ p ∷ []) k ≡ xs ++ (k, p.1) ∷ []
  unfolding rename_last
  rename_last-end [] p k = refl
  rename_last-end (x ∷ []) p k = refl
  rename_last-end (x ∷ y ∷ xs) p k = ap (◌∷◌ x) (rename_last-end (y ∷ xs) p k)

entries-end :
    (V : Type 0) (h : ℕ) (xs : List (Key × Node (Part V h))) (p : Key × Node (Part V h))
    → entries V (suc h) (xs ++ p ∷ []) ≡ entries V (suc h) xs ++ entries V h p.1.links
entries-end V h xs p =
    entries-around V h xs p [] ∙ ap (λ z. entries V (suc h) xs ++ z) (append-nil _)

pub append_below-Grows :
    (V : Type 0) (h lo top : ℕ) (n : Node (Part V h)) (k : Key) (v : V)
    → lo < top
    → top ≤ k
    → IsNode V h lo top n
    → Grows V h lo
        (suc k)
        (pointer_num n)
        ⊥
        (entries V h n.links ++ (k, v) ∷ [])
        (append_below h n k v)
unfolding append_below
append_below-Grows V zero lo top n k v hl hg w =
    let links' = n.links ++ (k, v) ∷ [] in
    let more : length links' ≡ suc (length n.links) =
      omega (arith, length-append {0} n.links ((k, v) ∷ [])) in
    let same : entries V zero links' ≡ entries V zero n.links ++ (k, v) ∷ [] =
      concat_links-append (part_entries V zero) n.links ((k, v) ∷ []) in
    subst (λ z. Grows V zero lo (suc k) (pointer_num n) ⊥ z (append_below zero n k v)) same
      (split-Grows V zero lo (suc k) (pointer_num n) ⊥ (record { key = k; links = links' }) refl
        (append-Spans (IsPart V zero) lo n.links top ((k, v) ∷ []) (suc k) w.1 (hg, tt, refl))
        (omega (arith, more, w.2)) (omega (arith, more)))
append_below-Grows V (suc h) lo top n k v hl hg w =
    let r = locate-End (IsPart V (suc h)) lo n.links top hl w.1 in
    let last : last_link n.links ≡ some (r.at, r.part) =
      rw r.splits (last_link-end r.before (r.at, r.part)) in
    let renamed : rename_last n.links k ≡ r.before ++ (k, r.part) ∷ [] =
      rw r.splits (rename_last-end r.before (r.at, r.part) k) in
    let n' : Node (Node (Part V h)) = record { key = k; links = rename_last n.links k } in
    let same : pointer_num n' ≡ pointer_num n = omega (
      arith,
      ap length renamed,
      ap length r.splits,
      length-append {0} r.before ((r.at, r.part) ∷ []),
      length-append {0} r.before ((k, r.part) ∷ []),
    ) in
    let adds : entries V (suc h) r.before ++ ((entries V h r.part.links ++ (k, v) ∷ []) ++ [])
        ≡ entries V (suc h) n.links ++ (k, v) ∷ [] =
      ap (λ z. entries V (suc h) r.before ++ z) (append-nil _)
      ∙ sym (append_assoc (entries V (suc h) r.before) (entries V h r.part.links) ((k, v) ∷ []))
      ∙ ap (λ z. z ++ (k, v) ∷ [])
          (sym (entries-end V h r.before (r.at, r.part)) ∙ ap (entries V (suc h)) (sym r.splits)) in
    rw (append_below, last)
      (subst
        (λ z.
          Grows V (suc h) lo (suc k) (pointer_num n) ⊥ z (absorb n' k (append_below h r.part k v)))
        adds
        (Grows-weaken V (suc h) lo (suc k) (pointer_num n') (pointer_num n) ⊥ _
          (absorb n' k (append_below h r.part k v)) (omega (arith, same))
          (absorb-Grows V h lo r.mid (suc k) k k n' r.before r.part [] renamed refl r.spans_before
            (omega (arith, r.mid_le, r.at_top)) (omega arith) refl (omega (arith, same, w.2)) ⊥ _
            (append_below h r.part k v)
            (Grows-weaken V h r.mid (suc k) (pointer_num r.part) min_degree ⊥ _
              (append_below h r.part k v) r.at_part.2
              (append_below-Grows V h r.mid (suc r.at) r.part k v (omega (arith, r.mid_le))
                (omega (arith, r.at_top)) (r.at_part.0, r.at_part.1, r.at_part.3))))))

module _ {V : Type 0} where
  last_link-top :
      (lo : ℕ) (es : List (Key × V)) (p : Key × V) (top : ℕ)
      → Spans Anything lo es top
      → last_link es ≡ some p
      → suc p.0 ≡ top
  last_link-top lo [] p top s e = cc
  last_link-top lo (y ∷ []) p top s e = let same : y ≡ p = cc in ap (λ z. suc z.0) (sym same) ∙ s.2
  last_link-top lo (y ∷ z ∷ es) p top s e = last_link-top (suc y.0) (z ∷ es) p top s.2 e

  pub rightmost-last :
      (h lo : ℕ) (ps : List (Key × Part V h)) (top : ℕ)
      → lo < top
      → Spans (IsPart V h) lo ps top
      → rightmost h ps ≡ last_link (entries V h ps)
  unfolding rightmost
  rightmost-last zero lo ps top h s = ap last_link (sym (entries-zero ps))
  rightmost-last (suc h) lo ps top hl s =
      let r = locate-End (IsPart V (suc h)) lo ps top hl s in
      rw (r.splits, rightmost, last_link-end r.before (r.at, r.part))
        (rightmost-last h r.mid r.part.links (suc r.at) (omega (arith, r.mid_le)) r.at_part.1
          ∙ sym (
              ap last_link (entries-end V h r.before (r.at, r.part))
              ∙ last_link-append (entries V (suc h) r.before) (entries V h r.part.links) (
                  Spans-length_pos Anything r.mid (entries V h r.part.links) (suc r.at)
                    (omega (arith, r.mid_le))
                    (entries-Spans V h r.mid r.part.links (suc r.at) r.at_part.1))))

  -- The chain grows at its end.
  pub chain_last-appends :
      (lo : ℕ) (es : List (Key × V)) (p x : Key × V) (top : ℕ)
      → Spans Anything lo es top
      → last_link es ≡ some p
      → chain_last es p.0 x ≡ es ++ x ∷ []
  unfolding chain_last
  chain_last-appends lo [] p x top s e = cc
  chain_last-appends lo (y ∷ []) p x top s e =
      let same : y ≡ p = cc in rw (same, (==_iff p.0 p.0).1 refl)
  chain_last-appends lo (y ∷ z ∷ es) p x top s e =
      let at_top = last_link-top lo (y ∷ z ∷ es) p top s e in
      let ne : (y.0 == p.0) ≡ false =
        ground (arith, at_top, Spans-le Anything (suc y.0) (z ∷ es) top s.2) in
      rw ne (ap (◌∷◌ y) (chain_last-appends (suc y.0) (z ∷ es) p x top s.2 e))
