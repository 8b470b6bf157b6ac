-- ===== src/Tc/Bplus/Search.antt =====
-- The search of TC/kernel_module/src/bplus.c against the sorted list of all entries of the tree.
use mathlib.Core.List.{append_assoc}
use laft.Common.{
  Bool-cases, List, Option, [], ap, arith, false, if◌then◌else◌, inl, inr, length, ltb, ltb→lt,
  lt→ltb, none, refl, some, suc, sym, zero, ℕ, ◌++◌, ◌<◌, ◌==◌, ◌∙◌, ◌∷◌, ◌≡◌, ◌≤◌,
}
use laft.Tc.Bplus.{
  Key, Node, Part, Tree, descend, find, max_degree, max_size, min_degree, pointer_num, seek,
}
use laft.Tc.Bplus.Spans.{Anything, Below, Spans-Below, Spans, append-Spans, locate, seek-at}

abbrev pub concat_links : {A B : Type 0} → (Key → A → List B) → List (Key × A) → List B
concat_links f [] = []
concat_links f (p ∷ ps) = f p.0 p.1 ++ concat_links f ps

-- The entries of a part, from left to right.
abbrev pub part_entries : (V : Type 0) (h : ℕ) → Key → Part V h → List (Key × V)
part_entries V zero k v = (k, v) ∷ []
part_entries V (suc h) k n = concat_links (part_entries V h) n.links

abbrev pub entries : (V : Type 0) (h : ℕ) → List (Key × Part V h) → List (Key × V)
entries V h ps = concat_links (part_entries V h) ps

-- A node keeps to its range, its key is the last one of it, and it has no more links than allowed;
-- a part that is a node has enough of them.
abbrev pub IsPart : (V : Type 0) (h : ℕ) → ℕ → ℕ → Part V h → Type 0
IsPart V zero lo top v = Unit
IsPart V (suc h) lo top n =
    (suc n.key ≡ top)
    × Spans (IsPart V h) lo n.links top
    × (min_degree ≤ pointer_num n)
    × (pointer_num n ≤ max_degree)

abbrev pub IsNode : (V : Type 0) (h : ℕ) → ℕ → ℕ → Node (Part V h) → Type 0
IsNode V h lo top n =
    (suc n.key ≡ top) × Spans (IsPart V h) lo n.links top × (pointer_num n ≤ max_degree)

module _ {A B : Type 0} (f : Key → A → List B) where
  pub concat_links-append :
      (xs ys : List (Key × A)) → concat_links f (xs ++ ys) ≡ concat_links f xs ++ concat_links f ys
  concat_links-append [] ys = refl
  concat_links-append (x ∷ xs) ys = simp (concat_links-append xs ys, append_assoc)

-- The entries of links that share out a range do so too.
pub concat_links-Spans :
    {A V : Type 0} (P : ℕ → ℕ → A → Type 0) (f : Key → A → List (Key × V))
    → ((lo k : ℕ) (a : A) → lo ≤ k → P lo (suc k) a → Spans Anything lo (f k a) (suc k))
    → (lo : ℕ) (ps : List (Key × A)) (top : ℕ) → Spans P lo ps top
    → Spans Anything lo (concat_links f ps) top
concat_links-Spans P f g lo [] top s = s
concat_links-Spans P f g lo (p ∷ ps) top s =
    append-Spans Anything lo (f p.0 p.1) (suc p.0) (concat_links f ps) top (g lo p.0 p.1 s.0 s.1)
      (concat_links-Spans P f g (suc p.0) ps top s.2)

pub part_entries-Spans :
    (V : Type 0) (h lo k : ℕ) (a : Part V h)
    → lo ≤ k
    → IsPart V h lo (suc k) a
    → Spans Anything lo (part_entries V h k a) (suc k)
part_entries-Spans V zero lo k a h s = (h, tt, refl)
part_entries-Spans V (suc n) lo k a h s =
    concat_links-Spans (IsPart V n) (part_entries V n) (part_entries-Spans V n) lo a.links (suc k)
      s.1

pub entries-Spans :
    (V : Type 0) (h lo : ℕ) (ps : List (Key × Part V h)) (top : ℕ)
    → Spans (IsPart V h) lo ps top
    → Spans Anything lo (entries V h ps) top
entries-Spans V h lo ps top s =
    concat_links-Spans (IsPart V h) (part_entries V h) (part_entries-Spans V h) lo ps top s

module _ {V : Type 0} where
  -- The association list that the tree stands for.
  abbrev pub lookup : Key → List (Key × V) → Option V
  lookup k [] = none
  lookup k (p ∷ ps) = if p.0 == k then some p.1 else lookup k ps

  pub seek-skip : (k : Key) (xs ys : List (Key × V)) → Below k xs → seek (xs ++ ys) k ≡ seek ys k
  seek-skip k [] ys b = refl
  seek-skip k (x ∷ xs) ys b = rw (lt→ltb _ _ b.0) (seek-skip k xs ys b.1)

  pub seek-stop :
      (k lo : ℕ) (ys zs : List (Key × V)) (top : ℕ)
      → lo ≤ k
      → k < top
      → Spans Anything lo ys top
      → seek (ys ++ zs) k ≡ seek ys k
  seek-stop k lo [] zs top h g s = absurd (omega arith)
  seek-stop k lo (y ∷ ys) zs top h g s = elim (Bool-cases (ltb y.0 k)) [
    | inl e ↦ rw e (seek-stop k (suc y.0) ys zs top (ltb→lt _ _ e) g s.2)
    | inr e ↦ rw e
  ]

  pub entries-zero : (ps : List (Key × V)) → entries V zero ps ≡ ps
  entries-zero [] = refl
  entries-zero (p ∷ ps) = ap (◌∷◌ p) (entries-zero ps)

  -- A descent finds what a walk along all the entries finds.
  pub descend-seek :
      (h lo : ℕ) (ps : List (Key × Part V h)) (top k : ℕ)
      → lo ≤ k
      → k < top
      → Spans (IsPart V h) lo ps top
      → descend h ps k ≡ seek (entries V h ps) k
  unfolding descend
  descend-seek zero lo ps top k h g s = ap (λ es. seek es k) (sym (entries-zero ps))
  descend-seek (suc h) lo ps top k hl hg s =
      let r = locate (IsPart V (suc h)) lo ps top k hl hg s in
      let below = Spans-Below (IsPart V (suc h)) lo r.before r.mid k r.mid_le r.spans_before in
      let below' =
        Spans-Below Anything lo (entries V (suc h) r.before) r.mid k r.mid_le
          (entries-Spans V (suc h) lo r.before r.mid r.spans_before) in
      rw
        (
          r.splits,
          descend,
          seek-at k r.before (r.at, r.part) r.after below r.le_at,
          concat_links-append (part_entries V (suc h)) r.before ((r.at, r.part) ∷ r.after),
          seek-skip k (entries V (suc h) r.before) _ below',
        )
        (descend-seek h r.mid r.part.links (suc r.at) k r.mid_le (omega (arith, r.le_at))
            r.at_part.1
          ∙ sym (
              seek-stop k r.mid (entries V h r.part.links) (entries V (suc h) r.after) (suc r.at)
                r.mid_le (omega (arith, r.le_at))
                (entries-Spans V h r.mid r.part.links (suc r.at) r.at_part.1)))

  pub lookup-above :
      (k lo : ℕ) (es : List (Key × V)) (top : ℕ)
      → k < lo
      → Spans Anything lo es top
      → lookup k es ≡ none
  lookup-above k lo [] top h s = refl
  lookup-above k lo (e ∷ es) top h s =
      let ne : (e.0 == k) ≡ false = ground arith in
      rw ne (lookup-above k (suc e.0) es top (omega arith) s.2)

  pub lookup-Below : (k : Key) (es : List (Key × V)) → Below k es → lookup k es ≡ none
  lookup-Below k [] b = refl
  lookup-Below k (e ∷ es) b =
      let ne : (e.0 == k) ≡ false = ground arith in rw ne (lookup-Below k es b.1)

  -- The first entry that is not below the key settles the lookup.
  pub record Sought (es : List (Key × V)) (k : Key) : Type 0 where
    pub entry : Key × V
    pub found : seek es k ≡ some entry
    pub le_entry : k ≤ entry.0
    pub settles : (if entry.0 == k then some entry.1 else none) ≡ lookup k es

  pub lookup-seek :
      (k lo : ℕ) (es : List (Key × V)) (top : ℕ)
      → lo ≤ k
      → k < top
      → Spans Anything lo es top
      → Sought es k
  lookup-seek k lo [] top h g s = absurd (omega arith)
  lookup-seek k lo (e ∷ es) top h g s = elim (Bool-cases (ltb e.0 k)) [
    | inl d ↦
        let ne : (e.0 == k) ≡ false = ground arith in
        let r = lookup-seek k (suc e.0) es top (ltb→lt _ _ d) g s.2 in
        record {
          entry = r.entry;
          found = rw d r.found;
          le_entry = r.le_entry;
          settles = rw ne r.settles;
        }
    | inr d ↦ record {
      entry = e;
      found = rw d;
      le_entry = ground arith;
      settles = elim (Bool-cases (e.0 == k)) [
        | inl f ↦ rw f
        | inr f ↦
            let gt : k < e.0 = ground arith in
            rw (f, lookup-above k (suc e.0) es top (omega arith) s.2)
      ];
    }
  ]

-- The tree: the header chains all entries in order, and the size counts them.
abbrev pub tree_entries : (V : Type 0) → Tree V → List (Key × V)
tree_entries V t = elim t.root [ none ↦ [] | some (h, n) ↦ entries V h n.links ]

abbrev pub root_degree : ℕ → ℕ
root_degree zero = 1
root_degree (suc h) = 2

abbrev pub IsRoot : (V : Type 0) → Option ((h : ℕ) × Node (Part V h)) → Type 0
IsRoot V none = Unit
IsRoot V (some (h, n)) = IsNode V h 0 (suc n.key) n × (root_degree h ≤ pointer_num n)

pub record IsTree (V : Type 0) (t : Tree V) : Type 0 where
  pub keeps : IsRoot V t.root
  pub chained : t.header ≡ tree_entries V t
  pub counted : t.size ≡ length t.header
  pub bounded : t.size ≤ max_size

find_at :
    (V : Type 0) (t : Tree V) (r : Option ((h : ℕ) × Node (Part V h))) (k : Key)
    → IsRoot V r
    → find (record t { root = r }) k ≡ some (lookup k (tree_entries V (record t { root = r })))
unfolding find
find_at V t none k w = refl
find_at V t (some (h, n)) k w = elim (Bool-cases (ltb n.key k)) [
  | inl e ↦ rw (
    e,
    lookup-Below k (entries V h n.links) (
        Spans-Below Anything 0 (entries V h n.links) (suc n.key) k (ltb→lt _ _ e)
          (entries-Spans V h 0 n.links (suc n.key) w.0.1)),
  )
  | inr e ↦
      let le : k < suc n.key = ground arith in
      let r =
        lookup-seek k 0 (entries V h n.links) (suc n.key) (omega arith) le
          (entries-Spans V h 0 n.links (suc n.key) w.0.1) in
      rw (e, descend-seek h 0 n.links (suc n.key) k (omega arith) le w.0.1, r.found, r.settles)
]

-- On a well-formed tree a search ends, and it finds what the list of entries holds under the key.
pub find-lookup :
    (V : Type 0) (t : Tree V) (k : Key) → IsTree V t → find t k ≡ some (lookup k (tree_entries V t))
find-lookup V t k w = find_at V t t.root k w.keeps
