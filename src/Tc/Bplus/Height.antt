-- ===== src/Tc/Bplus/Height.antt =====
-- The height of the tree of TC/kernel_module/src/bplus.c, which bounds its descents.
use laft.Common.{
  ==_iff, Bool-cases, List, Option, [], ap, arith, inl, inr, leb, leb→le, length, length-append,
  none, refl, some, subst, suc, sym, zero, ℕ, ◌*◌, ◌+◌, ◌<◌, ◌==◌, ◌∷◌, ◌≡◌, ◌≤◌,
}
use laft.Tc.Bplus.{Key, Node, Part, Tree, height, levels, max_size, pointer_num}
use laft.Tc.Bplus.Spans.{Spans}
use laft.Tc.Bplus.Search.{
  IsNode, IsPart, IsRoot, IsTree, concat_links, entries, part_entries, root_degree, tree_entries,
}

-- The fewest entries of a part.
abbrev fewest : ℕ → ℕ
fewest zero = 1
fewest (suc h) = 4 * fewest h

fewest_high : (h : ℕ) → 10 ≤ h → 1048576 ≤ fewest h
fewest_high zero le = absurd (omega arith)
fewest_high (suc h) le = elim (Bool-cases (h == 9)) [
  | inl e ↦ subst (λ z. 1048576 ≤ fewest (suc z)) (sym ((==_iff h 9).0 e)) (omega arith)
  | inr e ↦ let more : 10 ≤ h = ground arith in omega (arith, fewest_high h more)
]

abbrev times : ℕ → ℕ → ℕ
times zero m = 0
times (suc n) m = m + times n m

length-concat_links :
    {A V : Type 0} (P : ℕ → ℕ → A → Type 0) (f : Key → A → List (Key × V)) (m n lo : ℕ)
    (ps : List (Key × A)) (top : ℕ)
    → ((lo k : ℕ) (a : A) → P lo (suc k) a → m ≤ length (f k a))
    → n ≤ length ps
    → Spans P lo ps top
    → times n m ≤ length (concat_links f ps)
length-concat_links P f m zero lo ps top g h s = omega arith
length-concat_links P f m (suc n) lo [] top g h s = absurd (omega arith)
length-concat_links P f m (suc n) lo (p ∷ ps) top g h s = omega (
  arith,
  g lo p.0 p.1 s.1,
  length-append {0} (f p.0 p.1) (concat_links f ps),
  length-concat_links P f m n (suc p.0) ps top g (omega arith) s.2,
)

fewest_entries :
    (V : Type 0) (h lo k : ℕ) (a : Part V h)
    → IsPart V h lo (suc k) a
    → fewest h ≤ length (part_entries V h k a)
fewest_entries V zero lo k a w = omega arith
fewest_entries V (suc h) lo k n w = omega (
  arith,
  length-concat_links (IsPart V h) (part_entries V h) (fewest h) 4 lo n.links (suc k)
      (fewest_entries V h) w.2 w.1,
)

height_of_entries :
    (V : Type 0) (h : ℕ) (n : Node (Part V h))
    → IsNode V h 0 (suc n.key) n
    → root_degree h ≤ pointer_num n
    → length (entries V h n.links) ≤ max_size
    → h ≤ 9
height_of_entries V zero n w d b = omega arith
height_of_entries V (suc h) n w d b =
    let some_entries =
      length-concat_links (IsPart V (suc h)) (part_entries V (suc h)) (fewest (suc h)) 2 0 n.links
        (suc n.key) (fewest_entries V (suc h)) d w.1 in
    elim (Bool-cases (leb (suc h) 9)) [
      | inl e ↦ leb→le _ _ e
      | inr e ↦
          let high : 10 ≤ suc h = ground arith in
          absurd (omega (arith, fewest_high (suc h) high, some_entries, b))
    ]

levels-links :
    (V : Type 0) (h lo : ℕ) (ps : List (Key × Part V h)) (top : ℕ)
    → lo < top
    → Spans (IsPart V h) lo ps top
    → levels V h ps ≡ suc h
unfolding levels
levels-links V zero lo ps top l s = refl
levels-links V (suc h) lo [] top l s = absurd (omega arith)
levels-links V (suc h) lo (p ∷ ps) top l s =
    ap suc (levels-links V h lo p.1.links (suc p.0) (omega (arith, s.0)) s.1.1)

height_at :
    (V : Type 0) (t : Tree V) (r : Option ((h : ℕ) × Node (Part V h)))
    → IsRoot V r
    → length (tree_entries V (record t { root = r })) ≤ max_size
    → height (record t { root = r }) ≤ 10
unfolding height
height_at V t none w b = omega arith
height_at V t (some (h, n)) w b = omega (
  arith,
  levels-links V h 0 n.links (suc n.key) (omega arith) w.0.1,
  height_of_entries V h n w.0 w.1 b,
)

-- A well-formed tree is at most ten nodes high.
pub height-bounded : (V : Type 0) (t : Tree V) → IsTree V t → height t ≤ 10
height-bounded V t w =
    height_at V t t.root w.keeps (omega (arith, w.bounded, w.counted, ap length w.chained))
