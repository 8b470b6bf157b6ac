-- ===== src/Tc/Bplus/Simulate.antt =====
-- Any run of calls of TC/kernel_module/src/bplus.c against a partial map from keys to records.
use laft.Common.{
  ==_iff, Bool-cases, List, Option, [], ap, arith, false, if◌then◌else◌, inl, inr, length, ltb,
  negsuc, none, pos, refl, some, suc, sym, true, ℕ, ℤ, ◌-◌, ◌<◌, ◌==◌, ◌∙◌, ◌∷◌, ◌≡◌, ◌≢◌,
}
use laft.Tc.Bplus.{Key, Tree, find, init, insert, max_size}
use laft.Tc.Bplus.Spans.{Anything, Spans}
use laft.Tc.Bplus.Search.{IsTree, find-lookup, lookup, lookup-above, tree_entries}
use laft.Tc.Bplus.Insert.{put}
use laft.Tc.Bplus.Refine.{insert-Inserts, kept_or, lookup-put, root_entries-Spans}
use laft.Tc.Bplus.Delete.{delete, unlink}
use laft.Tc.Bplus.Delete.Unlink.{length-unlink, lookup-unlink}
use laft.Tc.Bplus.Delete.Refine.{delete-Removes, unlink-absent}

pub data Call (V : Type 0) : Type 0 where
  call_insert : Key → V → Call V
  call_delete : Key → Call V
  call_search : Key → Call V

-- A call returns a status or a record.
pub data Reply (V : Type 0) : Type 0 where
  status : ℤ → Reply V
  content : Option V → Reply V

module _ {V : Type 0} where
  abbrev pub serve : Call V → Tree V → Option (Tree V × Reply V)
  serve (call_insert k v) t = elim (insert t k v) [
    | none ↦ none
    | some (t', r) ↦ some (t', status r)
  ]
  serve (call_delete k) t = elim (delete t k) [ none ↦ none | some (t', r) ↦ some (t', content r) ]
  serve (call_search k) t = elim (find t k) [ none ↦ none | some r ↦ some (t, content r) ]

  abbrev pub serve_all : List (Call V) → Tree V → Option (List (Reply V))
  serve_all [] t = some []
  serve_all (c ∷ cs) t = elim (serve c t) [
    | none ↦ none
    | some (t', r) ↦ elim (serve_all cs t') [ none ↦ none | some rs ↦ some (r ∷ rs) ]
  ]

-- The abstract store: a partial map and the number of its keys.
pub record Contents (V : Type 0) : Type 0 where
  pub record_at : Key → Option V
  pub count : ℕ

module _ {V : Type 0} where
  abbrev pub no_contents : Contents V
  no_contents = record { record_at = λ k. none; count = 0 }

  abbrev pub counted_with : Option V → ℕ → ℕ
  counted_with none n = suc n
  counted_with (some v) n = n

  abbrev pub counted_without : Option V → ℕ → ℕ
  counted_without none n = n
  counted_without (some v) n = n - 1

  abbrev pub expect : Call V → Contents V → Contents V × Reply V
  expect (call_insert k v) m = if m.count == max_size then (m, status (negsuc 0)) else (
    record {
      record_at = λ j. if k == j then some (kept_or (m.record_at k) v) else m.record_at j;
      count = counted_with (m.record_at k) m.count;
    },
    status (pos 0),
  )
  expect (call_delete k) m = (
    record {
      record_at = λ j. if k == j then none else m.record_at j;
      count = counted_without (m.record_at k) m.count;
    },
    content (m.record_at k),
  )
  expect (call_search k) m = (m, content (m.record_at k))

  abbrev pub expect_all : List (Call V) → Contents V → List (Reply V)
  expect_all [] m = []
  expect_all (c ∷ cs) m = (expect c m).1 ∷ expect_all cs (expect c m).0

-- The tree stands for the contents.
record Stands (V : Type 0) (t : Tree V) (m : Contents V) : Type 0 where
  well : IsTree V t
  agrees : (j : Key) → lookup j (tree_entries V t) ≡ m.record_at j
  counts : t.size ≡ m.count

record Served (V : Type 0) (c : Call V) (t : Tree V) (m : Contents V) : Type 0 where
  tree : Tree V
  runs : serve c t ≡ some (tree, (expect c m).1)
  stands : Stands V tree (expect c m).0

suc-counted_with :
    {V : Type 0} (o : Option V) (n : ℕ) → suc (counted_with o n) ≡ counted_with o (suc n)
suc-counted_with none n = refl
suc-counted_with (some v) n = refl

length-put :
    {V : Type 0} (k : Key) (v : V) (lo : ℕ) (es : List (Key × V)) (top : ℕ)
    → Spans Anything lo es top
    → length (put k v es) ≡ counted_with (lookup k es) (length es)
length-put k v lo [] top s = refl
length-put k v lo (e ∷ es) top s = elim (Bool-cases (ltb e.0 k)) [
  | inl d ↦
      let ne : (e.0 == k) ≡ false = ground arith in
      let rest = length-put k v (suc e.0) es top s.2 in
      rw (d, ne) (ap suc rest ∙ suc-counted_with (lookup k es) (length es))
  | inr d ↦ elim (Bool-cases (e.0 == k)) [
    | inl f ↦ rw (d, f)
    | inr f ↦
        let gt : k < e.0 = ground arith in
        rw (d, f, lookup-above k (suc e.0) es top (omega arith) s.2)
  ]
]

-- The size of a well-formed tree is the number of its entries.
size-entries : (V : Type 0) (t : Tree V) → IsTree V t → t.size ≡ length (tree_entries V t)
size-entries V t w = w.counted ∙ ap length w.chained

counted_without-length :
    {V : Type 0} (k : Key) (es : List (Key × V)) (o : Option V)
    → lookup k es ≡ o
    → length (unlink k es) ≡ counted_without o (length es)
counted_without-length k es none e = ap length (unlink-absent k es e)
counted_without-length k es (some v) e = omega (arith, length-unlink k es v e)

insert_full :
    (V : Type 0) (t : Tree V) (k : Key) (v : V)
    → (t.size == max_size) ≡ true
    → insert t k v ≡ some (t, negsuc 0)
unfolding insert
insert_full V t k v e = rw e

insert-Served :
    (V : Type 0) (k : Key) (v : V) (t : Tree V) (m : Contents V)
    → Stands V t m
    → Served V (call_insert k v) t m
insert-Served V k v t m s = elim (Bool-cases (m.count == max_size)) [
  | inl e ↦
      let full : (t.size == max_size) ≡ true = ap (λ n. n == max_size) s.counts ∙ e in
      record { tree = t; runs = rw (serve, insert_full V t k v full, e); stands = rw e s }
  | inr e ↦
      let other : t.size ≢ max_size = λ d. cc ((==_iff _ _).1 (sym s.counts ∙ d)) in
      let r = insert-Inserts V t k v s.well (omega (arith, s.well.bounded, other)) in
      let q = root_entries-Spans V t.root s.well.keeps in
      record {
        tree = r.tree;
        runs = rw (serve, r.runs, e);
        stands = rw e (record {
          well = r.keeps;
          agrees = λ j.
              ap (lookup j) r.puts
              ∙ lookup-put k j v 0 (tree_entries V t) q.0 q.1
              ∙ rw (s.agrees k, s.agrees j);
          counts =
              size-entries V r.tree r.keeps
              ∙ ap length r.puts
              ∙ length-put k v 0 (tree_entries V t) q.0 q.1
              ∙ rw (s.agrees k, sym (size-entries V t s.well), s.counts);
        });
      }
]

delete-Served :
    (V : Type 0) (k : Key) (t : Tree V) (m : Contents V)
    → Stands V t m
    → Served V (call_delete k) t m
delete-Served V k t m s =
    let r = delete-Removes V t k s.well in
    let q = root_entries-Spans V t.root s.well.keeps in
    record {
      tree = r.tree;
      runs = rw (serve, r.runs, s.agrees k);
      stands = record {
        well = r.keeps;
        agrees = λ j.
            ap (lookup j) r.takes
            ∙ lookup-unlink k j 0 (tree_entries V t) q.0 q.1
            ∙ rw (s.agrees j);
        counts =
            size-entries V r.tree r.keeps
            ∙ ap length r.takes
            ∙ counted_without-length k (tree_entries V t) (m.record_at k) (s.agrees k)
            ∙ rw (sym (size-entries V t s.well), s.counts);
      };
    }

search-Served :
    (V : Type 0) (k : Key) (t : Tree V) (m : Contents V)
    → Stands V t m
    → Served V (call_search k) t m
search-Served V k t m s = record {
  tree = t;
  runs = rw (serve, find-lookup V t k s.well, s.agrees k);
  stands = s;
}

call-Served :
    (V : Type 0) (c : Call V) (t : Tree V) (m : Contents V) → Stands V t m → Served V c t m
call-Served V (call_insert k v) t m s = insert-Served V k v t m s
call-Served V (call_delete k) t m s = delete-Served V k t m s
call-Served V (call_search k) t m s = search-Served V k t m s

serve_all-expect_all :
    (V : Type 0) (cs : List (Call V)) (t : Tree V) (m : Contents V)
    → Stands V t m
    → serve_all cs t ≡ some (expect_all cs m)
serve_all-expect_all V [] t m s = refl
serve_all-expect_all V (c ∷ cs) t m s =
    let r = call-Served V c t m s in
    rw (serve_all, r.runs, serve_all-expect_all V cs r.tree (expect c m).0 r.stands)

-- Any calls on a fresh tree all end, and their replies are those of a partial map.
pub init-Refines :
    (V : Type 0) (cs : List (Call V)) → serve_all cs init ≡ some (expect_all cs no_contents)
unfolding init
init-Refines V cs = serve_all-expect_all V cs init no_contents (record {
  well = record { keeps = tt; chained = refl; counted = refl; bounded = omega arith };
  agrees = λ j. refl;
  counts = refl;
})
