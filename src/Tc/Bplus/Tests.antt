-- ===== src/Tc/Bplus/Tests.antt =====
-- Trees of TC/kernel_module/src/bplus.c with one and with two levels.
use Prim.Native.Nat.{Ordering}
use mathlib.Core.Option
use laft.Common.{List, [], arith, none, pos, refl, some, suc, zero, ℕ, ◌++◌, ◌∷◌, ◌≡◌, ◌≤◌}
use laft.Tc.Bplus.{Key, Tree, find, grow, height, init, insert, put_halves, split}
use laft.Tc.Bplus.Keys.{bpcmp, bpcmp-compare}
use laft.Tc.Bplus.Search.{IsTree, find-lookup}
use laft.Tc.Bplus.Refine.{Inserts, insert-Inserts}
use laft.Tc.Bplus.Height.{height-bounded}
use laft.Tc.Bplus.Delete.{
  delete, delete_below, delete_from, delete_leaf, delete_root, merge, merge_at, merge_pair,
  pass_root, rename, renamed, set_part, settle,
}
use laft.Tc.Bplus.Delete.Refine.{Removes, delete-Removes}
use laft.Tc.Bplus.Simulate.{
  Call, call_delete, call_insert, call_search, content, init-Refines, serve_all, status,
}

abbrev low : List (Key × ℕ)
low = (10, 1) ∷ (20, 2) ∷ (30, 3) ∷ (40, 4) ∷ []

abbrev high : List (Key × ℕ)
high = (50, 5) ∷ (60, 6) ∷ (70, 7) ∷ (80, 8) ∷ []

abbrev full_leaf : Tree ℕ
full_leaf = record {
  root = some (zero, record { key = 80; links = low ++ high });
  header = low ++ high;
  size = 8;
}

abbrev two_leaves : Tree ℕ
two_leaves = record {
  root = some (
    suc zero,
    record {
      key = 80;
      links = (40, record { key = 40; links = low }) ∷ (80, record { key = 80; links = high }) ∷ [];
    },
  );
  header = low ++ high;
  size = 8;
}

full_leaf-IsTree : IsTree ℕ full_leaf
full_leaf-IsTree = record {
  keeps = omega arith;
  chained = refl;
  counted = refl;
  bounded = omega arith;
}

two_leaves-IsTree : IsTree ℕ two_leaves
two_leaves-IsTree = record {
  keeps = omega arith;
  chained = refl;
  counted = refl;
  bounded = omega arith;
}

-- The ninth entry splits the leaf in a left half of five and a right half of four.
split_shape :
    Option.map (λ r. r.0.root) (insert full_leaf 45 9)
    ≡ some (
        some (
          suc zero,
          record {
            key = 80;
            links =
                (45, record { key = 45; links = low ++ (45, 9) ∷ [] })
                ∷ (80, record { key = 80; links = high })
                ∷ [];
          },
        ))
unfolding insert split put_halves
split_shape = refl

-- The merged leaf of seven takes the place of the root.
merge_shape :
    Option.map (λ r. r.0.root) (delete two_leaves 20)
    ≡ some (some (zero, record { key = 80; links = (10, 1) ∷ (30, 3) ∷ (40, 4) ∷ high }))
unfolding delete delete_from delete_root delete_below pass_root delete_leaf renamed rename set_part
    merge merge_pair merge_at settle split grow
merge_shape = refl

insert-Inserts_example : Inserts ℕ full_leaf 45 9
insert-Inserts_example = insert-Inserts ℕ full_leaf 45 9 full_leaf-IsTree (omega arith)

delete-Removes_example : Removes ℕ two_leaves 20 (delete two_leaves 20)
delete-Removes_example = delete-Removes ℕ two_leaves 20 two_leaves-IsTree

height-bounded_example : height two_leaves ≤ 10
height-bounded_example = height-bounded ℕ two_leaves two_leaves-IsTree

find-lookup_example : find two_leaves 60 ≡ some (some 6)
find-lookup_example = find-lookup ℕ two_leaves 60 two_leaves-IsTree

abbrev calls : List (Call ℕ)
calls = call_insert 7 1 ∷ call_insert 7 2 ∷ call_search 7 ∷ call_delete 7 ∷ call_search 7 ∷ []

init-Refines_example :
    serve_all calls init
    ≡ some
        (status (pos 0) ∷ status (pos 0) ∷ content (some 1) ∷ content (some 1) ∷ content none ∷ [])
init-Refines_example = init-Refines ℕ calls

bpcmp-compare_example : bpcmp (192 ∷ 0 ∷ 2 ∷ 1 ∷ []) (192 ∷ 0 ∷ 2 ∷ 9 ∷ []) ≡ some Ordering.lt
bpcmp-compare_example =
    bpcmp-compare 0 (192 ∷ 0 ∷ 2 ∷ 1 ∷ []) (192 ∷ 0 ∷ 2 ∷ 9 ∷ []) refl (omega arith) (omega arith)
