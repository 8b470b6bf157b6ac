-- ===== src/Tc/Tunnels/Maps.antt =====
-- The trees of TC/kernel_module/src/storage.c as partial maps from keys to pointers.
use laft.Common.{Option, ap, if◌then◌else◌, none, pos, some, ℕ, ◌<◌, ◌==◌, ◌∙◌, ◌≡◌}
use laft.Tc.Bplus.{Key, Tree, find, max_size}
use laft.Tc.Bplus.Search.{IsTree, find-lookup, lookup, tree_entries}
use laft.Tc.Bplus.Refine.{insert-Inserts, kept_or, lookup-put, root_entries-Spans}
use laft.Tc.Bplus.Delete.{delete}
use laft.Tc.Bplus.Delete.Unlink.{lookup-unlink}
use laft.Tc.Bplus.Delete.Refine.{delete-Removes}
use laft.Tc.Tunnels.{Storage, Tunnel, insert_element, key4, key6}

abbrev pub held : Tree ℕ → Key → Option ℕ
held t k = lookup k (tree_entries ℕ t)

pub find-held : (t : Tree ℕ) (k : Key) → IsTree ℕ t → find t k ≡ some (held t k)
find-held t k w = find-lookup ℕ t k w

pub record Inserted (t : Tree ℕ) (k : Key) (p : ℕ) : Type 0 where
  pub tree : Tree ℕ
  pub runs : insert_element t k p ≡ some (tree, pos 1)
  pub well : IsTree ℕ tree
  pub maps : (j : Key) → held tree j ≡ (if k == j then some (kept_or (held t k) p) else held t j)

pub insert_element-Inserted :
    (t : Tree ℕ) (k : Key) (p : ℕ) → IsTree ℕ t → t.size < max_size → Inserted t k p
unfolding insert_element
insert_element-Inserted t k p w room =
    let r = insert-Inserts ℕ t k p w room in
    let s = root_entries-Spans ℕ t.root w.keeps in
    record {
      tree = r.tree;
      runs = rw (insert_element, r.runs);
      well = r.keeps;
      maps = λ j. ap (lookup j) r.puts ∙ lookup-put k j p 0 (tree_entries ℕ t) s.0 s.1;
    }

pub record Deleted (t : Tree ℕ) (k : Key) : Type 0 where
  pub tree : Tree ℕ
  pub runs : delete t k ≡ some (tree, held t k)
  pub well : IsTree ℕ tree
  pub maps : (j : Key) → held tree j ≡ (if k == j then none else held t j)

pub delete-Deleted : (t : Tree ℕ) (k : Key) → IsTree ℕ t → Deleted t k
delete-Deleted t k w =
    let r = delete-Removes ℕ t k w in
    let s = root_entries-Spans ℕ t.root w.keeps in
    record {
      tree = r.tree;
      runs = r.runs;
      well = r.keeps;
      maps = λ j. ap (lookup j) r.takes ∙ lookup-unlink k j 0 (tree_entries ℕ t) s.0 s.1;
    }

-- The tunnel at a pointer in one tree is there, and the other tree leads to it too.
pub record Linked4 (s : Storage) (k : Key) (p : ℕ) : Type 0 where
  pub tunnel : Tunnel
  pub there : s.tunnels p ≡ some tunnel
  pub key : key4 tunnel.ext_ip tunnel.first_port ≡ k
  pub back : held s.tree6 (key6 tunnel.client) ≡ some p

pub record Linked6 (s : Storage) (k : Key) (p : ℕ) : Type 0 where
  pub tunnel : Tunnel
  pub there : s.tunnels p ≡ some tunnel
  pub key : key6 tunnel.client ≡ k
  pub back : held s.tree4 (key4 tunnel.ext_ip tunnel.first_port) ≡ some p

pub record ArePaired (s : Storage) : Type 0 where
  pub well4 : IsTree ℕ s.tree4
  pub well6 : IsTree ℕ s.tree6
  pub from4 : (k : Key) (p : ℕ) → held s.tree4 k ≡ some p → Linked4 s k p
  pub from6 : (k : Key) (p : ℕ) → held s.tree6 k ≡ some p → Linked6 s k p
