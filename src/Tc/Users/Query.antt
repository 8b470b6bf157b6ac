-- ===== src/Tc/Users/Query.antt =====
-- A query of the daemon in TC/user_module/src/tcuserinfo.c, answered from the trees of the kernel.
use mathlib.Core.Option.{some-injective}
use laft.Common.{
  ==_iff, List, Option, Option-cases, [], ap, inl, inr, length, none, pos, some, subst, suc, sym,
  true, ℕ, ◌*◌, ◌+◌, ◌<◌, ◌==◌, ◌∙◌, ◌∷◌, ◌≡◌, ◌≤◌,
}
use laft.Tc.Users.{
  Sender, UserPool, batch, header_size, max_msg_size, max_user_pool_num, process_total, records_of,
  restart, user_records,
}
use laft.Tc.Users.Messages.{Holds}
use laft.Tc.Users.Deliver.{Delivered, process_info-count}
use laft.Tc.Tunnels.{Storage, Tunnel, size_of_element}
use laft.Tc.Bplus.{Key}
use laft.Tc.Bplus.Search.{IsTree, tree_entries}

length-records_of :
    (tunnels : ℕ → Option Tunnel) (xs : List (Key × ℕ)) (ts : List Tunnel)
    → records_of tunnels xs ≡ some ts
    → length ts ≡ length xs
length-records_of tunnels [] ts e = ap length (some-injective ts [] (sym e))
length-records_of tunnels (x ∷ xs) ts e = elim (Option-cases (tunnels x.1)) [
  | inl f ↦ let gone : records_of tunnels (x ∷ xs) ≡ none = rw (records_of, f) in absurd cc
  | inr (t, f) ↦ elim (Option-cases (records_of tunnels xs)) [
    | inl g ↦ let gone : records_of tunnels (x ∷ xs) ≡ none = rw (records_of, f, g) in absurd cc
    | inr (us, g) ↦
        let all : records_of tunnels (x ∷ xs) ≡ some (t ∷ us) = rw (records_of, f, g) in
        ap length (some-injective ts (t ∷ us) (sym e ∙ all))
        ∙ ap suc (length-records_of tunnels xs us g)
  ]
]

-- A count that has gone wrong is not sent.
length-user_records :
    (st : Storage) (ts : List Tunnel)
    → IsTree ℕ st.tree4
    → user_records st ≡ some ts
    → length ts ≡ st.tree4.size
unfolding user_records
length-user_records st ts w e = elim (Option-cases st.tree4.root) [
  | inl f ↦
      let empty : user_records st ≡ some [] = rw (user_records, f) in
      let no_entries : tree_entries ℕ st.tree4 ≡ [] = rw f in
      ap length (some-injective ts [] (sym e ∙ empty))
      ∙ sym (w.counted ∙ ap length (w.chained ∙ no_entries))
  | inr (r, f) ↦
      let chain : user_records st ≡ records_of st.tunnels st.tree4.header = rw (user_records, f) in
      length-records_of st.tunnels st.tree4.header ts (sym chain ∙ e) ∙ sym w.counted
]

-- The daemon asks for the number of users and then for the users, in a kernel whose tree of
-- addresses is well formed and counts as many as the other, whose sender can start and whose batch
-- fits a message: all users, if the pool has room for them, arrive in the order of the tree, and the
-- sender can start again.
pub process_info-Delivered :
    (size : ℕ) (st : Storage) (ts : List Tunnel) (s : Sender) (p : UserPool)
    → 0 < size
    → batch * size + header_size ≤ max_msg_size
    → IsTree ℕ st.tree4
    → st.tree4.size ≡ st.tree6.size
    → user_records st ≡ some ts
    → Holds size (restart s) []
    → length ts ≤ max_user_pool_num
    → p.recved ≡ 0
    → Delivered size (process_total st).0 s ts p
unfolding process_total size_of_element
process_info-Delivered size st ts s p h fits w same records ready room start =
    let count : (process_total st).0 ≡ pos (length ts) =
      let equal : (st.tree4.size == st.tree6.size) ≡ true = (==_iff _ _).1 same in
      rw equal (ap pos (sym (length-user_records st ts w records))) in
    subst (λ z. Delivered size z s ts p) (sym count)
      (process_info-count size h fits ts s p ready room start)
