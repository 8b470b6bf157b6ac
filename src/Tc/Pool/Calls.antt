-- ===== src/Tc/Pool/Calls.antt =====
-- The pool of TC/user_module/src/addrpoolentity.c with its clients: whoever was told a range by
-- `AllocAddrPort` holds it until it is given to `DeallocAddrPort`, with the same `uiRange`.
use mathlib.Core.Bool.{false≢true}
use laft.Common.{
  All, AllPairs, Bool-cases, List, arith, erase_at, false, get_elem?, inl, inr, leb, leb→le, length,
  ltb, some, sym, true, ℕ, ◌*◌, ◌+◌, ◌<◌, ◌==◌, ◌∙◌, ◌∷◌, ◌≡◌, ◌≢◌, ◌≤◌, ◌⊎◌,
}
use laft.Tc.Bitmap.Laws.{taken}
use laft.Tc.Bitmap.Ranges.{within}
use laft.Tc.Pool.{
  PoolList, alloc_addr_port, dealloc_addr_port, freed, got, mini_range, node_at, refused,
  start_port,
}
use laft.Tc.Pool.Tries.{busy}
use laft.Tc.Pool.Alloc.{IsPool}
use laft.Tc.Pool.Free.{Distinct}

-- What a client was told: the start port and the address.
abbrev pub Lease : Type 0
Lease = ℕ × ℕ

pub record World : Type 0 where
  pub pool : PoolList
  pub leases : List Lease

-- One call, by any client, in any order.
pub data Call (range : ℕ) (w w' : World) : Type 0 where
  grant :
      (fuel start stop addr : ℕ) (pool : PoolList)
      → alloc_addr_port fuel range w.pool ≡ some (got start stop addr pool)
      → w' ≡ record { pool = pool; leases = (start, addr) ∷ w.leases }
      → Call range w w'
  deny :
      (fuel : ℕ) (pool : PoolList)
      → alloc_addr_port fuel range w.pool ≡ some (refused pool)
      → w' ≡ record w { pool = pool }
      → Call range w w'
  give_back :
      (i start addr : ℕ) (pool : PoolList)
      → get_elem? w.leases i ≡ some (start, addr)
      → dealloc_addr_port range start addr w.pool ≡ freed pool
      → w' ≡ record { pool = pool; leases = erase_at w.leases i }
      → Call range w w'

pub data Calls (range : ℕ) (w : World) : World → Type 0 where
  none_yet : Calls range w w
  then_call : {u v : World} → Calls range w u → Call range u v → Calls range w v

-- Two leases share no port: of two addresses, or one behind the other.
abbrev pub Apart : ℕ → Lease → Lease → Type 0
Apart range a b = (a.1 ≢ b.1) ⊎ (a.0 + range * mini_range ≤ b.0) ⊎ (b.0 + range * mini_range ≤ a.0)

pub Apart-symm : (range : ℕ) (a b : Lease) → Apart range a b → Apart range b a
Apart-symm range a b (inl h) = inl (λ e. h (sym e))
Apart-symm range a b (inr (inl h)) = inr (inr h)
Apart-symm range a b (inr (inr h)) = inr (inl h)

-- The bits of a lease are handed out.
pub record Holds (range : ℕ) (l : PoolList) (a : Lease) : Type 0 where
  pub slot : ℕ
  pub bit : ℕ
  pub slot_in : slot < length l.nodes
  pub bits_in : bit + range ≤ 64
  pub of_slot : a.1 ≡ (node_at l.nodes slot).ip
  pub starts : a.0 ≡ start_port bit
  pub held : (j : ℕ) → within bit range j ≡ true → busy l.nodes slot j ≡ true

pub record IsSound (range : ℕ) (w : World) : Type 0 where
  pub valid : IsPool range w.pool
  pub distinct : Distinct w.pool.nodes
  pub holds : All (Holds range w.pool) w.leases
  pub apart : AllPairs (Apart range) w.leases

-- Ranges of bits that are apart are ranges of ports that are apart, and the other way round.
swap {ℓ κ} : {A : Type ℓ} {B : Type κ} → A ⊎ B → B ⊎ A
swap (inl a) = inr a
swap (inr b) = inl b

-- The ports of two ranges of bits are in the order of the bits, but for port 0 at the last bit.
ports_order :
    (range a b : ℕ)
    → 1 ≤ range
    → b + range ≤ 64
    → a + range ≤ b
    → (start_port a + range * mini_range ≤ start_port b)
      ⊎ (start_port b + range * mini_range ≤ start_port a)
ports_order range a b some_range hb h = elim (Bool-cases (b == 63)) [
  | inl e ↦ let k : b ≡ 63 = ground arith in inr (omega arith)
  | inr e ↦ let k : b ≢ 63 = ground arith in inl (omega arith)
]

pub ports_apart :
    (range a b : ℕ)
    → 1 ≤ range
    → a + range ≤ 64
    → b + range ≤ 64
    → (a + range ≤ b) ⊎ (b + range ≤ a)
    → (start_port a + range * mini_range ≤ start_port b)
      ⊎ (start_port b + range * mini_range ≤ start_port a)
ports_apart range a b some_range ha hb (inl h) = ports_order range a b some_range hb h
ports_apart range a b some_range ha hb (inr h) = swap (ports_order range b a some_range ha h)

pub bits_apart :
    (range a b : ℕ)
    → 1 ≤ range
    → a + range ≤ 64
    → b + range ≤ 64
    → (start_port a + range * mini_range ≤ start_port b)
      ⊎ (start_port b + range * mini_range ≤ start_port a)
    → (a + range ≤ b) ⊎ (b + range ≤ a)
bits_apart range a b some_range ha hb h = omega arith

-- Two ranges of one node are apart if one is taken and the other is free.
pub free_apart :
    (range a b : ℕ) (bitmap : List ℕ)
    → 1 ≤ range
    → ((j : ℕ) → within a range j ≡ true → taken bitmap j ≡ false)
    → ((j : ℕ) → within b range j ≡ true → taken bitmap j ≡ true)
    → (a + range ≤ b) ⊎ (b + range ≤ a)
free_apart range a b bitmap some_range free held = elim (Bool-cases (ltb a b)) [
  | inl e ↦ elim (Bool-cases (leb (a + range) b)) [
    | inl f ↦ inl (leb→le _ _ f)
    | inr f ↦ absurd (false≢true (sym (free b (ground arith)) ∙ held b (ground arith)))
  ]
  | inr e ↦ elim (Bool-cases (leb (b + range) a)) [
    | inl f ↦ inr (leb→le _ _ f)
    | inr f ↦ absurd (false≢true (sym (free a (ground arith)) ∙ held a (ground arith)))
  ]
]
