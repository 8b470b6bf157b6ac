-- ===== src/Tc/Pool/Scan.antt =====
-- The loop of `AllocAddrPort` (TC/user_module/src/addrpoolentity.c), from a try to its end.
use native.Mathlib.Nat.{lt_trans}
use laft.Common.{
  ==_iff, Bool-cases, List, Option, arith, if_intro, inl, inr, leb, length, length-set, none, refl,
  some, suc, true, zero, ℕ, ◌&&◌, ◌+◌, ◌<◌, ◌==◌, ◌∙◌, ◌≡◌, ◌≢◌, ◌≤◌,
}
use laft.Tc.Bitmap.Ranges.{within}
use laft.Tc.Pool.{
  Allocated, Attempt, PoolNode, attempt, exhausted, granted, leased, next_node, node_at, or_go_on,
  passed, rewind, scan,
}
use laft.Tc.Pool.Tries.{
  Grants, HaveMaps, Keeps, Keeps-refl, Keeps-trans, Moves, Tried, attempt-Tried, busy, node_at-set,
  set-Keeps,
}

-- What holds of a result, if there is one.
abbrev pub When {ℓ} : {A : Type 0} → (A → Type ℓ) → Option A → Type ℓ
When P none = Unit
When P (some a) = P a

-- Every bit is less than two ranges past the map.
abbrev pub HaveLowBits : ℕ → List PoolNode → Type 0
HaveLowBits range nodes = (q : ℕ) → q < length nodes → (node_at nodes q).validbit < 64 + range

-- A call that ends keeps what was handed out, and hands out at most a range that was free.
abbrev pub Settled : ℕ → List PoolNode → Allocated → Type 0
Settled range nodes (exhausted nodes') = Keeps nodes nodes' × HaveLowBits range nodes'
Settled range nodes (leased start stop addr nodes') =
    Keeps nodes nodes'
    × HaveLowBits range nodes'
    × (slot : ℕ) × (bit : ℕ) × Grants range nodes nodes' slot bit start stop addr

pub within-lt : (bit range j : ℕ) → bit + range ≤ 64 → within bit range j ≡ true → j < 64
within-lt bit range j h w = ground arith

pub Grants-before :
    {range slot bit start stop addr : ℕ} {a b c : List PoolNode}
    → Keeps a b
    → Grants range b c slot bit start stop addr
    → Grants range a c slot bit start stop addr
Grants-before {a = a} {b = b} k g = record {
  slot_in = rw (← k.same_length) g.slot_in;
  bits_in = g.bits_in;
  of_slot = g.of_slot ∙ k.same_ip _;
  starts = g.starts;
  stops = g.stops;
  in_order = g.in_order;
  was_free = λ j w. elim (Bool-cases (busy a _ j)) [
    | inr e ↦ e
    | inl e ↦
        let t = k.still_busy _ j (rw k.same_length at g.slot_in) (within-lt _ _ j g.bits_in w) e in
        let f = g.was_free j w in cc
  ];
  now_busy = g.now_busy;
}

pub Settled-before :
    (range : ℕ) (a b : List PoolNode) (r : Allocated)
    → Keeps a b
    → Settled range b r
    → Settled range a r
Settled-before range a b (exhausted c) k s = (Keeps-trans k s.0, s.1)
Settled-before range a b (leased start stop addr c) k (l, low, slot, bit, g) =
    (Keeps-trans k l, low, slot, bit, Grants-before k g)

pub When-map :
    {A : Type 0} (P Q : A → Type 0) (o : Option A) → ((a : A) → P a → Q a) → When P o → When Q o
When-map P Q none f w = tt
When-map P Q (some a) f w = f a w

module _ (range : ℕ) (some_range : 1 ≤ range) (short : range < 64) where
  pub rewind-Keeps :
      (nodes : List PoolNode) (p : ℕ)
      → HaveMaps nodes
      → p < length nodes
      → Keeps nodes (rewind nodes p)
  rewind-Keeps nodes p maps hp = set-Keeps nodes p _ maps hp refl (maps p hp) (λ j hj h. h)

  -- Every bit but that of the current node is low.
  abbrev pub OthersLow : List PoolNode → ℕ → Type 0
  OthersLow nodes p = (q : ℕ) → q < length nodes → p ≢ q → (node_at nodes q).validbit < 64 + range

  pub rewind-low :
      (nodes : List PoolNode) (p : ℕ)
      → p < length nodes
      → OthersLow nodes p
      → HaveLowBits range (rewind nodes p)
  rewind-low nodes p hp low q hq = rw (node_at-set nodes p q _ hp) (
      if_intro {A = PoolNode} (λ n. n.validbit < 64 + range) (p == q) _ _ (λ e. omega arith)
        (λ e. low q (rw length-set at hq) (ground arith)))

  pub next_node-lt :
      (nodes : List PoolNode) (p : ℕ) → p < length nodes → next_node nodes p < length nodes
  next_node-lt nodes p hp = ground arith

  pub Moves-low :
      (nodes nodes' : List PoolNode) (p : ℕ)
      → OthersLow nodes p
      → Moves range nodes p nodes'
      → OthersLow nodes' p
  Moves-low nodes nodes' p low m q hq ne =
      rw (m.others q ne) (low q (rw (← m.keeps.same_length) hq) ne)

  Moves-all_low :
      (nodes nodes' : List PoolNode) (p : ℕ)
      → OthersLow nodes p
      → (node_at nodes p).validbit < 64
      → Moves range nodes p nodes'
      → HaveLowBits range nodes'
  Moves-all_low nodes nodes' p low hv m q hq = elim (Bool-cases (p == q)) [
    | inl e ↦ rw (← (==_iff p q).0 e, m.moved) (omega arith)
    | inr e ↦ Moves-low nodes nodes' p low m q hq (ground arith)
  ]

  -- A try that granted a range, or the walk that goes on from where it left the nodes.
  pub or_go_on-Settled :
      (nodes : List PoolNode) (p : ℕ) (try : Attempt) (go_on : List PoolNode → Option Allocated)
      → OthersLow nodes p
      → (node_at nodes p).validbit < 64 + range + range
      → Tried range nodes p try
      → ((nodes' : List PoolNode)
          → Moves range nodes p nodes'
          → When (Settled range nodes') (go_on nodes'))
      → When (Settled range nodes) (or_go_on try go_on)
  or_go_on-Settled nodes p (passed nodes') go_on low hv m rest =
      When-map _ _ (go_on nodes') (λ r s. Settled-before range nodes nodes' r m.keeps s)
        (rest nodes' m)
  or_go_on-Settled nodes p (granted start stop addr nodes') go_on low hv (m, g) rest =
      (m.keeps, Moves-all_low nodes nodes' p low (omega (arith, g.bits_in)) m, p, _, g)

  -- The loop at FALG, from any node whose bit is at most three ranges past the map.
  module _ (b bit : ℕ) (bit_low : bit < 64 + range) where
    ends :
        (nodes : List PoolNode) (p : ℕ)
        → OthersLow nodes p
        → (p == b && bit == (node_at nodes p).validbit) ≡ true
        → HaveLowBits range nodes
    ends nodes p low e q hq = elim (Bool-cases (p == q)) [
      | inl f ↦ rw (← (==_iff p q).0 f) (ground arith)
      | inr f ↦ low q hq (ground arith)
    ]

    pub scan-Settled :
        (fuel : ℕ) (nodes : List PoolNode) (p : ℕ)
        → HaveMaps nodes
        → p < length nodes
        → OthersLow nodes p
        → (node_at nodes p).validbit < 64 + range + range
        → When (Settled range nodes) (scan fuel range b bit nodes p)
    unfolding scan
    scan-Settled zero nodes p maps hp low hv = tt
    scan-Settled (suc fuel) nodes p maps hp low hv =
        let v = (node_at nodes p).validbit in
        let k = rewind-Keeps nodes p maps hp in
        let hn = next_node-lt nodes p hp in
        let all_low = rewind-low nodes p hp low in
        elim (Bool-cases (p == b && bit == v)) [
          | inl e ↦ rw e (Keeps-refl nodes maps, ends nodes p low e)
          | inr e ↦ rw e (elim (Bool-cases (leb 64 v)) [
            | inl f ↦ rw f (
                When-map _ _ (scan fuel range b bit (rewind nodes p) (next_node nodes p))
                  (λ r s. Settled-before range nodes (rewind nodes p) r k s)
                  (scan-Settled fuel (rewind nodes p) (next_node nodes p) k.maps
                    (rw k.same_length hn) (λ q hq ne. all_low q hq)
                    (lt_trans (all_low _ (rw k.same_length hn)) (omega arith))))
            | inr f ↦ rw f (
                or_go_on-Settled nodes p (attempt range nodes p) _ low hv
                  (attempt-Tried range nodes p some_range short maps hp (omega arith))
                  (λ nodes' m.
                    scan-Settled fuel nodes' p m.keeps.maps (rw m.keeps.same_length hp)
                      (Moves-low nodes nodes' p low m) (rw m.moved (ground arith))))
          ])
        ]
