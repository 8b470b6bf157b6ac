-- ===== src/Tc/Pool/Tries.antt =====
-- One try of `AllocAddrPort` (TC/user_module/src/addrpoolentity.c): what it marks, and what it keeps.
use laft.Tc.Bitmap.Ranges.{set_from-IsBitmap, taken-set_from_one, test_from_free, within}
use laft.Common.{
  ==_iff, Bool, Bool-cases, List, ap, arith, false, get_or-set, if_intro, if◌then◌else◌, inl, inr,
  leb, length, length-set, ltb, refl, set, subst, true, ℕ, ◌%◌, ◌+◌, ◌-◌, ◌<◌, ◌==◌, ◌^◌, ◌||◌, ◌∙◌,
  ◌≡◌, ◌≢◌, ◌≤◌,
}
use laft.Tc.Bitmap.Laws.{IsBitmap, taken}
use laft.Tc.Pool.{
  Attempt, PoolNode, attempt, granted, last_bit, node_at, passed, start_port, stop_port,
}
use laft.Tc.Bitmap.{portrange_set, portrange_test, rounds_to, set_from, test_from}

-- The bit of the node's map is handed out.
abbrev pub busy : List PoolNode → ℕ → ℕ → Bool
busy nodes p j = taken (node_at nodes p).bitmap j

abbrev pub HaveMaps : List PoolNode → Type 0
HaveMaps nodes = (q : ℕ) → q < length nodes → IsBitmap (node_at nodes q).bitmap

-- What every part of an allocation keeps: the ring of addresses, and what is handed out.
pub record Keeps (nodes nodes' : List PoolNode) : Type 0 where
  pub same_length : length nodes' ≡ length nodes
  pub same_ip : (q : ℕ) → (node_at nodes' q).ip ≡ (node_at nodes q).ip
  pub maps : HaveMaps nodes'
  pub still_busy :
      (q j : ℕ) → q < length nodes → j < 64 → busy nodes q j ≡ true → busy nodes' q j ≡ true

pub Keeps-refl : (nodes : List PoolNode) → HaveMaps nodes → Keeps nodes nodes
Keeps-refl nodes maps = record {
  same_length = refl;
  same_ip = λ q. refl;
  maps = maps;
  still_busy = λ q j hq hj h. h;
}

pub Keeps-trans : {a b c : List PoolNode} → Keeps a b → Keeps b c → Keeps a c
Keeps-trans k l = record {
  same_length = l.same_length ∙ k.same_length;
  same_ip = λ q. l.same_ip q ∙ k.same_ip q;
  maps = l.maps;
  still_busy = λ q j hq hj h. l.still_busy q j (rw k.same_length hq) hj (k.still_busy q j hq hj h);
}

pub node_at-set :
    (nodes : List PoolNode) (p q : ℕ) (c : PoolNode)
    → p < length nodes
    → node_at (set nodes p c) q ≡ (if p == q then c else node_at nodes q)
node_at-set nodes p q c h = get_or-set nodes p q c _ h

-- Replacing a node by one with its address, and with at least its bits.
module _ (nodes : List PoolNode) (p : ℕ) (c : PoolNode) (maps : HaveMaps nodes)
    (hp : p < length nodes) (same : c.ip ≡ (node_at nodes p).ip) (bits : IsBitmap c.bitmap)
    (more : (j : ℕ) → j < 64 → busy nodes p j ≡ true → taken c.bitmap j ≡ true) where
  -- What holds of the new node at `p`, and of the others, holds of every node.
  at_set :
      (P : ℕ → PoolNode → Type 0) (q : ℕ)
      → (p ≡ q → P q c)
      → P q (node_at nodes q)
      → P q (node_at (set nodes p c) q)
  at_set P q new old =
      rw (node_at-set nodes p q c hp)
        (if_intro (P q) (p == q) c _ (λ e. new ((==_iff p q).0 e)) (λ _. old))

  pub set-Keeps : Keeps nodes (set nodes p c)
  set-Keeps = record {
    same_length = length-set nodes p c;
    same_ip = λ q.
        at_set (λ q n. n.ip ≡ (node_at nodes q).ip) q (λ e. same ∙ ap (λ k. (node_at nodes k).ip) e)
          refl;
    maps = λ q hq.
        at_set (λ q n. IsBitmap n.bitmap) q (λ e. bits) (maps q (rw (length-set nodes p c) at hq));
    still_busy = λ q j hq hj h.
        at_set (λ q n. busy nodes q j ≡ true → taken n.bitmap j ≡ true) q
          (λ e. subst (λ k. busy nodes k j ≡ true → taken c.bitmap j ≡ true) e (more j hj)) (λ h. h)
          h;
  }

-- A range of the pool: `range` bits from `bit` on at the node `slot`.
pub record Grants (range : ℕ) (nodes nodes' : List PoolNode) (slot bit start stop addr : ℕ)
    : Type 0 where
  pub slot_in : slot < length nodes
  pub bits_in : bit + range ≤ 64
  pub of_slot : addr ≡ (node_at nodes slot).ip
  pub starts : start ≡ start_port bit
  pub stops : stop ≡ stop_port start range
  pub in_order : start ≤ stop
  pub was_free : (j : ℕ) → within bit range j ≡ true → busy nodes slot j ≡ false
  pub now_busy : (j : ℕ) → within bit range j ≡ true → busy nodes' slot j ≡ true

-- A try moves the bit of its node on by the range, and touches no other node.
pub record Moves (range : ℕ) (nodes : List PoolNode) (p : ℕ) (nodes' : List PoolNode) : Type 0 where
  pub keeps : Keeps nodes nodes'
  pub moved : (node_at nodes' p).validbit ≡ (node_at nodes p).validbit + range
  pub others : (q : ℕ) → p ≢ q → node_at nodes' q ≡ node_at nodes q

abbrev pub Tried : ℕ → List PoolNode → ℕ → Attempt → Type 0
Tried range nodes p (passed nodes') = Moves range nodes p nodes'
Tried range nodes p (granted start stop addr nodes') =
    Moves range nodes p nodes'
    × Grants range nodes nodes' p (node_at nodes p).validbit start stop addr

module _ (range : ℕ) (nodes : List PoolNode) (p : ℕ) (some_range : 1 ≤ range) (short : range < 64)
    (maps : HaveMaps nodes) (hp : p < length nodes) (low : (node_at nodes p).validbit < 192) where
  last-eq : last_bit (node_at nodes p).validbit range ≡ (node_at nodes p).validbit + range - 1
  last-eq = omega arith

  set-Moves :
      (c : PoolNode)
      → Keeps nodes (set nodes p c)
      → c.validbit ≡ ((node_at nodes p).validbit + range) % 2 ^ 32
      → Moves range nodes p (set nodes p c)
  set-Moves c keeps e = record {
    keeps = keeps;
    moved = rw (node_at-set nodes p p c hp, (==_iff p p).1 refl) (omega arith);
    others = λ q ne. rw (node_at-set nodes p q c hp) (ground arith);
  }

  skip-Moves : Moves range nodes p (
      set nodes p
        (record (node_at nodes p) { validbit = ((node_at nodes p).validbit + range) % 2 ^ 32 }))
  skip-Moves = set-Moves _ (set-Keeps nodes p _ maps hp refl (maps p hp) (λ j hj h. h)) refl

  marks : List ℕ
  marks = set_from (node_at nodes p).bitmap (node_at nodes p).validbit range 1

  marked : PoolNode
  marked = record (node_at nodes p) {
    validbit = ((node_at nodes p).validbit + range) % 2 ^ 32;
    bitmap = marks;
  }

  taken-marks :
      (j : ℕ)
      → j < 64
      → taken marks j ≡ (within (node_at nodes p).validbit range j || busy nodes p j)
  unfolding marks
  taken-marks j hj = taken-set_from_one _ _ range j (maps p hp) hj

  mark-Moves : Moves range nodes p (set nodes p marked)
  unfolding marked marks
  mark-Moves =
      set-Moves _
        (set-Keeps nodes p _ maps hp refl (set_from-IsBitmap _ _ range 1 (maps p hp))
          (λ j hj h. rw (taken-marks j hj, h) (ground arith)))
        refl

  mark-Grants :
      (node_at nodes p).validbit + range ≤ 64
      → test_from (node_at nodes p).bitmap (node_at nodes p).validbit range ≡ 1
      → start_port (node_at nodes p).validbit
        ≤ stop_port (start_port (node_at nodes p).validbit) range
      → Grants range nodes
          (set nodes p marked)
          p
          (node_at nodes p).validbit
          (start_port (node_at nodes p).validbit)
          (stop_port (start_port (node_at nodes p).validbit) range)
          (node_at nodes p).ip
  unfolding marked
  mark-Grants fits free order = record {
    slot_in = hp;
    bits_in = fits;
    of_slot = refl;
    starts = refl;
    stops = refl;
    in_order = order;
    was_free = test_from_free _ _ range free;
    now_busy = λ j w.
        rw (node_at-set nodes p p _ hp, (==_iff p p).1 refl, taken-marks j (ground arith), w);
  }

  rounds-eq : rounds_to (node_at nodes p).validbit ((node_at nodes p).validbit + range - 1) ≡ range
  rounds-eq = ground arith

  pub attempt-Tried : Tried range nodes p (attempt range nodes p)
  unfolding attempt portrange_test portrange_set marked marks
  attempt-Tried =
      let v = (node_at nodes p).validbit in
      rw last-eq (elim (Bool-cases (leb 64 (v + range - 1))) [
        | inl e ↦ rw e skip-Moves
        | inr e ↦
            rw (e, rounds-eq)
              (elim (Bool-cases (test_from (node_at nodes p).bitmap v range == 1)) [
                | inr f ↦ rw f skip-Moves
                | inl f ↦
                    rw f (elim (Bool-cases (ltb (stop_port (start_port v) range) (start_port v))) [
                      | inl g ↦ rw g mark-Moves
                      | inr g ↦
                          rw g (
                            mark-Moves,
                            mark-Grants (ground arith) ((==_iff _ 1).0 f) (ground arith),
                          )
                    ])
              ])
      ])
