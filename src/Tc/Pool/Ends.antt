-- ===== src/Tc/Pool/Ends.antt =====
-- `AllocAddrPort` of TC/user_module/src/addrpoolentity.c ends: its `while (1)` comes back to the
-- node and the bit where it started, if that bit is a multiple of the range.
use native.Mathlib.Nat.{mul-le-mul_right, lt_trans, suc-mul}
use laft.Common.{
  ==_iff, Bool-cases, List, Option, ap, arith, false, if_intro, if◌then◌else◌, inl, inr, leb,
  length, ltb, none, refl, some, suc, sym, zero, ℕ, ◌&&◌, ◌*◌, ◌+◌, ◌-◌, ◌<◌, ◌==◌, ◌∙◌, ◌≡◌, ◌≢◌,
  ◌≤◌,
}
use laft.Tc.Pool.{
  Allocated, Attempt, PoolNode, attempt, granted, next_node, node_at, or_go_on, passed, rewind,
  scan,
}
use laft.Tc.Pool.Tries.{HaveMaps, Moves, Tried, attempt-Tried, node_at-set}
use laft.Tc.Pool.Scan.{Moves-low, OthersLow, next_node-lt, rewind-Keeps, rewind-low}

-- The fuel did not run out.
abbrev pub Ends : {A : Type 0} → Option A → Type 0
Ends none = ⊥
Ends (some _) = Unit

-- The steps along the ring to the next visit of `b`.
abbrev steps_to : ℕ → ℕ → ℕ → ℕ
steps_to n p b = if ltb p b then b - p else n + b - p

module _ (range : ℕ) (some_range : 1 ≤ range) (short : range < 64) where
  module _ (b m bit : ℕ) (aligned : bit ≡ m * range) (bit_low : bit < 64 + range) where
    pub or_go_on-Ends :
        (nodes : List PoolNode) (p : ℕ) (try : Attempt) (go_on : List PoolNode → Option Allocated)
        → Tried range nodes p try
        → ((nodes' : List PoolNode) → Moves range nodes p nodes' → Ends (go_on nodes'))
        → Ends (or_go_on try go_on)
    or_go_on-Ends nodes p (passed nodes') go_on t rest = rest nodes' t
    or_go_on-Ends nodes p (granted start stop addr nodes') go_on t rest = tt

    -- The last visit of `b`, from bit 0 on: it reaches the bit where the walk started.
    last_visit-Ends :
        (fuel : ℕ) (nodes : List PoolNode) (k : ℕ)
        → HaveMaps nodes
        → b < length nodes
        → (node_at nodes b).validbit ≡ k * range
        → k ≤ m
        → m < fuel + k
        → Ends (scan fuel range b bit nodes b)
    unfolding scan
    last_visit-Ends zero nodes k maps hb hv hk hf = absurd (omega arith)
    last_visit-Ends (suc fuel) nodes k maps hb hv hk hf =
        let v = (node_at nodes b).validbit in
        elim (Bool-cases (b == b && bit == v)) [
          | inl e ↦ rw e tt
          | inr e ↦
              let ne : k ≢ m = λ q.
                let same : bit ≡ v = aligned ∙ ap (λ t. t * range) (sym q) ∙ sym hv in
                absurd (ground arith) in
              let below : k < m = omega arith in
              let grows : suc k * range ≤ m * range = mul-le-mul_right range below in
              let step : suc k * range ≡ k * range + range = suc-mul k range in
              let f : leb 64 v ≡ false = ground arith in
              rw (e, f)
                (or_go_on-Ends nodes b (attempt range nodes b) _
                  (attempt-Tried range nodes b some_range short maps hb (omega arith))
                  (λ nodes' mv.
                    last_visit-Ends fuel nodes' (suc k) mv.keeps.maps (rw mv.keeps.same_length hb)
                      (mv.moved ∙ omega arith) below (omega arith)))
        ]

    -- After the rewinding the node `b` stands at bit 0, if it did or is the node rewound.
    rewound :
        (nodes : List PoolNode) (p : ℕ)
        → p < length nodes
        → (p ≢ b → (node_at nodes b).validbit ≡ 0)
        → (node_at (rewind nodes p) b).validbit ≡ 0
    rewound nodes p hp at_b = rw (node_at-set nodes p b _ hp) (
        if_intro {A = PoolNode} (λ n. n.validbit ≡ 0) (p == b) _ _ (λ e. refl)
          (λ e. at_b (ground arith)))

    -- One node further round the ring.
    steps_to-next :
        (nodes : List PoolNode) (p : ℕ)
        → p < length nodes
        → b < length nodes
        → (1 ≤ steps_to (length nodes) p b)
          × (next_node nodes p ≢ b
              → steps_to (length nodes) (next_node nodes p) b + 1 ≡ steps_to (length nodes) p b)
    steps_to-next nodes p hp hb = (ground arith, λ ne. ground arith)

    -- The walk over the other nodes.
    pub walk-Ends :
        (fuel : ℕ) (nodes : List PoolNode) (p : ℕ)
        → HaveMaps nodes
        → p < length nodes
        → b < length nodes
        → OthersLow range some_range short nodes p
        → (node_at nodes p).validbit < 192
        → (p ≢ b → (node_at nodes b).validbit ≡ 0)
        → steps_to (length nodes) p b * 67 + (66 - (node_at nodes p).validbit) + m < fuel
        → Ends (scan fuel range b bit nodes p)
    unfolding scan
    walk-Ends zero nodes p maps hp hb low hv at_b hf = absurd (omega arith)
    walk-Ends (suc fuel) nodes p maps hp hb low hv at_b hf =
        let v = (node_at nodes p).validbit in
        let k = rewind-Keeps range some_range short nodes p maps hp in
        let p' = next_node nodes p in
        let hp' : p' < length (rewind nodes p) =
          rw k.same_length (next_node-lt range some_range short nodes p hp) in
        let all_low = rewind-low range some_range short nodes p hp low in
        let (pos_steps, fewer) = steps_to-next nodes p hp hb in
        elim (Bool-cases (p == b && bit == v)) [
          | inl e ↦ rw e tt
          | inr e ↦ elim (Bool-cases (leb 64 v)) [
            | inr f ↦
                rw (e, f)
                  (or_go_on-Ends nodes p (attempt range nodes p) _
                    (attempt-Tried range nodes p some_range short maps hp hv)
                    (λ nodes' mv.
                      walk-Ends fuel nodes' p mv.keeps.maps (rw mv.keeps.same_length hp)
                        (rw mv.keeps.same_length hb)
                        (Moves-low range some_range short nodes nodes' p low mv)
                        (rw mv.moved (ground arith)) (λ ne. rw (mv.others b ne) (at_b ne))
                        (rw (mv.keeps.same_length, mv.moved) (ground arith))))
            | inl f ↦ elim (Bool-cases (p' == b)) [
              | inl g ↦
                  let same : p' ≡ b = (==_iff p' b).0 g in
                  rw (e, f, same)
                    (last_visit-Ends fuel (rewind nodes p) 0 k.maps (rw k.same_length hb)
                      (rewound nodes p hp at_b ∙ omega arith) (omega arith) (omega arith))
              | inr g ↦
                  let ne : p' ≢ b = ground arith in
                  let less = fewer ne in
                  rw (e, f)
                    (walk-Ends fuel (rewind nodes p) p' k.maps hp' (rw k.same_length hb)
                      (λ q hq nq. all_low q hq) (lt_trans (all_low p' hp') (omega arith))
                      (λ _. rewound nodes p hp at_b) (rw k.same_length (omega arith)))
            ]
          ]
        ]
