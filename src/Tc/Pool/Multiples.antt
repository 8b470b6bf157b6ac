-- ===== src/Tc/Pool/Multiples.antt =====
-- `AllocAddrPort` of TC/user_module/src/addrpoolentity.c keeps every bit a multiple of the range.
use native.Mathlib.Nat.{lt_trans, suc-mul}
use laft.Common.{
  ==_iff, Bool-cases, List, Option, arith, if_intro, inl, inr, is_empty, leb, length, length-set,
  none, not-is_empty, some, suc, zero, ℕ, ◌&&◌, ◌*◌, ◌+◌, ◌<◌, ◌==◌, ◌∙◌, ◌≡◌, ◌≤◌,
}
use laft.Tc.Pool.{
  Allocated, Attempt, Outcome, PoolList, PoolNode, alloc_addr_port, alloc_nodes, attempt, crashed,
  deliver, exhausted, first_try, got, granted, leased, next_node, node_at, or_go_on, passed,
  refused, rewind, scan,
}
use laft.Tc.Pool.Tries.{HaveMaps, Moves, Tried, attempt-Tried, node_at-set}
use laft.Tc.Pool.Alloc.{IsPool}
use laft.Tc.Pool.Scan.{
  HaveLowBits, Moves-low, OthersLow, When, next_node-lt, rewind-Keeps, rewind-low,
}

-- Every bit is a multiple of the range.
abbrev pub HaveMultiples : ℕ → List PoolNode → Type 0
HaveMultiples range nodes =
    (q : ℕ) → q < length nodes → (k : ℕ) × ((node_at nodes q).validbit ≡ k * range)

abbrev pub nodes_left : Allocated → List PoolNode
nodes_left (exhausted nodes) = nodes
nodes_left (leased start stop addr nodes) = nodes

module _ (range : ℕ) (some_range : 1 ≤ range) (short : range < 64) where
  Moves-Multiples :
      (nodes nodes' : List PoolNode) (p : ℕ)
      → p < length nodes
      → HaveMultiples range nodes
      → Moves range nodes p nodes'
      → HaveMultiples range nodes'
  Moves-Multiples nodes nodes' p hp h m q hq = elim (Bool-cases (p == q)) [
    | inl e ↦
        let (k, v) = h p hp in
        (suc k, rw (← (==_iff p q).0 e) (m.moved ∙ omega (arith, suc-mul k range)))
    | inr e ↦ rw (m.others q (ground arith)) (h q (rw (← m.keeps.same_length) hq))
  ]

  rewind-Multiples :
      (nodes : List PoolNode) (p : ℕ)
      → p < length nodes
      → HaveMultiples range nodes
      → HaveMultiples range (rewind nodes p)
  rewind-Multiples nodes p hp h q hq = rw (node_at-set nodes p q _ hp) (
      if_intro {A = PoolNode} (λ n. (k : ℕ) × (n.validbit ≡ k * range)) (p == q) _ _
        (λ e. (0, omega arith)) (λ e. h q (rw length-set at hq)))

  or_go_on-Multiples :
      (nodes : List PoolNode) (p : ℕ) (try : Attempt) (go_on : List PoolNode → Option Allocated)
      → p < length nodes
      → HaveMultiples range nodes
      → Tried range nodes p try
      → ((nodes' : List PoolNode)
          → Moves range nodes p nodes'
          → When (λ r. HaveMultiples range (nodes_left r)) (go_on nodes'))
      → When (λ r. HaveMultiples range (nodes_left r)) (or_go_on try go_on)
  or_go_on-Multiples nodes p (passed nodes') go_on hp h m rest = rest nodes' m
  or_go_on-Multiples nodes p (granted start stop addr nodes') go_on hp h (m, g) rest =
      Moves-Multiples nodes nodes' p hp h m

  scan-Multiples :
      (b bit fuel : ℕ) (nodes : List PoolNode) (p : ℕ)
      → HaveMaps nodes
      → p < length nodes
      → OthersLow range some_range short nodes p
      → (node_at nodes p).validbit < 64 + range + range
      → HaveMultiples range nodes
      → When (λ r. HaveMultiples range (nodes_left r)) (scan fuel range b bit nodes p)
  unfolding scan
  scan-Multiples b bit zero nodes p maps hp low hv h = tt
  scan-Multiples b bit (suc fuel) nodes p maps hp low hv h =
      let v = (node_at nodes p).validbit in
      let k = rewind-Keeps range some_range short nodes p maps hp in
      let all_low = rewind-low range some_range short nodes p hp low in
      let hn : next_node nodes p < length (rewind nodes p) =
        rw k.same_length (next_node-lt range some_range short nodes p hp) in
      elim (Bool-cases (p == b && bit == v)) [
        | inl e ↦ rw e h
        | inr e ↦ elim (Bool-cases (leb 64 v)) [
          | inl f ↦
              rw (e, f)
                (scan-Multiples b bit fuel (rewind nodes p) (next_node nodes p) k.maps hn
                  (λ q hq ne. all_low q hq) (lt_trans (all_low _ hn) (omega arith))
                  (rewind-Multiples nodes p hp h))
          | inr f ↦
              rw (e, f)
                (or_go_on-Multiples nodes p (attempt range nodes p) _ hp h
                  (attempt-Tried range nodes p some_range short maps hp (omega arith))
                  (λ nodes' m.
                    scan-Multiples b bit fuel nodes' p m.keeps.maps (rw m.keeps.same_length hp)
                      (Moves-low range some_range short nodes nodes' p low m)
                      (rw m.moved (ground arith)) (Moves-Multiples nodes nodes' p hp h m)))
        ]
      ]

module _ (range : ℕ) (some_range : 1 ≤ range) (short : range < 64) where
  first_try-Multiples :
      (fuel bit b : ℕ) (nodes : List PoolNode) (p : ℕ)
      → HaveMaps nodes
      → p < length nodes
      → HaveLowBits range nodes
      → HaveMultiples range nodes
      → When (λ r. HaveMultiples range (nodes_left r)) (first_try fuel range nodes p b bit)
  unfolding first_try
  first_try-Multiples fuel bit b nodes p maps hp low h =
      let lp = low p hp in
      or_go_on-Multiples range some_range short nodes p (attempt range nodes p) _ hp h
        (attempt-Tried range nodes p some_range short maps hp (omega arith))
        (λ nodes' mv.
          scan-Multiples range some_range short b bit fuel nodes' p mv.keeps.maps
            (rw mv.keeps.same_length hp)
            (Moves-low range some_range short nodes nodes' p (λ q hq ne. low q hq) mv)
            (rw mv.moved (omega arith))
            (Moves-Multiples range some_range short nodes nodes' p hp h mv))

  pub alloc_nodes-Multiples :
      (fuel : ℕ) (nodes : List PoolNode) (b : ℕ)
      → HaveMaps nodes
      → HaveLowBits range nodes
      → HaveMultiples range nodes
      → b < length nodes
      → When (λ r. HaveMultiples range (nodes_left r)) (alloc_nodes fuel range nodes b)
  unfolding alloc_nodes
  alloc_nodes-Multiples fuel nodes b maps low h hb =
      let bit = (node_at nodes b).validbit in
      let k = rewind-Keeps range some_range short nodes b maps hb in
      elim (Bool-cases (leb 64 bit)) [
        | inr e ↦ rw e (first_try-Multiples fuel bit b nodes b maps hb low h)
        | inl e ↦ rw e (
            first_try-Multiples fuel bit b (rewind nodes b) (next_node nodes b) k.maps
              (rw k.same_length (next_node-lt range some_range short nodes b hb))
              (rewind-low range some_range short nodes b hb (λ q hq ne. low q hq))
              (rewind-Multiples range some_range short nodes b hb h))
      ]

  abbrev pub AllMultiples : Outcome → Type 0
  AllMultiples crashed = Unit
  AllMultiples (refused l) = HaveMultiples range l.nodes
  AllMultiples (got start stop addr l) = HaveMultiples range l.nodes

  deliver-Multiples :
      (l : PoolList) (o : Option Allocated)
      → When (λ r. HaveMultiples range (nodes_left r)) o
      → When AllMultiples (deliver l o)
  deliver-Multiples l none h = tt
  deliver-Multiples l (some (exhausted nodes)) h = h
  deliver-Multiples l (some (leased start stop addr nodes)) h = h

  pub alloc_addr_port-Multiples :
      (fuel : ℕ) (l : PoolList)
      → IsPool range l
      → HaveMultiples range l.nodes
      → When AllMultiples (alloc_addr_port fuel range l)
  unfolding alloc_addr_port
  alloc_addr_port-Multiples fuel l valid h = elim (Bool-cases (is_empty l.nodes)) [
    | inl e ↦ rw e tt
    | inr e ↦ rw e (
        deliver-Multiples l (alloc_nodes fuel range l.nodes l.curnode) (
          alloc_nodes-Multiples fuel l.nodes l.curnode valid.maps valid.low h
            (valid.cur_in (not-is_empty l.nodes e))))
  ]
