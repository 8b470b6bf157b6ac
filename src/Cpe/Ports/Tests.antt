-- ===== src/Cpe/Ports/Tests.antt =====
-- A table of TI/openwrt_cpe/src/tool.c for the ports from 2048 to 3071.
use laft.Common.{
  List, [], arith, digit, pos, refl, replicate, some, suc, true, zero, ℕ, ◌<◌, ◌∷◌, ◌≡◌,
}
use laft.Cpe.Ports.{PortTable, get_from, get_port, mark, set_port, test}
use laft.Cpe.Ports.Bits.{taken}
use laft.Cpe.Ports.Count.{IsCounted}
use laft.Cpe.Ports.Get.{Gets, get_port-Gets}
use laft.Cpe.Ports.Held.{AreDistinct, Steps-AreDistinct, no_step, start, then_step}
use laft.Cpe.Ports.Icmp.{icmp_call, icmp_call-same}

abbrev new_words : List ℕ
new_words = replicate 33 0

abbrev new_table : PortTable
new_table = record { ports = some new_words; used = 0 }

new_table-IsCounted : IsCounted 1024 new_words new_table
unfolding digit
new_table-IsCounted = record { is_table = refl; wide = omega arith; counted = refl }

abbrev first_port : PortTable
first_port = record { ports = some (mark new_words 0); used = 1 }

first_get : get_port 0 1025 2048 3071 new_table ≡ some (pos 2048, first_port)
unfolding get_port get_from test set_port
first_get = refl

get_port-Gets_example : Gets 2048 3071 new_words new_table (get_port 0 1025 2048 3071 new_table)
get_port-Gets_example =
    get_port-Gets 2048 3071 (omega arith) (omega arith) 0 1025 new_words new_table
      new_table-IsCounted (omega arith)

Steps-AreDistinct_example : AreDistinct 2048 3071 (record { table = first_port; held = 2048 ∷ [] })
Steps-AreDistinct_example =
    Steps-AreDistinct 2048 3071 (omega arith) (omega arith) 0
      {s = record { table = new_table; held = [] }}
      (record { words = new_words; counts = new_table-IsCounted; marked = tt; distinct = tt })
      (then_step no_step (start 1025 2048 first_port (omega arith) first_get refl))

-- Two ports, both taken, and a counter of one.
abbrev full_words : List ℕ
full_words = 3 ∷ []

full : (k : ℕ) → k < 2 → taken full_words k ≡ true
unfolding digit
full zero h = refl
full (suc zero) h = refl
full (suc (suc k)) h = absurd (omega arith)

icmp_call-same_example : icmp_call 4096 5119 3 (record { last = 2048; i = 2050 }) ≡ 4096
icmp_call-same_example =
    icmp_call-same 4096 5119 (omega arith) (omega arith) (omega arith) 3
      (record { last = 2048; i = 2050 }) (λ e. omega arith) (λ e. omega arith)
