-- ===== src/Tc/Pcp/Tests.antt =====
-- Requests of TC/user_module/src/pcpmsg.c from a new host, with the default mask 0xf800, and the
-- options of TC/user_module/src/optionlist.c.
use laft.Common.{
  Bool, List, [], arith, if◌then◌else◌, negsuc, pos, refl, replicate, set, some, true, ℕ, ℤ, ◌↔◌,
  ◌∷◌, ◌≡◌,
}
use laft.Tc.Bitmap.{fresh_map}
use laft.Tc.Pool.{PoolList, alloc_node}
use laft.Tc.Pool.Init.{range_nodes}
use laft.Tc.Netlink.{Masks, TunConfig, alloc_addr_msg, result_msg}
use laft.Tc.Options.{
  OptionEntry, option_list_search_opcode, option_list_search_option, search_array,
}
use laft.Tc.Options.Laws.{has_option, option_array, option_list_search_option-has_option}
use laft.Tc.Pcp.{Outside, PcpRequest, check_pcp_request, err_success}
use laft.Tc.Pcp.Check.{IsValid, check_pcp_request_iff}

option_list_search_option-has_option_example :
    option_list_search_option
      (record { opcode = 100; options = some (option_array (0 ∷ 3 ∷ []) 18) })
      3
    ≡ some (if has_option (0 ∷ 3 ∷ []) 3 then pos 0 else negsuc 0)
option_list_search_option-has_option_example =
    option_list_search_option-has_option 100 (0 ∷ 3 ∷ []) 18 3 (omega arith, (omega arith, tt))
      (omega arith) (omega arith) (omega arith)

abbrev host_address : List ℕ
host_address = replicate 16 7

abbrev phead : List OptionEntry
phead = record { opcode = 100; options = some (option_array (0 ∷ []) 19) } ∷ []

abbrev request : PcpRequest
request = record {
  ver = 1;
  r = 0;
  opcode = 100;
  life_time = 120;
  client = host_address;
  protocol = 0;
  suggested = replicate 16 0;
  option_code = 0;
  option_len = 4;
  range_value = 0;
  range_mask = 0;
}

abbrev masks : Masks
masks = record { port_mask = 0xf800; pool_mask = 0xf800 }

abbrev garbage : TunConfig
garbage = record { user_addr = []; public_ip = 9; start_port = 9; end_port = 9; lefttime = 9 }

abbrev kernel : (second_sent : ℤ) → Outside
kernel second_sent = record {
  socket_ok = true;
  first_sent = pos 0;
  first_received = some (alloc_addr_msg host_address 120);
  second_sent = second_sent;
  second_received = some (result_msg 1);
  uninitialized = garbage;
  uninitialized_info = record { extip = 9; startport = 9; endport = 9 };
  now = 50;
}

found :
    option_list_search_option (record { opcode = 100; options = some (option_array (0 ∷ []) 19) }) 0
    ≡ some (pos 0)
unfolding option_list_search_option search_array
found = refl

known :
    option_list_search_opcode phead 100
    ≡ some (record { opcode = 100; options = some (option_array (0 ∷ []) 19) })
unfolding option_list_search_opcode
known = refl

check_pcp_request_iff_example :
    (check_pcp_request phead request 52 host_address ≡ some err_success)
    ↔ IsValid request 52 host_address (pos 0)
check_pcp_request_iff_example =
    check_pcp_request_iff phead request 52 host_address
      (record { opcode = 100; options = some (option_array (0 ∷ []) 19) }) (pos 0) refl known found

abbrev always : ℕ → Bool
always addr = true

abbrev new_pool : PoolList
new_pool = record { nodes = range_nodes always 5 2; curnode = 0; count = 2 }

abbrev used_pool : PoolList
used_pool = record {
  nodes = record { ip = 5; validbit = 2; bitmap = set fresh_map 0 0xc0 } ∷ alloc_node 6 ∷ [];
  curnode = 0;
  count = 2;
}

-- An address that is used up: its map is full, and the walk ends where it started.
abbrev full_pool : PoolList
full_pool = record {
  nodes = record { ip = 5; validbit = 0; bitmap = replicate 8 255 } ∷ [];
  curnode = 0;
  count = 1;
}
