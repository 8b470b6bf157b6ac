-- ===== src/Tc/Users.antt =====
-- The users that the daemon asks the kernel for: TC/kernel_module/src/tcuserinfo.c sends them in
-- messages of fifty, and TC/user_module/src/tcuserinfo.c puts them into its pool. A user record is
-- a tunnel, which has the same fields in the same order. `none` is a write out of bounds, or a freed
-- tunnel that is read.
pub mod Messages
pub mod Deliver
pub mod Query
mod Tests
use laft.Common.{
  Bool, List, Option, [], drop, false, if◌then◌else◌, leb, ltb, negsuc, none, pos, replicate, set,
  some, suc, take, true, zero, ℕ, ℤ, ◌%◌, ◌*◌, ◌++◌, ◌+◌, ◌/◌, ◌==◌, ◌∷◌,
}
use laft.Tc.Bplus.{Key}
use laft.Tc.Tunnels.{Storage, Tunnel, size_of_element}

-- The message under construction, and the static variables that say how far it is.
pub record Sender : Type 0 where
  pub flag : Bool
  pub i : ℕ
  pub offset : ℕ
  pub user : List Tunnel

abbrev pub batch : ℕ
batch = 50

-- The three integers before the users of a message.
abbrev pub header_size : ℕ
header_size = 12

abbrev pub max_msg_size : ℕ
max_msg_size = 1500

-- NETLINK_TC_USER_TOTAL, NETLINK_TC_USER_INFO with msglen and the users, NETLINK_RESULT.
pub data Reply : Type 0 where
  total : ℤ → Reply
  info : ℕ → List Tunnel → Reply
  result : Reply

-- `send_tc_info_nlmsg`, which copies the message into one of `max_msg_size` bytes.
unfoldable pub send_tc_info_nlmsg : Reply → ℕ → Option Reply
send_tc_info_nlmsg m msglen = if leb msglen max_msg_size then some m else none

abbrev pub restart : Sender → Sender
restart s = if s.flag then record s { flag = false; i = 0; offset = 0 } else s

-- A user goes into the message, which is sent when it is full; `size` is sizeof(USERINFO).
unfoldable pub add_user : ℕ → Sender → Tunnel → Option (Sender × List Reply)
add_user size s r =
    let user = set s.user s.i r in
    if ltb s.i 49
    then some (record s { i = s.i + 1; offset = s.offset + size; user = user }, [])
    else elim (send_tc_info_nlmsg (info (batch * size) user) (s.offset + size + header_size)) [
      | none ↦ none
      | some m ↦ some (record s { i = 0; offset = 0; user = user }, m ∷ [])
    ]

unfoldable pub send_user_info : ℕ → Sender → Tunnel → Option (Sender × List Reply)
send_user_info size s r = add_user size (restart s) r

-- `BPTravUserInfo`
unfoldable pub bptrav_user_info : ℕ → Sender → List Tunnel → Option (Sender × List Reply)
bptrav_user_info size s [] = some (s, [])
bptrav_user_info size s (r ∷ rs) = elim (send_user_info size s r) [
  | none ↦ none
  | some (s', ms) ↦ elim (bptrav_user_info size s' rs) [
    | none ↦ none
    | some (s'', ns) ↦ some (s'', ms ++ ns)
  ]
]

-- The tunnels along the chain of the tree of addresses.
abbrev pub records_of : (ℕ → Option Tunnel) → List (Key × ℕ) → Option (List Tunnel)
records_of tunnels [] = some []
records_of tunnels (x ∷ xs) = elim (tunnels x.1) [
  | none ↦ none
  | some t ↦ elim (records_of tunnels xs) [ none ↦ none | some ts ↦ some (t ∷ ts) ]
]

unfoldable pub user_records : Storage → Option (List Tunnel)
user_records s = elim s.tree4.root [ none ↦ some [] | some r ↦ records_of s.tunnels s.tree4.header ]

-- The users that are left over, `nleft` of them.
unfoldable pub send_left : ℕ → ℕ → Sender → List Reply → Option (Sender × List Reply)
send_left size nleft s ms =
    if nleft == 0
    then some (s, ms ++ (result ∷ []))
    else elim (send_tc_info_nlmsg (info (nleft * size) s.user) (nleft * size + header_size)) [
      | none ↦ none
      | some m ↦ some (record s { flag = true }, ms ++ (m ∷ result ∷ []))
    ]

-- `process_user_info` on NETLINK_TC_USER_INFO; a negative rest is a length that is too large.
unfoldable pub process_info : ℕ → ℤ → Sender → List Tunnel → Option (Sender × List Reply)
process_info size nelem s rs = elim (bptrav_user_info size s rs) [
  | none ↦ none
  | some (s', ms) ↦ elim nelem [
    | pos n ↦ send_left size (n % batch) s' ms
    | negsuc n ↦ if (n + 1) % batch == 0 then send_left size 0 s' ms else none
  ]
]

-- `process_user_info`: NETLINK_TC_USER_TOTAL, whose count the next message relies on.
unfoldable pub process_total : Storage → ℤ × Reply
process_total s = (size_of_element s, total (size_of_element s))

-- The daemon's pool of users, of which the part is kept that has been written.
pub record UserPool : Type 0 where
  pub users : List Tunnel
  pub recved : ℕ

abbrev pub max_user_pool_num : ℕ
max_user_pool_num = 500000

unfoldable pub add_user_info_to_pool : ℕ → List Tunnel → UserPool → Option UserPool
add_user_info_to_pool nuser puser p =
    if leb (p.recved + nuser) max_user_pool_num
    then some (record {
      users = take p.recved p.users ++ take nuser puser ++ drop (p.recved + nuser) p.users;
      recved = p.recved + nuser;
    })
    else none

-- `ProcessNLMessage`
unfoldable pub process_nl_message : ℕ → Reply → UserPool → Option (UserPool × ℤ)
process_nl_message size (total n) p = some (p, negsuc 0)
process_nl_message size (info msglen user) p = elim (add_user_info_to_pool (msglen / size) user p) [
  | none ↦ none
  | some p' ↦ some (p', pos 1)
]
process_nl_message size result p = some (p, pos 0)

-- `GetTcUserData`, on the messages that arrive; without a message the receive fails.
unfoldable pub get_tc_user_data : ℕ → List Reply → UserPool → Option (UserPool × ℤ)
get_tc_user_data size [] p = some (p, negsuc 0)
get_tc_user_data size (m ∷ ms) p = elim (process_nl_message size m p) [
  | none ↦ none
  | some (p', pos zero) ↦ some (p', pos 0)
  | some (p', pos (suc n)) ↦ get_tc_user_data size ms p'
  | some (p', negsuc n) ↦ get_tc_user_data size ms p'
]

-- The state of the sender when the module starts.
abbrev pub blank_user : Tunnel
blank_user = record {
  first_port = 0;
  last_port = 0;
  ext_ip = 0;
  client = replicate 16 0;
  live_time = 0;
}

abbrev pub first_sender : Sender
first_sender = record { flag = false; i = 0; offset = 0; user = replicate batch blank_user }
