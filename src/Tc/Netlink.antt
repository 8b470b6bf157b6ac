-- ===== src/Tc/Netlink.antt =====
-- TC/user_module/src/nlmessage.c: the messages between the daemon and the kernel module, and how
-- the daemon handles one. Fields hold the values that they are loaded with.
use laft.Common.{
  List, Option, if◌then◌else◌, negsuc, none, pos, some, ℕ, ℤ, ◌%◌, ◌+◌, ◌-◌, ◌/◌, ◌==◌, ◌^◌,
}
use laft.Tc.Pool.{
  Freed, Outcome, PoolList, alloc_addr_port, crash, crashed, dealloc_addr_port, failed, freed, got,
  mini_range, refused,
}

-- `NETLINK_MSG_TUNCONFIG`, less its header.
pub record TunConfig : Type 0 where
  pub user_addr : List ℕ
  pub public_ip : ℕ
  pub start_port : ℕ
  pub end_port : ℕ
  pub lefttime : ℕ

-- `NETADDRINFO`
pub record AddrInfo : Type 0 where
  pub extip : ℕ
  pub startport : ℕ
  pub endport : ℕ

-- A message by its `msgdef`, with the fields of the structure that `HandlMessage` reads it as.
pub data NlMessage : Type 0 where
  alloc_addr_msg : (cli_addr : List ℕ) → (lefttime : ℕ) → NlMessage
  update_msg : TunConfig → NlMessage
  delete_node_msg : TunConfig → NlMessage
  result_msg : (result : ℕ) → NlMessage
  tc_state_msg : List ℕ → NlMessage
  other_msg : NlMessage

-- What the daemon sends.
pub data Sent : Type 0 where
  detect : (cli_addr : List ℕ) → (lefttime : ℕ) → Sent
  delete_node : (cli_addr : List ℕ) → (lefttime : ℕ) → Sent
  bind : TunConfig → Sent

-- `MSG_ERR_SUCCESS` and the others.
abbrev pub msg_err_success : ℤ
msg_err_success = pos 1

abbrev pub msg_err_inter : ℤ
msg_err_inter = pos 0

abbrev pub msg_err_cannot_alloc_port : ℤ
msg_err_cannot_alloc_port = negsuc 0

abbrev pub msg_err_recycled_port : ℤ
msg_err_recycled_port = negsuc 1

abbrev pub msg_err_result : ℤ
msg_err_result = negsuc 2

abbrev pub msg_err_unknown : ℤ
msg_err_unknown = negsuc 3

-- The two port masks of the configuration.
pub record Masks : Type 0 where
  pub port_mask : ℕ
  pub pool_mask : ℕ

-- `(unsigned short)(~usPortMask + 1) / MINI_RANGE_VALUE`
abbrev pub range_of : ℕ → ℕ
range_of mask = (2 ^ 16 - mask) % 2 ^ 16 / mini_range

-- `MsgContent`: NULL, or one of the structures that a caller passes.
pub data Content : Type 0 where
  no_content : Content
  tunnel : TunConfig → Content
  address : AddrInfo → Content
  state : List ℕ → Content

-- `misread` is a crash, or a write over a structure of another type: neither is followed.
pub data Handled : Type 0 where
  misread : Handled
  handled : (code : ℤ) → Content → PoolList → Handled

-- The case NETLINK_ALLOC_ADDR behind the call of `AllocAddrPort`.
abbrev pub allocated : List ℕ → ℕ → TunConfig → Outcome → Handled
allocated cli_addr lefttime config crashed = misread
allocated cli_addr lefttime config (refused pool) =
    handled msg_err_cannot_alloc_port (tunnel config) pool
allocated cli_addr lefttime config (got start stop addr pool) =
    handled msg_err_success
      (tunnel (record {
        user_addr = cli_addr;
        public_ip = addr;
        start_port = start;
        end_port = stop;
        lefttime = lefttime;
      }))
      pool

-- The case NETLINK_DELETE_NODE behind the call of `DeallocAddrPort`.
abbrev pub recycled : AddrInfo → PoolList → Freed → Handled
recycled info pool crash = misread
recycled info pool failed = handled msg_err_recycled_port (address info) pool
recycled info pool (freed pool') = handled msg_err_success (address info) pool'

-- `HandlMessage`; `none` if `AllocAddrPort` runs out of fuel.
unfoldable pub handle_message : ℕ → Masks → NlMessage → Content → PoolList → Option Handled
handle_message fuel masks (alloc_addr_msg cli_addr lefttime) (tunnel config) pool =
    elim (alloc_addr_port fuel (range_of masks.port_mask) pool) [
      | none ↦ none
      | some o ↦ some (allocated cli_addr lefttime config o)
    ]
handle_message fuel masks (alloc_addr_msg cli_addr lefttime) no_content pool =
    some (handled msg_err_success no_content pool)
handle_message fuel masks (alloc_addr_msg cli_addr lefttime) c pool = some misread
handle_message fuel masks (update_msg config) (tunnel old) pool =
    some (handled msg_err_success (tunnel config) pool)
handle_message fuel masks (update_msg config) no_content pool =
    some (handled msg_err_success no_content pool)
handle_message fuel masks (update_msg config) c pool = some misread
handle_message fuel masks (delete_node_msg config) (address old) pool =
    let info : AddrInfo = record {
      extip = config.public_ip;
      startport = config.start_port;
      endport = (config.start_port + (2 ^ 16 - 1 - masks.pool_mask % 2 ^ 16)) % 2 ^ 16;
    } in
    some (
      recycled info pool
        (dealloc_addr_port (range_of masks.port_mask) config.start_port config.public_ip pool))
handle_message fuel masks (delete_node_msg config) c pool = some misread
handle_message fuel masks (result_msg result) c pool =
    if result == 2
    then some (handled msg_err_result c pool)
    else some (handled msg_err_success c pool)
handle_message fuel masks (tc_state_msg content) (state old) pool =
    some (handled msg_err_success (state content) pool)
handle_message fuel masks (tc_state_msg content) c pool = some misread
handle_message fuel masks other_msg c pool = some (handled msg_err_unknown c pool)
