-- ===== src/Tc/Pcp.antt =====
-- TC/user_module/src/pcpmsg.c: the requests of the Port Control Protocol, from the check of a
-- request to the packet that is sent back. Numbers in a packet are read in host order.
pub mod Answer
pub mod Check
pub mod Packet
pub mod Serve
mod Tests
use laft.Common.{
  Bool, List, Option, [], false, if◌then◌else◌, negsuc, none, not, pos, same_bytes, some, true, ℕ,
  ℤ, ◌&&◌, ◌*◌, ◌==◌, ◌||◌, ◌∷◌,
}
use laft.Tc.Pool.{PoolList}
use laft.Tc.Netlink.{
  AddrInfo, Content, Handled, Masks, NlMessage, Sent, TunConfig, address, bind, delete_node, detect,
  handle_message, handled, misread, msg_err_inter, msg_err_success, no_content, tunnel,
}
use laft.Tc.Options.{OptionEntry, option_list_search_opcode, option_list_search_option}
use laft.Tc.Bitmap.{nonzero}

-- `PCP_REQ_T`, less what is reserved.
pub record PcpRequest : Type 0 where
  pub ver : ℕ
  pub r : ℕ
  pub opcode : ℕ
  pub life_time : ℕ
  pub client : List ℕ
  pub protocol : ℕ
  pub suggested : List ℕ
  pub option_code : ℕ
  pub option_len : ℕ
  pub range_value : ℕ
  pub range_mask : ℕ

-- `PCP_RSP_T`, which is written over the request: `request` has what stays of it.
pub record PcpResponse : Type 0 where
  pub request : PcpRequest
  pub result : ℕ
  pub life_time : ℕ
  pub epoch : ℕ
  pub address : List ℕ
  pub range_value : ℕ
  pub range_mask : ℕ
  pub len : ℕ

-- The error codes that the handlers use.
abbrev pub err_success : ℕ
err_success = 0

abbrev pub err_unsupp_version : ℕ
err_unsupp_version = 1

abbrev pub err_malformed_request : ℕ
err_malformed_request = 3

abbrev pub err_unsupp_opcode : ℕ
err_unsupp_opcode = 4

abbrev pub err_unsupp_option : ℕ
err_unsupp_option = 5

abbrev pub err_cannot_provide_external : ℕ
err_cannot_provide_external = 11

abbrev pub err_address_mismatch : ℕ
err_address_mismatch = 12

abbrev pub op_code_map_port_set : ℕ
op_code_map_port_set = 100

abbrev pub is_negative : ℤ → Bool
is_negative (pos n) = false
is_negative (negsuc n) = true

abbrev pub is_success : ℤ → Bool
is_success (pos n) = n == 1
is_success (negsuc n) = false

-- `none` is a read past the options of the opcode. `sizeof(PCP_REQ_T)` is 52.
unfoldable pub check_opcode_map_port_set : PcpRequest → ℕ → List ℕ → OptionEntry → Option ℕ
check_opcode_map_port_set request len source entry =
    elim (option_list_search_option entry request.option_code) [
      | none ↦ none
      | some found ↦ some (
          if is_negative found
          then err_unsupp_option
          else if not (same_bytes request.client source)
          then err_address_mismatch
          else if (request.option_code == 0 && not (request.option_len == 4)) || not (len == 52)
          then err_malformed_request
          else err_success)
    ]

unfoldable pub check_pcp_request : List OptionEntry → PcpRequest → ℕ → List ℕ → Option ℕ
check_pcp_request phead request len source =
    if not (request.ver == 1)
    then some err_unsupp_version
    else elim (option_list_search_opcode phead request.opcode) [
      | none ↦ some err_unsupp_opcode
      | some entry ↦
          if request.opcode == op_code_map_port_set
          then check_opcode_map_port_set request len source entry
          else some 0
    ]

-- What is not the program's own: how the two exchanges of messages with the kernel go, what the
-- stack holds in the `tcconfig` and the `tunconfig` that are not initialized, and the time since
-- the start. A message that is not received is `none`.
pub record Outside : Type 0 where
  pub socket_ok : Bool
  pub first_sent : ℤ
  pub first_received : Option NlMessage
  pub second_sent : ℤ
  pub second_received : Option NlMessage
  pub uninitialized : TunConfig
  pub uninitialized_info : AddrInfo
  pub now : ℕ

-- `SUCCESS_LIFETIME`
abbrev pub success_lifetime : ℕ
success_lifetime = 2 * 60

-- How `updateTunnelTree` and `delTunnel` end, with the address and port that they put out, the
-- pool and the messages that were sent. `lost` is a crash, or what `misread` stands for.
pub data Updated : Type 0 where
  lost : Updated
  updated : (code : ℤ) → (ip port : ℕ) → PoolList → List Sent → Updated

abbrev pub config_of : TunConfig → Content → TunConfig
config_of config (tunnel config') = config'
config_of config c = config

-- The second exchange, from its answer on.
abbrev pub confirmed : TunConfig → List Sent → Option Handled → Option Updated
confirmed config sent none = none
confirmed config sent (some misread) = some lost
confirmed config sent (some (handled code c pool)) =
    if is_success code
    then some (updated code config.public_ip config.start_port pool sent)
    else some (updated code 0 0 pool sent)

abbrev pub confirm : ℕ → Masks → Outside → TunConfig → List Sent → PoolList → Option Updated
confirm fuel masks w config sent pool =
    if is_negative w.second_sent
    then some (updated msg_err_inter 0 0 pool sent)
    else elim w.second_received [
      | none ↦ some (updated msg_err_inter 0 0 pool (bind config ∷ sent))
      | some msg ↦
          confirmed config (bind config ∷ sent) (handle_message fuel masks msg no_content pool)
    ]

-- The first exchange, from its answer on.
abbrev pub detected : ℕ → Masks → Outside → List Sent → Option Handled → Option Updated
detected fuel masks w sent none = none
detected fuel masks w sent (some misread) = some lost
detected fuel masks w sent (some (handled code c pool)) =
    if is_success code
    then confirm fuel masks w (config_of w.uninitialized c) sent pool
    else some (updated code 0 0 pool sent)

unfoldable pub update_tunnel_tree : ℕ → Masks → Outside → PcpRequest → PoolList → Option Updated
update_tunnel_tree fuel masks w request pool =
    let sent = detect request.client success_lifetime ∷ [] in
    if not w.socket_ok
    then some (updated msg_err_inter 0 0 pool [])
    else if nonzero w.first_sent
    then some (updated msg_err_inter 0 0 pool [])
    else elim w.first_received [
      | none ↦ some (updated msg_err_inter 0 0 pool sent)
      | some msg ↦
          detected fuel masks w sent (handle_message fuel masks msg (tunnel w.uninitialized) pool)
    ]

-- `delTunnel`, from the answer on.
abbrev pub withdrawn : List Sent → PoolList → Option Handled → Option Updated
withdrawn sent pool none = none
withdrawn sent pool (some misread) = some lost
withdrawn sent pool (some (handled code (address info) pool')) =
    if is_success code
    then some (updated msg_err_success info.extip info.startport pool' sent)
    else some (updated msg_err_inter 0 0 pool' sent)
withdrawn sent pool (some (handled code c pool')) = some lost

unfoldable pub del_tunnel : ℕ → Masks → Outside → PcpRequest → PoolList → Option Updated
del_tunnel fuel masks w request pool =
    let sent = delete_node request.client request.life_time ∷ [] in
    if not w.socket_ok
    then some (updated msg_err_inter 0 0 pool [])
    else if nonzero w.first_sent
    then some (updated (negsuc 0) 0 0 pool [])
    else elim w.first_received [
      | none ↦ some (updated msg_err_inter 0 0 pool sent)
      | some msg ↦
          withdrawn sent pool (handle_message fuel masks msg (address w.uninitialized_info) pool)
    ]
