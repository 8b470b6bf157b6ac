-- ===== src/Tc/Pcp/Answer.antt =====
-- TC/user_module/src/pcpmsg.c: the packet that answers a request, and the handlers that end in it.
use laft.Common.{
  Bool, List, Option, [], false, if◌then◌else◌, ltb, negsuc, none, not, pos, some, take, ℕ, ℤ, ◌%◌,
  ◌++◌, ◌+◌, ◌-◌, ◌/◌, ◌==◌, ◌^◌, ◌||◌, ◌∷◌,
}
use laft.Tc.Pool.{PoolList}
use laft.Tc.Netlink.{Masks, Sent}
use laft.Tc.Options.{OptionEntry}
use laft.Tc.Pcp.{
  Outside, PcpRequest, PcpResponse, Updated, check_pcp_request, del_tunnel,
  err_cannot_provide_external, err_success, is_negative, lost, op_code_map_port_set,
  success_lifetime, update_tunnel_tree, updated,
}

-- The length of an error packet: a multiple of 4, at most MAX_REQUEST_LEN.
abbrev pub padded : ℕ → ℕ
padded len =
    if ltb len 1024
    then (if len % 4 == 0 then len else len + (4 - len % 4))
    else if ltb 1024 len
    then 1024
    else len

-- A 32-bit address as the network sends it.
abbrev pub address_bytes : ℕ → List ℕ
address_bytes ip = ip / 2 ^ 24 % 256 ∷ ip / 2 ^ 16 % 256 ∷ ip / 2 ^ 8 % 256 ∷ ip % 256 ∷ []

-- `handlPCPRespone`, up to the packet that it sends.
unfoldable pub handl_pcp_respone :
    Masks → Outside → PcpRequest → (len result ip port : ℕ) → PcpResponse
handl_pcp_respone masks w request len result ip port =
    if not (result == err_success)
    then record {
      request = request;
      result = result;
      life_time = 1800;
      epoch = w.now;
      address = request.suggested;
      range_value = 0;
      range_mask = 0;
      len = padded len;
    }
    else record {
      request = request;
      result = result;
      life_time = success_lifetime;
      epoch = w.now;
      address = take 10 request.suggested ++ (255 ∷ 255 ∷ address_bytes ip);
      range_value = port;
      range_mask = masks.pool_mask;
      len = len;
    }

-- How a request ends: with no packet, with one, or as in `lost`.
pub data Served : Type 0 where
  lost_request : Served
  dropped : PoolList → Served
  answered : PcpResponse → PoolList → List Sent → Served

abbrev pub is_refusal : ℤ → Bool
is_refusal (pos n) = false
is_refusal (negsuc n) = n == 0

-- The end of `handle_opcode_map_port_set`, after either call.
abbrev pub answer_update :
    Masks → Outside → PcpRequest → (len result : ℕ) → Option Updated → Option Served
answer_update masks w request len result none = none
answer_update masks w request len result (some lost) = some lost_request
answer_update masks w request len result (some (updated code ip port pool sent)) = some (
    answered
      (handl_pcp_respone masks w request len
        (if is_refusal code then err_cannot_provide_external else result) ip port)
      pool sent)

abbrev pub answer_delete :
    Masks → Outside → PcpRequest → (len result : ℕ) → Option Updated → Option Served
answer_delete masks w request len result none = none
answer_delete masks w request len result (some lost) = some lost_request
answer_delete masks w request len result (some (updated code ip port pool sent)) =
    if is_negative code
    then some (answered (handl_pcp_respone masks w request len result 0 0) pool sent)
    else some (answered (handl_pcp_respone masks w request len result ip port) pool sent)

unfoldable pub handle_opcode_map_port_set :
    ℕ → Masks → Outside → PcpRequest → (len result : ℕ) → PoolList → Option Served
handle_opcode_map_port_set fuel masks w request len result pool =
    if request.life_time == 0
    then answer_delete masks w request len result (del_tunnel fuel masks w request pool)
    else answer_update masks w request len result (update_tunnel_tree fuel masks w request pool)

-- `handlePcpRequest`; `source` is the address of the packet's sender.
unfoldable pub handle_pcp_request :
    ℕ
    → Masks
    → Outside
    → List OptionEntry
    → PcpRequest
    → (len : ℕ) → (source : List ℕ) → PoolList
    → Option Served
handle_pcp_request fuel masks w phead request len source pool =
    if request.r == 1 || ltb len 2
    then some (dropped pool)
    else elim (check_pcp_request phead request len source) [
      | none ↦ some lost_request
      | some result ↦
          if result == err_success
          then (if request.opcode == op_code_map_port_set
              then handle_opcode_map_port_set fuel masks w request len result pool
              else some (dropped pool))
          else some (answered (handl_pcp_respone masks w request len result 0 0) pool [])
    ]
