-- ===== src/Tc/Pcp/Serve.antt =====
-- TC/user_module/src/pcpmsg.c: how a valid request is served, with the pool of
-- TC/user_module/src/addrpoolentity.c behind it.
use laft.Common.{List, false, length, ltb, some, true, ℕ, ◌<◌, ◌==◌, ◌||◌, ◌≡◌, ◌≤◌}
use laft.Tc.Pool.{PoolList}
use laft.Tc.Netlink.{Masks, TunConfig, alloc_addr_msg, range_of}
use laft.Tc.Options.{OptionEntry}
use laft.Tc.Pcp.{Outside, PcpRequest, check_pcp_request, err_success, op_code_map_port_set}
use laft.Tc.Bitmap.{nonzero}
use laft.Tc.Pool.Alloc.{IsPool}
use laft.Tc.Pool.Tries.{Grants, Keeps}

-- A request that asks for a set of ports, of a host that the kernel does not know: the kernel
-- answers the first message with NETLINK_ALLOC_ADDR.
pub record IsNewHost (w : Outside) (phead : List OptionEntry) (request : PcpRequest) (len : ℕ)
    (source : List ℕ) (cli_addr : List ℕ) (lefttime : ℕ) : Type 0 where
  pub suggests : length request.suggested ≡ 16
  pub is_request : (request.r == 1 || ltb len 2) ≡ false
  pub passes : check_pcp_request phead request len source ≡ some err_success
  pub map_port_set : request.opcode ≡ op_code_map_port_set
  pub renews : (request.life_time == 0) ≡ false
  pub has_socket : w.socket_ok ≡ true
  pub sends : nonzero w.first_sent ≡ false
  pub unknown : w.first_received ≡ some (alloc_addr_msg cli_addr lefttime)

-- The binding that the kernel is told.
abbrev pub binding : List ℕ → ℕ → (start stop addr : ℕ) → TunConfig
binding cli_addr lefttime start stop addr = record {
  user_addr = cli_addr;
  public_ip = addr;
  start_port = start;
  end_port = stop;
  lefttime = lefttime;
}

module _ (fuel : ℕ) (masks : Masks) (w : Outside) (phead : List OptionEntry) (request : PcpRequest)
    (len : ℕ) (source cli_addr : List ℕ) (lefttime : ℕ) (pool : PoolList)
    (host : IsNewHost w phead request len source cli_addr lefttime) where
  module _ (some_range : 1 ≤ range_of masks.port_mask) (short : range_of masks.port_mask < 64)
      (valid : IsPool (range_of masks.port_mask) pool) where
    -- What the pool handed out, wherever the call of `AllocAddrPort` stands.
    abbrev pub IsLeased : (start stop addr : ℕ) → PoolList → Type 0
    IsLeased start stop addr pool' =
        Keeps pool.nodes pool'.nodes
        × IsPool (range_of masks.port_mask) pool'
        × (slot : ℕ) × (bit : ℕ) × Grants (range_of masks.port_mask) pool.nodes pool'.nodes slot bit
            start stop addr
