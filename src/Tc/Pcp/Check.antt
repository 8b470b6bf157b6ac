-- ===== src/Tc/Pcp/Check.antt =====
-- The check of a request in TC/user_module/src/pcpmsg.c, and the length of an error packet.
use mathlib.Core.Option.{some-injective}
use laft.Common.{
  ==_iff, Bool, Bool-cases, List, arith, false, if◌then◌else◌, inl, inr, not, same_bytes, some, sym,
  true, ℕ, ℤ, ◌%◌, ◌&&◌, ◌+◌, ◌<◌, ◌==◌, ◌||◌, ◌↔◌, ◌∙◌, ◌≡◌, ◌≢◌, ◌≤◌,
}
use laft.Tc.Netlink.{Masks}
use laft.Tc.Options.{OptionEntry, option_list_search_opcode, option_list_search_option}
use laft.Tc.Pcp.{
  Outside, PcpRequest, check_opcode_map_port_set, check_pcp_request, err_address_mismatch,
  err_malformed_request, err_success, err_unsupp_option, err_unsupp_version, is_negative,
  op_code_map_port_set,
}
use laft.Tc.Pcp.Answer.{handl_pcp_respone}

-- What a request for a set of ports must have.
pub record IsValid (request : PcpRequest) (len : ℕ) (source : List ℕ) (found : ℤ) : Type 0 where
  pub version : request.ver ≡ 1
  pub allowed : is_negative found ≡ false
  pub own_address : same_bytes request.client source ≡ true
  pub option : (request.option_code == 0 && not (request.option_len == 4)) ≡ false
  pub size : len ≡ 52

-- The checks as tests, in the order of the code.
abbrev verdict : (version unsupported own bad_option size : Bool) → ℕ
verdict version unsupported own bad_option size =
    if not version
    then err_unsupp_version
    else if unsupported
    then err_unsupp_option
    else if not own
    then err_address_mismatch
    else if bad_option || not size
    then err_malformed_request
    else err_success

verdict_passes :
    (version unsupported own bad_option size : Bool)
    → verdict version unsupported own bad_option size ≡ err_success
    → (version ≡ true) × (unsupported ≡ false) × (own ≡ true) × (bad_option ≡ false) × (size ≡ true)
verdict_passes version unsupported own bad_option size h = ground arith

check-verdict :
    (phead : List OptionEntry) (request : PcpRequest) (len : ℕ) (source : List ℕ)
    (entry : OptionEntry) (found : ℤ)
    → request.opcode ≡ op_code_map_port_set
    → option_list_search_opcode phead request.opcode ≡ some entry
    → option_list_search_option entry request.option_code ≡ some found
    → check_pcp_request phead request len source
      ≡ some (
          verdict
            (request.ver == 1)
            (is_negative found)
            (same_bytes request.client source)
            (request.option_code == 0 && not (request.option_len == 4))
            (len == 52))
unfolding check_pcp_request check_opcode_map_port_set
check-verdict phead request len source entry found e e₁ e₂ =
    let map_port_set : (request.opcode == op_code_map_port_set) ≡ true = (==_iff _ _).1 e in
    elim (Bool-cases (request.ver == 1)) [
      | inl v ↦ rw (v, e₁, map_port_set, check_opcode_map_port_set, e₂)
      | inr v ↦ rw v
    ]

-- Where the opcode is configured and the search for the option ends: a request for a set of ports
-- passes the checks exactly if it is valid.
pub check_pcp_request_iff :
    (phead : List OptionEntry) (request : PcpRequest) (len : ℕ) (source : List ℕ)
    (entry : OptionEntry) (found : ℤ)
    → request.opcode ≡ op_code_map_port_set
    → option_list_search_opcode phead request.opcode ≡ some entry
    → option_list_search_option entry request.option_code ≡ some found
    → (check_pcp_request phead request len source ≡ some err_success)
      ↔ IsValid request len source found
check_pcp_request_iff phead request len source entry found e e₁ e₂ =
    let run = check-verdict phead request len source entry found e e₁ e₂ in
    (
      λ h.
          let (v, u, o, b, s) =
            verdict_passes (request.ver == 1) (is_negative found) (same_bytes request.client source)
              (request.option_code == 0 && not (request.option_len == 4)) (len == 52)
              (some-injective _ _ (sym run ∙ h)) in
          record {
            version = (==_iff _ _).0 v;
            allowed = u;
            own_address = o;
            option = b;
            size = (==_iff _ _).0 s;
          },
      λ valid.
          let v : (request.ver == 1) ≡ true = (==_iff _ _).1 valid.version in
          let s : (len == 52) ≡ true = (==_iff _ _).1 valid.size in
          run ∙ rw (v, valid.allowed, valid.own_address, valid.option, s),
    )

-- An error packet is a multiple of 4 bytes long, at most 1024, and as long as the request but for
-- less than 4 bytes, if the request is at most that long.
pub handl_pcp_respone-len :
    (masks : Masks) (w : Outside) (request : PcpRequest) (len result ip port : ℕ)
    → result ≢ err_success
    → ((handl_pcp_respone masks w request len result ip port).len % 4 ≡ 0)
      × ((handl_pcp_respone masks w request len result ip port).len ≤ 1024)
      × (len ≤ 1024
          → (len ≤ (handl_pcp_respone masks w request len result ip port).len)
            × ((handl_pcp_respone masks w request len result ip port).len < len + 4))
unfolding handl_pcp_respone
handl_pcp_respone-len masks w request len result ip port ne =
    let error : (result == err_success) ≡ false = ground arith in rw error (ground arith)
