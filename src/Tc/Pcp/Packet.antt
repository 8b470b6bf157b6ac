-- ===== src/Tc/Pcp/Packet.antt =====
-- What stands in the packet that TC/user_module/src/pcpmsg.c sends back.
use laft.Common.{
  List, [], ap, arith, drop, false, length, length-append, length-take, refl, suc, take, zero, ℕ,
  ◌%◌, ◌++◌, ◌<◌, ◌==◌, ◌^◌, ◌∙◌, ◌∷◌, ◌≡◌, ◌≤◌, ◌⊎◌,
}
use laft.Tc.Netlink.{Masks}
use laft.Tc.Pcp.{Outside, PcpRequest, PcpResponse, err_success}
use laft.Tc.Pcp.Answer.{address_bytes, handl_pcp_respone}
use laft.Tc.Bplus.Keys.{spelled}

-- A success, with an IPv4 address mapped into IPv6 and the first port of a range; the lifetime is
-- that of a success, and the packet is as long as the request.
pub record IsGrant (masks : Masks) (w : Outside) (bytes ip first : ℕ) (r : PcpResponse)
    : Type 0 where
  pub result : r.result ≡ 0
  pub life_time : r.life_time ≡ 120
  pub epoch : r.epoch ≡ w.now
  pub size : length r.address ≡ 16
  pub mapped : take 2 (drop 10 r.address) ≡ 255 ∷ 255 ∷ []
  pub address : spelled 0 (drop 12 r.address) ≡ ip
  pub port : r.range_value ≡ first
  pub mask : r.range_mask ≡ masks.pool_mask
  pub len : r.len ≡ bytes

-- An error with no range, of a length that is a multiple of 4 and at most 1024.
pub record IsRefusal (w : Outside) (bytes code : ℕ) (r : PcpResponse) : Type 0 where
  pub result : r.result ≡ code
  pub life_time : r.life_time ≡ 1800
  pub epoch : r.epoch ≡ w.now
  pub no_port : r.range_value ≡ 0
  pub no_mask : r.range_mask ≡ 0
  pub aligned : r.len % 4 ≡ 0
  pub short : r.len ≤ 1024
  pub covers : (r.len ≡ 1024) ⊎ (bytes ≤ r.len)

drop-append : (n : ℕ) (xs ys : List ℕ) → length xs ≡ n → drop n (xs ++ ys) ≡ ys
drop-append zero [] ys h = refl
drop-append zero (x ∷ xs) ys h = absurd (omega arith)
drop-append (suc n) [] ys h = absurd (omega arith)
drop-append (suc n) (x ∷ xs) ys h = drop-append n xs ys (omega arith)

drop-drop_two : (n : ℕ) (xs : List ℕ) → drop (suc (suc n)) xs ≡ drop 2 (drop n xs)
drop-drop_two zero xs = refl
drop-drop_two (suc n) [] = refl
drop-drop_two (suc n) (x ∷ xs) = drop-drop_two n xs

module _ (masks : Masks) (w : Outside) (request : PcpRequest) (len : ℕ) where
  pub handl_pcp_respone-IsGrant :
      (ip port : ℕ)
      → length request.suggested ≡ 16
      → ip < 2 ^ 32
      → IsGrant masks w len ip port (handl_pcp_respone masks w request len err_success ip port)
  unfolding handl_pcp_respone
  handl_pcp_respone-IsGrant ip port h small =
      let front : length (take 10 request.suggested) ≡ 10 =
        length-take 10 request.suggested ∙ omega (arith, h) in
      let back = 255 ∷ 255 ∷ address_bytes ip in
      let behind : drop 10 (take 10 request.suggested ++ back) ≡ back =
        drop-append 10 (take 10 request.suggested) back front in
      record {
        result = refl;
        life_time = refl;
        epoch = refl;
        size = length-append (take 10 request.suggested) back ∙ omega (arith, front);
        mapped = ap (take 2) behind;
        address =
            ap (spelled 0)
              (drop-drop_two 10 (take 10 request.suggested ++ back) ∙ ap (drop 2) behind)
            ∙ omega arith;
        port = refl;
        mask = refl;
        len = refl;
      }

  pub handl_pcp_respone-IsRefusal :
      (code : ℕ)
      → (code == 0) ≡ false
      → IsRefusal w len code (handl_pcp_respone masks w request len code 0 0)
  unfolding handl_pcp_respone
  handl_pcp_respone-IsRefusal code some_code = rw some_code (record {
    result = refl;
    life_time = refl;
    epoch = refl;
    no_port = refl;
    no_mask = refl;
    aligned = ground arith;
    short = ground arith;
    covers = ground arith;
  })
