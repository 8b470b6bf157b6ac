-- ===== src/Tc/Users/Messages.antt =====
-- One user, and one message, on the way from TC/kernel_module/src/tcuserinfo.c to
-- TC/user_module/src/tcuserinfo.c.
use native.Mathlib.Nat.{mul-div_cancel, suc-mul, zero-mul}
use laft.Common.{
  List, [], ap, arith, drop, false, leb, length, length-append, length-set, ltb, refl, set, some,
  suc, sym, take, true, zero, ℕ, ◌*◌, ◌++◌, ◌+◌, ◌/◌, ◌<◌, ◌∙◌, ◌∷◌, ◌≡◌, ◌≤◌,
}
use laft.Tc.Users.{
  Reply, Sender, UserPool, add_user, add_user_info_to_pool, batch, get_tc_user_data, header_size,
  info, max_msg_size, max_user_pool_num, process_nl_message, restart, send_tc_info_nlmsg,
  send_user_info,
}
use laft.Tc.Tunnels.{Tunnel}

-- The message holds the users `buf`, fewer than a batch.
pub record Holds (size : ℕ) (s : Sender) (buf : List Tunnel) : Type 0 where
  pub running : s.flag ≡ false
  pub counted : s.i ≡ length buf
  pub below : length buf < batch
  pub so_far : s.offset ≡ length buf * size
  pub kept : take (length buf) s.user ≡ buf
  pub whole : length s.user ≡ batch

-- The pool holds the users `acc` that have arrived.
pub record Received (p : UserPool) (acc : List Tunnel) : Type 0 where
  pub recved : p.recved ≡ length acc
  pub users : take (length acc) p.users ≡ acc

take-set :
    (n : ℕ) (xs : List Tunnel) (r : Tunnel)
    → n < length xs
    → take (suc n) (set xs n r) ≡ take n xs ++ (r ∷ [])
take-set n [] r h = elim h [ ]
take-set zero (x ∷ xs) r h = refl
take-set (suc n) (x ∷ xs) r h = ap (λ z. x ∷ z) (take-set n xs r (omega arith))

take-append : (xs ys : List Tunnel) → take (length xs) (xs ++ ys) ≡ xs
take-append [] ys = refl
take-append (x ∷ xs) ys = ap (λ z. x ∷ z) (take-append xs ys)

-- A message of the users `new`, at the head of the array that is sent.
pub info-Received :
    (size : ℕ) (user new acc : List Tunnel) (p : UserPool) (rest : List Reply)
    → 0 < size
    → take (length new) user ≡ new
    → Received p acc
    → length acc + length new ≤ max_user_pool_num
    → (p' : UserPool) × (get_tc_user_data size (info (length new * size) user ∷ rest) p
        ≡ get_tc_user_data size rest p')
      × Received p' (acc ++ new)
unfolding get_tc_user_data process_nl_message add_user_info_to_pool
info-Received size user new acc p rest h head r room =
    let p' : UserPool = record {
      users =
          take p.recved p.users ++ take (length new) user ++ drop (p.recved + length new) p.users;
      recved = p.recved + length new;
    } in
    let count : length new * size / size ≡ length new = mul-div_cancel (length new) h in
    let fits : leb (p.recved + length new) max_user_pool_num ≡ true = ground (arith, r.recved) in
    (
      p',
      rw (get_tc_user_data, process_nl_message, count, add_user_info_to_pool, fits),
      record {
        recved = omega (arith, r.recved, length-append acc new);
        users =
            ap (λ z. take (length (acc ++ new)) (z ++ drop (p.recved + length new) p.users))
              (ap (λ z. take z p.users ++ take (length new) user) r.recved
                ∙ ap (λ z. z ++ take (length new) user) r.users
                ∙ ap (λ z. acc ++ z) head)
            ∙ take-append (acc ++ new) (drop (p.recved + length new) p.users);
      },
    )

module _ (size : ℕ) (s : Sender) (buf : List Tunnel) (r : Tunnel) (w : Holds size s buf) where
  joined : take (suc (length buf)) (set s.user s.i r) ≡ buf ++ (r ∷ [])
  joined =
      ap (λ z. take (suc (length buf)) (set s.user z r)) w.counted
      ∙ take-set (length buf) s.user r (omega (arith, w.below, w.whole))
      ∙ ap (λ z. z ++ (r ∷ [])) w.kept

  one_more : length (buf ++ (r ∷ [])) ≡ suc (length buf)
  one_more = omega (arith, length-append buf (r ∷ []))

  unchanged : restart s ≡ s
  unchanged = rw w.running

  -- There is room for another user after this one.
  pub send_user_info-more :
      suc (length buf) < batch
      → (s' : Sender) × (send_user_info size s r ≡ some (s', [])) × Holds size s' (buf ++ (r ∷ []))
  unfolding send_user_info add_user
  send_user_info-more room =
      let below : ltb s.i 49 ≡ true = ground (arith, w.counted) in
      (
        record s { i = s.i + 1; offset = s.offset + size; user = set s.user s.i r },
        rw (send_user_info, w.running, add_user, below),
        record {
          running = w.running;
          counted = omega (arith, w.counted, one_more);
          below = omega (arith, one_more);
          so_far =
              ap (λ z. z + size) w.so_far
              ∙ sym (ap (λ z. z * size) one_more ∙ suc-mul (length buf) size);
          kept = ap (λ z. take z (set s.user s.i r)) one_more ∙ joined;
          whole = length-set s.user s.i r ∙ w.whole;
        },
      )

  -- This user makes the message full.
  pub send_user_info-full :
      suc (length buf) ≡ batch
      → batch * size + header_size ≤ max_msg_size
      → (s' : Sender) × (user : List Tunnel) × (send_user_info size s r
          ≡ some (s', info (batch * size) user ∷ []))
        × Holds size s' []
        × (take batch user ≡ buf ++ (r ∷ []))
  unfolding send_user_info add_user send_tc_info_nlmsg
  send_user_info-full last fits =
      let below : ltb s.i 49 ≡ false = ground (arith, w.counted) in
      let short : leb (s.offset + size + header_size) max_msg_size ≡ true =
        ground (arith, w.so_far, ap (λ z. z * size) last, suc-mul (length buf) size) in
      (
        record s { i = 0; offset = 0; user = set s.user s.i r },
        set s.user s.i r,
        ap (λ z. add_user size z r) unchanged ∙ rw (add_user, below, send_tc_info_nlmsg, short),
        record {
          running = w.running;
          counted = refl;
          below = omega arith;
          so_far = sym (zero-mul size);
          kept = refl;
          whole = length-set s.user s.i r ∙ w.whole;
        },
        ap (λ z. take z (set s.user s.i r)) (sym last) ∙ joined,
      )
