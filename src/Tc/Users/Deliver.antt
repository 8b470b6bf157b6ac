-- ===== src/Tc/Users/Deliver.antt =====
-- The users of TC/kernel_module/src/tcuserinfo.c reach the pool of TC/user_module/src/tcuserinfo.c.
use mathlib.Core.List.{append-nil, append_assoc}
use native.Mathlib.Nat.{mul-le-mul_right, zero-mul}
use laft.Common.{
  Bool-cases, List, [], ap, arith, false, inl, inr, leb, length, length-append, ltb, ltb→lt, pos,
  refl, some, subst, suc, sym, take, true, ℕ, ℤ, ◌%◌, ◌*◌, ◌++◌, ◌+◌, ◌<◌, ◌==◌, ◌∙◌, ◌∷◌, ◌≡◌, ◌≤◌,
}
use laft.Tc.Users.{
  Reply, Sender, UserPool, add_user, batch, bptrav_user_info, get_tc_user_data, header_size, info,
  max_msg_size, max_user_pool_num, process_info, process_nl_message, restart, result, send_left,
  send_tc_info_nlmsg, send_user_info,
}
use laft.Tc.Tunnels.{Tunnel}
use laft.Tc.Users.Messages.{
  Holds, Received, info-Received, send_user_info-full, send_user_info-more,
}

-- What a walk over the users `xs` sends, with the users `buf` in the message before: all arrive but
-- those that are left in the message.
pub record Sends (size : ℕ) (s : Sender) (buf xs : List Tunnel) : Type 0 where
  pub sender : Sender
  pub replies : List Reply
  pub done : List Tunnel
  pub left : List Tunnel
  pub runs : bptrav_user_info size s xs ≡ some (sender, replies)
  pub holds : Holds size sender left
  pub parts : done ++ left ≡ buf ++ xs
  pub full : length done % batch ≡ 0
  pub arrive :
      (p : UserPool) (acc : List Tunnel) (rest : List Reply)
      → Received p acc
      → length acc + length done ≤ max_user_pool_num
      → (p' : UserPool) × (get_tc_user_data size (replies ++ rest) p
          ≡ get_tc_user_data size rest p')
        × Received p' (acc ++ done)

module _ (size : ℕ) (h : 0 < size) (fits : batch * size + header_size ≤ max_msg_size) where
  pub bptrav_user_info-Sends :
      (xs buf : List Tunnel) (s : Sender) → Holds size s buf → Sends size s buf xs
  unfolding bptrav_user_info
  bptrav_user_info-Sends [] buf s w = record {
    sender = s;
    replies = [];
    done = [];
    left = buf;
    runs = refl;
    holds = w;
    parts = sym (append-nil buf);
    full = refl;
    arrive = λ p acc rest r room. (p, refl, subst (λ z. Received p z) (sym (append-nil acc)) r);
  }
  bptrav_user_info-Sends (x ∷ xs) buf s w = elim (Bool-cases (ltb (suc (length buf)) batch)) [
    | inl e ↦
        let (s', one, w') = send_user_info-more size s buf x w (ltb→lt _ _ e) in
        let r = bptrav_user_info-Sends xs (buf ++ (x ∷ [])) s' w' in
        record {
          sender = r.sender;
          replies = r.replies;
          done = r.done;
          left = r.left;
          runs = rw (bptrav_user_info, one, r.runs);
          holds = r.holds;
          parts = r.parts ∙ append_assoc buf (x ∷ []) xs;
          full = r.full;
          arrive = r.arrive;
        }
    | inr e ↦
        let (s', user, one, w', head) =
          send_user_info-full size s buf x w (ground (arith, w.below)) fits in
        let r = bptrav_user_info-Sends xs [] s' w' in
        let new = buf ++ (x ∷ []) in
        let fifty : length new ≡ batch = ground (arith, w.below, length-append buf (x ∷ [])) in
        record {
          sender = r.sender;
          replies = info (batch * size) user ∷ r.replies;
          done = new ++ r.done;
          left = r.left;
          runs = rw (bptrav_user_info, one, r.runs);
          holds = r.holds;
          parts =
              append_assoc new r.done r.left
              ∙ ap (λ z. new ++ z) r.parts
              ∙ append_assoc buf (x ∷ []) xs;
          full = omega (arith, r.full, fifty, length-append new r.done);
          arrive = λ p acc rest a room.
              let (p1, e1, a1) =
                info-Received size user new acc p (r.replies ++ rest) h
                  (ap (λ z. take z user) fifty ∙ head) a
                  (omega (arith, room, length-append new r.done)) in
              let (p2, e2, a2) =
                r.arrive p1 (acc ++ new) rest a1
                  (omega (arith, room, length-append new r.done, length-append acc new)) in
              (
                p2,
                ap (λ z. get_tc_user_data size (info (z * size) user ∷ (r.replies ++ rest)) p)
                      (sym fifty)
                    ∙ e1
                    ∙ e2,
                subst (λ z. Received p2 z) (append_assoc acc new r.done) a2,
              );
        }
  ]

  -- What is left over goes out with the result.
  record Leaves (nleft : ℕ) (s : Sender) (buf : List Tunnel) (ms : List Reply) : Type 0 where
    sender : Sender
    replies : List Reply
    runs : send_left size nleft s ms ≡ some (sender, ms ++ replies)
    next : Holds size (restart sender) []
    arrive :
        (p : UserPool) (acc : List Tunnel)
        → Received p acc
        → length acc + length buf ≤ max_user_pool_num
        → (p' : UserPool) × (get_tc_user_data size replies p ≡ some (p', pos 0))
          × Received p' (acc ++ buf)

  send_left-Leaves :
      (nleft : ℕ) (s : Sender) (buf : List Tunnel) (ms : List Reply)
      → Holds size s buf
      → nleft ≡ length buf
      → Leaves nleft s buf ms
  unfolding send_left send_tc_info_nlmsg get_tc_user_data process_nl_message
  send_left-Leaves nleft s [] ms w e = record {
    sender = s;
    replies = result ∷ [];
    runs = rw (send_left, e);
    next = subst (λ z. Holds size z []) (sym (rw w.running)) w;
    arrive = λ p acc a room. (p, refl, subst (λ z. Received p z) (sym (append-nil acc)) a);
  }
  send_left-Leaves nleft s (x ∷ buf) ms w e =
      let some_left : (nleft == 0) ≡ false = ground (arith, e) in
      let few : nleft ≤ batch = omega (arith, e, w.below) in
      let short : leb (nleft * size + header_size) max_msg_size ≡ true =
        ground (arith, mul-le-mul_right size few) in
      record {
        sender = record s { flag = true };
        replies = info (nleft * size) s.user ∷ result ∷ [];
        runs = rw (send_left, some_left, send_tc_info_nlmsg, short);
        next = record {
          running = refl;
          counted = refl;
          below = omega arith;
          so_far = sym (zero-mul size);
          kept = refl;
          whole = w.whole;
        };
        arrive = λ p acc a room.
            let (p', e1, a') =
              info-Received size s.user (x ∷ buf) acc p (result ∷ []) h w.kept a room in
            (
              p',
              ap (λ z. get_tc_user_data size (info (z * size) s.user ∷ result ∷ []) p) e ∙ e1,
              a',
            );
      }

  -- The walk starts a new message if the flag is set.
  bptrav_user_info-restart :
      (s : Sender) (x : Tunnel) (xs : List Tunnel)
      → Holds size (restart s) []
      → bptrav_user_info size s (x ∷ xs) ≡ bptrav_user_info size (restart s) (x ∷ xs)
  unfolding bptrav_user_info send_user_info
  bptrav_user_info-restart s x xs w =
      let once : restart (restart s) ≡ restart s = rw w.running in
      let same : send_user_info size s x ≡ send_user_info size (restart s) x =
        ap (λ z. add_user size z x) (sym once) in
      rw (bptrav_user_info, same)

-- The users reach the pool, and the sender can start again.
pub record Delivered (size : ℕ) (nelem : ℤ) (s : Sender) (xs : List Tunnel) (p : UserPool)
    : Type 0 where
  pub sender : Sender
  pub replies : List Reply
  pub pool : UserPool
  pub sends : process_info size nelem s xs ≡ some (sender, replies)
  pub next : Holds size (restart sender) []
  pub receives : get_tc_user_data size replies p ≡ some (pool, pos 0)
  pub arrived : Received pool xs

module _ (size : ℕ) (h : 0 < size) (fits : batch * size + header_size ≤ max_msg_size) where
  pub process_info-count :
      (xs : List Tunnel) (s : Sender) (p : UserPool)
      → Holds size (restart s) []
      → length xs ≤ max_user_pool_num
      → p.recved ≡ 0
      → Delivered size (pos (length xs)) s xs p
  unfolding process_info send_left get_tc_user_data process_nl_message bptrav_user_info
  process_info-count [] s p w room e = record {
    sender = s;
    replies = result ∷ [];
    pool = p;
    sends = refl;
    next = w;
    receives = refl;
    arrived = record { recved = e; users = refl };
  }
  process_info-count (x ∷ xs) s p w room e =
      let r = bptrav_user_info-Sends size h fits (x ∷ xs) [] (restart s) w in
      let count : length r.done + length r.left ≡ length (x ∷ xs) =
        sym (length-append r.done r.left) ∙ ap length r.parts in
      let l =
        send_left-Leaves size h fits (length (x ∷ xs) % batch) r.sender r.left r.replies r.holds
          (omega (arith, count, r.full, r.holds.below)) in
      let (p1, e1, a1) =
        r.arrive p [] l.replies (record { recved = e; users = refl })
          (omega (arith, count, room)) in
      let (p2, e2, a2) = l.arrive p1 r.done a1 (omega (arith, count, room)) in
      record {
        sender = l.sender;
        replies = r.replies ++ l.replies;
        pool = p2;
        sends = rw (process_info, bptrav_user_info-restart size h fits s x xs w, r.runs, l.runs);
        next = l.next;
        receives = e1 ∙ e2;
        arrived = subst (λ z. Received p2 z) r.parts a2;
      }
