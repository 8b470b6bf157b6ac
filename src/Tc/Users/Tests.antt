-- ===== src/Tc/Users/Tests.antt =====
-- Users of TC/kernel_module/src/tcuserinfo.c on their way to the daemon.
use mathlib.Core.Option
use laft.Common.{
  List, [], arith, if◌then◌else◌, none, pos, refl, replicate, some, true, zero, ℕ, ◌==◌, ◌∷◌, ◌≡◌,
}
use laft.Tc.Users.{
  Reply, Sender, UserPool, add_user, bptrav_user_info, first_sender, info, process_info,
  process_total, result, send_left, send_tc_info_nlmsg, send_user_info, total, user_records,
}
use laft.Tc.Users.Query.{process_info-Delivered}
use laft.Tc.Tunnels.{Storage, Tunnel, key4, key6}
use laft.Tc.Bplus.{Key, Tree}
use laft.Tc.Users.Deliver.{Delivered}

abbrev home : Tunnel
home = record {
  first_port = 2048;
  last_port = 3071;
  ext_ip = 3232235777;
  client = 32 ∷ 1 ∷ [];
  live_time = 300;
}

abbrev one_user : Key → Tree ℕ
one_user k = record {
  root = some (zero, record { key = k; links = (k, 7) ∷ [] });
  header = (k, 7) ∷ [];
  size = 1;
}

-- The tunnel above at the pointer 7.
abbrev at_home : Storage
at_home = record {
  tree4 = one_user (key4 3232235777 2048);
  tree6 = one_user (key6 (32 ∷ 1 ∷ []));
  tunnels = λ p. if 7 == p then some home else none;
}

abbrev empty_pool : UserPool
empty_pool = record { users = []; recved = 0 }

-- The sender after a message that was not full.
abbrev used_sender : Sender
used_sender = record first_sender { flag = true; i = 3; offset = 84 }

process_info-Delivered_example :
    Delivered 28 (process_total at_home).0 used_sender (home ∷ []) empty_pool
unfolding user_records
process_info-Delivered_example =
    process_info-Delivered 28 at_home (home ∷ []) used_sender empty_pool (omega arith) (omega arith)
      (record { keeps = omega arith; chained = refl; counted = refl; bounded = omega arith }) refl
      refl
      (record {
        running = refl;
        counted = refl;
        below = omega arith;
        so_far = refl;
        kept = refl;
        whole = refl;
      })
      (omega arith) refl

-- The msglen of each message.
abbrev lengths : List Reply → List ℕ
lengths [] = []
lengths (total n ∷ ms) = lengths ms
lengths (info msglen user ∷ ms) = msglen ∷ lengths ms
lengths (result ∷ ms) = 0 ∷ lengths ms

-- Fifty-one users of 28 bytes, as on a machine of 32 bits, are two messages and the result.
two_messages :
    Option.map (λ r. lengths r.1) (process_info 28 (pos 51) first_sender (replicate 51 home))
    ≡ some (1400 ∷ 28 ∷ 0 ∷ [])
unfolding process_info bptrav_user_info send_user_info add_user send_tc_info_nlmsg send_left
two_messages = refl

-- Of 32 bytes, as on a machine of 64 bits, fifty do not fit.
too_long : process_info 32 (pos 50) first_sender (replicate 50 home) ≡ none
unfolding process_info bptrav_user_info send_user_info add_user send_tc_info_nlmsg send_left
too_long = refl
