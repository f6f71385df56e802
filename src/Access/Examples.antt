-- ===== src/Access/Examples.antt =====
-- The theorems on connections and on the waiting list at concrete inputs.
use mathlib.Core.List.{Nodup-nil, Nodup-cons, not-mem-nil, mem-cons}
use mathlib.Core.Logic.Or
use native.Mathlib.Decide.{dec_lt}
use otxlinux.Prelude.{◌≡◌, refl, ◌↔◌, true, false, some, [], ◌∷◌, arith}
use otxlinux.Prelude.Maps.{find}
use otxlinux.Access.Ban.{ConnectBlock, IpConnectMap, accept_connection}
use otxlinux.Access.Ban.Limits.{
  IsCounted, accept_connection-IsCounted, attempts, flood, find-accept_connection,
}
use otxlinux.Access.WaitingList.{Lists, Player, client_login, admitted}
use otxlinux.Access.WaitingList.Order.{
  IsInOrder, client_login-IsInOrder, IsDistinct, client_login-IsDistinct,
}
use otxlinux.Access.WaitingList.Admission.{MayEnter, in_turn, admitted_iff}

abbrev refused_block : ConnectBlock
refused_block = record { last_attempt = 1000; block_time = 4000; count = 0 }

abbrev known : IpConnectMap
known = record { key = 7; value = refused_block } ∷ []

known-IsCounted : IsCounted known
unfolding find
known-IsCounted ip b e = ground arith

accept_connection-IsCounted_example : IsCounted (accept_connection 7 5000 known).1
accept_connection-IsCounted_example = accept_connection-IsCounted 7 5000 known known-IsCounted

flood_example :
    let r = attempts 9 (10 ∷ 20 ∷ 30 ∷ 40 ∷ 50 ∷ 60 ∷ []) known in
    (r.0 ≡ true ∷ true ∷ true ∷ true ∷ true ∷ false ∷ [])
    × (find r.1 9 ≡ some (record { last_attempt = 60; block_time = 3060; count = 0 }))
unfolding find
flood_example =
    flood 9 10 20 30 40 50 60 known refl (omega arith) (omega arith) (omega arith) (omega arith)
      (omega arith) (omega arith)

find-accept_connection_example : find (accept_connection 9 2000 known).1 7 ≡ some refused_block
unfolding find
find-accept_connection_example = find-accept_connection 9 7 2000 known

abbrev waiting : Lists
waiting = record {
  priority_wait_list = record { timeout = 50000; player_guid = 11 } ∷ [];
  wait_list =
      record { timeout = 500; player_guid = 21 }
      ∷ record { timeout = 60000; player_guid = 22 }
      ∷ [];
}

abbrev regular : Player
regular = record { guid = 22; can_always_login = false; account_type = 1; is_premium = false }

abbrev premium : Player
premium = record { guid = 21; can_always_login = false; account_type = 1; is_premium = true }

client_login-IsInOrder_example :
    IsInOrder 1000 premium waiting (client_login 1000 100 100 premium waiting).1
client_login-IsInOrder_example = client_login-IsInOrder 1000 100 100 premium waiting

waiting-IsDistinct : IsDistinct waiting
waiting-IsDistinct = Nodup-cons.1 (
  (λ m.
      Or.elim (λ a b. absurd a) (mem-cons.0 m) (λ e. omega arith)
        (λ n. Or.elim (λ a b. absurd a) (mem-cons.0 n) (λ e. omega arith) not-mem-nil)),
  Nodup-cons.1 (
    (λ n. Or.elim (λ a b. absurd a) (mem-cons.0 n) (λ e. omega arith) not-mem-nil),
    Nodup-cons.1 (not-mem-nil, Nodup-nil),
  ),
)

client_login-IsDistinct_example : IsDistinct (client_login 1000 98 100 regular waiting).1
client_login-IsDistinct_example =
    client_login-IsDistinct 1000 98 100 regular waiting waiting-IsDistinct

admitted_iff_example :
    ((client_login 1000 98 100 regular waiting).0 ≡ admitted) ↔ MayEnter 1000 98 100 regular waiting
admitted_iff_example = admitted_iff 1000 98 100 regular waiting

-- The entry of player 21 has lapsed, so player 22 moves up to the second slot and gets in.
regular_is_admitted : (client_login 1000 98 100 regular waiting).0 ≡ admitted
unfolding dec_lt
regular_is_admitted = admitted_iff_example.1 (
    in_turn (record {
      front = 11 ∷ [];
      back = [];
      order = refl;
      first = λ m. Or.elim (λ a b. absurd a) (mem-cons.0 m) (λ e. omega arith) not-mem-nil;
      room = omega arith;
    }))
