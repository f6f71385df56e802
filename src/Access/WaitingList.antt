-- ===== src/Access/WaitingList.antt =====
-- src/waitlist.h and src/waitlist.cpp: the queue of the players who found the server full. The
-- readings of the clock and of the number of players during a call are taken as one; times are
-- milliseconds below 2 ^ 62, so no sum of them wraps.
pub mod Slots
pub mod Order
pub mod Turn
pub mod Admission
use otxlinux.Prelude.{
  ℕ, zero, suc, ◌+◌, ◌*◌, Bool, true, false, ◌&&◌, ◌||◌, List, [], ◌∷◌, ◌++◌, Option, none, some,
  ltb, leb, ◌==◌, if◌then◌else◌, length, is_empty,
}

pub record Wait : Type 0 where
  pub timeout : ℕ
  pub player_guid : ℕ

pub record Lists : Type 0 where
  pub priority_wait_list : List Wait
  pub wait_list : List Wait

-- What `clientLogin` asks of the player.
pub record Player : Type 0 where
  pub guid : ℕ
  pub can_always_login : Bool
  pub account_type : ℕ
  pub is_premium : Bool

-- ACCOUNT_TYPE_GAMEMASTER of src/enums.h.
abbrev pub account_type_gamemaster : ℕ
account_type_gamemaster = 4

abbrev later : Option ℕ → Option ℕ
later none = none
later (some i) = some (suc i)

-- The index of the first entry of a player.
unfoldable pub find_index : ℕ → List Wait → Option ℕ
find_index guid [] = none
find_index guid (w ∷ ws) = if w.player_guid == guid then some 0 else later (find_index guid ws)

-- Where `findClient` found the player, with the index in that list. `absent` is the end iterator of
-- `waitList`.
pub data Place : Type 0 where
  in_priority in_wait : ℕ → Place
  absent : Place

-- The place and the slot, which counts from 1 through both lists.
unfoldable pub find_client : ℕ → Lists → Place × ℕ
find_client guid l = elim (find_index guid l.priority_wait_list) [
  | some i ↦ (in_priority i, 1 + i)
  | none ↦ elim (find_index guid l.wait_list) [
    | some i ↦ (in_wait i, 1 + length l.priority_wait_list + i)
    | none ↦ (absent, 1 + length l.priority_wait_list + length l.wait_list)
  ]
]

unfoldable pub get_time : ℕ → ℕ
get_time slot =
    if ltb slot 5
    then 5
    else if ltb slot 10
    then 10
    else if ltb slot 20
    then 20
    else if ltb slot 50
    then 60
    else 120

unfoldable pub get_timeout : ℕ → ℕ
get_timeout slot = get_time slot + 15

unfoldable pub cleanup_list : ℕ → List Wait → List Wait
cleanup_list now [] = []
cleanup_list now (w ∷ ws) =
    let rest = cleanup_list now ws in if leb w.timeout now then rest else w ∷ rest

unfoldable pub erase_at : ℕ → List Wait → List Wait
erase_at i [] = []
erase_at zero (w ∷ ws) = ws
erase_at (suc i) (w ∷ ws) = w ∷ erase_at i ws

unfoldable pub set_timeout : ℕ → ℕ → List Wait → List Wait
set_timeout i t [] = []
set_timeout zero t (w ∷ ws) = record w { timeout = t } ∷ ws
set_timeout (suc i) t (w ∷ ws) = w ∷ set_timeout i t ws

-- The two answers of `clientLogin`, true and false.
pub data Verdict : Type 0 where
  admitted queued : Verdict

-- The time at which an entry at a slot is dropped if its player does not come back.
unfoldable pub deadline : ℕ → ℕ → ℕ
deadline now slot = now + get_timeout slot * 1000

-- A player who is in neither list.
unfoldable pub enlist : ℕ → Player → Lists → Lists
enlist now p l =
    let slot = length l.priority_wait_list in
    if p.is_premium
    then record l {
      priority_wait_list =
          l.priority_wait_list
          ++ record { timeout = deadline now (slot + 1); player_guid = p.guid } ∷ [];
    }
    else record l {
      wait_list =
          l.wait_list
          ++ record { timeout = deadline now (slot + length l.wait_list + 1); player_guid = p.guid }
            ∷ [];
    }

unfoldable pub cleanup : ℕ → Lists → Lists
cleanup now l = record {
  priority_wait_list = cleanup_list now l.priority_wait_list;
  wait_list = cleanup_list now l.wait_list;
}

-- What `clientLogin` does at the place and the slot that `findClient` gave. It calls `waitList.erase`
-- at an entry of the other list too, which C++ leaves undefined: it is taken to unlink the entry from
-- the list that the entry stands in.
unfoldable pub settle : ℕ → ℕ → ℕ → Player → Place → ℕ → Lists → Verdict × Lists
settle now online max_players p (in_priority i) slot l =
    if leb (online + slot) max_players
    then (admitted, record l { priority_wait_list = erase_at i l.priority_wait_list })
    else (
      queued,
      record l { priority_wait_list = set_timeout i (deadline now slot) l.priority_wait_list },
    )
settle now online max_players p (in_wait i) slot l =
    if leb (online + slot) max_players
    then (admitted, record l { wait_list = erase_at i l.wait_list })
    else (queued, record l { wait_list = set_timeout i (deadline now slot) l.wait_list })
settle now online max_players p absent slot l = (queued, enlist now p l)

-- `clientLogin` behind its two early returns.
unfoldable pub wait_in_line : ℕ → ℕ → ℕ → Player → Lists → Verdict × Lists
wait_in_line now online max_players p l =
    let clean = cleanup now l in
    let (place, slot) = find_client p.guid clean in settle now online max_players p place slot clean

-- The second early return: there is no limit, or nobody waits and there is room.
unfoldable pub is_free : ℕ → ℕ → Lists → Bool
is_free online max_players l =
    max_players == 0
    || (is_empty l.priority_wait_list && is_empty l.wait_list && ltb online max_players)

unfoldable pub client_login : ℕ → ℕ → ℕ → Player → Lists → Verdict × Lists
client_login now online max_players p l =
    if p.can_always_login || leb account_type_gamemaster p.account_type
    then (admitted, l)
    else if is_free online max_players l
    then (admitted, l)
    else wait_in_line now online max_players p l

-- 0 for a player who does not wait.
unfoldable pub get_client_slot : Player → Lists → ℕ
get_client_slot p l =
    let (place, slot) = find_client p.guid l in elim place [ absent ↦ 0 | _ ↦ slot ]
