-- ===== src/Chat.antt =====
-- src/chat.cpp and src/game.cpp: the private channels. `privateChannels` is the list of its entries, with
-- the id of each. A user has the number of the creature, which the channel's users are found by, and
-- the guid of the character, which invitations and owners are. Private channels have no scripts.
pub mod Members
pub mod Owners
mod Examples
use otxlinux.Prelude.{
  ℕ, zero, suc, ◌+◌, Bool, true, false, not, ◌&&◌, ◌||◌, List, [], ◌∷◌, Option, none, some, ◌==◌,
  if◌then◌else◌,
}

pub record User : Type 0 where
  pub user_id : ℕ
  pub guid : ℕ

pub record Channel : Type 0 where
  pub channel_id : ℕ
  pub owner : ℕ
  pub invites : List ℕ
  pub users : List User

abbrev pub Channels : Type 0
Channels = List Channel

unfoldable pub has_guid : ℕ → List ℕ → Bool
has_guid g [] = false
has_guid g (h ∷ gs) = (h == g) || has_guid g gs

unfoldable pub erase_guid : ℕ → List ℕ → List ℕ
erase_guid g [] = []
erase_guid g (h ∷ gs) = let rest = erase_guid g gs in if h == g then rest else h ∷ rest

unfoldable pub has_user : ℕ → List User → Bool
has_user n [] = false
has_user n (u ∷ us) = (u.user_id == n) || has_user n us

unfoldable pub erase_user : ℕ → List User → List User
erase_user n [] = []
erase_user n (u ∷ us) = let rest = erase_user n us in if u.user_id == n then rest else u ∷ rest

unfoldable pub is_invited : ℕ → Channel → Bool
is_invited g c = (g == c.owner) || has_guid g c.invites

unfoldable pub withdraw_invite : ℕ → Channel → Channel
withdraw_invite g c = record c { invites = erase_guid g c.invites }

unfoldable pub invite_user : User → Channel → Channel
invite_user u c = if has_guid u.guid c.invites then c else record c { invites = u.guid ∷ c.invites }

unfoldable pub remove_user : User → Channel → Channel
remove_user u c = record c { users = erase_user u.user_id c.users }

unfoldable pub exclude_user : User → Channel → Channel
exclude_user u c = if has_guid u.guid c.invites then remove_user u (withdraw_invite u.guid c) else c

unfoldable pub add_user : User → Channel → Channel
add_user u c = if has_user u.user_id c.users then c else record c { users = u ∷ c.users }

-- `getPrivateChannel`: whether the player owns a channel.
unfoldable pub owns_channel : ℕ → Channels → Bool
owns_channel g [] = false
owns_channel g (c ∷ cs) = (c.owner == g) || owns_channel g cs

unfoldable pub is_used : ℕ → Channels → Bool
is_used n [] = false
is_used n (c ∷ cs) = (c.channel_id == n) || is_used n cs

-- The loop over the slots from `n` on.
unfoldable pub free_slot : ℕ → ℕ → Channels → Option ℕ
free_slot zero n cs = none
free_slot (suc left) n cs =
    let rest = free_slot left (n + 1) cs in if is_used n cs then rest else some n

unfoldable pub open_at : Option ℕ → User → Channels → Channels
open_at none u cs = cs
open_at (some n) u cs = record { channel_id = n; owner = u.guid; invites = []; users = u ∷ [] } ∷ cs

-- `playerCreatePrivateChannel`: the ids go from 100 to 9999, and the owner is added as a user.
unfoldable pub create_private_channel : Bool → User → Channels → Channels
create_private_channel is_premium u cs =
    if not is_premium || owns_channel u.guid cs then cs else open_at (free_slot 9900 100 cs) u cs

-- `addUserToChannel`, for an id of a private channel.
unfoldable pub join : ℕ → User → Channels → Channels
join n u [] = []
join n u (c ∷ cs) =
    let rest = join n u cs in
    if c.channel_id == n then (if is_invited u.guid c then add_user u c else c) ∷ cs else c ∷ rest

-- `removeUserFromChannel`: the owner who leaves closes the channel.
unfoldable pub leave : ℕ → User → Channels → Channels
leave n u [] = []
leave n u (c ∷ cs) =
    let rest = leave n u cs in
    if c.channel_id == n
    then if is_invited u.guid c && has_user u.user_id c.users
      then if c.owner == u.guid then cs else remove_user u c ∷ cs
      else c ∷ cs
    else c ∷ rest

-- `removeUserFromAllChannels`.
unfoldable pub leave_all : User → Channels → Channels
leave_all u [] = []
leave_all u (c ∷ cs) =
    let rest = leave_all u cs in
    if c.owner == u.guid then rest else remove_user u (withdraw_invite u.guid c) ∷ rest

-- `playerChannelInvite` and `playerChannelExclude`, on the first channel that the player owns.
unfoldable pub on_own : (Channel → Channel) → ℕ → Channels → Channels
on_own f g [] = []
on_own f g (c ∷ cs) = let rest = on_own f g cs in if c.owner == g then f c ∷ cs else c ∷ rest

unfoldable pub player_channel_invite : User → User → Channels → Channels
player_channel_invite u v cs =
    if u.user_id == v.user_id then cs else on_own (invite_user v) u.guid cs

unfoldable pub player_channel_exclude : User → User → Channels → Channels
player_channel_exclude u v cs =
    if u.user_id == v.user_id then cs else on_own (exclude_user v) u.guid cs
