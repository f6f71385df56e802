-- ===== src/Chat/Owners.antt =====
-- src/chat.cpp: the private channels and their owners.
use otxlinux.Prelude.{
  ℕ, ◌≡◌, refl, ap, ◌∙◌, inl, inr, Bool, Bool-cases, false, not, ◌&&◌, ◌||◌, List, [], ◌∷◌, Option,
  none, some, ◌==◌, arith,
}
use otxlinux.Chat.{
  User, Channel, Channels, is_invited, withdraw_invite, invite_user, remove_user, exclude_user,
  add_user, has_user, owns_channel, free_slot, open_at, create_private_channel, join, leave,
  leave_all, on_own, player_channel_invite, player_channel_exclude,
}
use otxlinux.Chat.Members.{
  IsPlayer, AreInvited, IsSound, remove_user-AreInvited, add_user-AreInvited,
  invite_user-AreInvited, exclude_user-AreInvited, withdrawn-AreInvited,
}

-- A call on the private channels.
pub data Call : Type 0 where
  opens : (is_premium : Bool) (u : User) → Call
  joins : (n : ℕ) (u : User) → Call
  leaves : (n : ℕ) (u : User) → Call
  logs_out : (u : User) → Call
  invites_user : (u v : User) → Call
  excludes : (u v : User) → Call

unfoldable pub chat : Call → Channels → Channels
chat (opens is_premium u) cs = create_private_channel is_premium u cs
chat (joins n u) cs = join n u cs
chat (leaves n u) cs = leave n u cs
chat (logs_out u) cs = leave_all u cs
chat (invites_user u v) cs = player_channel_invite u v cs
chat (excludes u v) cs = player_channel_exclude u v cs

unfoldable pub chat_all : List Call → Channels → Channels
chat_all [] cs = cs
chat_all (x ∷ xs) cs = chat_all xs (chat x cs)

owner-add_user : (u : User) (c : Channel) → (add_user u c).owner ≡ c.owner
unfolding add_user
owner-add_user u c = ground arith

owner-invite_user : (u : User) (c : Channel) → (invite_user u c).owner ≡ c.owner
unfolding invite_user
owner-invite_user u c = ground arith

owner-exclude_user : (u : User) (c : Channel) → (exclude_user u c).owner ≡ c.owner
unfolding exclude_user remove_user withdraw_invite
owner-exclude_user u c = ground arith

owns_channel-join :
    (g n : ℕ) (u : User) (cs : Channels) → owns_channel g (join n u cs) ≡ owns_channel g cs
unfolding owns_channel join
owns_channel-join g n u [] = refl
owns_channel-join g n u (c ∷ cs) = ground (arith, owns_channel-join g n u cs, owner-add_user u c)

owns_channel-on_own :
    (f : Channel → Channel) (h g : ℕ) (cs : Channels)
    → ((c : Channel) → (f c).owner ≡ c.owner)
    → owns_channel h (on_own f g cs) ≡ owns_channel h cs
unfolding owns_channel on_own
owns_channel-on_own f h g [] same = refl
owns_channel-on_own f h g (c ∷ cs) same = ground (arith, owns_channel-on_own f h g cs same, same c)

owns_channel-leave :
    (g n : ℕ) (u : User) (cs : Channels)
    → owns_channel g cs ≡ false
    → owns_channel g (leave n u cs) ≡ false
unfolding owns_channel leave remove_user
owns_channel-leave g n u [] h = refl
owns_channel-leave g n u (c ∷ cs) h = ground (arith, owns_channel-leave g n u cs)

owns_channel-leave_all :
    (g : ℕ) (u : User) (cs : Channels)
    → owns_channel g cs ≡ false
    → owns_channel g (leave_all u cs) ≡ false
unfolding owns_channel leave_all remove_user withdraw_invite
owns_channel-leave_all g u [] h = refl
owns_channel-leave_all g u (c ∷ cs) h = ground (arith, owns_channel-leave_all g u cs)

module _ (guid_of : ℕ → ℕ) (one_each : (n m : ℕ) → guid_of n ≡ guid_of m → n ≡ m) where
  -- The players of a call.
  unfoldable pub Concerns : Call → Type 0
  Concerns (opens is_premium u) = IsPlayer guid_of one_each u
  Concerns (joins n u) = IsPlayer guid_of one_each u
  Concerns (leaves n u) = IsPlayer guid_of one_each u
  Concerns (logs_out u) = IsPlayer guid_of one_each u
  Concerns (invites_user u v) = IsPlayer guid_of one_each v
  Concerns (excludes u v) = IsPlayer guid_of one_each v

  opened-IsSound :
      (o : Option ℕ) (u : User) (cs : Channels)
      → IsPlayer guid_of one_each u
      → owns_channel u.guid cs ≡ false
      → IsSound guid_of one_each cs
      → IsSound guid_of one_each (open_at o u cs)
  unfolding open_at IsSound AreInvited is_invited
  opened-IsSound none u cs e k h = h
  opened-IsSound (some n) u cs e k h = ((e, ground arith, tt), k, h)

  create-IsSound :
      (is_premium : Bool) (u : User) (cs : Channels)
      → IsPlayer guid_of one_each u
      → IsSound guid_of one_each cs
      → IsSound guid_of one_each (create_private_channel is_premium u cs)
  unfolding create_private_channel
  create-IsSound is_premium u cs e h =
      elim (Bool-cases (not is_premium || owns_channel u.guid cs)) [
        | inl refused ↦ rw refused h
        | inr allowed ↦ rw allowed (opened-IsSound (free_slot 9900 100 cs) u cs e (ground arith) h)
      ]

  join-IsSound :
      (n : ℕ) (u : User) (cs : Channels)
      → IsPlayer guid_of one_each u
      → IsSound guid_of one_each cs
      → IsSound guid_of one_each (join n u cs)
  unfolding join IsSound
  join-IsSound n u [] e h = tt
  join-IsSound n u (c ∷ cs) e h = elim (Bool-cases (c.channel_id == n)) [
    | inr there ↦
        rw there ((h.0, owns_channel-join c.owner n u cs ∙ h.1, join-IsSound n u cs e h.2))
    | inl here ↦ elim (Bool-cases (is_invited u.guid c)) [
      | inl invited ↦
          rw (here, invited)
            ((
              add_user-AreInvited guid_of one_each u c e invited h.0,
              ap (λ g. owns_channel g cs) (owner-add_user u c) ∙ h.1,
              h.2,
            ))
      | inr stranger ↦ rw (here, stranger) h
    ]
  ]

  leave-IsSound :
      (n : ℕ) (u : User) (cs : Channels)
      → IsSound guid_of one_each cs
      → IsSound guid_of one_each (leave n u cs)
  unfolding leave IsSound remove_user
  leave-IsSound n u [] h = tt
  leave-IsSound n u (c ∷ cs) h = elim (Bool-cases (c.channel_id == n)) [
    | inr there ↦ rw there ((h.0, owns_channel-leave c.owner n u cs h.1, leave-IsSound n u cs h.2))
    | inl here ↦ elim (Bool-cases (is_invited u.guid c && has_user u.user_id c.users)) [
      | inr outside ↦ rw (here, outside) h
      | inl inside ↦ elim (Bool-cases (c.owner == u.guid)) [
        | inl owner ↦ rw (here, inside, owner) h.2
        | inr guest ↦
            rw (here, inside, guest) ((remove_user-AreInvited guid_of one_each u c h.0, h.1, h.2))
      ]
    ]
  ]

  leave_all-IsSound :
      (u : User) (cs : Channels)
      → IsPlayer guid_of one_each u
      → IsSound guid_of one_each cs
      → IsSound guid_of one_each (leave_all u cs)
  unfolding leave_all IsSound remove_user withdraw_invite
  leave_all-IsSound u [] e h = tt
  leave_all-IsSound u (c ∷ cs) e h = elim (Bool-cases (c.owner == u.guid)) [
    | inl owner ↦ rw owner (leave_all-IsSound u cs e h.2)
    | inr guest ↦ rw guest (
        (
          withdrawn-AreInvited guid_of one_each u c e h.0,
          owns_channel-leave_all c.owner u cs h.1,
          leave_all-IsSound u cs e h.2,
        ))
  ]

  on_own-IsSound :
      (f : Channel → Channel) (g : ℕ) (cs : Channels)
      → ((c : Channel) → (f c).owner ≡ c.owner)
      → ((c : Channel)
          → AreInvited guid_of one_each c c.users
          → AreInvited guid_of one_each (f c) (f c).users)
      → IsSound guid_of one_each cs
      → IsSound guid_of one_each (on_own f g cs)
  unfolding on_own IsSound
  on_own-IsSound f g [] same keeps h = tt
  on_own-IsSound f g (c ∷ cs) same keeps h = elim (Bool-cases (c.owner == g)) [
    | inl here ↦ rw here ((keeps c h.0, ap (λ o. owns_channel o cs) (same c) ∙ h.1, h.2))
    | inr there ↦
        rw there (
          (
            h.0,
            owns_channel-on_own f c.owner g cs same ∙ h.1,
            on_own-IsSound f g cs same keeps h.2,
          ))
  ]

  chat-IsSound :
      (x : Call) (cs : Channels)
      → Concerns x
      → IsSound guid_of one_each cs
      → IsSound guid_of one_each (chat x cs)
  unfolding chat Concerns player_channel_invite player_channel_exclude
  chat-IsSound (opens is_premium u) cs e h = create-IsSound is_premium u cs e h
  chat-IsSound (joins n u) cs e h = join-IsSound n u cs e h
  chat-IsSound (leaves n u) cs e h = leave-IsSound n u cs h
  chat-IsSound (logs_out u) cs e h = leave_all-IsSound u cs e h
  chat-IsSound (invites_user u v) cs e h = elim (Bool-cases (u.user_id == v.user_id)) [
    | inl self ↦ rw self h
    | inr other ↦ rw other (
        on_own-IsSound (invite_user v) u.guid cs (owner-invite_user v)
          (invite_user-AreInvited guid_of one_each v) h)
  ]
  chat-IsSound (excludes u v) cs e h = elim (Bool-cases (u.user_id == v.user_id)) [
    | inl self ↦ rw self h
    | inr other ↦ rw other (
        on_own-IsSound (exclude_user v) u.guid cs (owner-exclude_user v)
          (λ c k. exclude_user-AreInvited guid_of one_each v c e k) h)
  ]

  unfoldable pub AllConcern : List Call → Type 0
  AllConcern [] = Unit
  AllConcern (x ∷ xs) = Concerns x × AllConcern xs

  chat_all_lem :
      (xs : List Call) (cs : Channels)
      → AllConcern xs
      → IsSound guid_of one_each cs
      → IsSound guid_of one_each (chat_all xs cs)
  unfolding chat_all AllConcern
  chat_all_lem [] cs k h = h
  chat_all_lem (x ∷ xs) cs k h = chat_all_lem xs (chat x cs) k.1 (chat-IsSound x cs k.0 h)

-- If each player has a character of his own: after any calls by players from the state without private
-- channels, every user of a private channel owns it or is invited, also after exclusions and logouts,
-- and no player owns two private channels.
pub chat_all-IsSound :
    (guid_of : ℕ → ℕ) (one_each : (n m : ℕ) → guid_of n ≡ guid_of m → n ≡ m) (xs : List Call)
    → AllConcern guid_of one_each xs
    → IsSound guid_of one_each (chat_all xs [])
unfolding IsSound
chat_all-IsSound guid_of one_each xs k = chat_all_lem guid_of one_each xs [] k tt
