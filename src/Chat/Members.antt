-- ===== src/Chat/Members.antt =====
-- src/chat.cpp: who is in a private channel.
use otxlinux.Prelude.{
  ℕ, ◌≡◌, sym, ◌∙◌, inl, inr, Bool-cases, true, false, not, ◌&&◌, List, [], ◌∷◌, ◌==◌, arith,
}
use otxlinux.Chat.{
  User, Channel, Channels, has_guid, erase_guid, has_user, erase_user, is_invited, withdraw_invite,
  invite_user, remove_user, exclude_user, add_user, owns_channel,
}

-- Each creature that is a player has a character, and no two of them the same one.
module _ (guid_of : ℕ → ℕ) (one_each : (n m : ℕ) → guid_of n ≡ guid_of m → n ≡ m) where
  unfoldable pub IsPlayer : User → Type 0
  IsPlayer u = u.guid ≡ guid_of u.user_id

  -- Every user owns the channel or is invited.
  unfoldable pub AreInvited : Channel → List User → Type 0
  AreInvited c [] = Unit
  AreInvited c (u ∷ us) = IsPlayer u × (is_invited u.guid c ≡ true) × AreInvited c us

  -- Each channel has invited users only, and no other one has its owner.
  unfoldable pub IsSound : Channels → Type 0
  IsSound [] = Unit
  IsSound (c ∷ cs) = AreInvited c c.users × (owns_channel c.owner cs ≡ false) × IsSound cs

  weaken :
      (c d : Channel) (us : List User)
      → ((g : ℕ) → is_invited g c ≡ true → is_invited g d ≡ true)
      → AreInvited c us
      → AreInvited d us
  unfolding AreInvited
  weaken c d [] f h = tt
  weaken c d (u ∷ us) f h = (h.0, f u.guid h.1, weaken c d us f h.2)

  erase_user-AreInvited :
      (n : ℕ) (c : Channel) (us : List User) → AreInvited c us → AreInvited c (erase_user n us)
  unfolding AreInvited erase_user
  erase_user-AreInvited n c [] h = tt
  erase_user-AreInvited n c (u ∷ us) h = elim (Bool-cases (u.user_id == n)) [
    | inl here ↦ rw here (erase_user-AreInvited n c us h.2)
    | inr there ↦ rw there ((h.0, h.1, erase_user-AreInvited n c us h.2))
  ]

  has_guid-erase_guid :
      (g h : ℕ) (gs : List ℕ) → has_guid h (erase_guid g gs) ≡ (not (h == g) && has_guid h gs)
  unfolding has_guid erase_guid
  has_guid-erase_guid g h [] = ground arith
  has_guid-erase_guid g h (k ∷ gs) = ground (arith, has_guid-erase_guid g h gs)

  apart_guids :
      (v u : User)
      → IsPlayer v
      → IsPlayer u
      → (v.user_id == u.user_id) ≡ false
      → (v.guid == u.guid) ≡ false
  unfolding IsPlayer
  apart_guids v u h k e = elim (Bool-cases (v.guid == u.guid)) [
    | inr apart ↦ apart
    | inl same ↦
        let guids : v.guid ≡ u.guid = ground arith in
        let clash : v.user_id ≡ u.user_id = one_each v.user_id u.user_id (sym h ∙ guids ∙ k) in
        ground arith
  ]

  -- Without the invitation of a user, the others are still invited.
  dropped :
      (u : User) (c : Channel) (us : List User)
      → IsPlayer u
      → AreInvited c us
      → AreInvited (withdraw_invite u.guid c) (erase_user u.user_id us)
  unfolding AreInvited erase_user withdraw_invite is_invited
  dropped u c [] e h = tt
  dropped u c (v ∷ us) e h = elim (Bool-cases (v.user_id == u.user_id)) [
    | inl here ↦ rw here (dropped u c us e h.2)
    | inr there ↦
        let apart : (v.guid == u.guid) ≡ false = apart_guids v u h.0 e there in
        rw there (
          (
            h.0,
            ground (arith, has_guid-erase_guid u.guid v.guid c.invites, h.1, apart),
            dropped u c us e h.2,
          ))
  ]

  pub remove_user-AreInvited :
      (u : User) (c : Channel)
      → AreInvited c c.users
      → AreInvited (remove_user u c) (remove_user u c).users
  unfolding remove_user is_invited
  remove_user-AreInvited u c h =
      weaken c (record c { users = erase_user u.user_id c.users }) (erase_user u.user_id c.users)
        (λ g k. k) (erase_user-AreInvited u.user_id c c.users h)

  pub add_user-AreInvited :
      (u : User) (c : Channel)
      → IsPlayer u
      → is_invited u.guid c ≡ true
      → AreInvited c c.users
      → AreInvited (add_user u c) (add_user u c).users
  unfolding add_user is_invited AreInvited
  add_user-AreInvited u c e k h = elim (Bool-cases (has_user u.user_id c.users)) [
    | inl here ↦ rw here h
    | inr new ↦ rw new ((e, k, weaken c (record c { users = u ∷ c.users }) c.users (λ g l. l) h))
  ]

  pub invite_user-AreInvited :
      (v : User) (c : Channel)
      → AreInvited c c.users
      → AreInvited (invite_user v c) (invite_user v c).users
  unfolding invite_user is_invited has_guid
  invite_user-AreInvited v c h = elim (Bool-cases (has_guid v.guid c.invites)) [
    | inl here ↦ rw here h
    | inr new ↦
        rw new
          (weaken c (record c { invites = v.guid ∷ c.invites }) c.users (λ g k. ground arith) h)
  ]

  -- The user goes with the invitation.
  pub withdrawn-AreInvited :
      (v : User) (c : Channel)
      → IsPlayer v
      → AreInvited c c.users
      → AreInvited
          (remove_user v (withdraw_invite v.guid c))
          (remove_user v (withdraw_invite v.guid c)).users
  unfolding remove_user withdraw_invite is_invited
  withdrawn-AreInvited v c e h =
      weaken (withdraw_invite v.guid c) (remove_user v (withdraw_invite v.guid c))
        (erase_user v.user_id c.users) (λ g k. k) (dropped v c c.users e h)

  pub exclude_user-AreInvited :
      (v : User) (c : Channel)
      → IsPlayer v
      → AreInvited c c.users
      → AreInvited (exclude_user v c) (exclude_user v c).users
  unfolding exclude_user
  exclude_user-AreInvited v c e h = elim (Bool-cases (has_guid v.guid c.invites)) [
    | inl here ↦ rw here (withdrawn-AreInvited v c e h)
    | inr new ↦ rw new h
  ]
