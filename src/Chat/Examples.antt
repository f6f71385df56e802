-- ===== src/Chat/Examples.antt =====
-- src/chat.cpp: a private channel with a guest.
use otxlinux.Prelude.{ℕ, ◌+◌, ◌≡◌, refl, true, List, [], ◌∷◌, arith}
use otxlinux.Chat.{User, Channel, Channels}
use otxlinux.Chat.Members.{IsPlayer, IsSound}
use otxlinux.Chat.Owners.{
  Call, opens, joins, invites_user, chat, chat_all, Concerns, AllConcern, chat_all-IsSound,
}

abbrev character : ℕ → ℕ
character n = n + 1000

one_character : (n m : ℕ) → character n ≡ character m → n ≡ m
one_character n m h = omega arith

abbrev player : ℕ → User
player n = record { user_id = n; guid = character n }

abbrev calls : List Call
calls =
    opens true (player 1)
    ∷ invites_user (player 1) (player 2)
    ∷ joins 100 (player 2)
    ∷ joins 100 (player 3)
    ∷ []

calls-AllConcern : AllConcern character one_character calls
unfolding AllConcern Concerns IsPlayer
calls-AllConcern = (refl, (refl, (refl, (refl, tt))))

chat_all-IsSound_example : IsSound character one_character (chat_all calls [])
chat_all-IsSound_example = chat_all-IsSound character one_character calls calls-AllConcern

two_users :
    chat_all calls []
    ≡ record {
      channel_id = 100;
      owner = 1001;
      invites = 1002 ∷ [];
      users = player 2 ∷ player 1 ∷ [];
    }
      ∷ []
unfolding chat_all chat otxlinux.Chat.join otxlinux.Chat.player_channel_invite otxlinux.Chat.on_own
    otxlinux.Chat.create_private_channel otxlinux.Chat.owns_channel otxlinux.Chat.open_at
    otxlinux.Chat.free_slot otxlinux.Chat.is_used otxlinux.Chat.invite_user otxlinux.Chat.has_guid
    otxlinux.Chat.is_invited otxlinux.Chat.add_user otxlinux.Chat.has_user
two_users = refl
