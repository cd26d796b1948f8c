-- ===== src/PrivateSocket/Tests.antt =====
-- Runs of the friend handlers of FPrivateSocketData.
use squirrel_communicator.Prelude.{
  ℕ, String, ◌≡◌, ◌≢◌, refl, ℕ_discrete, true, false, Option, some, [], ◌∷◌, keep, map, nat_key,
  arith,
}
use squirrel_communicator.UnorderedMap.{find, has_key, insert_or_assign}
use squirrel_communicator.FriendList.{FriendListManager, init, is_cached_friend}
use squirrel_communicator.FriendList.Tables.{Tables, tables}
use squirrel_communicator.PrivateSocket.{Sent, on_accept_friend_request, on_remove_friend}
use squirrel_communicator.PrivateSocket.Notified.{events_match_friends}
use squirrel_communicator.Server
use squirrel_communicator.Conversations.{ConversationData, ConversationsManager}
use squirrel_communicator.Conversations.Shelf.{message, plain, shelf}
use squirrel_communicator.Conversations.Messages.{upload_message}
use squirrel_communicator.Conversations.Messages.Changed.{messages_of}
use squirrel_communicator.PrivateSocket.Messages
use squirrel_communicator.PrivateSocket.Messages.{
  on_message, on_message_edit, on_message_delete, nothing,
}
use squirrel_communicator.PrivateSocket.Messages.Outsiders.{outsider_posts, text_of}

abbrev stored : Tables
stored = record { friend_list = []; friend_requests = (2, 1) ∷ [] }

abbrev fresh : FriendListManager Tables
fresh = init 10 10 25 stored

abbrev anybody : ℕ → Option String
anybody u = some "someone"

abbrev on_accept : FriendListManager Tables × Sent
on_accept = on_accept_friend_request tables anybody (some 1) 2 fresh

abbrev on_remove : FriendListManager Tables × Sent
on_remove = on_remove_friend tables anybody (some 1) 2 on_accept.0

accept_notifies : on_accept.1.events ≢ []
unfolding on_accept_friend_request init ℕ_discrete insert_or_assign keep
accept_notifies e = cc

remove_notifies : on_remove.1.events ≢ []
unfolding on_accept_friend_request on_remove_friend init ℕ_discrete insert_or_assign keep
remove_notifies e = cc

events_match_friends_example :
    (is_cached_friend 1 2 on_accept.0 ≡ true)
    × (is_cached_friend 2 1 on_accept.0 ≡ true)
    × (is_cached_friend 1 2 on_remove.0 ≡ false)
    × (is_cached_friend 2 1 on_remove.0 ≡ false)
events_match_friends_example =
    events_match_friends tables anybody 1 2 fresh on_accept.0 accept_notifies remove_notifies

abbrev conversation : ConversationData
conversation = record {
  conversation_id = 5;
  users_ids = 1 ∷ 2 ∷ [];
  user_id_to_message_last_read = [];
  messages_deque = message 13 "three" ∷ [];
}

abbrev conversations : ConversationsManager Unit
conversations = record {
  conversation_id_to_conversation_data = (5, conversation) ∷ [];
  user_id_to_conversation = (1, 5 ∷ []) ∷ (2, 5 ∷ []) ∷ [];
  post_second_tick_counter = 0;
  cleanup_in_progress = false;
  database = tt;
}

cached : find 5 conversations.conversation_id_to_conversation_data ≡ some conversation
unfolding find ℕ_discrete
cached = refl

-- User 3 writes into the conversation of users 1 and 2.
abbrev posted : ConversationsManager Unit × Messages.Sent
posted = on_message shelf plain 100 (some 3) 5 "hello" Server.text 0 0 conversations

outsider_posts_example :
    (on_message_edit shelf plain (some 3) 5 13 "new" conversations ≡ (conversations, nothing))
    × (on_message_delete shelf plain (some 3) 5 13 conversations ≡ (conversations, nothing))
    × (map (λ b. b.users) posted.1.broadcasts ≡ (1 ∷ 2 ∷ []) ∷ [])
    × (map text_of (messages_of 5 posted.0) ≡ (3, "hello") ∷ (1, "three") ∷ [])
outsider_posts_example =
    outsider_posts shelf plain 100 3 5 0 0 13 "hello" "new" conversation conversations cached
      (unfold has_key ℕ_discrete in refl) (omega arith) (unfold upload_message in refl)
