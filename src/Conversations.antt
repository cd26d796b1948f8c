-- ===== src/Conversations.antt =====
-- FConversationsManager (ProjectServer/Source/Private/Managers/ConversationsManager.cpp and
-- ProjectServer/Source/Public/Managers/ConversationsManager.h): conversations cached over the
-- database. The SQL statements are the interface ConversationDatabase, the settings for encryption
-- the record Encryption. A shared pointer to a conversation is the conversation's id in the map,
-- from which nothing is erased.
pub mod Lookback
pub mod Messages
pub mod Create
pub mod Range
pub mod Retention
pub mod Calls
pub mod Kept
pub mod Members
pub mod Shelf
mod Tests
use squirrel_communicator.Prelude.{
  ℕ, String, Bool, true, false, Option, none, some, List, [], ◌∷◌, ◌++◌, if◌then◌else◌, nat_key,
}
use squirrel_communicator.UnorderedMap.{
  UnorderedMap, find, contains, insert_or_assign, modify, has_key,
}
use squirrel_communicator.Server.{MessageType}
use mathlib.Core.Option

-- EConversationMessageStatus
pub data ConversationMessageStatus : Type 0 where
  sent edited deleted : ConversationMessageStatus

-- EDatabaseOperationResult
pub data DatabaseOperationResult : Type 0 where
  unknown success operation_failed connection_failed database_failed : DatabaseOperationResult

-- FConversationMessageData
pub record ConversationMessageData : Type 0 where
  pub message_id : ℕ
  pub sender_id : ℕ
  pub message : String
  pub created_at : ℕ
  pub status : ConversationMessageStatus
  pub message_type : MessageType

-- FConversationData: the deque has the newest message first
pub record ConversationData : Type 0 where
  pub conversation_id : ℕ
  pub users_ids : List ℕ
  pub user_id_to_message_last_read : UnorderedMap ℕ ℕ
  pub messages_deque : List ConversationMessageData

-- FBackendSettings: IsEncryptionEnabled, EncryptMessage and DecryptMessage
pub record Encryption : Type 0 where
  pub is_encryption_enabled : Bool
  pub encrypt_message : String → String
  pub decrypt_message : String → String

-- A row of the table messages, with its text as it is stored
pub record MessageRow : Type 0 where
  pub columns : ConversationMessageData
  pub is_encrypted : Bool

pub record ConversationDatabase (D : Type 0) : Type 0 where
  -- FDataBaseConnect, and IsConnected
  pub connect : D → D × Bool
  -- conversation, offset and limit: the rows by falling id, as far as they are fetched
  pub select_messages : ℕ → ℕ → ℕ → D → List MessageRow
  -- requester, conversation, message, and what to store: the affected rows, `none` if it throws
  pub update_message : ℕ → ℕ → ℕ → String → ConversationMessageStatus → Bool → D → D × Option ℕ
  -- the INSERT and LAST_INSERT_ID(), `none` if one throws
  pub insert_message : ℕ → MessageRow → D → D × Option ℕ
  -- last_message_at = NOW()
  pub touch_conversation : ℕ → D → D × Bool
  -- the conversation of exactly two users, 0 if there is none or the query throws
  pub find_conversation_2 : ℕ → ℕ → D → ℕ
  pub insert_conversation : D → D × Bool
  -- get_last_insert_id, 0 if it throws
  pub last_insert_id : D → ℕ
  pub insert_participant : ℕ → ℕ → D → D × Bool
  -- a user's conversations by falling time, from an offset on, up to a limit
  pub select_conversations : ℕ → ℕ → ℕ → D → List ℕ
  -- the users of a conversation, each with the last message read
  pub select_participants : ℕ → D → List (ℕ × ℕ)

-- FConversationsManager. The counter is an int32, which stays below the interval.
pub record ConversationsManager (D : Type 0) : Type 0 where
  pub conversation_id_to_conversation_data : UnorderedMap ℕ ConversationData
  pub user_id_to_conversation : UnorderedMap ℕ (List ℕ)
  pub post_second_tick_counter : ℕ
  pub cleanup_in_progress : Bool
  pub database : D

unfoldable pub init : {D : Type 0} → D → ConversationsManager D
init d = record {
  conversation_id_to_conversation_data = [];
  user_id_to_conversation = [];
  post_second_tick_counter = 0;
  cleanup_in_progress = false;
  database = d;
}

-- UserIdToMessageLastRead[InUserIds[i]] = LastReadMessageIds[i] for each i
unfoldable pub mark_read : List (ℕ × ℕ) → UnorderedMap ℕ ℕ → UnorderedMap ℕ ℕ
mark_read [] m = m
mark_read ((user, message) ∷ read) m = mark_read read (insert_or_assign user message m)

-- AddConversationsForUserToCache
unfoldable pub add_conversations_for_user_to_cache :
    ℕ → List ℕ → UnorderedMap ℕ (List ℕ) → UnorderedMap ℕ (List ℕ)
unfolding has_key
add_conversations_for_user_to_cache id [] m = m
add_conversations_for_user_to_cache id (user ∷ users) m =
    let listed = Option.get_or (find user m) [] in
    add_conversations_for_user_to_cache id users
      (insert_or_assign user (if has_key id listed then listed else listed ++ id ∷ []) m)

module _ {D : Type 0} where
  -- GetConversation
  unfoldable pub get_conversation : ℕ → ConversationsManager D → Option ConversationData
  get_conversation id m = find id m.conversation_id_to_conversation_data

  -- HasConversation
  unfoldable pub has_conversation : ℕ → ConversationsManager D → Bool
  unfolding contains
  has_conversation id m = contains id m.conversation_id_to_conversation_data

  -- IsUserInConversation
  unfoldable pub is_user_in_conversation : ℕ → ℕ → ConversationsManager D → Bool
  unfolding get_conversation has_key
  is_user_in_conversation user id m = elim (get_conversation id m) [
    | none ↦ false
    | some c ↦ has_key user c.users_ids
  ]

  -- A write through the pointer to a conversation
  unfoldable pub change_conversation :
      ℕ → (ConversationData → ConversationData) → ConversationsManager D → ConversationsManager D
  change_conversation id change m = record m {
    conversation_id_to_conversation_data = modify id change m.conversation_id_to_conversation_data;
  }

  -- AddConversationToCache: each user with the last message read
  unfoldable pub add_conversation_to_cache :
      ℕ → List ℕ → List (ℕ × ℕ) → ConversationsManager D → ConversationsManager D
  unfolding has_conversation mark_read add_conversations_for_user_to_cache
  add_conversation_to_cache id users read m = if has_conversation id m then m else record m {
    conversation_id_to_conversation_data =
        insert_or_assign id
          (record {
            conversation_id = id;
            users_ids = users;
            user_id_to_message_last_read = mark_read read [];
            messages_deque = [];
          })
          m.conversation_id_to_conversation_data;
    user_id_to_conversation =
        add_conversations_for_user_to_cache id users m.user_id_to_conversation;
  }
