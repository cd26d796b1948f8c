-- ===== src/PrivateSocket/Messages.antt =====
-- The handlers of FPrivateSocketData for the messages of conversations
-- (ProjectServer/Source/Private/Sockets/PrivateSocketData.cpp). What a handler sends is a list of
-- messages to the socket, and one of broadcasts, each with the users it is for. JSON objects are
-- records, a missing member is `none`.
pub mod Outsiders
use Prim.Native.String.{len}
use squirrel_communicator.Prelude.{
  ℕ, String, Bool, true, false, not, ◌&&◌, Option, none, some, List, [], ◌∷◌, ◌++◌, map, ltb,
  ltb_i32, if◌then◌else◌, ◌==◌, nat_key,
}
use squirrel_communicator.UnorderedMap.{has_key}
use squirrel_communicator.Server.{MessageType, text}
use squirrel_communicator.SocketData.PrivateType.{socket_message_private_type_to_string}
use squirrel_communicator.SocketData.PrivateType as Message
use squirrel_communicator.SocketData.Content.{message_type_to_string}
use squirrel_communicator.PrivateSocket.Media.{is_valid_sha256_hex}
use squirrel_communicator.Conversations.{
  ConversationMessageData, ConversationData, Encryption, ConversationDatabase, ConversationsManager,
  get_conversation, is_user_in_conversation,
}
use squirrel_communicator.Conversations.Lookback.{
  is_message_in_conversation, deleted_message_placeholder,
}
use squirrel_communicator.Conversations.Messages.{add_message, edit_message, delete_message}
use squirrel_communicator.Conversations.Range.{get_conversation_messages_for_range}
use mathlib.Core.List.{reverse}

-- A JSON value: a text or a number
pub data JsonValue : Type 0 where
  text_value : String → JsonValue
  number_value : ℕ → JsonValue

-- The member "message" of what the handlers send
pub record MessageJson : Type 0 where
  pub sender_id : Option ℕ
  pub message_id : ℕ
  pub conversation_id : ℕ
  pub conversation_message : String
  pub message_type : Option String
  pub status : Option JsonValue

pub data Reply : Type 0 where
  failure : String → Reply
  message_reply : String → MessageJson → Reply

pub record Broadcast : Type 0 where
  pub users : List ℕ
  pub type : String
  pub message : MessageJson

pub record Sent : Type 0 where
  pub replies : List Reply
  pub broadcasts : List Broadcast

abbrev pub nothing : Sent
nothing = record { replies = []; broadcasts = [] }

-- FSocket::EarlyExit
unfoldable pub early_exit : String → Sent
early_exit message = record { replies = failure message ∷ []; broadcasts = [] }

-- EMessageType other than Text
abbrev pub is_media : MessageType → Bool
is_media text = false
is_media _ = true

module _ {D : Type 0} (db : ConversationDatabase D) (settings : Encryption) where
  -- OnMessageReceived_Message, for the setting MaxMessageSize and the two clock readings
  unfoldable pub on_message :
      ℕ
      → Option ℕ
      → ℕ
      → String
      → MessageType
      → ℕ
      → ℕ
      → ConversationsManager D
      → ConversationsManager D × Sent
  unfolding add_message get_conversation is_valid_sha256_hex early_exit message_type_to_string
      socket_message_private_type_to_string
  on_message max_message_size session id content type uploaded_at cached_at m = elim session [
    | none ↦ (m, nothing)
    | some user ↦
        if ltb max_message_size (len content)
        then (m, early_exit "Message too large")
        else if is_media type && not (is_valid_sha256_hex content)
        then (m, early_exit "invalid media hash")
        else elim (get_conversation id m) [
          | none ↦ (m, nothing)
          | some c ↦
              let (m', out_id) =
                add_message db settings id user content type uploaded_at cached_at m in
              let message : MessageJson = record {
                sender_id = some user;
                message_id = out_id;
                conversation_id = id;
                conversation_message = content;
                message_type = some (message_type_to_string type);
                status = none;
              } in
              let name = socket_message_private_type_to_string Message.message in
              (
                m',
                record {
                  replies =
                      message_reply name (record message { status = some (text_value "sent") })
                      ∷ [];
                  broadcasts = record { users = c.users_ids; type = name; message = message } ∷ [];
                },
              )
        ]
  ]

  -- What the handlers of an edit and of a deletion broadcast, if the conversation is there
  unfoldable pub broadcast_change :
      ℕ → String → MessageJson → ConversationsManager D → ConversationsManager D × Sent
  unfolding get_conversation
  broadcast_change id name message m = elim (get_conversation id m) [
    | none ↦ (m, nothing)
    | some c ↦ (
      m,
      record {
        replies = [];
        broadcasts = record { users = c.users_ids; type = name; message = message } ∷ [];
      },
    )
  ]

  -- OnMessageReceived_MessageEdit
  unfoldable pub on_message_edit :
      Option ℕ → ℕ → ℕ → String → ConversationsManager D → ConversationsManager D × Sent
  unfolding is_user_in_conversation is_message_in_conversation edit_message broadcast_change
      socket_message_private_type_to_string
  on_message_edit session id message_id content m = elim session [
    | none ↦ (m, nothing)
    | some user ↦
        if is_user_in_conversation user id m && is_message_in_conversation message_id id m
        then broadcast_change id (socket_message_private_type_to_string Message.message_edit)
            (record {
              sender_id = none;
              message_id = message_id;
              conversation_id = id;
              conversation_message = content;
              message_type = none;
              status = none;
            })
            (edit_message db settings user id message_id content m)
        else (m, nothing)
  ]

  -- OnMessageReceived_MessageDelete
  unfoldable pub on_message_delete :
      Option ℕ → ℕ → ℕ → ConversationsManager D → ConversationsManager D × Sent
  unfolding is_user_in_conversation is_message_in_conversation delete_message broadcast_change
      socket_message_private_type_to_string
  on_message_delete session id message_id m = elim session [
    | none ↦ (m, nothing)
    | some user ↦
        let (m', done) = delete_message db settings user id message_id m in
        if is_user_in_conversation user id m && is_message_in_conversation message_id id m
        then if done
          then broadcast_change id (socket_message_private_type_to_string Message.message_delete)
              (record {
                sender_id = none;
                message_id = message_id;
                conversation_id = id;
                conversation_message = deleted_message_placeholder;
                message_type = none;
                status = some (number_value 2);
              })
              m'
          else (m', nothing)
        else (m, nothing)
  ]

-- The member "message" of the answer to a request for more messages: texts with their senders and
-- types, or an explanation
pub data MoreContent : Type 0 where
  texts : List (String × (ℕ × String)) → MoreContent
  explanation : String → MoreContent

pub record MoreMessages : Type 0 where
  pub type : String
  pub status : String
  pub message : MoreContent

unfoldable pub more_messages : String → MoreContent → MoreMessages
unfolding socket_message_private_type_to_string
more_messages status message = record {
  type = socket_message_private_type_to_string Message.load_more_messages;
  status = status;
  message = message;
}

unfoldable pub format_message : ConversationMessageData → String × (ℕ × String)
unfolding message_type_to_string
format_message m = (m.message, (m.sender_id, message_type_to_string m.message_type))

-- The messages in reverse, or that there are none
unfoldable pub format_messages : List ConversationMessageData → MoreMessages
unfolding format_message more_messages
format_messages [] = more_messages "no_more_messages" (explanation "No messages in range.")
format_messages (m ∷ ms) = more_messages "success" (texts (map format_message (reverse (m ∷ ms))))

module _ {D : Type 0} (db : ConversationDatabase D) (settings : Encryption) where
  -- OnMessageReceived_LoadMoreMessages, for an int32 offset and count, with a sum that is one
  unfoldable pub on_load_more_messages :
      ℕ → ℕ → ℕ → ℕ → ConversationsManager D → ConversationsManager D × MoreMessages
  unfolding get_conversation get_conversation_messages_for_range format_messages more_messages
      has_key
  on_load_more_messages id user offset count m =
      let unauthorized = more_messages "unauthorized" (explanation "Chat not suitable for user.") in
      if ltb 0 id && (ltb_i32 0 offset && ltb_i32 0 count)
      then elim (get_conversation id m) [
        | none ↦ (m, unauthorized)
        | some c ↦
            let (m', page) = get_conversation_messages_for_range db settings c offset count m in
            if has_key user c.users_ids then (m', format_messages page) else (m, unauthorized)
      ]
      else (
        m,
        more_messages "wrong_input"
            (explanation "One of input parameters: ConversationId, Offset, Count is wrong."),
      )
