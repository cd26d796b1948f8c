-- ===== src/ServersSocket/Messages.antt =====
-- The handlers of FServersSocketData for the messages of channels
-- (ProjectServer/Source/Private/Sockets/ServersSocketData.cpp).
use Prim.Native.String.{len}
use squirrel_communicator.Prelude.{
  ℕ, String, Bool, true, false, not, ◌&&◌, List, [], ◌∷◌, map, ltb, leb, ◌==◌, if◌then◌else◌,
  length,
}
use squirrel_communicator.Server.{ServerMessage, MessageType, text}
use squirrel_communicator.Server.Messages.{deleted_message_placeholder}
use squirrel_communicator.Conversations.{Encryption}
use squirrel_communicator.ServersManager.{Database, ServersManager}
use squirrel_communicator.ServersManager.Messages.{
  MessageStatements, DeleteServerMessageResult, success, server_not_found, message_not_found,
  not_authorized, failed,
}
use squirrel_communicator.ServersManager.Messages as Own
use squirrel_communicator.PrivateSocket.Media.{is_valid_sha256_hex}
use squirrel_communicator.PrivateSocket.Messages.{is_media}
use squirrel_communicator.SocketData.Content.{message_type_to_string}
use squirrel_communicator.SocketData.ServersType as MessageKind
use squirrel_communicator.SocketData.ServersType.{socket_message_servers_type_to_string}
use squirrel_communicator.ServersSocket.{
  Users, Sent, JsonValue, text_value, number_value, messages_reply, message_of, early_exit,
  as_member, broadcast_only, get_user_name,
}

-- HandleGetServerMessages, one message; ids are sent as texts, by std::to_string
unfoldable pub format_message : (ℕ → String) → ServerMessage → List (String × JsonValue)
unfolding message_type_to_string
format_message to_string m =
    ("message_id", text_value (to_string m.message_id))
    ∷ ("channel_id", text_value (to_string m.channel_id))
    ∷ ("sender_id", text_value (to_string m.sender_id))
    ∷ ("sender_name", text_value m.sender_name)
    ∷ ("content", text_value m.content)
    ∷ ("message_type", text_value (message_type_to_string m.message_type))
    ∷ ("timestamp", number_value m.created_at)
    ∷ []

-- HandleServerMessageDelete, the answers but Success
unfoldable pub refusal : DeleteServerMessageResult → String
refusal message_not_found = "message not found"
refusal not_authorized = "permission denied: you can only delete your own messages"
refusal server_not_found = "server not found"
refusal _ = "failed to delete message"

-- whether an answer is Success
unfoldable pub is_success : DeleteServerMessageResult → Bool
is_success success = true
is_success _ = false

module _ {D : Type 0} (db : Database D) (sql : MessageStatements D) (settings : Encryption)
    (users : Users) where
  -- ServerMessage, for the setting MaxMessageSize and the two clock readings
  unfoldable pub server_message :
      ℕ → ℕ → ℕ → ℕ → String → MessageType → ℕ → ℕ → ServersManager D → ServersManager D × Sent
  unfolding as_member Own.add_message message_of broadcast_only early_exit get_user_name
      is_valid_sha256_hex message_type_to_string
  server_message max_message_size user server_id channel_id content type stored_at now m =
      as_member db users server_id user
        (λ m₁.
          let name = get_user_name users user in
          let (m₂, message_id) =
            Own.add_message db sql settings stored_at server_id channel_id user name content type
              m₁ in
          let message = message_of MessageKind.server_message (
            ("server_id", number_value server_id)
            ∷ ("channel_id", number_value channel_id)
            ∷ ("message_id", number_value message_id)
            ∷ ("sender_id", number_value user)
            ∷ ("sender_name", text_value name)
            ∷ ("content", text_value content)
            ∷ ("message_type", text_value (message_type_to_string type))
            ∷ ("timestamp", number_value now)
            ∷ []) in
          let sent = broadcast_only db users server_id message m₂ in
          if ltb max_message_size (len content)
          then (m₁, early_exit "message too large")
          else if is_media type && not (is_valid_sha256_hex content)
          then (m₁, early_exit "invalid media hash")
          else if message_id == 0
          then (m₂, early_exit "failed to save message")
          else sent)
        m

  -- HandleServerMessageDelete
  unfoldable pub handle_server_message_delete :
      ℕ → ℕ → ℕ → ℕ → ServersManager D → ServersManager D × Sent
  unfolding as_member Own.delete_message message_of broadcast_only early_exit refusal is_success
      message_type_to_string
  handle_server_message_delete user server_id channel_id message_id m =
      as_member db users server_id user
        (λ m₁.
          let (m₂, result) =
            Own.delete_message db sql settings server_id channel_id message_id user m₁ in
          let message = message_of MessageKind.server_message_deleted (
            ("server_id", number_value server_id)
            ∷ ("channel_id", number_value channel_id)
            ∷ ("message_id", number_value message_id)
            ∷ ("content", text_value deleted_message_placeholder)
            ∷ ("message_type", text_value (message_type_to_string text))
            ∷ []) in
          let sent = broadcast_only db users server_id message m₂ in
          if is_success result then sent else (m₂, early_exit (refusal result)))
        m

  -- HandleGetServerMessages
  unfoldable pub handle_get_server_messages :
      (ℕ → String) → ℕ → ℕ → ℕ → ℕ → ℕ → ServersManager D → ServersManager D × Sent
  unfolding as_member Own.get_channel_messages format_message socket_message_servers_type_to_string
  handle_get_server_messages to_string user server_id channel_id before limit m =
      as_member db users server_id user
        (λ m₁.
          let (m₂, messages) =
            Own.get_channel_messages db sql settings server_id channel_id before limit m₁ in
          (
            m₂,
            record {
              replies =
                  messages_reply (socket_message_servers_type_to_string MessageKind.server_messages)
                    (map (format_message to_string) messages) (leb limit (length messages))
                  ∷ [];
              sends = [];
            },
          ))
        m
