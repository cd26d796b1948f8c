-- ===== src/ServersManager/Messages.antt =====
-- FServersManager's messages (ProjectServer/Source/Private/Managers/ServersManager.cpp): posting,
-- deleting and reading them. The statements on server_messages are the interface
-- MessageStatements.
pub mod Deleted
pub mod Reloaded
mod Tests
use squirrel_communicator.Prelude.{
  ℕ, String, Bool, true, false, not, ◌&&◌, Option, none, some, List, [], ◌∷◌, map, ltb, ◌==◌,
  if◌then◌else◌, nat_key, length,
}
use squirrel_communicator.UnorderedMap.{find}
use squirrel_communicator.Server.{Server, ServerMessage, MessageType}
use squirrel_communicator.Server.Messages.{deleted_message_placeholder, mark_message_deleted}
use squirrel_communicator.Server.Messages as Own
use squirrel_communicator.Conversations.{Encryption}
use squirrel_communicator.ServersManager.{
  Database, ServersManager, on_database, get_server_by_id, write_server,
}
use mathlib.Core.Option

-- A row of server_messages joined with users; the name may be NULL
pub record ServerMessageRow : Type 0 where
  pub columns : ServerMessage
  pub user_name : Option String
  pub is_encrypted : Bool

pub record MessageStatements (D : Type 0) : Type 0 where
  -- the INSERT of a stored message, and the id that it got; `none` if it throws
  pub insert_message : ServerMessage → Bool → D → D × Option ℕ
  -- the channel and the sender of a message, whose account may be gone
  pub select_owner : ℕ → D → Option (ℕ × Option ℕ)
  -- message, channel and content of the UPDATE: the affected rows, `none` if it throws
  pub update_deleted : ℕ → ℕ → String → D → D × Option ℕ
  -- channel, timestamp (0 for none) and limit: the rows by falling id, as far as they are fetched
  pub select_messages : ℕ → ℕ → ℕ → D → List ServerMessageRow

-- EDeleteServerMessageResult
pub data DeleteServerMessageResult : Type 0 where
  success server_not_found message_not_found not_authorized failed : DeleteServerMessageResult

-- The message of a row, decrypted if it is stored encrypted
unfoldable pub message_of_row : Encryption → ℕ → ServerMessageRow → ServerMessage
message_of_row settings channel_id row = record row.columns {
  channel_id = channel_id;
  sender_name = Option.get_or row.user_name "";
  content =
      if row.is_encrypted
      then settings.decrypt_message row.columns.content
      else row.columns.content;
}

-- Server->AddMessage for each fetched row
unfoldable pub add_each : List ServerMessage → Server → Server
unfolding Own.add_message
add_each [] s = s
add_each (m ∷ ms) s = add_each ms (Own.add_message m s)

module _ {D : Type 0} (db : Database D) (sql : MessageStatements D) (settings : Encryption) where
  -- UploadMessageToDB
  unfoldable pub upload_message_to_db :
      ServerMessage → ServersManager D → ServersManager D × Option ℕ
  upload_message_to_db message m =
      let (d, is_connected) = db.connect m.database in
      let stored =
        if settings.is_encryption_enabled
        then settings.encrypt_message message.content
        else message.content in
      let (d', id) =
        sql.insert_message (record message { content = stored }) settings.is_encryption_enabled d in
      if is_connected then (record m { database = d' }, id) else (record m { database = d }, none)

  -- MarkMessageDeletedInDB
  unfoldable pub mark_message_deleted_in_db : ℕ → ℕ → ServersManager D → ServersManager D × Bool
  unfolding on_database
  mark_message_deleted_in_db message_id channel_id m =
      on_database db
        (λ d.
          let (d', affected) =
            sql.update_deleted message_id channel_id deleted_message_placeholder d in
          (d', elim affected [ none ↦ false | some n ↦ ltb 0 n ]))
        m

  -- GetServerMessageOwnerFromDB: the channel and the sender, 0 for a sender who is gone
  unfoldable pub get_server_message_owner_from_db :
      ℕ → ServersManager D → ServersManager D × Option (ℕ × ℕ)
  get_server_message_owner_from_db message_id m =
      let (d, is_connected) = db.connect m.database in
      (
        record m { database = d },
        if is_connected
            then elim (sql.select_owner message_id d) [
              | none ↦ none
              | some (channel, sender) ↦ some (channel, Option.get_or sender 0)
            ]
            else none,
      )

  -- DownloadMessagesFromDB, into the cached server
  unfoldable pub download_messages_from_db :
      ℕ → ℕ → ℕ → ℕ → Server → ServersManager D → ServersManager D
  unfolding write_server add_each message_of_row
  download_messages_from_db server_id channel_id before_timestamp limit s m =
      let (d, is_connected) = db.connect m.database in
      let m' : ServersManager D = record m { database = d } in
      let rows = sql.select_messages channel_id before_timestamp limit d in
      if is_connected
      then write_server server_id (add_each (map (message_of_row settings channel_id) rows) s) m'
      else m'

  -- AddMessage, at the time `now`
  unfoldable pub add_message :
      ℕ → ℕ → ℕ → ℕ → String → String → MessageType → ServersManager D → ServersManager D × ℕ
  unfolding get_server_by_id upload_message_to_db write_server Own.add_message
  add_message now server_id channel_id sender_id sender_name content message_type m =
      let (m₁, server) = get_server_by_id db server_id m in
      let message : ServerMessage = record {
        message_id = 0;
        channel_id = channel_id;
        sender_id = sender_id;
        sender_name = sender_name;
        content = content;
        created_at = now;
        message_type = message_type;
      } in
      let (m₂, id) = upload_message_to_db message m₁ in
      elim server [
        | none ↦ (m₁, 0)
        | some s ↦ elim id [
          | none ↦ (m₂, 0)
          | some n ↦
              (write_server server_id (Own.add_message (record message { message_id = n }) s) m₂, n)
        ]
      ]

  -- DeleteMessage
  unfoldable pub delete_message :
      ℕ → ℕ → ℕ → ℕ → ServersManager D → ServersManager D × DeleteServerMessageResult
  unfolding get_server_by_id get_server_message_owner_from_db mark_message_deleted_in_db
      write_server mark_message_deleted
  delete_message server_id channel_id message_id requested_by m =
      let (m₁, server) = get_server_by_id db server_id m in
      let (m₂, owner) = get_server_message_owner_from_db message_id m₁ in
      let (m₃, marked) = mark_message_deleted_in_db message_id channel_id m₂ in
      elim server [
        | none ↦ (m₁, server_not_found)
        | some s ↦ elim owner [
          | none ↦ (m₂, message_not_found)
          | some (channel, sender) ↦
              if not (channel == channel_id)
              then (m₂, message_not_found)
              else if not (sender == requested_by) && not (s.owner_id == requested_by)
              then (m₂, not_authorized)
              else if not marked
              then (m₃, failed)
              else (
                write_server server_id (mark_message_deleted channel_id message_id s).0 m₃,
                success,
              )
        ]
      ]

  -- GetChannelMessages: from the cache, or if that has none for the request, after a download
  unfoldable pub get_channel_messages :
      ℕ → ℕ → ℕ → ℕ → ServersManager D → ServersManager D × List ServerMessage
  unfolding get_server_by_id download_messages_from_db Own.get_channel_messages
  get_channel_messages server_id channel_id before_timestamp limit m =
      let (m₁, server) = get_server_by_id db server_id m in
      elim server [
        | none ↦ (m₁, [])
        | some s ↦
            let cached = Own.get_channel_messages channel_id before_timestamp limit s in
            let m₂ = download_messages_from_db server_id channel_id before_timestamp limit s m₁ in
            if length cached == 0
            then (
              m₂,
              elim (find server_id m₂.servers_map) [
                | none ↦ []
                | some s' ↦ Own.get_channel_messages channel_id before_timestamp limit s'
              ],
            )
            else (m₁, cached)
      ]
