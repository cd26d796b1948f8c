-- ===== src/ServersSocket/Foreign.antt =====
-- Whom the handlers of FServersSocketData serve.
use squirrel_communicator.Prelude.{
  ℕ, String, ◌≡◌, ◌≢◌, true, false, some, none, List, [], ◌∷◌, map, take, leb, length, arith,
  nat_key,
}
use squirrel_communicator.UnorderedMap.{find}
use squirrel_communicator.Server.{Server, MessageType}
use squirrel_communicator.Server.Members.{has_member}
use squirrel_communicator.Conversations.{Encryption}
use squirrel_communicator.ServersManager.{Database, ServersManager, get_server_by_id}
use squirrel_communicator.ServersManager.Members.{is_user_in_server}
use squirrel_communicator.ServersManager.Messages.{MessageStatements}
use squirrel_communicator.ServersManager.Messages.Reloaded.{fetched, first_page_reversed}
use squirrel_communicator.ServersManager.Invites.{InviteStatements}
use squirrel_communicator.ServersSocket.{
  Users, Sent, messages_reply, early_exit, as_member, as_channel_manager,
}
use squirrel_communicator.ServersSocket.Channels.{
  create_channel, handle_move_channel, handle_reorder_channels, handle_delete_channel,
  handle_rename_channel,
}
use squirrel_communicator.ServersSocket.Members.{server_invite, handle_server_delete_invite}
use squirrel_communicator.ServersSocket.Messages.{
  server_message, handle_server_message_delete, handle_get_server_messages, format_message,
}
use mathlib.Core.List.{reverse}

-- What a user is told who is not a member
abbrev pub outsider : Sent
outsider = early_exit "not a member of this server"

module _ {D : Type 0} (db : Database D) (sql : MessageStatements D) (invites : InviteStatements D)
    (settings : Encryption) (users : Users) where
  not_in_server :
      (user server_id : ℕ) (s : Server) (m : ServersManager D)
      → find server_id m.servers_map ≡ some s
      → has_member user s ≡ false
      → is_user_in_server db server_id user m ≡ (m, false)
  unfolding is_user_in_server get_server_by_id
  not_in_server user id s m e h = ground (arith, e, h)

  -- A user with a session who is not a member of a cached server cannot make, move, reorder, delete
  -- or rename a channel of it, post, delete or read messages, invite a user or delete an invite: all
  -- ten handlers say that the user is not a member, send nothing to anybody else, and change nothing.
  pub refuses_outsiders :
      (user server_id channel_id position message_id target max before limit stored_at now : ℕ)
      (name kind content code : String) (ids : List ℕ) (type : MessageType) (to_string : ℕ → String)
      (s : Server) (m : ServersManager D)
      → user ≢ 0
      → find server_id m.servers_map ≡ some s
      → has_member user s ≡ false
      → (create_channel db users user server_id name kind m ≡ (m, outsider))
        × (handle_move_channel db users user server_id channel_id position m ≡ (m, outsider))
        × (handle_reorder_channels db users user server_id ids m ≡ (m, outsider))
        × (handle_delete_channel db users user server_id channel_id m ≡ (m, outsider))
        × (handle_rename_channel db users user server_id channel_id name m ≡ (m, outsider))
        × (server_message db sql settings users max user server_id channel_id content type stored_at
              now m
            ≡ (m, outsider))
        × (handle_server_message_delete db sql settings users user server_id channel_id message_id m
            ≡ (m, outsider))
        × (handle_get_server_messages db sql settings users to_string user server_id channel_id
              before limit m
            ≡ (m, outsider))
        × (server_invite db users user server_id target m ≡ (m, outsider))
        × (handle_server_delete_invite db users invites user server_id code m ≡ (m, outsider))
  unfolding create_channel handle_move_channel handle_reorder_channels handle_delete_channel
      handle_rename_channel server_message handle_server_message_delete handle_get_server_messages
      server_invite handle_server_delete_invite as_channel_manager as_member
  refuses_outsiders user id channel position message target max before limit stored now name kind
        content code ids type to_string s m u e h =
      ground (arith, u, not_in_server user id s m e h)

  -- A member of a cached server who asks it for a channel of which it has no cached messages gets
  -- the rows that the database has for that channel, if it is reached, whether the channel belongs
  -- to the server or not.
  pub reads_foreign_channel :
      (user server_id channel_id limit : ℕ) (to_string : ℕ → String) (s : Server)
      (m : ServersManager D)
      → user ≢ 0
      → find server_id m.servers_map ≡ some s
      → has_member user s ≡ true
      → find channel_id s.channel_messages ≡ none
      → (db.connect m.database).1 ≡ true
      → let shown = take limit (
          reverse (
            fetched settings channel_id
              (sql.select_messages channel_id 0 limit (db.connect m.database).0))) in
        (handle_get_server_messages db sql settings users to_string user server_id channel_id 0
          limit m).1.replies
        ≡ messages_reply "server_messages"
            (map (format_message to_string) shown)
            (leb limit (length shown))
          ∷ []
  unfolding handle_get_server_messages as_member is_user_in_server get_server_by_id
  reads_foreign_channel user id channel limit to_string s m u e h n c =
      ground (arith, u, e, h, first_page_reversed db sql settings id channel limit s m e n c)
