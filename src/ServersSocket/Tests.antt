-- ===== src/ServersSocket/Tests.antt =====
-- Runs of FServersSocketData's handlers on a server with the owner 7 and the member 8.
use squirrel_communicator.Prelude.{
  ℕ, String, ◌≡◌, refl, ℕ_discrete, true, false, some, none, List, [], ◌∷◌, map, take, arith,
  nat_key,
}
use squirrel_communicator.UnorderedMap.{find, contains, modify, erase}
use squirrel_communicator.Server.{Server, ServerMember, MessageType}
use squirrel_communicator.Server.Members.{has_member, remove_member}
use squirrel_communicator.Conversations.Shelf.{plain}
use squirrel_communicator.ServersManager.{ServersManager}
use squirrel_communicator.ServersManager.Home.{Log, log, server, servers}
use squirrel_communicator.ServersManager.Members.{remove_user_from_server}
use squirrel_communicator.ServersManager.Messages.{MessageStatements, ServerMessageRow}
use squirrel_communicator.ServersManager.Messages.Reloaded.{fetched}
use squirrel_communicator.ServersManager.Invites.{InviteStatements}
use squirrel_communicator.ServersSocket.{Sent, Users, JsonValue, messages_reply}
use mathlib.Core.Option
use squirrel_communicator.ServersSocket.Channels.{
  create_channel, handle_move_channel, handle_reorder_channels, handle_delete_channel,
  handle_rename_channel,
}
use squirrel_communicator.ServersSocket.Members.{
  server_invite, handle_server_delete_invite, leave_server, handle_kick_member,
}
use squirrel_communicator.ServersSocket.Messages.{
  server_message, handle_server_message_delete, handle_get_server_messages, format_message,
}
use squirrel_communicator.ServersSocket.Foreign.{outsider, refuses_outsiders, reads_foreign_channel}
use squirrel_communicator.ServersSocket.Kicked.{members_of, channels_of, leaves_voice_connected}
use mathlib.Core.List.{reverse}

abbrev everybody : Users
everybody = record { user_name = λ u. some "user"; is_online = λ u. true }

abbrev guest : ServerMember
guest = record { user_id = 8; user_name = "guest"; status = "online"; permissions = 0 }

abbrev home : Server
home = record server { members = (8, guest) ∷ [] }

abbrev homes : ServersManager Log
homes = record servers { servers_map = (1, home) ∷ [] }

-- The channel 99 is of another server.
abbrev secret : ServerMessageRow
secret = record {
  columns = record {
    message_id = 30;
    channel_id = 99;
    sender_id = 5;
    sender_name = "owner";
    content = "secret";
    created_at = 30;
    message_type = MessageType.text;
  };
  user_name = some "owner";
  is_encrypted = false;
}

abbrev table : MessageStatements Log
table = record {
  insert_message = λ m encrypted d. (d, some 31);
  select_owner = λ id d. some (99, some 5);
  update_deleted = λ id channel content d. (d, some 1);
  select_messages = λ channel before limit d. take limit (secret ∷ []);
}

abbrev no_invites : InviteStatements Log
no_invites = record {
  select_valid_invite = λ code d. none;
  increment_uses = λ code d. (d, true);
  insert_invite = λ code server creator uses expiry d. (d, true);
  count_active_invites = λ server d. some 0;
  delete_invite = λ code server d. (d, some 0);
  count_invites = λ server d. some 0;
  select_invites = λ server limit offset d. some [];
}

abbrev show : ℕ → String
show id = "id"

cached : find 1 homes.servers_map ≡ some home
unfolding find ℕ_discrete
cached = refl

is_guest : has_member 8 home ≡ true
unfolding has_member contains find ℕ_discrete
is_guest = refl

not_member : has_member 9 home ≡ false
unfolding has_member contains find ℕ_discrete
not_member = refl

no_cache : find 99 home.channel_messages ≡ none
unfolding find
no_cache = refl

removed : (remove_user_from_server log 1 8 homes).1 ≡ true
unfolding remove_user_from_server find ℕ_discrete
removed = refl

refuses_outsiders_example :
    (create_channel log everybody 9 1 "new" "text" homes ≡ (homes, outsider))
    × (handle_move_channel log everybody 9 1 10 0 homes ≡ (homes, outsider))
    × (handle_reorder_channels log everybody 9 1 (11 ∷ 10 ∷ []) homes ≡ (homes, outsider))
    × (handle_delete_channel log everybody 9 1 10 homes ≡ (homes, outsider))
    × (handle_rename_channel log everybody 9 1 10 "new" homes ≡ (homes, outsider))
    × (server_message log table plain everybody 100 9 1 10 "hello" MessageType.text 40 41 homes
        ≡ (homes, outsider))
    × (handle_server_message_delete log table plain everybody 9 1 10 30 homes ≡ (homes, outsider))
    × (handle_get_server_messages log table plain everybody show 9 1 10 0 50 homes
        ≡ (homes, outsider))
    × (server_invite log everybody 9 1 8 homes ≡ (homes, outsider))
    × (handle_server_delete_invite log everybody no_invites 9 1 "code" homes ≡ (homes, outsider))
refuses_outsiders_example =
    refuses_outsiders log table no_invites plain everybody 9 1 10 0 30 8 100 0 50 40 41 "new" "text"
      "hello" "code" (11 ∷ 10 ∷ []) MessageType.text show home homes (omega arith) cached not_member

abbrev shown : List (List (String × JsonValue))
shown = map (format_message show) (take 50 (reverse (fetched plain 99 (take 50 (secret ∷ [])))))

reads_foreign_channel_example :
    (handle_get_server_messages log table plain everybody show 8 1 99 0 50 homes).1.replies
    ≡ messages_reply "server_messages" shown false ∷ []
reads_foreign_channel_example =
    reads_foreign_channel log table no_invites plain everybody 8 1 99 50 show home homes
      (omega arith) cached is_guest no_cache refl

leaves_voice_connected_example :
    (members_of 1 (leave_server log everybody 8 1 homes).0 ≡ some (remove_member 8 home).0.members)
    × (channels_of 1 (leave_server log everybody 8 1 homes).0 ≡ some home.channels)
leaves_voice_connected_example =
    leaves_voice_connected log everybody 8 1 home homes (omega arith) cached removed

abbrev kicked : (ServersManager Log × Sent)
kicked = handle_kick_member log everybody 7 1 8 homes

-- The target is gone.
gone : Option.map (λ members. find 8 members) (members_of 1 kicked.0) ≡ some none
unfolding handle_kick_member remove_user_from_server find contains modify erase ℕ_discrete
gone = refl
