-- ===== src/ServersManager/Messages/Tests.antt =====
-- Runs of FServersManager's messages over a database with one channel of two messages.
use squirrel_communicator.Prelude.{
  ℕ, ◌≡◌, ◌<◌, ◌≢◌, ◌⊎◌, refl, ℕ_discrete, false, none, some, List, [], ◌∷◌, take, arith, nat_key,
}
use squirrel_communicator.UnorderedMap.{find}
use squirrel_communicator.Server.{Server, ServerMessage, MessageType}
use squirrel_communicator.Server.Messages.Deletion.{message_with}
use squirrel_communicator.Conversations.Shelf.{plain}
use squirrel_communicator.ServersManager.{ServersManager}
use squirrel_communicator.ServersManager.Home.{Log, log, server, servers}
use squirrel_communicator.ServersManager.Messages.{
  MessageStatements, ServerMessageRow, success, add_message, delete_message, get_channel_messages,
}
use squirrel_communicator.ServersManager.Messages.Deleted.{
  stored_row, cached_ids, cached_message, replaced, deletes_only_permitted,
}
use squirrel_communicator.ServersManager.Messages.Reloaded.{
  fetched, first_page_reversed, post_hides_history,
}
use mathlib.Core.List.{reverse}
use mathlib.Core.Option

abbrev message : ℕ → ServerMessage
message id = record {
  message_id = id;
  channel_id = 10;
  sender_id = 8;
  sender_name = "guest";
  content = "hello";
  created_at = id;
  message_type = MessageType.text;
}

abbrev row : ℕ → ServerMessageRow
row id = record { columns = message id; user_name = some "guest"; is_encrypted = false }

abbrev rows : List ServerMessageRow
rows = row 22 ∷ row 21 ∷ []

abbrev table : MessageStatements Log
table = record {
  insert_message = λ m encrypted d. (d, some 23);
  select_owner = λ id d. some (10, some 8);
  update_deleted = λ id channel content d. (d, some 1);
  select_messages = λ channel before limit d. take limit rows;
}

cached : find 1 servers.servers_map ≡ some server
unfolding find ℕ_discrete
cached = refl

unread : find 10 server.channel_messages ≡ none
unfolding find
unread = refl

first_page_reversed_example :
    (get_channel_messages log table plain 1 10 0 50 servers).1
    ≡ take 50 (reverse (fetched plain 10 (take 50 rows)))
first_page_reversed_example =
    first_page_reversed log table plain 1 10 50 server servers cached unread refl

post_hides_history_example :
    get_channel_messages log table plain 1 10 0 50
      (add_message log table plain 23 1 10 8 "guest" "hello" MessageType.text servers).0
    ≡ (
      (add_message log table plain 23 1 10 8 "guest" "hello" MessageType.text servers).0,
      message 23 ∷ [],
    )
post_hides_history_example =
    post_hides_history log table plain 23 1 10 8 49 "guest" "hello" MessageType.text server servers
      (add_message log table plain 23 1 10 8 "guest" "hello" MessageType.text servers).0 23 cached
      unread (unfold add_message find ℕ_discrete in refl) (omega arith)

-- The message 22 is in the cache.
abbrev read_server : Server
read_server = record server { channel_messages = (10, message 22 ∷ []) ∷ [] }

abbrev read_servers : ServersManager Log
read_servers = record servers { servers_map = (1, read_server) ∷ [] }

abbrev deleted : ServersManager Log
deleted = (delete_message log table plain 1 10 22 8 read_servers).0

deletes_only_permitted_example :
    ((success ≢ success) × (deleted.servers_map ≡ read_servers.servers_map))
    ⊎ ((success ≡ success)
        × (Option.map (λ r. r.0) (stored_row log table 22 read_servers) ≡ some 10)
        × ((◌≡◌ {A = ℕ} 7 8)
            ⊎ (Option.map (λ r. r.1) (stored_row log table 22 read_servers) ≡ some (some 8)))
        × (0 < 1)
        × (deleted.database ≡ [])
        × (cached_ids 1 10 deleted ≡ some (22 ∷ []))
        × (cached_message 1 10 22 deleted ≡ some (some (replaced (message 22)))))
unfolding delete_message find ℕ_discrete message_with
deletes_only_permitted_example =
    deletes_only_permitted log table plain 1 10 22 8 10 22 read_server read_servers deleted success
      (omega arith) refl refl
