-- ===== src/ServersManager/Messages/Reloaded.antt =====
-- What FServersManager::GetChannelMessages shows of messages that are not cached.
use squirrel_communicator.Prelude.{
  ℕ, suc, ◌≡◌, ◌≢◌, refl, sym, ap, ◌∙◌, String, true, none, some, List, [], ◌∷◌, ◌++◌, map, take,
  arith, nat_key,
}
use squirrel_communicator.UnorderedMap.{find, find-modify}
use squirrel_communicator.Server.{Server, ServerMessage, MessageType}
use squirrel_communicator.Server.Messages as Own
use squirrel_communicator.Server.Messages.{messages_of}
use squirrel_communicator.Server.Messages.Pages.{newest_page, messages_of-add, page-after_add}
use squirrel_communicator.Conversations.{Encryption}
use squirrel_communicator.ServersManager.{Database, ServersManager, write_server, get_server_by_id}
use squirrel_communicator.ServersManager.Messages.{
  MessageStatements, ServerMessageRow, message_of_row, add_each, download_messages_from_db,
  upload_message_to_db, add_message, get_channel_messages,
}
use mathlib.Core.List.{reverse, append-nil, append_assoc}

-- The messages of fetched rows, in the order of the rows
abbrev pub fetched : Encryption → ℕ → List ServerMessageRow → List ServerMessage
fetched settings channel_id rows = map (message_of_row settings channel_id) rows

messages_of-add_each :
    (settings : Encryption) (channel_id : ℕ) (rows : List ServerMessageRow) (s : Server)
    → messages_of channel_id (add_each (fetched settings channel_id rows) s)
      ≡ messages_of channel_id s ++ fetched settings channel_id rows
unfolding add_each
messages_of-add_each settings id [] s = sym (append-nil (messages_of id s))
messages_of-add_each settings id (row ∷ rows) s =
    let m = message_of_row settings id row in
    let added : messages_of id (Own.add_message m s) ≡ messages_of id s ++ m ∷ [] =
      unfold message_of_row in messages_of-add m s in
    messages_of-add_each settings id rows (Own.add_message m s)
    ∙ ap (◌++ fetched settings id rows) added
    ∙ append_assoc (messages_of id s) (m ∷ []) (fetched settings id rows)

only_message :
    (limit : ℕ) (m : ServerMessage) (s : Server)
    → find m.channel_id s.channel_messages ≡ none
    → Own.get_channel_messages m.channel_id 0 (suc limit) (Own.add_message m s) ≡ m ∷ []
only_message limit m s u =
    let nothing : Own.get_channel_messages m.channel_id 0 limit s ≡ [] =
      unfold Own.get_channel_messages in ground (arith, u) in
    page-after_add m limit s ∙ ap (◌∷◌ m) nothing

module _ {D : Type 0} (db : Database D) (sql : MessageStatements D) (settings : Encryption) where
  -- When a cached server has no messages of a channel and the database is reached, the first page of
  -- it shows the last rows of the database with the oldest first, though pages from the cache have
  -- the newest first.
  pub first_page_reversed :
      (server_id channel_id limit : ℕ) (s : Server) (m : ServersManager D)
      → find server_id m.servers_map ≡ some s
      → find channel_id s.channel_messages ≡ none
      → (db.connect m.database).1 ≡ true
      → (get_channel_messages db sql settings server_id channel_id 0 limit m).1
        ≡ take limit (
            reverse (
              fetched settings channel_id
                (sql.select_messages channel_id 0 limit (db.connect m.database).0)))
  unfolding get_channel_messages get_server_by_id download_messages_from_db write_server
  first_page_reversed id channel limit s m e u c =
      let s' =
        add_each
          (fetched settings channel (sql.select_messages channel 0 limit (db.connect m.database).0))
          s in
      let downloaded : (get_channel_messages db sql settings id channel 0 limit m).1
          ≡ Own.get_channel_messages channel 0 limit s' =
        unfold Own.get_channel_messages in
        ground (arith, e, u, c, find-modify id id (λ _. s') m.servers_map) in
      downloaded
      ∙ newest_page channel limit s'
      ∙ ap (λ ms. take limit (reverse ms))
          (messages_of-add_each settings channel
            (sql.select_messages channel 0 limit (db.connect m.database).0) s)
      ∙ rw (u, messages_of) refl

  cached_page :
      (server_id channel_id limit : ℕ) (x : ServerMessage) (s : Server) (m : ServersManager D)
      → find server_id m.servers_map ≡ some s
      → Own.get_channel_messages channel_id 0 limit s ≡ x ∷ []
      → get_channel_messages db sql settings server_id channel_id 0 limit m ≡ (m, x ∷ [])
  unfolding get_channel_messages get_server_by_id
  cached_page id channel limit x s m e c = ground (arith, e, c)

  -- After a message is posted to a channel of which a cached server has no messages, a page of any
  -- size of it shows that message alone, whatever the database holds.
  pub post_hides_history :
      (now server_id channel_id sender_id limit : ℕ) (sender_name content : String)
      (message_type : MessageType) (s : Server) (m m' : ServersManager D) (message_id : ℕ)
      → find server_id m.servers_map ≡ some s
      → find channel_id s.channel_messages ≡ none
      → add_message db sql settings now server_id channel_id sender_id sender_name content
          message_type m
        ≡ (m', message_id)
      → message_id ≢ 0
      → get_channel_messages db sql settings server_id channel_id 0 (suc limit) m' ≡ (
        m',
        record {
          message_id = message_id;
          channel_id = channel_id;
          sender_id = sender_id;
          sender_name = sender_name;
          content = content;
          created_at = now;
          message_type = message_type;
        }
            ∷ [],
      )
  unfolding get_server_by_id add_message upload_message_to_db write_server
  post_hides_history now id channel sender limit name content type s m m' n e u p z =
      let message : ServerMessage = record {
        message_id = n;
        channel_id = channel;
        sender_id = sender;
        sender_name = name;
        content = content;
        created_at = now;
        message_type = type;
      } in
      let s' = Own.add_message message s in
      let stored : find id m'.servers_map ≡ some s' =
        ground (arith, e, p, z, find-modify id id (λ _. s') m.servers_map) in
      cached_page id channel (suc limit) message s' m' stored (only_message limit message s u)
