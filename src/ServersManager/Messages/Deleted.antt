-- ===== src/ServersManager/Messages/Deleted.antt =====
-- Who may delete a message of FServersManager, and what that changes.
use squirrel_communicator.Prelude.{
  ℕ, ◌<◌, ◌≡◌, ◌≢◌, ◌⊎◌, ◌∙◌, ap, inl, inr, Option, some, List, arith, nat_key, ite, ◌≟◌,
}
use squirrel_communicator.UnorderedMap.{find, find-modify}
use squirrel_communicator.Server.{Server, ServerMessage, MessageType}
use squirrel_communicator.Server.Messages.{messages_of, mark_message_deleted}
use squirrel_communicator.Server.Messages.Deletion.{message_with, ids, marks_message_deleted}
use squirrel_communicator.Conversations.{Encryption}
use squirrel_communicator.ServersManager.{
  Database, ServersManager, get_server_by_id, on_database, write_server,
}
use squirrel_communicator.ServersManager.Messages.{
  MessageStatements, DeleteServerMessageResult, success, get_server_message_owner_from_db,
  mark_message_deleted_in_db, delete_message,
}
use mathlib.Core.Option

-- A message whose content has been replaced
abbrev pub replaced : ServerMessage → ServerMessage
replaced m = record m { content = "CONTENT DELETED"; message_type = MessageType.text }

-- The cached ids of a channel's messages, in their order
abbrev pub cached_ids : {D : Type 0} → ℕ → ℕ → ServersManager D → Option (List ℕ)
cached_ids server_id channel_id m =
    Option.map (λ s. ids (messages_of channel_id s)) (find server_id m.servers_map)

-- The first cached message of a channel with an id
abbrev pub cached_message :
    {D : Type 0} → ℕ → ℕ → ℕ → ServersManager D → Option (Option ServerMessage)
cached_message server_id channel_id id m =
    Option.map (λ s. message_with id (messages_of channel_id s)) (find server_id m.servers_map)

module _ (channel_id message_id other j : ℕ) (s : Server) where
  -- What the deletion in the server makes of the cache
  marked_ids :
      ids (messages_of other (mark_message_deleted channel_id message_id s).0)
      ≡ ids (messages_of other s)
  marked_ids = (marks_message_deleted channel_id message_id other j s).1

  marked_message :
      message_with j (messages_of other (mark_message_deleted channel_id message_id s).0)
      ≡ ite
          (channel_id ≟ other)
          (ite
            (message_id ≟ j)
            (Option.map replaced (message_with j (messages_of other s)))
            (message_with j (messages_of other s)))
          (message_with j (messages_of other s))
  marked_message = ground (arith, marks_message_deleted channel_id message_id other j s)

module _ {D : Type 0} (db : Database D) (sql : MessageStatements D) where
  -- The row of a message on a new connection
  abbrev pub stored_row : ℕ → ServersManager D → Option (ℕ × Option ℕ)
  stored_row message_id m = sql.select_owner message_id (db.connect m.database).0

  -- The UPDATE on the connection after that, and its affected rows
  abbrev pub update_result : ℕ → ℕ → ServersManager D → D × Option ℕ
  update_result message_id channel_id m =
      sql.update_deleted message_id channel_id "CONTENT DELETED"
        (db.connect (db.connect m.database).0).0

module _ {D : Type 0} (db : Database D) (sql : MessageStatements D) (settings : Encryption) where
  module _ (server_id channel_id message_id requested_by : ℕ) (s : Server)
      (m : ServersManager D) where
    guarded :
        (m' : ServersManager D) (answer : DeleteServerMessageResult)
        → requested_by ≢ 0
        → find server_id m.servers_map ≡ some s
        → delete_message db sql settings server_id channel_id message_id requested_by m
          ≡ (m', answer)
        → ((answer ≡ success)
            × (Option.map (λ r. r.0) (stored_row db sql message_id m) ≡ some channel_id)
            × ((s.owner_id ≡ requested_by)
                ⊎ (Option.map (λ r. r.1) (stored_row db sql message_id m)
                    ≡ some (some requested_by)))
            × (0 < Option.get_or (update_result db sql message_id channel_id m).1 0)
            × (m'.database ≡ (update_result db sql message_id channel_id m).0)
            × (find server_id m'.servers_map
                ≡ some (mark_message_deleted channel_id message_id s).0))
          ⊎ ((answer ≢ success) × (m'.servers_map ≡ m.servers_map))
    unfolding delete_message get_server_by_id get_server_message_owner_from_db
        mark_message_deleted_in_db on_database write_server
    guarded m' answer n e h = ground (
      arith,
      n,
      e,
      h,
      find-modify server_id server_id (λ _. (mark_message_deleted channel_id message_id s).0)
          m.servers_map,
    )

  -- A deletion for a user other than 0 in a cached server either answers no success and changes no
  -- cached server, or answers success. In the second case the message's row is of the named channel,
  -- the user is the owner of the server or the sender in the row, and the database has marked at
  -- least one row. In the cache, at each channel `other`, the ids of the messages are as before and
  -- in their order, and so is the first message with each id `j`, but the deleted one: if the cache
  -- has it, its content is the placeholder and its type is that of a text.
  pub deletes_only_permitted :
      (server_id channel_id message_id requested_by other j : ℕ) (s : Server)
      (m m' : ServersManager D) (answer : DeleteServerMessageResult)
      → requested_by ≢ 0
      → find server_id m.servers_map ≡ some s
      → delete_message db sql settings server_id channel_id message_id requested_by m ≡ (m', answer)
      → ((answer ≢ success) × (m'.servers_map ≡ m.servers_map))
        ⊎ ((answer ≡ success)
            × (Option.map (λ r. r.0) (stored_row db sql message_id m) ≡ some channel_id)
            × ((s.owner_id ≡ requested_by)
                ⊎ (Option.map (λ r. r.1) (stored_row db sql message_id m)
                    ≡ some (some requested_by)))
            × (0 < Option.get_or (update_result db sql message_id channel_id m).1 0)
            × (m'.database ≡ (update_result db sql message_id channel_id m).0)
            × (cached_ids server_id other m' ≡ some (ids (messages_of other s)))
            × (cached_message server_id other j m'
                ≡ some (
                    ite
                      (channel_id ≟ other)
                      (ite
                        (message_id ≟ j)
                        (Option.map replaced (message_with j (messages_of other s)))
                        (message_with j (messages_of other s)))
                      (message_with j (messages_of other s)))))
  deletes_only_permitted id channel message user other j s m m' answer n e h =
      elim (guarded id channel message user s m m' answer n e h) [
        | inr kept ↦ inl kept
        | inl (done, in_channel, permitted, marked, database, cached) ↦ inr (
          done,
          in_channel,
          permitted,
          marked,
          database,
          ap (Option.map (λ s. ids (messages_of other s))) cached
              ∙ ap some (marked_ids channel message other j s),
          ap (Option.map (λ s. message_with j (messages_of other s))) cached
              ∙ ap some (marked_message channel message other j s),
        )
      ]
