-- ===== src/Conversations/Create.antt =====
-- Finding, creating and downloading conversations in FConversationsManager
-- (ProjectServer/Source/Private/Managers/ConversationsManager.cpp).
pub mod Listed
pub mod Found
use squirrel_communicator.Prelude.{
  ℕ, ◌-◌, Bool, true, false, not, Option, none, some, List, [], ◌∷◌, ◌++◌, map, ltb, keep, drop,
  length, if◌then◌else◌, ltb_i32, add_i32, nat_key, ◌==◌,
}
use squirrel_communicator.UnorderedMap.{find, contains}
use squirrel_communicator.Conversations.{
  ConversationMessageData, ConversationData, Encryption, MessageRow, ConversationDatabase,
  ConversationsManager, has_conversation, change_conversation, add_conversation_to_cache,
}

-- each user with no message read
unfoldable pub unread : List ℕ → List (ℕ × ℕ)
unread [] = []
unread (user ∷ users) = (user, 0) ∷ unread users

-- The message of a row, decrypted if it is stored encrypted
unfoldable pub message_of_row : Encryption → MessageRow → ConversationMessageData
message_of_row settings row =
    let stored = row.columns in
    if row.is_encrypted
    then record stored { message = settings.decrypt_message stored.message }
    else stored

module _ {D : Type 0} (db : ConversationDatabase D) (settings : Encryption) where
  -- DownloadConversationMessages
  unfoldable pub download_conversation_messages :
      ℕ → ℕ → ℕ → ConversationsManager D → ConversationsManager D × List ConversationMessageData
  unfolding message_of_row
  download_conversation_messages id offset limit m =
      let (d, is_connected) = db.connect m.database in
      (
        record m { database = d },
        if is_connected
            then map (message_of_row settings) (db.select_messages id offset limit d)
            else [],
      )

  -- DownloadConversationParticipants
  unfoldable pub download_conversation_participants :
      ℕ → ConversationsManager D → ConversationsManager D × List (ℕ × ℕ)
  download_conversation_participants id m =
      let (d, is_connected) = db.connect m.database in
      (record m { database = d }, if is_connected then db.select_participants id d else [])

  -- The participants' INSERTs, up to one that throws
  unfoldable pub insert_participants : ℕ → List ℕ → D → D
  insert_participants id [] d = d
  insert_participants id (user ∷ users) d =
      let (d', done) = db.insert_participant id user d in
      let rest = insert_participants id users d' in if done then rest else d'

  -- FindConversation2Ids: what it answers is cached, an id of 0 too
  unfoldable pub find_conversation_2_ids :
      ℕ → ℕ → ConversationsManager D → ConversationsManager D × ℕ
  unfolding add_conversation_to_cache unread
  find_conversation_2_ids user1 user2 m =
      let id = db.find_conversation_2 user1 user2 m.database in
      let users = user1 ∷ user2 ∷ [] in (add_conversation_to_cache id users (unread users) m, id)

  -- UploadOrGetConversation, from the INSERT on: the id, and whether it is new
  unfoldable pub create_conversation :
      List ℕ → ConversationsManager D → ConversationsManager D × (ℕ × Bool)
  unfolding insert_participants add_conversation_to_cache unread
  create_conversation users m =
      let (d, is_new) = db.insert_conversation m.database in
      let id = db.last_insert_id d in
      let m' : ConversationsManager D = record m { database = insert_participants id users d } in
      if ltb 0 id
      then (add_conversation_to_cache id users (unread users) m', (id, is_new))
      else (record m { database = d }, (id, is_new))

  -- The search of UploadOrGetConversation. FindConversationNIds finds nothing.
  unfoldable pub find_conversation : List ℕ → ConversationsManager D → ConversationsManager D × ℕ
  unfolding find_conversation_2_ids
  find_conversation (user1 ∷ user2 ∷ []) m = find_conversation_2_ids user1 user2 m
  find_conversation _ m = (m, 0)

  -- GetOrCreateConversation and UploadOrGetConversation
  unfoldable pub get_or_create_conversation :
      List ℕ → ConversationsManager D → ConversationsManager D × (ℕ × Bool)
  unfolding find_conversation create_conversation
  get_or_create_conversation users m =
      let (d, is_connected) = db.connect m.database in
      let m' : ConversationsManager D = record m { database = d } in
      let (m'', found) = find_conversation users m' in
      if is_connected
      then if ltb 0 found then (m'', (found, false)) else create_conversation users m''
      else (m', (0, false))

  -- One round of the second loop of DownloadConversationsFromRange
  unfoldable pub download_conversation : ℕ → ConversationsManager D → ConversationsManager D
  unfolding download_conversation_participants add_conversation_to_cache
      download_conversation_messages change_conversation
  download_conversation id m =
      let (m₁, participants) = download_conversation_participants id m in
      let m₂ = add_conversation_to_cache id (map (λ p. p.0) participants) participants m₁ in
      let (m₃, messages) = download_conversation_messages id 0 40 m₂ in
      change_conversation id (λ c. record c { messages_deque = c.messages_deque ++ messages }) m₃

  unfoldable pub download_each : List ℕ → ConversationsManager D → ConversationsManager D
  unfolding download_conversation
  download_each [] m = m
  download_each (id ∷ ids) m = download_each ids (download_conversation id m)

  -- DownloadConversationsFromRange
  unfoldable pub download_conversations_from_range :
      ℕ → ℕ → ℕ → ConversationsManager D → ConversationsManager D
  unfolding download_each has_conversation
  download_conversations_from_range user offset limit m =
      let (d, is_connected) = db.connect m.database in
      let m' : ConversationsManager D = record m { database = d } in
      let ids = if is_connected then db.select_conversations user offset limit d else [] in
      download_each (keep (λ id. not (has_conversation id m')) ids) m'

  -- GetLastConversationByUserId: from one before the offset to the last, whatever the limit
  unfoldable pub get_last_conversation_by_user_id :
      ℕ → ℕ → ℕ → ConversationsManager D → ConversationsManager D × List ℕ
  unfolding download_conversations_from_range
  get_last_conversation_by_user_id user offset limit m =
      let m' = download_conversations_from_range user 0 (add_i32 offset limit) m in
      let start = if ltb_i32 1 offset then offset - 1 else 0 in
      (m', elim (find user m'.user_id_to_conversation) [ none ↦ [] | some ids ↦ drop start ids ])
