-- ===== src/Conversations/Messages.antt =====
-- Adding, editing and deleting messages in FConversationsManager
-- (ProjectServer/Source/Private/Managers/ConversationsManager.cpp).
pub mod Changed
use squirrel_communicator.Prelude.{
  ℕ, String, Bool, true, false, Option, none, some, List, [], ◌∷◌, ◌==◌, ltb, if◌then◌else◌,
}
use squirrel_communicator.Server.{MessageType}
use squirrel_communicator.Conversations.{
  ConversationMessageStatus, ConversationMessageData, ConversationData, Encryption, MessageRow,
  ConversationDatabase, ConversationsManager, DatabaseOperationResult, sent, edited, deleted,
  unknown, success, operation_failed, connection_failed, database_failed, get_conversation,
  has_conversation, change_conversation,
}
use squirrel_communicator.Conversations.Lookback.{
  edit_first, delete_first, deleted_message_placeholder,
}

module _ {D : Type 0} where
  -- EditMessage, in memory
  unfoldable pub edit_in_cache : ℕ → ℕ → String → ConversationsManager D → ConversationsManager D
  unfolding change_conversation edit_first
  edit_in_cache id message new =
      change_conversation id
        (λ c. record c { messages_deque = edit_first message 0 new c.messages_deque })

  -- DeleteMessage, in memory
  unfoldable pub delete_in_cache : ℕ → ℕ → ConversationsManager D → ConversationsManager D
  unfolding change_conversation delete_first
  delete_in_cache id message =
      change_conversation id
        (λ c. record c { messages_deque = delete_first message c.messages_deque })

  -- AddMessage, in memory: the newest message is the first. A conversation that is not cached, whose
  -- null pointer the code would follow, is left out; the callers ask for it before.
  unfoldable pub push_in_cache :
      ℕ → ConversationMessageData → ConversationsManager D → ConversationsManager D
  unfolding change_conversation
  push_in_cache id message =
      change_conversation id (λ c. record c { messages_deque = message ∷ c.messages_deque })

module _ {D : Type 0} (db : ConversationDatabase D) (settings : Encryption) where
  -- What an UPDATE of a message comes to
  unfoldable pub update_in_db :
      ℕ
      → ℕ
      → ℕ
      → String
      → ConversationMessageStatus
      → Bool
      → ConversationsManager D
      → ConversationsManager D × DatabaseOperationResult
  update_in_db requester id message text status encrypted m =
      let (d, is_connected) = db.connect m.database in
      let (d', affected) = db.update_message requester id message text status encrypted d in
      if is_connected
      then elim affected [
        | none ↦ (record m { database = d' }, operation_failed)
        | some rows ↦
            if rows == 0
            then (record m { database = d' }, database_failed)
            else (record m { database = d' }, success)
      ]
      else (record m { database = d }, unknown)

  -- The text as it is stored
  unfoldable pub stored_text : String → String
  stored_text text = if settings.is_encryption_enabled then settings.encrypt_message text else text

  -- UpdateMessageEditInDB
  unfoldable pub update_message_edit_in_db :
      ℕ → ℕ → ℕ → String → ConversationsManager D → ConversationsManager D × DatabaseOperationResult
  unfolding update_in_db stored_text
  update_message_edit_in_db requester id message new =
      update_in_db requester id message (stored_text new) edited settings.is_encryption_enabled

  -- UpdateMessageDeleteInDB
  unfoldable pub update_message_delete_in_db :
      ℕ → ℕ → ℕ → ConversationsManager D → ConversationsManager D × DatabaseOperationResult
  unfolding update_in_db
  update_message_delete_in_db requester id message =
      update_in_db requester id message deleted_message_placeholder deleted false

  -- EditMessage
  unfoldable pub edit_message : ℕ → ℕ → ℕ → String → ConversationsManager D → ConversationsManager D
  unfolding update_message_edit_in_db edit_in_cache
  edit_message requester id message new m =
      let (m', result) = update_message_edit_in_db requester id message new m in
      elim result [ success ↦ edit_in_cache id message new m' | _ ↦ m' ]

  -- DeleteMessage
  unfoldable pub delete_message : ℕ → ℕ → ℕ → ConversationsManager D → ConversationsManager D × Bool
  unfolding update_message_delete_in_db delete_in_cache has_conversation
  delete_message requester id message m =
      let (m', result) = update_message_delete_in_db requester id message m in
      elim result [
        | success ↦
            if has_conversation id m' then (delete_in_cache id message m', true) else (m', false)
        | _ ↦ (m', false)
      ]

  -- UploadMessage: the result, and OutId
  unfoldable pub upload_message :
      ℕ
      → ℕ
      → String
      → ℕ
      → MessageType
      → ConversationsManager D
      → ConversationsManager D × (DatabaseOperationResult × ℕ)
  unfolding stored_text
  upload_message id sender text now_nanos type m =
      let (d, is_connected) = db.connect m.database in
      let row : MessageRow = record {
        columns = record {
          message_id = 0;
          sender_id = sender;
          message = stored_text text;
          created_at = now_nanos;
          status = sent;
          message_type = type;
        };
        is_encrypted = settings.is_encryption_enabled;
      } in
      let (d', inserted) = db.insert_message id row d in
      let (d'', touched) = db.touch_conversation id d' in
      if is_connected
      then elim inserted [
        | none ↦ (record m { database = d' }, (database_failed, 0))
        | some out_id ↦ (
          record m { database = d'' },
          (
            if touched then if ltb 0 out_id then success else operation_failed else database_failed,
            out_id,
          ),
        )
      ]
      else (record m { database = d }, (connection_failed, 0))

  -- AddMessage: the id, which is OutId also when the upload fails. The two clock readings are
  -- parameters.
  unfoldable pub add_message :
      ℕ → ℕ → String → MessageType → ℕ → ℕ → ConversationsManager D → ConversationsManager D × ℕ
  unfolding upload_message push_in_cache
  add_message id sender text type uploaded_at cached_at m =
      let (m', upload) = upload_message id sender text uploaded_at type m in
      let (result, out_id) = upload in
      let message : ConversationMessageData = record {
        message_id = out_id;
        sender_id = sender;
        message = text;
        created_at = cached_at;
        status = sent;
        message_type = type;
      } in
      elim result [ success ↦ (push_in_cache id message m', out_id) | _ ↦ (m', out_id) ]
