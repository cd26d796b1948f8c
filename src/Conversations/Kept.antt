-- ===== src/Conversations/Kept.antt =====
-- What the operations of FConversationsManager leave of the users of conversations.
use squirrel_communicator.Prelude.{
  ℕ, ◌+◌, ◌-◌, String, ◌≡◌, refl, Bool, false, length, List, ◌∷◌, ◌++◌, arith, nat_key,
}
use squirrel_communicator.Server.{MessageType}
use squirrel_communicator.Conversations.{
  ConversationData, ConversationMessageData, ConversationMessageStatus, Encryption,
  ConversationDatabase, ConversationsManager, change_conversation, sent, edited, deleted,
}
use squirrel_communicator.Conversations.Lookback.{
  deleted_message_placeholder, edit_first, delete_first,
}
use squirrel_communicator.Conversations.Messages.{
  add_message, edit_message, delete_message, upload_message, push_in_cache, edit_in_cache,
  delete_in_cache, update_message_edit_in_db, update_message_delete_in_db, update_in_db,
  stored_text,
}
use squirrel_communicator.Conversations.Create.{download_conversation_messages}
use squirrel_communicator.Conversations.Create.Listed.{
  SameUsers, change-SameUsers, takes_part-map_values,
}
use squirrel_communicator.Conversations.Range.{get_conversation_messages_for_range}
use squirrel_communicator.Conversations.Retention.{
  post_second_tick, cleanup_old_messages, trim_conversation,
}

module _ {D : Type 0} (db : ConversationDatabase D) (settings : Encryption) where
  upload-SameUsers :
      (id sender now : ℕ) (text : String) (type : MessageType) (m : ConversationsManager D)
      → SameUsers m (upload_message db settings id sender text now type m).0
  unfolding upload_message
  upload-SameUsers id sender now text type m = record {
    same_users = λ user j. ground arith;
    same_lists = ground arith;
  }

  -- A change of one conversation's messages
  pub messages-SameUsers :
      (id : ℕ) (f : List ConversationMessageData → List ConversationMessageData)
      (m : ConversationsManager D)
      → SameUsers m
          (change_conversation id (λ c. record c { messages_deque = f c.messages_deque }) m)
  messages-SameUsers id f m = change-SameUsers id _ m (λ c. refl)

  pub add-SameUsers :
      (id sender up at : ℕ) (text : String) (type : MessageType) (m : ConversationsManager D)
      → SameUsers m (add_message db settings id sender text type up at m).0
  unfolding add_message push_in_cache
  add-SameUsers id sender up at text type m =
      let u = upload_message db settings id sender text up type m in
      let message : ConversationMessageData = record {
        message_id = u.1.1;
        sender_id = sender;
        message = text;
        created_at = at;
        status = sent;
        message_type = type;
      } in
      let stored = upload-SameUsers id sender up text type m in
      let pushed = messages-SameUsers id (◌∷◌ message) u.0 in
      record {
        same_users = λ user j. ground (arith, stored.same_users user j, pushed.same_users user j);
        same_lists = ground (arith, stored.same_lists, pushed.same_lists);
      }

  update-SameUsers :
      (requester id message : ℕ) (text : String) (status : ConversationMessageStatus)
      (encrypted : Bool) (m : ConversationsManager D)
      → SameUsers m (update_in_db db settings requester id message text status encrypted m).0
  unfolding update_in_db
  update-SameUsers requester id message text status encrypted m = record {
    same_users = λ user j. ground arith;
    same_lists = ground arith;
  }

  pub edit-SameUsers :
      (requester id message : ℕ) (new : String) (m : ConversationsManager D)
      → SameUsers m (edit_message db settings requester id message new m)
  unfolding edit_message update_message_edit_in_db edit_in_cache
  edit-SameUsers requester id message new m =
      let u = (update_message_edit_in_db db settings requester id message new m).0 in
      let stored =
        update-SameUsers requester id message (stored_text db settings new) edited
          settings.is_encryption_enabled m in
      let changed = messages-SameUsers id (edit_first message 0 new) u in
      record {
        same_users = λ user j. ground (arith, stored.same_users user j, changed.same_users user j);
        same_lists = ground (arith, stored.same_lists, changed.same_lists);
      }

  pub delete-SameUsers :
      (requester id message : ℕ) (m : ConversationsManager D)
      → SameUsers m (delete_message db settings requester id message m).0
  unfolding delete_message update_message_delete_in_db delete_in_cache
  delete-SameUsers requester id message m =
      let u = (update_message_delete_in_db db settings requester id message m).0 in
      let stored =
        update-SameUsers requester id message deleted_message_placeholder deleted false m in
      let changed = messages-SameUsers id (delete_first message) u in
      record {
        same_users = λ user j. ground (arith, stored.same_users user j, changed.same_users user j);
        same_lists = ground (arith, stored.same_lists, changed.same_lists);
      }

  trim-users :
      (retain : ℕ) (c : ConversationData) → (trim_conversation retain c).users_ids ≡ c.users_ids
  unfolding trim_conversation
  trim-users retain c = ground arith

  pub tick-SameUsers :
      (interval retain : ℕ) (m : ConversationsManager D)
      → SameUsers m (post_second_tick interval retain m)
  unfolding post_second_tick cleanup_old_messages
  tick-SameUsers interval retain m = record {
    same_users = λ user j. ground (
      arith,
      takes_part-map_values user j (trim_conversation retain) m.conversation_id_to_conversation_data
          (trim-users retain),
    );
    same_lists = ground arith;
  }

  pub range-SameUsers :
      (c : ConversationData) (offset count : ℕ) (m : ConversationsManager D)
      → SameUsers m (get_conversation_messages_for_range db settings c offset count m).0
  unfolding get_conversation_messages_for_range
  range-SameUsers c offset count m =
      let n = length c.messages_deque in
      let u =
        download_conversation_messages db settings c.conversation_id n (offset + count - n) m in
      let changed = messages-SameUsers c.conversation_id (λ ms. ms ++ u.1) u.0 in
      record {
        same_users = λ user j. ground (arith, changed.same_users user j);
        same_lists = ground (arith, changed.same_lists);
      }
