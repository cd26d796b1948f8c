-- ===== src/PrivateSocket/Messages/Outsiders.antt =====
-- What FPrivateSocketData lets a user do in a conversation that the user is not in.
use Prim.Native.String.{len}
use squirrel_communicator.Prelude.{ℕ, String, ◌≤◌, ◌≡◌, false, some, [], ◌∷◌, map, arith, nat_key}
use squirrel_communicator.UnorderedMap.{find, has_key, find-modify}
use squirrel_communicator.Server.{MessageType}
use squirrel_communicator.Server
use squirrel_communicator.Conversations.{
  ConversationMessageData, ConversationData, Encryption, ConversationDatabase, ConversationsManager,
  get_conversation, is_user_in_conversation, change_conversation, success, sent,
}
use squirrel_communicator.Conversations.Messages.{add_message, upload_message, push_in_cache}
use squirrel_communicator.Conversations.Messages.Changed.{messages_of}
use squirrel_communicator.PrivateSocket.Messages.{
  on_message, on_message_edit, on_message_delete, nothing,
}

abbrev pub text_of : ConversationMessageData → ℕ × String
text_of m = (m.sender_id, m.message)

module _ {D : Type 0} (db : ConversationDatabase D) (settings : Encryption) where
  upload-conversations :
      (id user up : ℕ) (content : String) (type : MessageType) (m : ConversationsManager D)
      → (upload_message db settings id user content up type
          m).0.conversation_id_to_conversation_data
        ≡ m.conversation_id_to_conversation_data
  unfolding upload_message
  upload-conversations id user up content type m = ground arith

  -- What a successful upload adds to the cache
  added-messages :
      (id user up at : ℕ) (content : String) (type : MessageType) (c : ConversationData)
      (m : ConversationsManager D)
      → find id m.conversation_id_to_conversation_data ≡ some c
      → (upload_message db settings id user content up type m).1.0 ≡ success
      → map text_of (messages_of id (add_message db settings id user content type up at m).0)
        ≡ (user, content) ∷ map text_of c.messages_deque
  unfolding add_message push_in_cache change_conversation
  added-messages id user up at content type c m e s =
      let u = upload_message db settings id user content up type m in
      let message : ConversationMessageData = record {
        message_id = u.1.1;
        sender_id = user;
        message = content;
        created_at = at;
        status = sent;
        message_type = type;
      } in
      let push =
        λ (c : ConversationData). record c { messages_deque = message ∷ c.messages_deque } in
      ground (
        arith,
        upload-conversations id user up content type m,
        find-modify id id push u.0.conversation_id_to_conversation_data,
      )

  -- The bug: a user who is in no way part of a cached conversation cannot edit or delete a message
  -- of it, but a text that is not too large is added to it as the newest message, if the upload
  -- succeeds, and is broadcast to the users of the conversation.
  pub outsider_posts :
      (max user id up at message : ℕ) (content new : String) (c : ConversationData)
      (m : ConversationsManager D)
      → find id m.conversation_id_to_conversation_data ≡ some c
      → has_key user c.users_ids ≡ false
      → len content ≤ max
      → (upload_message db settings id user content up Server.text m).1.0 ≡ success
      → let posted = on_message db settings max (some user) id content Server.text up at m in
        (on_message_edit db settings (some user) id message new m ≡ (m, nothing))
        × (on_message_delete db settings (some user) id message m ≡ (m, nothing))
        × (map (λ b. b.users) posted.1.broadcasts ≡ c.users_ids ∷ [])
        × (map text_of (messages_of id posted.0) ≡ (user, content) ∷ map text_of c.messages_deque)
  unfolding on_message on_message_edit on_message_delete is_user_in_conversation get_conversation
  outsider_posts max user id up at message content new c m e o l s = (
    ground arith,
    ground arith,
    ground arith,
    ground (arith, added-messages id user up at content Server.text c m e s),
  )
