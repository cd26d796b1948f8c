-- ===== src/Conversations/Messages/Changed.antt =====
-- What editing and deleting do to the messages of a conversation of FConversationsManager.
use squirrel_communicator.Prelude.{
  ℕ, ◌+◌, String, ◌≡◌, refl, Bool, true, false, Option, none, some, List, [], ◌∷◌, ◌==◌, arith, ite,
  ◌≟◌, nat_key, if◌then◌else◌, Option-cases, inl, inr,
}
use squirrel_communicator.UnorderedMap.{find, find-modify}
use squirrel_communicator.Conversations.{
  ConversationMessageStatus, ConversationMessageData, ConversationData, Encryption,
  ConversationDatabase, ConversationsManager, edited, deleted, get_conversation,
  change_conversation, success,
}
use squirrel_communicator.Conversations.Lookback.{
  deleted_message_placeholder, look_back, edit_first, delete_first, tombstone,
  is_message_in_conversation,
}
use squirrel_communicator.Conversations.Messages.{
  edit_in_cache, delete_in_cache, update_in_db, update_message_edit_in_db,
  update_message_delete_in_db, edit_message, delete_message, stored_text,
}
use mathlib.Core.Option

-- The first message with an id
unfoldable pub message_with : ℕ → List ConversationMessageData → Option ConversationMessageData
message_with id [] = none
message_with id (m ∷ ms) = if m.message_id == id then some m else message_with id ms

abbrev pub edited_to : String → ConversationMessageData → ConversationMessageData
edited_to new m = record m { message = new; status = edited }

-- The search that allows an edit finds the message that the edit changes.
pub message-edit_first :
    (id j n : ℕ) (new : String) (ms : List ConversationMessageData)
    → look_back id n ms ≡ true
    → message_with j (edit_first id 0 new ms)
      ≡ ite (id ≟ j) (Option.map (edited_to new) (message_with id ms)) (message_with j ms)
unfolding message_with edit_first look_back
message-edit_first id j n new [] e = cc
message-edit_first id j n new (m ∷ ms) e = ground (arith, message-edit_first id j (n + 1) new ms)

pub message-delete_first :
    (id j : ℕ) (ms : List ConversationMessageData)
    → message_with j (delete_first id ms)
      ≡ ite (id ≟ j) (Option.map tombstone (message_with id ms)) (message_with j ms)
unfolding message_with delete_first
message-delete_first id j [] = ground arith
message-delete_first id j (m ∷ ms) = ground (arith, message-delete_first id j ms)

-- The cached messages of a conversation
abbrev pub messages_of : {D : Type 0} → ℕ → ConversationsManager D → List ConversationMessageData
messages_of id m = elim (find id m.conversation_id_to_conversation_data) [
  | none ↦ []
  | some c ↦ c.messages_deque
]

module _ {D : Type 0} where
  messages-change :
      (id k : ℕ) (f : List ConversationMessageData → List ConversationMessageData)
      (m : ConversationsManager D)
      → f [] ≡ []
      → messages_of k
          (change_conversation id (λ c. record c { messages_deque = f c.messages_deque }) m)
        ≡ ite (id ≟ k) (f (messages_of id m)) (messages_of k m)
  unfolding change_conversation
  messages-change id k f m e =
      let change = λ (c : ConversationData). record c { messages_deque = f c.messages_deque } in
      let cs = m.conversation_id_to_conversation_data in
      elim (Option-cases (find id cs)) [
        | inl n ↦ ground (arith, find-modify id k change cs)
        | inr (c, s) ↦ ground (arith, find-modify id k change cs)
      ]

  looked_back :
      (message id : ℕ) (m : ConversationsManager D)
      → is_message_in_conversation message id m ≡ true
      → look_back message 0 (messages_of id m) ≡ true
  unfolding is_message_in_conversation get_conversation
  looked_back message id m e =
      elim (Option-cases (find id m.conversation_id_to_conversation_data)) [
        | inl n ↦ ground arith
        | inr (c, s) ↦ ground arith
      ]

  -- The messages after a change in the cache
  messages-edit_in_cache :
      (id k message : ℕ) (new : String) (m : ConversationsManager D)
      → messages_of k (edit_in_cache id message new m)
        ≡ ite (id ≟ k) (edit_first message 0 new (messages_of id m)) (messages_of k m)
  unfolding edit_in_cache edit_first
  messages-edit_in_cache id k message new m = messages-change id k (edit_first message 0 new) m refl

  messages-delete_in_cache :
      (id k message : ℕ) (m : ConversationsManager D)
      → messages_of k (delete_in_cache id message m)
        ≡ ite (id ≟ k) (delete_first message (messages_of id m)) (messages_of k m)
  unfolding delete_in_cache delete_first
  messages-delete_in_cache id k message m = messages-change id k (delete_first message) m refl

module _ {D : Type 0} (db : ConversationDatabase D) (settings : Encryption) where
  updated-messages :
      (requester id message k : ℕ) (text : String) (status : ConversationMessageStatus)
      (encrypted : Bool) (m : ConversationsManager D)
      → messages_of k (update_in_db db settings requester id message text status encrypted m).0
        ≡ messages_of k m
  unfolding update_in_db
  updated-messages requester id message k text status encrypted m = ground arith

  edited-messages :
      (requester id message k : ℕ) (new : String) (m : ConversationsManager D)
      → (update_message_edit_in_db db settings requester id message new m).1 ≡ success
      → messages_of k (edit_message db settings requester id message new m)
        ≡ ite (id ≟ k) (edit_first message 0 new (messages_of id m)) (messages_of k m)
  unfolding edit_message update_message_edit_in_db
  edited-messages requester id message k new m taken =
      let text = stored_text db settings new in
      let encrypted = settings.is_encryption_enabled in
      let u = (update_message_edit_in_db db settings requester id message new m).0 in
      ground (
        arith,
        messages-edit_in_cache id k message new u,
        updated-messages requester id message k text edited encrypted m,
        updated-messages requester id message id text edited encrypted m,
      )

  deleted-messages :
      (requester id message k : ℕ) (m : ConversationsManager D)
      → (delete_message db settings requester id message m).1 ≡ true
      → messages_of k (delete_message db settings requester id message m).0
        ≡ ite (id ≟ k) (delete_first message (messages_of id m)) (messages_of k m)
  unfolding delete_message update_message_delete_in_db
  deleted-messages requester id message k m gone =
      let u = (update_message_delete_in_db db settings requester id message m).0 in
      let text = deleted_message_placeholder in
      ground (
        arith,
        messages-delete_in_cache id k message u,
        updated-messages requester id message k text deleted false m,
        updated-messages requester id message id text deleted false m,
      )

  -- When the database takes an edit of a message that the search finds in its conversation, and a
  -- deletion in whatever other state: the first message with the id has the new text and is edited,
  -- or has the placeholder and is deleted, and all other messages of any conversation stay.
  pub changed_message :
      (requester id message k j : ℕ) (new : String) (m n : ConversationsManager D)
      → is_message_in_conversation message id m ≡ true
      → (update_message_edit_in_db db settings requester id message new m).1 ≡ success
      → (delete_message db settings requester id message n).1 ≡ true
      → (message_with j (messages_of k (edit_message db settings requester id message new m))
          ≡ ite
              (id ≟ k)
              (ite
                (message ≟ j)
                (Option.map (edited_to new) (message_with message (messages_of id m)))
                (message_with j (messages_of id m)))
              (message_with j (messages_of k m)))
        × (message_with j (messages_of k (delete_message db settings requester id message n).0)
            ≡ ite
                (id ≟ k)
                (ite
                  (message ≟ j)
                  (Option.map tombstone (message_with message (messages_of id n)))
                  (message_with j (messages_of id n)))
                (message_with j (messages_of k n)))
  changed_message requester id message k j new m n found taken gone = (
    ground (
      arith,
      edited-messages requester id message k new m taken,
      message-edit_first message j 0 new (messages_of id m) (looked_back message id m found),
    ),
    ground (
      arith,
      deleted-messages requester id message k n gone,
      message-delete_first message j (messages_of id n),
    ),
  )
