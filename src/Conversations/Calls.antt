-- ===== src/Conversations/Calls.antt =====
-- Calls of FConversationsManager that change its state, one after another
-- (ProjectServer/Source/Private/Managers/ConversationsManager.cpp).
use squirrel_communicator.Prelude.{ℕ, String, none, some, List, [], ◌∷◌}
use squirrel_communicator.Server.{MessageType}
use squirrel_communicator.Conversations.{
  Encryption, ConversationDatabase, ConversationsManager, get_conversation,
}
use squirrel_communicator.Conversations.Messages.{add_message, edit_message, delete_message}
use squirrel_communicator.Conversations.Create.{
  get_or_create_conversation, get_last_conversation_by_user_id,
}
use squirrel_communicator.Conversations.Range.{get_conversation_messages_for_range}
use squirrel_communicator.Conversations.Retention.{post_second_tick}

pub data Call : Type 0 where
  open_with : List ℕ → Call
  list_last : ℕ → ℕ → ℕ → Call
  add : ℕ → ℕ → String → MessageType → ℕ → ℕ → Call
  edit : ℕ → ℕ → ℕ → String → Call
  delete : ℕ → ℕ → ℕ → Call
  load : ℕ → ℕ → ℕ → Call
  tick : ℕ → ℕ → Call

module _ {D : Type 0} (db : ConversationDatabase D) (settings : Encryption) where
  unfoldable pub step : Call → ConversationsManager D → ConversationsManager D
  unfolding get_or_create_conversation get_last_conversation_by_user_id add_message edit_message
      delete_message get_conversation get_conversation_messages_for_range post_second_tick
  step (open_with users) m = (get_or_create_conversation db settings users m).0
  step (list_last user offset limit) m =
      (get_last_conversation_by_user_id db settings user offset limit m).0
  step (add id sender text type uploaded_at cached_at) m =
      (add_message db settings id sender text type uploaded_at cached_at m).0
  step (edit requester id message new) m = edit_message db settings requester id message new m
  step (delete requester id message) m = (delete_message db settings requester id message m).0
  step (load id offset count) m = elim (get_conversation id m) [
    | none ↦ m
    | some c ↦ (get_conversation_messages_for_range db settings c offset count m).0
  ]
  step (tick interval retain_count) m = post_second_tick interval retain_count m

  unfoldable pub run : List Call → ConversationsManager D → ConversationsManager D
  unfolding step
  run [] m = m
  run (call ∷ calls) m = run calls (step call m)
