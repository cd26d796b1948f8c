-- ===== src/Conversations/Lookback.antt =====
-- The searches of FConversationsManager in the deque of a conversation
-- (ProjectServer/Source/Private/Managers/ConversationsManager.cpp).
use squirrel_communicator.Prelude.{
  ℕ, ◌+◌, String, Bool, true, false, ◌||◌, none, some, List, [], ◌∷◌, ◌==◌, ltb, leb, if◌then◌else◌,
}
use squirrel_communicator.Conversations.{
  ConversationMessageData, ConversationsManager, edited, deleted, get_conversation,
}

abbrev pub max_lookback : ℕ
max_lookback = 50

-- The loop of IsMessageInConversation
unfoldable pub look_back : ℕ → ℕ → List ConversationMessageData → Bool
look_back id checked_count [] = false
look_back id checked_count (m ∷ ms) =
    let rest = look_back id (checked_count + 1) ms in
    if m.message_id == id
    then true
    else if ltb m.message_id id || ltb max_lookback (checked_count + 1)
    then false
    else rest

-- IsMessageInConversation
unfoldable pub is_message_in_conversation : {D : Type 0} → ℕ → ℕ → ConversationsManager D → Bool
unfolding look_back get_conversation
is_message_in_conversation message id m = elim (get_conversation id m) [
  | none ↦ false
  | some c ↦ look_back message 0 c.messages_deque
]

-- The loop of EditMessage, whose CurrentLoopback stays 0
unfoldable pub edit_first :
    ℕ → ℕ → String → List ConversationMessageData → List ConversationMessageData
edit_first id current_loopback new [] = []
edit_first id current_loopback new (m ∷ ms) =
    let rest = edit_first id current_loopback new ms in
    if m.message_id == id
    then record m { message = new; status = edited } ∷ ms
    else if ltb m.message_id id || leb max_lookback current_loopback
    then m ∷ ms
    else m ∷ rest

abbrev pub deleted_message_placeholder : String
deleted_message_placeholder = "CONTENT DELETED"

abbrev pub tombstone : ConversationMessageData → ConversationMessageData
tombstone m = record m { message = deleted_message_placeholder; status = deleted }

-- The loop of DeleteMessage
unfoldable pub delete_first : ℕ → List ConversationMessageData → List ConversationMessageData
delete_first id [] = []
delete_first id (m ∷ ms) =
    let rest = delete_first id ms in if m.message_id == id then tombstone m ∷ ms else m ∷ rest
