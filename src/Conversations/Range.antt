-- ===== src/Conversations/Range.antt =====
-- Messages by range in FConversationsManager
-- (ProjectServer/Source/Private/Managers/ConversationsManager.cpp), and CDeque
-- (ProjectServer/Source/Utils/EngineCompat.h).
pub mod Pages
use squirrel_communicator.Prelude.{
  ℕ, ◌+◌, ◌-◌, ◌^◌, Bool, true, false, Option, none, some, List, [], ◌∷◌, ◌++◌, ltb, leb, take,
  drop, length, if◌then◌else◌, ◌==◌,
}
use squirrel_communicator.Conversations.{
  ConversationMessageData, ConversationData, Encryption, ConversationDatabase, ConversationsManager,
  change_conversation, get_conversation,
}
use squirrel_communicator.Conversations.Create.{download_conversation_messages}

-- CDeque::GetRange, for sums below 2^64
unfoldable pub get_range {ℓ} : {A : Type ℓ} → ℕ → ℕ → List A → List A
get_range offset count xs =
    let end = if ltb (length xs) (offset + count) then length xs else offset + count in
    if leb (length xs) offset then [] else take (end - offset) (drop offset xs)

-- CDeque::PeekFirst
unfoldable pub peek_first {ℓ} : {A : Type ℓ} → ℕ → List A → List A
unfolding get_range
peek_first count = get_range 0 count

module _ {D : Type 0} (db : ConversationDatabase D) (settings : Encryption) where
  -- GetConversationMessagesForRange, on a conversation of the cache, for an offset and a count that
  -- are not negative and whose sum is an int32
  unfoldable pub get_conversation_messages_for_range :
      ConversationData
      → ℕ
      → ℕ
      → ConversationsManager D
      → ConversationsManager D × List ConversationMessageData
  unfolding get_range download_conversation_messages change_conversation
  get_conversation_messages_for_range c offset count m =
      let current = length c.messages_deque in
      let target = offset + count in
      let (m', downloaded) =
        download_conversation_messages db settings c.conversation_id current (target - current) m in
      let deque = c.messages_deque ++ downloaded in
      let m'' =
        change_conversation c.conversation_id
          (λ old. record old { messages_deque = old.messages_deque ++ downloaded }) m' in
      if ltb current target
      then (
        m'',
        if current == offset then downloaded else downloaded ++ get_range offset current deque,
      )
      else (m, get_range offset count c.messages_deque)
