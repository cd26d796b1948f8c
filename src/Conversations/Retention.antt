-- ===== src/Conversations/Retention.antt =====
-- The retention of messages in FConversationsManager
-- (ProjectServer/Source/Private/Managers/ConversationsManager.cpp).
pub mod Trimmed
use squirrel_communicator.Prelude.{
  ℕ, ◌+◌, ◌||◌, Bool, true, false, List, ltb, leb, take, length, if◌then◌else◌, ltb_i32, add_i32,
  not, nat_key,
}
use squirrel_communicator.UnorderedMap.{map_values}
use squirrel_communicator.Conversations.{ConversationData, ConversationsManager}

-- CleanupOldMessages, one conversation
unfoldable pub trim_conversation : ℕ → ConversationData → ConversationData
trim_conversation retain_count c =
    if ltb retain_count (length c.messages_deque)
    then record c { messages_deque = take retain_count c.messages_deque }
    else c

module _ {D : Type 0} where
  -- CleanupOldMessages, for an int32 count: nothing while another run is in progress. The flag is
  -- false again at the end.
  unfoldable pub cleanup_old_messages : ℕ → ConversationsManager D → ConversationsManager D
  unfolding trim_conversation
  cleanup_old_messages retain_count m =
      if m.cleanup_in_progress
      then m
      else if not (ltb_i32 0 retain_count)
      then record m { cleanup_in_progress = false }
      else record m {
        conversation_id_to_conversation_data =
            map_values (trim_conversation retain_count) m.conversation_id_to_conversation_data;
        cleanup_in_progress = false;
      }

  -- PostSecondTick, for the two int32 settings
  unfoldable pub post_second_tick : ℕ → ℕ → ConversationsManager D → ConversationsManager D
  unfolding cleanup_old_messages
  post_second_tick interval retain_count m =
      let counter = add_i32 m.post_second_tick_counter 1 in
      if not (ltb_i32 0 interval) || not (ltb_i32 0 retain_count)
      then m
      else if not (ltb_i32 counter interval)
      then cleanup_old_messages retain_count (record m { post_second_tick_counter = 0 })
      else record m { post_second_tick_counter = counter }
