-- ===== src/Conversations/Retention/Trimmed.antt =====
-- When FConversationsManager trims the messages in its cache.
use squirrel_communicator.Prelude.{
  ℕ, zero, suc, ◌+◌, ◌^◌, ◌<◌, ◌≡◌, false, take, take-all, take-nil, arith, nat_key, Option-cases,
  inl, inr,
}
use squirrel_communicator.UnorderedMap.{find, find-map_values}
use squirrel_communicator.Conversations.{
  ConversationData, ConversationMessageData, ConversationsManager,
}
use squirrel_communicator.Conversations.Messages.Changed.{messages_of}
use squirrel_communicator.Conversations.Retention.{
  trim_conversation, cleanup_old_messages, post_second_tick,
}

-- As many ticks
unfoldable pub ticks : {D : Type 0} → ℕ → ℕ → ℕ → ConversationsManager D → ConversationsManager D
unfolding post_second_tick
ticks zero interval retain m = m
ticks (suc n) interval retain m = ticks n interval retain (post_second_tick interval retain m)

messages-trim :
    (retain : ℕ) (c : ConversationData)
    → (trim_conversation retain c).messages_deque ≡ take retain c.messages_deque
unfolding trim_conversation
messages-trim retain c = ground (arith, take-all retain c.messages_deque)

module _ {D : Type 0} (interval retain : ℕ) where
  messages-cleanup :
      (k : ℕ) (m : ConversationsManager D)
      → 0 < retain
      → retain < 2 ^ 31
      → m.cleanup_in_progress ≡ false
      → messages_of k (cleanup_old_messages retain m) ≡ take retain (messages_of k m)
  unfolding cleanup_old_messages
  messages-cleanup k m p q e =
      let cs = m.conversation_id_to_conversation_data in
      let trimmed = find-map_values (trim_conversation retain) k cs in
      elim (Option-cases (find k cs)) [
        | inl n ↦ ground (arith, trimmed, take-nil {A = ConversationMessageData} retain)
        | inr (c, s) ↦ ground (arith, trimmed, messages-trim retain c)
      ]

  -- With both settings positive, the messages are trimmed by the tick that brings the counter to
  -- the interval, and by none before.
  pub tick_trims :
      (k n : ℕ) (m : ConversationsManager D)
      → 0 < retain
      → retain < 2 ^ 31
      → interval < 2 ^ 31
      → m.cleanup_in_progress ≡ false
      → m.post_second_tick_counter + suc n ≡ interval
      → (messages_of k (ticks n interval retain m) ≡ messages_of k m)
        × (messages_of k (ticks (suc n) interval retain m) ≡ take retain (messages_of k m))
  unfolding ticks post_second_tick
  tick_trims k zero m p q i e c =
      let reset : ConversationsManager D = record m { post_second_tick_counter = 0 } in
      ground (arith, messages-cleanup k reset)
  tick_trims k (suc n) m p q i e c =
      let next : ConversationsManager D = record m {
        post_second_tick_counter = m.post_second_tick_counter + 1;
      } in
      ground (arith, tick_trims k n next)
