-- ===== src/Conversations/Tests.antt =====
-- Runs of FConversationsManager over an unchanging history.
use squirrel_communicator.Prelude.{
  ℕ, ◌<◌, ◌≡◌, ◌≟◌, refl, ite, ℕ_discrete, true, false, List, [], ◌∷◌, take, drop, length, nat_key,
  arith, inr,
}
use squirrel_communicator.UnorderedMap.{find, insert_or_assign}
use squirrel_communicator.Conversations.{
  ConversationData, ConversationsManager, init, success, is_user_in_conversation, has_conversation,
}
use squirrel_communicator.Conversations.Shelf.{message, history, plain, shelf}
use squirrel_communicator.Conversations.Lookback.{is_message_in_conversation, tombstone}
use squirrel_communicator.Conversations.Messages.{
  update_message_edit_in_db, edit_message, delete_message,
}
use squirrel_communicator.Conversations.Messages.Changed.{
  changed_message, edited_to, message_with, messages_of,
}
use squirrel_communicator.Conversations.Create.{get_or_create_conversation, message_of_row}
use squirrel_communicator.Conversations.Create.Found.{caches_conversation_zero}
use squirrel_communicator.Conversations.Create.Listed.{takes_part, is_listed}
use squirrel_communicator.Conversations.Calls.{Call, open_with, run}
use squirrel_communicator.Conversations.Members.{participants_listed}
use squirrel_communicator.Conversations.Range.{get_conversation_messages_for_range}
use squirrel_communicator.Conversations.Range.Pages.{
  Reads, history_of, page_of_history, page_repeats,
}
use squirrel_communicator.Conversations.Retention.Trimmed.{ticks, tick_trims}
use mathlib.Core.Option

-- The two newest messages are cached.
abbrev conversation : ConversationData
conversation = record {
  conversation_id = 5;
  users_ids = 1 ∷ 2 ∷ [];
  user_id_to_message_last_read = [];
  messages_deque = message 13 "three" ∷ message 12 "two" ∷ [];
}

abbrev conversations : ConversationsManager Unit
conversations = record {
  conversation_id_to_conversation_data = (5, conversation) ∷ [];
  user_id_to_conversation = (1, 5 ∷ []) ∷ (2, 5 ∷ []) ∷ [];
  post_second_tick_counter = 0;
  cleanup_in_progress = false;
  database = tt;
}

shelf-Reads : Reads shelf 5 history
shelf-Reads offset limit d = (refl, refl)

page_of_history_example :
    (get_conversation_messages_for_range shelf plain conversation 2 1 conversations).1
    ≡ take 1 (drop 2 (history_of shelf plain history))
unfolding message_of_row
page_of_history_example =
    page_of_history shelf plain conversation 2 1 history conversations shelf-Reads refl
      (omega arith) (inr refl)

page_repeats_example :
    2 < length (get_conversation_messages_for_range shelf plain conversation 1 2 conversations).1
page_repeats_example =
    page_repeats shelf plain conversation 1 2 history conversations shelf-Reads (omega arith)
      (omega arith) (omega arith) (omega arith)

here : is_message_in_conversation 12 5 conversations ≡ true
unfolding is_message_in_conversation ℕ_discrete find
here = refl

taken : (update_message_edit_in_db shelf plain 1 5 12 "2" conversations).1 ≡ success
unfolding update_message_edit_in_db
taken = refl

gone : (delete_message shelf plain 1 5 12 conversations).1 ≡ true
unfolding delete_message ℕ_discrete
gone = refl

abbrev same : Discrete ℕ
same = ◌≟◌ {K = ℕ}

changed_message_example :
    (message_with 12 (messages_of 5 (edit_message shelf plain 1 5 12 "2" conversations))
      ≡ ite
          (same 5 5)
          (ite
            (same 12 12)
            (Option.map (edited_to "2") (message_with 12 (messages_of 5 conversations)))
            (message_with 12 (messages_of 5 conversations)))
          (message_with 12 (messages_of 5 conversations)))
    × (message_with 12 (messages_of 5 (delete_message shelf plain 1 5 12 conversations).0)
        ≡ ite
            (same 5 5)
            (ite
              (same 12 12)
              (Option.map tombstone (message_with 12 (messages_of 5 conversations)))
              (message_with 12 (messages_of 5 conversations)))
            (message_with 12 (messages_of 5 conversations)))
changed_message_example =
    changed_message shelf plain 1 5 12 5 12 "2" conversations conversations here taken gone

abbrev calls : List Call
calls = open_with (1 ∷ 2 ∷ []) ∷ []

takes : takes_part 2 5 (run shelf plain calls (init tt)).conversation_id_to_conversation_data ≡ true
unfolding takes_part run init ℕ_discrete insert_or_assign
takes = refl

participants_listed_example :
    is_listed 2 5 (run shelf plain calls (init tt)).user_id_to_conversation ≡ true
participants_listed_example = participants_listed shelf plain tt calls 2 5 takes

caches_conversation_zero_example :
    (is_user_in_conversation 3 0
        (get_or_create_conversation shelf plain (3 ∷ 4 ∷ []) conversations).0
      ≡ true)
    × (is_user_in_conversation 4 0
          (get_or_create_conversation shelf plain (3 ∷ 4 ∷ []) conversations).0
        ≡ true)
caches_conversation_zero_example =
    caches_conversation_zero shelf plain 3 4 conversations refl refl
      (unfold has_conversation ℕ_discrete in refl)

tick_trims_example :
    (messages_of 5 (ticks 59 60 1 conversations) ≡ messages_of 5 conversations)
    × (messages_of 5 (ticks 60 60 1 conversations) ≡ take 1 (messages_of 5 conversations))
tick_trims_example =
    tick_trims 60 1 5 59 conversations (omega arith) (omega arith) (omega arith) refl (omega arith)
