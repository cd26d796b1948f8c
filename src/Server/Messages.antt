-- ===== src/Server/Messages.antt =====
-- FServer's message cache (ProjectServer/Source/Private/Managers/Server.cpp): for each channel its
-- messages, the oldest first.
pub mod Pages
pub mod Deletion
use squirrel_communicator.Prelude.{
  ℕ, ◌-◌, String, Bool, true, false, ◌||◌, Option, none, some, List, [], ◌∷◌, ◌++◌, ltb, leb, ◌==◌,
  if◌then◌else◌, length, drop, nat_key, zero, suc,
}
use squirrel_communicator.UnorderedMap.{UnorderedMap, find, insert_or_assign, map_values}
use squirrel_communicator.Server.{Server, ServerMessage, MessageType}
use mathlib.Core.List.{reverse}
use mathlib.Core.Option

abbrev pub deleted_message_placeholder : String
deleted_message_placeholder = "CONTENT DELETED"

-- ChannelMessages[id], which makes an empty vector for a new channel
abbrev pub messages_of : ℕ → Server → List ServerMessage
messages_of channel_id s = Option.get_or (find channel_id s.channel_messages) []

abbrev pub set_messages : ℕ → List ServerMessage → Server → Server
set_messages channel_id ms s = record s {
  channel_messages = insert_or_assign channel_id ms s.channel_messages;
}

-- AddMessage
unfoldable pub add_message : ServerMessage → Server → Server
add_message m s = set_messages m.channel_id (messages_of m.channel_id s ++ m ∷ []) s

-- std::find_if by the message's id, and what is done to the first such message: `none` if there is
-- none, else the vector after it
unfoldable pub change_first :
    ℕ
    → (ServerMessage → List ServerMessage → List ServerMessage)
    → List ServerMessage
    → Option (List ServerMessage)
change_first message_id change [] = none
change_first message_id change (m ∷ ms) =
    let rest = change_first message_id change ms in
    if m.message_id == message_id
    then some (change m ms)
    else elim rest [ none ↦ none | some ms' ↦ some (m ∷ ms') ]

-- The change made to the vector of a channel, if there is one
unfoldable pub change_message :
    ℕ → ℕ → (ServerMessage → List ServerMessage → List ServerMessage) → Server → Server × Bool
unfolding change_first
change_message channel_id message_id change s = elim (find channel_id s.channel_messages) [
  | none ↦ (s, false)
  | some ms ↦ elim (change_first message_id change ms) [
    | none ↦ (s, false)
    | some ms' ↦ (set_messages channel_id ms' s, true)
  ]
]

-- RemoveMessage
unfoldable pub remove_message : ℕ → ℕ → Server → Server × Bool
unfolding change_message
remove_message channel_id message_id s = change_message channel_id message_id (λ m ms. ms) s

abbrev pub tombstone : ServerMessage → ServerMessage
tombstone m = record m { content = deleted_message_placeholder; message_type = MessageType.text }

-- MarkMessageDeleted
unfoldable pub mark_message_deleted : ℕ → ℕ → Server → Server × Bool
unfolding change_message
mark_message_deleted channel_id message_id s =
    change_message channel_id message_id (λ m ms. tombstone m ∷ ms) s

-- PrependMessages
unfoldable pub prepend_messages : ℕ → List ServerMessage → Server → Server
prepend_messages channel_id [] s = s
prepend_messages channel_id (m ∷ ms) s =
    set_messages channel_id ((m ∷ ms) ++ messages_of channel_id s) s

-- TrimChannelMessagesToCount, one vector
unfoldable pub trim : ℕ → List ServerMessage → List ServerMessage
trim retain_count ms =
    if ltb retain_count (length ms) then drop (length ms - retain_count) ms else ms

-- TrimChannelMessagesToCount; a count that is not positive is 0 here
unfoldable pub trim_channel_messages_to_count : ℕ → Server → Server
unfolding trim
trim_channel_messages_to_count retain_count s =
    if leb retain_count 0
    then s
    else record s { channel_messages = map_values (trim retain_count) s.channel_messages }

-- GetChannelMessages, the loop from the newest message on; `room` is what Limit leaves
unfoldable pub collect_page : ℕ → ℕ → List ServerMessage → List ServerMessage
collect_page before_timestamp zero ms = []
collect_page before_timestamp (suc room) [] = []
collect_page before_timestamp (suc room) (m ∷ ms) =
    let taken = m ∷ collect_page before_timestamp room ms in
    let skipped = collect_page before_timestamp (suc room) ms in
    if before_timestamp == 0 || ltb m.created_at before_timestamp then taken else skipped

-- GetChannelMessages
unfoldable pub get_channel_messages : ℕ → ℕ → ℕ → Server → List ServerMessage
unfolding collect_page
get_channel_messages channel_id before_timestamp limit s =
    elim (find channel_id s.channel_messages) [
      | none ↦ []
      | some ms ↦ collect_page before_timestamp limit (reverse ms)
    ]
