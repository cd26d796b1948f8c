-- ===== src/Conversations/Range/Pages.antt =====
-- What GetConversationMessagesForRange answers, against the history in the database.
use squirrel_communicator.Prelude.{
  ℕ, ◌+◌, ◌-◌, ◌≤◌, ◌<◌, ◌≡◌, ◌⊎◌, ap, true, List, ◌++◌, map, take, drop, length, length-drop,
  length-append, length-map, slice-past, slice-rest, slice-take, length-take, map-take, map-drop,
  arith, if◌then◌else◌, ◌==◌, inl, inr, nat_key,
}
use squirrel_communicator.Conversations.{
  ConversationMessageData, ConversationData, Encryption, MessageRow, ConversationDatabase,
  ConversationsManager,
}
use squirrel_communicator.Conversations.Create.{download_conversation_messages, message_of_row}
use squirrel_communicator.Conversations.Range.{get_range, get_conversation_messages_for_range}

-- What a query with LIMIT and OFFSET answers on an unchanging table
abbrev pub Reads : {D : Type 0} → ConversationDatabase D → ℕ → List MessageRow → Type 0
Reads {D = D} db id history =
    (offset limit : ℕ) (d : D)
    → ((db.connect d).1 ≡ true)
      × (db.select_messages id offset limit d ≡ take limit (drop offset history))

get_range_lem :
    {A : Type 0} (offset count : ℕ) (xs : List A)
    → get_range offset count xs ≡ take count (drop offset xs)
unfolding get_range
get_range_lem offset count xs =
    let total = length xs in
    let counted : (offset + count) - offset ≡ count = omega arith in
    ground (
      arith,
      slice-past offset count xs,
      slice-rest offset count xs,
      slice-rest offset (total - offset) xs,
      ap (λ n. take n (drop offset xs)) counted,
    )

module _ {D : Type 0} (db : ConversationDatabase D) (settings : Encryption) where
  -- The decrypted history of a conversation
  abbrev pub history_of : List MessageRow → List ConversationMessageData
  history_of = map (message_of_row settings)

  downloaded :
      (id offset limit : ℕ) (history : List MessageRow) (m : ConversationsManager D)
      → Reads db id history
      → (download_conversation_messages db settings id offset limit m).1
        ≡ take limit (drop offset (history_of history))
  unfolding download_conversation_messages
  downloaded id offset limit history m r = ground (
    arith,
    r offset limit (db.connect m.database).0,
    (r offset limit m.database).0,
    map-take (message_of_row settings) limit (drop offset history),
    map-drop (message_of_row settings) offset history,
  )

  -- The conversation holds the newest n messages of the history.
  abbrev pub IsPrefix : ConversationData → List MessageRow → Type 0
  IsPrefix c history = c.messages_deque ≡ take (length c.messages_deque) (history_of history)

  cached_page :
      (c : ConversationData) (offset count : ℕ) (history : List MessageRow)
      (m : ConversationsManager D)
      → IsPrefix c history
      → offset + count ≤ length c.messages_deque
      → (get_conversation_messages_for_range db settings c offset count m).1
        ≡ take count (drop offset (history_of history))
  unfolding get_conversation_messages_for_range
  cached_page c offset count history m p h =
      let deque = c.messages_deque in
      ground (
        arith,
        get_range_lem offset count deque,
        ap (λ xs. take count (drop offset xs)) p,
        slice-take offset count (length deque) (history_of history) h,
      )

  -- What the database is asked for, from the end of the deque to the end of the page
  abbrev missing : ConversationData → ℕ → ℕ → ConversationsManager D → List ConversationMessageData
  missing c offset count m =
      let current = length c.messages_deque in
      (download_conversation_messages db settings c.conversation_id current
        (offset + count - current) m).1

  page_past_deque :
      (c : ConversationData) (offset count : ℕ) (m : ConversationsManager D)
      → length c.messages_deque < offset + count
      → (get_conversation_messages_for_range db settings c offset count m).1 ≡ (
          if length c.messages_deque == offset
          then missing c offset count m
          else missing c offset count m
            ++ take
                (length c.messages_deque)
                (drop offset (c.messages_deque ++ missing c offset count m)))
  unfolding get_conversation_messages_for_range
  page_past_deque c offset count m h = ground (
    arith,
    get_range_lem offset (length c.messages_deque) (c.messages_deque ++ missing c offset count m),
  )

  next_page :
      (c : ConversationData) (count : ℕ) (history : List MessageRow) (m : ConversationsManager D)
      → Reads db c.conversation_id history
      → 0 < count
      → (get_conversation_messages_for_range db settings c (length c.messages_deque) count m).1
        ≡ take count (drop (length c.messages_deque) (history_of history))
  next_page c count history m r h =
      let n = length c.messages_deque in
      let counted : n + count - n ≡ count = omega arith in
      ground (
        arith,
        page_past_deque c n count m (omega arith),
        downloaded c.conversation_id n (n + count - n) history m r,
        ap (λ k. take k (drop n (history_of history))) counted,
      )

  -- When the database's history of a conversation does not change, the cached messages are the
  -- newest of it, and the page lies in the cache or starts where the cache ends: the answer is the
  -- page of the history.
  pub page_of_history :
      (c : ConversationData) (offset count : ℕ) (history : List MessageRow)
      (m : ConversationsManager D)
      → Reads db c.conversation_id history
      → IsPrefix c history
      → 0 < count
      → (offset + count ≤ length c.messages_deque) ⊎ (offset ≡ length c.messages_deque)
      → (get_conversation_messages_for_range db settings c offset count m).1
        ≡ take count (drop offset (history_of history))
  page_of_history c offset count history m r p h (inl k) = cached_page c offset count history m p k
  page_of_history c offset count history m r p h (inr e) = rw e (next_page c count history m r h)

  -- When a page starts inside the cached messages, after the newest, and ends past them, and the
  -- database has all that is missing, the answer has more messages than were asked for.
  pub page_repeats :
      (c : ConversationData) (offset count : ℕ) (history : List MessageRow)
      (m : ConversationsManager D)
      → Reads db c.conversation_id history
      → 0 < offset
      → offset < length c.messages_deque
      → length c.messages_deque < offset + count
      → offset + count ≤ length history
      → count < length (get_conversation_messages_for_range db settings c offset count m).1
  page_repeats c offset count history m r o i p f =
      let n = length c.messages_deque in
      let k = offset + count - n in
      let x = missing c offset count m in
      let tail = drop offset (c.messages_deque ++ x) in
      let e = ap length (page_past_deque c offset count m p) in
      let all = history_of history in
      let l : length x ≡ k = omega (
        arith,
        ap length (downloaded c.conversation_id n k history m r),
        length-take k (drop n all),
        length-drop n all,
        length-map (message_of_row settings) history,
      ) in
      ground (
        arith,
        length-append x (take n tail),
        length-take n tail,
        length-drop offset (c.messages_deque ++ x),
        length-append c.messages_deque x,
      )
