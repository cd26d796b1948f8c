-- ===== src/Conversations/Members.antt =====
-- After every sequence of calls of FConversationsManager, its cached conversations are listed for
-- their users.
use squirrel_communicator.Prelude.{
  ℕ, ◌≡◌, true, not, ltb, List, [], ◌∷◌, ◌++◌, nat_key, if◌then◌else◌, add_i32, map, keep,
  Option-cases, Bool-cases, inl, inr,
}
use squirrel_communicator.UnorderedMap.{find}
use squirrel_communicator.Conversations.{
  Encryption, ConversationDatabase, ConversationsManager, init, add_conversation_to_cache,
  has_conversation, get_conversation,
}
use squirrel_communicator.Conversations.Create.{
  get_or_create_conversation, get_last_conversation_by_user_id, find_conversation,
  find_conversation_2_ids, create_conversation, insert_participants, download_conversation,
  download_each, download_conversations_from_range, download_conversation_messages,
  download_conversation_participants, unread,
}
use squirrel_communicator.Conversations.Create.Listed.{
  IsListed, SameUsers-IsListed, add-IsListed, is_listed, takes_part,
}
use squirrel_communicator.Conversations.Calls.{
  Call, open_with, list_last, add, edit, delete, load, tick, step, run,
}
use squirrel_communicator.Conversations.Kept.{
  messages-SameUsers, add-SameUsers, edit-SameUsers, delete-SameUsers, tick-SameUsers,
  range-SameUsers,
}

module _ {D : Type 0} (db : ConversationDatabase D) (settings : Encryption) where
  find-Listed :
      (users : List ℕ) (m : ConversationsManager D)
      → IsListed m
      → IsListed (find_conversation db settings users m).0
  unfolding find_conversation find_conversation_2_ids
  find-Listed [] m h = h
  find-Listed (u ∷ []) m h = h
  find-Listed (u ∷ v ∷ []) m h =
      add-IsListed (db.find_conversation_2 u v m.database) (u ∷ v ∷ []) (unread (u ∷ v ∷ [])) m h
  find-Listed (u ∷ v ∷ w ∷ us) m h = h

  create-Listed :
      (users : List ℕ) (m : ConversationsManager D)
      → IsListed m
      → IsListed (create_conversation db settings users m).0
  unfolding create_conversation
  create-Listed users m h =
      let (d, is_new) = db.insert_conversation m.database in
      let id = db.last_insert_id d in
      let m' : ConversationsManager D = record m {
        database = insert_participants db settings id users d;
      } in
      elim (Bool-cases (ltb 0 id)) [
        | inl e ↦ rw e (add-IsListed id users (unread users) m' h)
        | inr e ↦ rw e h
      ]

  get_or_create-Listed :
      (users : List ℕ) (m : ConversationsManager D)
      → IsListed m
      → IsListed (get_or_create_conversation db settings users m).0
  unfolding get_or_create_conversation
  get_or_create-Listed users m h =
      let (d, is_connected) = db.connect m.database in
      let m' : ConversationsManager D = record m { database = d } in
      let (m'', found) = find_conversation db settings users m' in
      elim (Bool-cases is_connected) [
        | inr e ↦ rw e h
        | inl e ↦ elim (Bool-cases (ltb 0 found)) [
          | inl f ↦ rw (e, f) (find-Listed users m' h)
          | inr f ↦ rw (e, f) (create-Listed users m'' (find-Listed users m' h))
        ]
      ]

  download-Listed :
      (id : ℕ) (m : ConversationsManager D)
      → IsListed m
      → IsListed (download_conversation db settings id m)
  unfolding download_conversation
  download-Listed id m h =
      let (m₁, participants) = download_conversation_participants db settings id m in
      let users = map (λ p. p.0) participants in
      let m₂ = add_conversation_to_cache id users participants m₁ in
      let (m₃, messages) = download_conversation_messages db settings id 0 40 m₂ in
      let added =
        add-IsListed id users participants m₁ (unfold download_conversation_participants in h) in
      SameUsers-IsListed m₃ _ (messages-SameUsers db settings id (λ ms. ms ++ messages) m₃)
        (unfold download_conversation_messages in added)

  each-Listed :
      (ids : List ℕ) (m : ConversationsManager D)
      → IsListed m
      → IsListed (download_each db settings ids m)
  unfolding download_each
  each-Listed [] m h = h
  each-Listed (id ∷ ids) m h =
      each-Listed ids (download_conversation db settings id m) (download-Listed id m h)

  from_range-Listed :
      (user offset limit : ℕ) (m : ConversationsManager D)
      → IsListed m
      → IsListed (download_conversations_from_range db settings user offset limit m)
  unfolding download_conversations_from_range
  from_range-Listed user offset limit m h =
      let (d, is_connected) = db.connect m.database in
      let m' : ConversationsManager D = record m { database = d } in
      let ids = if is_connected then db.select_conversations user offset limit d else [] in
      each-Listed (keep (λ id. not (has_conversation id m')) ids) m' h

  step-Listed :
      (call : Call) (m : ConversationsManager D) → IsListed m → IsListed (step db settings call m)
  unfolding step get_last_conversation_by_user_id download_conversations_from_range
  step-Listed (open_with users) m h = get_or_create-Listed users m h
  step-Listed (list_last user offset limit) m h =
      from_range-Listed user 0 (add_i32 offset limit) m h
  step-Listed (add id sender text type up at) m h =
      SameUsers-IsListed m _ (add-SameUsers db settings id sender up at text type m) h
  step-Listed (edit requester id message new) m h =
      SameUsers-IsListed m _ (edit-SameUsers db settings requester id message new m) h
  step-Listed (delete requester id message) m h =
      SameUsers-IsListed m _ (delete-SameUsers db settings requester id message m) h
  step-Listed (load id offset count) m h = elim (Option-cases (get_conversation id m)) [
    | inl e ↦ rw (e, step) h
    | inr (c, e) ↦
        rw (e, step) (SameUsers-IsListed m _ (range-SameUsers db settings c offset count m) h)
  ]
  step-Listed (tick interval retain) m h =
      SameUsers-IsListed m _ (tick-SameUsers db settings interval retain m) h

  run-Listed :
      (calls : List Call) (m : ConversationsManager D)
      → IsListed m
      → IsListed (run db settings calls m)
  unfolding run
  run-Listed [] m h = h
  run-Listed (call ∷ calls) m h = run-Listed calls (step db settings call m) (step-Listed call m h)

  -- Whatever calls are made, starting from a new manager and whatever the database answers: a
  -- conversation in the cache is listed for each of its users.
  pub participants_listed :
      (d : D) (calls : List Call) (user id : ℕ)
      → takes_part user id (run db settings calls (init d)).conversation_id_to_conversation_data
        ≡ true
      → is_listed user id (run db settings calls (init d)).user_id_to_conversation ≡ true
  participants_listed d calls user id =
      run-Listed calls (init d) (unfold init takes_part find in λ u j t. cc) user id
