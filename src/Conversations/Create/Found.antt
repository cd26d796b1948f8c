-- ===== src/Conversations/Create/Found.antt =====
-- What GetOrCreateConversation of FConversationsManager leaves in the cache.
use squirrel_communicator.Prelude.{
  ℕ, ℕ_discrete, ◌≡◌, refl, ◌∙◌, true, false, List, [], ◌∷◌, ltb, arith, is_yes, ◌≟◌, nat_key,
  if◌then◌else◌, Option-cases, Bool-cases, inl, inr,
}
use squirrel_communicator.UnorderedMap.{find, contains, has_key, find-insert_or_assign}
use squirrel_communicator.Conversations.{
  ConversationData, Encryption, ConversationDatabase, ConversationsManager, has_conversation,
  get_conversation, is_user_in_conversation, add_conversation_to_cache, mark_read,
}
use squirrel_communicator.Conversations.Create.{
  get_or_create_conversation, find_conversation, find_conversation_2_ids, create_conversation,
  unread, insert_participants,
}

module _ {D : Type 0} where
  -- Adding a conversation that is not there makes its users part of it, and no other changes.
  added-user :
      (id j user : ℕ) (users : List ℕ) (read : List (ℕ × ℕ)) (m : ConversationsManager D)
      → has_conversation id m ≡ false
      → is_user_in_conversation user j (add_conversation_to_cache id users read m)
        ≡ (if is_yes (id ≟ j) then has_key user users else is_user_in_conversation user j m)
  unfolding add_conversation_to_cache is_user_in_conversation get_conversation
  added-user id j user users read m e =
      let c : ConversationData = record {
        conversation_id = id;
        users_ids = users;
        user_id_to_message_last_read = mark_read read [];
        messages_deque = [];
      } in
      ground (arith, find-insert_or_assign id j c m.conversation_id_to_conversation_data)

  kept-user :
      (id j user : ℕ) (users : List ℕ) (read : List (ℕ × ℕ)) (m : ConversationsManager D)
      → is_user_in_conversation user j m ≡ true
      → is_user_in_conversation user j (add_conversation_to_cache id users read m) ≡ true
  unfolding is_user_in_conversation get_conversation has_conversation contains
      add_conversation_to_cache
  kept-user id j user users read m e =
      let c : ConversationData = record {
        conversation_id = id;
        users_ids = users;
        user_id_to_message_last_read = mark_read read [];
        messages_deque = [];
      } in
      let cs = m.conversation_id_to_conversation_data in
      elim (Option-cases (find id cs)) [
        | inl n ↦ ground (arith, find-insert_or_assign id j c cs)
        | inr (old, s) ↦ ground arith
      ]

module _ {D : Type 0} (db : ConversationDatabase D) (settings : Encryption) where
  kept-create :
      (j user : ℕ) (users : List ℕ) (m : ConversationsManager D)
      → is_user_in_conversation user j m ≡ true
      → is_user_in_conversation user j (create_conversation db settings users m).0 ≡ true
  unfolding create_conversation is_user_in_conversation
  kept-create j user users m e =
      let (d, is_new) = db.insert_conversation m.database in
      let id = db.last_insert_id d in
      let m' : ConversationsManager D = record m {
        database = insert_participants db settings id users d;
      } in
      elim (Bool-cases (ltb 0 id)) [
        | inl f ↦ rw f (kept-user id j user users (unread users) m' e)
        | inr f ↦ rw f e
      ]

  created :
      (users : List ℕ) (m : ConversationsManager D)
      → (db.connect m.database).1 ≡ true
      → let m' : ConversationsManager D = record m { database = (db.connect m.database).0 } in
        (find_conversation db settings users m').1 ≡ 0
        → get_or_create_conversation db settings users m
          ≡ create_conversation db settings users (find_conversation db settings users m').0
  unfolding get_or_create_conversation
  created users m c f = rw (c, f) refl

  found-zero :
      (user1 user2 user : ℕ) (m : ConversationsManager D)
      → db.find_conversation_2 user1 user2 m.database ≡ 0
      → has_conversation 0 m ≡ false
      → is_user_in_conversation user 0 (find_conversation db settings (user1 ∷ user2 ∷ []) m).0
        ≡ has_key user (user1 ∷ user2 ∷ [])
  unfolding find_conversation find_conversation_2_ids ℕ_discrete
  found-zero user1 user2 user m f h =
      let users = user1 ∷ user2 ∷ [] in rw f (added-user 0 0 user users (unread users) m h)

  -- The bug: when the database has no conversation of two users yet and the cache none of id 0,
  -- opening one puts a conversation 0 of the two users into the cache.
  pub caches_conversation_zero :
      (user1 user2 : ℕ) (m : ConversationsManager D)
      → (db.connect m.database).1 ≡ true
      → db.find_conversation_2 user1 user2 (db.connect m.database).0 ≡ 0
      → has_conversation 0 m ≡ false
      → let opened = (get_or_create_conversation db settings (user1 ∷ user2 ∷ []) m).0 in
        (is_user_in_conversation user1 0 opened ≡ true)
        × (is_user_in_conversation user2 0 opened ≡ true)
  unfolding find_conversation
  caches_conversation_zero user1 user2 m c f h =
      (opened user1 (unfold has_key in ground arith), opened user2 (unfold has_key in ground arith))
    where
      m' : ConversationsManager D
      m' = record m { database = (db.connect m.database).0 }

      users : List ℕ
      users = user1 ∷ user2 ∷ []

      opened :
          (user : ℕ)
          → has_key user users ≡ true
          → is_user_in_conversation user 0 (get_or_create_conversation db settings users m).0 ≡ true
      opened user k = rw (created users m c f) (
          kept-create 0 user users (find_conversation db settings users m').0
            (found-zero user1 user2 user m' f h ∙ k))
