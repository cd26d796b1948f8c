-- ===== src/Conversations/Create/Listed.antt =====
-- Each conversation in the cache of FConversationsManager is listed for each of its users.
use squirrel_communicator.Prelude.{
  ℕ, ◌≡◌, refl, sym, ap, ◌∙◌, Bool, true, false, ◌&&◌, ◌||◌, none, some, List, [], ◌∷◌, ◌++◌, arith,
  is_yes, ◌≟◌, nat_key, if◌then◌else◌, Option-cases, Bool-cases, inl, inr,
}
use squirrel_communicator.UnorderedMap.{
  UnorderedMap, find, has_key, modify, map_values, insert_or_assign, find-insert_or_assign,
  find-modify, find-map_values,
}
use squirrel_communicator.Conversations.{
  ConversationData, ConversationsManager, add_conversations_for_user_to_cache,
  add_conversation_to_cache, has_conversation, change_conversation, mark_read,
}
use mathlib.Core.Option

abbrev Conversations : Type 0
Conversations = UnorderedMap ℕ ConversationData

-- A user is among the users of a conversation.
unfoldable pub takes_part : ℕ → ℕ → UnorderedMap ℕ ConversationData → Bool
unfolding has_key
takes_part user id m = elim (find id m) [ none ↦ false | some c ↦ has_key user c.users_ids ]

-- A conversation is listed for a user.
unfoldable pub is_listed : ℕ → ℕ → UnorderedMap ℕ (List ℕ) → Bool
unfolding has_key
is_listed user id m = has_key id (Option.get_or (find user m) [])

abbrev pub IsListed : {D : Type 0} → ConversationsManager D → Type 0
IsListed m =
    (user id : ℕ)
    → takes_part user id m.conversation_id_to_conversation_data ≡ true
    → is_listed user id m.user_id_to_conversation ≡ true

has_key-add :
    (j id : ℕ) (xs : List ℕ) → has_key j (xs ++ id ∷ []) ≡ (has_key j xs || is_yes (id ≟ j))
unfolding has_key
has_key-add j id [] = ground arith
has_key-add j id (x ∷ xs) = ground (arith, has_key-add j id xs)

-- What one round of the loop lists
listed-once :
    (user id v j : ℕ) (m : UnorderedMap ℕ (List ℕ))
    → let listed = Option.get_or (find user m) [] in
      is_listed v j
        (insert_or_assign user (if has_key id listed then listed else listed ++ id ∷ []) m)
      ≡ (is_listed v j m || (is_yes (user ≟ v) && is_yes (id ≟ j)))
unfolding is_listed
listed-once user id v j m =
    let old = Option.get_or (find user m) [] in
    let new = if has_key id old then old else old ++ id ∷ [] in
    ground (arith, find-insert_or_assign user v new m, has_key-add j id old)

listed-add :
    (id v j : ℕ) (users : List ℕ) (m : UnorderedMap ℕ (List ℕ))
    → is_listed v j (add_conversations_for_user_to_cache id users m)
      ≡ (is_listed v j m || (has_key v users && is_yes (id ≟ j)))
unfolding add_conversations_for_user_to_cache has_key
listed-add id v j [] m = ground arith
listed-add id v j (user ∷ users) m =
    let old = Option.get_or (find user m) [] in
    let new = if has_key id old then old else old ++ id ∷ [] in
    ground (arith, listed-once user id v j m, listed-add id v j users (insert_or_assign user new m))

-- Who takes part after a conversation is added, or changed without its users
takes_part-insert :
    (id user j : ℕ) (c : ConversationData) (m : UnorderedMap ℕ ConversationData)
    → takes_part user j (insert_or_assign id c m)
      ≡ (if is_yes (id ≟ j) then has_key user c.users_ids else takes_part user j m)
unfolding takes_part
takes_part-insert id user j c m = ground (arith, find-insert_or_assign id j c m)

abbrev pub KeepsUsers : (ConversationData → ConversationData) → Type 0
KeepsUsers f = (c : ConversationData) → (f c).users_ids ≡ c.users_ids

takes_part-modify :
    (id user j : ℕ) (f : ConversationData → ConversationData) (m : UnorderedMap ℕ ConversationData)
    → KeepsUsers f
    → takes_part user j (modify id f m) ≡ takes_part user j m
unfolding takes_part
takes_part-modify id user j f m k = elim (Option-cases (find j m)) [
  | inl n ↦ ground (arith, find-modify id j f m)
  | inr (c, s) ↦ ground (arith, find-modify id j f m, k c)
]

pub takes_part-map_values :
    (user j : ℕ) (f : ConversationData → ConversationData) (m : UnorderedMap ℕ ConversationData)
    → KeepsUsers f
    → takes_part user j (map_values f m) ≡ takes_part user j m
unfolding takes_part
takes_part-map_values user j f m k = elim (Option-cases (find j m)) [
  | inl n ↦ ground (arith, find-map_values f j m)
  | inr (c, s) ↦ ground (arith, find-map_values f j m, k c)
]

-- What an operation leaves: the users of conversations, and the conversations of users
pub record SameUsers {D : Type 0} (m m' : ConversationsManager D) : Type 0 where
  pub same_users :
      (user id : ℕ)
      → takes_part user id m'.conversation_id_to_conversation_data
        ≡ takes_part user id m.conversation_id_to_conversation_data
  pub same_lists : m'.user_id_to_conversation ≡ m.user_id_to_conversation

module _ {D : Type 0} where
  pub SameUsers-IsListed :
      (m m' : ConversationsManager D) → SameUsers m m' → IsListed m → IsListed m'
  SameUsers-IsListed m m' s h user id t =
      rw s.same_lists (h user id (sym (s.same_users user id) ∙ t))

  pub SameUsers-trans :
      (m m' m'' : ConversationsManager D) → SameUsers m m' → SameUsers m' m'' → SameUsers m m''
  SameUsers-trans m m' m'' s t = record {
    same_users = λ user id. t.same_users user id ∙ s.same_users user id;
    same_lists = t.same_lists ∙ s.same_lists;
  }

  pub change-SameUsers :
      (id : ℕ) (f : ConversationData → ConversationData) (m : ConversationsManager D)
      → KeepsUsers f
      → SameUsers m (change_conversation id f m)
  unfolding change_conversation
  change-SameUsers id f m k = record {
    same_users = λ user j. takes_part-modify id user j f m.conversation_id_to_conversation_data k;
    same_lists = refl;
  }

  pub map-SameUsers :
      (f : ConversationData → ConversationData) (m m' : ConversationsManager D)
      → KeepsUsers f
      → m'.conversation_id_to_conversation_data
        ≡ map_values f m.conversation_id_to_conversation_data
      → m'.user_id_to_conversation ≡ m.user_id_to_conversation
      → SameUsers m m'
  map-SameUsers f m m' k e l = record {
    same_users = λ user j.
        ap (takes_part user j) e
        ∙ takes_part-map_values user j f m.conversation_id_to_conversation_data k;
    same_lists = l;
  }

  pub add-IsListed :
      (id : ℕ) (users : List ℕ) (read : List (ℕ × ℕ)) (m : ConversationsManager D)
      → IsListed m
      → IsListed (add_conversation_to_cache id users read m)
  unfolding add_conversation_to_cache
  add-IsListed id users read m h user j t =
      let c : ConversationData = record {
        conversation_id = id;
        users_ids = users;
        user_id_to_message_last_read = mark_read read [];
        messages_deque = [];
      } in
      elim (Bool-cases (has_conversation id m)) [
        | inl e ↦ ground (arith, h user j)
        | inr e ↦ ground (
          arith,
          takes_part-insert id user j c m.conversation_id_to_conversation_data,
          listed-add id user j users m.user_id_to_conversation,
          h user j,
        )
      ]
