-- ===== src/Server/Messages/Deletion.antt =====
-- What deleting does to FServer's cached messages.
use squirrel_communicator.Prelude.{
  ℕ, ◌≡◌, refl, sym, subst, Bool, true, false, Option, none, some, List, [], ◌∷◌, map, arith, ◌==◌,
  if◌then◌else◌, is_some, ite, ◌≟◌, nat_key, Option-cases, inl, inr,
}
use squirrel_communicator.UnorderedMap.{find, find-insert_or_assign}
use squirrel_communicator.Server.{Server, ServerMessage}
use squirrel_communicator.Server.Messages.{
  messages_of, set_messages, tombstone, change_first, change_message, mark_message_deleted,
}
use mathlib.Core.Option

-- The first message with an id.
unfoldable pub message_with : ℕ → List ServerMessage → Option ServerMessage
message_with id [] = none
message_with id (m ∷ ms) = if m.message_id == id then some m else message_with id ms

abbrev pub ids : List ServerMessage → List ℕ
ids = map (λ m. m.message_id)

abbrev entomb : ServerMessage → List ServerMessage → List ServerMessage
entomb m ms = tombstone m ∷ ms

-- The vector after the deletion, if there was one.
module _ (id : ℕ) where
  same_ids : (ms ms' : List ServerMessage) → change_first id entomb ms ≡ some ms' → ids ms' ≡ ids ms
  unfolding change_first
  same_ids [] ms' e = cc
  same_ids (m ∷ ms) ms' e = elim (Option-cases (change_first id entomb ms)) [
    | inl f ↦ ground arith
    | inr (r, f) ↦ ground (arith, same_ids ms r)
  ]

  entombed :
      (j : ℕ) (ms ms' : List ServerMessage)
      → change_first id entomb ms ≡ some ms'
      → message_with j ms'
        ≡ ite (id ≟ j) (Option.map tombstone (message_with id ms)) (message_with j ms)
  unfolding change_first message_with
  entombed j [] ms' e = cc
  entombed j (m ∷ ms) ms' e = elim (Option-cases (change_first id entomb ms)) [
    | inl f ↦ ground arith
    | inr (r, f) ↦ ground (arith, entombed j ms r)
  ]

change_first-none :
    (id : ℕ) (change : ServerMessage → List ServerMessage → List ServerMessage)
    (ms : List ServerMessage)
    → is_some (change_first id change ms) ≡ is_some (message_with id ms)
unfolding change_first message_with
change_first-none id change [] = refl
change_first-none id change (m ∷ ms) = ground (arith, change_first-none id change ms)

module _ (channel_id id other j : ℕ) (s : Server) where
  -- What a result means for the message `j` of the channel `other`
  abbrev Marked : Server × Bool → Type 0
  Marked (s', found) =
      (found ≡ is_some (message_with id (messages_of channel_id s)))
      × (ids (messages_of other s') ≡ ids (messages_of other s))
      × (message_with j (messages_of other s')
          ≡ ite (channel_id ≟ other)
              (ite (id ≟ j) (Option.map tombstone (message_with id (messages_of channel_id s)))
                (message_with j (messages_of channel_id s)))
              (message_with j (messages_of other s)))

  Marked-none : message_with id (messages_of channel_id s) ≡ none → Marked (s, false)
  Marked-none e = (ground arith, refl, ground arith)

  Marked-some :
      (ms' : List ServerMessage)
      → change_first id entomb (messages_of channel_id s) ≡ some ms'
      → Marked (set_messages channel_id ms' s, true)
  Marked-some ms' f =
      let there = find-insert_or_assign channel_id other ms' s.channel_messages in
      (
        ground (arith, change_first-none id entomb (messages_of channel_id s)),
        ground (arith, there, same_ids id (messages_of channel_id s) ms' f),
        ground (arith, there, entombed id j (messages_of channel_id s) ms' f),
      )

  -- Marking a message as deleted answers whether the channel's cache has it. The first message with
  -- the id, if there is one, then has the placeholder as its text, the type of a text, and all else
  -- as before. Messages with other ids and in other channels are not touched, and the ids keep their
  -- order.
  pub marks_message_deleted : Marked (mark_message_deleted channel_id id s)
  marks_message_deleted = elim (Option-cases (find channel_id s.channel_messages)) [
    | inl e ↦
        of_result (s, false) (unfold mark_message_deleted change_message in ground arith)
          (Marked-none (unfold message_with in ground arith))
    | inr (ms, e) ↦ elim (Option-cases (change_first id entomb ms)) [
      | inl f ↦
          of_result (s, false) (unfold mark_message_deleted change_message in ground arith)
            (Marked-none (ground (arith, change_first-none id entomb ms)))
      | inr (ms', f) ↦
          of_result (set_messages channel_id ms' s, true)
            (unfold mark_message_deleted change_message in ground arith)
            (Marked-some ms' (ground arith))
    ]
  ]
    where
      of_result :
          (r : Server × Bool)
          → mark_message_deleted channel_id id s ≡ r
          → Marked r
          → Marked (mark_message_deleted channel_id id s)
      of_result r e h = subst Marked (sym e) h
