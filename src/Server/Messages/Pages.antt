-- ===== src/Server/Messages/Pages.antt =====
-- What FServer::GetChannelMessages shows of a channel's messages.
use squirrel_communicator.Prelude.{
  ℕ, zero, suc, ◌-◌, ◌≤◌, ◌≡◌, refl, sym, ap, ◌∙◌, Bool, true, ◌||◌, List, [], ◌∷◌, ◌++◌, arith,
  ltb, leb, ◌==◌, length, drop, take, keep, take-append, take-drop-append, length-reverse,
  length-drop, nat_key, Option-cases, Bool-cases, inl, inr, false, ◌⊎◌,
}
use squirrel_communicator.UnorderedMap.{find, map_values, find-map_values, find-insert_or_assign}
use squirrel_communicator.Server.{Server, ServerMessage}
use squirrel_communicator.Server.Messages.{
  messages_of, add_message, trim, trim_channel_messages_to_count, collect_page,
  get_channel_messages,
}
use mathlib.Core.List.{reverse, reverse-append}
use mathlib.Core.Option

-- A message is on the pages before a time; 0 stands for no time.
abbrev pub is_before : ℕ → ServerMessage → Bool
is_before before_timestamp m = before_timestamp == 0 || ltb m.created_at before_timestamp

collect_page-eq-take :
    (before room : ℕ) (ms : List ServerMessage)
    → collect_page before room ms ≡ take room (keep (is_before before) ms)
unfolding collect_page keep
collect_page-eq-take before zero ms = refl
collect_page-eq-take before (suc room) [] = refl
collect_page-eq-take before (suc room) (m ∷ ms) =
    ground (arith, collect_page-eq-take before room ms, collect_page-eq-take before (suc room) ms)

take_nil : (n : ℕ) → take {A = ServerMessage} n [] ≡ []
take_nil zero = refl
take_nil (suc n) = refl

-- The page is the last `limit` stored messages of those of the channel that are older than the given
-- time, or of all if that time is 0, in the reverse of the order in which they are stored.
pub get_channel_messages-eq-take :
    (id before limit : ℕ) (s : Server)
    → get_channel_messages id before limit s
      ≡ take limit (keep (is_before before) (reverse (messages_of id s)))
unfolding get_channel_messages
get_channel_messages-eq-take id before limit s = elim (Option-cases (find id s.channel_messages)) [
  | inl e ↦ unfold keep in rw (e, get_channel_messages, messages_of) (sym (take_nil limit))
  | inr (ms, e) ↦
      rw (e, get_channel_messages, messages_of) (collect_page-eq-take before limit (reverse ms))
]

keep_all : (ms : List ServerMessage) → keep (is_before 0) ms ≡ ms
unfolding keep
keep_all [] = refl
keep_all (m ∷ ms) = ap (◌∷◌ m) (keep_all ms)

pub newest_page :
    (id limit : ℕ) (s : Server)
    → get_channel_messages id 0 limit s ≡ take limit (reverse (messages_of id s))
newest_page id limit s =
    get_channel_messages-eq-take id 0 limit s
    ∙ ap (take limit) (keep_all (reverse (messages_of id s)))

pub messages_of-add :
    (m : ServerMessage) (s : Server)
    → messages_of m.channel_id (add_message m s) ≡ messages_of m.channel_id s ++ m ∷ []
unfolding add_message
messages_of-add m s = ground (
  arith,
  find-insert_or_assign m.channel_id m.channel_id (messages_of m.channel_id s ++ m ∷ [])
      s.channel_messages,
)

-- A message that is added shows first, above the page as it was.
pub page-after_add :
    (m : ServerMessage) (limit : ℕ) (s : Server)
    → get_channel_messages m.channel_id 0 (suc limit) (add_message m s)
      ≡ m ∷ get_channel_messages m.channel_id 0 limit s
page-after_add m limit s =
    newest_page m.channel_id (suc limit) (add_message m s)
    ∙ ap (λ ms. take (suc limit) (reverse ms)) (messages_of-add m s)
    ∙ ap (take (suc limit)) (reverse-append (messages_of m.channel_id s) (m ∷ []))
    ∙ ap (◌∷◌ m) (sym (newest_page m.channel_id limit s))

newest-trim :
    (n limit : ℕ) (ms : List ServerMessage)
    → limit ≤ n
    → take limit (reverse (trim n ms)) ≡ take limit (reverse ms)
unfolding trim
newest-trim n limit ms h = elim (Bool-cases (ltb n (length ms))) [
  | inl long ↦
      rw (long, trim)
        (let d = length ms - n in
          let whole : reverse ms ≡ reverse (drop d ms) ++ reverse (take d ms) =
            ap reverse (sym (take-drop-append d ms)) ∙ reverse-append (take d ms) (drop d ms) in
          sym (
            ap (take limit) whole
            ∙ take-append limit (reverse (drop d ms)) (reverse (take d ms))
                (ground (arith, length-reverse (drop d ms), length-drop d ms))))
  | inr short ↦ rw (short, trim)
]

messages_of-trim :
    (id n : ℕ) (s : Server)
    → Option.get_or (find id (map_values (trim n) s.channel_messages)) []
      ≡ trim n (messages_of id s)
unfolding trim
messages_of-trim id n s = ground (arith, find-map_values (trim n) id s.channel_messages)

-- The retention trim does not change a page without a time that asks for no more messages than are
-- retained, in any channel.
pub page-after_trim :
    (id n limit : ℕ) (s : Server)
    → limit ≤ n
    → get_channel_messages id 0 limit (trim_channel_messages_to_count n s)
      ≡ get_channel_messages id 0 limit s
page-after_trim id n limit s h =
    newest_page id limit (trim_channel_messages_to_count n s)
    ∙ trimmed (Bool-cases (leb n 0))
    ∙ sym (newest_page id limit s)
  where
    trimmed :
        (leb n 0 ≡ true) ⊎ (leb n 0 ≡ false)
        → take limit (reverse (messages_of id (trim_channel_messages_to_count n s)))
          ≡ take limit (reverse (messages_of id s))
    trimmed (inl e) =
        unfold trim_channel_messages_to_count in rw (e, trim_channel_messages_to_count)
    trimmed (inr e) =
        unfold trim_channel_messages_to_count in
        rw (e, trim_channel_messages_to_count)
          (ap (λ ms. take limit (reverse ms)) (messages_of-trim id n s)
            ∙ newest-trim n limit (messages_of id s) h)
