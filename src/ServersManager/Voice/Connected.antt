-- ===== src/ServersManager/Voice/Connected.antt =====
-- Who is connected to a voice channel.
use squirrel_communicator.Prelude.{
  ℕ, ◌≡◌, refl, Bool, false, not, ◌&&◌, ◌||◌, is_yes, ◌≟◌, none, some, List, [], ◌∷◌, ◌++◌, arith,
  keep, nat_key, ite, Option-cases, inl, inr,
}
use squirrel_communicator.UnorderedMap.{find, has_key, find-modify}
use squirrel_communicator.Server.{Server, ServerChannel}
use squirrel_communicator.Server.Channels.{get_channel, write_channel}
use mathlib.Core.Option
use squirrel_communicator.ServersManager.Voice.{
  is_voice, connect_user, disconnect_user, join_voice_in, leave_voice_in, connected_users_in,
}

-- The user is among those that GetVoiceChannelConnectedUsers answers.
abbrev pub is_connected : ℕ → ℕ → Server → Bool
is_connected channel_id user_id s = has_key user_id (connected_users_in channel_id s)

-- There is a voice channel with the id.
abbrev pub has_voice_channel : ℕ → Server → Bool
has_voice_channel channel_id s = elim (find channel_id s.channels) [
  | none ↦ false
  | some c ↦ is_voice c.channel_type
]

nobody : (u : ℕ) → has_key u [] ≡ false
unfolding has_key
nobody u = refl

has_key-append :
    (u v : ℕ) (us : List ℕ) → has_key u (us ++ v ∷ []) ≡ (has_key u us || is_yes (v ≟ u))
unfolding has_key
has_key-append u v [] = ground arith
has_key-append u v (x ∷ us) = ground (arith, has_key-append u v us)

has_key-keep :
    (u v : ℕ) (us : List ℕ)
    → has_key u (keep (λ x. not (is_yes (x ≟ v))) us) ≡ (has_key u us && not (is_yes (v ≟ u)))
unfolding has_key keep
has_key-keep u v [] = refl
has_key-keep u v (x ∷ us) = ground (arith, has_key-keep u v us)

-- What is read of a channel after a write to one.
find-write :
    (channel_id other : ℕ) (change : ServerChannel → ServerChannel) (s : Server)
    → find other (write_channel channel_id change s).channels
      ≡ ite
          (channel_id ≟ other)
          (Option.map change (find channel_id s.channels))
          (find other s.channels)
unfolding write_channel
find-write channel_id other change s = find-modify channel_id other change s.channels

join_lem :
    (channel_id user_id other j : ℕ) (s : Server)
    → is_connected other j (join_voice_in channel_id user_id s) ≡ (
        is_connected other j s
        || (is_yes (channel_id ≟ other) && is_yes (user_id ≟ j) && has_voice_channel other s))
unfolding join_voice_in connected_users_in connect_user get_channel
join_lem channel_id user_id other j s = elim (Option-cases (find channel_id s.channels)) [
  | inl e ↦ ground arith
  | inr (c, e) ↦ ground (
    arith,
    find-write channel_id other (connect_user user_id) s,
    has_key-append j user_id c.connected_users,
  )
]

leave_lem :
    (channel_id user_id other j : ℕ) (s : Server)
    → is_connected other j (leave_voice_in channel_id user_id s)
      ≡ (is_connected other j s && not (is_yes (channel_id ≟ other) && is_yes (user_id ≟ j)))
unfolding leave_voice_in connected_users_in disconnect_user get_channel
leave_lem channel_id user_id other j s = elim (Option-cases (find channel_id s.channels)) [
  | inl e ↦ ground (arith, nobody j)
  | inr (c, e) ↦ ground (
    arith,
    find-write channel_id other (disconnect_user user_id) s,
    has_key-keep j user_id c.connected_users,
    nobody j,
  )
]

-- Joining connects the user to the channel if it is a voice channel, whether or not the user was
-- connected before; leaving disconnects the user. Neither touches other users or channels.
pub connected-after_join_leave :
    (channel_id user_id other j : ℕ) (s : Server)
    → (is_connected other j (join_voice_in channel_id user_id s) ≡ (
        is_connected other j s
        || (is_yes (channel_id ≟ other) && is_yes (user_id ≟ j) && has_voice_channel other s)))
      × (is_connected other j (leave_voice_in channel_id user_id s)
          ≡ (is_connected other j s && not (is_yes (channel_id ≟ other) && is_yes (user_id ≟ j))))
connected-after_join_leave channel_id user_id other j s =
    (join_lem channel_id user_id other j s, leave_lem channel_id user_id other j s)
