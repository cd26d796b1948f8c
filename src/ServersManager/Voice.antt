-- ===== src/ServersManager/Voice.antt =====
-- The users connected to a server's voice channels (ProjectServer/Source/Private/Managers/
-- ServersManager.cpp).
pub mod Connected
use squirrel_communicator.Prelude.{
  ℕ, Bool, true, false, not, is_yes, ◌≟◌, Option, none, some, List, [], ◌∷◌, ◌++◌, if◌then◌else◌,
  keep, nat_key,
}
use squirrel_communicator.UnorderedMap.{has_key}
use squirrel_communicator.Server.{Server, ServerChannel, ServerChannelType, text, voice}
use squirrel_communicator.Server.Channels.{get_channel, get_all_channels, write_channel}
use squirrel_communicator.ServersManager.{Database, ServersManager, get_server_by_id, write_server}

unfoldable pub is_voice : ServerChannelType → Bool
is_voice text = false
is_voice voice = true

-- JoinVoiceChannel, the change of the channel
unfoldable pub connect_user : ℕ → ServerChannel → ServerChannel
unfolding has_key
connect_user user_id c =
    if has_key user_id c.connected_users
    then c
    else record c { connected_users = c.connected_users ++ user_id ∷ [] }

-- LeaveVoiceChannel, the change of the channel: every occurrence goes
unfoldable pub disconnect_user : ℕ → ServerChannel → ServerChannel
unfolding keep
disconnect_user user_id c = record c {
  connected_users = keep (λ u. not (is_yes (u ≟ user_id))) c.connected_users;
}

-- std::vector::erase at what std::ranges::find found: the first occurrence goes
unfoldable pub erase_first : ℕ → List ℕ → List ℕ
erase_first user_id [] = []
erase_first user_id (u ∷ us) =
    let rest = erase_first user_id us in if is_yes (u ≟ user_id) then us else u ∷ rest

unfoldable pub join_voice_in : ℕ → ℕ → Server → Server
unfolding connect_user is_voice get_channel write_channel
join_voice_in channel_id user_id s = elim (get_channel channel_id s) [
  | none ↦ s
  | some c ↦
      if is_voice c.channel_type then write_channel channel_id (connect_user user_id) s else s
]

unfoldable pub leave_voice_in : ℕ → ℕ → Server → Server
unfolding disconnect_user get_channel write_channel
leave_voice_in channel_id user_id s = elim (get_channel channel_id s) [
  | none ↦ s
  | some c ↦ write_channel channel_id (disconnect_user user_id) s
]

unfoldable pub connected_users_in : ℕ → Server → List ℕ
unfolding is_voice get_channel
connected_users_in channel_id s = elim (get_channel channel_id s) [
  | none ↦ []
  | some c ↦ if is_voice c.channel_type then c.connected_users else []
]

-- LeaveAllVoiceChannelsInServer, the loop over the channels, and the ids of those that were left
unfoldable pub leave_each : ℕ → List ServerChannel → Server → Server × List ℕ
unfolding is_voice has_key erase_first write_channel
leave_each user_id [] s = (s, [])
leave_each user_id (c ∷ cs) s =
    let left =
      write_channel c.channel_id
        (λ c. record c { connected_users = erase_first user_id c.connected_users }) s in
    let (s₁, ids₁) = leave_each user_id cs left in
    let (s₂, ids₂) = leave_each user_id cs s in
    if is_voice c.channel_type
    then if has_key user_id c.connected_users then (s₁, c.channel_id ∷ ids₁) else (s₂, ids₂)
    else (s₂, ids₂)

module _ {D : Type 0} (db : Database D) where
  -- What a method does to a server, if there is one
  unfoldable pub on_server : ℕ → (Server → Server) → ServersManager D → ServersManager D
  unfolding get_server_by_id write_server
  on_server server_id change m =
      let (m', server) = get_server_by_id db server_id m in
      elim server [ none ↦ m' | some s ↦ write_server server_id (change s) m' ]

  -- JoinVoiceChannel
  unfoldable pub join_voice_channel : ℕ → ℕ → ℕ → ServersManager D → ServersManager D
  unfolding on_server join_voice_in
  join_voice_channel server_id channel_id user_id m =
      on_server server_id (join_voice_in channel_id user_id) m

  -- LeaveVoiceChannel
  unfoldable pub leave_voice_channel : ℕ → ℕ → ℕ → ServersManager D → ServersManager D
  unfolding on_server leave_voice_in
  leave_voice_channel server_id channel_id user_id m =
      on_server server_id (leave_voice_in channel_id user_id) m

  -- GetVoiceChannelConnectedUsers
  unfoldable pub get_voice_channel_connected_users :
      ℕ → ℕ → ServersManager D → ServersManager D × List ℕ
  unfolding get_server_by_id connected_users_in
  get_voice_channel_connected_users server_id channel_id m =
      let (m', server) = get_server_by_id db server_id m in
      (m', elim server [ none ↦ [] | some s ↦ connected_users_in channel_id s ])

  -- LeaveAllVoiceChannelsInServer
  unfoldable pub leave_all_voice_channels_in_server :
      ℕ → ℕ → ServersManager D → ServersManager D × List ℕ
  unfolding get_server_by_id write_server leave_each get_all_channels
  leave_all_voice_channels_in_server server_id user_id m =
      let (m', server) = get_server_by_id db server_id m in
      elim server [
        | none ↦ (m', [])
        | some s ↦
            let (s₁, channels) = get_all_channels s in
            let (s₂, ids) = leave_each user_id channels s₁ in (write_server server_id s₂ m', ids)
      ]
