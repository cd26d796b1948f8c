-- ===== src/ServersSocket/Presence.antt =====
-- What FServersSocketData tells about the presence of users, and its lists of invites
-- (ProjectServer/Source/Private/Sockets/ServersSocketData.cpp); EUserStatus of
-- ProjectServer/Source/Public/Auth/User.h.
use squirrel_communicator.Prelude.{
  ℕ, String, none, some, List, [], ◌∷◌, ◌++◌, map, if◌then◌else◌, length, nat_key,
}
use squirrel_communicator.Server.Channels.{get_channel}
use squirrel_communicator.Server.Members.{update_member_status}
use squirrel_communicator.Server.Permissions.{can_create_invites}
use squirrel_communicator.ServersManager.{
  Database, ServersManager, get_server_by_id, user_has_permission, write_server,
}
use squirrel_communicator.ServersManager.Servers.{
  ServerStatements, get_user_server_ids, get_user_voice_channels,
}
use squirrel_communicator.ServersManager.Voice.{
  is_voice, leave_voice_channel, get_voice_channel_connected_users,
}
use squirrel_communicator.ServersManager.Invites.{
  InviteStatements, InviteInfo, remaining_uses, list_invites,
}
use squirrel_communicator.SocketData.ServersType as MessageKind
use squirrel_communicator.ServersSocket.{
  Users, Sent, Message, JsonValue, text_value, number_value, list_reply, message_of, early_exit,
  as_member, broadcast_to_server_members, get_user_name,
}
use mathlib.Core.Option

-- EUserStatus
pub data UserStatus : Type 0 where
  unknown online offline : UserStatus

-- UserStatusToString
unfoldable pub user_status_to_string : UserStatus → String
user_status_to_string unknown = "unknown"
user_status_to_string online = "online"
user_status_to_string offline = "offline"

-- HandleGetVoiceChannelUsers, one participant
unfoldable pub participant : (ℕ → String) → Users → ℕ → List (String × JsonValue)
unfolding get_user_name
participant to_string users user_id =
    ("user_id", text_value (to_string user_id))
    ∷ ("user_name", text_value (get_user_name users user_id))
    ∷ []

-- HandleServerListInvites, one invite
unfoldable pub format_invite : (ℕ → String) → InviteInfo → List (String × JsonValue)
unfolding remaining_uses
format_invite to_string i =
    ("invite_code", text_value i.invite_code)
    ∷ ("created_by", text_value (to_string i.created_by))
    ∷ ("max_uses", number_value i.max_uses)
    ∷ ("current_uses", number_value i.current_uses)
    ∷ ("remaining_uses", number_value (remaining_uses i))
    ∷ ("created_at", text_value i.created_at)
    ∷ ("expires_at", text_value i.expires_at)
    ∷ []

module _ {D : Type 0} (db : Database D) (users : Users) where
  -- BroadcastMemberStatus, the loop over the user's servers
  unfoldable pub broadcast_status_to :
      ℕ → String → String → List ℕ → ServersManager D → ServersManager D × List (ℕ × Message)
  unfolding get_server_by_id write_server update_member_status message_of
      broadcast_to_server_members
  broadcast_status_to user user_name status [] m = (m, [])
  broadcast_status_to user user_name status (id ∷ ids) m =
      let (m₁, server) = get_server_by_id db id m in
      let m₂ : ServersManager D = elim server [
        | none ↦ m₁
        | some s ↦ write_server id (update_member_status user status s) m₁
      ] in
      let message = message_of MessageKind.server_member_status (
        ("server_id", number_value id)
        ∷ ("user_id", number_value user)
        ∷ ("user_name", text_value user_name)
        ∷ ("status", text_value status)
        ∷ []) in
      let (m₃, sends) = broadcast_to_server_members db users id message user m₂ in
      let (m₄, rest) = broadcast_status_to user user_name status ids m₃ in (m₄, sends ++ rest)

  -- BroadcastMemberStatus
  unfoldable pub broadcast_member_status :
      ServerStatements D
      → ℕ
      → String
      → UserStatus
      → ServersManager D
      → ServersManager D × List (ℕ × Message)
  unfolding get_user_server_ids broadcast_status_to user_status_to_string
  broadcast_member_status sql user user_name status m =
      let (m', ids) = get_user_server_ids db sql user m in
      broadcast_status_to user user_name (user_status_to_string status) ids m'

  -- CleanupUserVoiceChannels, the loop over the voice channels
  unfoldable pub leave_voice_channels :
      ℕ → String → List (ℕ × ℕ) → ServersManager D → ServersManager D × List (ℕ × Message)
  unfolding leave_voice_channel message_of broadcast_to_server_members
  leave_voice_channels user user_name [] m = (m, [])
  leave_voice_channels user user_name ((server_id, channel_id) ∷ rest) m =
      let m₁ = leave_voice_channel db server_id channel_id user m in
      let message = message_of MessageKind.server_user_voice_leave (
        ("server_id", number_value server_id)
        ∷ ("channel_id", number_value channel_id)
        ∷ ("user_id", number_value user)
        ∷ ("user_name", text_value user_name)
        ∷ []) in
      let (m₂, sends) = broadcast_to_server_members db users server_id message user m₁ in
      let (m₃, later) = leave_voice_channels user user_name rest m₂ in (m₃, sends ++ later)

  -- CleanupUserVoiceChannels
  unfoldable pub cleanup_user_voice_channels :
      ServerStatements D → ℕ → String → ServersManager D → ServersManager D × List (ℕ × Message)
  unfolding get_user_voice_channels leave_voice_channels
  cleanup_user_voice_channels sql user user_name m =
      let (m', channels) = get_user_voice_channels db sql user m in
      leave_voice_channels user user_name channels m'

  -- HandleGetVoiceChannelUsers
  unfoldable pub handle_get_voice_channel_users :
      (ℕ → String) → ℕ → ℕ → ℕ → ServersManager D → ServersManager D × Sent
  unfolding as_member get_server_by_id get_channel is_voice get_voice_channel_connected_users
      participant message_of early_exit
  handle_get_voice_channel_users to_string user server_id channel_id m =
      as_member db users server_id user
        (λ m₁.
          let (m₂, server) = get_server_by_id db server_id m₁ in
          let (m₃, connected) = get_voice_channel_connected_users db server_id channel_id m₂ in
          let header = message_of MessageKind.voice_channel_users (
            ("server_id", number_value server_id) ∷ ("channel_id", number_value channel_id) ∷ []) in
          elim server [
            | none ↦ (m₂, early_exit "server not found")
            | some s ↦ elim (get_channel channel_id s) [
              | none ↦ (m₂, early_exit "invalid voice channel")
              | some c ↦
                  if is_voice c.channel_type
                  then (
                    m₃,
                    record {
                      replies =
                          list_reply header "participants"
                            (map (participant to_string users) connected)
                          ∷ [];
                      sends = [];
                    },
                  )
                  else (m₂, early_exit "invalid voice channel")
            ]
          ])
        m

  -- HandleServerListInvites
  unfoldable pub handle_server_list_invites :
      InviteStatements D → (ℕ → String) → ℕ → ℕ → ℕ → ℕ → ServersManager D → ServersManager D × Sent
  unfolding as_member user_has_permission list_invites format_invite message_of early_exit
  handle_server_list_invites sql to_string user server_id start count m =
      as_member db users server_id user
        (λ m₁.
          let (m₂, permitted) = user_has_permission db server_id user can_create_invites m₁ in
          let (m₃, page) = list_invites db sql server_id user start count m₂ in
          let header = message_of MessageKind.server_invites_list (
            ("server_id", number_value server_id)
            ∷ ("start", number_value start)
            ∷ ("count", number_value (length page.0))
            ∷ ("total", number_value (Option.get_or page.1 0))
            ∷ []) in
          if permitted
          then (
            m₃,
            record {
              replies = list_reply header "invites" (map (format_invite to_string) page.0) ∷ [];
              sends = [];
            },
          )
          else (m₂, early_exit "permission denied: you lack CAN_CREATE_INVITES permission"))
        m
