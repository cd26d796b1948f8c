-- ===== src/ServersSocket/Servers.antt =====
-- The handlers of FServersSocketData that send a whole server, and the creation of invites
-- (ProjectServer/Source/Private/Sockets/ServersSocketData.cpp), behind the limits of
-- FAbuseProtection. The address is "" where there is none.
use squirrel_communicator.Prelude.{
  ℕ, ◌+◌, String, not, ◌&&◌, none, some, [], ◌∷◌, ltb, ◌==◌, is_yes, ◌≟◌, if◌then◌else◌, nat_key,
  string_key,
}
use squirrel_communicator.RateLimiter.Limits.{Limits}
use squirrel_communicator.AbuseProtection.{
  can_address_request_create_server, add_create_server_attempt, can_address_create_invite,
  add_create_invite_attempt, can_address_use_invite, add_use_invite_attempt,
}
use squirrel_communicator.InviteAbuse.{InviteAbuse, RemoveIf}
use squirrel_communicator.Server.Permissions.{can_create_invites}
use squirrel_communicator.ServersManager.{
  Database, ServersManager, get_server_by_id, user_has_permission,
}
use squirrel_communicator.ServersManager.Members.{is_user_in_server}
use squirrel_communicator.ServersManager.Servers.{ServerStatements, add_server}
use squirrel_communicator.ServersManager.Invites.{
  InviteStatements, InviteSettings, JoinResult, joined, refused, create_invite, resolve_expiry,
}
use squirrel_communicator.ServersManager.Invites.Joining.{join_via_invite}
use squirrel_communicator.SocketData.ServersType as MessageKind
use squirrel_communicator.SocketData.ServersType.{socket_message_servers_type_to_string}
use squirrel_communicator.ServersSocket.{
  Users, Sent, text_value, number_value, message_reply, server_reply, message_of, early_exit,
  broadcast_to_server_members, get_user_name,
}
use squirrel_communicator.ServersSocket.ServerData.{build_server_data_json}

module _ {D : Type 0} (db : Database D) (users : Users) (to_string : ℕ → String) where
  -- JoinServer
  unfoldable pub join_server : ℕ → ℕ → ServersManager D → ServersManager D × Sent
  unfolding is_user_in_server build_server_data_json early_exit
      socket_message_servers_type_to_string
  join_server user server_id m =
      let (m₁, is_member) = is_user_in_server db server_id user m in
      let (m₂, server_json) = build_server_data_json db users to_string server_id m₁ in
      if user == 0
      then (m, early_exit "not authenticated")
      else if is_member
      then (
        m₂,
        record {
          replies =
              server_reply (socket_message_servers_type_to_string MessageKind.server_created)
                server_json
              ∷ [];
          sends = [];
        },
      )
      else (
        m₁,
        early_exit "not a member of this server. Use server_join_invite with a valid invite code.",
      )

  -- CreateServer
  unfoldable pub create_server :
      ServerStatements D
      → ℕ
      → String
      → ℕ
      → String
      → String
      → ServersManager D
      → Limits
      → (ServersManager D × Limits) × Sent
  unfolding can_address_request_create_server add_create_server_attempt add_server get_server_by_id
      build_server_data_json early_exit socket_message_servers_type_to_string
  create_server sql now token user address server_name m limits =
      let limits' = add_create_server_attempt address limits in
      let (m₁, id) = add_server db sql now token server_name user m in
      let (m₂, server) = get_server_by_id db id m₁ in
      let (m₃, server_json) = build_server_data_json db users to_string id m₂ in
      if is_yes (server_name ≟ "")
      then ((m, limits), early_exit "empty server_name")
      else if user == 0
      then ((m, limits), early_exit "not authenticated")
      else if not (is_yes (address ≟ "")) && not (can_address_request_create_server address limits)
      then ((m, limits), early_exit "service abuse")
      else if id == 0
      then ((m₁, limits'), early_exit "failed to create server")
      else elim server [
        | none ↦ ((m₂, limits'), early_exit "server created but not found")
        | some s ↦ (
          (m₃, limits'),
          record {
            replies =
                server_reply (socket_message_servers_type_to_string MessageKind.server_created)
                  server_json
                ∷ [];
            sends = [];
          },
        )
      ]

  -- HandleServerJoinInvite, once JoinViaInvite has answered
  unfoldable pub after_join : ℕ → JoinResult → ServersManager D → ServersManager D × Sent
  unfolding build_server_data_json broadcast_to_server_members message_of early_exit get_user_name
      socket_message_servers_type_to_string
  after_join user (refused error) m = (
    m,
    early_exit (
        if is_yes (error ≟ "abuse_ban")
        then "abuse ban: too many failed invite attempts. Try again later."
        else "invalid or expired invite code"),
  )
  after_join user (joined server_id) m =
      let (m₁, server_json) = build_server_data_json db users to_string server_id m in
      let message = message_of MessageKind.server_user_joined (
        ("server_id", number_value server_id)
        ∷ ("user_id", number_value user)
        ∷ ("user_name", text_value (get_user_name users user))
        ∷ []) in
      let (m₂, sends) = broadcast_to_server_members db users server_id message user m₁ in
      (
        m₂,
        record {
          replies =
              server_reply (socket_message_servers_type_to_string MessageKind.server_joined)
                server_json
              ∷ [];
          sends = sends;
        },
      )

  -- HandleServerJoinInvite
  unfoldable pub handle_server_join_invite :
      InviteStatements D
      → RemoveIf
      → ℕ
      → ℕ
      → String
      → String
      → ServersManager D
      → Limits
      → InviteAbuse
      → (ServersManager D × (Limits × InviteAbuse)) × Sent
  unfolding can_address_use_invite add_use_invite_attempt join_via_invite after_join early_exit
      get_user_name
  handle_server_join_invite sql simd now user address code m limits abuse =
      let limits' = add_use_invite_attempt address limits in
      let ((m₁, abuse'), result) =
        join_via_invite db sql simd now code user (get_user_name users user) address m abuse in
      let (m₂, sent) = after_join user result m₁ in
      if user == 0
      then ((m, (limits, abuse)), early_exit "not authenticated")
      else if not (is_yes (address ≟ "")) && not (can_address_use_invite address limits)
      then ((m, (limits, abuse)), early_exit "invite use rate limit exceeded")
      else ((m₂, (limits', abuse')), sent)

  -- HandleServerCreateInvite, for the clock in seconds and PublicBaseUrl
  unfoldable pub handle_server_create_invite :
      InviteStatements D
      → InviteSettings
      → String
      → (String → String)
      → ℕ
      → ℕ
      → String
      → ℕ
      → ℕ
      → ℕ
      → ServersManager D
      → Limits
      → (ServersManager D × Limits) × Sent
  unfolding can_address_create_invite add_create_invite_attempt is_user_in_server
      user_has_permission create_invite resolve_expiry message_of early_exit
  handle_server_create_invite sql settings code invite_url now user address server_id max_uses
        expires_in_seconds m limits =
      let limits' = add_create_invite_attempt address limits in
      let (m₁, is_member) = is_user_in_server db server_id user m in
      let (m₂, permitted) = user_has_permission db server_id user can_create_invites m₁ in
      let (m₃, created) =
        create_invite db sql settings code server_id user max_uses expires_in_seconds m₂ in
      let expiry = resolve_expiry settings expires_in_seconds in
      let message = message_of MessageKind.server_invite_created (
        ("invite_code", text_value created)
        ∷ ("invite_url", text_value (invite_url created))
        ∷ (
          "max_uses",
          number_value (if ltb 0 max_uses then max_uses else settings.default_max_uses),
        )
        ∷ ("expires_at", number_value (now + expiry))
        ∷ ("expires_in_seconds", number_value expiry)
        ∷ []) in
      if user == 0
      then ((m, limits), early_exit "not authenticated")
      else if not (is_yes (address ≟ "")) && not (can_address_create_invite address limits)
      then ((m, limits), early_exit "invite create rate limit exceeded")
      else if not is_member
      then ((m₁, limits'), early_exit "not a member of this server")
      else if not permitted
      then ((m₂, limits'), early_exit "permission denied: you lack CAN_CREATE_INVITES permission")
      else if is_yes (created ≟ "")
      then ((m₃, limits'), early_exit "failed to create invite")
      else ((m₃, limits'), record { replies = message_reply message ∷ []; sends = [] })
