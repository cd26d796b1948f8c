-- ===== src/ServersSocket/Members.antt =====
-- The handlers of FServersSocketData for members, voice channels and invites
-- (ProjectServer/Source/Private/Sockets/ServersSocketData.cpp).
use squirrel_communicator.Prelude.{
  ℕ, String, Bool, false, not, none, some, List, [], ◌∷◌, ◌++◌, ◌==◌, if◌then◌else◌, nat_key,
}
use squirrel_communicator.Server.Permissions.{can_kick_members, can_create_invites}
use squirrel_communicator.ServersManager.{
  Database, ServersManager, get_server_by_id, user_has_permission,
}
use squirrel_communicator.ServersManager.Members.{
  is_user_in_server, remove_user_from_server, update_member_permissions,
}
use squirrel_communicator.ServersManager.Voice.{
  leave_voice_channel, leave_all_voice_channels_in_server,
}
use squirrel_communicator.ServersManager.Invites.{InviteStatements, delete_invite}
use squirrel_communicator.SocketData.ServersType as MessageKind
use squirrel_communicator.ServersSocket.{
  Users, Sent, Message, text_value, number_value, message_reply, message_of, early_exit, as_member,
  broadcast_to_server_members, is_server_owner, reply_and_broadcast, get_user_name, send_to_user,
}

module _ {D : Type 0} (db : Database D) (users : Users) where
  -- LeaveServer
  unfoldable pub leave_server : ℕ → ℕ → ServersManager D → ServersManager D × Sent
  unfolding remove_user_from_server broadcast_to_server_members message_of early_exit
  leave_server user server_id m =
      let (m₁, removed) = remove_user_from_server db server_id user m in
      let message =
        message_of MessageKind.server_user_left
          (("server_id", number_value server_id) ∷ ("user_id", number_value user) ∷ []) in
      let (m₂, sends) = broadcast_to_server_members db users server_id message 0 m₁ in
      let confirmation =
        message_of MessageKind.leave_server
          (("server_id", number_value server_id) ∷ ("status", text_value "left") ∷ []) in
      if user == 0
      then (m, early_exit "not authenticated")
      else if removed
      then (m₂, record { replies = message_reply confirmation ∷ []; sends = sends })
      else (m₁, early_exit "failed to leave server")

  -- ServerInvite
  unfoldable pub server_invite : ℕ → ℕ → ℕ → ServersManager D → ServersManager D × Sent
  unfolding as_member get_server_by_id message_of early_exit get_user_name send_to_user
  server_invite user server_id target m =
      as_member db users server_id user
        (λ m₁.
          let (m₂, server) = get_server_by_id db server_id m₁ in
          elim server [
            | none ↦ (m₂, early_exit "server not found")
            | some s ↦ (
              m₂,
              record {
                replies =
                    message_reply (
                      message_of MessageKind.server_invite (
                        ("status", text_value "sent")
                        ∷ ("server_id", number_value server_id)
                        ∷ ("user_id", number_value target)
                        ∷ []))
                    ∷ [];
                sends = send_to_user users target (
                    message_of MessageKind.server_invite (
                      ("server_id", number_value server_id)
                      ∷ ("server_name", text_value s.server_name)
                      ∷ ("inviter_id", number_value user)
                      ∷ ("inviter_name", text_value (get_user_name users user))
                      ∷ []));
              },
            )
          ])
        m

  -- what members are told when a user leaves a voice channel
  unfoldable pub voice_leave : ℕ → ℕ → ℕ → Message
  unfolding message_of get_user_name
  voice_leave server_id channel_id user = message_of MessageKind.server_user_voice_leave (
      ("server_id", number_value server_id)
      ∷ ("channel_id", number_value channel_id)
      ∷ ("user_id", number_value user)
      ∷ ("user_name", text_value (get_user_name users user))
      ∷ [])

  -- ServerLeaveVoice
  unfoldable pub server_leave_voice : ℕ → ℕ → ℕ → ServersManager D → ServersManager D × Sent
  unfolding leave_voice_channel voice_leave broadcast_to_server_members message_of early_exit
  server_leave_voice user server_id channel_id m =
      let m₁ = leave_voice_channel db server_id channel_id user m in
      let (m₂, sends) =
        broadcast_to_server_members db users server_id (voice_leave server_id channel_id user) user
          m₁ in
      let confirmation =
        message_of MessageKind.server_leave_voice (("status", text_value "disconnected") ∷ []) in
      if user == 0
      then (m, early_exit "not authenticated")
      else (m₂, record { replies = message_reply confirmation ∷ []; sends = sends })

  -- HandleUpdateMemberPermissions
  unfoldable pub handle_update_member_permissions :
      ℕ → ℕ → ℕ → ℕ → ServersManager D → ServersManager D × Sent
  unfolding is_server_owner get_server_by_id is_user_in_server update_member_permissions message_of
      reply_and_broadcast early_exit
  handle_update_member_permissions user server_id target new_permissions m =
      let (m₁, is_owner) = is_server_owner db users server_id user m in
      let (m₂, server) = get_server_by_id db server_id m₁ in
      let owner_is_target : Bool = elim server [ none ↦ false | some s ↦ s.owner_id == target ] in
      let (m₃, is_member) = is_user_in_server db server_id target m₂ in
      let (m₄, updated) = update_member_permissions db server_id target new_permissions m₃ in
      let message = message_of MessageKind.server_member_permissions_updated (
        ("server_id", number_value server_id)
        ∷ ("user_id", number_value target)
        ∷ ("permissions", number_value new_permissions)
        ∷ []) in
      let sent = reply_and_broadcast db users server_id message m₄ in
      if user == 0
      then (m, early_exit "not authenticated")
      else if not is_owner
      then (m₁, early_exit "permission denied: only the server owner can manage member permissions")
      else if owner_is_target
      then (m₂, early_exit "cannot modify the server owners permissions")
      else if not is_member
      then (m₃, early_exit "target user is not a member of this server")
      else if not updated
      then (m₄, early_exit "failed to update member permissions")
      else sent

  -- HandleKickMember, the loop over the voice channels that the user left
  unfoldable pub broadcast_voice_leaves :
      ℕ → ℕ → List ℕ → ServersManager D → ServersManager D × List (ℕ × Message)
  unfolding broadcast_to_server_members voice_leave
  broadcast_voice_leaves server_id target [] m = (m, [])
  broadcast_voice_leaves server_id target (channel_id ∷ channel_ids) m =
      let (m₁, sends) =
        broadcast_to_server_members db users server_id (voice_leave server_id channel_id target)
          target m in
      let (m₂, later) = broadcast_voice_leaves server_id target channel_ids m₁ in
      (m₂, sends ++ later)

  -- HandleKickMember, once the user is removed; `server_name` is the name before that
  unfoldable pub after_kick : ℕ → ℕ → ℕ → String → ServersManager D → ServersManager D × Sent
  unfolding leave_all_voice_channels_in_server broadcast_voice_leaves broadcast_to_server_members
      send_to_user message_of get_user_name
  after_kick user server_id target server_name m =
      let (m₁, left) = leave_all_voice_channels_in_server db server_id target m in
      let (m₂, leaves) = broadcast_voice_leaves server_id target left m₁ in
      let kicked = send_to_user users target (
        message_of MessageKind.server_user_kicked (
          ("server_id", number_value server_id)
          ∷ ("server_name", text_value server_name)
          ∷ ("message", text_value "You have been kicked from the server")
          ∷ [])) in
      let message = message_of MessageKind.server_user_kicked (
        ("server_id", number_value server_id)
        ∷ ("user_id", number_value target)
        ∷ ("user_name", text_value (get_user_name users target))
        ∷ ("kicker_id", number_value user)
        ∷ ("kicker_name", text_value (get_user_name users user))
        ∷ []) in
      let (m₃, sends) = broadcast_to_server_members db users server_id message 0 m₂ in
      (m₃, record { replies = []; sends = leaves ++ kicked ++ sends })

  -- HandleKickMember
  unfoldable pub handle_kick_member : ℕ → ℕ → ℕ → ServersManager D → ServersManager D × Sent
  unfolding user_has_permission get_server_by_id is_user_in_server remove_user_from_server
      after_kick early_exit
  handle_kick_member user server_id target m =
      let (m₁, permitted) = user_has_permission db server_id user can_kick_members m in
      let (m₂, server) = get_server_by_id db server_id m₁ in
      let (m₃, is_member) = is_user_in_server db server_id target m₂ in
      let (m₄, removed) = remove_user_from_server db server_id target m₃ in
      if user == 0
      then (m, early_exit "not authenticated")
      else if not permitted
      then (m₁, early_exit "permission denied: you lack CAN_KICK_MEMBERS permission")
      else elim server [
        | none ↦ (m₂, early_exit "server not found")
        | some s ↦
            let sent = after_kick user server_id target s.server_name m₄ in
            if s.owner_id == target
            then (m₂, early_exit "cannot kick the server owner")
            else if target == user
            then (m₂, early_exit "cannot kick yourself")
            else if not is_member
            then (m₃, early_exit "target user is not a member of this server")
            else if not removed
            then (m₄, early_exit "failed to kick user from server")
            else sent
      ]

  -- HandleServerDeleteInvite
  unfoldable pub handle_server_delete_invite :
      InviteStatements D → ℕ → ℕ → String → ServersManager D → ServersManager D × Sent
  unfolding as_member user_has_permission delete_invite message_of early_exit
  handle_server_delete_invite sql user server_id code m =
      as_member db users server_id user
        (λ m₁.
          let (m₂, permitted) = user_has_permission db server_id user can_create_invites m₁ in
          let (m₃, deleted) = delete_invite db sql server_id code user m₂ in
          let confirmation =
            message_of MessageKind.server_invite_deleted
              (("server_id", number_value server_id) ∷ ("invite_code", text_value code) ∷ []) in
          if not permitted
          then (m₂, early_exit "permission denied: you lack CAN_CREATE_INVITES permission")
          else if not deleted
          then (m₃, early_exit "invite not found or already deleted")
          else (m₃, record { replies = message_reply confirmation ∷ []; sends = [] }))
        m
