-- ===== src/ServersSocket/Channels.antt =====
-- The handlers of FServersSocketData for channels
-- (ProjectServer/Source/Private/Sockets/ServersSocketData.cpp).
use squirrel_communicator.Prelude.{
  ℕ, String, List, [], ◌∷◌, ◌==◌, is_yes, ◌≟◌, if◌then◌else◌, length, string_key,
}
use squirrel_communicator.Server.{text, voice}
use squirrel_communicator.ServersManager.{Database, ServersManager}
use squirrel_communicator.ServersManager.Channels as Own
use squirrel_communicator.SocketData.ServersType as MessageKind
use squirrel_communicator.ServersSocket.{
  Users, Sent, text_value, number_value, numbers_value, message_of, early_exit, as_member,
  as_channel_manager, reply_and_broadcast, broadcast_only,
}

module _ {D : Type 0} (db : Database D) (users : Users) where
  -- CreateChannel
  unfoldable pub create_channel :
      ℕ → ℕ → String → String → ServersManager D → ServersManager D × Sent
  unfolding as_member Own.add_channel message_of broadcast_only early_exit
  create_channel user server_id channel_name channel_type m =
      as_member db users server_id user
        (λ m₁.
          let type = if is_yes (channel_type ≟ "voice") then voice else text in
          let (m₂, channel_id) = Own.add_channel db server_id channel_name type user m₁ in
          let message = message_of MessageKind.server_channel_created (
            ("server_id", number_value server_id)
            ∷ ("channel_id", number_value channel_id)
            ∷ ("channel_name", text_value channel_name)
            ∷ ("channel_type", text_value channel_type)
            ∷ []) in
          let sent = broadcast_only db users server_id message m₂ in
          if channel_id == 0 then (m₂, early_exit "failed to create channel") else sent)
        m

  -- HandleMoveChannel; the int32 position is given on as a uint32
  unfoldable pub handle_move_channel : ℕ → ℕ → ℕ → ℕ → ServersManager D → ServersManager D × Sent
  unfolding as_channel_manager Own.move_channel message_of reply_and_broadcast early_exit
  handle_move_channel user server_id channel_id new_position m =
      as_channel_manager db users server_id user
        (λ m₁.
          let (m₂, done) = Own.move_channel db server_id channel_id new_position user m₁ in
          let message = message_of MessageKind.server_channel_moved (
            ("server_id", number_value server_id)
            ∷ ("channel_id", number_value channel_id)
            ∷ ("new_position", number_value new_position)
            ∷ []) in
          let sent = reply_and_broadcast db users server_id message m₂ in
          if done then sent else (m₂, early_exit "failed to move channel"))
        m

  -- HandleReorderChannels
  unfoldable pub handle_reorder_channels :
      ℕ → ℕ → List ℕ → ServersManager D → ServersManager D × Sent
  unfolding as_channel_manager Own.reorder_channels message_of reply_and_broadcast early_exit
  handle_reorder_channels user server_id channel_ids m =
      as_channel_manager db users server_id user
        (λ m₁.
          let (m₂, done) = Own.reorder_channels db server_id channel_ids user m₁ in
          let message = message_of MessageKind.server_channels_reordered (
            ("server_id", number_value server_id)
            ∷ ("channel_ids", numbers_value channel_ids)
            ∷ []) in
          let sent = reply_and_broadcast db users server_id message m₂ in
          if length channel_ids == 0
          then (m₁, early_exit "channel_ids array must not be empty")
          else if done
          then sent
          else (m₂, early_exit "failed to reorder channels"))
        m

  -- HandleDeleteChannel
  unfoldable pub handle_delete_channel : ℕ → ℕ → ℕ → ServersManager D → ServersManager D × Sent
  unfolding as_channel_manager Own.remove_channel message_of reply_and_broadcast early_exit
  handle_delete_channel user server_id channel_id m =
      as_channel_manager db users server_id user
        (λ m₁.
          let (m₂, done) = Own.remove_channel db server_id channel_id user m₁ in
          let message = message_of MessageKind.server_channel_deleted (
            ("server_id", number_value server_id) ∷ ("channel_id", number_value channel_id) ∷ []) in
          let sent = reply_and_broadcast db users server_id message m₂ in
          if done then sent else (m₂, early_exit "failed to delete channel or channel not found"))
        m

  -- HandleRenameChannel
  unfoldable pub handle_rename_channel :
      ℕ → ℕ → ℕ → String → ServersManager D → ServersManager D × Sent
  unfolding as_channel_manager Own.rename_channel message_of reply_and_broadcast early_exit
  handle_rename_channel user server_id channel_id new_name m =
      as_channel_manager db users server_id user
        (λ m₁.
          let (m₂, done) = Own.rename_channel db server_id channel_id new_name user m₁ in
          let message = message_of MessageKind.server_channel_renamed (
            ("server_id", number_value server_id)
            ∷ ("channel_id", number_value channel_id)
            ∷ ("new_name", text_value new_name)
            ∷ []) in
          let sent = reply_and_broadcast db users server_id message m₂ in
          if done then sent else (m₂, early_exit "failed to rename channel or channel not found"))
        m
