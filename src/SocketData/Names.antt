-- ===== src/SocketData/Names.antt =====
-- Each name that the server writes for a message type is read back as that type, by hash.
use squirrel_communicator.Prelude.{◌≡◌, refl}
use squirrel_communicator.Server.{MessageType}
use squirrel_communicator.Server
use squirrel_communicator.SocketData.Content.{string_to_message_type, message_type_to_string}
use squirrel_communicator.SocketData.Section.{
  SocketMessageSection, string_to_socket_message_section, socket_message_section_to_string,
}
use squirrel_communicator.SocketData.Section
use squirrel_communicator.SocketData.PrivateType.{
  SocketMessagePrivateType, string_to_socket_message_private_type,
  socket_message_private_type_to_string,
}
use squirrel_communicator.SocketData.PrivateType
use squirrel_communicator.SocketData.ServersType.{
  SocketMessageServersType, string_to_socket_message_servers_type,
  socket_message_servers_type_to_string,
}
use squirrel_communicator.SocketData.ServersType

section_read :
    (t : SocketMessageSection)
    → string_to_socket_message_section (socket_message_section_to_string t) ≡ t
unfolding string_to_socket_message_section socket_message_section_to_string
section_read Section.unknown = refl
section_read Section.priv = refl
section_read Section.servers = refl
section_read Section.error = refl

private_type_read :
    (t : SocketMessagePrivateType)
    → string_to_socket_message_private_type (socket_message_private_type_to_string t) ≡ t
unfolding string_to_socket_message_private_type socket_message_private_type_to_string
private_type_read PrivateType.unknown = refl
private_type_read PrivateType.message = refl
private_type_read PrivateType.message_edit = refl
private_type_read PrivateType.message_delete = refl
private_type_read PrivateType.typing = refl
private_type_read PrivateType.message_delivered = refl
private_type_read PrivateType.message_read = refl
private_type_read PrivateType.user_status = refl
private_type_read PrivateType.search_user = refl
private_type_read PrivateType.load_more_messages = refl
private_type_read PrivateType.get_conversations = refl
private_type_read PrivateType.add_conversation = refl
private_type_read PrivateType.get_friend_request_list = refl
private_type_read PrivateType.get_friend_list = refl
private_type_read PrivateType.initial_client_data = refl
private_type_read PrivateType.initial_conversations = refl
private_type_read PrivateType.image_api_key = refl
private_type_read PrivateType.create_friend_request = refl
private_type_read PrivateType.accept_friend_request = refl
private_type_read PrivateType.reject_friend_request = refl
private_type_read PrivateType.cancel_friend_request = refl
private_type_read PrivateType.remove_friend = refl
private_type_read PrivateType.data_stream_channel = refl
private_type_read PrivateType.user_calling = refl
private_type_read PrivateType.friend_request_received = refl
private_type_read PrivateType.friend_request_accepted = refl
private_type_read PrivateType.friend_request_rejected = refl
private_type_read PrivateType.friend_request_canceled = refl
private_type_read PrivateType.friend_removed = refl
private_type_read PrivateType.ping = refl
private_type_read PrivateType.pong = refl
private_type_read PrivateType.error = refl

servers_type_read :
    (t : SocketMessageServersType)
    → string_to_socket_message_servers_type (socket_message_servers_type_to_string t) ≡ t
unfolding string_to_socket_message_servers_type socket_message_servers_type_to_string
servers_type_read ServersType.unknown = refl
servers_type_read ServersType.create_server = refl
servers_type_read ServersType.join_server = refl
servers_type_read ServersType.leave_server = refl
servers_type_read ServersType.server_message = refl
servers_type_read ServersType.server_message_delete = refl
servers_type_read ServersType.create_channel = refl
servers_type_read ServersType.move_channel = refl
servers_type_read ServersType.reorder_channels = refl
servers_type_read ServersType.delete_channel = refl
servers_type_read ServersType.rename_channel = refl
servers_type_read ServersType.server_invite = refl
servers_type_read ServersType.server_join_voice = refl
servers_type_read ServersType.server_leave_voice = refl
servers_type_read ServersType.get_server_list = refl
servers_type_read ServersType.get_server_messages = refl
servers_type_read ServersType.server_create_invite = refl
servers_type_read ServersType.server_join_invite = refl
servers_type_read ServersType.server_update_member_permissions = refl
servers_type_read ServersType.server_delete_invite = refl
servers_type_read ServersType.server_list_invites = refl
servers_type_read ServersType.kick_member = refl
servers_type_read ServersType.get_voice_channel_users = refl
servers_type_read ServersType.ping = refl
servers_type_read ServersType.pong = refl
servers_type_read ServersType.server_created = refl
servers_type_read ServersType.server_user_joined = refl
servers_type_read ServersType.server_user_left = refl
servers_type_read ServersType.server_channel_created = refl
servers_type_read ServersType.server_channel_moved = refl
servers_type_read ServersType.server_channels_reordered = refl
servers_type_read ServersType.server_channel_deleted = refl
servers_type_read ServersType.server_channel_renamed = refl
servers_type_read ServersType.server_user_voice_join = refl
servers_type_read ServersType.server_user_voice_leave = refl
servers_type_read ServersType.server_member_status = refl
servers_type_read ServersType.server_list = refl
servers_type_read ServersType.server_messages = refl
servers_type_read ServersType.server_message_deleted = refl
servers_type_read ServersType.server_invite_created = refl
servers_type_read ServersType.server_joined = refl
servers_type_read ServersType.server_member_permissions_updated = refl
servers_type_read ServersType.server_invite_deleted = refl
servers_type_read ServersType.server_invites_list = refl
servers_type_read ServersType.server_user_kicked = refl
servers_type_read ServersType.voice_channel_users = refl
servers_type_read ServersType.error = refl

message_type_read : (t : MessageType) → string_to_message_type (message_type_to_string t) ≡ t
unfolding string_to_message_type message_type_to_string
message_type_read Server.text = refl
message_type_read Server.image = refl
message_type_read Server.gif = refl
message_type_read Server.video = refl

-- The text of a section, of a message type of either section, or of the type of a message's content
-- reads back as what it was written for.
pub names_read_back :
    (s : SocketMessageSection) (p : SocketMessagePrivateType) (v : SocketMessageServersType)
    (c : MessageType)
    → (string_to_socket_message_section (socket_message_section_to_string s) ≡ s)
      × (string_to_socket_message_private_type (socket_message_private_type_to_string p) ≡ p)
      × (string_to_socket_message_servers_type (socket_message_servers_type_to_string v) ≡ v)
      × (string_to_message_type (message_type_to_string c) ≡ c)
names_read_back s p v c =
    (section_read s, private_type_read p, servers_type_read v, message_type_read c)
