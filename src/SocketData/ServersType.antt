-- ===== src/SocketData/ServersType.antt =====
-- ESocketMessageServersType (ProjectServer/Source/Public/Sockets/SocketData.h) and its conversions
-- (ProjectServer/Source/Private/Sockets/SocketData.cpp).
use squirrel_communicator.Prelude.{String, List, [], ◌∷◌}
use squirrel_communicator.SocketData.{switch_hash}

-- ESocketMessageServersType
pub data SocketMessageServersType : Type 0 where
  unknown : SocketMessageServersType
  create_server : SocketMessageServersType
  join_server : SocketMessageServersType
  leave_server : SocketMessageServersType
  server_message : SocketMessageServersType
  server_message_delete : SocketMessageServersType
  create_channel : SocketMessageServersType
  move_channel : SocketMessageServersType
  reorder_channels : SocketMessageServersType
  delete_channel : SocketMessageServersType
  rename_channel : SocketMessageServersType
  server_invite : SocketMessageServersType
  server_join_voice : SocketMessageServersType
  server_leave_voice : SocketMessageServersType
  get_server_list : SocketMessageServersType
  get_server_messages : SocketMessageServersType
  server_create_invite : SocketMessageServersType
  server_join_invite : SocketMessageServersType
  server_update_member_permissions : SocketMessageServersType
  server_delete_invite : SocketMessageServersType
  server_list_invites : SocketMessageServersType
  kick_member : SocketMessageServersType
  get_voice_channel_users : SocketMessageServersType
  ping : SocketMessageServersType
  pong : SocketMessageServersType
  server_created : SocketMessageServersType
  server_user_joined : SocketMessageServersType
  server_user_left : SocketMessageServersType
  server_channel_created : SocketMessageServersType
  server_channel_moved : SocketMessageServersType
  server_channels_reordered : SocketMessageServersType
  server_channel_deleted : SocketMessageServersType
  server_channel_renamed : SocketMessageServersType
  server_user_voice_join : SocketMessageServersType
  server_user_voice_leave : SocketMessageServersType
  server_member_status : SocketMessageServersType
  server_list : SocketMessageServersType
  server_messages : SocketMessageServersType
  server_message_deleted : SocketMessageServersType
  server_invite_created : SocketMessageServersType
  server_joined : SocketMessageServersType
  server_member_permissions_updated : SocketMessageServersType
  server_invite_deleted : SocketMessageServersType
  server_invites_list : SocketMessageServersType
  server_user_kicked : SocketMessageServersType
  voice_channel_users : SocketMessageServersType
  error : SocketMessageServersType

-- the labels of the switch, in order
unfoldable pub labels : List (String × SocketMessageServersType)
labels =
    ("create_server", create_server)
    ∷ ("join_server", join_server)
    ∷ ("leave_server", leave_server)
    ∷ ("server_message", server_message)
    ∷ ("server_message_delete", server_message_delete)
    ∷ ("create_channel", create_channel)
    ∷ ("move_channel", move_channel)
    ∷ ("reorder_channels", reorder_channels)
    ∷ ("delete_channel", delete_channel)
    ∷ ("rename_channel", rename_channel)
    ∷ ("server_invite", server_invite)
    ∷ ("server_join_voice", server_join_voice)
    ∷ ("server_leave_voice", server_leave_voice)
    ∷ ("get_server_list", get_server_list)
    ∷ ("get_server_messages", get_server_messages)
    ∷ ("server_create_invite", server_create_invite)
    ∷ ("server_join_invite", server_join_invite)
    ∷ ("server_update_member_permissions", server_update_member_permissions)
    ∷ ("server_delete_invite", server_delete_invite)
    ∷ ("server_list_invites", server_list_invites)
    ∷ ("kick_member", kick_member)
    ∷ ("get_voice_channel_users", get_voice_channel_users)
    ∷ ("ping", ping)
    ∷ ("pong", pong)
    ∷ ("server_created", server_created)
    ∷ ("server_user_joined", server_user_joined)
    ∷ ("server_user_left", server_user_left)
    ∷ ("server_channel_created", server_channel_created)
    ∷ ("server_channel_moved", server_channel_moved)
    ∷ ("server_channels_reordered", server_channels_reordered)
    ∷ ("server_channel_deleted", server_channel_deleted)
    ∷ ("server_channel_renamed", server_channel_renamed)
    ∷ ("server_voice_joined", server_user_voice_join)
    ∷ ("server_voice_left", server_user_voice_leave)
    ∷ ("server_member_status", server_member_status)
    ∷ ("server_list", server_list)
    ∷ ("server_messages", server_messages)
    ∷ ("server_message_deleted", server_message_deleted)
    ∷ ("server_invite_created", server_invite_created)
    ∷ ("server_joined", server_joined)
    ∷ ("server_member_permissions_updated", server_member_permissions_updated)
    ∷ ("server_invite_deleted", server_invite_deleted)
    ∷ ("server_invites_list", server_invites_list)
    ∷ ("server_user_kicked", server_user_kicked)
    ∷ ("voice_channel_users", voice_channel_users)
    ∷ ("error", error)
    ∷ []

-- StringToSocketMessageServersType
unfoldable pub string_to_socket_message_servers_type : String → SocketMessageServersType
unfolding switch_hash labels
string_to_socket_message_servers_type text = switch_hash text labels unknown

-- SocketMessageServersTypeToString
unfoldable pub socket_message_servers_type_to_string : SocketMessageServersType → String
socket_message_servers_type_to_string unknown = "unknown"
socket_message_servers_type_to_string create_server = "create_server"
socket_message_servers_type_to_string join_server = "join_server"
socket_message_servers_type_to_string leave_server = "leave_server"
socket_message_servers_type_to_string server_message = "server_message"
socket_message_servers_type_to_string server_message_delete = "server_message_delete"
socket_message_servers_type_to_string create_channel = "create_channel"
socket_message_servers_type_to_string move_channel = "move_channel"
socket_message_servers_type_to_string reorder_channels = "reorder_channels"
socket_message_servers_type_to_string delete_channel = "delete_channel"
socket_message_servers_type_to_string rename_channel = "rename_channel"
socket_message_servers_type_to_string server_invite = "server_invite"
socket_message_servers_type_to_string server_join_voice = "server_join_voice"
socket_message_servers_type_to_string server_leave_voice = "server_leave_voice"
socket_message_servers_type_to_string get_server_list = "get_server_list"
socket_message_servers_type_to_string get_server_messages = "get_server_messages"
socket_message_servers_type_to_string server_create_invite = "server_create_invite"
socket_message_servers_type_to_string server_join_invite = "server_join_invite"
socket_message_servers_type_to_string server_update_member_permissions =
    "server_update_member_permissions"
socket_message_servers_type_to_string server_delete_invite = "server_delete_invite"
socket_message_servers_type_to_string server_list_invites = "server_list_invites"
socket_message_servers_type_to_string kick_member = "kick_member"
socket_message_servers_type_to_string get_voice_channel_users = "get_voice_channel_users"
socket_message_servers_type_to_string ping = "ping"
socket_message_servers_type_to_string pong = "pong"
socket_message_servers_type_to_string server_created = "server_created"
socket_message_servers_type_to_string server_user_joined = "server_user_joined"
socket_message_servers_type_to_string server_user_left = "server_user_left"
socket_message_servers_type_to_string server_channel_created = "server_channel_created"
socket_message_servers_type_to_string server_channel_moved = "server_channel_moved"
socket_message_servers_type_to_string server_channels_reordered = "server_channels_reordered"
socket_message_servers_type_to_string server_channel_deleted = "server_channel_deleted"
socket_message_servers_type_to_string server_channel_renamed = "server_channel_renamed"
socket_message_servers_type_to_string server_user_voice_join = "server_voice_joined"
socket_message_servers_type_to_string server_user_voice_leave = "server_voice_left"
socket_message_servers_type_to_string server_member_status = "server_member_status"
socket_message_servers_type_to_string server_list = "server_list"
socket_message_servers_type_to_string server_messages = "server_messages"
socket_message_servers_type_to_string server_message_deleted = "server_message_deleted"
socket_message_servers_type_to_string server_invite_created = "server_invite_created"
socket_message_servers_type_to_string server_joined = "server_joined"
socket_message_servers_type_to_string server_member_permissions_updated =
    "server_member_permissions_updated"
socket_message_servers_type_to_string server_invite_deleted = "server_invite_deleted"
socket_message_servers_type_to_string server_invites_list = "server_invites_list"
socket_message_servers_type_to_string server_user_kicked = "server_user_kicked"
socket_message_servers_type_to_string voice_channel_users = "voice_channel_users"
socket_message_servers_type_to_string error = "error"
