-- ===== src/SocketData/PrivateType.antt =====
-- ESocketMessagePrivateType (ProjectServer/Source/Public/Sockets/SocketData.h) and its conversions
-- (ProjectServer/Source/Private/Sockets/SocketData.cpp).
use squirrel_communicator.Prelude.{String, List, [], ◌∷◌}
use squirrel_communicator.SocketData.{switch_hash}

-- ESocketMessagePrivateType
pub data SocketMessagePrivateType : Type 0 where
  unknown : SocketMessagePrivateType
  message : SocketMessagePrivateType
  message_edit : SocketMessagePrivateType
  message_delete : SocketMessagePrivateType
  typing : SocketMessagePrivateType
  message_delivered : SocketMessagePrivateType
  message_read : SocketMessagePrivateType
  user_status : SocketMessagePrivateType
  search_user : SocketMessagePrivateType
  load_more_messages : SocketMessagePrivateType
  get_conversations : SocketMessagePrivateType
  add_conversation : SocketMessagePrivateType
  get_friend_request_list : SocketMessagePrivateType
  get_friend_list : SocketMessagePrivateType
  initial_client_data : SocketMessagePrivateType
  initial_conversations : SocketMessagePrivateType
  image_api_key : SocketMessagePrivateType
  create_friend_request : SocketMessagePrivateType
  accept_friend_request : SocketMessagePrivateType
  reject_friend_request : SocketMessagePrivateType
  cancel_friend_request : SocketMessagePrivateType
  remove_friend : SocketMessagePrivateType
  data_stream_channel : SocketMessagePrivateType
  user_calling : SocketMessagePrivateType
  friend_request_received : SocketMessagePrivateType
  friend_request_accepted : SocketMessagePrivateType
  friend_request_rejected : SocketMessagePrivateType
  friend_request_canceled : SocketMessagePrivateType
  friend_removed : SocketMessagePrivateType
  ping : SocketMessagePrivateType
  pong : SocketMessagePrivateType
  error : SocketMessagePrivateType

-- the labels of the switch, in order
unfoldable pub labels : List (String × SocketMessagePrivateType)
labels =
    ("message", message)
    ∷ ("message_edit", message_edit)
    ∷ ("message_delete", message_delete)
    ∷ ("typing", typing)
    ∷ ("message_delivered", message_delivered)
    ∷ ("message_read", message_read)
    ∷ ("user_status", user_status)
    ∷ ("search_user", search_user)
    ∷ ("load_more_messages", load_more_messages)
    ∷ ("get_conversations", get_conversations)
    ∷ ("add_conversation", add_conversation)
    ∷ ("get_friend_list", get_friend_list)
    ∷ ("get_friend_request_list", get_friend_request_list)
    ∷ ("initial_client_data", initial_client_data)
    ∷ ("initial_conversations", initial_conversations)
    ∷ ("image_api_key", image_api_key)
    ∷ ("create_friend_request", create_friend_request)
    ∷ ("accept_friend_request", accept_friend_request)
    ∷ ("reject_friend_request", reject_friend_request)
    ∷ ("cancel_friend_request", cancel_friend_request)
    ∷ ("remove_friend", remove_friend)
    ∷ ("data_stream_channel", data_stream_channel)
    ∷ ("user_calling", user_calling)
    ∷ ("friend_request_received", friend_request_received)
    ∷ ("friend_request_accepted", friend_request_accepted)
    ∷ ("friend_request_rejected", friend_request_rejected)
    ∷ ("friend_request_canceled", friend_request_canceled)
    ∷ ("friend_removed", friend_removed)
    ∷ ("ping", ping)
    ∷ ("pong", pong)
    ∷ ("error", error)
    ∷ []

-- StringToSocketMessagePrivateType
unfoldable pub string_to_socket_message_private_type : String → SocketMessagePrivateType
unfolding switch_hash labels
string_to_socket_message_private_type text = switch_hash text labels unknown

-- SocketMessagePrivateTypeToString
unfoldable pub socket_message_private_type_to_string : SocketMessagePrivateType → String
socket_message_private_type_to_string unknown = "unknown"
socket_message_private_type_to_string message = "message"
socket_message_private_type_to_string message_edit = "message_edit"
socket_message_private_type_to_string message_delete = "message_delete"
socket_message_private_type_to_string typing = "typing"
socket_message_private_type_to_string message_delivered = "message_delivered"
socket_message_private_type_to_string message_read = "message_read"
socket_message_private_type_to_string user_status = "user_status"
socket_message_private_type_to_string search_user = "search_user"
socket_message_private_type_to_string load_more_messages = "load_more_messages"
socket_message_private_type_to_string get_conversations = "get_conversations"
socket_message_private_type_to_string add_conversation = "add_conversation"
socket_message_private_type_to_string get_friend_request_list = "get_friend_request_list"
socket_message_private_type_to_string get_friend_list = "get_friend_list"
socket_message_private_type_to_string initial_client_data = "initial_client_data"
socket_message_private_type_to_string initial_conversations = "initial_conversations"
socket_message_private_type_to_string image_api_key = "image_api_key"
socket_message_private_type_to_string create_friend_request = "create_friend_request"
socket_message_private_type_to_string accept_friend_request = "accept_friend_request"
socket_message_private_type_to_string reject_friend_request = "reject_friend_request"
socket_message_private_type_to_string cancel_friend_request = "cancel_friend_request"
socket_message_private_type_to_string remove_friend = "remove_friend"
socket_message_private_type_to_string data_stream_channel = "data_stream_channel"
socket_message_private_type_to_string user_calling = "user_calling"
socket_message_private_type_to_string friend_request_received = "friend_request_received"
socket_message_private_type_to_string friend_request_accepted = "friend_request_accepted"
socket_message_private_type_to_string friend_request_rejected = "friend_request_rejected"
socket_message_private_type_to_string friend_request_canceled = "friend_request_canceled"
socket_message_private_type_to_string friend_removed = "friend_removed"
socket_message_private_type_to_string ping = "ping"
socket_message_private_type_to_string pong = "pong"
socket_message_private_type_to_string error = "error"
