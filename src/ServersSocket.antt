-- ===== src/ServersSocket.antt =====
-- FServersSocketData (ProjectServer/Source/Private/Sockets/ServersSocketData.cpp): the handlers of
-- the WebSocket for servers, over FServersManager. The id of the session's user is an argument, 0
-- where the socket has no session. What a handler sends is a list of replies to its own socket, and
-- one of messages to users, each put into the queue of the user's socket. The manager of users is
-- the record Users.
pub mod Channels
pub mod Members
pub mod Messages
pub mod Presence
pub mod ServerData
pub mod Servers
pub mod Foreign
pub mod Kicked
mod Tests
use squirrel_communicator.Prelude.{
  ℕ, String, Bool, true, false, Option, none, some, List, [], ◌∷◌, ◌++◌, ◌==◌, if◌then◌else◌,
  nat_key,
}
use squirrel_communicator.Server.{Server, ServerMember}
use squirrel_communicator.Server.Members.{get_members}
use squirrel_communicator.Server.Permissions.{can_manage_channels}
use squirrel_communicator.ServersManager.{
  Database, ServersManager, get_server_by_id, user_has_permission,
}
use squirrel_communicator.ServersManager.Members.{is_user_in_server}
use squirrel_communicator.SocketData.ServersType.{
  SocketMessageServersType, socket_message_servers_type_to_string,
}
use mathlib.Core.Option

-- FUserManager::GetUserById: the name of a user, if there is one, and whether the status is Online
pub record Users : Type 0 where
  pub user_name : ℕ → Option String
  pub is_online : ℕ → Bool

-- The values in the member "data" of a message
pub data JsonValue : Type 0 where
  text_value : String → JsonValue
  number_value : ℕ → JsonValue
  numbers_value : List ℕ → JsonValue

-- A JSON object with the members "type" and "data"
pub record Message : Type 0 where
  pub type : String
  pub data_members : List (String × JsonValue)

-- A channel in a server's data: the users who are connected to it, if it is a voice channel
pub record ChannelJson : Type 0 where
  pub channel_members : List (String × JsonValue)
  pub connected_users : Option (List (List (String × JsonValue)))

-- A server's data
pub record ServerJson : Type 0 where
  pub server_members : List (String × JsonValue)
  pub channels : List ChannelJson
  pub members : List (List (String × JsonValue))

pub data Reply : Type 0 where
  failure : String → Reply
  message_reply : Message → Reply
  -- ServerMessages: "messages" and "has_more"
  messages_reply : String → List (List (String × JsonValue)) → Bool → Reply
  -- a message whose data is a server's, or null
  server_reply : String → Option ServerJson → Reply
  -- a message whose data has an array of objects too, under a name
  list_reply : Message → String → List (List (String × JsonValue)) → Reply

pub record Sent : Type 0 where
  pub replies : List Reply
  pub sends : List (ℕ × Message)

-- FSocket::EarlyExit
unfoldable pub early_exit : String → Sent
early_exit message = record { replies = failure message ∷ []; sends = [] }

-- A message to be sent
unfoldable pub message_of : SocketMessageServersType → List (String × JsonValue) → Message
unfolding socket_message_servers_type_to_string
message_of type members = record {
  type = socket_message_servers_type_to_string type;
  data_members = members;
}

-- GetUserName
unfoldable pub get_user_name : Users → ℕ → String
get_user_name users user_id = Option.get_or (users.user_name user_id) "Unknown"

-- SendToUser: nothing for a user who does not exist or is not online
unfoldable pub send_to_user : Users → ℕ → Message → List (ℕ × Message)
send_to_user users user_id message = elim (users.user_name user_id) [
  | none ↦ []
  | some name ↦ if users.is_online user_id then (user_id, message) ∷ [] else []
]

-- BroadcastToServerMembers, the loop
unfoldable pub send_to_members : Users → Message → ℕ → List ServerMember → List (ℕ × Message)
unfolding send_to_user
send_to_members users message exclude [] = []
send_to_members users message exclude (member ∷ members) =
    let rest = send_to_members users message exclude members in
    if member.user_id == exclude then rest else send_to_user users member.user_id message ++ rest

module _ {D : Type 0} (db : Database D) (users : Users) where
  -- BroadcastToServerMembers; no user has the id 0, which is the default of ExcludeUserId
  unfoldable pub broadcast_to_server_members :
      ℕ → Message → ℕ → ServersManager D → ServersManager D × List (ℕ × Message)
  unfolding get_server_by_id send_to_members get_members
  broadcast_to_server_members server_id message exclude m =
      let (m', server) = get_server_by_id db server_id m in
      (
        m',
        elim server [ none ↦ [] | some s ↦ send_to_members users message exclude (get_members s) ],
      )

  -- IsServerOwner
  unfoldable pub is_server_owner : ℕ → ℕ → ServersManager D → ServersManager D × Bool
  unfolding get_server_by_id
  is_server_owner server_id user_id m =
      let (m', server) = get_server_by_id db server_id m in
      (m', elim server [ none ↦ false | some s ↦ s.owner_id == user_id ])

  -- What most handlers begin with: the session and the membership
  unfoldable pub as_member :
      ℕ
      → ℕ
      → (ServersManager D → ServersManager D × Sent)
      → ServersManager D
      → ServersManager D × Sent
  unfolding is_user_in_server early_exit
  as_member server_id user handle m =
      let (m', is_member) = is_user_in_server db server_id user m in
      let handled = handle m' in
      if user == 0
      then (m, early_exit "not authenticated")
      else if is_member
      then handled
      else (m', early_exit "not a member of this server")

  -- What the handlers of channels add: the permission
  unfoldable pub as_channel_manager :
      ℕ
      → ℕ
      → (ServersManager D → ServersManager D × Sent)
      → ServersManager D
      → ServersManager D × Sent
  unfolding as_member user_has_permission early_exit
  as_channel_manager server_id user handle m =
      as_member server_id user
        (λ m'.
          let (m'', permitted) = user_has_permission db server_id user can_manage_channels m' in
          let handled = handle m'' in
          if permitted
          then handled
          else (m'', early_exit "permission denied: you lack CAN_MANAGE_CHANNELS permission"))
        m

  -- What the handlers of channels end with: the reply and the same message to all members
  unfoldable pub reply_and_broadcast : ℕ → Message → ServersManager D → ServersManager D × Sent
  unfolding broadcast_to_server_members
  reply_and_broadcast server_id message m =
      let (m', sends) = broadcast_to_server_members server_id message 0 m in
      (m', record { replies = message_reply message ∷ []; sends = sends })

  -- ... and those that only broadcast
  unfoldable pub broadcast_only : ℕ → Message → ServersManager D → ServersManager D × Sent
  unfolding broadcast_to_server_members
  broadcast_only server_id message m =
      let (m', sends) = broadcast_to_server_members server_id message 0 m in
      (m', record { replies = []; sends = sends })
