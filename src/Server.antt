-- ===== src/Server.antt =====
-- FServer and its data (ProjectServer/Source/Public/Managers/Server.h and MessageType.h): the types,
-- the record of a server, and the simple accessors. Its operations on channels, members and messages
-- are in the children. A `shared_ptr` to a channel is the channel's id.
pub mod Channels
pub mod Members
pub mod Messages
pub mod Permissions
mod Tests
use squirrel_communicator.Prelude.{
  ℕ, ◌-◌, String, Bool, false, not, List, [], ltb, leb, ◌==◌, if◌then◌else◌,
}
use squirrel_communicator.UnorderedMap.{UnorderedMap}
use Prim.Native.Nat.{bit_and, bit_or}

-- EServerChannelType
pub data ServerChannelType : Type 0 where
  text voice : ServerChannelType

-- EMessageType
pub data MessageType : Type 0 where
  text image gif video : MessageType

-- FServerChannel
pub record ServerChannel : Type 0 where
  pub channel_id : ℕ
  pub server_id : ℕ
  pub channel_name : String
  pub channel_type : ServerChannelType
  pub position : ℕ
  pub connected_users : List ℕ

-- FServerMessage
pub record ServerMessage : Type 0 where
  pub message_id : ℕ
  pub channel_id : ℕ
  pub sender_id : ℕ
  pub sender_name : String
  pub content : String
  pub created_at : ℕ
  pub message_type : MessageType

-- FServerMember
pub record ServerMember : Type 0 where
  pub user_id : ℕ
  pub user_name : String
  pub status : String
  pub permissions : ℕ

-- FServer
pub record Server : Type 0 where
  pub server_id : ℕ
  pub server_name : String
  pub owner_id : ℕ
  pub token : String
  pub created_at : ℕ
  pub channels : UnorderedMap ℕ ServerChannel
  pub members : UnorderedMap ℕ ServerMember
  pub channel_messages : UnorderedMap ℕ (List ServerMessage)
  pub cached_sorted_channels : List ℕ
  pub channel_cache_valid : Bool

-- FServer::FServer
unfoldable pub init : Server
init = record {
  server_id = 0;
  server_name = "";
  owner_id = 0;
  token = "";
  created_at = 0;
  channels = [];
  members = [];
  channel_messages = [];
  cached_sorted_channels = [];
  channel_cache_valid = false;
}
