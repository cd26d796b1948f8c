-- ===== src/ServersSocket/Kicked.antt =====
-- Who is gone from a server of FServersManager after the handlers of FServersSocketData for kicking
-- and leaving.
use squirrel_communicator.Prelude.{ℕ, ◌≡◌, ◌≢◌, true, some, is_some, Option, arith, nat_key}
use squirrel_communicator.UnorderedMap.{UnorderedMap, find, find-modify}
use squirrel_communicator.Server.{Server, ServerMember, ServerChannel}
use squirrel_communicator.Server.Channels.{get_all_channels}
use squirrel_communicator.Server.Members.{remove_member}
use squirrel_communicator.Server.Permissions.{can_kick_members}
use squirrel_communicator.ServersManager.{
  Database, ServersManager, server_permits, get_server_by_id, write_server, on_database,
}
use squirrel_communicator.ServersManager.Members.{remove_user_from_server}
use squirrel_communicator.ServersManager.Voice.{leave_each}
use squirrel_communicator.ServersSocket.{Users, broadcast_to_server_members}
use squirrel_communicator.ServersSocket.Members.{leave_server}
use squirrel_communicator.SocketData.ServersType as MessageKind
use mathlib.Core.Option

-- The members of a cached server
abbrev pub members_of : {D : Type 0} → ℕ → ServersManager D → Option (UnorderedMap ℕ ServerMember)
members_of server_id m = Option.map (λ s. s.members) (find server_id m.servers_map)

-- ... and its channels
abbrev pub channels_of : {D : Type 0} → ℕ → ServersManager D → Option (UnorderedMap ℕ ServerChannel)
channels_of server_id m = Option.map (λ s. s.channels) (find server_id m.servers_map)

module _ {D : Type 0} (db : Database D) (users : Users) where
  -- The server after the target has left its voice channels
  abbrev left_server : ℕ → Server → Server
  left_server target s =
      let (s', channels) = get_all_channels s in (leave_each target channels s').0

  -- LeaveServer leaves the user in the voice channels: when it confirms to a member of a cached
  -- server that the user has left, the user is no member, but all channels of the server are as they
  -- were, with the users who are connected to them.
  pub leaves_voice_connected :
      (user server_id : ℕ) (s : Server) (m : ServersManager D)
      → user ≢ 0
      → find server_id m.servers_map ≡ some s
      → (remove_user_from_server db server_id user m).1 ≡ true
      → (members_of server_id (leave_server db users user server_id m).0
          ≡ some (remove_member user s).0.members)
        × (channels_of server_id (leave_server db users user server_id m).0 ≡ some s.channels)
  unfolding leave_server remove_user_from_server on_database write_server get_server_by_id
      broadcast_to_server_members remove_member
  leaves_voice_connected user id s m u e r =
      ground (arith, u, e, r, find-modify id id (λ _. (remove_member user s).0) m.servers_map)

  module _ (user server_id target : ℕ) (s : Server) (m : ServersManager D) where
    -- The guards of the handler on the cached server `s`
    unfoldable IsGuarded : Type 0
    IsGuarded =
        (server_permits user can_kick_members s ≡ true)
        × (target ≢ user)
        × (target ≢ s.owner_id)
        × (is_some (find target s.members) ≡ true)
        × ((remove_user_from_server db server_id target m).1 ≡ true)
