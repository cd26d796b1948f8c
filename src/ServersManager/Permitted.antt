-- ===== src/ServersManager/Permitted.antt =====
-- Who may change the channels of a server in FServersManager.
use squirrel_communicator.Prelude.{
  ℕ, String, ◌/◌, ◌%◌, ◌≡◌, ◌≢◌, false, some, List, arith, if◌then◌else◌, nat_key,
}
use squirrel_communicator.UnorderedMap.{find}
use squirrel_communicator.Server.{Server, ServerChannelType}
use squirrel_communicator.Server.Permissions.{can_manage_channels}
use squirrel_communicator.ServersManager.{
  Database, ServersManager, get_server_by_id, server_permits, user_has_permission,
}
use squirrel_communicator.ServersManager.Allowed.{permissions_of, manages_no_channels}
use squirrel_communicator.ServersManager.Channels.{
  as_manager, add_in, remove_in, move_in, reorder_in, rename_in, add_channel, remove_channel,
  move_channel, reorder_channels, rename_channel,
}

module _ {D : Type 0} (db : Database D) where
  cached_server :
      (server_id : ℕ) (s : Server) (m : ServersManager D)
      → find server_id m.servers_map ≡ some s
      → get_server_by_id db server_id m ≡ (m, some s)
  unfolding get_server_by_id
  cached_server server_id s m e = rw (e, get_server_by_id)

  permission-cached :
      (server_id user_id permission : ℕ) (s : Server) (m : ServersManager D)
      → find server_id m.servers_map ≡ some s
      → user_has_permission db server_id user_id permission m
        ≡ (m, server_permits user_id permission s)
  unfolding user_has_permission
  permission-cached server_id user_id permission s m e = ground (arith, cached_server server_id s m)

  -- With the server in the cache, a handler starts exactly when the user has the permission.
  pub as_manager-cached :
      {R : Type 0} (server_id user_id : ℕ) (refusal : R)
      (handler : Server → ServersManager D → ServersManager D × R) (s : Server)
      (m : ServersManager D)
      → find server_id m.servers_map ≡ some s
      → as_manager db server_id user_id refusal handler m
        ≡ (if server_permits user_id can_manage_channels s then handler s m else (m, refusal))
  unfolding as_manager
  as_manager-cached server_id user_id refusal handler s m e = ground (
    arith,
    cached_server server_id s m,
    permission-cached server_id user_id can_manage_channels s m,
  )

  -- A user who is not the owner of a cached server and whose entry in its members map, if there is
  -- one, lacks the bit of value 8 in the permissions is refused by every operation on channels, which
  -- then changes neither a server nor the database.
  pub refuses_without_permission :
      (server_id user_id channel_id position : ℕ) (name : String) (type : ServerChannelType)
      (ids : List ℕ) (s : Server) (m : ServersManager D)
      → find server_id m.servers_map ≡ some s
      → s.owner_id ≢ user_id
      → permissions_of user_id s / 8 % 2 ≢ 1
      → (add_channel db server_id name type user_id m ≡ (m, 0))
        × (remove_channel db server_id channel_id user_id m ≡ (m, false))
        × (move_channel db server_id channel_id position user_id m ≡ (m, false))
        × (reorder_channels db server_id ids user_id m ≡ (m, false))
        × (rename_channel db server_id channel_id name user_id m ≡ (m, false))
  unfolding add_channel remove_channel move_channel reorder_channels rename_channel
  refuses_without_permission server_id user_id channel_id position name type ids s m e o n = (
    refused 0 (add_in db server_id name type),
    refused false (remove_in db server_id channel_id),
    refused false (move_in db server_id channel_id position),
    refused false (reorder_in db server_id ids),
    refused false (rename_in db server_id channel_id name),
  )
    where
      refused :
          {R : Type 0} (refusal : R) (handler : Server → ServersManager D → ServersManager D × R)
          → as_manager db server_id user_id refusal handler m ≡ (m, refusal)
      refused refusal handler = ground (
        arith,
        as_manager-cached server_id user_id refusal handler s m,
        manages_no_channels user_id s o n,
      )
