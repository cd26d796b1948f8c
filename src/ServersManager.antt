-- ===== src/ServersManager.antt =====
-- FServersManager (ProjectServer/Source/Private/Managers/ServersManager.cpp): the cache of servers
-- over the database. What SQL statements do is the interface Database: its state changes with each
-- call, and a call may fail. A shared pointer to a server is the server's id in `servers_map`.
pub mod Allowed
pub mod Channels
pub mod Members
pub mod Voice
pub mod Permitted
pub mod Positions
pub mod Messages
pub mod Invites
pub mod Retention
pub mod Servers
pub mod Home
mod Tests
use squirrel_communicator.Prelude.{
  ℕ, String, Bool, true, false, is_yes, ◌≟◌, Option, none, some, List, if◌then◌else◌, nat_key,
}
use squirrel_communicator.UnorderedMap.{UnorderedMap, find, insert_or_assign, modify}
use squirrel_communicator.Server.{Server, ServerChannel}
use squirrel_communicator.Server.Members.{
  add_member, remove_member, has_member, update_member_permissions, get_member_permissions,
}
use squirrel_communicator.Server.Permissions.{has_permission}
use squirrel_communicator.Server as S

-- The statements that the manager runs. An answer `false` or `none` is an exception or no row.
pub record Database (D : Type 0) : Type 0 where
  -- FDataBaseConnect: whether a new connection is open
  pub connect : D → D × Bool
  -- the rows of a server, its channels and its members
  pub select_server : ℕ → D → Option Server
  -- MAX(position) of a server's channels
  pub select_max_position : ℕ → D → Option ℕ
  pub insert_channel : ServerChannel → D → D × Option ℕ
  pub delete_channel : ℕ → ℕ → D → D × Bool
  pub update_position : ℕ → ℕ → ℕ → D → D × Bool
  pub update_name : ℕ → ℕ → String → D → D × Bool
  pub update_permissions : ℕ → ℕ → ℕ → D → D × Bool
  pub insert_member : ℕ → ℕ → ℕ → D → D × Bool
  pub delete_member : ℕ → ℕ → D → D × Bool
  pub delete_server : ℕ → D → D × Bool

pub record ServersManager (D : Type 0) : Type 0 where
  pub servers_map : UnorderedMap ℕ Server
  pub user_to_server_ids_cache : UnorderedMap ℕ (List ℕ)
  pub invite_code_to_server_id : UnorderedMap String ℕ
  pub post_second_tick_counter : ℕ
  pub message_retention_counter : ℕ
  pub cleanup_in_progress : Bool
  pub database : D

-- A write through the pointer to a server
unfoldable pub write_server : {D : Type 0} → ℕ → Server → ServersManager D → ServersManager D
write_server server_id s m = record m { servers_map = modify server_id (λ _. s) m.servers_map }

-- UserHasPermission, on the server
unfoldable pub server_permits : ℕ → ℕ → Server → Bool
unfolding S.Members.get_member_permissions has_permission
server_permits user_id permission s =
    if is_yes (s.owner_id ≟ user_id)
    then true
    else has_permission (S.Members.get_member_permissions user_id s) permission

module _ {D : Type 0} (db : Database D) where
  -- A statement on a connection of its own, as the ...InDB methods run it
  unfoldable pub on_database : (D → D × Bool) → ServersManager D → ServersManager D × Bool
  on_database statement m =
      let (d, is_connected) = db.connect m.database in
      let (d', done) = statement d in
      if is_connected
      then (record m { database = d' }, done)
      else (record m { database = d }, false)

  -- DownloadServerFromDB
  unfoldable pub download_server_from_db : ℕ → ServersManager D → ServersManager D × Bool
  download_server_from_db server_id m =
      let (d, is_connected) = db.connect m.database in
      let m' : ServersManager D = record m { database = d } in
      if is_connected
      then elim (db.select_server server_id d) [
        | none ↦ (m', false)
        | some s ↦ (record m' { servers_map = insert_or_assign server_id s m.servers_map }, true)
      ]
      else (m', false)

  -- GetServerById
  unfoldable pub get_server_by_id : ℕ → ServersManager D → ServersManager D × Option Server
  unfolding download_server_from_db
  get_server_by_id server_id m = elim (find server_id m.servers_map) [
    | some s ↦ (m, some s)
    | none ↦
        let (m', loaded) = download_server_from_db server_id m in
        (m', if loaded then find server_id m'.servers_map else none)
  ]

  -- UserHasPermission
  unfoldable pub user_has_permission : ℕ → ℕ → ℕ → ServersManager D → ServersManager D × Bool
  unfolding get_server_by_id server_permits
  user_has_permission server_id user_id permission m =
      let (m', server) = get_server_by_id server_id m in
      elim server [ none ↦ (m', false) | some s ↦ (m', server_permits user_id permission s) ]
