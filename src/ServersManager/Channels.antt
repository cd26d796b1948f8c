-- ===== src/ServersManager/Channels.antt =====
-- FServersManager's channels (ProjectServer/Source/Private/Managers/ServersManager.cpp): adding,
-- removing, moving, reordering, renaming and renumbering. A server has fewer than 2^31 channels, so
-- that the casts of sizes and indices to 32 bits change nothing.
pub mod Moves
pub mod Numbered
pub mod Reordered
pub mod Shown
pub mod Stored
use squirrel_communicator.Prelude.{
  ℕ, zero, suc, ◌+◌, ◌-◌, String, Bool, true, false, not, ◌&&◌, is_yes, ◌≟◌, leb, ◌==◌, Option,
  none, some, List, [], ◌∷◌, map, if◌then◌else◌, length, nat_key, string_key,
}
use squirrel_communicator.UnorderedMap.{UnorderedMap, find, has_key, modify, insert_or_assign}
use squirrel_communicator.Server.{Server, ServerChannel, ServerChannelType}
use squirrel_communicator.Server.Channels as Own
use squirrel_communicator.Server.Channels.{
  get_all_channels, get_channel, set_channel_positions, write_channel,
}
use squirrel_communicator.Server.Permissions.{can_manage_channels}
use squirrel_communicator.ServersManager.{
  Database, ServersManager, on_database, get_server_by_id, write_server, user_has_permission,
}
unfoldable pub use squirrel_communicator.ServersManager.Positions.{
  erase_at, insert_at, index_of, number_from, ids_of, moved, is_valid_order,
}

module _ {D : Type 0} (db : Database D) where
  -- The loop of UPDATEs, which the first exception ends
  unfoldable pub update_positions : ℕ → UnorderedMap ℕ ℕ → D → D × Bool
  update_positions server_id [] d = (d, true)
  update_positions server_id ((id, position) ∷ rest) d =
      let (d', done) = db.update_position server_id id position d in
      let later = update_positions server_id rest d' in if done then later else (d', false)

  -- The end that Move-, ReorderChannels and RenumberChannelPositions share: the connection, the new
  -- positions in memory, then those in the database
  unfoldable pub store_order : ℕ → List ℕ → Server → ServersManager D → ServersManager D × Bool
  unfolding number_from update_positions write_server
  store_order server_id ids s m =
      let (d, is_connected) = db.connect m.database in
      let (d', done) = update_positions server_id (number_from 0 ids) d in
      if is_connected
      then (
        write_server server_id (set_channel_positions (number_from 0 ids) s)
            (record m { database = d' }),
        done,
      )
      else (record m { database = d }, false)

  -- The beginning that the handlers share: the server, and the permission of the user; the answer
  -- where one of them is missing
  unfoldable pub as_manager :
      {R : Type 0}
      → ℕ
      → ℕ
      → R
      → (Server → ServersManager D → ServersManager D × R)
      → ServersManager D
      → ServersManager D × R
  unfolding get_server_by_id user_has_permission
  as_manager server_id user_id refusal handler m =
      let (m₁, server) = get_server_by_id db server_id m in
      elim server [
        | none ↦ (m₁, refusal)
        | some s ↦
            let (m₂, allowed) = user_has_permission db server_id user_id can_manage_channels m₁ in
            if allowed then handler s m₂ else (m₂, refusal)
      ]

  -- MoveChannel, after the permission
  unfoldable pub move_in : ℕ → ℕ → ℕ → Server → ServersManager D → ServersManager D × Bool
  unfolding store_order moved index_of get_all_channels write_server
  move_in server_id channel_id new_position s m =
      let (s', channels) = get_all_channels s in
      let m' = write_server server_id s' m in
      let size = length channels in
      let to = if leb size new_position then size - 1 else new_position in
      if size == 0 then (m', false) else elim (index_of channel_id (ids_of channels)) [
        | none ↦ (m', false)
        | some old_position ↦
            if old_position == to
            then (m', true)
            else store_order server_id (moved channel_id old_position to (ids_of channels)) s' m'
      ]

  -- MoveChannel
  unfoldable pub move_channel : ℕ → ℕ → ℕ → ℕ → ServersManager D → ServersManager D × Bool
  unfolding as_manager move_in
  move_channel server_id channel_id new_position user_id m =
      as_manager server_id user_id false (move_in server_id channel_id new_position) m

  -- ReorderChannels, after the permission
  unfoldable pub reorder_in : ℕ → List ℕ → Server → ServersManager D → ServersManager D × Bool
  unfolding store_order is_valid_order get_all_channels write_server
  reorder_in server_id channel_ids s m =
      let (s', channels) = get_all_channels s in
      let m' = write_server server_id s' m in
      if length channels == 0
      then (m', false)
      else if length channel_ids == length channels
      then if is_valid_order (ids_of channels) [] channel_ids
        then store_order server_id channel_ids s' m'
        else (m', false)
      else (m', false)

  -- ReorderChannels
  unfoldable pub reorder_channels : ℕ → List ℕ → ℕ → ServersManager D → ServersManager D × Bool
  unfolding as_manager reorder_in
  reorder_channels server_id channel_ids user_id m =
      as_manager server_id user_id false (reorder_in server_id channel_ids) m

  -- RenameChannel, after the permission
  unfoldable pub rename_in : ℕ → ℕ → String → Server → ServersManager D → ServersManager D × Bool
  unfolding on_database write_server get_channel write_channel
  rename_in server_id channel_id new_name s m =
      let (m', done) = on_database db (db.update_name server_id channel_id new_name) m in
      if is_yes (new_name ≟ "") then (m, false) else elim (get_channel channel_id s) [
        | none ↦ (m, false)
        | some c ↦
            if done
            then (
              write_server server_id
                  (write_channel channel_id (λ c. record c { channel_name = new_name }) s) m',
              true,
            )
            else (m', false)
      ]

  -- RenameChannel
  unfoldable pub rename_channel : ℕ → ℕ → String → ℕ → ServersManager D → ServersManager D × Bool
  unfolding as_manager rename_in
  rename_channel server_id channel_id new_name user_id m =
      as_manager server_id user_id false (rename_in server_id channel_id new_name) m

  -- RenumberChannelPositions
  unfoldable pub renumber_channel_positions : ℕ → ServersManager D → ServersManager D
  unfolding get_server_by_id get_all_channels store_order write_server
  renumber_channel_positions server_id m =
      let (m₁, server) = get_server_by_id db server_id m in
      elim server [
        | none ↦ m₁
        | some s ↦
            let (s', channels) = get_all_channels s in
            let m₂ = write_server server_id s' m₁ in
            if length channels == 0 then m₂ else (store_order server_id (ids_of channels) s' m₂).0
      ]

  -- RemoveChannel, after the permission
  unfoldable pub remove_in : ℕ → ℕ → Server → ServersManager D → ServersManager D × Bool
  unfolding on_database write_server get_channel Own.remove_channel renumber_channel_positions
  remove_in server_id channel_id s m =
      let (m', done) = on_database db (db.delete_channel server_id channel_id) m in
      elim (get_channel channel_id s) [
        | none ↦ (m, false)
        | some c ↦
            if done
            then (
              renumber_channel_positions server_id
                  (write_server server_id (Own.remove_channel channel_id s).0 m'),
              true,
            )
            else (m', false)
      ]

  -- RemoveChannel
  unfoldable pub remove_channel : ℕ → ℕ → ℕ → ServersManager D → ServersManager D × Bool
  unfolding as_manager remove_in
  remove_channel server_id channel_id user_id m =
      as_manager server_id user_id false (remove_in server_id channel_id) m

  -- GetNextChannelPosition
  unfoldable pub get_next_channel_position : ℕ → ServersManager D → ServersManager D × ℕ
  get_next_channel_position server_id m =
      let (d, is_connected) = db.connect m.database in
      (
        record m { database = d },
        if is_connected
            then elim (db.select_max_position server_id d) [ none ↦ 0 | some n ↦ n + 1 ]
            else 0,
      )

  -- UploadChannelToDB
  unfoldable pub upload_channel_to_db :
      ServerChannel → ServersManager D → ServersManager D × Option ServerChannel
  upload_channel_to_db channel m =
      let (d, is_connected) = db.connect m.database in
      let (d', id) = db.insert_channel channel d in
      if is_connected
      then (
        record m { database = d' },
        elim id [ none ↦ none | some n ↦ some (record channel { channel_id = n }) ],
      )
      else (record m { database = d }, none)

  -- AddChannel, after the permission
  unfoldable pub add_in :
      ℕ → String → ServerChannelType → Server → ServersManager D → ServersManager D × ℕ
  unfolding get_next_channel_position upload_channel_to_db write_server Own.add_channel
  add_in server_id channel_name channel_type s m =
      let (m₁, position) = get_next_channel_position server_id m in
      let channel : ServerChannel = record {
        channel_id = 0;
        server_id = server_id;
        channel_name = channel_name;
        channel_type = channel_type;
        position = position;
        connected_users = [];
      } in
      let (m₂, uploaded) = upload_channel_to_db channel m₁ in
      elim uploaded [
        | none ↦ (m₂, 0)
        | some c ↦ (write_server server_id (Own.add_channel c s) m₂, c.channel_id)
      ]

  -- AddChannel
  unfoldable pub add_channel :
      ℕ → String → ServerChannelType → ℕ → ServersManager D → ServersManager D × ℕ
  unfolding as_manager add_in
  add_channel server_id channel_name channel_type user_id m =
      as_manager server_id user_id 0 (add_in server_id channel_name channel_type) m
