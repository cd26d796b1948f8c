-- ===== src/ServersManager/Servers.antt =====
-- FServersManager's creation of servers, and the servers and voice channels of a user
-- (ProjectServer/Source/Private/Managers/ServersManager.cpp). The token and the clock are arguments.
pub mod Channelless
mod Tests
use squirrel_communicator.Prelude.{
  ℕ, String, Bool, true, false, ◌&&◌, ◌||◌, Option, none, some, List, [], ◌∷◌, ◌++◌, ◌==◌, is_yes,
  ◌≟◌, if◌then◌else◌, nat_key, string_key,
}
use squirrel_communicator.UnorderedMap.{find, insert_or_assign, erase, has_key}
use squirrel_communicator.Server.{Server, ServerChannel, text, voice, init}
use squirrel_communicator.Server.Channels.{get_all_channels}
use squirrel_communicator.Server.Members.{add_member}
use squirrel_communicator.Server.Permissions.{all_permissions}
use squirrel_communicator.ServersManager.{
  Database, ServersManager, on_database, get_server_by_id, write_server,
}
use squirrel_communicator.ServersManager.Channels.{add_channel}
use squirrel_communicator.ServersManager.Members.{forget_user}
use squirrel_communicator.ServersManager.Voice.{is_voice}

pub record ServerStatements (D : Type 0) : Type 0 where
  -- the INSERT of a server and its id, `none` if one throws
  pub insert_server : Server → D → D × Option ℕ
  -- the ids of a user's servers, as far as they are fetched, and whether nothing throws
  pub select_user_servers : ℕ → D → List ℕ × Bool

-- The server that AddServer makes, before it has an id
unfoldable pub new_server : ℕ → String → String → ℕ → Server
unfolding init
new_server now token server_name owner_id = record init {
  server_name = server_name;
  owner_id = owner_id;
  token = token;
  created_at = now;
}

-- ... and with its id and its owner as a member
unfoldable pub with_owner : ℕ → Server → Server
unfolding add_member
with_owner server_id s =
    add_member
      (record {
        user_id = s.owner_id;
        user_name = "";
        status = "online";
        permissions = all_permissions;
      })
      (record s { server_id = server_id })

-- GetUserVoiceChannels, the loop over the channels of a server
unfoldable pub voice_channels_of : ℕ → ℕ → List ServerChannel → List (ℕ × ℕ)
unfolding is_voice has_key
voice_channels_of server_id user_id [] = []
voice_channels_of server_id user_id (c ∷ cs) =
    let rest = voice_channels_of server_id user_id cs in
    if is_voice c.channel_type && has_key user_id c.connected_users
    then (server_id, c.channel_id) ∷ rest
    else rest

module _ {D : Type 0} (db : Database D) (sql : ServerStatements D) where
  -- EnsureServerLoaded
  unfoldable pub ensure_server_loaded : ℕ → ServersManager D → ServersManager D
  unfolding get_server_by_id
  ensure_server_loaded server_id m = (get_server_by_id db server_id m).0

  -- UploadNewServerToDB
  unfoldable pub upload_new_server_to_db : Server → ServersManager D → ServersManager D × Option ℕ
  upload_new_server_to_db s m =
      let (d, is_connected) = db.connect m.database in
      let (d', id) = sql.insert_server s d in
      if is_connected then (record m { database = d' }, id) else (record m { database = d }, none)

  -- AddServer, once the server has its id: the default channels are made before the server is cached
  unfoldable pub register_server : ℕ → Server → ServersManager D → ServersManager D
  unfolding on_database add_channel with_owner
  register_server server_id s m =
      let m₁ = (on_database db (db.insert_member server_id s.owner_id all_permissions) m).0 in
      let m₂ = (add_channel db server_id "general" text s.owner_id m₁).0 in
      let m₃ = (add_channel db server_id "General" voice s.owner_id m₂).0 in
      forget_user s.owner_id (record m₃ {
        servers_map = insert_or_assign server_id (with_owner server_id s) m₃.servers_map;
      })

  -- AddServer
  unfoldable pub add_server : ℕ → String → String → ℕ → ServersManager D → ServersManager D × ℕ
  unfolding new_server upload_new_server_to_db register_server
  add_server now token server_name owner_id m =
      let s = new_server now token server_name owner_id in
      let (m', id) = upload_new_server_to_db s m in
      if is_yes (server_name ≟ "") || owner_id == 0
      then (m, 0)
      else elim id [ none ↦ (m', 0) | some n ↦ (register_server n s m', n) ]

  -- GetUserServerIds: an answer that is not complete is given, and not cached
  unfoldable pub get_user_server_ids : ℕ → ServersManager D → ServersManager D × List ℕ
  get_user_server_ids user_id m =
      let (d, is_connected) = db.connect m.database in
      let (ids, complete) = sql.select_user_servers user_id d in
      elim (find user_id m.user_to_server_ids_cache) [
        | some cached ↦ (m, cached)
        | none ↦
            if is_connected
            then if complete
              then (
                record m {
                  database = d;
                  user_to_server_ids_cache =
                      insert_or_assign user_id ids m.user_to_server_ids_cache;
                },
                ids,
              )
              else (record m { database = d }, ids)
            else (record m { database = d }, [])
      ]

  -- GetUserServers, the loop
  unfoldable pub load_each : List ℕ → ServersManager D → ServersManager D × List ℕ
  unfolding get_server_by_id
  load_each [] m = (m, [])
  load_each (id ∷ ids) m =
      let (m₁, server) = get_server_by_id db id m in
      let (m₂, rest) = load_each ids m₁ in (m₂, elim server [ none ↦ rest | some s ↦ id ∷ rest ])

  -- GetUserServers: the ids of the servers that the pointers are to
  unfoldable pub get_user_servers : ℕ → ServersManager D → ServersManager D × List ℕ
  unfolding get_user_server_ids load_each
  get_user_servers user_id m = let (m', ids) = get_user_server_ids user_id m in load_each ids m'

  -- GetUserVoiceChannels, the loop over the servers
  unfoldable pub collect_voice_channels :
      ℕ → List ℕ → ServersManager D → ServersManager D × List (ℕ × ℕ)
  unfolding get_server_by_id get_all_channels write_server voice_channels_of
  collect_voice_channels user_id [] m = (m, [])
  collect_voice_channels user_id (id ∷ ids) m =
      let (m₁, server) = get_server_by_id db id m in
      let (m₂, here) : ServersManager D × List (ℕ × ℕ) = elim server [
        | none ↦ (m₁, [])
        | some s ↦
            let (s', channels) = get_all_channels s in
            (write_server id s' m₁, voice_channels_of id user_id channels)
      ] in
      let (m₃, rest) = collect_voice_channels user_id ids m₂ in (m₃, here ++ rest)

  -- GetUserVoiceChannels: server and channel of each voice channel that the user is connected to
  unfoldable pub get_user_voice_channels : ℕ → ServersManager D → ServersManager D × List (ℕ × ℕ)
  unfolding get_user_server_ids collect_voice_channels
  get_user_voice_channels user_id m =
      let (m', ids) = get_user_server_ids user_id m in collect_voice_channels user_id ids m'
