-- ===== src/ServersManager/Members.antt =====
-- FServersManager's members (ProjectServer/Source/Private/Managers/ServersManager.cpp), and the
-- removal of a server.
use squirrel_communicator.Prelude.{
  ℕ, String, Bool, true, false, none, some, [], if◌then◌else◌, nat_key,
}
use squirrel_communicator.UnorderedMap.{erase}
use squirrel_communicator.Server.Members as Own
use squirrel_communicator.Server.Members.{add_member, remove_member, has_member}
use squirrel_communicator.ServersManager.{
  Database, ServersManager, on_database, get_server_by_id, write_server,
}

-- The membership cache forgets a user
abbrev pub forget_user : {D : Type 0} → ℕ → ServersManager D → ServersManager D
forget_user user_id m = record m {
  user_to_server_ids_cache = erase user_id m.user_to_server_ids_cache;
}

module _ {D : Type 0} (db : Database D) where
  -- AddUserToServer: the member in memory has no permissions, whatever the database gets
  unfoldable pub add_user_to_server :
      ℕ → ℕ → String → ℕ → ServersManager D → ServersManager D × Bool
  unfolding get_server_by_id on_database write_server add_member has_member
  add_user_to_server server_id user_id user_name permissions m =
      let (m₁, server) = get_server_by_id db server_id m in
      let (m₂, done) = on_database db (db.insert_member server_id user_id permissions) m₁ in
      elim server [
        | none ↦ (m₁, false)
        | some s ↦
            let joined =
              add_member
                (record {
                  user_id = user_id;
                  user_name = user_name;
                  status = "online";
                  permissions = 0;
                })
                s in
            if has_member user_id s
            then (m₁, true)
            else if done
            then (forget_user user_id (write_server server_id joined m₂), true)
            else (m₂, false)
      ]

  -- RemoveUserFromServer
  unfoldable pub remove_user_from_server : ℕ → ℕ → ServersManager D → ServersManager D × Bool
  unfolding get_server_by_id on_database write_server remove_member
  remove_user_from_server server_id user_id m =
      let (m₁, server) = get_server_by_id db server_id m in
      let (m₂, done) = on_database db (db.delete_member server_id user_id) m₁ in
      elim server [
        | none ↦ (m₁, false)
        | some s ↦
            if done
            then (forget_user user_id (write_server server_id (remove_member user_id s).0 m₂), true)
            else (m₂, false)
      ]

  -- IsUserInServer
  unfoldable pub is_user_in_server : ℕ → ℕ → ServersManager D → ServersManager D × Bool
  unfolding get_server_by_id has_member
  is_user_in_server server_id user_id m =
      let (m', server) = get_server_by_id db server_id m in
      (m', elim server [ none ↦ false | some s ↦ has_member user_id s ])

  -- UpdateMemberPermissions
  unfoldable pub update_member_permissions : ℕ → ℕ → ℕ → ServersManager D → ServersManager D × Bool
  unfolding get_server_by_id on_database write_server Own.update_member_permissions has_member
  update_member_permissions server_id user_id new_permissions m =
      let (m₁, server) = get_server_by_id db server_id m in
      let (m₂, done) =
        on_database db (db.update_permissions server_id user_id new_permissions) m₁ in
      elim server [
        | none ↦ (m₁, false)
        | some s ↦
            if has_member user_id s
            then if done
              then (
                write_server server_id (Own.update_member_permissions user_id new_permissions s) m₂,
                true,
              )
              else (m₂, false)
            else (m₁, false)
      ]

  -- GetMemberPermissions
  unfoldable pub get_member_permissions : ℕ → ℕ → ServersManager D → ServersManager D × ℕ
  unfolding get_server_by_id Own.get_member_permissions
  get_member_permissions server_id user_id m =
      let (m', server) = get_server_by_id db server_id m in
      (m', elim server [ none ↦ 0 | some s ↦ Own.get_member_permissions user_id s ])

  -- RemoveServer
  unfoldable pub remove_server : ℕ → ServersManager D → ServersManager D × Bool
  unfolding on_database
  remove_server server_id m =
      let (m', done) = on_database db (db.delete_server server_id) m in
      if done
      then (
        record m' { servers_map = erase server_id m'.servers_map; user_to_server_ids_cache = [] },
        true,
      )
      else (m', false)
