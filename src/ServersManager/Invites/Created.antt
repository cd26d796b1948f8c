-- ===== src/ServersManager/Invites/Created.antt =====
-- What it takes to create an invite in FServersManager.
use squirrel_communicator.Prelude.{
  ℕ, ◌%◌, ◌≤◌, String, ◌≡◌, ◌≢◌, ◌⊎◌, true, false, some, arith, ltb_i32, nat_key, string_key,
}
use squirrel_communicator.UnorderedMap.{find, find-insert_or_assign}
use squirrel_communicator.Server.{Server}
use squirrel_communicator.ServersManager.{
  Database, ServersManager, get_server_by_id, user_has_permission, on_database,
}
use squirrel_communicator.ServersManager.Allowed.{permissions_of, creates_invites}
use squirrel_communicator.ServersManager.Invites.{
  InviteStatements, InviteSettings, resolve_expiry, get_active_invite_count_for_server,
  store_invite, create_invite,
}

-- No expiry is past the maximum.
resolve_expiry-bounded :
    (settings : InviteSettings) (expires_in_seconds : ℕ)
    → resolve_expiry settings expires_in_seconds ≤ settings.max_expires_in_seconds
unfolding resolve_expiry
resolve_expiry-bounded settings expires = ground arith

module _ {D : Type 0} (db : Database D) (sql : InviteStatements D) where
  -- When CreateInvite answers a code for a cached server, and the database is connected and has
  -- counted `n` invites of the server that are not expired, then the creator is the owner of the
  -- server or a member with the bit of value 1 in the permissions, `n` is below the maximum if that
  -- is positive, and the code stands for the server in the cache.
  pub creates_only_permitted :
      (settings : InviteSettings) (code answer : String)
      (server_id created_by max_uses expires_in_seconds n : ℕ) (s : Server)
      (m m' : ServersManager D)
      → find server_id m.servers_map ≡ some s
      → (db.connect m.database).1 ≡ true
      → sql.count_active_invites server_id (db.connect m.database).0 ≡ some n
      → create_invite db sql settings code server_id created_by max_uses expires_in_seconds m
        ≡ (m', answer)
      → answer ≢ ""
      → ((s.owner_id ≡ created_by) ⊎ (permissions_of created_by s % 2 ≡ 1))
        × ((ltb_i32 0 settings.max_invites_per_server ≡ false)
            ⊎ (ltb_i32 n settings.max_invites_per_server ≡ true))
        × (find answer m'.invite_code_to_server_id ≡ some server_id)
  unfolding create_invite store_invite get_active_invite_count_for_server user_has_permission
      get_server_by_id on_database
  creates_only_permitted settings code answer id by uses expires n s m m' e d a c b = ground (
    arith,
    e,
    d,
    a,
    c,
    b,
    creates_invites by s,
    find-insert_or_assign code code id m.invite_code_to_server_id,
  )
