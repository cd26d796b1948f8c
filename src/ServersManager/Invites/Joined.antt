-- ===== src/ServersManager/Invites/Joined.antt =====
-- What it takes to join a server of FServersManager by an invite.
use squirrel_communicator.Prelude.{
  ℕ, suc, String, Bool, ◌≡◌, ◌⊎◌, true, Option, none, some, arith, nat_key, string_key,
  Option-cases, inl, inr,
}
use squirrel_communicator.UnorderedMap.{
  find, contains, find-modify, find-erase, find-insert_or_assign,
}
use squirrel_communicator.Server.{Server, ServerMember}
use squirrel_communicator.Server.Members.{has_member, add_member}
use squirrel_communicator.InviteAbuse.{InviteAbuse, RemoveIf, is_invite_abuse_banned}
use squirrel_communicator.ServersManager.{
  Database, ServersManager, get_server_by_id, write_server, on_database,
}
use squirrel_communicator.ServersManager.Members.{add_user_to_server}
use squirrel_communicator.ServersManager.Invites.{InviteStatements, joined, consume_invite_from_db}
use squirrel_communicator.ServersManager.Invites.Joining.{
  resolve_invite, join_server, refuse_invite, join_via_invite,
}
use mathlib.Core.Option

-- Whether a cached server has a member; `none` if it is not cached
abbrev pub cached_member : {D : Type 0} → ℕ → ℕ → ServersManager D → Option Bool
cached_member server_id user_id m = Option.map (has_member user_id) (find server_id m.servers_map)

has_member-add_member :
    (m : ServerMember) (s : Server) → has_member m.user_id (add_member m s) ≡ true
unfolding has_member add_member contains
has_member-add_member m s = ground (arith, find-insert_or_assign m.user_id m.user_id m s.members)

module _ {D : Type 0} (db : Database D) where
  loaded_is_cached :
      (server_id : ℕ) (s : Server) (m : ServersManager D)
      → (get_server_by_id db server_id m).1 ≡ some s
      → find server_id (get_server_by_id db server_id m).0.servers_map ≡ some s
  unfolding get_server_by_id
  loaded_is_cached id s m e = ground (arith, e)

  added_is_member :
      (server_id user_id permissions : ℕ) (user_name : String) (m m' : ServersManager D)
      → add_user_to_server db server_id user_id user_name permissions m ≡ (m', true)
      → cached_member server_id user_id m' ≡ some true
  unfolding add_user_to_server on_database write_server
  added_is_member id user permissions name m m' e =
      elim (Option-cases (get_server_by_id db id m).1) [
        | inl n ↦ ground (arith, e, n)
        | inr (s, g) ↦
            let joining : ServerMember = record {
              user_id = user;
              user_name = name;
              status = "online";
              permissions = 0;
            } in
            ground (
              arith,
              e,
              g,
              loaded_is_cached id s m g,
              has_member-add_member joining s,
              find-modify id id (λ _. add_member joining s)
                  (get_server_by_id db id m).0.servers_map,
            )
      ]

module _ {D : Type 0} (db : Database D) (sql : InviteStatements D) where
  -- Resolving a code to a server: the database has been asked and has counted a use.
  resolved :
      (code : String) (server_id : ℕ) (m : ServersManager D)
      → (resolve_invite db sql code m).1 ≡ some server_id
      → ((db.connect m.database).1 ≡ true)
        × (sql.select_valid_invite code (db.connect m.database).0 ≡ some server_id)
        × ((sql.increment_uses code (db.connect m.database).0).1 ≡ true)
        × ((resolve_invite db sql code m).0.database
            ≡ (sql.increment_uses code (db.connect m.database).0).0)
  unfolding resolve_invite consume_invite_from_db
  resolved code id m e = ground (arith, e)

-- `uses` counts the uses of invites in the database, which connecting and adding a member keep.
module _ {D : Type 0} (db : Database D) (uses : D → ℕ)
    (connect_keeps_uses : (d : D) → uses (db.connect d).0 ≡ uses d)
    (insert_keeps_uses : (s u p : ℕ) (d : D) → uses (db.insert_member s u p d).0 ≡ uses d) where
  get_server_by_id-uses :
      (server_id : ℕ) (m : ServersManager D)
      → uses (get_server_by_id db server_id m).0.database ≡ uses m.database
  unfolding get_server_by_id
  get_server_by_id-uses id m = ground (arith, connect_keeps_uses m.database)

  add_user_to_server-uses :
      (server_id user_id permissions : ℕ) (user_name : String) (m : ServersManager D)
      → uses (add_user_to_server db server_id user_id user_name permissions m).0.database
        ≡ uses m.database
  unfolding add_user_to_server on_database write_server
  add_user_to_server-uses id user p name m =
      let m₁ = (get_server_by_id db id m).0 in
      let d = (db.connect m₁.database).0 in
      ground (
        arith,
        get_server_by_id-uses id m,
        connect_keeps_uses m₁.database,
        insert_keeps_uses id user p d,
      )

  -- When JoinViaInvite answers a server, the IP was not banned, or is empty. The database was
  -- connected, named this server for the code and counted one use of an invite, if `uses` counts them
  -- there: connecting and adding a member keep it, and a successful UPDATE of the uses of the code
  -- adds one. The server is cached with the user as a member, and a non-empty IP has no record of
  -- failed attempts any more.
  pub join_uses_invite :
      (sql : InviteStatements D) (simd : RemoveIf) (now user_id server_id : ℕ)
      (code user_name ip : String) (m m' : ServersManager D) (abuse abuse' : InviteAbuse)
      → ((d : D)
          → (sql.increment_uses code d).1 ≡ true
          → uses (sql.increment_uses code d).0 ≡ suc (uses d))
      → join_via_invite db sql simd now code user_id user_name ip m abuse
        ≡ ((m', abuse'), joined server_id)
      → ((ip ≡ "") ⊎ (is_invite_abuse_banned now ip abuse ≡ 0))
        × ((db.connect m.database).1 ≡ true)
        × (sql.select_valid_invite code (db.connect m.database).0 ≡ some server_id)
        × (uses m'.database ≡ suc (uses m.database))
        × (cached_member server_id user_id m' ≡ some true)
        × ((ip ≡ "") ⊎ (find ip abuse'.invite_abuse_records ≡ none))
  unfolding join_via_invite refuse_invite join_server
  join_uses_invite sql simd now user id code name ip m m' abuse abuse' counts j =
      let asked = (resolve_invite db sql code m).0 in
      let d = (db.connect m.database).0 in
      ground (
        arith,
        j,
        resolved db sql code id m,
        connect_keeps_uses m.database,
        counts d,
        get_server_by_id-uses id asked,
        add_user_to_server-uses id user 0 name (get_server_by_id db id asked).0,
        find-erase ip ip abuse.invite_abuse_records,
        added_is_member db id user 0 name (get_server_by_id db id asked).0 m',
      )

module _ {D : Type 0} (db : Database D) (sql : InviteStatements D) (simd : RemoveIf) where
  -- A member of a cached server who joins it again by a valid code that is not cached, from an empty IP,
  -- uses up one of the invite's uses, and no server changes.
  pub member_wastes_use :
      (now user_id server_id : ℕ) (code user_name : String) (s : Server) (m : ServersManager D)
      (abuse : InviteAbuse)
      → find server_id m.servers_map ≡ some s
      → has_member user_id s ≡ true
      → find code m.invite_code_to_server_id ≡ none
      → (db.connect m.database).1 ≡ true
      → sql.select_valid_invite code (db.connect m.database).0 ≡ some server_id
      → (sql.increment_uses code (db.connect m.database).0).1 ≡ true
      → join_via_invite db sql simd now code user_id user_name "" m abuse ≡ (
        (record m { database = (sql.increment_uses code (db.connect m.database).0).0 }, abuse),
        joined server_id,
      )
  unfolding join_via_invite join_server resolve_invite consume_invite_from_db get_server_by_id
      add_user_to_server
  member_wastes_use now user id code name s m abuse e h n c v i = ground (arith, e, h, n, c, v, i)
