-- ===== src/ServersManager/Servers/Channelless.antt =====
-- What FServersManager::AddServer leaves in the cache.
use squirrel_communicator.Prelude.{
  ℕ, String, ◌≡◌, ◌≢◌, refl, sym, ap, ◌∙◌, Bool, ◌||◌, ◌==◌, false, true, false, none, some, [],
  Option, arith, is_yes, ◌≟◌, nat_key, string_key, if◌then◌else◌,
}
use squirrel_communicator.UnorderedMap.{find, find-insert_or_assign, find-erase}
use squirrel_communicator.Server.{Server, ServerMember, init, text, voice}
use squirrel_communicator.Server.Members.{get_member_permissions, add_member}
use squirrel_communicator.Server.Permissions.{all_permissions}
use squirrel_communicator.ServersManager.{Database, ServersManager, on_database}
use squirrel_communicator.ServersManager.Channels.{add_channel}
use squirrel_communicator.ServersManager.Servers.{
  ServerStatements, new_server, with_owner, register_server, upload_new_server_to_db, add_server,
}
use mathlib.Core.Option

owner_permissions :
    (id : ℕ) (s : Server) → get_member_permissions s.owner_id (with_owner id s) ≡ all_permissions
unfolding get_member_permissions with_owner add_member
owner_permissions id s =
    let owner : ServerMember = record {
      user_id = s.owner_id;
      user_name = "";
      status = "online";
      permissions = all_permissions;
    } in
    ground (arith, find-insert_or_assign s.owner_id s.owner_id owner s.members)

-- Of three ways to answer, the one that answers an id
answered :
    {M : Type 0} (refused : Bool) (m uploaded : M) (id : Option ℕ) (register : ℕ → M) (m' : M)
    (n : ℕ)
    → ◌≡◌ {A = M × ℕ}
        (if refused then (m, 0) else elim id [ none ↦ (uploaded, 0) | some k ↦ (register k, k) ])
        (m', n)
    → n ≢ 0
    → m' ≡ register n
answered true m uploaded id register m' n e z = ground (arith, e, z)
answered false m uploaded none register m' n e z = ground (arith, e, z)
answered false m uploaded (some k) register m' n e z =
    sym (ap (λ p. p.0) e) ∙ ap register (ap (λ p. p.1) e)

module _ {D : Type 0} (db : Database D) (sql : ServerStatements D) where
  registered :
      (id : ℕ) (s : Server) (m : ServersManager D)
      → (find id (register_server db sql id s m).servers_map ≡ some (with_owner id s))
        × (find s.owner_id (register_server db sql id s m).user_to_server_ids_cache ≡ none)
  unfolding register_server
  registered id s m =
      let m₁ = (on_database db (db.insert_member id s.owner_id all_permissions) m).0 in
      let m₂ = (add_channel db id "general" text s.owner_id m₁).0 in
      let m₃ = (add_channel db id "General" voice s.owner_id m₂).0 in
      ground (
        arith,
        find-insert_or_assign id id (with_owner id s) m₃.servers_map,
        find-erase s.owner_id s.owner_id m₃.user_to_server_ids_cache,
      )

  -- When AddServer answers an id, the server that is cached for it has the owner as a member with
  -- all permissions, but none of the two default channels, whatever the database holds; and the
  -- servers of the owner are asked from the database again.
  pub new_server_has_no_channels :
      (now owner_id server_id : ℕ) (token server_name : String) (m m' : ServersManager D)
      → add_server db sql now token server_name owner_id m ≡ (m', server_id)
      → server_id ≢ 0
      → (Option.map (λ s. s.channels) (find server_id m'.servers_map) ≡ some [])
        × (Option.map (get_member_permissions owner_id) (find server_id m'.servers_map)
            ≡ some all_permissions)
        × (find owner_id m'.user_to_server_ids_cache ≡ none)
  unfolding add_server
  new_server_has_no_channels now owner id token name m m' a z =
      let s = new_server now token name owner in
      let up = upload_new_server_to_db db sql s m in
      let uploaded = up.0 in
      let shape : m' ≡ register_server db sql id s uploaded =
        answered (is_yes (name ≟ "") || owner == 0) m uploaded up.1
          (λ n. register_server db sql n s uploaded) m' id a z in
      let known = registered id s uploaded in
      let cached : find id m'.servers_map ≡ some (with_owner id s) =
        ap (λ x. find id x.servers_map) shape ∙ known.0 in
      (
        ap (Option.map (λ s. s.channels)) cached
            ∙ unfold with_owner new_server init add_member in refl,
        ap (Option.map (get_member_permissions owner)) cached
            ∙ ap some (unfold new_server in owner_permissions id s),
        ap (λ x. find owner x.user_to_server_ids_cache) shape ∙ (unfold new_server in known.1),
      )
