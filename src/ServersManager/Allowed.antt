-- ===== src/ServersManager/Allowed.antt =====
-- What FServersManager::UserHasPermission asks of a user: to be the owner of the server, or a
-- member with the digit of the permission set.
use squirrel_communicator.Prelude.{ℕ, ◌/◌, ◌%◌, ◌≡◌, ◌≢◌, ◌⊎◌, true, false, arith, nat_key}
use squirrel_communicator.UnorderedMap.{find}
use squirrel_communicator.Server.{Server}
use squirrel_communicator.Server.Members.{get_member_permissions}
use squirrel_communicator.Server.Permissions.{
  can_create_invites, can_kick_members, can_manage_channels,
}
use squirrel_communicator.Server.Permissions.Bits.{
  has_create_invites, has_kick_members, has_manage_channels,
}
use squirrel_communicator.ServersManager.{server_permits}
use mathlib.Core.Option

-- The permissions that a server's members map has for a user, none for anyone else
abbrev pub permissions_of : ℕ → Server → ℕ
permissions_of user s = Option.get_or (Option.map (λ m. m.permissions) (find user s.members)) 0

permissions_of-eq : (user : ℕ) (s : Server) → get_member_permissions user s ≡ permissions_of user s
unfolding get_member_permissions
permissions_of-eq user s = ground arith

module _ (user : ℕ) (s : Server) where
  pub creates_invites :
      server_permits user can_create_invites s ≡ true
      → (s.owner_id ≡ user) ⊎ (permissions_of user s % 2 ≡ 1)
  unfolding server_permits
  creates_invites e =
      ground
        (arith, e, permissions_of-eq user s, has_create_invites (get_member_permissions user s))

  pub kicks_members :
      server_permits user can_kick_members s ≡ true
      → (s.owner_id ≡ user) ⊎ (permissions_of user s / 2 % 2 ≡ 1)
  unfolding server_permits
  kicks_members e =
      ground (arith, e, permissions_of-eq user s, has_kick_members (get_member_permissions user s))

  pub manages_no_channels :
      s.owner_id ≢ user
      → permissions_of user s / 8 % 2 ≢ 1
      → server_permits user can_manage_channels s ≡ false
  unfolding server_permits
  manages_no_channels o p =
      ground
        (arith, o, p, permissions_of-eq user s, has_manage_channels (get_member_permissions user s))
