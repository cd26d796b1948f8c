-- ===== src/Server/Permissions.antt =====
-- EServerPermission (ProjectServer/Source/Public/Managers/Server.h): a bit field over Uint64.
pub mod Bits
use squirrel_communicator.Prelude.{ℕ, ◌-◌, ◌^◌, Bool, not, ◌==◌}
use Prim.Native.Nat.{bit_and, bit_or}

abbrev pub can_create_invites : ℕ
can_create_invites = 1

abbrev pub can_kick_members : ℕ
can_kick_members = 2

abbrev pub can_ban_members : ℕ
can_ban_members = 4

abbrev pub can_manage_channels : ℕ
can_manage_channels = 8

abbrev pub can_manage_permissions : ℕ
can_manage_permissions = 16

abbrev pub all_permissions : ℕ
all_permissions = 0xFFFFFFFFFFFFFFFF

-- EServerPermission::HasPermission
unfoldable pub has_permission : ℕ → ℕ → Bool
has_permission permissions permission = not (bit_and permissions permission == 0)

-- EServerPermission::Grant
unfoldable pub grant : ℕ → ℕ → ℕ
grant permissions permission = bit_or permissions permission

-- EServerPermission::Revoke: ~p on Uint64 is 2^64 - 1 - p
unfoldable pub revoke : ℕ → ℕ → ℕ
revoke permissions permission = bit_and permissions (2 ^ 64 - 1 - permission)
