-- ===== src/Server/Members.antt =====
-- FServer's members (ProjectServer/Source/Private/Managers/Server.cpp).
pub mod Registry
use squirrel_communicator.Prelude.{
  ℕ, String, Bool, Option, none, some, List, map, if◌then◌else◌, is_yes, ◌≟◌, length, nat_key,
  string_key,
}
use squirrel_communicator.UnorderedMap.{find, contains, erase, insert_or_assign, modify}
use squirrel_communicator.Server.{Server, ServerMember}

-- AddMember
unfoldable pub add_member : ServerMember → Server → Server
add_member member s = record s { members = insert_or_assign member.user_id member s.members }

-- RemoveMember
unfoldable pub remove_member : ℕ → Server → Server × Bool
remove_member user_id s =
    (record s { members = erase user_id s.members }, contains user_id s.members)

-- HasMember
unfoldable pub has_member : ℕ → Server → Bool
has_member user_id s = contains user_id s.members

-- UpdateMemberStatus
unfoldable pub update_member_status : ℕ → String → Server → Server
update_member_status user_id new_status s = record s {
  members = modify user_id (λ m. record m { status = new_status }) s.members;
}

-- UpdateMemberUserName: only a name that is empty is filled
unfoldable pub fill_user_name : String → ServerMember → ServerMember
fill_user_name user_name m =
    if is_yes (m.user_name ≟ "") then record m { user_name = user_name } else m

unfoldable pub update_member_user_name : ℕ → String → Server → Server
update_member_user_name user_id user_name s = record s {
  members = modify user_id (fill_user_name user_name) s.members;
}

-- UpdateMemberPermissions
unfoldable pub update_member_permissions : ℕ → ℕ → Server → Server
update_member_permissions user_id new_permissions s = record s {
  members = modify user_id (λ m. record m { permissions = new_permissions }) s.members;
}

-- GetMemberPermissions
unfoldable pub get_member_permissions : ℕ → Server → ℕ
get_member_permissions user_id s = elim (find user_id s.members) [
  | none ↦ 0
  | some m ↦ m.permissions
]

-- GetMembers
unfoldable pub get_members : Server → List ServerMember
get_members s = map (λ e. e.1) s.members

-- GetMemberCount
unfoldable pub get_member_count : Server → ℕ
get_member_count s = length s.members
