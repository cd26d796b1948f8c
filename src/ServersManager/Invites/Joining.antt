-- ===== src/ServersManager/Invites/Joining.antt =====
-- FServersManager::JoinViaInvite (ProjectServer/Source/Private/Managers/ServersManager.cpp).
use squirrel_communicator.Prelude.{
  ℕ, String, not, ◌&&◌, ◌||◌, Option, none, some, ltb, ◌==◌, is_yes, ◌≟◌, if◌then◌else◌, nat_key,
  string_key,
}
use squirrel_communicator.UnorderedMap.{find, insert_or_assign, erase}
use squirrel_communicator.InviteAbuse.{
  InviteAbuse, RemoveIf, is_invite_abuse_banned, add_invite_abuse_attempt,
  clear_invite_abuse_for_ip,
}
use squirrel_communicator.ServersManager.{Database, ServersManager, get_server_by_id}
use squirrel_communicator.ServersManager.Members.{add_user_to_server}
use mathlib.Core.Option
use squirrel_communicator.ServersManager.Invites.{
  InviteStatements, JoinResult, joined, refused, consume_invite_from_db,
}

module _ {D : Type 0} (db : Database D) (sql : InviteStatements D) where
  -- JoinViaInvite: the cached code, which the database overrules
  unfoldable pub resolve_invite : String → ServersManager D → ServersManager D × Option ℕ
  unfolding consume_invite_from_db
  resolve_invite code m =
      let cached = Option.get_or (find code m.invite_code_to_server_id) 0 in
      let (m', consumed) = consume_invite_from_db db sql code m in
      elim consumed [
        | none ↦ (
          if cached == 0
              then m'
              else record m' { invite_code_to_server_id = erase code m'.invite_code_to_server_id },
          none,
        )
        | some server_id ↦ (
          if cached == 0 || cached == server_id then m' else record m' {
            invite_code_to_server_id = insert_or_assign code server_id m'.invite_code_to_server_id;
          },
          some server_id,
        )
      ]

  -- JoinViaInvite, with a code that the database accepted
  unfoldable pub join_server :
      String
      → ℕ
      → ℕ
      → String
      → ServersManager D
      → InviteAbuse
      → (ServersManager D × InviteAbuse) × JoinResult
  unfolding get_server_by_id add_user_to_server clear_invite_abuse_for_ip
  join_server client_ip server_id user_id user_name m abuse =
      let (m₁, server) = get_server_by_id db server_id m in
      let (m₂, added) = add_user_to_server db server_id user_id user_name 0 m₁ in
      elim server [
        | none ↦ ((m₁, abuse), refused "server_not_found")
        | some s ↦
            if added
            then (
              (
                m₂,
                if is_yes (client_ip ≟ "")
                    then abuse
                    else clear_invite_abuse_for_ip client_ip abuse,
              ),
              joined server_id,
            )
            else ((m₂, abuse), refused "join_failed")
      ]

  -- JoinViaInvite, with a code that is not valid
  unfoldable pub refuse_invite : RemoveIf → ℕ → String → InviteAbuse → InviteAbuse × JoinResult
  unfolding add_invite_abuse_attempt
  refuse_invite simd now client_ip abuse =
      let (abuse', triggered_ban) = add_invite_abuse_attempt simd now client_ip abuse in
      if is_yes (client_ip ≟ "")
      then (abuse, refused "invalid")
      else (abuse', refused (if triggered_ban then "abuse_ban" else "invalid"))

  -- JoinViaInvite
  unfoldable pub join_via_invite :
      RemoveIf
      → ℕ
      → String
      → ℕ
      → String
      → String
      → ServersManager D
      → InviteAbuse
      → (ServersManager D × InviteAbuse) × JoinResult
  unfolding is_invite_abuse_banned resolve_invite join_server refuse_invite
  join_via_invite simd now code user_id user_name client_ip m abuse =
      let (m', server_id) = resolve_invite code m in
      let (abuse', answer) = refuse_invite simd now client_ip abuse in
      if not (is_yes (client_ip ≟ "")) && ltb 0 (is_invite_abuse_banned now client_ip abuse)
      then ((m, abuse), refused "abuse_ban")
      else elim server_id [
        | none ↦ ((m', abuse'), answer)
        | some id ↦ join_server client_ip id user_id user_name m' abuse
      ]
