-- ===== src/ServersManager/Invites/Banned.antt =====
-- What the ban of an IP means to FServersManager::JoinViaInvite.
use squirrel_communicator.Prelude.{ℕ, ◌+◌, ◌<◌, String, ◌≡◌, ◌≢◌, true, arith, string_key}
use squirrel_communicator.InviteAbuse.{
  InviteAbuse, RemoveIf, is_invite_abuse_banned, add_invite_abuse_attempt,
}
use squirrel_communicator.InviteAbuse.Bans.{banned-after_attempt}
use squirrel_communicator.ServersManager.{Database, ServersManager}
use squirrel_communicator.ServersManager.Invites.{InviteStatements, refused}
use squirrel_communicator.ServersManager.Invites.Joining.{
  join_server, refuse_invite, join_via_invite,
}

not_invalid : refused "invalid" ≢ refused "abuse_ban"
not_invalid = cc

not_missing : refused "server_not_found" ≢ refused "abuse_ban"
not_missing = cc

not_failed : refused "join_failed" ≢ refused "abuse_ban"
not_failed = cc

module _ {D : Type 0} (db : Database D) (sql : InviteStatements D) (simd : RemoveIf) where
  banned_join :
      (now user_id : ℕ) (code user_name ip : String) (m : ServersManager D) (abuse : InviteAbuse)
      → ip ≢ ""
      → 0 < is_invite_abuse_banned now ip abuse
      → join_via_invite db sql simd now code user_id user_name ip m abuse
        ≡ ((m, abuse), refused "abuse_ban")
  unfolding join_via_invite
  banned_join now user code name ip m abuse i b = ground (arith, i, b)

  ban_was_triggered :
      (now user_id : ℕ) (code user_name ip : String) (m m' : ServersManager D)
      (abuse abuse' : InviteAbuse)
      → ip ≢ ""
      → is_invite_abuse_banned now ip abuse ≡ 0
      → join_via_invite db sql simd now code user_id user_name ip m abuse
        ≡ ((m', abuse'), refused "abuse_ban")
      → (abuse' ≡ (add_invite_abuse_attempt simd now ip abuse).0)
        × ((add_invite_abuse_attempt simd now ip abuse).1 ≡ true)
  unfolding join_via_invite refuse_invite join_server
  ban_was_triggered now user code name ip m m' abuse abuse' i b j =
      ground (arith, i, b, j, not_invalid, not_missing, not_failed)

  -- When a join of an IP that is not banned is refused for abuse, then for the whole duration of the
  -- ban from that time on each join of the IP, with whatever code and user, is refused for abuse
  -- too, and changes neither the servers, nor the invites, nor the records of the attempts.
  pub triggered_ban_refuses :
      (now later first second : ℕ) (code code' name name' ip : String) (m m' : ServersManager D)
      (abuse abuse' : InviteAbuse)
      → ip ≢ ""
      → is_invite_abuse_banned now ip abuse ≡ 0
      → join_via_invite db sql simd now code first name ip m abuse
        ≡ ((m', abuse'), refused "abuse_ban")
      → later < now + abuse.invite_abuse_ban_duration_seconds
      → join_via_invite db sql simd later code' second name' ip m' abuse'
        ≡ ((m', abuse'), refused "abuse_ban")
  triggered_ban_refuses now later u v code code' name name' ip m m' abuse abuse' i b j l =
      let banned : 0 < is_invite_abuse_banned later ip abuse' = ground (
        arith,
        l,
        ban_was_triggered now u code name ip m m' abuse abuse' i b j,
        banned-after_attempt simd now later ip ip abuse,
      ) in
      banned_join later v code' name' ip m' abuse' i banned
