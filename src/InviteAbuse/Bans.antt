-- ===== src/InviteAbuse/Bans.antt =====
-- How long a ban of FRateLimiter lasts, and what touches it.
use squirrel_communicator.Prelude.{
  ℕ, ◌+◌, ◌-◌, String, ◌≡◌, arith, if◌then◌else◌, ite, ◌≟◌, string_key,
}
use squirrel_communicator.UnorderedMap.{find, find-insert_or_assign, find-erase}
use squirrel_communicator.InviteAbuse.{
  InviteAbuse, RemoveIf, new_record, record_attempt, triggers_ban, add_invite_abuse_attempt,
  is_invite_abuse_banned, clear_invite_abuse_for_ip,
}
use mathlib.Core.Option

module _ (simd : RemoveIf) where
  -- A failed attempt that triggers a ban bans its IP for the whole duration from now on, whatever
  -- ban stood before; one that triggers none leaves the remaining time as it was, at every later
  -- time. Other IPs are not touched.
  pub banned-after_attempt :
      (now later : ℕ) (ip j : String) (a : InviteAbuse)
      → is_invite_abuse_banned later j (add_invite_abuse_attempt simd now ip a).0
        ≡ ite
            (ip ≟ j)
            (if (add_invite_abuse_attempt simd now ip a).1
              then now + a.invite_abuse_ban_duration_seconds - later
              else is_invite_abuse_banned later ip a)
            (is_invite_abuse_banned later j a)
  unfolding add_invite_abuse_attempt is_invite_abuse_banned record_attempt triggers_ban
  banned-after_attempt now later ip j a =
      let r =
        record_attempt simd now a (Option.get_or (find ip a.invite_abuse_records) new_record) in
      ground (arith, find-insert_or_assign ip j r a.invite_abuse_records)

-- A successful join lifts the ban of its IP at once, and no other.
pub banned-after_clear :
    (later : ℕ) (ip j : String) (a : InviteAbuse)
    → is_invite_abuse_banned later j (clear_invite_abuse_for_ip ip a)
      ≡ ite (ip ≟ j) 0 (is_invite_abuse_banned later j a)
unfolding is_invite_abuse_banned clear_invite_abuse_for_ip
banned-after_clear later ip j a = ground (arith, find-erase ip j a.invite_abuse_records)
