-- ===== src/InviteAbuse.antt =====
-- The invite abuse protection of FRateLimiter (ProjectServer/Source/Private/AbuseProtection/
-- RateLimiter.cpp): failed invite attempts per IP in a rolling window, and bans. Times are seconds
-- of the clock, the settings are not negative, and `a - b < c` of signed times is `a < b + c` here.
pub mod Window
pub mod Bans
pub mod Cleanup
mod Tests
use squirrel_communicator.Prelude.{
  ℕ, ◌+◌, ◌-◌, String, ◌≡◌, Bool, true, false, not, ◌&&◌, ◌||◌, Option, none, some, List, [], ◌∷◌,
  ◌++◌, ltb, leb, ◌==◌, if◌then◌else◌, length, keep, string_key,
}
use squirrel_communicator.UnorderedMap.{
  UnorderedMap, find, emplace, erase, insert_or_assign, map_values, select_keys, erase_all,
}
use mathlib.Core.Option

-- eve::algo::remove_if of the SIMD library, followed by `erase` up to the end; its documentation
-- promises the result of std::remove_if.
pub record RemoveIf : Type 0 where
  pub remove_if : (ℕ → Bool) → List ℕ → List ℕ
  pub remove_if-eq-keep : (p : ℕ → Bool) (xs : List ℕ) → remove_if p xs ≡ keep (λ x. not (p x)) xs

-- FInviteAbuseRecord; `ban_until` is 0 where there is no ban
pub record InviteAbuseRecord : Type 0 where
  pub failed_attempts : List ℕ
  pub ban_until : ℕ

abbrev pub new_record : InviteAbuseRecord
new_record = record { failed_attempts = []; ban_until = 0 }

pub record InviteAbuse : Type 0 where
  pub invite_abuse_records : UnorderedMap String InviteAbuseRecord
  pub invite_abuse_max_attempts : ℕ
  pub invite_abuse_window_seconds : ℕ
  pub invite_abuse_ban_duration_seconds : ℕ

-- IsInviteAbuseBanned: the seconds that are left, or 0
unfoldable pub is_invite_abuse_banned : ℕ → String → InviteAbuse → ℕ
is_invite_abuse_banned now ip a = elim (find ip a.invite_abuse_records) [
  | none ↦ 0
  | some r ↦ if ltb now r.ban_until then r.ban_until - now else 0
]

-- ClearInviteAbuseForIp
unfoldable pub clear_invite_abuse_for_ip : String → InviteAbuse → InviteAbuse
clear_invite_abuse_for_ip ip a = elim (find ip a.invite_abuse_records) [
  | none ↦ a
  | some r ↦ record a { invite_abuse_records = erase ip a.invite_abuse_records }
]

module _ (simd : RemoveIf) where
  -- PurgeOldInviteAttempts: the test is t < now - window
  unfoldable pub purge_old_invite_attempts : ℕ → ℕ → List ℕ → List ℕ
  purge_old_invite_attempts window now attempts =
      simd.remove_if (λ t. ltb (t + window) now) attempts

  -- The record of an IP after one more failed attempt
  unfoldable pub record_attempt : ℕ → InviteAbuse → InviteAbuseRecord → InviteAbuseRecord
  unfolding purge_old_invite_attempts
  record_attempt now a r =
      let attempts =
        purge_old_invite_attempts a.invite_abuse_window_seconds now
          (r.failed_attempts ++ now ∷ []) in
      if leb a.invite_abuse_max_attempts (length attempts)
      then record {
        failed_attempts = attempts;
        ban_until = now + a.invite_abuse_ban_duration_seconds;
      }
      else record { failed_attempts = attempts; ban_until = r.ban_until }

  -- Whether that attempt triggers a ban
  unfoldable pub triggers_ban : InviteAbuse → InviteAbuseRecord → Bool
  triggers_ban a r = leb a.invite_abuse_max_attempts (length r.failed_attempts)

  -- AddInviteAbuseAttempt: `operator[]` makes an empty record for a new IP
  unfoldable pub add_invite_abuse_attempt : ℕ → String → InviteAbuse → InviteAbuse × Bool
  unfolding record_attempt triggers_ban
  add_invite_abuse_attempt now ip a =
      let r = record_attempt now a (Option.get_or (find ip a.invite_abuse_records) new_record) in
      (
        record a { invite_abuse_records = insert_or_assign ip r a.invite_abuse_records },
        triggers_ban a r,
      )

  -- PeriodicInviteAbuseCleanup, the body of the loop: a record whose ban is over is left as it is
  unfoldable pub clean_record : ℕ → InviteAbuse → InviteAbuseRecord → InviteAbuseRecord
  unfolding purge_old_invite_attempts
  clean_record now a r = if ltb 0 r.ban_until && leb r.ban_until now then r else record r {
    failed_attempts = purge_old_invite_attempts a.invite_abuse_window_seconds now r.failed_attempts;
  }

  -- ... and whether its key is collected, told from the record as the loop leaves it
  unfoldable pub is_to_remove : ℕ → InviteAbuseRecord → Bool
  is_to_remove now r =
      (ltb 0 r.ban_until && leb r.ban_until now)
      || (length r.failed_attempts == 0 && r.ban_until == 0)

  unfoldable pub periodic_invite_abuse_cleanup : ℕ → InviteAbuse → InviteAbuse
  unfolding clean_record is_to_remove
  periodic_invite_abuse_cleanup now a =
      let cleaned = map_values (clean_record now a) a.invite_abuse_records in
      record a {
        invite_abuse_records = erase_all (select_keys (λ ip r. is_to_remove now r) cleaned) cleaned;
      }
