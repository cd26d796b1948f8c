-- ===== src/InviteAbuse/Tests.antt =====
-- Runs of the invite abuse protection, with std::remove_if in the place of the SIMD library's.
use squirrel_communicator.Prelude.{
  ℕ, String, ◌≡◌, refl, true, false, not, List, [], ◌∷◌, ◌++◌, arith, leb, length, keep, ◌≟◌,
  string_key, String-discrete,
}
use squirrel_communicator.UnorderedMap.{find}
use squirrel_communicator.InviteAbuse.{
  RemoveIf, InviteAbuse, InviteAbuseRecord, add_invite_abuse_attempt, periodic_invite_abuse_cleanup,
}
use squirrel_communicator.InviteAbuse.Window.{
  run_failures, recent, times_of, ban_exactly_at_maximum,
}
use squirrel_communicator.InviteAbuse.Cleanup.{cleanup_forgets_attempts}

abbrev std : RemoveIf
std = record { remove_if = λ p. keep (λ x. not (p x)); remove_if-eq-keep = λ p xs. refl }

abbrev none_yet : InviteAbuse
none_yet = record {
  invite_abuse_records = [];
  invite_abuse_max_attempts = 2;
  invite_abuse_window_seconds = 60;
  invite_abuse_ban_duration_seconds = 600;
}

abbrev same : Discrete String
same = ◌≟◌ {K = String}

abbrev failures : List (ℕ × String)
failures = (10, "ip") ∷ (90, "other") ∷ (100, "ip") ∷ []

ban_exactly_at_maximum_example :
    (add_invite_abuse_attempt std 120 "ip" (run_failures std failures none_yet)).1
    ≡ leb 2 (length (keep (recent 60 120) (times_of "ip" failures ++ 120 ∷ [])))
ban_exactly_at_maximum_example =
    ban_exactly_at_maximum std "ip" failures 120 none_yet (unfold find in refl)
      (omega arith, (omega arith, (omega arith, tt))) (omega arith)

-- An IP whose ban ran out at 690, with an attempt since
abbrev attempts : InviteAbuseRecord
attempts = record { failed_attempts = 690 ∷ []; ban_until = 690 }

abbrev some_banned : InviteAbuse
some_banned = record none_yet { invite_abuse_records = ("ip", attempts) ∷ [] }

cleanup_forgets_attempts_example :
    ((add_invite_abuse_attempt std 700 "ip" some_banned).1 ≡ true)
    × ((add_invite_abuse_attempt std 700 "ip" (periodic_invite_abuse_cleanup std 700 some_banned)).1
        ≡ false)
cleanup_forgets_attempts_example =
    cleanup_forgets_attempts std 700 "ip" some_banned attempts (unfold find in refl, tt)
      (unfold find String-discrete in refl) (omega arith) (omega arith) (omega arith)
      (unfold keep in omega arith)
