-- ===== src/InviteAbuse/Cleanup.antt =====
-- FRateLimiter::PeriodicInviteAbuseCleanup: what it may drop without a client noticing, and what it
-- drops all the same.
use squirrel_communicator.Prelude.{
  ℕ, ◌≤◌, ◌<◌, String, ◌≡◌, refl, sym, ap, ◌∙◌, inl, inr, Option-cases, List, true, false, ◌&&◌,
  Option, none, some, [], ◌∷◌, ◌++◌, arith, ltb, leb, ◌==◌, if◌then◌else◌, length, keep, string_key,
}
use squirrel_communicator.UnorderedMap.{
  find, find-map_values, find-erase_all, select_keys, map_values,
}
use squirrel_communicator.UnorderedMap.Unique.{IsUnique, map_values-IsUnique, has_key-select_keys}
use squirrel_communicator.InviteAbuse.{
  InviteAbuse, InviteAbuseRecord, RemoveIf, add_invite_abuse_attempt, is_invite_abuse_banned,
  clean_record, is_to_remove, periodic_invite_abuse_cleanup,
}
use squirrel_communicator.InviteAbuse.Window.{
  recent, stored, triggers-add, keep-append, keep-keep, purge-eq-keep,
}

empty_of_length : (xs : List ℕ) → (length xs == 0) ≡ true → xs ≡ []
empty_of_length [] h = refl
empty_of_length (x ∷ xs) h = ground arith

module _ (simd : RemoveIf) where
  -- What becomes of the record of an IP, if it has one.
  cleaned : ℕ → InviteAbuse → Option InviteAbuseRecord → Option InviteAbuseRecord
  cleaned now a none = none
  cleaned now a (some r) =
      let r' = clean_record simd now a r in if is_to_remove simd now r' then none else some r'

  -- Each record is cleaned for itself.
  find-cleanup :
      (now : ℕ) (ip : String) (a : InviteAbuse)
      → IsUnique a.invite_abuse_records
      → find ip (periodic_invite_abuse_cleanup simd now a).invite_abuse_records
        ≡ cleaned now a (find ip a.invite_abuse_records)
  unfolding periodic_invite_abuse_cleanup cleaned
  find-cleanup now ip a u =
      let f = clean_record simd now a in
      let m = map_values f a.invite_abuse_records in
      let p = λ (ip : String) (r : InviteAbuseRecord). is_to_remove simd now r in
      ground (
        arith,
        find-erase_all (select_keys p m) ip m,
        has_key-select_keys p ip m (map_values-IsUnique f a.invite_abuse_records u),
        find-map_values f ip a.invite_abuse_records,
      )

  -- Over unique keys, a cleanup shortens no ban and makes none: from its time on, what is left of
  -- the ban of each IP is what it was.
  pub banned-after_cleanup :
      (now later : ℕ) (ip : String) (a : InviteAbuse)
      → IsUnique a.invite_abuse_records
      → now ≤ later
      → is_invite_abuse_banned later ip (periodic_invite_abuse_cleanup simd now a)
        ≡ is_invite_abuse_banned later ip a
  unfolding is_invite_abuse_banned cleaned clean_record is_to_remove
  banned-after_cleanup now later ip a u h = ground (arith, find-cleanup now ip a u)

  recent-stored-cleanup :
      (now later : ℕ) (ip : String) (a : InviteAbuse)
      → IsUnique a.invite_abuse_records
      → now ≤ later
      → ((r : InviteAbuseRecord)
          → find ip a.invite_abuse_records ≡ some r
          → ltb 0 r.ban_until && leb r.ban_until now ≡ false)
      → keep
          (recent a.invite_abuse_window_seconds later)
          (stored ip (periodic_invite_abuse_cleanup simd now a))
        ≡ keep (recent a.invite_abuse_window_seconds later) (stored ip a)
  unfolding cleaned clean_record is_to_remove keep
  recent-stored-cleanup now later ip a u h active =
      elim (Option-cases (find ip a.invite_abuse_records)) [
        | inl e ↦ ground (arith, find-cleanup now ip a u)
        | inr (r, e) ↦ ground (
          arith,
          find-cleanup now ip a u,
          active r e,
          purge-eq-keep simd a.invite_abuse_window_seconds now r.failed_attempts,
          keep-keep a.invite_abuse_window_seconds now later r.failed_attempts h,
          empty_of_length (keep (recent a.invite_abuse_window_seconds now) r.failed_attempts),
        )
      ]

  -- Over unique keys, unless an IP's ban has run out, a cleanup changes no later verdict on its
  -- failed attempts: the next one triggers a ban exactly when it would have without the cleanup.
  pub triggers-after_cleanup :
      (now later : ℕ) (ip : String) (a : InviteAbuse)
      → IsUnique a.invite_abuse_records
      → now ≤ later
      → ((r : InviteAbuseRecord)
          → find ip a.invite_abuse_records ≡ some r
          → ltb 0 r.ban_until && leb r.ban_until now ≡ false)
      → (add_invite_abuse_attempt simd later ip (periodic_invite_abuse_cleanup simd now a)).1
        ≡ (add_invite_abuse_attempt simd later ip a).1
  unfolding periodic_invite_abuse_cleanup
  triggers-after_cleanup now later ip a u h active =
      triggers-add simd ip later (periodic_invite_abuse_cleanup simd now a)
      ∙ ap (λ xs. leb a.invite_abuse_max_attempts (length xs))
          (keep-append (recent a.invite_abuse_window_seconds later)
              (stored ip (periodic_invite_abuse_cleanup simd now a)) (later ∷ [])
            ∙ ap (λ xs. xs ++ keep (recent a.invite_abuse_window_seconds later) (later ∷ []))
                (recent-stored-cleanup now later ip a u h active)
            ∙ sym (
                keep-append (recent a.invite_abuse_window_seconds later) (stored ip a)
                  (later ∷ [])))
      ∙ sym (triggers-add simd ip later a)

  -- The bug, over unique keys and with a maximum of at least two: when an IP's ban is over, the
  -- cleanup forgets also the failed attempts that are still in the window. Where one more attempt
  -- would have triggered a ban, it does not any more.
  pub cleanup_forgets_attempts :
      (now : ℕ) (ip : String) (a : InviteAbuse) (r : InviteAbuseRecord)
      → IsUnique a.invite_abuse_records
      → find ip a.invite_abuse_records ≡ some r
      → 0 < r.ban_until
      → r.ban_until ≤ now
      → 2 ≤ a.invite_abuse_max_attempts
      → a.invite_abuse_max_attempts
        ≤ length (keep (recent a.invite_abuse_window_seconds now) (r.failed_attempts ++ now ∷ []))
      → ((add_invite_abuse_attempt simd now ip a).1 ≡ true)
        × ((add_invite_abuse_attempt simd now ip (periodic_invite_abuse_cleanup simd now a)).1
            ≡ false)
  unfolding periodic_invite_abuse_cleanup
  cleanup_forgets_attempts now ip a r u e pos over two h = (
    triggers-add simd ip now a ∙ stored_all,
    triggers-add simd ip now (periodic_invite_abuse_cleanup simd now a) ∙ none_left,
  )
    where
      stored_all :
          leb a.invite_abuse_max_attempts
            (length (keep (recent a.invite_abuse_window_seconds now) (stored ip a ++ now ∷ [])))
          ≡ true
      stored_all = rw (e, stored) (ground arith)

      gone : find ip (periodic_invite_abuse_cleanup simd now a).invite_abuse_records ≡ none
      gone = unfold cleaned clean_record is_to_remove in ground (arith, find-cleanup now ip a u)

      none_left :
          leb a.invite_abuse_max_attempts (
            length (
              keep
                (recent a.invite_abuse_window_seconds now)
                (stored ip (periodic_invite_abuse_cleanup simd now a) ++ now ∷ [])))
          ≡ false
      none_left = rw (gone, stored) (unfold keep in ground arith)
