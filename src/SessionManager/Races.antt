-- ===== src/SessionManager/Races.antt =====
-- FSessionManager's lookups and refreshes check a token under one lock and go on under another.
-- Here a logout, or a sweep, comes between the two sections.
use squirrel_communicator.Prelude.{
  ℕ, ◌+◌, ◌^◌, ◌<◌, String, ◌≡◌, refl, ap, ◌∙◌, true, false, none, some, arith, ltb, string_key,
  add_u64, if_pos, ◌≟◌,
}
use squirrel_communicator.UnorderedMap.{contains, find-insert_or_assign, find-emplace}
use squirrel_communicator.SessionManager.{
  UserSessionData, SessionManager, no_session, is_session_token_alive, read_user_id,
  set_session_time, deactivate_session,
}
use squirrel_communicator.SessionManager.Lookups.{session, listed_in, session-deactivate}
use squirrel_communicator.SessionManager.Synced.{IsSynced, owned, deactivate-IsSynced}

gone : (t : String) (m : SessionManager) → session t (deactivate_session t m).0 ≡ none
gone t m = session-deactivate t t m ∙ if_pos (t ≟ t) refl none (session t m)

clock-deactivate :
    (t : String) (m : SessionManager)
    → ((deactivate_session t m).0.current_time_cached ≡ m.current_time_cached)
      × ((deactivate_session t m).0.session_expiration_time ≡ m.session_expiration_time)
unfolding deactivate_session
clock-deactivate t m = ground arith

longer : SessionManager → UserSessionData
longer g = record {
  user_id = 0;
  session_time = add_u64 g.current_time_cached g.session_expiration_time;
}

-- The two late sections, on a token that has no session.
module _ (t : String) (g : SessionManager) (none_left : session t g ≡ none) where
  set_session_time_late : session t (set_session_time t g) ≡ some (longer g)
  unfolding set_session_time longer
  set_session_time_late =
      ground (arith, find-insert_or_assign t t (longer g) g.session_id_to_user_id_map)

  read_user_id_late : session t (read_user_id t g).0 ≡ some no_session
  unfolding read_user_id
  read_user_id_late = ground (arith, find-emplace t t no_session g.session_id_to_user_id_map)

  -- A session of user 0 with no entry in the sets.
  not-IsSynced :
      (n : SessionManager) (d : UserSessionData)
      → IsSynced g
      → n.user_id_to_session_token_map ≡ g.user_id_to_session_token_map
      → session t n ≡ some d
      → d.user_id ≡ 0
      → ¬ IsSynced n
  not-IsSynced n d v same e zero_id w =
      ground (arith, v.agree 0 t, w.agree 0 t, ap (listed_in 0 t) same)

  alive_of_session :
      (n : SessionManager) (d : UserSessionData)
      → session t n ≡ some d
      → is_session_token_alive t n ≡ ltb n.current_time_cached d.session_time
  unfolding is_session_token_alive contains
  alive_of_session n d e = ground arith

-- The bug: where the maps are in step, the expiration time is positive and the expiry does not
-- overflow 64 bits, a refresh that passed its check before the logout of the token brings the token
-- back to life after it, as a session of user 0 that is in no user's set, so that the maps are out of
-- step.
pub refresh_revives_token :
    (t : String) (u : ℕ) (m : SessionManager)
    → IsSynced m
    → m.current_time_cached + m.session_expiration_time < 2 ^ 64
    → 0 < m.session_expiration_time
    → let n = set_session_time t (deactivate_session t m).0 in
      (is_session_token_alive t n ≡ true)
      × (session t n
          ≡ some (record {
            user_id = 0;
            session_time = m.current_time_cached + m.session_expiration_time;
          }))
      × (listed_in u t n.user_id_to_session_token_map ≡ false)
      × (¬ IsSynced n)
refresh_revives_token t u m v h pos =
    let g = (deactivate_session t m).0 in
    let e = set_session_time_late t g (gone t m) in
    let same_clock = clock-deactivate t m in
    (
      alive_of_session t g (gone t m) _ (longer g) e
          ∙ unfold set_session_time longer in ground (arith, same_clock),
      e ∙ unfold longer in ground (arith, same_clock),
      unfold set_session_time in (deactivate-IsSynced t m v).agree u t ∙ ap (owned u t) (gone t m),
      not-IsSynced t g (gone t m) _ (longer g) (deactivate-IsSynced t m v)
          (unfold set_session_time in refl) e (unfold longer in refl),
    )

-- The bug: where the maps are in step, a lookup that passed its check before the logout answers 0,
-- and leaves a dead session of user 0 under the token, which it writes holding the shared lock
-- only.
pub lookup_leaves_session :
    (t : String) (m : SessionManager)
    → IsSynced m
    → let (n, id) = read_user_id t (deactivate_session t m).0 in
      (id ≡ 0)
      × (session t n ≡ some no_session)
      × (is_session_token_alive t n ≡ false)
      × (¬ IsSynced n)
lookup_leaves_session t m v =
    let g = (deactivate_session t m).0 in
    let e = read_user_id_late t g (gone t m) in
    (
      unfold read_user_id in ground (arith, gone t m),
      e,
      alive_of_session t g (gone t m) _ no_session e ∙ unfold read_user_id in ground arith,
      not-IsSynced t g (gone t m) _ no_session (deactivate-IsSynced t m v)
          (unfold read_user_id in refl) e refl,
    )
