-- ===== src/SessionManager/Tests.antt =====
-- Runs of FSessionManager.
use squirrel_communicator.Prelude.{
  false, ◌+◌, String, ◌≡◌, refl, true, ◌&&◌, ◌||◌, not, some, none, List, [], ◌∷◌, arith,
  if◌then◌else◌, is_some, ◌≟◌, string_key, nat_key,
}
use squirrel_communicator.UnorderedMap.{find, has_key}
use squirrel_communicator.SessionManager.{
  SessionManager, init, is_session_token_alive, post_second_tick, deactivate_session,
  async_check_for_dead_sessions, set_session_time,
}
use squirrel_communicator.SessionManager.Lookups.{session, listed_in}
use squirrel_communicator.SessionManager.Synced.{Call, IsSynced, step, run, init-run-IsSynced}
use squirrel_communicator.SessionManager.Sweep.{sweep_ends_dead_sessions}
use squirrel_communicator.SessionManager.Races.{refresh_revives_token}

abbrev history : List Call
history =
    Call.ticks 1000
    ∷ Call.creates 7 "first"
    ∷ Call.looks_up "first"
    ∷ Call.deactivates "first"
    ∷ Call.works
    ∷ []

init-run-IsSynced_example : IsSynced (run history (init 3600))
init-run-IsSynced_example =
    init-run-IsSynced history 3600
      (tt, (unfold step init post_second_tick find in refl, (tt, (tt, (tt, tt)))))

-- One session of user 7, until 2000
abbrev sessions : SessionManager
sessions = record {
  session_id_to_user_id_map = ("first", record { user_id = 7; session_time = 2000 }) ∷ [];
  user_id_to_session_token_map = (7, ("first", tt) ∷ []) ∷ [];
  has_callback = true;
  notified = [];
  async_work_last_time = 0;
  current_time_cached = 1500;
  session_expiration_time = 3600;
}

sessions-IsSynced : IsSynced sessions
sessions-IsSynced = record {
  agree = λ u t. unfold find in ground arith;
  no_empty = λ u ts. unfold find in ground arith;
}

abbrev same : Discrete String
same = ◌≟◌ {K = String}

-- The same at the time when it ends
abbrev ending : SessionManager
ending = record sessions { current_time_cached = 2000 }

sweep_ends_dead_sessions_example :
    (session "first" (async_check_for_dead_sessions ending)
      ≡ (if is_session_token_alive "first" ending then session "first" ending else none))
    × (has_key "first" (async_check_for_dead_sessions ending).notified ≡ (
        has_key {K = String} "first" []
        || (true
            && is_some (session "first" ending)
            && not (is_session_token_alive "first" ending))))
sweep_ends_dead_sessions_example = sweep_ends_dead_sessions "first" ending

-- A refresh whose check came before the logout
abbrev late : SessionManager
late = set_session_time "first" (deactivate_session "first" sessions).0

refresh_revives_token_example :
    (is_session_token_alive "first"
        (set_session_time "first" (deactivate_session "first" sessions).0)
      ≡ true)
    × (session "first" (set_session_time "first" (deactivate_session "first" sessions).0)
        ≡ some (record { user_id = 0; session_time = 1500 + 3600 }))
    × (listed_in 7 "first" late.user_id_to_session_token_map ≡ false)
    × (¬ IsSynced (set_session_time "first" (deactivate_session "first" sessions).0))
refresh_revives_token_example =
    refresh_revives_token "first" 7 sessions sessions-IsSynced (omega arith) (omega arith)
