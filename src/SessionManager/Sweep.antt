-- ===== src/SessionManager/Sweep.antt =====
-- FSessionManager::AsyncCheckForDeadSessions: which sessions it ends.
use squirrel_communicator.Prelude.{
  String, ◌≡◌, refl, not, ◌&&◌, ◌||◌, none, List, [], ◌∷◌, map, arith, if◌then◌else◌, is_some,
  string_key,
}
use squirrel_communicator.UnorderedMap.{UnorderedMap, find, contains, has_key, find-erase}
use squirrel_communicator.SessionManager.{
  UserSessionData, SessionManager, is_session_token_alive, deactivate_session, deactivate_dead,
  async_check_for_dead_sessions,
}
use squirrel_communicator.SessionManager.Lookups.{session}

-- What a sweep over some ids does to one token.
record Swept (ids : List String) (t : String) (m n : SessionManager) : Type 0 where
  sessions :
      session t n
      ≡ (if has_key t ids && not (is_session_token_alive t m) then none else session t m)
  calls : has_key t n.notified ≡ (
      has_key t m.notified
      || (m.has_callback
          && is_some (session t m)
          && has_key t ids
          && not (is_session_token_alive t m)))

sweep_step :
    (i : String) (ids : List String) (t : String) (m n : SessionManager)
    → Swept ids t (if is_session_token_alive i m then m else (deactivate_session i m).0) n
    → Swept (i ∷ ids) t m n
unfolding has_key is_session_token_alive contains deactivate_session
sweep_step i ids t m n s = record {
  sessions = ground (arith, find-erase i t m.session_id_to_user_id_map);
  calls = ground (arith, find-erase i t m.session_id_to_user_id_map);
}

deactivate_dead-Swept :
    (ids : List String) (t : String) (m : SessionManager) → Swept ids t m (deactivate_dead ids m)
unfolding deactivate_dead
deactivate_dead-Swept [] t m = unfold has_key in record { sessions = refl; calls = ground arith }
deactivate_dead-Swept (i ∷ ids) t m = sweep_step i ids t m _ (
    deactivate_dead-Swept ids t
      (if is_session_token_alive i m then m else (deactivate_session i m).0))

has_key-ids :
    (t : String) (sessions : UnorderedMap String UserSessionData)
    → has_key t (map (λ e. e.0) sessions) ≡ is_some (find t sessions)
unfolding has_key find
has_key-ids t [] = refl
has_key-ids t ((i, d) ∷ rest) = ground (arith, has_key-ids t rest)

-- A sweep ends exactly the sessions that are not alive, keeps every other one as it is, and, if a
-- callback is set, calls it for exactly those that it ends.
pub sweep_ends_dead_sessions :
    (t : String) (m : SessionManager)
    → let n = async_check_for_dead_sessions m in
      (session t n ≡ (if is_session_token_alive t m then session t m else none))
      × (has_key t n.notified ≡ (
          has_key t m.notified
          || (m.has_callback && is_some (session t m) && not (is_session_token_alive t m))))
sweep_ends_dead_sessions t m =
    let s = deactivate_dead-Swept (map (λ e. e.0) m.session_id_to_user_id_map) t m in
    let k = has_key-ids t m.session_id_to_user_id_map in
    unfold async_check_for_dead_sessions is_session_token_alive contains in
    (ground (arith, s.sessions, k), ground (arith, s.calls, k))
