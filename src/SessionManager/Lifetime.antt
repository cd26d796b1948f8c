-- ===== src/SessionManager/Lifetime.antt =====
-- How long a session of FSessionManager lives, and FUserManager's methods over it
-- (ProjectServer/Source/Private/Auth/UserManager.cpp).
use squirrel_communicator.Prelude.{
  ℕ, ◌+◌, ◌^◌, ◌<◌, ◌≤◌, String, ◌≡◌, refl, ◌∙◌, Bool, true, false, ◌&&◌, is_some, ◌∷◌, if_pos,
  none, some, arith, ltb, if◌then◌else◌, ite, ◌≟◌, add_u64, string_key,
}
use squirrel_communicator.UnorderedMap.{contains, find-insert_or_assign}
use squirrel_communicator.SessionManager.{
  UserSessionData, SessionManager, no_session, create_session, is_session_token_alive,
  post_second_tick, get_user_id_from_session_id, refresh_session_token, deactivate_session,
}
use squirrel_communicator.SessionManager.Lookups.{
  session, session-create, session-deactivate, get_user_id_lem,
}
use mathlib.Core.Option

-- FUserManager::GetIdFromToken
unfoldable pub get_id_from_token : String → SessionManager → ℕ
get_id_from_token token m = (get_user_id_from_session_id token m).1

-- FUserManager::VerifyToken
unfoldable pub verify_token : String → SessionManager → Bool
verify_token token m = ltb 0 (get_user_id_from_session_id token m).1

-- FUserManager::RefreshSessionToken
unfoldable pub user_manager_refresh_session_token : String → SessionManager → SessionManager × Bool
user_manager_refresh_session_token token m = (m, is_session_token_alive token m)

alive-eq-session :
    (t : String) (m : SessionManager)
    → is_session_token_alive t m
      ≡ ltb m.current_time_cached (Option.get_or (session t m) no_session).session_time
unfolding is_session_token_alive contains
alive-eq-session t m = ground arith

get_id-eq-session :
    (t : String) (m : SessionManager)
    → get_id_from_token t m ≡ (
        if ltb m.current_time_cached (Option.get_or (session t m) no_session).session_time
        then (Option.get_or (session t m) no_session).user_id
        else 0)
unfolding get_id_from_token
get_id-eq-session t m = ground (arith, get_user_id_lem t m, alive-eq-session t m)

-- Where the token is not in use and the expiry does not overflow 64 bits: until its expiration time
-- has passed, a new session stands for its user; from then on the token
-- stands for nobody. The clock may show any time when the token is used.
pub id-after_create :
    (u now : ℕ) (t : String) (m : SessionManager)
    → session t m ≡ none
    → m.current_time_cached + m.session_expiration_time < 2 ^ 64
    → get_id_from_token t (post_second_tick now (create_session u t m).0)
      ≡ (if ltb now (m.current_time_cached + m.session_expiration_time) then u else 0)
unfolding post_second_tick
id-after_create u now t m fresh h = ground (
  arith,
  get_id-eq-session t (post_second_tick now (create_session u t m).0),
  session-create u t t m fresh,
)

-- Unless the new expiry overflows 64 bits, a live token that FSessionManager refreshes expires a
-- whole expiration time after the refresh, for the same user; a token that is not alive gains
-- nothing.
pub id-after_refresh :
    (now : ℕ) (t : String) (m : SessionManager)
    → m.current_time_cached + m.session_expiration_time < 2 ^ 64
    → get_id_from_token t (post_second_tick now (refresh_session_token t m).0) ≡ (
        if is_session_token_alive t m
        then if ltb now (m.current_time_cached + m.session_expiration_time)
          then (Option.get_or (session t m) no_session).user_id
          else 0
        else get_id_from_token t (post_second_tick now m))
unfolding post_second_tick refresh_session_token is_session_token_alive contains
id-after_refresh now t m h = ground (
  arith,
  get_id-eq-session t (post_second_tick now (refresh_session_token t m).0),
  get_id-eq-session t (post_second_tick now m),
  find-insert_or_assign t t
      (record (Option.get_or (session t m) no_session) {
        session_time = add_u64 m.current_time_cached m.session_expiration_time;
      })
      m.session_id_to_user_id_map,
)

-- The bug: FUserManager's refresh promises a longer time and extends nothing. It answers true for
-- every live token, and from the old expiry on the token stands for nobody.
pub user_manager_refresh_extends_nothing :
    (now : ℕ) (t : String) (d : UserSessionData) (m : SessionManager)
    → session t m ≡ some d
    → m.current_time_cached < d.session_time
    → d.session_time ≤ now
    → ((user_manager_refresh_session_token t m).1 ≡ true)
      × (get_id_from_token t (post_second_tick now (user_manager_refresh_session_token t m).0) ≡ 0)
unfolding user_manager_refresh_session_token post_second_tick
user_manager_refresh_extends_nothing now t d m e live over = (
  ground (arith, alive-eq-session t m),
  ground (arith, get_id-eq-session t (post_second_tick now m)),
)

-- A token that is deactivated stands for nobody, at any time, and other tokens keep their users.
-- The answer says whether there was a session, alive or not; only then, and only if a callback is
-- set, is it called for the token. A second deactivation finds nothing.
pub after_deactivate :
    (now : ℕ) (t s : String) (m : SessionManager)
    → (get_id_from_token s (post_second_tick now (deactivate_session t m).0)
        ≡ ite (t ≟ s) 0 (get_id_from_token s (post_second_tick now m)))
      × ((deactivate_session t m).1 ≡ is_some (session t m))
      × ((deactivate_session t m).0.notified
          ≡ (if is_some (session t m) && m.has_callback then t ∷ m.notified else m.notified))
      × ((deactivate_session t (deactivate_session t m).0).1 ≡ false)
after_deactivate now t s m = (
  unfold post_second_tick in
      ground (
        arith,
        get_id-eq-session s (post_second_tick now (deactivate_session t m).0),
        get_id-eq-session s (post_second_tick now m),
        session-deactivate t s m,
      ),
  unfold deactivate_session in ground arith,
  unfold deactivate_session in ground arith,
  answer (deactivate_session t m).0
      (session-deactivate t t m ∙ if_pos (t ≟ t) refl none (session t m)),
)
  where
    answer : (n : SessionManager) → session t n ≡ none → (deactivate_session t n).1 ≡ false
    answer n e = unfold deactivate_session in ground arith
