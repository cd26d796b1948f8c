-- ===== src/SessionManager.antt =====
-- FSessionManager (ProjectServer/Source/Private/Auth/SessionManager.cpp and its header): session
-- tokens with their users, both ways, and their expiry. The random token is an argument; the clock
-- is read by `post_second_tick`; the calls of the callback are recorded in `notified`. A method that
-- takes the lock twice is composed of its sections.
pub mod Lookups
pub mod Synced
pub mod Lifetime
pub mod Sweep
pub mod Races
mod Tests
use squirrel_communicator.Prelude.{
  ℕ, ◌+◌, ◌*◌, String, Bool, true, false, ◌&&◌, not, Option, none, some, List, [], ◌∷◌, map, ltb,
  leb, ◌==◌, if◌then◌else◌, is_some, add_u64, nat_key, string_key,
}
use squirrel_communicator.UnorderedMap.{
  UnorderedMap, find, contains, emplace, erase, insert_or_assign,
}
use mathlib.Core.Option

-- FUserSessionData
pub record UserSessionData : Type 0 where
  pub user_id : ℕ
  pub session_time : ℕ

-- FUserSessionData::FUserSessionData()
abbrev pub no_session : UserSessionData
no_session = record { user_id = 0; session_time = 0 }

-- FUserSessionData::IsValid
unfoldable pub is_valid : UserSessionData → Bool
is_valid d = not (d.user_id == 0) && not (d.session_time == 0)

-- std::set<std::string>
abbrev pub TokenSet : Type 0
TokenSet = UnorderedMap String (Unit {0})

abbrev pub is_empty : TokenSet → Bool
is_empty [] = true
is_empty (t ∷ ts) = false

pub record SessionManager : Type 0 where
  pub session_id_to_user_id_map : UnorderedMap String UserSessionData
  pub user_id_to_session_token_map : UnorderedMap ℕ TokenSet
  pub has_callback : Bool
  pub notified : List String
  pub async_work_last_time : ℕ
  pub current_time_cached : ℕ
  pub session_expiration_time : ℕ

-- FSessionManager::FSessionManager
unfoldable pub init : ℕ → SessionManager
init expiration = record {
  session_id_to_user_id_map = [];
  user_id_to_session_token_map = [];
  has_callback = false;
  notified = [];
  async_work_last_time = 0;
  current_time_cached = 0;
  session_expiration_time = expiration;
}

unfoldable pub set_on_session_deactivated_callback : SessionManager → SessionManager
set_on_session_deactivated_callback m = record m { has_callback = true }

-- PostSecondTick, and the first line of Init
unfoldable pub post_second_tick : ℕ → SessionManager → SessionManager
post_second_tick seconds m = record m { current_time_cached = seconds }

-- CreateSession, with the token that CreateTokenFromId made
unfoldable pub create_session : ℕ → String → SessionManager → SessionManager × String
create_session user_id token m =
    let d : UserSessionData = record {
      user_id = user_id;
      session_time = add_u64 m.current_time_cached m.session_expiration_time;
    } in
    let tokens = Option.get_or (find user_id m.user_id_to_session_token_map) [] in
    (
      record m {
        session_id_to_user_id_map = emplace token d m.session_id_to_user_id_map;
        user_id_to_session_token_map =
            insert_or_assign user_id (emplace token tt tokens) m.user_id_to_session_token_map;
      },
      token,
    )

-- IsSessionTokenAlive
unfoldable pub is_session_token_alive : String → SessionManager → Bool
is_session_token_alive token m =
    if contains token m.session_id_to_user_id_map
    then elim (find token m.session_id_to_user_id_map) [
      | none ↦ false
      | some d ↦ ltb m.current_time_cached d.session_time
    ]
    else false

-- GetUserIdFromSessionId, the section after the check: `operator[]` inserts a missing key
unfoldable pub read_user_id : String → SessionManager → SessionManager × ℕ
read_user_id token m = (
  record m { session_id_to_user_id_map = emplace token no_session m.session_id_to_user_id_map },
  (Option.get_or (find token m.session_id_to_user_id_map) no_session).user_id,
)

-- GetUserIdFromSessionId
unfoldable pub get_user_id_from_session_id : String → SessionManager → SessionManager × ℕ
unfolding read_user_id is_session_token_alive
get_user_id_from_session_id token m =
    if is_session_token_alive token m then read_user_id token m else (m, 0)

-- RefreshSessionToken, the section after the check, with `operator[]` again
unfoldable pub set_session_time : String → SessionManager → SessionManager
set_session_time token m =
    let d = Option.get_or (find token m.session_id_to_user_id_map) no_session in
    record m {
      session_id_to_user_id_map =
          insert_or_assign token
            (record d { session_time = add_u64 m.current_time_cached m.session_expiration_time })
            m.session_id_to_user_id_map;
    }

-- RefreshSessionToken
unfoldable pub refresh_session_token : String → SessionManager → SessionManager × Bool
unfolding set_session_time is_session_token_alive
refresh_session_token token m =
    if is_session_token_alive token m then (set_session_time token m, true) else (m, false)

-- DoesUserHaveSession
unfoldable pub does_user_have_session : ℕ → SessionManager → Bool
does_user_have_session user_id m = elim (find user_id m.user_id_to_session_token_map) [
  | none ↦ false
  | some tokens ↦ not (is_empty tokens)
]

-- DeactivateSession, the token taken from its user's set, and an empty set from the map
unfoldable pub remove_token : String → ℕ → UnorderedMap ℕ TokenSet → UnorderedMap ℕ TokenSet
remove_token token user_id users = elim (find user_id users) [
  | none ↦ users
  | some tokens ↦
      let rest = erase token tokens in
      if is_empty rest then erase user_id users else insert_or_assign user_id rest users
]

-- DeactivateSession
unfoldable pub deactivate_session : String → SessionManager → SessionManager × Bool
unfolding remove_token
deactivate_session token m = elim (find token m.session_id_to_user_id_map) [
  | none ↦ (m, false)
  | some d ↦ (
    record m {
      session_id_to_user_id_map = erase token m.session_id_to_user_id_map;
      user_id_to_session_token_map = remove_token token d.user_id m.user_id_to_session_token_map;
      notified = if m.has_callback then token ∷ m.notified else m.notified;
    },
    true,
  )
]

-- AsyncCheckForDeadSessions, the loop over the copied ids
unfoldable pub deactivate_dead : List String → SessionManager → SessionManager
unfolding is_session_token_alive deactivate_session
deactivate_dead [] m = m
deactivate_dead (token ∷ rest) m =
    deactivate_dead rest
      (if is_session_token_alive token m then m else (deactivate_session token m).0)

-- AsyncCheckForDeadSessions
unfoldable pub async_check_for_dead_sessions : SessionManager → SessionManager
unfolding deactivate_dead
async_check_for_dead_sessions m = deactivate_dead (map (λ e. e.0) m.session_id_to_user_id_map) m

-- One round of the worker thread's loop
unfoldable pub worker_round : SessionManager → SessionManager
unfolding async_check_for_dead_sessions
worker_round m =
    if leb (add_u64 m.async_work_last_time (3 * 60)) m.current_time_cached
    then async_check_for_dead_sessions (record m { async_work_last_time = m.current_time_cached })
    else m
