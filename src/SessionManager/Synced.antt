-- ===== src/SessionManager/Synced.antt =====
-- The two maps of FSessionManager agree.
use squirrel_communicator.Prelude.{
  ℕ, ◌*◌, String, ◌≡◌, refl, sym, ap, subst, Bool, true, false, Option, none, some, List, [], ◌∷◌,
  map, arith, ◌==◌, if◌then◌else◌, is_some, add_u64, nat_key, string_key, Option-cases, Bool-cases,
  inl, inr, ◌↔◌, leb,
}
use squirrel_communicator.UnorderedMap.{
  UnorderedMap, find, contains, emplace, erase, find-emplace, find-erase, find-insert_or_assign,
}
use squirrel_communicator.SessionManager.{
  UserSessionData, TokenSet, SessionManager, no_session, is_empty, init, create_session,
  is_session_token_alive, get_user_id_from_session_id, post_second_tick, refresh_session_token,
  remove_token, deactivate_session, does_user_have_session, deactivate_dead,
  async_check_for_dead_sessions, worker_round,
}
use squirrel_communicator.SessionManager.Lookups.{
  session, listed_in, session-deactivate, session-create, get_user_id_lem, is_empty-emplace,
  find_of_is_empty, listed_in-remove_token,
}
use mathlib.Core.Option

-- The session of a token is the user's.
abbrev pub owned : ℕ → String → Option UserSessionData → Bool
owned u t none = false
owned u t (some d) = d.user_id == u

-- A token is in a user's set exactly when its session is the user's, and no set is kept empty.
pub record IsSynced (m : SessionManager) : Type 0 where
  pub agree :
      (u : ℕ) (t : String) → listed_in u t m.user_id_to_session_token_map ≡ owned u t (session t m)
  pub no_empty :
      (u : ℕ) (ts : TokenSet)
      → find u m.user_id_to_session_token_map ≡ some ts
      → is_empty ts ≡ false

init-IsSynced : (expiration : ℕ) → IsSynced (init expiration)
unfolding init find
init-IsSynced expiration = record { agree = λ u t. refl; no_empty = λ u ts e. cc }

deactivate-agree :
    (t s : String) (u : ℕ) (m : SessionManager)
    → IsSynced m
    → listed_in u s (deactivate_session t m).0.user_id_to_session_token_map
      ≡ owned u s (session s (deactivate_session t m).0)
deactivate-agree t s u m v = elim (Option-cases (session t m)) [
  | inl e ↦ unfold deactivate_session in rw (e, deactivate_session) (v.agree u s)
  | inr (d, e) ↦ rw (session-deactivate t s m) (
      unfold deactivate_session in
      ground (
        arith,
        listed_in-remove_token t s d.user_id u m.user_id_to_session_token_map,
        v.agree u s,
        v.agree d.user_id t,
      ))
]

remove_token-no_empty :
    (t : String) (u j : ℕ) (ts : TokenSet) (users : UnorderedMap ℕ TokenSet)
    → ((i : ℕ) (ss : TokenSet) → find i users ≡ some ss → is_empty ss ≡ false)
    → find j (remove_token t u users) ≡ some ts
    → is_empty ts ≡ false
unfolding remove_token
remove_token-no_empty t u j ts users h e = elim (Option-cases (find u users)) [
  | inl n ↦ ground (arith, h j ts)
  | inr (ss, n) ↦
      ground (arith, h j ts, find-erase u j users, find-insert_or_assign u j (erase t ss) users)
]

pub deactivate-IsSynced :
    (t : String) (m : SessionManager) → IsSynced m → IsSynced (deactivate_session t m).0
deactivate-IsSynced t m v = record {
  agree = λ u s. deactivate-agree t s u m v;
  no_empty = λ u ts. elim (Option-cases (session t m)) [
    | inl e ↦ unfold deactivate_session in rw (e, deactivate_session) (v.no_empty u ts)
    | inr (d, e) ↦
        unfold deactivate_session in
        rw (e, deactivate_session)
          (remove_token-no_empty t d.user_id u ts m.user_id_to_session_token_map v.no_empty)
  ];
}

create-IsSynced :
    (u : ℕ) (t : String) (m : SessionManager)
    → session t m ≡ none
    → IsSynced m
    → IsSynced (create_session u t m).0
create-IsSynced u t m e v = record {
  agree = λ j s. rw (session-create u t s m e) (
      unfold create_session find in
      ground (
        arith,
        find-insert_or_assign u j (emplace t tt old) users,
        find-emplace t s tt old,
        v.agree j s,
        v.agree u s,
      ));
  no_empty = λ j ts.
      unfold create_session in
      ground (
        arith,
        find-insert_or_assign u j (emplace t tt old) users,
        is_empty-emplace t old,
        v.no_empty j ts,
      );
}
  where
    users : UnorderedMap ℕ TokenSet
    users = m.user_id_to_session_token_map

    old : TokenSet
    old = Option.get_or (find u users) []

refresh-IsSynced :
    (t : String) (m : SessionManager) → IsSynced m → IsSynced (refresh_session_token t m).0
refresh-IsSynced t m v = record {
  agree = λ u s.
      unfold refresh_session_token contains in
      ground (
        arith,
        find-insert_or_assign t s longer m.session_id_to_user_id_map,
        v.agree u s,
        v.agree u t,
      );
  no_empty = λ u ts. unfold refresh_session_token in ground (arith, v.no_empty u ts);
}
  where
    longer : UserSessionData
    longer = record (Option.get_or (session t m) no_session) {
      session_time = add_u64 m.current_time_cached m.session_expiration_time;
    }

deactivate_dead-IsSynced :
    (ts : List String) (m : SessionManager) → IsSynced m → IsSynced (deactivate_dead ts m)
unfolding deactivate_dead
deactivate_dead-IsSynced [] m v = v
deactivate_dead-IsSynced (t ∷ ts) m v =
    deactivate_dead-IsSynced ts _ (one (is_session_token_alive t m))
  where
    one : (b : Bool) → IsSynced (if b then m else (deactivate_session t m).0)
    one true = v
    one false = deactivate-IsSynced t m v

-- The calls that threads make, each run to its end.
pub data Call : Type 0 where
  ticks : ℕ → Call
  creates : ℕ → String → Call
  looks_up refreshes deactivates : String → Call
  works : Call

unfoldable pub step : Call → SessionManager → SessionManager
step (ticks seconds) m = post_second_tick seconds m
step (creates u t) m = (create_session u t m).0
step (looks_up t) m = (get_user_id_from_session_id t m).0
step (refreshes t) m = (refresh_session_token t m).0
step (deactivates t) m = (deactivate_session t m).0
step works m = worker_round m

unfoldable pub run : List Call → SessionManager → SessionManager
run [] m = m
run (c ∷ cs) m = run cs (step c m)

-- A created token is not in use.
abbrev pub IsFresh : Call → SessionManager → Type 0
IsFresh (creates u t) m = session t m ≡ none
IsFresh _ m = Unit {0}

abbrev pub AllFresh : List Call → SessionManager → Type 0
AllFresh [] m = Unit {0}
AllFresh (c ∷ cs) m = IsFresh c m × AllFresh cs (step c m)

worker_round-IsSynced : (m : SessionManager) → IsSynced m → IsSynced (worker_round m)
unfolding worker_round async_check_for_dead_sessions
worker_round-IsSynced m v =
    elim (Bool-cases (leb (add_u64 m.async_work_last_time (3 * 60)) m.current_time_cached)) [
      | inl e ↦
          rw (e, worker_round)
            (deactivate_dead-IsSynced (map (λ e. e.0) m.session_id_to_user_id_map) _
              (record { agree = v.agree; no_empty = v.no_empty }))
      | inr e ↦ rw (e, worker_round) v
    ]

-- Every call keeps the two maps in step, if a created token is a new one.
pub step-IsSynced : (c : Call) (m : SessionManager) → IsFresh c m → IsSynced m → IsSynced (step c m)
unfolding step
step-IsSynced (ticks seconds) m f v =
    unfold post_second_tick in record { agree = v.agree; no_empty = v.no_empty }
step-IsSynced (creates u t) m f v = create-IsSynced u t m f v
step-IsSynced (looks_up t) m f v = subst IsSynced (sym (ap (λ r. r.0) (get_user_id_lem t m))) v
step-IsSynced (refreshes t) m f v = refresh-IsSynced t m v
step-IsSynced (deactivates t) m f v = deactivate-IsSynced t m v
step-IsSynced works m f v = worker_round-IsSynced m v

pub run-IsSynced :
    (cs : List Call) (m : SessionManager) → AllFresh cs m → IsSynced m → IsSynced (run cs m)
unfolding run
run-IsSynced [] m f v = v
run-IsSynced (c ∷ cs) m f v = run-IsSynced cs (step c m) f.1 (step-IsSynced c m f.0 v)

-- After any history of calls from the constructor on, in which created tokens are new ones, a token
-- is in a user's set exactly when its session is the user's, and no set is kept empty.
pub init-run-IsSynced :
    (cs : List Call) (expiration : ℕ)
    → AllFresh cs (init expiration)
    → IsSynced (run cs (init expiration))
init-run-IsSynced cs expiration f = run-IsSynced cs (init expiration) f (init-IsSynced expiration)

first_token : (ts : TokenSet) → is_empty ts ≡ false → (t : String) × (is_some (find t ts) ≡ true)
unfolding find
first_token [] h = cc
first_token ((t, _) ∷ ts) h = (t, ground arith)

-- In step, a user has a session exactly when some token's session is the user's.
pub does_user_have_session_iff :
    (u : ℕ) (m : SessionManager)
    → IsSynced m
    → (does_user_have_session u m ≡ true) ↔ ((t : String) × (owned u t (session t m) ≡ true))
unfolding does_user_have_session
does_user_have_session_iff u m v = (forth, back)
  where
    forth : does_user_have_session u m ≡ true → (t : String) × (owned u t (session t m) ≡ true)
    forth h = elim (Option-cases (find u m.user_id_to_session_token_map)) [
      | inl e ↦ absurd (ground arith)
      | inr (ts, e) ↦
          let (t, listed) = first_token ts (ground arith) in (t, ground (arith, v.agree u t))
    ]

    back : (t : String) × (owned u t (session t m) ≡ true) → does_user_have_session u m ≡ true
    back (t, h) = elim (Option-cases (find u m.user_id_to_session_token_map)) [
      | inl e ↦ unfold find in ground (arith, v.agree u t)
      | inr (ts, e) ↦ ground (arith, v.agree u t, find_of_is_empty ts t)
    ]
