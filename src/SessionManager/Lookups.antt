-- ===== src/SessionManager/Lookups.antt =====
-- What FSessionManager's operations do to the session under a token, and to the token sets.
use squirrel_communicator.Prelude.{
  ℕ, String, ◌≡◌, refl, Bool, true, false, Option, none, some, [], ◌∷◌, arith, if◌then◌else◌,
  is_some, ite, ◌≟◌, add_u64, nat_key, string_key, Option-cases, inl, inr,
}
use squirrel_communicator.UnorderedMap.{
  UnorderedMap, find, contains, emplace, erase, find-emplace, find-erase, find-insert_or_assign,
}
use squirrel_communicator.SessionManager.{
  UserSessionData, TokenSet, SessionManager, no_session, is_empty, create_session,
  is_session_token_alive, get_user_id_from_session_id, remove_token, deactivate_session,
}
use mathlib.Core.Option

-- The session of a token.
abbrev pub session : String → SessionManager → Option UserSessionData
session t m = find t m.session_id_to_user_id_map

-- A token is in the set of a user.
abbrev pub listed_in : ℕ → String → UnorderedMap ℕ TokenSet → Bool
listed_in u t users = is_some (find t (Option.get_or (find u users) []))

pub session-deactivate :
    (t s : String) (m : SessionManager)
    → session s (deactivate_session t m).0 ≡ ite (t ≟ s) none (session s m)
unfolding deactivate_session
session-deactivate t s m = ground (arith, find-erase t s m.session_id_to_user_id_map)

pub session-create :
    (u : ℕ) (t s : String) (m : SessionManager)
    → session t m ≡ none
    → session s (create_session u t m).0
      ≡ ite
          (t ≟ s)
          (some (record {
            user_id = u;
            session_time = add_u64 m.current_time_cached m.session_expiration_time;
          }))
          (session s m)
unfolding create_session
session-create u t s m e =
    let d : UserSessionData = record {
      user_id = u;
      session_time = add_u64 m.current_time_cached m.session_expiration_time;
    } in
    ground (arith, find-emplace t s d m.session_id_to_user_id_map)

emplace_present :
    {V : Type 0} (t : String) (v w : V) (m : UnorderedMap String V)
    → find t m ≡ some w
    → emplace t v m ≡ m
unfolding emplace
emplace_present t v w m e = ground arith

-- A lookup leaves the maps alone, although it goes through `operator[]`.
pub get_user_id_lem :
    (t : String) (m : SessionManager)
    → get_user_id_from_session_id t m ≡ (
      m,
      if is_session_token_alive t m then (Option.get_or (session t m) no_session).user_id else 0,
    )
unfolding get_user_id_from_session_id contains
get_user_id_lem t m = elim (Option-cases (session t m)) [
  | inl e ↦ ground arith
  | inr (d, e) ↦ ground (arith, emplace_present t no_session d m.session_id_to_user_id_map e)
]

pub find_of_is_empty : (ts : TokenSet) (t : String) → is_empty ts ≡ true → find t ts ≡ none
unfolding find
find_of_is_empty [] t h = refl
find_of_is_empty (x ∷ ts) t h = ground arith

pub is_empty-emplace : (t : String) (ts : TokenSet) → is_empty (emplace t tt ts) ≡ false
unfolding emplace find
is_empty-emplace t [] = refl
is_empty-emplace t (x ∷ ts) = ground arith

pub listed_in-remove_token :
    (t s : String) (u j : ℕ) (users : UnorderedMap ℕ TokenSet)
    → listed_in j s (remove_token t u users)
      ≡ ite (u ≟ j) (ite (t ≟ s) false (listed_in j s users)) (listed_in j s users)
unfolding remove_token find
listed_in-remove_token t s u j users = elim (Option-cases (find u users)) [
  | inl e ↦ ground arith
  | inr (ts, e) ↦ ground (
    arith,
    find-erase u j users,
    find-insert_or_assign u j (erase t ts) users,
    find-erase t s ts,
    find_of_is_empty (erase t ts) s,
  )
]
