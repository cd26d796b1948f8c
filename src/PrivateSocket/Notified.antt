-- ===== src/PrivateSocket/Notified.antt =====
-- Whom the friend handlers of FPrivateSocketData notify, and of what.
use squirrel_communicator.Prelude.{
  ℕ, String, ◌≡◌, ◌≢◌, ◌⊎◌, true, false, Option, none, some, [], arith,
}
use squirrel_communicator.FriendList.{FriendDatabase, FriendListManager, is_cached_friend}
use squirrel_communicator.FriendList.Requests.Consent.{friends-after_accept, friends-after_remove}
use squirrel_communicator.PrivateSocket.{
  Sent, with_other, after_accept, after_remove, answer, early_exit, on_create_friend_request,
  on_accept_friend_request, on_reject_friend_request, on_cancel_friend_request, on_remove_friend,
}

-- The friends, the requests and the database are as before, and nobody was notified.
abbrev Unchanged : {D : Type 0} → FriendListManager D → FriendListManager D × Sent → Type 0
Unchanged m r = (r.0 ≡ m) × (r.1.events ≡ [])

module _ {D : Type 0} (db : FriendDatabase D) (user_name : ℕ → Option String) where
  -- When accepting sends another user an event, the two users are cached as friends of each other
  -- from then on; when removing does, in whatever state, they are not.
  pub events_match_friends :
      (current other : ℕ) (m n : FriendListManager D)
      → let accepted = on_accept_friend_request db user_name (some current) other m in
        let removed = on_remove_friend db user_name (some current) other n in
        accepted.1.events ≢ []
        → removed.1.events ≢ []
        → (is_cached_friend current other accepted.0 ≡ true)
          × (is_cached_friend other current accepted.0 ≡ true)
          × (is_cached_friend current other removed.0 ≡ false)
          × (is_cached_friend other current removed.0 ≡ false)
  unfolding on_accept_friend_request on_remove_friend with_other after_accept after_remove answer
      early_exit
  events_match_friends current other m n a r =
      let accepted = friends-after_accept db current other m in
      let removed = friends-after_remove db current other n in ground (arith, accepted, removed)

  -- A handler whose session is missing, or that is given the id 0 or the user's own, changes no
  -- friend, request or database, and notifies nobody.
  pub refused-Unchanged :
      (session : Option ℕ) (other : ℕ) (m : FriendListManager D)
      → (session ≡ none) ⊎ ((other ≡ 0) ⊎ (session ≡ some other))
      → Unchanged m (on_create_friend_request db user_name session other m)
        × Unchanged m (on_accept_friend_request db user_name session other m)
        × Unchanged m (on_reject_friend_request db user_name session other m)
        × Unchanged m (on_cancel_friend_request db user_name session other m)
        × Unchanged m (on_remove_friend db user_name session other m)
  unfolding on_create_friend_request on_accept_friend_request on_reject_friend_request
      on_cancel_friend_request on_remove_friend with_other early_exit
  refused-Unchanged session other m h = ground arith
