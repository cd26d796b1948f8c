-- ===== src/FriendList/Requests/Outcomes.antt =====
-- What the operations of FFriendListManager leave of the requests in the cache.
use squirrel_communicator.Prelude.{ℕ, ◌≡◌, refl, Bool, ◌⊎◌, none, arith, nat_key}
use squirrel_communicator.UnorderedMap.{UnorderedMap}
use squirrel_communicator.FriendList.{
  FriendRequestList, FriendDatabase, FriendListManager, is_friend, with_friend_list,
  download_friend_list_from_db, cache_friends,
}
use squirrel_communicator.FriendList.Requests.{
  cached_refusal, cache_request, cache_friendship, forget_friendship, forget_request,
  send_friend_request, accept_friend_request, reject_friend_request, cancel_friend_request,
  remove_friend, does_friend_request_exist, on_connection, send_to_db, transaction, both,
}

-- The requests that a manager caches
abbrev pub requests : {D : Type 0} → FriendListManager D → UnorderedMap ℕ FriendRequestList
requests m = m.user_id_to_friend_request_list

-- Two managers with the same requests and limit
pub record Alike {D : Type 0} (m m' : FriendListManager D) : Type 0 where
  pub same_requests : requests m' ≡ requests m
  pub same_limit : m'.max_sent_requests ≡ m.max_sent_requests

module _ {D : Type 0} (db : FriendDatabase D) where
  pub download-Alike : (m : FriendListManager D) (u : ℕ) → Alike m (with_friend_list db u m)
  unfolding with_friend_list download_friend_list_from_db cache_friends
  download-Alike m u = record { same_requests = ground arith; same_limit = ground arith }

  pub does-Alike :
      (m : FriendListManager D) (u v : ℕ) → Alike m (does_friend_request_exist db u v m).0
  unfolding does_friend_request_exist
  does-Alike m u v = record { same_requests = ground arith; same_limit = ground arith }

  pub statement-Alike :
      (m : FriendListManager D) (f : D → D × Bool) → Alike m (on_connection db f m).0
  unfolding on_connection
  statement-Alike m f = record { same_requests = ground arith; same_limit = ground arith }

  pub send_to_db-Alike : (m : FriendListManager D) (u v : ℕ) → Alike m (send_to_db db u v m).0
  unfolding send_to_db
  send_to_db-Alike m u v = record { same_requests = ground arith; same_limit = ground arith }

  pub remove-Alike : (m : FriendListManager D) (u v : ℕ) → Alike m (remove_friend db u v m).0
  unfolding remove_friend is_friend forget_friendship
  remove-Alike m u v =
      let w = with_friend_list db u m in
      let a = download-Alike m u in
      let b = statement-Alike w (db.delete_friend u v) in
      record {
        same_requests = ground (arith, a.same_requests, b.same_requests);
        same_limit = ground (arith, a.same_limit, b.same_limit);
      }

  pub friendship-Alike : (m : FriendListManager D) (u v : ℕ) → Alike m (cache_friendship u v m)
  unfolding cache_friendship
  friendship-Alike m u v = record { same_requests = refl; same_limit = refl }

  -- What sending leaves: nothing changed, or a request more, which the cache did not refuse
  pub send-cases :
      (m : FriendListManager D) (u v : ℕ)
      → let w = with_friend_list db u m in
        ((send_friend_request db u v m).0 ≡ w)
        ⊎ (((send_friend_request db u v m).0 ≡ (send_to_db db u v w).0)
            ⊎ (((send_friend_request db u v m).0 ≡ cache_request u v (send_to_db db u v w).0)
                × (cached_refusal u v w ≡ none)))
  unfolding send_friend_request is_friend
  send-cases m u v = ground arith

  pub accept-cases :
      (m : FriendListManager D) (u v : ℕ)
      → let w = with_friend_list db u (does_friend_request_exist db u v m).0 in
        let stored = transaction db (both db (db.insert_friend v u) (db.delete_request v u)) in
        ((accept_friend_request db u v m).0 ≡ w)
        ⊎ ((accept_friend_request db u v m).0
            ≡ cache_friendship u v (forget_request v u (on_connection db stored w).0))
  unfolding accept_friend_request is_friend
  accept-cases m u v = ground arith

  pub reject-cases :
      (m : FriendListManager D) (u v : ℕ)
      → let asked = (does_friend_request_exist db u v m).0 in
        ((reject_friend_request db u v m).0 ≡ asked)
        ⊎ ((reject_friend_request db u v m).0
            ≡ forget_request v u
                (on_connection db (transaction db (db.delete_request v u)) asked).0)
  unfolding reject_friend_request
  reject-cases m u v = ground arith

  pub cancel-cases :
      (m : FriendListManager D) (u v : ℕ)
      → let asked = (does_friend_request_exist db u v m).0 in
        ((cancel_friend_request db u v m).0 ≡ asked)
        ⊎ ((cancel_friend_request db u v m).0
            ≡ forget_request u v
                (on_connection db (transaction db (db.delete_request u v)) asked).0)
  unfolding cancel_friend_request
  cancel-cases m u v = ground arith
