-- ===== src/FriendList/Requests.antt =====
-- The operations of FFriendListManager that change friends and requests
-- (ProjectServer/Source/Private/Managers/FriendListManager.cpp).
pub mod Agrees
pub mod Coherent
pub mod Consent
pub mod OwnRequest
pub mod Within
pub mod Outcomes
pub mod Capped
use squirrel_communicator.Prelude.{
  ℕ, Bool, true, false, not, ◌&&◌, Option, none, some, List, [], ◌∷◌, ◌++◌, ltb, leb, length, keep,
  if◌then◌else◌, nat_key, is_yes, ◌≟◌,
}
use squirrel_communicator.UnorderedMap.{
  UnorderedMap, find, contains, insert_or_assign, modify, erase,
}
use squirrel_communicator.FriendList.{
  FriendList, FriendRequestList, FriendDatabase, FriendListManager, size_of_i32, at_least_i32,
  friend_list_at, add_request, is_cached_request, is_friend,
}

-- EFriendRequestStatus
pub data FriendRequestStatus : Type 0 where
  request_added : FriendRequestStatus
  request_already_exists : FriendRequestStatus
  friend_already_exists : FriendRequestStatus
  sent_requests_limit_reached : FriendRequestStatus
  incoming_requests_limit_reached : FriendRequestStatus

-- EAcceptFriendRequestStatus
pub data AcceptFriendRequestStatus : Type 0 where
  request_accepted : AcceptFriendRequestStatus
  no_request : AcceptFriendRequestStatus
  friends_limit_reached : AcceptFriendRequestStatus

-- ERemoveFriendStatus
pub data RemoveFriendStatus : Type 0 where
  friend_removed friend_not_exists : RemoveFriendStatus

-- ERejectFriendRequestStatus
pub data RejectFriendRequestStatus : Type 0 where
  request_rejected not_rejected : RejectFriendRequestStatus

-- ECancelFriendRequestStatus
pub data CancelFriendRequestStatus : Type 0 where
  request_canceled not_canceled : CancelFriendRequestStatus

-- FriendsArray.push_back(Friend), FriendsMap[Friend] = true
unfoldable pub add_friend : ℕ → ℕ → UnorderedMap ℕ FriendList → UnorderedMap ℕ FriendList
add_friend u friend m =
    let l = friend_list_at u m in
    insert_or_assign u
      (record {
        friends_array = l.friends_array ++ friend ∷ [];
        friends_map = insert_or_assign friend true l.friends_map;
      })
      m

-- std::remove of every equal element, and the erase from the map
unfoldable pub without_friend : ℕ → FriendList → FriendList
without_friend friend l = record {
  friends_array = keep (λ x. not (is_yes (x ≟ friend))) l.friends_array;
  friends_map = erase friend l.friends_map;
}

module _ {D : Type 0} where
  -- What SendFriendRequest answers from the cache, if anything
  unfoldable pub cached_refusal : ℕ → ℕ → FriendListManager D → Option FriendRequestStatus
  unfolding contains
  cached_refusal sender receiver m = elim (find sender m.user_id_to_friend_request_list) [
    | none ↦ none
    | some l ↦
        if contains receiver l.friend_requests
        then some request_already_exists
        else if leb (size_of_i32 m.max_sent_requests) (length l.friend_requests)
        then some sent_requests_limit_reached
        else none
  ]

  -- The request in the cache
  unfoldable pub cache_request : ℕ → ℕ → FriendListManager D → FriendListManager D
  unfolding add_request
  cache_request sender receiver m = record m {
    user_id_to_friend_request_list = add_request sender receiver m.user_id_to_friend_request_list;
  }

  -- UserIdToFriendRequestList[Sender].FriendRequests.erase(Receiver), if the sender has a list
  unfoldable pub forget_request : ℕ → ℕ → FriendListManager D → FriendListManager D
  forget_request sender receiver m = record m {
    user_id_to_friend_request_list =
        modify sender (λ l. record l { friend_requests = erase receiver l.friend_requests })
          m.user_id_to_friend_request_list;
  }

  -- Each of two users is entered in the other's list.
  unfoldable pub cache_friendship : ℕ → ℕ → FriendListManager D → FriendListManager D
  unfolding add_friend
  cache_friendship accepting sending m = record m {
    user_id_to_friend_list =
        add_friend sending accepting (add_friend accepting sending m.user_id_to_friend_list);
  }

  -- Each of two users is erased from the other's list, if there is one.
  unfoldable pub forget_friendship : ℕ → ℕ → FriendListManager D → FriendListManager D
  unfolding without_friend
  forget_friendship removing removed m = record m {
    user_id_to_friend_list =
        modify removed (without_friend removing)
          (modify removing (without_friend removed) m.user_id_to_friend_list);
  }

module _ {D : Type 0} (db : FriendDatabase D) where
  -- A statement that a connection runs, if there is one. An exception is only logged.
  unfoldable pub on_connection : (D → D × Bool) → FriendListManager D → FriendListManager D × Bool
  on_connection statement m =
      let (d, is_connected) = db.connect m.database in
      let (d', done) = statement d in
      if is_connected then (record m { database = d' }, done) else (record m { database = d }, true)

  -- soci::transaction: unless all is done and committed, it is rolled back
  unfoldable pub transaction : (D → D × Bool) → D → D × Bool
  transaction statement d =
      let (d', done) = statement d in
      let (d'', committed) = db.commit d' in if done && committed then (d'', true) else (d, false)

  -- one statement after another
  unfoldable pub both : (D → D × Bool) → (D → D × Bool) → D → D × Bool
  both first second d = let (d', done) = first d in if done then second d' else (d', false)

  -- The counts of SendFriendRequest in the database, up to the INSERT. An exception stops them.
  unfoldable pub store_request : ℕ → ℕ → ℕ → ℕ → D → D × Option FriendRequestStatus
  store_request max_sent max_incoming sender receiver d =
      elim (db.count_request sender receiver d) [
        | none ↦ (d, none)
        | some rows ↦
            if ltb 0 rows then (d, some request_already_exists) else elim (db.count_sent sender d) [
              | none ↦ (d, none)
              | some sent ↦
                  if at_least_i32 sent max_sent
                  then (d, some sent_requests_limit_reached)
                  else elim (db.count_incoming receiver d) [
                    | none ↦ (d, none)
                    | some incoming ↦
                        if at_least_i32 incoming max_incoming
                        then (d, some incoming_requests_limit_reached)
                        else ((db.insert_request sender receiver d).0, none)
                  ]
            ]
      ]

  -- SendFriendRequest, between the two uses of the cache
  unfoldable pub send_to_db :
      ℕ → ℕ → FriendListManager D → FriendListManager D × Option FriendRequestStatus
  unfolding store_request
  send_to_db sender receiver m =
      let (d, is_connected) = db.connect m.database in
      let (d', refusal) =
        store_request m.max_sent_requests m.max_incoming_requests sender receiver d in
      if is_connected
      then (record m { database = d' }, refusal)
      else (record m { database = d }, none)

  -- SendFriendRequest
  unfoldable pub send_friend_request :
      ℕ → ℕ → FriendListManager D → FriendListManager D × FriendRequestStatus
  unfolding is_friend cached_refusal send_to_db cache_request
  send_friend_request sending receiving m =
      let (m₁, friends) = is_friend db sending receiving m in
      let (m₂, refusal) = send_to_db sending receiving m₁ in
      if friends then (m₁, friend_already_exists) else elim (cached_refusal sending receiving m₁) [
        | some status ↦ (m₁, status)
        | none ↦ elim refusal [
          | some status ↦ (m₂, status)
          | none ↦ (cache_request sending receiving m₂, request_added)
        ]
      ]

  -- DoesFriendRequestExist: the cache is asked for a request of the accepting user, the database
  -- for one of the sending user
  unfoldable pub does_friend_request_exist :
      ℕ → ℕ → FriendListManager D → FriendListManager D × Bool
  unfolding is_cached_request
  does_friend_request_exist accepting sending m =
      let (d, is_connected) = db.connect m.database in
      let m' : FriendListManager D = record m { database = d } in
      if is_cached_request accepting sending m
      then (m, true)
      else if is_connected
      then (
        m',
        elim (db.count_request sending accepting d) [ none ↦ false | some rows ↦ ltb 0 rows ],
      )
      else (m', false)

  -- AcceptFriendRequest
  unfoldable pub accept_friend_request :
      ℕ → ℕ → FriendListManager D → FriendListManager D × AcceptFriendRequestStatus
  unfolding does_friend_request_exist is_friend on_connection transaction both forget_request
      cache_friendship
  accept_friend_request accepting sending m =
      let (m₁, request_exists) = does_friend_request_exist accepting sending m in
      let (m₂, friends) = is_friend db accepting sending m₁ in
      let (m₃, _) =
        on_connection
          (transaction
            (both (db.insert_friend sending accepting) (db.delete_request sending accepting)))
          m₂ in
      if request_exists && not friends
      then (
        cache_friendship accepting sending (forget_request sending accepting m₃),
        request_accepted,
      )
      else (m₂, no_request)

  -- RejectFriendRequest
  unfoldable pub reject_friend_request :
      ℕ → ℕ → FriendListManager D → FriendListManager D × RejectFriendRequestStatus
  unfolding does_friend_request_exist on_connection transaction forget_request
  reject_friend_request rejecting rejected m =
      let (m₁, request_exists) = does_friend_request_exist rejecting rejected m in
      let (m₂, _) = on_connection (transaction (db.delete_request rejected rejecting)) m₁ in
      if request_exists
      then (forget_request rejected rejecting m₂, request_rejected)
      else (m₁, not_rejected)

  -- CancelFriendRequest
  unfoldable pub cancel_friend_request :
      ℕ → ℕ → FriendListManager D → FriendListManager D × CancelFriendRequestStatus
  unfolding does_friend_request_exist on_connection transaction forget_request
  cancel_friend_request canceling canceled m =
      let (m₁, request_exists) = does_friend_request_exist canceling canceled m in
      let (m₂, _) = on_connection (transaction (db.delete_request canceling canceled)) m₁ in
      if request_exists
      then (forget_request canceling canceled m₂, request_canceled)
      else (m₁, not_canceled)

  -- RemoveFriend
  unfoldable pub remove_friend :
      ℕ → ℕ → FriendListManager D → FriendListManager D × RemoveFriendStatus
  unfolding is_friend on_connection forget_friendship
  remove_friend removing removed m =
      let (m₁, friends) = is_friend db removing removed m in
      let (m₂, done) = on_connection (db.delete_friend removing removed) m₁ in
      if friends
      then if done
        then (forget_friendship removing removed m₂, friend_removed)
        else (m₂, friend_not_exists)
      else (m₁, friend_not_exists)
