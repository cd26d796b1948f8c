-- ===== src/FriendList.antt =====
-- FFriendListManager (ProjectServer/Source/Private/Managers/FriendListManager.cpp and
-- ProjectServer/Source/Public/Managers/FriendListManager.h): friends and friend requests, cached
-- per user over the tables friend_list and friend_requests. The SQL statements are the interface
-- FriendDatabase; a statement that throws answers `none` or `false`.
pub mod Requests
pub mod Ranges
pub mod Calls
pub mod Tables
mod Tests
use squirrel_communicator.Prelude.{
  ℕ, ◌+◌, ◌-◌, ◌^◌, Bool, true, false, Option, none, some, List, [], ◌∷◌, ltb, leb, map, ◌==◌,
  if◌then◌else◌, nat_key, is_some,
}
use squirrel_communicator.UnorderedMap.{UnorderedMap, find, contains, insert_or_assign}
use mathlib.Core.Option

-- FFriendList
pub record FriendList : Type 0 where
  pub friends_array : List ℕ
  pub friends_map : UnorderedMap ℕ Bool

-- FFriendRequestList
pub record FriendRequestList : Type 0 where
  pub friend_requests : UnorderedMap ℕ Bool

pub record FriendDatabase (D : Type 0) : Type 0 where
  -- FDataBaseConnect, and IsConnected
  pub connect : D → D × Bool
  -- the count of the rows with this requesting user and this target
  pub count_request : ℕ → ℕ → D → Option ℕ
  pub count_sent : ℕ → D → Option ℕ
  pub count_incoming : ℕ → D → Option ℕ
  -- the rows (id_requesting, id_target) that name a user on either side
  pub select_friends : ℕ → D → Option (List (ℕ × ℕ))
  pub select_requests : ℕ → D → Option (List (ℕ × ℕ))
  -- id_requesting of the rows with this target, as far as they are fetched
  pub select_incoming : ℕ → D → List ℕ
  pub insert_request : ℕ → ℕ → D → D × Bool
  pub delete_request : ℕ → ℕ → D → D × Bool
  pub insert_friend : ℕ → ℕ → D → D × Bool
  -- the rows of two users, whichever of them requested
  pub delete_friend : ℕ → ℕ → D → D × Bool
  pub commit : D → D × Bool

-- The limits are int32, as their bit patterns.
pub record FriendListManager (D : Type 0) : Type 0 where
  pub user_id_to_friend_list : UnorderedMap ℕ FriendList
  pub user_id_to_friend_request_list : UnorderedMap ℕ FriendRequestList
  pub max_sent_requests : ℕ
  pub max_incoming_requests : ℕ
  pub max_friends : ℕ
  pub database : D

-- FFriendListManager::FFriendListManager
unfoldable pub init : {D : Type 0} → ℕ → ℕ → ℕ → D → FriendListManager D
init sent incoming friends d = record {
  user_id_to_friend_list = [];
  user_id_to_friend_request_list = [];
  max_sent_requests = sent;
  max_incoming_requests = incoming;
  max_friends = friends;
  database = d;
}

-- static_cast<size_t> of an int32: the sign is extended
abbrev pub size_of_i32 : ℕ → ℕ
size_of_i32 n = if ltb n (2 ^ 31) then n else n + (2 ^ 64 - 2 ^ 32)

-- count >= n, for a count of rows and an int32
abbrev pub at_least_i32 : ℕ → ℕ → Bool
at_least_i32 count n = if ltb n (2 ^ 31) then leb n count else true

-- UserIdToFriendList[UserId], which makes an empty list for a new key
abbrev pub friend_list_at : ℕ → UnorderedMap ℕ FriendList → FriendList
friend_list_at u m = Option.get_or (find u m) (record { friends_array = []; friends_map = [] })

-- UserIdToFriendRequestList[UserId]
abbrev pub request_list_at : ℕ → UnorderedMap ℕ FriendRequestList → FriendRequestList
request_list_at u m = Option.get_or (find u m) (record { friend_requests = [] })

-- UserIdToFriendRequestList[Sender].FriendRequests[Receiver] = true
unfoldable pub add_request :
    ℕ → ℕ → UnorderedMap ℕ FriendRequestList → UnorderedMap ℕ FriendRequestList
add_request sender receiver m =
    insert_or_assign sender
      (record {
        friend_requests = insert_or_assign receiver true (request_list_at sender m).friend_requests;
      })
      m

-- The other user of each row, from DownloadFriendListFromDB
unfoldable pub friends_in : ℕ → List (ℕ × ℕ) → List ℕ
friends_in u [] = []
friends_in u ((requesting, target) ∷ rows) =
    (if requesting == u then target else requesting) ∷ friends_in u rows

-- FriendsMap[FriendId] = true for each friend
unfoldable pub mark_all : List ℕ → UnorderedMap ℕ Bool → UnorderedMap ℕ Bool
mark_all [] m = m
mark_all (x ∷ xs) m = mark_all xs (insert_or_assign x true m)

-- the loop of DownloadFriendRequestListForUserId
unfoldable pub add_requests :
    List (ℕ × ℕ) → UnorderedMap ℕ FriendRequestList → UnorderedMap ℕ FriendRequestList
unfolding add_request
add_requests [] m = m
add_requests ((sender, receiver) ∷ rows) m = add_requests rows (add_request sender receiver m)

module _ {D : Type 0} where
  -- HasFriendListForUserId
  unfoldable pub has_friend_list_for_user_id : ℕ → FriendListManager D → Bool
  unfolding contains
  has_friend_list_for_user_id u m = contains u m.user_id_to_friend_list

  -- HasFriendRequestListForUserId
  unfoldable pub has_friend_request_list_for_user_id : ℕ → FriendListManager D → Bool
  unfolding contains
  has_friend_request_list_for_user_id u m = contains u m.user_id_to_friend_request_list

  -- The list replaces what is cached for the user.
  unfoldable pub cache_friends : ℕ → List ℕ → FriendListManager D → FriendListManager D
  unfolding mark_all
  cache_friends u friends m = record m {
    user_id_to_friend_list =
        insert_or_assign u (record { friends_array = friends; friends_map = mark_all friends [] })
          m.user_id_to_friend_list;
  }

  -- FriendsMap.contains(FriendId), for a user with a list
  unfoldable pub is_cached_friend : ℕ → ℕ → FriendListManager D → Bool
  unfolding contains
  is_cached_friend u friend m = elim (find u m.user_id_to_friend_list) [
    | none ↦ false
    | some l ↦ contains friend l.friends_map
  ]

  -- FriendRequests.contains(ReceivingId), for a user with a list
  unfoldable pub is_cached_request : ℕ → ℕ → FriendListManager D → Bool
  unfolding contains
  is_cached_request sender receiver m = elim (find sender m.user_id_to_friend_request_list) [
    | none ↦ false
    | some l ↦ contains receiver l.friend_requests
  ]

module _ {D : Type 0} (db : FriendDatabase D) where
  -- DownloadFriendListFromDB: without a connection the empty list is cached
  unfoldable pub download_friend_list_from_db : ℕ → FriendListManager D → FriendListManager D
  unfolding cache_friends friends_in
  download_friend_list_from_db u m =
      let (d, is_connected) = db.connect m.database in
      let m' : FriendListManager D = record m { database = d } in
      if is_connected
      then elim (db.select_friends u d) [
        | none ↦ m'
        | some rows ↦ cache_friends u (friends_in u rows) m'
      ]
      else cache_friends u [] m'

  -- DownloadFriendRequestListForUserId
  unfoldable pub download_friend_request_list_for_user_id :
      ℕ → FriendListManager D → FriendListManager D
  unfolding add_requests
  download_friend_request_list_for_user_id u m =
      let (d, is_connected) = db.connect m.database in
      let m' : FriendListManager D = record m { database = d } in
      if is_connected
      then elim (db.select_requests u d) [
        | none ↦ m'
        | some rows ↦ record m' {
          user_id_to_friend_request_list = add_requests rows m'.user_id_to_friend_request_list;
        }
      ]
      else m'

  -- The list of a user without one is downloaded first.
  unfoldable pub with_friend_list : ℕ → FriendListManager D → FriendListManager D
  unfolding has_friend_list_for_user_id download_friend_list_from_db
  with_friend_list u m =
      if has_friend_list_for_user_id u m then m else download_friend_list_from_db u m

  -- IsFriend
  unfoldable pub is_friend : ℕ → ℕ → FriendListManager D → FriendListManager D × Bool
  unfolding with_friend_list is_cached_friend
  is_friend u friend m = let m' = with_friend_list u m in (m', is_cached_friend u friend m')
