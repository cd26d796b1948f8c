-- ===== src/FriendList/Ranges.antt =====
-- The lists that FFriendListManager hands out, whole and by range
-- (ProjectServer/Source/Private/Managers/FriendListManager.cpp).
pub mod Pages
use squirrel_communicator.Prelude.{
  ℕ, ◌-◌, Bool, true, false, Option, none, some, List, [], ◌∷◌, ◌++◌, map, ltb, length, take, drop,
  if◌then◌else◌, nat_key, add_u64,
}
use squirrel_communicator.UnorderedMap.{UnorderedMap, find, contains, select_keys, has_key}
use squirrel_communicator.FriendList.{
  FriendList, FriendRequestList, FriendDatabase, FriendListManager, friend_list_at, request_list_at,
  with_friend_list, has_friend_request_list_for_user_id, download_friend_request_list_for_user_id,
}

-- std::min
abbrev pub min : ℕ → ℕ → ℕ
min a b = if ltb b a then b else a

-- The elements from an offset, at most `limit`. When Offset + Limit wraps below the offset, `assign`
-- gets an end before its start and the behaviour is undefined: `none`.
unfoldable pub range : ℕ → ℕ → List ℕ → Option (List ℕ)
range offset limit xs =
    let total = length xs in
    let end_index = min (add_u64 offset limit) total in
    if ltb offset total
    then if ltb end_index offset then none else some (take (end_index - offset) (drop offset xs))
    else some []

-- The same with a count that cannot wrap, as GetFriendRequestListInRange takes it.
unfoldable pub range_of_map : ℕ → ℕ → List ℕ → List ℕ
range_of_map offset limit xs =
    let total = length xs in
    if ltb offset total then take (min limit (total - offset)) (drop offset xs) else []

-- Those senders of the database that the cache has not given
unfoldable pub add_new : List ℕ → List ℕ → List ℕ
unfolding has_key
add_new [] ids = ids
add_new (sender ∷ senders) ids =
    add_new senders (if has_key sender ids then ids else ids ++ sender ∷ [])

module _ {D : Type 0} where
  -- GetUserFriendListWholeByUserId
  unfoldable pub get_user_friend_list_whole_by_user_id : ℕ → FriendListManager D → FriendList
  get_user_friend_list_whole_by_user_id u m = friend_list_at u m.user_id_to_friend_list

  -- GetUserFriendListArrayByUserId
  unfoldable pub get_user_friend_list_array_by_user_id : ℕ → FriendListManager D → List ℕ
  get_user_friend_list_array_by_user_id u m =
      (friend_list_at u m.user_id_to_friend_list).friends_array

  -- GetUserFriendListMapByUserId
  unfoldable pub get_user_friend_list_map_by_user_id : ℕ → FriendListManager D → UnorderedMap ℕ Bool
  get_user_friend_list_map_by_user_id u m = (friend_list_at u m.user_id_to_friend_list).friends_map

module _ {D : Type 0} (db : FriendDatabase D) where
  -- GetUserFriendRequestListWholeByUserId: a list of friends is downloaded, not one of requests
  unfoldable pub get_user_friend_request_list_whole_by_user_id :
      ℕ → FriendListManager D → FriendListManager D × FriendRequestList
  unfolding with_friend_list
  get_user_friend_request_list_whole_by_user_id u m =
      let m' = with_friend_list db u m in (m', request_list_at u m'.user_id_to_friend_request_list)

  -- GetFriendsListArrayByUserId
  unfoldable pub get_friends_list_array_by_user_id :
      ℕ → FriendListManager D → FriendListManager D × List ℕ
  unfolding with_friend_list get_user_friend_list_array_by_user_id
  get_friends_list_array_by_user_id u m =
      let m' = with_friend_list db u m in (m', get_user_friend_list_array_by_user_id u m')

  -- GetFriendListInRange
  unfoldable pub get_friend_list_in_range :
      ℕ → ℕ → ℕ → FriendListManager D → FriendListManager D × Option (List ℕ)
  unfolding with_friend_list range
  get_friend_list_in_range u offset limit m =
      let m' = with_friend_list db u m in
      (
        m',
        elim (find u m'.user_id_to_friend_list) [
          | none ↦ some []
          | some l ↦ range offset limit l.friends_array
        ],
      )

  -- GetFriendRequestListInRange
  unfoldable pub get_friend_request_list_in_range :
      ℕ → ℕ → ℕ → FriendListManager D → FriendListManager D × List ℕ
  unfolding has_friend_request_list_for_user_id download_friend_request_list_for_user_id
      range_of_map
  get_friend_request_list_in_range u offset limit m =
      let m' =
        if has_friend_request_list_for_user_id u m
        then m
        else download_friend_request_list_for_user_id db u m in
      (
        m',
        elim (find u m'.user_id_to_friend_request_list) [
          | none ↦ []
          | some l ↦ range_of_map offset limit (map (λ e. e.0) l.friend_requests)
        ],
      )

  -- GetIncomingFriendRequestListInRange
  unfoldable pub get_incoming_friend_request_list_in_range :
      ℕ → ℕ → ℕ → FriendListManager D → FriendListManager D × Option (List ℕ)
  unfolding select_keys contains add_new range
  get_incoming_friend_request_list_in_range u offset limit m =
      let (d, is_connected) = db.connect m.database in
      let cached =
        select_keys (λ _ l. contains u l.friend_requests) m.user_id_to_friend_request_list in
      let all = if is_connected then add_new (db.select_incoming u d) cached else cached in
      (record m { database = d }, range offset limit all)
