-- ===== src/FriendList/Ranges/Pages.antt =====
-- What the ranges of FFriendListManager contain, for the offsets and limits that clients send.
use squirrel_communicator.Prelude.{
  ℕ, ◌+◌, ◌-◌, ◌^◌, ◌≤◌, ◌<◌, ◌≡◌, ap, Bool, some, List, [], ltb, length, take, drop, slice-past,
  slice-rest, length-map, map, nat_key, arith, if◌then◌else◌, add_u64, Bool-cases, inl, inr,
}
use squirrel_communicator.UnorderedMap.{find, contains}
use squirrel_communicator.FriendList.{
  FriendList, FriendRequestList, FriendDatabase, FriendListManager, size_of_i32, with_friend_list,
  has_friend_list_for_user_id, has_friend_request_list_for_user_id,
}
use squirrel_communicator.FriendList.Ranges.{
  range, range_of_map, get_friend_list_in_range, get_friend_request_list_in_range,
}

-- The two ways to take a slice, where the sum does not wrap
module _ (offset limit : ℕ) (xs : List ℕ) (fits : offset + limit < 2 ^ 64) where
  counted : take (add_u64 offset limit - offset) (drop offset xs) ≡ take limit (drop offset xs)
  counted =
      let e : add_u64 offset limit - offset ≡ limit = omega arith in
      ap (λ n. take n (drop offset xs)) e

  range_lem : range offset limit xs ≡ some (take limit (drop offset xs))
  unfolding range
  range_lem = ground (
    arith,
    slice-past offset limit xs,
    slice-rest offset limit xs,
    slice-rest offset (length xs - offset) xs,
    counted,
  )

  range_of_map_lem : range_of_map offset limit xs ≡ take limit (drop offset xs)
  unfolding range_of_map
  range_of_map_lem = ground (
    arith,
    slice-past offset limit xs,
    slice-rest offset limit xs,
    slice-rest offset (length xs - offset) xs,
  )

-- The slice that a client asks for: nothing at a negative offset
abbrev pub asked : ℕ → ℕ → List ℕ → List ℕ
asked offset limit xs = if ltb offset (2 ^ 31) then take limit (drop offset xs) else []

pub range_of_request :
    (offset limit : ℕ) (xs : List ℕ)
    → offset < 2 ^ 32
    → limit < 2 ^ 31
    → length xs ≤ 2 ^ 63
    → (range (size_of_i32 offset) (size_of_i32 limit) xs ≡ some (asked offset limit xs))
      × (range_of_map (size_of_i32 offset) (size_of_i32 limit) xs ≡ asked offset limit xs)
unfolding range range_of_map
range_of_request offset limit xs o l h = elim (Bool-cases (ltb offset (2 ^ 31))) [
  | inl e ↦ ground (
    arith,
    range_lem offset limit xs (ground arith),
    range_of_map_lem offset limit xs (ground arith),
  )
  | inr e ↦ ground arith
]

module _ {D : Type 0} (db : FriendDatabase D) where
  -- For a user whose friends and requests are cached and at most 2^63 each, an int32 offset and a
  -- limit that is not negative: both lists by range are the elements from the offset on, as many
  -- as the limit admits, and none at a negative offset.
  pub lists_in_range :
      (u offset limit : ℕ) (l : FriendList) (r : FriendRequestList) (m : FriendListManager D)
      → find u m.user_id_to_friend_list ≡ some l
      → find u m.user_id_to_friend_request_list ≡ some r
      → offset < 2 ^ 32
      → limit < 2 ^ 31
      → length l.friends_array ≤ 2 ^ 63
      → length r.friend_requests ≤ 2 ^ 63
      → ((get_friend_list_in_range db u (size_of_i32 offset) (size_of_i32 limit) m).1
          ≡ some (asked offset limit l.friends_array))
        × ((get_friend_request_list_in_range db u (size_of_i32 offset) (size_of_i32 limit) m).1
            ≡ asked offset limit (map (λ e. e.0) r.friend_requests))
  unfolding get_friend_list_in_range get_friend_request_list_in_range with_friend_list
      has_friend_list_for_user_id has_friend_request_list_for_user_id contains
  lists_in_range u offset limit l r m e f o n h k = (
    ground (arith, range_of_request offset limit l.friends_array),
    ground (
      arith,
      range_of_request offset limit (map (λ e. e.0) r.friend_requests),
      length-map (λ (e : ℕ × Bool). e.0) r.friend_requests,
    ),
  )
