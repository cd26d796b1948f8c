-- ===== src/FriendList/Calls.antt =====
-- Calls of FFriendListManager that change its state, one after another
-- (ProjectServer/Source/Private/Managers/FriendListManager.cpp).
use squirrel_communicator.Prelude.{ℕ, Bool, true, false, List, [], ◌∷◌}
use squirrel_communicator.FriendList.{FriendDatabase, FriendListManager, is_friend}
use squirrel_communicator.FriendList.Requests.{
  send_friend_request, accept_friend_request, reject_friend_request, cancel_friend_request,
  remove_friend,
}
use squirrel_communicator.FriendList.Ranges.{
  get_friend_list_in_range, get_friend_request_list_in_range,
  get_incoming_friend_request_list_in_range, get_friends_list_array_by_user_id,
  get_user_friend_request_list_whole_by_user_id,
}

-- A call, with the user who makes it first
pub data Call : Type 0 where
  send : ℕ → ℕ → Call
  accept : ℕ → ℕ → Call
  reject : ℕ → ℕ → Call
  cancel : ℕ → ℕ → Call
  remove : ℕ → ℕ → Call
  ask : ℕ → ℕ → Call
  list_friends : ℕ → Call
  list_friends_in_range : ℕ → ℕ → ℕ → Call
  list_requests : ℕ → Call
  list_requests_in_range : ℕ → ℕ → ℕ → Call
  list_incoming_in_range : ℕ → ℕ → ℕ → Call

-- The call downloads requests from the database.
abbrev pub downloads_requests : Call → Bool
downloads_requests (list_requests_in_range u offset limit) = true
downloads_requests _ = false

module _ {D : Type 0} (db : FriendDatabase D) where
  unfoldable pub step : Call → FriendListManager D → FriendListManager D
  unfolding send_friend_request accept_friend_request reject_friend_request cancel_friend_request
      remove_friend is_friend get_friends_list_array_by_user_id get_friend_list_in_range
      get_user_friend_request_list_whole_by_user_id get_friend_request_list_in_range
      get_incoming_friend_request_list_in_range
  step (send u v) m = (send_friend_request db u v m).0
  step (accept u v) m = (accept_friend_request db u v m).0
  step (reject u v) m = (reject_friend_request db u v m).0
  step (cancel u v) m = (cancel_friend_request db u v m).0
  step (remove u v) m = (remove_friend db u v m).0
  step (ask u v) m = (is_friend db u v m).0
  step (list_friends u) m = (get_friends_list_array_by_user_id db u m).0
  step (list_friends_in_range u offset limit) m = (get_friend_list_in_range db u offset limit m).0
  step (list_requests u) m = (get_user_friend_request_list_whole_by_user_id db u m).0
  step (list_requests_in_range u offset limit) m =
      (get_friend_request_list_in_range db u offset limit m).0
  step (list_incoming_in_range u offset limit) m =
      (get_incoming_friend_request_list_in_range db u offset limit m).0

  unfoldable pub run : List Call → FriendListManager D → FriendListManager D
  unfolding step
  run [] m = m
  run (call ∷ calls) m = run calls (step call m)
