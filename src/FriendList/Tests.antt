-- ===== src/FriendList/Tests.antt =====
-- Runs of FFriendListManager over tables in memory.
use squirrel_communicator.Prelude.{
  ℕ, ◌≡◌, ◌≤◌, refl, ℕ_discrete, true, some, List, [], ◌∷◌, all_of, length, keep, nat_key, is_yes,
  ◌≟◌, arith,
}
use squirrel_communicator.UnorderedMap.{insert_or_assign, modify, find, contains, has_key}
use squirrel_communicator.FriendList.{
  FriendList, FriendRequestList, FriendListManager, init, size_of_i32, is_friend,
}
use squirrel_communicator.FriendList.Tables.{Tables, tables}
use squirrel_communicator.FriendList.Calls.{Call, send, accept, list_friends, step, run}
use squirrel_communicator.FriendList.Requests.{
  accept_friend_request, send_friend_request, request_accepted, request_added,
}
use squirrel_communicator.FriendList.Requests.Coherent.{vector_agrees_with_map}
use squirrel_communicator.FriendList.Requests.OwnRequest.{
  accepts_own_request, accept_forgets_friends,
}
use squirrel_communicator.FriendList.Requests.Capped.{sent_requests_capped}

-- Users 2 and 9 are friends; user 2 has asked user 1.
abbrev stored : Tables
stored = record { friend_list = (2, 9) ∷ []; friend_requests = (2, 1) ∷ [] }

abbrev fresh : FriendListManager Tables
fresh = init 10 10 25 stored

-- User 1 with the empty friend list cached
abbrev online : FriendListManager Tables
online = run tables (list_friends 1 ∷ []) fresh

empty_list :
    find 1 online.user_id_to_friend_list ≡ some (record { friends_array = []; friends_map = [] })
unfolding run step init find ℕ_discrete insert_or_assign keep
empty_list = refl

added : (send_friend_request tables 1 5 online).1 ≡ request_added
unfolding run step init send_friend_request ℕ_discrete insert_or_assign keep
added = refl

accepts_own_request_example :
    (accept_friend_request tables 1 5 (send_friend_request tables 1 5 online).0).1
    ≡ request_accepted
accepts_own_request_example =
    accepts_own_request tables 1 5 (record { friends_array = []; friends_map = [] }) online
      empty_list (unfold contains find in refl) added

accepted : (accept_friend_request tables 1 2 fresh).1 ≡ request_accepted
unfolding accept_friend_request init ℕ_discrete insert_or_assign keep
accepted = refl

-- User 2 is still a friend of user 9 in the table, but no longer to the manager.
accept_forgets_friends_example :
    (is_friend tables 2 9 (accept_friend_request tables 1 2 fresh).0).1 ≡ is_yes (◌≟◌ {K = ℕ} 1 9)
accept_forgets_friends_example =
    accept_forgets_friends tables 1 2 9 fresh (omega arith) (unfold init find in refl) accepted

abbrev history : List Call
history = send 1 5 ∷ accept 1 2 ∷ []

abbrev after_history : FriendListManager Tables
after_history = run tables history fresh

abbrev list_of_one : FriendList
list_of_one = record { friends_array = 2 ∷ []; friends_map = (2, true) ∷ [] }

abbrev requests_of_one : FriendRequestList
requests_of_one = record { friend_requests = (5, true) ∷ [] }

listed_one : find 1 after_history.user_id_to_friend_list ≡ some list_of_one
unfolding run step init find ℕ_discrete insert_or_assign keep send_friend_request
    accept_friend_request
listed_one = refl

asked_one : find 1 after_history.user_id_to_friend_request_list ≡ some requests_of_one
unfolding run step init find ℕ_discrete insert_or_assign keep send_friend_request
    accept_friend_request modify
asked_one = refl

vector_agrees_with_map_example :
    has_key 2 list_of_one.friends_array ≡ contains 2 list_of_one.friends_map
vector_agrees_with_map_example =
    vector_agrees_with_map tables 10 10 25 stored history 1 2 list_of_one listed_one

sent_requests_capped_example : length requests_of_one.friend_requests ≤ size_of_i32 10
sent_requests_capped_example =
    sent_requests_capped tables 10 10 25 stored history 1 requests_of_one (omega arith)
      (unfold all_of in refl) asked_one
