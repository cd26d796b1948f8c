-- ===== src/FriendList/Requests/Within.antt =====
-- Maps of request lists, none longer than a bound.
use squirrel_communicator.Prelude.{
  ℕ, suc, ◌≤◌, ◌≡◌, Bool, true, some, [], ◌∷◌, arith, length, nat_key, Option-cases, inl, inr,
}
use squirrel_communicator.UnorderedMap.{
  UnorderedMap, find, insert_or_assign, modify, erase, find-insert_or_assign, find-modify,
}
use squirrel_communicator.FriendList.{FriendRequestList, add_request, request_list_at}

length-insert :
    (k : ℕ) (v : Bool) (m : UnorderedMap ℕ Bool) → length (insert_or_assign k v m) ≤ suc (length m)
unfolding insert_or_assign
length-insert k v [] = omega arith
length-insert k v ((j, w) ∷ m) = ground (arith, length-insert k v m)

length-erase : (k : ℕ) (m : UnorderedMap ℕ Bool) → length (erase k m) ≤ length m
unfolding erase
length-erase k [] = omega arith
length-erase k ((j, w) ∷ m) = ground (arith, length-erase k m)

-- No list of the map is longer than n.
abbrev pub AllWithin : ℕ → UnorderedMap ℕ FriendRequestList → Type 0
AllWithin n m = (u : ℕ) (l : FriendRequestList) → find u m ≡ some l → length l.friend_requests ≤ n

abbrev pub RoomFor : ℕ → ℕ → UnorderedMap ℕ FriendRequestList → Type 0
RoomFor n u m = suc (length (request_list_at u m).friend_requests) ≤ n

pub add_request-AllWithin :
    (n u v : ℕ) (m : UnorderedMap ℕ FriendRequestList)
    → RoomFor n u m
    → AllWithin n m
    → AllWithin n (add_request u v m)
unfolding add_request
add_request-AllWithin n u v m r h k l e =
    let old = (request_list_at u m).friend_requests in
    ground (
      arith,
      h k l,
      length-insert v true old,
      find-insert_or_assign u k (record { friend_requests = insert_or_assign v true old }) m,
    )

abbrev pub erased : ℕ → FriendRequestList → FriendRequestList
erased v l = record l { friend_requests = erase v l.friend_requests }

pub erase-AllWithin :
    (n u v : ℕ) (m : UnorderedMap ℕ FriendRequestList)
    → AllWithin n m
    → AllWithin n (modify u (erased v) m)
erase-AllWithin n u v m h k l e = elim (Option-cases (find k m)) [
  | inl s ↦ ground (arith, find-modify u k (erased v) m)
  | inr (o, s) ↦
      ground (arith, find-modify u k (erased v) m, h k o s, length-erase v o.friend_requests)
]
