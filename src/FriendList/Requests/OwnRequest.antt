-- ===== src/FriendList/Requests/OwnRequest.antt =====
-- What AcceptFriendRequest does with a request of the accepting user's own, and with the list of
-- a requester who is not in the cache.
use squirrel_communicator.Prelude.{
  ℕ, ◌≡◌, ◌≢◌, ap, ◌∙◌, true, false, none, some, [], arith, is_yes, ◌≟◌, nat_key, inl, inr,
}
use squirrel_communicator.UnorderedMap.{
  UnorderedMap, find, contains, insert_or_assign, find-insert_or_assign,
}
use squirrel_communicator.FriendList.{
  FriendList, FriendDatabase, FriendListManager, is_cached_friend, is_cached_request, is_friend,
  with_friend_list, has_friend_list_for_user_id, add_request, request_list_at, cache_friends,
  friend_list_at, mark_all,
}
use squirrel_communicator.FriendList.Requests.{
  add_friend, cache_request, send_friend_request, accept_friend_request, does_friend_request_exist,
  request_added, request_accepted, send_to_db,
}
use squirrel_communicator.FriendList.Requests.Coherent.{
  lists, does-lists, send-lists, with_friend_list-lists,
}
use squirrel_communicator.FriendList.Requests.Consent.{
  with_friend, lists_friend, friend-add_friend, accepted-lists, is_cached_friend_lem,
}

module _ {D : Type 0} where
  request-cache_request :
      (u v : ℕ) (m : FriendListManager D) → is_cached_request u v (cache_request u v m) ≡ true
  unfolding is_cached_request cache_request add_request contains
  request-cache_request u v m =
      let l = request_list_at u m.user_id_to_friend_request_list in
      ground (
        arith,
        find-insert_or_assign u u
            (record { friend_requests = insert_or_assign v true l.friend_requests })
            m.user_id_to_friend_request_list,
        find-insert_or_assign v v true l.friend_requests,
      )

module _ {D : Type 0} (db : FriendDatabase D) where
  cached-with_friend_list :
      (u : ℕ) (l : FriendList) (m : FriendListManager D)
      → find u (lists m) ≡ some l
      → with_friend_list db u m ≡ m
  unfolding with_friend_list has_friend_list_for_user_id contains
  cached-with_friend_list u l m e = rw (e, with_friend_list)

  request-send :
      (u v : ℕ) (m : FriendListManager D)
      → (send_friend_request db u v m).1 ≡ request_added
      → is_cached_request u v (send_friend_request db u v m).0 ≡ true
  unfolding send_friend_request is_friend
  request-send u v m e =
      let w = with_friend_list db u m in
      ground (arith, request-cache_request u v (send_to_db db u v w).0)

  -- A user whose own request to someone has just been added, and whose cached friend list lacks
  -- that user, can accept the request in the other's place: it is answered as accepted.
  pub accepts_own_request :
      (u v : ℕ) (l : FriendList) (m : FriendListManager D)
      → find u m.user_id_to_friend_list ≡ some l
      → contains v l.friends_map ≡ false
      → (send_friend_request db u v m).1 ≡ request_added
      → (accept_friend_request db u v (send_friend_request db u v m).0).1 ≡ request_accepted
  unfolding accept_friend_request does_friend_request_exist is_friend is_cached_friend
  accepts_own_request u v l m e f a =
      let m' = (send_friend_request db u v m).0 in
      let e' = ap (find u) (send-lists db m u v ∙ ap lists (cached-with_friend_list u l m e)) ∙ e in
      ground (arith, request-send u v m a, cached-with_friend_list u l m' e')

  absent-download :
      (u v : ℕ) (m : FriendListManager D)
      → u ≢ v
      → find v (lists m) ≡ none
      → find v (lists (with_friend_list db u m)) ≡ none
  unfolding cache_friends
  absent-download u v m n e = elim (with_friend_list-lists db m u) [
    | inl s ↦ ap (find v) s ∙ e
    | inr (xs, s) ↦
        ap (find v) s
        ∙ ground (
          arith,
          find-insert_or_assign u v (record { friends_array = xs; friends_map = mark_all xs [] })
              (lists m),
        )
  ]

  listed-add_friend :
      (u v : ℕ) (m : UnorderedMap ℕ FriendList) → contains v (add_friend v u m) ≡ true
  unfolding add_friend contains
  listed-add_friend u v m =
      ground (arith, find-insert_or_assign v v (with_friend u (friend_list_at v m)) m)

  listed-is_friend :
      (u x : ℕ) (m : FriendListManager D)
      → contains u (lists m) ≡ true
      → (is_friend db u x m).1 ≡ lists_friend u x (lists m)
  unfolding is_friend with_friend_list has_friend_list_for_user_id
  listed-is_friend u x m e = ground (arith, is_cached_friend_lem u x m)

  unlisted :
      (v x : ℕ) (m : UnorderedMap ℕ FriendList) → find v m ≡ none → lists_friend v x m ≡ false
  unfolding lists_friend
  unlisted v x m e = ground arith

  -- When the requester of an accepted request is another user, whose friends are not in the
  -- cache, the requester is from then on a friend of the accepting user only, whatever friends
  -- the database has.
  pub accept_forgets_friends :
      (u v x : ℕ) (m : FriendListManager D)
      → u ≢ v
      → find v m.user_id_to_friend_list ≡ none
      → (accept_friend_request db u v m).1 ≡ request_accepted
      → (is_friend db v x (accept_friend_request db u v m).0).1 ≡ is_yes (u ≟ x)
  unfolding is_friend
  accept_forgets_friends u v x m n e a =
      let asked = (does_friend_request_exist db u v m).0 in
      let m' = (accept_friend_request db u v m).0 in
      let w = lists (with_friend_list db u asked) in
      let added = accepted-lists db u v m a in
      let gone = absent-download u v asked n (ap (find v) (does-lists db m u v) ∙ e) in
      ground (
        arith,
        listed-is_friend v x m' (ap (contains v) added ∙ listed-add_friend u v (add_friend u v w)),
        ap (lists_friend v x) added,
        friend-add_friend v u v x (add_friend u v w),
        friend-add_friend u v v x w,
        unlisted v x w gone,
      )
