-- ===== src/FriendList/Requests/Consent.antt =====
-- Whom FFriendListManager makes friends, and on whose request.
use squirrel_communicator.Prelude.{
  ℕ, ◌≡◌, refl, Bool, true, false, not, ◌&&◌, ◌||◌, none, some, [], ◌∷◌, ◌++◌, arith, is_yes, ◌≟◌,
  nat_key, Option-cases, Bool-cases, inl, inr,
}
use squirrel_communicator.UnorderedMap.{
  UnorderedMap, find, contains, modify, insert_or_assign, find-insert_or_assign, find-modify,
  find-erase,
}
use squirrel_communicator.FriendList.{
  FriendList, FriendDatabase, FriendListManager, is_cached_friend, is_friend, with_friend_list,
}
use squirrel_communicator.FriendList.Requests.{
  add_friend, without_friend, cache_friendship, forget_friendship, forget_request,
  accept_friend_request, remove_friend, does_friend_request_exist, request_accepted, friend_removed,
  on_connection, transaction, both,
}
use squirrel_communicator.FriendList.Requests.Coherent.{lists, statement-lists}

abbrev pub with_friend : ℕ → FriendList → FriendList
with_friend friend l = record {
  friends_array = l.friends_array ++ friend ∷ [];
  friends_map = insert_or_assign friend true l.friends_map;
}

abbrev none_yet : FriendList
none_yet = record { friends_array = []; friends_map = [] }

-- Whether a map of lists makes y a friend of x
unfoldable pub lists_friend : ℕ → ℕ → UnorderedMap ℕ FriendList → Bool
unfolding contains
lists_friend x y m = elim (find x m) [ none ↦ false | some l ↦ contains y l.friends_map ]

pub friend-add_friend :
    (u v x y : ℕ) (m : UnorderedMap ℕ FriendList)
    → lists_friend x y (add_friend u v m)
      ≡ ((is_yes (u ≟ x) && is_yes (v ≟ y)) || lists_friend x y m)
unfolding lists_friend add_friend contains find
friend-add_friend u v x y m = elim (Option-cases (find u m)) [
  | inl e ↦ rw e (
      ground (
        arith,
        find-insert_or_assign u x (with_friend v none_yet) m,
        find-insert_or_assign v y true none_yet.friends_map,
      ))
  | inr (l, e) ↦ ground (
    arith,
    find-insert_or_assign u x (with_friend v l) m,
    find-insert_or_assign v y true l.friends_map,
  )
]

friend-without_friend :
    (u v x y : ℕ) (m : UnorderedMap ℕ FriendList)
    → lists_friend x y (modify u (without_friend v) m)
      ≡ (lists_friend x y m && not (is_yes (u ≟ x) && is_yes (v ≟ y)))
unfolding lists_friend without_friend contains
friend-without_friend u v x y m = elim (Option-cases (find x m)) [
  | inl e ↦ ground (arith, find-modify u x (without_friend v) m)
  | inr (l, e) ↦ ground (arith, find-modify u x (without_friend v) m, find-erase v y l.friends_map)
]

module _ {D : Type 0} where
  pub is_cached_friend_lem :
      (x y : ℕ) (m : FriendListManager D) → is_cached_friend x y m ≡ lists_friend x y (lists m)
  unfolding is_cached_friend lists_friend
  is_cached_friend_lem x y m = refl

module _ {D : Type 0} (db : FriendDatabase D) where
  -- What an accepted request leaves of the cached lists
  pub accepted-lists :
      (u v : ℕ) (m : FriendListManager D)
      → (accept_friend_request db u v m).1 ≡ request_accepted
      → lists (accept_friend_request db u v m).0
        ≡ add_friend v u
            (add_friend u v (lists (with_friend_list db u (does_friend_request_exist db u v m).0)))
  unfolding accept_friend_request is_friend forget_request cache_friendship
  accepted-lists u v m e =
      let asked = does_friend_request_exist db u v m in
      let w = with_friend_list db u asked.0 in
      let stored = transaction db (both db (db.insert_friend v u) (db.delete_request v u)) in
      elim (Bool-cases (asked.1 && not (is_cached_friend u v w))) [
        | inl c ↦ ground (arith, statement-lists db w stored)
        | inr c ↦ ground arith
      ]

  removed-lists :
      (u v : ℕ) (m : FriendListManager D)
      → (remove_friend db u v m).1 ≡ friend_removed
      → lists (remove_friend db u v m).0
        ≡ modify v
            (without_friend u)
            (modify u (without_friend v) (lists (with_friend_list db u m)))
  unfolding remove_friend is_friend forget_friendship
  removed-lists u v m e =
      let w = with_friend_list db u m in
      let done = on_connection db (db.delete_friend u v) w in
      elim (Bool-cases (is_cached_friend u v w && done.1)) [
        | inl c ↦ ground (arith, statement-lists db w (db.delete_friend u v))
        | inr c ↦ ground (arith, statement-lists db w (db.delete_friend u v))
      ]

  pub friends-after_accept :
      (u v : ℕ) (m : FriendListManager D)
      → (accept_friend_request db u v m).1 ≡ request_accepted
      → (is_cached_friend u v (accept_friend_request db u v m).0 ≡ true)
        × (is_cached_friend v u (accept_friend_request db u v m).0 ≡ true)
  friends-after_accept u v m e =
      let w = with_friend_list db u (does_friend_request_exist db u v m).0 in
      ground (
        arith,
        is_cached_friend_lem u v (accept_friend_request db u v m).0,
        is_cached_friend_lem v u (accept_friend_request db u v m).0,
        accepted-lists u v m e,
        friend-add_friend v u u v (add_friend u v (lists w)),
        friend-add_friend v u v u (add_friend u v (lists w)),
        friend-add_friend u v u v (lists w),
        friend-add_friend u v v u (lists w),
      )

  pub friends-after_remove :
      (u v : ℕ) (m : FriendListManager D)
      → (remove_friend db u v m).1 ≡ friend_removed
      → (is_cached_friend u v (remove_friend db u v m).0 ≡ false)
        × (is_cached_friend v u (remove_friend db u v m).0 ≡ false)
  friends-after_remove u v m e =
      let w = with_friend_list db u m in
      ground (
        arith,
        is_cached_friend_lem u v (remove_friend db u v m).0,
        is_cached_friend_lem v u (remove_friend db u v m).0,
        removed-lists u v m e,
        friend-without_friend v u u v (modify u (without_friend v) (lists w)),
        friend-without_friend v u v u (modify u (without_friend v) (lists w)),
        friend-without_friend u v u v (lists w),
        friend-without_friend u v v u (lists w),
      )

  -- After a request is accepted each of the two users is cached as the other's friend; after a
  -- friend is removed, in whatever state, neither is.
  pub friends-after_accept_remove :
      (u v : ℕ) (m n : FriendListManager D)
      → (accept_friend_request db u v m).1 ≡ request_accepted
      → (remove_friend db u v n).1 ≡ friend_removed
      → (is_cached_friend u v (accept_friend_request db u v m).0 ≡ true)
        × (is_cached_friend v u (accept_friend_request db u v m).0 ≡ true)
        × (is_cached_friend u v (remove_friend db u v n).0 ≡ false)
        × (is_cached_friend v u (remove_friend db u v n).0 ≡ false)
  friends-after_accept_remove u v m n a r =
      let accepted = friends-after_accept u v m a in
      let removed = friends-after_remove u v n r in (accepted.0, accepted.1, removed.0, removed.1)
