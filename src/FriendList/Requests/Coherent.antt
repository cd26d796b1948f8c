-- ===== src/FriendList/Requests/Coherent.antt =====
-- The two containers of FFriendList hold the same friends after every sequence of calls.
use squirrel_communicator.Prelude.{
  ℕ, ◌≡◌, ◌⊎◌, sym, subst, Bool, not, ◌&&◌, some, List, [], ◌∷◌, arith, nat_key, Option-cases,
  Bool-cases, inl, inr,
}
use squirrel_communicator.UnorderedMap.{UnorderedMap, find, contains, modify, has_key}
use squirrel_communicator.FriendList.{
  FriendList, FriendDatabase, FriendListManager, init, friends_in, cache_friends,
  download_friend_list_from_db, with_friend_list, is_friend, is_cached_friend,
  has_friend_list_for_user_id, download_friend_request_list_for_user_id,
}
use squirrel_communicator.FriendList.Requests.{
  add_friend, without_friend, cache_friendship, forget_friendship, forget_request, cache_request,
  send_friend_request, accept_friend_request, reject_friend_request, cancel_friend_request,
  remove_friend, does_friend_request_exist, on_connection, send_to_db, transaction, both,
}
use squirrel_communicator.FriendList.Calls.{
  Call, send, accept, reject, cancel, remove, ask, list_friends, list_friends_in_range,
  list_requests, list_requests_in_range, list_incoming_in_range, step, run,
}
use squirrel_communicator.FriendList.Ranges.{
  get_friend_list_in_range, get_friend_request_list_in_range,
  get_incoming_friend_request_list_in_range, get_friends_list_array_by_user_id,
  get_user_friend_request_list_whole_by_user_id,
}
use squirrel_communicator.FriendList.Requests.Agrees.{
  AllAgree, insert-AllAgree, modify-AllAgree, add_friend-AllAgree, marked-Agrees,
  without_friend-Agrees,
}

-- The friends that a manager caches
abbrev pub lists : {D : Type 0} → FriendListManager D → UnorderedMap ℕ FriendList
lists m = m.user_id_to_friend_list

module _ {D : Type 0} (m : FriendListManager D) (h : AllAgree (lists m)) where
  cache-AllAgree : (u : ℕ) (xs : List ℕ) → AllAgree (lists (cache_friends u xs m))
  unfolding cache_friends
  cache-AllAgree u xs = insert-AllAgree (lists m) h u _ (marked-Agrees xs)

  friendship-AllAgree : (u v : ℕ) → AllAgree (lists (cache_friendship u v m))
  unfolding cache_friendship
  friendship-AllAgree u v =
      add_friend-AllAgree (add_friend u v (lists m)) (add_friend-AllAgree (lists m) h u v) v u

  apart-AllAgree : (u v : ℕ) → AllAgree (lists (forget_friendship u v m))
  unfolding forget_friendship
  apart-AllAgree u v =
      modify-AllAgree (modify u (without_friend v) (lists m))
        (modify-AllAgree (lists m) h u (without_friend v) (without_friend-Agrees v)) v
        (without_friend u) (without_friend-Agrees u)

module _ {D : Type 0} (db : FriendDatabase D) where
  -- A user's friends are cached, or they stay as they are.
  pub with_friend_list-lists :
      (m : FriendListManager D) (u : ℕ)
      → (lists (with_friend_list db u m) ≡ lists m)
        ⊎ ((xs : List ℕ) × (lists (with_friend_list db u m) ≡ lists (cache_friends u xs m)))
  unfolding with_friend_list download_friend_list_from_db cache_friends
  with_friend_list-lists m u = elim (Bool-cases (has_friend_list_for_user_id u m)) [
    | inl e ↦ inl (ground arith)
    | inr e ↦ elim (Bool-cases (db.connect m.database).1) [
      | inr n ↦ inr ([], ground arith)
      | inl c ↦ elim (Option-cases (db.select_friends u (db.connect m.database).0)) [
        | inl n ↦ inl (ground arith)
        | inr (rows, s) ↦ inr (friends_in u rows, ground arith)
      ]
    ]
  ]

  download-AllAgree :
      (m : FriendListManager D) (u : ℕ)
      → AllAgree (lists m)
      → AllAgree (lists (with_friend_list db u m))
  download-AllAgree m u h = elim (with_friend_list-lists m u) [
    | inl e ↦ subst AllAgree (sym e) h
    | inr (xs, e) ↦ subst AllAgree (sym e) (cache-AllAgree m h u xs)
  ]

  pub does-lists :
      (m : FriendListManager D) (u v : ℕ) → lists (does_friend_request_exist db u v m).0 ≡ lists m
  unfolding does_friend_request_exist
  does-lists m u v = ground arith

  pub statement-lists :
      (m : FriendListManager D) (f : D → D × Bool) → lists (on_connection db f m).0 ≡ lists m
  unfolding on_connection
  statement-lists m f = ground arith

  send_to_db-lists : (m : FriendListManager D) (u v : ℕ) → lists (send_to_db db u v m).0 ≡ lists m
  unfolding send_to_db
  send_to_db-lists m u v = ground arith

  -- What each operation leaves of the lists
  pub send-lists :
      (m : FriendListManager D) (u v : ℕ)
      → lists (send_friend_request db u v m).0 ≡ lists (with_friend_list db u m)
  unfolding send_friend_request is_friend cache_request
  send-lists m u v = ground (arith, send_to_db-lists (with_friend_list db u m) u v)

  pub accept-lists :
      (m : FriendListManager D) (u v : ℕ)
      → let w = with_friend_list db u (does_friend_request_exist db u v m).0 in
        (lists (accept_friend_request db u v m).0 ≡ lists w)
        ⊎ (lists (accept_friend_request db u v m).0 ≡ lists (cache_friendship u v w))
  unfolding accept_friend_request is_friend forget_request cache_friendship
  accept-lists m u v =
      let asked = does_friend_request_exist db u v m in
      let w = with_friend_list db u asked.0 in
      let stored = transaction db (both db (db.insert_friend v u) (db.delete_request v u)) in
      elim (Bool-cases (asked.1 && not (is_cached_friend u v w))) [
        | inl e ↦ inr (ground (arith, statement-lists w stored))
        | inr e ↦ inl (ground arith)
      ]

  reject-lists :
      (m : FriendListManager D) (u v : ℕ) → lists (reject_friend_request db u v m).0 ≡ lists m
  unfolding reject_friend_request forget_request
  reject-lists m u v = ground (
    arith,
    does-lists m u v,
    statement-lists (does_friend_request_exist db u v m).0 (transaction db (db.delete_request v u)),
  )

  cancel-lists :
      (m : FriendListManager D) (u v : ℕ) → lists (cancel_friend_request db u v m).0 ≡ lists m
  unfolding cancel_friend_request forget_request
  cancel-lists m u v = ground (
    arith,
    does-lists m u v,
    statement-lists (does_friend_request_exist db u v m).0 (transaction db (db.delete_request u v)),
  )

  pub remove-lists :
      (m : FriendListManager D) (u v : ℕ)
      → let w = with_friend_list db u m in
        (lists (remove_friend db u v m).0 ≡ lists w)
        ⊎ (lists (remove_friend db u v m).0 ≡ lists (forget_friendship u v w))
  unfolding remove_friend is_friend forget_friendship
  remove-lists m u v =
      let w = with_friend_list db u m in
      let done = on_connection db (db.delete_friend u v) w in
      elim (Bool-cases (is_cached_friend u v w && done.1)) [
        | inl e ↦ inr (ground (arith, statement-lists w (db.delete_friend u v)))
        | inr e ↦ inl (ground (arith, statement-lists w (db.delete_friend u v)))
      ]

  -- The calls that only read the lists
  requests_in_range-lists :
      (m : FriendListManager D) (u offset limit : ℕ)
      → lists (get_friend_request_list_in_range db u offset limit m).0 ≡ lists m
  unfolding get_friend_request_list_in_range download_friend_request_list_for_user_id
  requests_in_range-lists m u offset limit = ground arith

  step-AllAgree :
      (call : Call) (m : FriendListManager D)
      → AllAgree (lists m)
      → AllAgree (lists (step db call m))
  unfolding step is_friend get_friends_list_array_by_user_id get_friend_list_in_range
      get_user_friend_request_list_whole_by_user_id get_incoming_friend_request_list_in_range
  step-AllAgree (send u v) m h = subst AllAgree (sym (send-lists m u v)) (download-AllAgree m u h)
  step-AllAgree (accept u v) m h =
      let asked = (does_friend_request_exist db u v m).0 in
      let kept = subst AllAgree (sym (does-lists m u v)) h in
      elim (accept-lists m u v) [
        | inl e ↦ subst AllAgree (sym e) (download-AllAgree asked u kept)
        | inr e ↦
            subst AllAgree (sym e) (
              friendship-AllAgree (with_friend_list db u asked) (download-AllAgree asked u kept) u
                v)
      ]
  step-AllAgree (reject u v) m h = subst AllAgree (sym (reject-lists m u v)) h
  step-AllAgree (cancel u v) m h = subst AllAgree (sym (cancel-lists m u v)) h
  step-AllAgree (remove u v) m h = elim (remove-lists m u v) [
    | inl e ↦ subst AllAgree (sym e) (download-AllAgree m u h)
    | inr e ↦
        subst AllAgree (sym e)
          (apart-AllAgree (with_friend_list db u m) (download-AllAgree m u h) u v)
  ]
  step-AllAgree (ask u v) m h = download-AllAgree m u h
  step-AllAgree (list_friends u) m h = download-AllAgree m u h
  step-AllAgree (list_friends_in_range u offset limit) m h = download-AllAgree m u h
  step-AllAgree (list_requests u) m h = download-AllAgree m u h
  step-AllAgree (list_requests_in_range u offset limit) m h =
      subst AllAgree (sym (requests_in_range-lists m u offset limit)) h
  step-AllAgree (list_incoming_in_range u offset limit) m h = h

  run-AllAgree :
      (calls : List Call) (m : FriendListManager D)
      → AllAgree (lists m)
      → AllAgree (lists (run db calls m))
  unfolding run
  run-AllAgree [] m h = h
  run-AllAgree (call ∷ calls) m h = run-AllAgree calls (step db call m) (step-AllAgree call m h)

  -- Whatever calls are made, starting from a new manager and whatever the database answers: the
  -- vector of each cached friend list holds a user exactly when the map beside it does.
  pub vector_agrees_with_map :
      (sent incoming friends : ℕ) (d : D) (calls : List Call) (u x : ℕ) (l : FriendList)
      → find u (run db calls (init sent incoming friends d)).user_id_to_friend_list ≡ some l
      → has_key x l.friends_array ≡ contains x l.friends_map
  vector_agrees_with_map sent incoming friends d calls u x l e =
      run-AllAgree calls (init sent incoming friends d) (unfold init find in λ v k n. cc) u l e x
