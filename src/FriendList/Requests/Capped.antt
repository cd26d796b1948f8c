-- ===== src/FriendList/Requests/Capped.antt =====
-- How many requests of one user FFriendListManager caches.
use squirrel_communicator.Prelude.{
  ℕ, suc, ◌≤◌, ◌≡◌, refl, sym, ◌∙◌, subst, Bool, true, false, not, none, some, List, [], ◌∷◌, arith,
  length, all_of, nat_key, Option-cases, inl, inr,
}
use squirrel_communicator.UnorderedMap.{find}
use squirrel_communicator.FriendList.{
  FriendRequestList, FriendDatabase, FriendListManager, init, size_of_i32, is_friend,
  with_friend_list,
}
use squirrel_communicator.FriendList.Requests.{
  cached_refusal, cache_request, forget_request, send_friend_request, accept_friend_request,
  does_friend_request_exist, on_connection, send_to_db, transaction, both,
}
use squirrel_communicator.FriendList.Ranges.{
  get_friend_list_in_range, get_incoming_friend_request_list_in_range,
  get_friends_list_array_by_user_id, get_user_friend_request_list_whole_by_user_id,
}
use squirrel_communicator.FriendList.Calls.{
  Call, send, accept, reject, cancel, remove, ask, list_friends, list_friends_in_range,
  list_requests, list_requests_in_range, list_incoming_in_range, downloads_requests, step, run,
}
use squirrel_communicator.FriendList.Requests.Within.{
  AllWithin, RoomFor, add_request-AllWithin, erase-AllWithin,
}
use squirrel_communicator.FriendList.Requests.Outcomes.{
  requests, Alike, download-Alike, does-Alike, statement-Alike, send_to_db-Alike, remove-Alike,
  friendship-Alike, send-cases, accept-cases, reject-cases, cancel-cases,
}

-- The list of requests is capped, with room for one request at least.
record IsCapped {D : Type 0} (sent : ℕ) (m : FriendListManager D) : Type 0 where
  limit : m.max_sent_requests ≡ sent
  within : AllWithin (size_of_i32 sent) (requests m)
  positive : suc 0 ≤ size_of_i32 sent

module _ {D : Type 0} (db : FriendDatabase D) (sent : ℕ) where
  Alike-IsCapped : (m m' : FriendListManager D) → Alike m m' → IsCapped sent m → IsCapped sent m'
  Alike-IsCapped m m' a h = record {
    limit = a.same_limit ∙ h.limit;
    within = rw a.same_requests h.within;
    positive = h.positive;
  }

  forget-IsCapped :
      (m : FriendListManager D) (u v : ℕ) → IsCapped sent m → IsCapped sent (forget_request u v m)
  unfolding forget_request
  forget-IsCapped m u v h = record {
    limit = h.limit;
    within = erase-AllWithin (size_of_i32 sent) u v (requests m) h.within;
    positive = h.positive;
  }

  room-cached :
      (m : FriendListManager D) (u v : ℕ)
      → cached_refusal u v m ≡ none
      → IsCapped sent m
      → RoomFor (size_of_i32 sent) u (requests m)
  unfolding cached_refusal
  room-cached m u v r h = elim (Option-cases (find u (requests m))) [
    | inl e ↦ rw e h.positive
    | inr (l, e) ↦ rw e (ground (arith, h.limit))
  ]

  cache-IsCapped :
      (m m' : FriendListManager D) (u v : ℕ)
      → Alike m m'
      → cached_refusal u v m ≡ none
      → IsCapped sent m
      → IsCapped sent (cache_request u v m')
  unfolding cache_request
  cache-IsCapped m m' u v a r h = record {
    limit = a.same_limit ∙ h.limit;
    within = rw a.same_requests (
        add_request-AllWithin (size_of_i32 sent) u v (requests m) (room-cached m u v r h) h.within);
    positive = h.positive;
  }

  -- A database statement, and then a request less
  stored-IsCapped :
      (m : FriendListManager D) (f : D → D × Bool) (u v : ℕ)
      → IsCapped sent m
      → IsCapped sent (forget_request u v (on_connection db f m).0)
  stored-IsCapped m f u v h =
      forget-IsCapped (on_connection db f m).0 u v
        (Alike-IsCapped m (on_connection db f m).0 (statement-Alike db m f) h)

  download-IsCapped :
      (m : FriendListManager D) (u : ℕ) → IsCapped sent m → IsCapped sent (with_friend_list db u m)
  download-IsCapped m u = Alike-IsCapped m (with_friend_list db u m) (download-Alike db m u)

  does-IsCapped :
      (m : FriendListManager D) (u v : ℕ)
      → IsCapped sent m
      → IsCapped sent (does_friend_request_exist db u v m).0
  does-IsCapped m u v =
      Alike-IsCapped m (does_friend_request_exist db u v m).0 (does-Alike db m u v)

  send-IsCapped :
      (m : FriendListManager D) (u v : ℕ)
      → IsCapped sent m
      → IsCapped sent (send_friend_request db u v m).0
  send-IsCapped m u v h =
      let w = with_friend_list db u m in
      let stored = (send_to_db db u v w).0 in
      let hw = download-IsCapped m u h in
      elim (send-cases db m u v) [
        | inl e ↦ subst (IsCapped sent) (sym e) hw
        | inr (inl e) ↦
            subst (IsCapped sent) (sym e) (Alike-IsCapped w stored (send_to_db-Alike db w u v) hw)
        | inr (inr (e, r)) ↦
            subst (IsCapped sent) (sym e)
              (cache-IsCapped w stored u v (send_to_db-Alike db w u v) r hw)
      ]

  accept-IsCapped :
      (m : FriendListManager D) (u v : ℕ)
      → IsCapped sent m
      → IsCapped sent (accept_friend_request db u v m).0
  accept-IsCapped m u v h =
      let asked = (does_friend_request_exist db u v m).0 in
      let w = with_friend_list db u asked in
      let hw = download-IsCapped asked u (does-IsCapped m u v h) in
      let stored = transaction db (both db (db.insert_friend v u) (db.delete_request v u)) in
      let m' = forget_request v u (on_connection db stored w).0 in
      elim (accept-cases db m u v) [
        | inl e ↦ subst (IsCapped sent) (sym e) hw
        | inr e ↦
            subst (IsCapped sent) (sym e)
              (Alike-IsCapped m' _ (friendship-Alike db m' u v) (stored-IsCapped w stored v u hw))
      ]

  step-IsCapped :
      (call : Call) (m : FriendListManager D)
      → downloads_requests call ≡ false
      → IsCapped sent m
      → IsCapped sent (step db call m)
  unfolding step is_friend get_friends_list_array_by_user_id get_friend_list_in_range
      get_user_friend_request_list_whole_by_user_id get_incoming_friend_request_list_in_range
  step-IsCapped (send u v) m p h = send-IsCapped m u v h
  step-IsCapped (accept u v) m p h = accept-IsCapped m u v h
  step-IsCapped (reject u v) m p h =
      let asked = (does_friend_request_exist db u v m).0 in
      let ha = does-IsCapped m u v h in
      elim (reject-cases db m u v) [
        | inl e ↦ subst (IsCapped sent) (sym e) ha
        | inr e ↦
            subst (IsCapped sent) (sym e)
              (stored-IsCapped asked (transaction db (db.delete_request v u)) v u ha)
      ]
  step-IsCapped (cancel u v) m p h =
      let asked = (does_friend_request_exist db u v m).0 in
      let ha = does-IsCapped m u v h in
      elim (cancel-cases db m u v) [
        | inl e ↦ subst (IsCapped sent) (sym e) ha
        | inr e ↦
            subst (IsCapped sent) (sym e)
              (stored-IsCapped asked (transaction db (db.delete_request u v)) u v ha)
      ]
  step-IsCapped (remove u v) m p h = Alike-IsCapped m _ (remove-Alike db m u v) h
  step-IsCapped (ask u v) m p h = download-IsCapped m u h
  step-IsCapped (list_friends u) m p h = download-IsCapped m u h
  step-IsCapped (list_friends_in_range u offset limit) m p h = download-IsCapped m u h
  step-IsCapped (list_requests u) m p h = download-IsCapped m u h
  step-IsCapped (list_requests_in_range u offset limit) m p h = cc
  step-IsCapped (list_incoming_in_range u offset limit) m p h =
      Alike-IsCapped m _ (record { same_requests = refl; same_limit = refl }) h

  run-IsCapped :
      (calls : List Call) (m : FriendListManager D)
      → all_of (λ call. not (downloads_requests call)) calls ≡ true
      → IsCapped sent m
      → IsCapped sent (run db calls m)
  unfolding run all_of
  run-IsCapped [] m p h = h
  run-IsCapped (call ∷ calls) m p h =
      run-IsCapped calls (step db call m) (ground arith) (step-IsCapped call m (ground arith) h)

  -- From a new manager, through any calls but those that download requests, no user has more
  -- requests cached than the limit of sent requests, when that limit admits one at least.
  pub sent_requests_capped :
      (incoming friends : ℕ) (d : D) (calls : List Call) (u : ℕ) (l : FriendRequestList)
      → suc 0 ≤ size_of_i32 sent
      → all_of (λ call. not (downloads_requests call)) calls ≡ true
      → find u (run db calls (init sent incoming friends d)).user_id_to_friend_request_list ≡ some l
      → length l.friend_requests ≤ size_of_i32 sent
  sent_requests_capped incoming friends d calls u l s p e =
      (run-IsCapped calls (init sent incoming friends d) p
          (unfold init find in record { limit = refl; within = λ k j n. cc; positive = s })).within
        u l e
