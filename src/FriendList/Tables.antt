-- ===== src/FriendList/Tables.antt =====
-- The tables friend_list and friend_requests in memory: FriendDatabase as the statements of
-- FFriendListManager are meant, for runs.
use squirrel_communicator.Prelude.{
  ℕ, Bool, true, not, ◌&&◌, ◌||◌, some, List, [], ◌∷◌, ◌++◌, map, ◌==◌, length, keep,
}
use squirrel_communicator.FriendList.{FriendDatabase}

pub record Tables : Type 0 where
  pub friend_list : List (ℕ × ℕ)
  pub friend_requests : List (ℕ × ℕ)

abbrev names : ℕ → ℕ × ℕ → Bool
names u row = (row.0 == u) || (row.1 == u)

abbrev is_row : ℕ → ℕ → ℕ × ℕ → Bool
is_row u v row = (row.0 == u) && (row.1 == v)

abbrev pub tables : FriendDatabase Tables
tables = record {
  connect = λ d. (d, true);
  count_request = λ u v d. some (length (keep (is_row u v) d.friend_requests));
  count_sent = λ u d. some (length (keep (λ row. row.0 == u) d.friend_requests));
  count_incoming = λ v d. some (length (keep (λ row. row.1 == v) d.friend_requests));
  select_friends = λ u d. some (keep (names u) d.friend_list);
  select_requests = λ u d. some (keep (names u) d.friend_requests);
  select_incoming = λ v d. map (λ row. row.0) (keep (λ row. row.1 == v) d.friend_requests);
  insert_request = λ u v d. (record d { friend_requests = d.friend_requests ++ (u, v) ∷ [] }, true);
  delete_request = λ u v d.
      (record d { friend_requests = keep (λ row. not (is_row u v row)) d.friend_requests }, true);
  insert_friend = λ u v d. (record d { friend_list = d.friend_list ++ (u, v) ∷ [] }, true);
  delete_friend = λ u v d. (
    record d { friend_list = keep (λ row. not (is_row u v row || is_row v u row)) d.friend_list },
    true,
  );
  commit = λ d. (d, true);
}
