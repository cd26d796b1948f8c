-- ===== src/FriendList/Requests/Agrees.antt =====
-- One cached friend list: its two containers, the vector and the map, keep the same users.
use squirrel_communicator.Prelude.{
  ℕ, ◌≡◌, refl, Bool, true, not, ◌&&◌, ◌||◌, some, List, [], ◌∷◌, ◌++◌, keep, arith, is_yes, ◌≟◌,
  nat_key, Option-cases, inl, inr,
}
use squirrel_communicator.UnorderedMap.{
  UnorderedMap, find, contains, insert_or_assign, modify, has_key, find-insert_or_assign,
  find-modify, find-erase,
}
use squirrel_communicator.FriendList.{FriendList, friend_list_at, mark_all}
use squirrel_communicator.FriendList.Requests.{add_friend, without_friend}

-- The vector has a user exactly when the map does.
abbrev pub Agrees : FriendList → Type 0
Agrees l = (x : ℕ) → has_key x l.friends_array ≡ contains x l.friends_map

-- Every cached list agrees.
abbrev pub AllAgree : UnorderedMap ℕ FriendList → Type 0
AllAgree m = (u : ℕ) (l : FriendList) → find u m ≡ some l → Agrees l

has_key-add : (x y : ℕ) (xs : List ℕ) → has_key x (xs ++ y ∷ []) ≡ has_key x xs || is_yes (y ≟ x)
unfolding has_key
has_key-add x y [] = ground arith
has_key-add x y (z ∷ xs) = ground (arith, has_key-add x y xs)

has_key-remove :
    (x y : ℕ) (xs : List ℕ)
    → has_key x (keep (λ z. not (is_yes (z ≟ y))) xs) ≡ has_key x xs && not (is_yes (y ≟ x))
unfolding has_key keep
has_key-remove x y [] = refl
has_key-remove x y (z ∷ xs) = ground (arith, has_key-remove x y xs)

contains-mark_all :
    (x : ℕ) (xs : List ℕ) (m : UnorderedMap ℕ Bool)
    → contains x (mark_all xs m) ≡ has_key x xs || contains x m
unfolding contains mark_all has_key
contains-mark_all x [] m = refl
contains-mark_all x (y ∷ xs) m =
    ground
      (arith, contains-mark_all x xs (insert_or_assign y true m), find-insert_or_assign y x true m)

pub marked-Agrees :
    (xs : List ℕ) → Agrees (record { friends_array = xs; friends_map = mark_all xs [] })
unfolding contains find
marked-Agrees xs x = ground (arith, contains-mark_all x xs [])

abbrev with_friend : ℕ → FriendList → FriendList
with_friend friend l = record {
  friends_array = l.friends_array ++ friend ∷ [];
  friends_map = insert_or_assign friend true l.friends_map;
}

with_friend-Agrees : (friend : ℕ) (l : FriendList) → Agrees l → Agrees (with_friend friend l)
unfolding contains
with_friend-Agrees friend l h x = ground (
  arith,
  h x,
  has_key-add x friend l.friends_array,
  find-insert_or_assign friend x true l.friends_map,
)

pub without_friend-Agrees :
    (friend : ℕ) (l : FriendList) → Agrees l → Agrees (without_friend friend l)
unfolding contains without_friend
without_friend-Agrees friend l h x =
    ground (arith, h x, has_key-remove x friend l.friends_array, find-erase friend x l.friends_map)

none-Agrees : Agrees (record { friends_array = []; friends_map = [] })
unfolding has_key contains find
none-Agrees x = refl

module _ (m : UnorderedMap ℕ FriendList) (h : AllAgree m) where
  at-Agrees : (u : ℕ) → Agrees (friend_list_at u m)
  at-Agrees u = elim (Option-cases (find u m)) [
    | inl e ↦ rw e none-Agrees
    | inr (l, e) ↦ rw e (h u l e)
  ]

  pub insert-AllAgree : (u : ℕ) (l : FriendList) → Agrees l → AllAgree (insert_or_assign u l m)
  insert-AllAgree u l a v k e = ground (arith, find-insert_or_assign u v l m, h v k)

  pub modify-AllAgree :
      (u : ℕ) (f : FriendList → FriendList)
      → ((l : FriendList) → Agrees l → Agrees (f l))
      → AllAgree (modify u f m)
  modify-AllAgree u f keeps v k e = elim (Option-cases (find v m)) [
    | inl n ↦ ground (arith, find-modify u v f m)
    | inr (l, s) ↦ ground (arith, find-modify u v f m, h v l s, keeps l (h v l s))
  ]

  pub add_friend-AllAgree : (u friend : ℕ) → AllAgree (add_friend u friend m)
  unfolding add_friend
  add_friend-AllAgree u friend =
      insert-AllAgree u (with_friend friend (friend_list_at u m))
        (with_friend-Agrees friend (friend_list_at u m) (at-Agrees u))
