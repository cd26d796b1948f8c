-- ===== src/ServersManager/Channels/Stored.antt =====
-- The order that a server shows after FServersManager has stored one, and the requests that pass the
-- validation of ReorderChannels.
use squirrel_communicator.Prelude.{
  ℕ, ◌≡◌, refl, sym, ap, subst, ◌∙◌, true, not, is_yes, ◌&&◌, ◌||◌, all_of, all_of-map, all_of-both,
  all_of-Perm, none, some, List, [], ◌∷◌, arith, ◌==◌, length, nat_key, Perm, ◌≟◌,
}
use squirrel_communicator.UnorderedMap.{find, find-modify, has_key}
use squirrel_communicator.Server.{Server}
use squirrel_communicator.Server.Channels.{
  Entry, entry_position, get_all_channels, set_channel_positions,
}
use squirrel_communicator.Server.Channels.Cache.{IsCoherent, order, get_all_channels-IsCoherent}
use squirrel_communicator.Server.Channels.Order.{sort_by-perm}
use squirrel_communicator.ServersManager.{Database, ServersManager, write_server}
use squirrel_communicator.ServersManager.Channels.{
  store_order, is_valid_order, number_from, ids_of, update_positions,
}
use squirrel_communicator.ServersManager.Channels.Numbered.{
  all_distinct, all_distinct-Perm, distinct_of_rest,
}
use squirrel_communicator.ServersManager.Channels.Shown.{
  IsKeyed, keys, keys-distinct, shown-eq-order, shown_after_numbering,
}
use mathlib.Core.List.Perm

-- The ids of a cached server's channels, as GetAllChannels shows them
abbrev pub shown : {D : Type 0} → ℕ → ServersManager D → List ℕ
shown server_id m = elim (find server_id m.servers_map) [
  | none ↦ []
  | some s ↦ ids_of (get_all_channels s).1
]

-- A read changes nothing but the cache.
pub channels-get_all : (s : Server) → (get_all_channels s).0.channels ≡ s.channels
unfolding get_all_channels
channels-get_all s = ground arith

pub find-write_server :
    {D : Type 0} (server_id : ℕ) (s s' : Server) (m : ServersManager D)
    → find server_id m.servers_map ≡ some s
    → find server_id (write_server server_id s' m).servers_map ≡ some s'
unfolding write_server
find-write_server server_id s s' m e =
    ground (arith, find-modify server_id server_id (λ _. s') m.servers_map)

module _ {D : Type 0} (db : Database D) where
  found_after_store :
      (server_id : ℕ) (ids : List ℕ) (s s' : Server) (m : ServersManager D)
      → find server_id m.servers_map ≡ some s'
      → (db.connect m.database).1 ≡ true
      → find server_id (store_order db server_id ids s m).0.servers_map
        ≡ some (set_channel_positions (number_from 0 ids) s)
  unfolding store_order
  found_after_store server_id ids s s' m e c =
      rw (c, store_order)
        (find-write_server server_id s' (set_channel_positions (number_from 0 ids) s)
          (record m {
            database =
                (update_positions db server_id (number_from 0 ids) (db.connect m.database).0).0;
          })
          e)

  pub shown_after_store :
      (server_id : ℕ) (ids : List ℕ) (s s' : Server) (m : ServersManager D)
      → find server_id m.servers_map ≡ some s'
      → (db.connect m.database).1 ≡ true
      → IsCoherent s
      → IsKeyed s.channels
      → Perm ids (keys s.channels)
      → shown server_id (store_order db server_id ids s m).0 ≡ ids
  shown_after_store server_id ids s s' m e c v k p =
      rw (found_after_store server_id ids s s' m e c, shown)
        (shown_after_numbering ids s v k p
          (all_distinct-Perm p ∙ keys-distinct s.channels v.unique))

-- The ids that a server shows are those of its channels.
pub shown-Perm :
    (s : Server)
    → IsCoherent s
    → IsKeyed s.channels
    → Perm (ids_of (get_all_channels s).1) (keys s.channels)
shown-Perm s v k =
    rw (shown-eq-order s v k)
      (Perm.map (λ (e : Entry). e.0) (sort_by-perm entry_position s.channels))

-- A request that names each channel once passes the validation.
valid_of_distinct :
    (existing seen ids : List ℕ)
    → all_of (λ i. has_key i existing) ids ≡ true
    → all_of (λ i. not (has_key i seen)) ids ≡ true
    → all_distinct ids ≡ true
    → is_valid_order existing seen ids ≡ true
unfolding is_valid_order all_of all_distinct has_key
valid_of_distinct existing seen [] h n d = refl
valid_of_distinct existing seen (id ∷ ids) h n d = ground (
  arith,
  valid_of_distinct existing (id ∷ seen) ids (ground arith)
      (all_of-map (λ y. not (is_yes (id ≟ y)) && not (has_key y seen))
        (λ y. not (is_yes (id ≟ y) || has_key y seen)) ids (λ y k. ground arith)
        (all_of-both (λ y. not (is_yes (id ≟ y))) (λ y. not (has_key y seen)) ids
          (ground (arith, distinct_of_rest id ids)) (ground arith)))
      (ground arith),
)

all_present : (xs : List ℕ) → all_of (λ i. has_key i xs) xs ≡ true
unfolding all_of has_key
all_present [] = refl
all_present (x ∷ xs) = ground (
  arith,
  all_of-map (λ i. has_key i xs) (λ i. is_yes (x ≟ i) || has_key i xs) xs (λ i h. ground arith)
      (all_present xs),
)

none_seen : (xs : List ℕ) → all_of (λ i. not (has_key i [])) xs ≡ true
unfolding all_of has_key
none_seen [] = refl
none_seen (x ∷ xs) = none_seen xs

pub valid_of_Perm :
    (existing ids : List ℕ)
    → Perm ids existing
    → all_distinct ids ≡ true
    → is_valid_order existing [] ids ≡ true
valid_of_Perm existing ids p d =
    valid_of_distinct existing [] ids
      (all_of-Perm (λ i. has_key i existing) p ∙ all_present existing) (none_seen ids) d

pub nil_of_length : (xs : List ℕ) → length xs == 0 ≡ true → xs ≡ []
nil_of_length [] h = refl
nil_of_length (x ∷ xs) h = ground arith

-- Reading twice shows the same.
pub shown_again :
    (s : Server)
    → IsCoherent s
    → IsKeyed s.channels
    → ids_of (get_all_channels (get_all_channels s).0).1 ≡ ids_of (get_all_channels s).1
shown_again s v k =
    shown-eq-order (get_all_channels s).0 (get_all_channels-IsCoherent s v)
      (subst IsKeyed (sym (channels-get_all s)) k)
    ∙ ap order (channels-get_all s)
    ∙ sym (shown-eq-order s v k)
