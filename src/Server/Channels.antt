-- ===== src/Server/Channels.antt =====
-- FServer's channels and the cache of their display order (ProjectServer/Source/Private/Managers/
-- Server.cpp). The cache holds channel ids, which stand for the shared pointers; std::ranges::sort
-- is an insertion sort here.
pub mod Order
pub mod Cache
use squirrel_communicator.Prelude.{
  ℕ, String, Bool, true, false, Option, none, some, List, [], ◌∷◌, map, leb, if◌then◌else◌, nat_key,
}
use squirrel_communicator.UnorderedMap.{
  UnorderedMap, find, contains, erase, insert_or_assign, modify,
}
use squirrel_communicator.Server.{Server, ServerChannel}

-- Sorting by a rank, lower ranks first.
unfoldable pub insert_by {ℓ} : {A : Type ℓ} → (A → ℕ) → A → List A → List A
insert_by rank a [] = a ∷ []
insert_by rank a (x ∷ xs) = if leb (rank a) (rank x) then a ∷ x ∷ xs else x ∷ insert_by rank a xs

unfoldable pub sort_by {ℓ} : {A : Type ℓ} → (A → ℕ) → List A → List A
unfolding insert_by
sort_by rank [] = []
sort_by rank (x ∷ xs) = insert_by rank x (sort_by rank xs)

abbrev pub Entry : Type 0
Entry = ℕ × ServerChannel

abbrev pub entry_position : Entry → ℕ
entry_position e = e.1.position

-- The channels behind some pointers
unfoldable pub dereference : UnorderedMap ℕ ServerChannel → List ℕ → List ServerChannel
dereference m [] = []
dereference m (id ∷ ids) =
    let rest = dereference m ids in elim (find id m) [ none ↦ rest | some c ↦ c ∷ rest ]

-- InvalidateChannelCache, InvalidateChannelCacheLocked
unfoldable pub invalidate_channel_cache : Server → Server
invalidate_channel_cache s = record s { channel_cache_valid = false }

unfoldable pub assign_positions :
    UnorderedMap ℕ ℕ → UnorderedMap ℕ ServerChannel → UnorderedMap ℕ ServerChannel
assign_positions [] m = m
assign_positions ((id, position) ∷ rest) m =
    assign_positions rest (modify id (λ c. record c { position = position }) m)

-- SetChannelPositions
unfoldable pub set_channel_positions : UnorderedMap ℕ ℕ → Server → Server
unfolding assign_positions invalidate_channel_cache
set_channel_positions new_positions s =
    invalidate_channel_cache (record s { channels = assign_positions new_positions s.channels })

-- AddChannel
unfoldable pub add_channel : ServerChannel → Server → Server
unfolding invalidate_channel_cache
add_channel channel s =
    invalidate_channel_cache
      (record s { channels = insert_or_assign channel.channel_id channel s.channels })

-- RemoveChannel
unfoldable pub remove_channel : ℕ → Server → Server × Bool
unfolding invalidate_channel_cache
remove_channel channel_id s =
    let s' : Server = record s { channels = erase channel_id s.channels } in
    if contains channel_id s.channels then (invalidate_channel_cache s', true) else (s', false)

-- GetChannel
unfoldable pub get_channel : ℕ → Server → Option ServerChannel
get_channel channel_id s = find channel_id s.channels

-- GetAllChannels
unfoldable pub get_all_channels : Server → Server × List ServerChannel
unfolding sort_by dereference
get_all_channels s =
    let sorted = sort_by entry_position s.channels in
    if s.channel_cache_valid then (s, dereference s.channels s.cached_sorted_channels) else (
      record s { cached_sorted_channels = map (λ e. e.0) sorted; channel_cache_valid = true },
      map (λ e. e.1) sorted,
    )

-- A write through the pointer that GetChannel returned, which leaves the cache alone: the name in
-- RenameChannel, the connected users in Join- and LeaveVoiceChannel
unfoldable pub write_channel : ℕ → (ServerChannel → ServerChannel) → Server → Server
write_channel channel_id change s = record s { channels = modify channel_id change s.channels }
