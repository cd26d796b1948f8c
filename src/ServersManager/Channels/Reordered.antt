-- ===== src/ServersManager/Channels/Reordered.antt =====
-- What FServersManager's MoveChannel and ReorderChannels do to the order in which a server shows
-- its channels.
use squirrel_communicator.Prelude.{
  ℕ, ◌-◌, ◌<◌, ◌≡◌, refl, sym, ap, subst, ◌∙◌, length-Perm, length-map, true, false, some, List, [],
  arith, leb, ◌==◌, if◌then◌else◌, length, nat_key, Perm, Bool-cases, inl, inr, ◌⊎◌,
}
use squirrel_communicator.UnorderedMap.{find}
use squirrel_communicator.Server.{Server, ServerChannel}
use squirrel_communicator.Server.Channels.{get_all_channels}
use squirrel_communicator.Server.Channels.Cache.{IsCoherent, get_all_channels-IsCoherent}
use squirrel_communicator.Server.Permissions.{can_manage_channels}
use squirrel_communicator.ServersManager.{Database, ServersManager, server_permits, write_server}
use squirrel_communicator.ServersManager.Channels.{
  as_manager, store_order, move_in, move_channel, reorder_in, reorder_channels, is_valid_order,
  moved, index_of, ids_of,
}
use squirrel_communicator.ServersManager.Channels.Moves.{
  get_elem?, others, moved_or_left, clamp-lt, moved-Perm, length-erase_at,
}
use squirrel_communicator.ServersManager.Channels.Numbered.{all_distinct-Perm}
use squirrel_communicator.ServersManager.Channels.Shown.{IsKeyed, keys, keys-distinct}
use squirrel_communicator.ServersManager.Permitted.{as_manager-cached}
use mathlib.Core.List.Perm
use squirrel_communicator.ServersManager.Channels.Stored.{
  shown, channels-get_all, find-write_server, shown_after_store, shown-Perm, valid_of_Perm,
  shown_again, nil_of_length,
}

-- A server in the cache, coherent, with its channels under their ids, a user who may manage them,
-- and a database that can be reached.
module _ {D : Type 0} (db : Database D) (server_id user_id : ℕ) (s : Server) (m : ServersManager D)
    (cached : find server_id m.servers_map ≡ some s)
    (permitted : server_permits user_id can_manage_channels s ≡ true) (v : IsCoherent s)
    (k : IsKeyed s.channels) (reachable : (db.connect m.database).1 ≡ true) where
  -- The server and the manager after GetAllChannels
  abbrev read : Server
  read = (get_all_channels s).0

  abbrev after_read : ServersManager D
  after_read = write_server server_id read m

  allowed :
      {R : Type 0} (refusal : R) (handler : Server → ServersManager D → ServersManager D × R)
      → as_manager db server_id user_id refusal handler m ≡ handler s m
  allowed refusal handler =
      ground (arith, as_manager-cached db server_id user_id refusal handler s m, permitted)

  before_lem : shown server_id m ≡ ids_of (get_all_channels s).1
  before_lem = rw (cached, shown)

  read_lem : find server_id after_read.servers_map ≡ some read
  read_lem = find-write_server server_id s read m cached

  unchanged : shown server_id after_read ≡ ids_of (get_all_channels s).1
  unchanged = rw (read_lem, shown) (shown_again s v k)

  stored :
      (ids : List ℕ)
      → Perm ids (keys s.channels)
      → shown server_id (store_order db server_id ids read after_read).0 ≡ ids
  stored ids p =
      shown_after_store db server_id ids read read after_read read_lem
        (unfold write_server in reachable) (get_all_channels-IsCoherent s v)
        (subst IsKeyed (sym (channels-get_all s)) k)
        (subst (λ c. Perm ids (keys c)) (sym (channels-get_all s)) p)

  -- For a server in the cache, coherent, with its channels kept under their ids, a user who may
  -- manage them, and a database that can be reached: after ReorderChannels with a request that
  -- names each channel of the server once, the server shows its channels in the requested order,
  -- whether or not the database takes all the updates.
  pub shown_after_reorder :
      (ids : List ℕ)
      → Perm ids (keys s.channels)
      → shown server_id (reorder_channels db server_id ids user_id m).0 ≡ ids
  unfolding reorder_channels
  shown_after_reorder ids p =
      ap (λ r. shown server_id r.0) (allowed false (reorder_in db server_id ids))
      ∙ split (Bool-cases (length (get_all_channels s).1 == 0))
    where
      same_ids : Perm ids (ids_of (get_all_channels s).1)
      same_ids = Perm.trans p (Perm.symm (shown-Perm s v k))

      same_length : (length ids == length (get_all_channels s).1) ≡ true
      same_length = ground (
        arith,
        length-Perm same_ids,
        length-map (λ (c : ServerChannel). c.channel_id) (get_all_channels s).1,
      )

      valid : is_valid_order (ids_of (get_all_channels s).1) [] ids ≡ true
      valid =
          valid_of_Perm (ids_of (get_all_channels s).1) ids same_ids
            (all_distinct-Perm p ∙ keys-distinct s.channels v.unique)

      split :
          (length (get_all_channels s).1 == 0 ≡ true) ⊎ (length (get_all_channels s).1 == 0 ≡ false)
          → shown server_id (reorder_in db server_id ids s m).0 ≡ ids
      split (inl none_there) =
          unfold reorder_in in
          rw (none_there, reorder_in)
            (unchanged
              ∙ nil_of_length (ids_of (get_all_channels s).1) (
                  ground (
                    arith,
                    none_there,
                    length-map (λ (c : ServerChannel). c.channel_id) (get_all_channels s).1,
                  ))
              ∙ sym (nil_of_length ids (ground (arith, same_length, none_there))))
      split (inr some_there) =
          unfold reorder_in in rw (some_there, same_length, valid, reorder_in) (stored ids p)

  -- The index that MoveChannel clamps to
  target : ℕ → ℕ
  target new_position =
      let size = length (get_all_channels s).1 in
      if leb size new_position then size - 1 else new_position

  shown_after_move_in :
      (channel_id old new_position : ℕ)
      → index_of channel_id (ids_of (get_all_channels s).1) ≡ some old
      → shown server_id (move_in db server_id channel_id new_position s m).0 ≡ (
          if old == target new_position
          then ids_of (get_all_channels s).1
          else moved channel_id old (target new_position) (ids_of (get_all_channels s).1))
  shown_after_move_in channel_id old new_position h =
      split (Bool-cases (old == target new_position))
    where
      ids : List ℕ
      ids = ids_of (get_all_channels s).1

      some_there : (length (get_all_channels s).1 == 0) ≡ false
      some_there = ground (
        arith,
        length-erase_at channel_id old ids h,
        length-map (λ (c : ServerChannel). c.channel_id) (get_all_channels s).1,
      )

      cases : move_in db server_id channel_id new_position s m ≡ (
          if old == target new_position
          then (after_read, true)
          else store_order db server_id
              (moved channel_id old (target new_position) ids)
              read
              after_read)
      cases = unfold move_in target in rw (some_there, h, move_in)

      split :
          (old == target new_position ≡ true) ⊎ (old == target new_position ≡ false)
          → shown server_id (move_in db server_id channel_id new_position s m).0 ≡ (
              if old == target new_position
              then ids
              else moved channel_id old (target new_position) ids)
      split (inl e) = rw (cases) (rw (e, shown) unchanged)
      split (inr e) = rw (cases) (
          rw (e, shown)
            (stored (moved channel_id old (target new_position) ids) (
              Perm.trans (moved-Perm channel_id old (target new_position) ids h)
                (shown-Perm s v k))))

  -- For a server in the cache, coherent, with its channels kept under their ids, a user who may
  -- manage them, and a database that can be reached: after MoveChannel of a channel that the server
  -- shows at some index, it shows the channel at the requested index, or last where that is out of
  -- range, and the others in the order in which they were, whether or not the database takes all
  -- the updates.
  pub shown_after_move :
      (channel_id old new_position : ℕ)
      → index_of channel_id (shown server_id m) ≡ some old
      → let size = length (shown server_id m) in
        let to = if leb size new_position then size - 1 else new_position in
        let after =
          shown server_id (move_channel db server_id channel_id new_position user_id m).0 in
        (get_elem? after to ≡ some channel_id)
        × (others channel_id after ≡ others channel_id (shown server_id m))
  unfolding move_channel
  shown_after_move channel_id old new_position h =
      rw (before_lem, shown)
        (rw
          (
            ap (λ r. shown server_id r.0)
                  (allowed false (move_in db server_id channel_id new_position))
                ∙ shown_after_move_in channel_id old new_position here,
            clamped,
          )
          (moved_or_left channel_id old (target new_position) ids here
            (subst (λ n. n < length ids) clamped (clamp-lt channel_id old new_position ids here))))
    where
      ids : List ℕ
      ids = ids_of (get_all_channels s).1

      here : index_of channel_id ids ≡ some old
      here = sym (ap (index_of channel_id) before_lem) ∙ h

      clamped :
          (if leb (length ids) new_position then length ids - 1 else new_position)
          ≡ target new_position
      clamped =
          ap (λ n. if leb n new_position then n - 1 else new_position)
            (length-map (λ (c : ServerChannel). c.channel_id) (get_all_channels s).1)
          ∙ unfold target in refl
