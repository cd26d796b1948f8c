-- ===== src/ServersManager/Retention.antt =====
-- FServersManager's second tick (ProjectServer/Source/Private/Managers/ServersManager.cpp): the
-- cleanup of the invite abuse records and the retention of messages. Counters are int32.
use squirrel_communicator.Prelude.{ℕ, false, not, ◌&&◌, if◌then◌else◌, ltb_i32, add_i32, nat_key}
use squirrel_communicator.UnorderedMap.{map_values}
use squirrel_communicator.Server.Messages.{trim_channel_messages_to_count}
use squirrel_communicator.InviteAbuse.{InviteAbuse, RemoveIf, periodic_invite_abuse_cleanup}
use squirrel_communicator.ServersManager.{ServersManager}

module _ {D : Type 0} where
  -- CleanupOldMessages, for an int32 count: nothing while another run is in progress
  unfoldable pub cleanup_old_messages : ℕ → ServersManager D → ServersManager D
  unfolding trim_channel_messages_to_count
  cleanup_old_messages retain_count m =
      if m.cleanup_in_progress
      then m
      else if not (ltb_i32 0 retain_count)
      then record m { cleanup_in_progress = false }
      else record m {
        servers_map = map_values (trim_channel_messages_to_count retain_count) m.servers_map;
        cleanup_in_progress = false;
      }

  -- PostSecondTick, the message retention, for the two int32 settings
  unfoldable pub retention_tick : ℕ → ℕ → ServersManager D → ServersManager D
  unfolding cleanup_old_messages
  retention_tick interval retain_count m =
      let counter = add_i32 m.message_retention_counter 1 in
      if ltb_i32 0 interval && ltb_i32 0 retain_count
      then if not (ltb_i32 counter interval)
        then cleanup_old_messages retain_count (record m { message_retention_counter = 0 })
        else record m { message_retention_counter = counter }
      else m

  -- PostSecondTick
  unfoldable pub post_second_tick :
      RemoveIf → ℕ → ℕ → ℕ → ServersManager D → InviteAbuse → ServersManager D × InviteAbuse
  unfolding periodic_invite_abuse_cleanup retention_tick
  post_second_tick simd now interval retain_count m abuse =
      let counter = add_i32 m.post_second_tick_counter 1 in
      if not (ltb_i32 counter 300)
      then (
        retention_tick interval retain_count (record m { post_second_tick_counter = 0 }),
        periodic_invite_abuse_cleanup simd now abuse,
      )
      else (
        retention_tick interval retain_count (record m { post_second_tick_counter = counter }),
        abuse,
      )
