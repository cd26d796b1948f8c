-- ===== src/Server/Tests.antt =====
-- Runs of FServer.
use squirrel_communicator.Prelude.{
  IsSortedBy, ℕ, ◌≡◌, refl, false, List, [], ◌∷◌, map, is_some, ◌≟◌, take, keep, nat_key,
}
use squirrel_communicator.Server.{
  Server, ServerChannel, ServerMember, ServerMessage, ServerChannelType, MessageType, init,
}
use squirrel_communicator.Server.Channels.{get_all_channels}
use squirrel_communicator.Server.Channels.Cache as Cache
use squirrel_communicator.Server.Channels.Cache.{shows_present_order}
use squirrel_communicator.Server.Members.{has_member, get_member_permissions}
use squirrel_communicator.Server.Members.Registry as Registry
use squirrel_communicator.Server.Members.Registry.{members_refine_registry}
use squirrel_communicator.Server.Messages.{messages_of, get_channel_messages}
use squirrel_communicator.Server.Messages.Pages.{is_before, get_channel_messages-eq-take}
use mathlib.Core.List.{Perm, reverse}
use mathlib.Core.Option

abbrev channel : ℕ → ℕ → ServerChannel
channel id position = record {
  channel_id = id;
  server_id = 1;
  channel_name = "general";
  channel_type = ServerChannelType.text;
  position = position;
  connected_users = [];
}

-- The cache is filled, a channel is moved, and the order read again.
abbrev channel_calls : List Cache.Call
channel_calls =
    Cache.Call.adds (channel 10 0)
    ∷ Cache.Call.adds (channel 11 1)
    ∷ Cache.Call.reads
    ∷ Cache.Call.positions ((11, 0) ∷ (10, 1) ∷ [])
    ∷ Cache.Call.reads
    ∷ Cache.Call.writes 10 (λ c. record c { channel_name = "renamed" }) (λ c. refl)
    ∷ []

shows_present_order_example :
    Perm
      (get_all_channels (Cache.run channel_calls init)).1
      (map (λ e. e.1) (Cache.run channel_calls init).channels)
    × IsSortedBy (λ c. c.position) (get_all_channels (Cache.run channel_calls init)).1
shows_present_order_example = shows_present_order channel_calls

abbrev member : ServerMember
member = record { user_id = 7; user_name = ""; status = "offline"; permissions = 1 }

abbrev member_calls : List Registry.Call
member_calls =
    Registry.Call.adds member
    ∷ Registry.Call.sets_user_name 7 "ann"
    ∷ Registry.Call.sets_permissions 7 8
    ∷ Registry.Call.removes 9
    ∷ []

members_refine_registry_example :
    (Registry.registry (Registry.run member_calls init) 7
      ≡ Registry.promised_all member_calls (Registry.registry init) 7)
    × (has_member 7 (Registry.run member_calls init)
        ≡ is_some (Registry.promised_all member_calls (Registry.registry init) 7))
    × (get_member_permissions 7 (Registry.run member_calls init)
        ≡ Option.get_or
            (Option.map
              (λ m. m.permissions)
              (Registry.promised_all member_calls (Registry.registry init) 7))
            0)
members_refine_registry_example = members_refine_registry member_calls init 7

abbrev message : ℕ → ℕ → ServerMessage
message id created_at = record {
  message_id = id;
  channel_id = 10;
  sender_id = 7;
  sender_name = "ann";
  content = "hello";
  created_at = created_at;
  message_type = MessageType.text;
}

abbrev empty_server : Server
empty_server = record {
  server_id = 1;
  server_name = "home";
  owner_id = 7;
  token = "";
  created_at = 0;
  channels = (10, channel 10 0) ∷ [];
  members = [];
  channel_messages = [];
  cached_sorted_channels = [];
  channel_cache_valid = false;
}

abbrev chat : Server
chat = record empty_server {
  channel_messages = (10, message 100 5 ∷ message 101 6 ∷ message 102 7 ∷ []) ∷ [];
}

get_channel_messages-eq-take_example :
    get_channel_messages 10 7 1 chat ≡ take 1 (keep (is_before 7) (reverse (messages_of 10 chat)))
get_channel_messages-eq-take_example = get_channel_messages-eq-take 10 7 1 chat

abbrev same : Discrete ℕ
same = ◌≟◌ {K = ℕ}
