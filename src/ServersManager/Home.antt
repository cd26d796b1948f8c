-- ===== src/ServersManager/Home.antt =====
-- A concrete server over a database that only logs the renumberings of channels.
use squirrel_communicator.Prelude.{ℕ, true, false, some, none, List, [], ◌∷◌}
use squirrel_communicator.Server.{Server, ServerChannel, ServerChannelType, text, voice}
use squirrel_communicator.ServersManager.{Database, ServersManager}

abbrev pub Log : Type 0
Log = List (ℕ × ℕ)

abbrev pub log : Database Log
log = record {
  connect = λ d. (d, true);
  select_server = λ id d. none;
  select_max_position = λ id d. none;
  insert_channel = λ c d. (d, some 12);
  delete_channel = λ s c d. (d, true);
  update_position = λ s c position d. ((c, position) ∷ d, true);
  update_name = λ s c name d. (d, true);
  update_permissions = λ s u p d. (d, true);
  insert_member = λ s u p d. (d, true);
  delete_member = λ s u d. (d, true);
  delete_server = λ s d. (d, true);
}

abbrev pub channel : ℕ → ServerChannelType → ℕ → ServerChannel
channel id type position = record {
  channel_id = id;
  server_id = 1;
  channel_name = "general";
  channel_type = type;
  position = position;
  connected_users = [];
}

-- User 7 owns the server; nobody else is a member.
abbrev pub server : Server
server = record {
  server_id = 1;
  server_name = "home";
  owner_id = 7;
  token = "";
  created_at = 0;
  channels = (10, channel 10 text 0) ∷ (11, channel 11 voice 1) ∷ [];
  members = [];
  channel_messages = [];
  cached_sorted_channels = [];
  channel_cache_valid = false;
}

abbrev pub servers : ServersManager Log
servers = record {
  servers_map = (1, server) ∷ [];
  user_to_server_ids_cache = [];
  invite_code_to_server_id = [];
  post_second_tick_counter = 0;
  message_retention_counter = 0;
  cleanup_in_progress = false;
  database = [];
}
