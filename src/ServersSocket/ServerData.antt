-- ===== src/ServersSocket/ServerData.antt =====
-- FServersSocketData::BuildServerDataJson (ProjectServer/Source/Private/Sockets/
-- ServersSocketData.cpp): what is sent of a whole server.
use squirrel_communicator.Prelude.{
  ℕ, String, Option, none, some, List, [], ◌∷◌, map, if◌then◌else◌, nat_key, string_key,
}
use squirrel_communicator.Server.{ServerChannel, ServerMember}
use squirrel_communicator.Server.Channels.{get_all_channels}
use squirrel_communicator.Server.Members.{get_members}
use squirrel_communicator.ServersManager.{Database, ServersManager, get_server_by_id, write_server}
use squirrel_communicator.ServersManager.Voice.{is_voice, get_voice_channel_connected_users}
use squirrel_communicator.ServersSocket.{
  Users, JsonValue, text_value, number_value, ChannelJson, ServerJson,
}
use squirrel_communicator.ServersSocket.Presence.{participant}

-- BuildServerDataJson, one member
unfoldable pub format_member : (ℕ → String) → ServerMember → List (String × JsonValue)
format_member to_string member =
    ("user_id", text_value (to_string member.user_id))
    ∷ ("user_name", text_value member.user_name)
    ∷ ("status", text_value member.status)
    ∷ ("permissions", number_value member.permissions)
    ∷ []

-- BuildServerDataJson, one channel but for its users
unfoldable pub format_channel : (ℕ → String) → String → ServerChannel → List (String × JsonValue)
format_channel to_string type c =
    ("channel_id", text_value (to_string c.channel_id))
    ∷ ("channel_name", text_value c.channel_name)
    ∷ ("channel_type", text_value type)
    ∷ ("position", number_value c.position)
    ∷ []

module _ {D : Type 0} (db : Database D) (users : Users) (to_string : ℕ → String) where
  -- BuildServerDataJson, the loop over the channels
  unfoldable pub format_channels :
      ℕ → List ServerChannel → ServersManager D → ServersManager D × List ChannelJson
  unfolding is_voice get_voice_channel_connected_users participant format_channel
  format_channels server_id [] m = (m, [])
  format_channels server_id (c ∷ cs) m =
      let (m', connected) = get_voice_channel_connected_users db server_id c.channel_id m in
      let (m₁, after_voice) = format_channels server_id cs m' in
      let (m₂, after_text) = format_channels server_id cs m in
      if is_voice c.channel_type
      then (
        m₁,
        record {
          channel_members = format_channel to_string "voice" c;
          connected_users = some (map (participant to_string users) connected);
        }
            ∷ after_voice,
      )
      else (
        m₂,
        record { channel_members = format_channel to_string "text" c; connected_users = none }
            ∷ after_text,
      )

  -- BuildServerDataJson; `none` is the JSON null of a server that is not found
  unfoldable pub build_server_data_json :
      ℕ → ServersManager D → ServersManager D × Option ServerJson
  unfolding get_server_by_id get_all_channels write_server format_channels get_members format_member
  build_server_data_json server_id m =
      let (m₁, server) = get_server_by_id db server_id m in
      elim server [
        | none ↦ (m₁, none)
        | some s ↦
            let (s', all) = get_all_channels s in
            let (m₂, channels) = format_channels server_id all (write_server server_id s' m₁) in
            (
              m₂,
              some (record {
                server_members =
                    ("server_id", text_value (to_string s.server_id))
                    ∷ ("server_name", text_value s.server_name)
                    ∷ ("owner_id", text_value (to_string s.owner_id))
                    ∷ ("token", text_value s.token)
                    ∷ ("created_at", number_value s.created_at)
                    ∷ [];
                channels = channels;
                members = map (format_member to_string) (get_members s);
              }),
            )
      ]
