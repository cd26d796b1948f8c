-- ===== src/SocketData/Tests.antt =====
-- Names of message types, read back.
use squirrel_communicator.Prelude.{◌≡◌}
use squirrel_communicator.Server.{gif}
use squirrel_communicator.SocketData.Section
use squirrel_communicator.SocketData.PrivateType
use squirrel_communicator.SocketData.ServersType
use squirrel_communicator.SocketData.Section.{
  string_to_socket_message_section, socket_message_section_to_string,
}
use squirrel_communicator.SocketData.PrivateType.{
  string_to_socket_message_private_type, socket_message_private_type_to_string,
}
use squirrel_communicator.SocketData.ServersType.{
  string_to_socket_message_servers_type, socket_message_servers_type_to_string,
}
use squirrel_communicator.SocketData.Content.{string_to_message_type, message_type_to_string}
use squirrel_communicator.SocketData.Names.{names_read_back}

names_read_back_example :
    (string_to_socket_message_section (socket_message_section_to_string Section.priv)
      ≡ Section.priv)
    × (string_to_socket_message_private_type
          (socket_message_private_type_to_string PrivateType.message)
        ≡ PrivateType.message)
    × (string_to_socket_message_servers_type
          (socket_message_servers_type_to_string ServersType.kick_member)
        ≡ ServersType.kick_member)
    × (string_to_message_type (message_type_to_string gif) ≡ gif)
names_read_back_example =
    names_read_back Section.priv PrivateType.message ServersType.kick_member gif
