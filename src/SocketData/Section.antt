-- ===== src/SocketData/Section.antt =====
-- ESocketMessageSection (ProjectServer/Source/Public/Sockets/SocketData.h) and its conversions
-- (ProjectServer/Source/Private/Sockets/SocketData.cpp).
use squirrel_communicator.Prelude.{String, List, [], ◌∷◌}
use squirrel_communicator.SocketData.{switch_hash}

-- ESocketMessageSection
pub data SocketMessageSection : Type 0 where
  unknown : SocketMessageSection
  priv : SocketMessageSection
  servers : SocketMessageSection
  error : SocketMessageSection

-- the labels of the switch, in order
unfoldable pub labels : List (String × SocketMessageSection)
labels = ("priv", priv) ∷ ("servers", servers) ∷ ("error", error) ∷ []

-- StringToSocketMessageSection
unfoldable pub string_to_socket_message_section : String → SocketMessageSection
unfolding switch_hash labels
string_to_socket_message_section text = switch_hash text labels unknown

-- SocketMessageSectionToString
unfoldable pub socket_message_section_to_string : SocketMessageSection → String
socket_message_section_to_string unknown = "unknown"
socket_message_section_to_string priv = "priv"
socket_message_section_to_string servers = "servers"
socket_message_section_to_string error = "error"
