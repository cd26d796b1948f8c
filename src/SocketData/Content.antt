-- ===== src/SocketData/Content.antt =====
-- The names of EMessageType (ProjectServer/Source/Private/Sockets/SocketData.cpp).
use squirrel_communicator.Prelude.{String, List, [], ◌∷◌}
use squirrel_communicator.Server.{MessageType, text, image, gif, video}
use squirrel_communicator.SocketData.{switch_hash}

-- the labels of the switch, in order
unfoldable pub labels : List (String × MessageType)
labels = ("image", image) ∷ ("gif", gif) ∷ ("video", video) ∷ ("text", text) ∷ []

-- StringToMessageType
unfoldable pub string_to_message_type : String → MessageType
unfolding switch_hash labels
string_to_message_type name = switch_hash name labels text

-- MessageTypeToString
unfoldable pub message_type_to_string : MessageType → String
message_type_to_string image = "image"
message_type_to_string gif = "gif"
message_type_to_string video = "video"
message_type_to_string text = "text"
