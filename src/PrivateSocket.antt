-- ===== src/PrivateSocket.antt =====
-- The handlers of FPrivateSocketData for friends and friend requests
-- (ProjectServer/Source/Private/Sockets/PrivateSocketData.cpp), and FSocket::EarlyExit
-- (ProjectServer/Source/Private/Sockets/Socket.cpp). A handler gets the user id of the socket's
-- session, if there is a session; what it sends is the list of messages to the socket and of events
-- to other users. JSON objects are records. FUserManager::GetUserById is the parameter `user_name`.
pub mod Notified
pub mod Media
pub mod Messages
mod Tests
use squirrel_communicator.Prelude.{
  ℕ, String, Bool, true, false, Option, none, some, List, [], ◌∷◌, ◌==◌, if◌then◌else◌, is_yes, ◌≟◌,
  string_key,
}
use squirrel_communicator.SocketData.Section.{priv, socket_message_section_to_string}
use squirrel_communicator.SocketData.PrivateType.{
  SocketMessagePrivateType, socket_message_private_type_to_string,
}
use squirrel_communicator.SocketData.PrivateType as Message
use squirrel_communicator.FriendList.{FriendDatabase, FriendListManager}
use squirrel_communicator.FriendList.Requests.{
  FriendRequestStatus, AcceptFriendRequestStatus, RemoveFriendStatus, RejectFriendRequestStatus,
  CancelFriendRequestStatus, request_added, request_already_exists, friend_already_exists,
  sent_requests_limit_reached, incoming_requests_limit_reached, request_accepted, no_request,
  friends_limit_reached, friend_removed, friend_not_exists, request_rejected, not_rejected,
  request_canceled, not_canceled, send_friend_request, accept_friend_request, reject_friend_request,
  cancel_friend_request, remove_friend,
}

-- The JSON of EarlyExit and FormatDataToJson
pub record Reply : Type 0 where
  pub type : String
  pub message : String

-- The JSON that SendFriendEventToUser sends to a user
pub record FriendEvent : Type 0 where
  pub target_user_id : ℕ
  pub type : String
  pub section : String
  pub user_id : ℕ
  pub user_name : Option String

pub record Sent : Type 0 where
  pub replies : List Reply
  pub events : List FriendEvent

-- FSocket::EarlyExit
unfoldable pub early_exit : String → Sent
unfolding socket_message_private_type_to_string
early_exit message = record {
  replies =
      record { type = socket_message_private_type_to_string Message.error; message = message } ∷ [];
  events = [];
}

-- FormatDataToJson
unfoldable pub format_data_to_json : SocketMessagePrivateType → String → Reply
unfolding socket_message_private_type_to_string
format_data_to_json type message = record {
  type = socket_message_private_type_to_string type;
  message = message;
}

-- A reply alone
unfoldable pub answer : SocketMessagePrivateType → String → Sent
unfolding format_data_to_json
answer type message = record { replies = format_data_to_json type message ∷ []; events = [] }

abbrev pub nothing_sent : Sent
nothing_sent = record { replies = []; events = [] }

module _ (user_name : ℕ → Option String) where
  -- The display name, unless it is empty
  unfoldable pub display_name : ℕ → Option String
  display_name user_id = elim (user_name user_id) [
    | none ↦ none
    | some name ↦ if is_yes (name ≟ "") then none else some name
  ]

  -- SendFriendEventToUser: nothing for a user who is not found
  unfoldable pub send_friend_event_to_user : ℕ → SocketMessagePrivateType → ℕ → List FriendEvent
  unfolding display_name socket_message_private_type_to_string socket_message_section_to_string
  send_friend_event_to_user target type actor = elim (user_name target) [
    | none ↦ []
    | some name ↦
        record {
          target_user_id = target;
          type = socket_message_private_type_to_string type;
          section = socket_message_section_to_string priv;
          user_id = actor;
          user_name = display_name actor;
        }
        ∷ []
  ]

  -- A reply, and an event for the other user
  unfoldable pub notify :
      SocketMessagePrivateType → String → SocketMessagePrivateType → ℕ → ℕ → Sent
  unfolding format_data_to_json send_friend_event_to_user
  notify type message event other current = record {
    replies = format_data_to_json type message ∷ [];
    events = send_friend_event_to_user other event current;
  }

  -- What follows from the status of each operation
  unfoldable pub after_send : ℕ → ℕ → FriendRequestStatus → Sent
  unfolding notify answer
  after_send current other request_added =
      notify Message.create_friend_request "friend request added" Message.friend_request_received
        other current
  after_send current other request_already_exists =
      answer Message.create_friend_request "friend request already exists"
  after_send current other friend_already_exists =
      answer Message.create_friend_request "already friends"
  after_send current other sent_requests_limit_reached =
      answer Message.create_friend_request "sent requests limit reached"
  after_send current other incoming_requests_limit_reached =
      answer Message.create_friend_request "target incoming requests limit reached"

  unfoldable pub after_accept : ℕ → ℕ → AcceptFriendRequestStatus → Sent
  unfolding notify answer
  after_accept current other request_accepted =
      notify Message.accept_friend_request "friend request accepted" Message.friend_request_accepted
        other current
  after_accept current other no_request = answer Message.accept_friend_request "no friend request"
  after_accept current other friends_limit_reached =
      answer Message.accept_friend_request "friends limit reached"

  unfoldable pub after_reject : ℕ → ℕ → RejectFriendRequestStatus → Sent
  unfolding notify answer
  after_reject current other request_rejected =
      notify Message.reject_friend_request "friend request rejected" Message.friend_request_rejected
        other current
  after_reject current other not_rejected =
      answer Message.reject_friend_request "friend request not found"

  unfoldable pub after_cancel : ℕ → ℕ → CancelFriendRequestStatus → Sent
  unfolding notify answer
  after_cancel current other request_canceled =
      notify Message.cancel_friend_request "friend request canceled" Message.friend_request_canceled
        other current
  after_cancel current other not_canceled =
      answer Message.cancel_friend_request "friend request not found"

  unfoldable pub after_remove : ℕ → ℕ → RemoveFriendStatus → Sent
  unfolding notify answer
  after_remove current other friend_removed =
      notify Message.remove_friend "friend removed" Message.friend_removed other current
  after_remove current other friend_not_exists = answer Message.remove_friend "friend not found"

module _ {D : Type 0} where
  -- The checks that the handlers share: a session, an id that is not 0, and another user
  unfoldable pub with_other :
      Option ℕ
      → ℕ
      → Sent
      → Sent
      → (ℕ → FriendListManager D × Sent)
      → FriendListManager D
      → FriendListManager D × Sent
  with_other session other missing self handler m = elim session [
    | none ↦ (m, missing)
    | some current ↦
        if other == 0 then (m, missing) else if current == other then (m, self) else handler current
  ]

module _ {D : Type 0} (db : FriendDatabase D) (user_name : ℕ → Option String) where
  -- OnMessageReceived_CreateFriendRequest
  unfoldable pub on_create_friend_request :
      Option ℕ → ℕ → FriendListManager D → FriendListManager D × Sent
  unfolding with_other send_friend_request after_send early_exit
  on_create_friend_request session other m =
      with_other session other (early_exit "missing type") (early_exit "cannot friend yourself")
        (λ current.
          let (m', status) = send_friend_request db current other m in
          (m', after_send user_name current other status))
        m

  -- OnMessageReceived_AcceptFriendRequest
  unfoldable pub on_accept_friend_request :
      Option ℕ → ℕ → FriendListManager D → FriendListManager D × Sent
  unfolding with_other accept_friend_request after_accept early_exit
  on_accept_friend_request session other m =
      with_other session other nothing_sent (early_exit "cannot accept yourself")
        (λ current.
          let (m', status) = accept_friend_request db current other m in
          (m', after_accept user_name current other status))
        m

  -- OnMessageReceived_RejectFriendRequest
  unfoldable pub on_reject_friend_request :
      Option ℕ → ℕ → FriendListManager D → FriendListManager D × Sent
  unfolding with_other reject_friend_request after_reject early_exit
  on_reject_friend_request session other m =
      with_other session other nothing_sent (early_exit "cannot remove yourself")
        (λ current.
          let (m', status) = reject_friend_request db current other m in
          (m', after_reject user_name current other status))
        m

  -- OnMessageReceived_CancelFriendRequest
  unfoldable pub on_cancel_friend_request :
      Option ℕ → ℕ → FriendListManager D → FriendListManager D × Sent
  unfolding with_other cancel_friend_request after_cancel early_exit
  on_cancel_friend_request session other m =
      with_other session other nothing_sent (early_exit "cannot remove yourself")
        (λ current.
          let (m', status) = cancel_friend_request db current other m in
          (m', after_cancel user_name current other status))
        m

  -- OnMessageReceived_RemoveFriend
  unfoldable pub on_remove_friend : Option ℕ → ℕ → FriendListManager D → FriendListManager D × Sent
  unfolding with_other remove_friend after_remove early_exit
  on_remove_friend session other m =
      with_other session other nothing_sent (early_exit "cannot remove yourself")
        (λ current.
          let (m', status) = remove_friend db current other m in
          (m', after_remove user_name current other status))
        m
