-- ===== src/AbuseProtection.antt =====
-- FAbuseProtection (ProjectServer/Source/Private/AbuseProtection/AbuseProtection.cpp), as the
-- handlers of servers and the registration ask it, over FRateLimiter.
use squirrel_communicator.Prelude.{String, Bool, not}
use squirrel_communicator.RateLimiter.Limits.{
  Limits, is_server_operation_address_blocked, add_server_operation_attempt,
  is_invite_create_address_blocked, add_invite_create_attempt, is_invite_use_address_blocked,
  add_invite_use_attempt,
}

unfoldable pub can_address_request_create_server : String → Limits → Bool
unfolding is_server_operation_address_blocked
can_address_request_create_server address l = not (is_server_operation_address_blocked address l)

unfoldable pub add_create_server_attempt : String → Limits → Limits
unfolding add_server_operation_attempt
add_create_server_attempt address l = add_server_operation_attempt address l

unfoldable pub can_address_create_invite : String → Limits → Bool
unfolding is_invite_create_address_blocked
can_address_create_invite address l = not (is_invite_create_address_blocked address l)

unfoldable pub add_create_invite_attempt : String → Limits → Limits
unfolding add_invite_create_attempt
add_create_invite_attempt address l = add_invite_create_attempt address l

unfoldable pub can_address_use_invite : String → Limits → Bool
unfolding is_invite_use_address_blocked
can_address_use_invite address l = not (is_invite_use_address_blocked address l)

unfoldable pub add_use_invite_attempt : String → Limits → Limits
unfolding add_invite_use_attempt
add_use_invite_attempt address l = add_invite_use_attempt address l
