-- ===== src/RateLimiter/Limits.antt =====
-- FRateLimiter (ProjectServer/Source/Public/AbuseProtection/RateLimiter.h and its .cpp): one counter
-- object for each kind of request, the limits read from the settings, and the clearing worker. The
-- invite bans of the same class are in InviteAbuse.antt; `Limits` keeps them beside the counters.
use squirrel_communicator.Prelude.{ℕ, ◌+◌, ◌*◌, String, Bool, if◌then◌else◌, leb}
use squirrel_communicator.RateLimiter.{RateLimitObject, add_attempt, is_blocked_key, reset}

-- The counters and limits of FRateLimiter; times are seconds.
pub record Limits : Type 0 where
  pub default_ip_address_to_limits : RateLimitObject
  pub verify_ip_address_to_limits : RateLimitObject
  pub password_reset_ip_address_to_limits : RateLimitObject
  pub server_operation_address_to_limits : RateLimitObject
  pub unauthenticated_ip_limits : RateLimitObject
  pub authenticated_user_limits : RateLimitObject
  pub invite_create_limits : RateLimitObject
  pub invite_use_limits : RateLimitObject
  pub register_account_limits : RateLimitObject
  pub clearing_time_in_mins : ℕ
  pub number_of_attempts_to_block : ℕ
  pub number_of_password_reset_attempts_to_block : ℕ
  pub number_of_server_operation_attempts_to_block : ℕ
  pub unauthenticated_requests_per_hour : ℕ
  pub authenticated_requests_per_hour : ℕ
  pub invite_create_limit_per_hour : ℕ
  pub invite_use_limit_per_hour : ℕ
  pub register_account_limit_per_hour : ℕ
  pub async_work_last_time : ℕ

unfoldable pub is_address_blocked : String → Limits → Bool
is_address_blocked a l =
    is_blocked_key a l.number_of_attempts_to_block l.default_ip_address_to_limits

unfoldable pub add_protected_action_attempt : String → Limits → Limits
add_protected_action_attempt a l = record l {
  default_ip_address_to_limits = add_attempt a l.default_ip_address_to_limits;
}

unfoldable pub is_password_reset_address_blocked : String → Limits → Bool
is_password_reset_address_blocked a l =
    is_blocked_key a l.number_of_password_reset_attempts_to_block
      l.password_reset_ip_address_to_limits

unfoldable pub add_password_reset_attempt : String → Limits → Limits
add_password_reset_attempt a l = record l {
  password_reset_ip_address_to_limits = add_attempt a l.password_reset_ip_address_to_limits;
}

unfoldable pub is_server_operation_address_blocked : String → Limits → Bool
is_server_operation_address_blocked a l =
    is_blocked_key a l.number_of_server_operation_attempts_to_block
      l.server_operation_address_to_limits

unfoldable pub add_server_operation_attempt : String → Limits → Limits
add_server_operation_attempt a l = record l {
  server_operation_address_to_limits = add_attempt a l.server_operation_address_to_limits;
}

unfoldable pub is_unauthenticated_ip_blocked : String → Limits → Bool
is_unauthenticated_ip_blocked a l =
    is_blocked_key a l.unauthenticated_requests_per_hour l.unauthenticated_ip_limits

unfoldable pub add_unauthenticated_ip_attempt : String → Limits → Limits
add_unauthenticated_ip_attempt a l = record l {
  unauthenticated_ip_limits = add_attempt a l.unauthenticated_ip_limits;
}

unfoldable pub is_authenticated_user_blocked : String → Limits → Bool
is_authenticated_user_blocked a l =
    is_blocked_key a l.authenticated_requests_per_hour l.authenticated_user_limits

unfoldable pub add_authenticated_user_attempt : String → Limits → Limits
add_authenticated_user_attempt a l = record l {
  authenticated_user_limits = add_attempt a l.authenticated_user_limits;
}

unfoldable pub is_invite_create_address_blocked : String → Limits → Bool
is_invite_create_address_blocked a l =
    is_blocked_key a l.invite_create_limit_per_hour l.invite_create_limits

unfoldable pub add_invite_create_attempt : String → Limits → Limits
add_invite_create_attempt a l = record l {
  invite_create_limits = add_attempt a l.invite_create_limits;
}

unfoldable pub is_invite_use_address_blocked : String → Limits → Bool
is_invite_use_address_blocked a l = is_blocked_key a l.invite_use_limit_per_hour l.invite_use_limits

unfoldable pub add_invite_use_attempt : String → Limits → Limits
add_invite_use_attempt a l = record l { invite_use_limits = add_attempt a l.invite_use_limits }

unfoldable pub is_register_account_address_blocked : String → Limits → Bool
is_register_account_address_blocked a l =
    is_blocked_key a l.register_account_limit_per_hour l.register_account_limits

unfoldable pub add_register_account_attempt : String → Limits → Limits
add_register_account_attempt a l = record l {
  register_account_limits = add_attempt a l.register_account_limits;
}

-- ResetRateLimits: every object but VerifyIPAddressToLimits, which nothing writes
unfoldable pub reset_rate_limits : Limits → Limits
reset_rate_limits l = record l {
  default_ip_address_to_limits = reset l.default_ip_address_to_limits;
  password_reset_ip_address_to_limits = reset l.password_reset_ip_address_to_limits;
  server_operation_address_to_limits = reset l.server_operation_address_to_limits;
  unauthenticated_ip_limits = reset l.unauthenticated_ip_limits;
  authenticated_user_limits = reset l.authenticated_user_limits;
  invite_create_limits = reset l.invite_create_limits;
  invite_use_limits = reset l.invite_use_limits;
  register_account_limits = reset l.register_account_limits;
}

-- One round of the worker thread's loop, at a time of the clock
unfoldable pub worker_round : ℕ → Limits → Limits
unfolding reset_rate_limits
worker_round current_time l =
    if leb (l.async_work_last_time + l.clearing_time_in_mins * 60) current_time
    then reset_rate_limits (record l { async_work_last_time = current_time })
    else l
