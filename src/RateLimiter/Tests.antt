-- ===== src/RateLimiter/Tests.antt =====
-- Runs of FRateLimiter's counters.
use squirrel_communicator.Prelude.{
  String, ◌≡◌, List, [], ◌∷◌, arith, ltb, ◌&&◌, ◌^◌, string_key, String-discrete,
}
use squirrel_communicator.UnorderedMap.{find}
use squirrel_communicator.RateLimiter.{RateLimitObject, empty}
use squirrel_communicator.RateLimiter.Counts.{add_attempts, occurrences}
use squirrel_communicator.RateLimiter.Interleaving.{
  Section, begin, finish, run_sections, idle, interleaved-eq-sequential,
}
use squirrel_communicator.RateLimiter.Limits.{Limits, reset_rate_limits}
use squirrel_communicator.RateLimiter.Quotas.{
  Quota, Quota-discrete, invite_use, server_operation, run_attempts, keys_of, limit, is_blocked,
  is_blocked-run_attempts,
}

-- Two calls for one new key, both past their first section before either inserts
abbrev racing : List Section
racing = begin "ip" ∷ begin "ip" ∷ finish 0 ∷ finish 0 ∷ begin "ip" ∷ []

interleaved-eq-sequential_example :
    find "ip" (run_sections racing idle).object.rate_limit_map
    ≡ find "ip" (add_attempts (run_sections racing idle).returned empty).rate_limit_map
interleaved-eq-sequential_example = interleaved-eq-sequential racing "ip"

abbrev keys : List String
keys = "a" ∷ "b" ∷ "a" ∷ "a" ∷ []

abbrev fresh : RateLimitObject
fresh = record { rate_limit_map = [] }

abbrev limits : Limits
limits = record {
  default_ip_address_to_limits = fresh;
  verify_ip_address_to_limits = fresh;
  password_reset_ip_address_to_limits = fresh;
  server_operation_address_to_limits = fresh;
  unauthenticated_ip_limits = fresh;
  authenticated_user_limits = fresh;
  invite_create_limits = fresh;
  invite_use_limits = fresh;
  register_account_limits = fresh;
  clearing_time_in_mins = 60;
  number_of_attempts_to_block = 10;
  number_of_password_reset_attempts_to_block = 5;
  number_of_server_operation_attempts_to_block = 30;
  unauthenticated_requests_per_hour = 100;
  authenticated_requests_per_hour = 1000;
  invite_create_limit_per_hour = 1;
  invite_use_limit_per_hour = 1;
  register_account_limit_per_hour = 3;
  async_work_last_time = 0;
}

abbrev requests : List (Quota × String)
requests = (invite_use, "ip") ∷ (server_operation, "ip") ∷ (invite_use, "ip") ∷ []

is_blocked-run_attempts_example :
    is_blocked invite_use "ip" (run_attempts requests (reset_rate_limits limits)) ≡ (
      ltb (limit invite_use limits) (occurrences "ip" (keys_of invite_use requests))
      && ltb (occurrences "ip" (keys_of invite_use requests)) (2 ^ 31))
is_blocked-run_attempts_example =
    is_blocked-run_attempts requests invite_use "ip" limits (unfold limit in omega arith)
      (unfold occurrences keys_of Quota-discrete String-discrete in omega arith)
