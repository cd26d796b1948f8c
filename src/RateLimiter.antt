-- ===== src/RateLimiter.antt =====
-- FRateLimit and FRateLimitObject (ProjectServer/Source/Public/AbuseProtection/RateLimiter.h and
-- ProjectServer/Source/Private/AbuseProtection/RateLimiter.cpp): attempts counted per key. A method
-- that takes a lock twice is two critical sections, which RateLimiter/Interleaving.antt runs apart.
pub mod Counts
pub mod Interleaving
pub mod Limits
pub mod Quotas
mod Tests
use squirrel_communicator.Prelude.{
  ℕ, String, Bool, true, false, Option, none, some, [], if◌then◌else◌, add_i32, ltb_i32, string_key,
}
use squirrel_communicator.UnorderedMap.{UnorderedMap, find, emplace, modify}

-- FRateLimit: the atomic int32, as its bit pattern
pub record RateLimit : Type 0 where
  pub attempt_count : ℕ

-- FRateLimit::FRateLimit
unfoldable pub first_attempt : RateLimit
first_attempt = record { attempt_count = 1 }

-- FRateLimit::AddAttempt
unfoldable pub increment : RateLimit → RateLimit
increment l = record l { attempt_count = add_i32 l.attempt_count 1 }

pub record RateLimitObject : Type 0 where
  pub rate_limit_map : UnorderedMap String RateLimit

unfoldable pub empty : RateLimitObject
empty = record { rate_limit_map = [] }

-- AddAttempt, the section under the shared lock: nothing if the key is not there
unfoldable pub try_increment : String → RateLimitObject → Option RateLimitObject
unfolding increment
try_increment key o = elim (find key o.rate_limit_map) [
  | none ↦ none
  | some l ↦ some (record o { rate_limit_map = modify key increment o.rate_limit_map })
]

-- AddAttempt, the section under the exclusive lock, which looks the key up again
unfoldable pub increment_or_insert : String → RateLimitObject → RateLimitObject
unfolding increment first_attempt
increment_or_insert key o = elim (find key o.rate_limit_map) [
  | some l ↦ record o { rate_limit_map = modify key increment o.rate_limit_map }
  | none ↦ record o { rate_limit_map = emplace key first_attempt o.rate_limit_map }
]

-- FRateLimitObject::AddAttempt
unfoldable pub add_attempt : String → RateLimitObject → RateLimitObject
unfolding try_increment increment_or_insert
add_attempt key o = elim (try_increment key o) [ some o' ↦ o' | none ↦ increment_or_insert key o ]

-- FRateLimitObject::IsBlockedKey
unfoldable pub is_blocked_key : String → ℕ → RateLimitObject → Bool
is_blocked_key key number_of_attempts_to_block o = elim (find key o.rate_limit_map) [
  | none ↦ false
  | some l ↦ if ltb_i32 number_of_attempts_to_block l.attempt_count then true else false
]

-- FRateLimitObject::Reset
unfoldable pub reset : RateLimitObject → RateLimitObject
reset o = record o { rate_limit_map = [] }
