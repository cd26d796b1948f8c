-- ===== src/RateLimiter/Counts.antt =====
-- What the counters hold after a sequence of attempts.
use squirrel_communicator.Prelude.{
  ℕ, zero, suc, ◌+◌, ◌%◌, ◌^◌, ◌<◌, String, ◌≡◌, refl, Option, none, some, List, [], ◌∷◌, ap, ◌∙◌,
  ◌&&◌, arith, ltb, ite, ◌≟◌, string_key,
}
use squirrel_communicator.UnorderedMap.{find, find_laws}
use squirrel_communicator.RateLimiter.{
  RateLimit, RateLimitObject, first_attempt, increment, increment_or_insert, add_attempt,
  is_blocked_key, reset,
}

-- The entry of a key after `n` attempts.
abbrev pub entry_after : ℕ → Option RateLimit
entry_after zero = none
entry_after (suc n) = some (record { attempt_count = suc n % 2 ^ 32 })

-- How often a key occurs among the attempts.
unfoldable pub occurrences : String → List String → ℕ
occurrences k [] = 0
occurrences k (j ∷ js) = ite (j ≟ k) 1 0 + occurrences k js

unfoldable pub add_attempts : List String → RateLimitObject → RateLimitObject
add_attempts [] o = o
add_attempts (k ∷ ks) o = add_attempts ks (add_attempt k o)

-- One attempt more.
abbrev pub bump : Option RateLimit → Option RateLimit
bump none = some (record { attempt_count = 1 })
bump (some l) = some (record { attempt_count = (l.attempt_count + 1) % 2 ^ 32 })

pub bump-entry_after : (n : ℕ) → bump (entry_after n) ≡ entry_after (n + 1)
bump-entry_after zero = ground arith
bump-entry_after (suc n) = ground arith

pub find-increment_or_insert :
    (j k : String) (o : RateLimitObject)
    → find k (increment_or_insert j o).rate_limit_map
      ≡ ite (j ≟ k) (bump (find j o.rate_limit_map)) (find k o.rate_limit_map)
unfolding increment_or_insert
find-increment_or_insert j k o = grind (find_laws, increment, first_attempt)

pub find-add_attempt :
    (j k : String) (o : RateLimitObject)
    → find k (add_attempt j o).rate_limit_map
      ≡ ite (j ≟ k) (bump (find j o.rate_limit_map)) (find k o.rate_limit_map)
unfolding add_attempt
find-add_attempt j k o = grind (find_laws, increment, first_attempt)

pub find-add_attempts :
    (ks : List String) (k : String) (o : RateLimitObject) (n : ℕ)
    → find k o.rate_limit_map ≡ entry_after n
    → find k (add_attempts ks o).rate_limit_map ≡ entry_after (n + occurrences k ks)
unfolding add_attempts occurrences
find-add_attempts [] k o n e = e ∙ ap entry_after (omega arith)
find-add_attempts (j ∷ ks) k o n e = ground (
  arith,
  find-add_attempt j k o,
  bump-entry_after n,
  find-add_attempts ks k (add_attempt j o) (n + 1),
  find-add_attempts ks k (add_attempt j o) n,
)

-- A counter that stands for `n` attempts blocks exactly when `n` is over the limit, up to the
-- int32's sign bit.
blocked-entry_after :
    (k : String) (limit n : ℕ) (o : RateLimitObject)
    → find k o.rate_limit_map ≡ entry_after n
    → limit < 2 ^ 31
    → n < 2 ^ 32
    → is_blocked_key k limit o ≡ (ltb limit n && ltb n (2 ^ 31))
unfolding is_blocked_key
blocked-entry_after k limit zero o e l h = ground arith
blocked-entry_after k limit (suc n) o e l h = ground arith

-- With a limit below 2^31, after a reset and any attempts, in any order over any keys, a key that
-- was tried fewer than 2^32 times is blocked exactly when it was tried more often than the limit
-- allows and fewer than 2^31 times: from there on the int32 counter reads as a negative number and
-- blocks nobody.
pub is_blocked_key-add_attempts :
    (ks : List String) (k : String) (limit : ℕ) (o : RateLimitObject)
    → limit < 2 ^ 31
    → occurrences k ks < 2 ^ 32
    → is_blocked_key k limit (add_attempts ks (reset o))
      ≡ (ltb limit (occurrences k ks) && ltb (occurrences k ks) (2 ^ 31))
is_blocked_key-add_attempts ks k limit o l h =
    blocked-entry_after k limit (occurrences k ks) _
      (find-add_attempts ks k (reset o) 0 (unfold reset find in refl)
        ∙ ap entry_after (omega arith))
      l h
