-- ===== src/RateLimiter/Quotas.antt =====
-- The kinds of request that FRateLimiter counts do not disturb one another.
use squirrel_communicator.Prelude.{
  ℕ, ◌+◌, ◌*◌, ◌<◌, ◌^◌, String, ◌≡◌, refl, ◌∙◌, Bool, List, [], ◌∷◌, arith, ltb, leb, ◌&&◌,
  if◌then◌else◌, ite, false, Bool-cases, inl, inr,
}
use squirrel_communicator.RateLimiter.{RateLimitObject, add_attempt, is_blocked_key, reset}
use squirrel_communicator.UnorderedMap.{find}
use squirrel_communicator.RateLimiter.Counts.{
  occurrences, add_attempts, is_blocked_key-add_attempts,
}
use squirrel_communicator.RateLimiter.Limits.{
  Limits, is_address_blocked, add_protected_action_attempt, is_password_reset_address_blocked,
  add_password_reset_attempt, is_server_operation_address_blocked, add_server_operation_attempt,
  is_unauthenticated_ip_blocked, add_unauthenticated_ip_attempt, is_authenticated_user_blocked,
  add_authenticated_user_attempt, is_invite_create_address_blocked, add_invite_create_attempt,
  is_invite_use_address_blocked, add_invite_use_attempt, is_register_account_address_blocked,
  add_register_account_attempt, reset_rate_limits, worker_round,
}

-- The kinds of request that are counted.
pub data Quota : Type 0 where
  protected_action password_reset server_operation unauthenticated authenticated : Quota
  invite_create invite_use register_account : Quota

-- The check and the count of a kind of request.
unfoldable pub is_blocked : Quota → String → Limits → Bool
is_blocked protected_action = is_address_blocked
is_blocked password_reset = is_password_reset_address_blocked
is_blocked server_operation = is_server_operation_address_blocked
is_blocked unauthenticated = is_unauthenticated_ip_blocked
is_blocked authenticated = is_authenticated_user_blocked
is_blocked invite_create = is_invite_create_address_blocked
is_blocked invite_use = is_invite_use_address_blocked
is_blocked register_account = is_register_account_address_blocked

unfoldable pub attempt : Quota → String → Limits → Limits
attempt protected_action = add_protected_action_attempt
attempt password_reset = add_password_reset_attempt
attempt server_operation = add_server_operation_attempt
attempt unauthenticated = add_unauthenticated_ip_attempt
attempt authenticated = add_authenticated_user_attempt
attempt invite_create = add_invite_create_attempt
attempt invite_use = add_invite_use_attempt
attempt register_account = add_register_account_attempt

unfoldable pub Quota-discrete : Discrete Quota
Quota-discrete = hlevel

-- The object and the limit behind a kind.
counter : Quota → Limits → RateLimitObject
counter protected_action l = l.default_ip_address_to_limits
counter password_reset l = l.password_reset_ip_address_to_limits
counter server_operation l = l.server_operation_address_to_limits
counter unauthenticated l = l.unauthenticated_ip_limits
counter authenticated l = l.authenticated_user_limits
counter invite_create l = l.invite_create_limits
counter invite_use l = l.invite_use_limits
counter register_account l = l.register_account_limits

unfoldable pub limit : Quota → Limits → ℕ
limit protected_action l = l.number_of_attempts_to_block
limit password_reset l = l.number_of_password_reset_attempts_to_block
limit server_operation l = l.number_of_server_operation_attempts_to_block
limit unauthenticated l = l.unauthenticated_requests_per_hour
limit authenticated l = l.authenticated_requests_per_hour
limit invite_create l = l.invite_create_limit_per_hour
limit invite_use l = l.invite_use_limit_per_hour
limit register_account l = l.register_account_limit_per_hour

-- The keys of the attempts of one kind.
unfoldable pub keys_of : Quota → List (Quota × String) → List String
keys_of q [] = []
keys_of q ((p, k) ∷ calls) = ite (Quota-discrete p q) (k ∷ keys_of q calls) (keys_of q calls)

unfoldable pub run_attempts : List (Quota × String) → Limits → Limits
run_attempts [] l = l
run_attempts ((q, k) ∷ calls) l = run_attempts calls (attempt q k l)

is_blocked-eq-counter :
    (q : Quota) (k : String) (l : Limits)
    → is_blocked q k l ≡ is_blocked_key k (limit q l) (counter q l)
unfolding is_blocked limit counter is_address_blocked is_password_reset_address_blocked
    is_server_operation_address_blocked is_unauthenticated_ip_blocked is_authenticated_user_blocked
    is_invite_create_address_blocked is_invite_use_address_blocked
    is_register_account_address_blocked
is_blocked-eq-counter protected_action k l = refl
is_blocked-eq-counter _ k l = refl

counter-attempt :
    (p q : Quota) (k : String) (l : Limits)
    → counter q (attempt p k l)
      ≡ ite (Quota-discrete p q) (add_attempt k (counter q l)) (counter q l)
unfolding attempt counter add_protected_action_attempt add_password_reset_attempt
    add_server_operation_attempt add_unauthenticated_ip_attempt add_authenticated_user_attempt
    add_invite_create_attempt add_invite_use_attempt add_register_account_attempt
counter-attempt p q k l = ground arith

limit-attempt : (p q : Quota) (k : String) (l : Limits) → limit q (attempt p k l) ≡ limit q l
unfolding attempt limit add_protected_action_attempt add_password_reset_attempt
    add_server_operation_attempt add_unauthenticated_ip_attempt add_authenticated_user_attempt
    add_invite_create_attempt add_invite_use_attempt add_register_account_attempt
limit-attempt p q k l = ground arith

counter-run_attempts :
    (calls : List (Quota × String)) (q : Quota) (l : Limits)
    → counter q (run_attempts calls l) ≡ add_attempts (keys_of q calls) (counter q l)
unfolding run_attempts keys_of add_attempts
counter-run_attempts [] q l = refl
counter-run_attempts ((p, k) ∷ calls) q l =
    ground (arith, counter-attempt p q k l, counter-run_attempts calls q (attempt p k l))

limit-run_attempts :
    (calls : List (Quota × String)) (q : Quota) (l : Limits)
    → limit q (run_attempts calls l) ≡ limit q l
unfolding run_attempts
limit-run_attempts [] q l = refl
limit-run_attempts ((p, k) ∷ calls) q l =
    limit-run_attempts calls q (attempt p k l) ∙ limit-attempt p q k l

counter-reset_rate_limits :
    (q : Quota) (l : Limits) → counter q (reset_rate_limits l) ≡ reset (counter q l)
unfolding counter reset_rate_limits
counter-reset_rate_limits protected_action l = refl
counter-reset_rate_limits _ l = refl

limit-reset_rate_limits : (q : Quota) (l : Limits) → limit q (reset_rate_limits l) ≡ limit q l
unfolding limit reset_rate_limits
limit-reset_rate_limits protected_action l = refl
limit-reset_rate_limits _ l = refl

-- With a limit below 2^31, after the limits are cleared and any sequence of attempts of any kinds,
-- a key is blocked for a kind exactly when its attempts of that kind, fewer than 2^32, are more
-- than the limit of that kind and fewer than 2^31. Attempts of other kinds and of other keys do not
-- matter.
pub is_blocked-run_attempts :
    (calls : List (Quota × String)) (q : Quota) (k : String) (l : Limits)
    → limit q l < 2 ^ 31
    → occurrences k (keys_of q calls) < 2 ^ 32
    → is_blocked q k (run_attempts calls (reset_rate_limits l)) ≡ (
        ltb (limit q l) (occurrences k (keys_of q calls))
        && ltb (occurrences k (keys_of q calls)) (2 ^ 31))
is_blocked-run_attempts calls q k l h n =
    is_blocked-eq-counter q k _
    ∙ rw
        (
          limit-run_attempts calls q (reset_rate_limits l),
          limit-reset_rate_limits q l,
          counter-run_attempts calls q (reset_rate_limits l),
          counter-reset_rate_limits q l,
        )
        (is_blocked_key-add_attempts (keys_of q calls) k (limit q l) (counter q l) h n)

not_blocked_after_reset :
    (q : Quota) (k : String) (l : Limits) → is_blocked q k (reset_rate_limits l) ≡ false
not_blocked_after_reset q k l =
    is_blocked-eq-counter q k (reset_rate_limits l)
    ∙ rw (counter-reset_rate_limits q l) (unfold reset is_blocked_key find in refl)

limit-clock :
    (q : Quota) (t : ℕ) (l : Limits) → limit q (record l { async_work_last_time = t }) ≡ limit q l
unfolding limit
limit-clock q t l = ground arith

-- A round of the worker leaves every key of every kind as blocked as it was before the clearing
-- time has passed since the last clearing, and unblocks them all from then on; only then does the
-- next interval start, at the present time. The limits stay.
pub worker_round_cases :
    (t : ℕ) (q : Quota) (k : String) (l : Limits)
    → let due = leb (l.async_work_last_time + l.clearing_time_in_mins * 60) t in
      (is_blocked q k (worker_round t l) ≡ (if due then false else is_blocked q k l))
      × ((worker_round t l).async_work_last_time ≡ (if due then t else l.async_work_last_time))
      × (limit q (worker_round t l) ≡ limit q l)
unfolding worker_round
worker_round_cases t q k l =
    elim (Bool-cases (leb (l.async_work_last_time + l.clearing_time_in_mins * 60) t)) [
      | inl e ↦
          rw (e, worker_round)
            (
              not_blocked_after_reset q k _,
              unfold reset_rate_limits in refl,
              limit-reset_rate_limits q _ ∙ limit-clock q t l,
            )
      | inr e ↦ rw (e, worker_round) (refl, refl, refl)
    ]
