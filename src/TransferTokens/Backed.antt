-- ===== src/TransferTokens/Backed.antt =====
-- The two maps of FTransferTokenManager: each user's token leads back to the user.
use squirrel_communicator.Prelude.{
  not, is_yes, ◌≟◌, ℕ, ◌*◌, String, ◌≡◌, subst, Bool, true, false, ◌&&◌, ltb, Option, none, some,
  List, [], ◌∷◌, arith, leb, if◌then◌else◌, add_u64, nat_key, string_key, Option-cases, inl, inr,
}
use squirrel_communicator.UnorderedMap.{find, find-erase, find-insert_or_assign}
use squirrel_communicator.UnorderedMap.Unique.{IsUnique, erase-IsUnique, insert_or_assign-IsUnique}
use squirrel_communicator.TransferTokens.{
  TransferTokenData, TransferTokenManager, init, post_second_tick, create_transfer_token,
  erase_token, remove_transfer_token, erase_expired, collect_expired,
  async_clear_old_transfer_tokens, worker_round, redeem, redeem_step, is_transfer_token_valid,
  get_user_id_from_transfer_token,
}

abbrev pub user_of : String → TransferTokenManager → Option ℕ
user_of t m = find t m.transfer_token_to_id_map

abbrev pub token_of : ℕ → TransferTokenManager → Option TransferTokenData
token_of u m = find u m.transfer_tokens_map

pub record IsBacked (m : TransferTokenManager) : Type 0 where
  pub leads_back :
      (u : ℕ) (d : TransferTokenData) → token_of u m ≡ some d → user_of d.token m ≡ some u
  pub unique : IsUnique m.transfer_tokens_map

init-IsBacked : IsBacked init
unfolding init find
init-IsBacked = record { leads_back = λ u d e. cc; unique = tt }

abbrev pub new_token : String → TransferTokenManager → TransferTokenData
new_token t m = record { token = t; expiration_time = add_u64 m.current_time_cached 60 }

pub create-IsBacked :
    (u : ℕ) (t : String) (m : TransferTokenManager)
    → user_of t m ≡ none
    → IsBacked m
    → IsBacked (create_transfer_token u t m)
unfolding create_transfer_token
create-IsBacked u t m fresh v = record {
  leads_back = λ j d. ground (
    arith,
    find-insert_or_assign u j (new_token t m) m.transfer_tokens_map,
    find-insert_or_assign t d.token u m.transfer_token_to_id_map,
    v.leads_back j d,
  );
  unique = insert_or_assign-IsUnique u (new_token t m) m.transfer_tokens_map v.unique;
}

pub erase_token-IsBacked :
    (t : String) (u : ℕ) (m : TransferTokenManager)
    → user_of t m ≡ some u
    → IsBacked m
    → IsBacked (erase_token t u m)
unfolding erase_token
erase_token-IsBacked t u m e v = record {
  leads_back = λ j d. ground (
    arith,
    find-erase u j m.transfer_tokens_map,
    find-erase t d.token m.transfer_token_to_id_map,
    v.leads_back j d,
  );
  unique = erase-IsUnique u m.transfer_tokens_map v.unique;
}

pub remove-IsBacked :
    (t : String) (m : TransferTokenManager) → IsBacked m → IsBacked (remove_transfer_token t m).0
unfolding remove_transfer_token
remove-IsBacked t m v = elim (Option-cases (user_of t m)) [
  | inl e ↦ rw (e, remove_transfer_token) v
  | inr (u, e) ↦ rw (e, remove_transfer_token) (erase_token-IsBacked t u m e v)
]

pub erase_expired-IsBacked :
    (ts : List String) (m : TransferTokenManager) → IsBacked m → IsBacked (erase_expired ts m)
unfolding erase_expired
erase_expired-IsBacked [] m v = v
erase_expired-IsBacked (t ∷ ts) m v = elim (Option-cases (user_of t m)) [
  | inl e ↦ rw e (erase_expired-IsBacked ts m v)
  | inr (u, e) ↦ rw e (erase_expired-IsBacked ts _ (erase_token-IsBacked t u m e v))
]

-- The calls that threads make, each run to its end.
pub data Call : Type 0 where
  ticks : ℕ → Call
  creates : ℕ → String → Call
  removes : String → Call
  redeems : (ℕ → Option String) → String → Call
  works : Call

unfoldable pub step : Call → TransferTokenManager → TransferTokenManager
step (ticks seconds) m = post_second_tick seconds m
step (creates u t) m = create_transfer_token u t m
step (removes t) m = (remove_transfer_token t m).0
step (redeems login t) m = (redeem login t m).0
step works m = worker_round m

unfoldable pub run : List Call → TransferTokenManager → TransferTokenManager
run [] m = m
run (c ∷ cs) m = run cs (step c m)

-- A created token is not in use.
abbrev pub IsFresh : Call → TransferTokenManager → Type 0
IsFresh (creates u t) m = user_of t m ≡ none
IsFresh _ m = Unit {0}

abbrev pub AllFresh : List Call → TransferTokenManager → Type 0
AllFresh [] m = Unit {0}
AllFresh (c ∷ cs) m = IsFresh c m × AllFresh cs (step c m)

state-redeem :
    (login : ℕ → Option String) (t : String) (m : TransferTokenManager)
    → (if not (is_yes (t ≟ ""))
          && (is_transfer_token_valid t m && ltb 0 (get_user_id_from_transfer_token t m))
        then (remove_transfer_token t m).0
        else m)
      ≡ (redeem login t m).0
unfolding redeem redeem_step
state-redeem login t m = ground arith

if-IsBacked :
    (b : Bool) (m n : TransferTokenManager)
    → IsBacked m
    → IsBacked n
    → IsBacked (if b then m else n)
if-IsBacked true m n v w = v
if-IsBacked false m n v w = w

redeem-IsBacked :
    (login : ℕ → Option String) (t : String) (m : TransferTokenManager)
    → IsBacked m
    → IsBacked (redeem login t m).0
redeem-IsBacked login t m v = subst IsBacked (state-redeem login t m) (
    if-IsBacked
      (not (is_yes (t ≟ ""))
        && (is_transfer_token_valid t m && ltb 0 (get_user_id_from_transfer_token t m)))
      _ m (remove-IsBacked t m v) v)

clear-IsBacked :
    (m : TransferTokenManager) → IsBacked m → IsBacked (async_clear_old_transfer_tokens m)
unfolding async_clear_old_transfer_tokens
clear-IsBacked m v =
    erase_expired-IsBacked (collect_expired m.current_time_cached m.transfer_tokens_map) m v

worker_round-IsBacked : (m : TransferTokenManager) → IsBacked m → IsBacked (worker_round m)
unfolding worker_round
worker_round-IsBacked m v =
    if-IsBacked (leb (add_u64 m.async_work_last_time (2 * 60)) m.current_time_cached) _ m
      (clear-IsBacked (record m { async_work_last_time = m.current_time_cached })
        (record { leads_back = v.leads_back; unique = v.unique }))
      v

step-IsBacked :
    (c : Call) (m : TransferTokenManager) → IsFresh c m → IsBacked m → IsBacked (step c m)
unfolding step
step-IsBacked (ticks seconds) m f v =
    unfold post_second_tick in record { leads_back = v.leads_back; unique = v.unique }
step-IsBacked (creates u t) m f v = create-IsBacked u t m f v
step-IsBacked (removes t) m f v = remove-IsBacked t m v
step-IsBacked (redeems login t) m f v = redeem-IsBacked login t m v
step-IsBacked works m f v = worker_round-IsBacked m v

-- From a state in which each user's token leads back to its user and users are unique keys, such as
-- the constructor's, this holds after any history of calls in which created tokens are new ones:
-- the token that is stored for a user leads back to that user.
pub run-IsBacked :
    (cs : List Call) (m : TransferTokenManager) → AllFresh cs m → IsBacked m → IsBacked (run cs m)
unfolding run
run-IsBacked [] m f v = v
run-IsBacked (c ∷ cs) m f v = run-IsBacked cs (step c m) f.1 (step-IsBacked c m f.0 v)
