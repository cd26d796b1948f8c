-- ===== src/TransferTokens.antt =====
-- FTransferTokenManager (ProjectServer/Source/Private/Auth/TransferTokenManager.cpp and its header)
-- and the redeeming route of ProjectServer/Source/Private/Rest/TransferTokenEndpoint.cpp. The random
-- token is an argument. The sweep has two sections under two locks.
pub mod Backed
pub mod Erased
pub mod Validity
pub mod Redeemed
pub mod Sweep
mod Tests
use squirrel_communicator.Prelude.{
  ℕ, ◌+◌, ◌*◌, String, Bool, true, false, Option, none, some, List, [], ◌∷◌, map, ltb, leb,
  if◌then◌else◌, ite, ◌≟◌, is_yes, add_u64, nat_key, string_key,
}
use squirrel_communicator.UnorderedMap.{UnorderedMap, find, erase, insert_or_assign}

-- FTransferTokenData
pub record TransferTokenData : Type 0 where
  pub token : String
  pub expiration_time : ℕ

pub record TransferTokenManager : Type 0 where
  pub transfer_tokens_map : UnorderedMap ℕ TransferTokenData
  pub transfer_token_to_id_map : UnorderedMap String ℕ
  pub async_work_last_time : ℕ
  pub current_time_cached : ℕ

-- FTransferTokenManager::FTransferTokenManager
unfoldable pub init : TransferTokenManager
init = record {
  transfer_tokens_map = [];
  transfer_token_to_id_map = [];
  async_work_last_time = 0;
  current_time_cached = 0;
}

-- PostSecondTick, and the first line of Init
unfoldable pub post_second_tick : ℕ → TransferTokenManager → TransferTokenManager
post_second_tick seconds m = record m { current_time_cached = seconds }

-- CreateTransferToken, with the token that was drawn
unfoldable pub create_transfer_token : ℕ → String → TransferTokenManager → TransferTokenManager
create_transfer_token user_id token m = record m {
  transfer_tokens_map =
      insert_or_assign user_id
        (record { token = token; expiration_time = add_u64 m.current_time_cached 60 })
        m.transfer_tokens_map;
  transfer_token_to_id_map = insert_or_assign token user_id m.transfer_token_to_id_map;
}

-- GetUserIdFromTransferToken
unfoldable pub get_user_id_from_transfer_token : String → TransferTokenManager → ℕ
get_user_id_from_transfer_token token m = elim (find token m.transfer_token_to_id_map) [
  | none ↦ 0
  | some user_id ↦ user_id
]

-- The token, its user and both entries, as RemoveTransferToken and the sweep erase them
unfoldable pub erase_token : String → ℕ → TransferTokenManager → TransferTokenManager
erase_token token user_id m = record m {
  transfer_tokens_map = erase user_id m.transfer_tokens_map;
  transfer_token_to_id_map = erase token m.transfer_token_to_id_map;
}

-- RemoveTransferToken
unfoldable pub remove_transfer_token : String → TransferTokenManager → TransferTokenManager × Bool
unfolding erase_token
remove_transfer_token token m = elim (find token m.transfer_token_to_id_map) [
  | none ↦ (m, false)
  | some user_id ↦ (erase_token token user_id m, true)
]

-- IsTransferTokenValid, the part that looks at the main map
unfoldable pub is_current : String → ℕ → Option TransferTokenData → Bool
is_current token now none = false
is_current token now (some d) =
    if is_yes (d.token ≟ token) then ltb now d.expiration_time else false

-- IsTransferTokenValid
unfoldable pub is_transfer_token_valid : String → TransferTokenManager → Bool
unfolding is_current
is_transfer_token_valid token m = elim (find token m.transfer_token_to_id_map) [
  | none ↦ false
  | some user_id ↦ is_current token m.current_time_cached (find user_id m.transfer_tokens_map)
]

-- AsyncClearOldTransferTokens, the section under the shared lock: the tokens that have expired
unfoldable pub collect_expired : ℕ → UnorderedMap ℕ TransferTokenData → List String
collect_expired now [] = []
collect_expired now ((user_id, d) ∷ rest) =
    let tokens = collect_expired now rest in
    if leb d.expiration_time now then d.token ∷ tokens else tokens

-- ... and the section under the exclusive lock, which looks each token up again
unfoldable pub erase_expired : List String → TransferTokenManager → TransferTokenManager
unfolding erase_token
erase_expired [] m = m
erase_expired (token ∷ rest) m = erase_expired rest (elim (find token m.transfer_token_to_id_map) [
  | none ↦ m
  | some user_id ↦ erase_token token user_id m
])

-- AsyncClearOldTransferTokens, with no other thread between its sections
unfoldable pub async_clear_old_transfer_tokens : TransferTokenManager → TransferTokenManager
unfolding collect_expired erase_expired
async_clear_old_transfer_tokens m =
    erase_expired (collect_expired m.current_time_cached m.transfer_tokens_map) m

-- One round of the worker thread's loop
unfoldable pub worker_round : TransferTokenManager → TransferTokenManager
unfolding async_clear_old_transfer_tokens
worker_round m =
    if leb (add_u64 m.async_work_last_time (2 * 60)) m.current_time_cached
    then async_clear_old_transfer_tokens (record m { async_work_last_time = m.current_time_cached })
    else m

-- What a request to the route transfer_token/redeem is answered. `failed` is the response to a
-- malformed request, which stays where the login fails and where the token is empty.
pub data RedeemAnswer : Type 0 where
  invalid_token invalid_user failed : RedeemAnswer
  logged_in : ℕ → String → RedeemAnswer

-- How far a request has come: each call of the manager takes its lock anew, and other threads may
-- come between the calls
pub data Redeeming : Type 0 where
  starts checked : Redeeming
  found removed : ℕ → Redeeming
  answered : RedeemAnswer → Redeeming

-- The answer after LoginFromId: the session's token, `none` where the login is not successful
unfoldable pub login_answer : ℕ → Option String → RedeemAnswer
login_answer user_id none = failed
login_answer user_id (some session) =
    if is_yes (session ≟ "") then failed else logged_in user_id session

-- The route's next call, for what LoginFromId answers for a user; the answer of RemoveTransferToken
-- is not used
unfoldable pub redeem_step :
    (ℕ → Option String)
    → String
    → Redeeming
    → TransferTokenManager
    → TransferTokenManager × Redeeming
unfolding is_transfer_token_valid get_user_id_from_transfer_token remove_transfer_token login_answer
redeem_step login token starts m =
    if is_yes (token ≟ "")
    then (m, answered failed)
    else if is_transfer_token_valid token m
    then (m, checked)
    else (m, answered invalid_token)
redeem_step login token checked m =
    let user_id = get_user_id_from_transfer_token token m in
    if ltb 0 user_id then (m, found user_id) else (m, answered invalid_user)
redeem_step login token (found user_id) m = ((remove_transfer_token token m).0, removed user_id)
redeem_step login token (removed user_id) m = (m, answered (login_answer user_id (login user_id)))
redeem_step login token (answered answer) m = (m, answered answer)

-- The whole route, with no other thread between its calls
unfoldable pub redeem :
    (ℕ → Option String) → String → TransferTokenManager → TransferTokenManager × Redeeming
unfolding redeem_step
redeem login token m =
    let (m₁, p₁) = redeem_step login token starts m in
    let (m₂, p₂) = redeem_step login token p₁ m₁ in
    let (m₃, p₃) = redeem_step login token p₂ m₂ in redeem_step login token p₃ m₃
