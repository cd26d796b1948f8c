-- ===== src/TransferTokens/Tests.antt =====
-- Runs of FTransferTokenManager.
use squirrel_communicator.Prelude.{
  ℕ, String, String-discrete, ℕ_discrete, ◌≡◌, refl, ap, ◌∙◌, ◌≢◌, true, false, Option, none, some,
  [], ◌∷◌, arith, no_of_is_yes, string_key, nat_key,
}
use squirrel_communicator.UnorderedMap.{find}
use squirrel_communicator.TransferTokens.{
  TransferTokenManager, TransferTokenData, create_transfer_token, post_second_tick,
  is_transfer_token_valid, get_user_id_from_transfer_token, erase_expired, collect_expired,
  answered, logged_in, invalid_token,
}
use squirrel_communicator.TransferTokens.Backed.{
  Call, IsBacked, step, run, user_of, token_of, run-IsBacked,
}
use squirrel_communicator.TransferTokens.Redeemed.{
  logs_in_twice, turns, both_start, in_sequence, by_turns,
}
use squirrel_communicator.TransferTokens.Sweep.{sweep_kills_new_token}

-- User 7 has a token until 100, which has replaced an older one; it is 100.
abbrev data_of_7 : TransferTokenData
data_of_7 = record { token = "new"; expiration_time = 100 }

abbrev tokens : TransferTokenManager
tokens = record {
  transfer_tokens_map = (7, data_of_7) ∷ [];
  transfer_token_to_id_map = ("old", 7) ∷ ("new", 7) ∷ [];
  async_work_last_time = 0;
  current_time_cached = 100;
}

only_token :
    (u : ℕ) (d : TransferTokenData)
    → token_of u tokens ≡ some d
    → (d.token ≡ data_of_7.token) × (7 ≡ u)
unfolding find
only_token u d e = ground arith

new_leads_back : user_of "new" tokens ≡ some 7
unfolding find String-discrete
new_leads_back = refl

tokens-IsBacked : IsBacked tokens
tokens-IsBacked = record {
  leads_back = λ u d e.
      let only = only_token u d e in
      ap (λ t. user_of t tokens) only.0 ∙ new_leads_back ∙ ap some only.1;
  unique = (unfold find in refl, tt);
}

abbrev nobody : ℕ → Option String
nobody u = none

run-IsBacked_example : IsBacked (
    run
      (Call.ticks 200 ∷ Call.creates 8 "other" ∷ Call.redeems nobody "other" ∷ Call.works ∷ [])
      tokens)
run-IsBacked_example =
    run-IsBacked
      (Call.ticks 200 ∷ Call.creates 8 "other" ∷ Call.redeems nobody "other" ∷ Call.works ∷ [])
      tokens (tt, (unfold step post_second_tick find String-discrete in refl, (tt, (tt, tt))))
      tokens-IsBacked

abbrev earlier : TransferTokenManager
earlier = record tokens { current_time_cached = 50 }

abbrev first_login : ℕ → Option String
first_login u = some "session"

abbrev second_login : ℕ → Option String
second_login u = some "another"

not_empty_new : ◌≢◌ {A = String} "new" ""
not_empty_new = cc

not_session : ◌≢◌ {A = String} "session" ""
not_session = cc

not_another : ◌≢◌ {A = String} "another" ""
not_another = cc

seven : ◌≢◌ {A = ℕ} 7 0
seven = omega arith

valid_new : is_transfer_token_valid "new" earlier ≡ true
unfolding is_transfer_token_valid find String-discrete ℕ_discrete
valid_new = refl

user_new : get_user_id_from_transfer_token "new" earlier ≡ 7
unfolding get_user_id_from_transfer_token find String-discrete
user_new = refl

logs_in_twice_example :
    ((turns first_login second_login "new" in_sequence (both_start earlier)).first
      ≡ answered (logged_in 7 "session"))
    × ((turns first_login second_login "new" in_sequence (both_start earlier)).second
        ≡ answered invalid_token)
    × ((turns first_login second_login "new" by_turns (both_start earlier)).first
        ≡ answered (logged_in 7 "session"))
    × ((turns first_login second_login "new" by_turns (both_start earlier)).second
        ≡ answered (logged_in 7 "another"))
logs_in_twice_example =
    logs_in_twice first_login second_login "new" "session" "another" 7 earlier not_empty_new seven
      valid_new user_new refl refl not_session not_another

new_is_not_old : data_of_7.token ≢ "old"
new_is_not_old = no_of_is_yes (String-discrete "new" "old") (unfold String-discrete in refl)

sweep_kills_new_token_example :
    is_transfer_token_valid "newer" (
      erase_expired
        (collect_expired 100 tokens.transfer_tokens_map)
        (create_transfer_token 7 "newer" tokens))
    ≡ false
sweep_kills_new_token_example =
    sweep_kills_new_token 7 "newer" data_of_7 tokens tokens-IsBacked
      (unfold find ℕ_discrete in refl) (omega arith) (unfold find String-discrete in refl)
