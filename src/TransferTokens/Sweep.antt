-- ===== src/TransferTokens/Sweep.antt =====
-- FTransferTokenManager::AsyncClearOldTransferTokens: what it erases, what it never erases, and
-- what happens when a token is created between its two sections.
use squirrel_communicator.Prelude.{
  ℕ, ◌≤◌, ◌<◌, String, ◌≡◌, ◌≢◌, ◌∙◌, false, inl, inr, none, some, arith, ltb, nat_key, string_key,
  Option-cases, Bool-cases, All, All-map,
}
use squirrel_communicator.UnorderedMap.{find-insert_or_assign}
use squirrel_communicator.TransferTokens.{
  TransferTokenData, TransferTokenManager, create_transfer_token, is_current,
  is_transfer_token_valid, collect_expired, erase_expired, async_clear_old_transfer_tokens,
}
use squirrel_communicator.TransferTokens.Backed.{user_of, token_of, IsBacked}
use squirrel_communicator.TransferTokens.Erased.{
  IsExpired, collect_expired-IsExpired, erase_expired_keeps, erase_expired_shrinks,
  clock-erase_expired, erase_expired_gone, erase_expired_other, has_key-collect_expired,
}

module _ (m : TransferTokenManager) (v : IsBacked m) where
  not_collected :
      (u : ℕ) (d : TransferTokenData)
      → token_of u m ≡ some d
      → m.current_time_cached < d.expiration_time
      → All
          (λ t. user_of t m ≢ some u)
          (collect_expired m.current_time_cached m.transfer_tokens_map)
  not_collected u d e live =
      All-map (IsExpired m.current_time_cached m.transfer_tokens_map) (λ t. user_of t m ≢ some u) _
        (λ t x k. absurd (other t x k))
        (collect_expired-IsExpired m.current_time_cached m.transfer_tokens_map v.unique)
    where
      other :
          (t : String)
          → IsExpired m.current_time_cached m.transfer_tokens_map t
          → user_of t m ≢ some u
      other t (j, c, f, same, old) k = ground (arith, v.leads_back j c)

  -- Where each user's token leads back to its user, a sweep changes the validity of no token: a
  -- valid one stays valid, and no other becomes so.
  pub valid-after_sweep :
      (s : String)
      → is_transfer_token_valid s (async_clear_old_transfer_tokens m) ≡ is_transfer_token_valid s m
  unfolding async_clear_old_transfer_tokens is_transfer_token_valid is_current
  valid-after_sweep s =
      let ts = collect_expired m.current_time_cached m.transfer_tokens_map in
      elim (Option-cases (user_of s m)) [
        | inl e ↦ ground (arith, erase_expired_shrinks ts 0 s m)
        | inr (u, e) ↦ elim (Option-cases (token_of u m)) [
          | inl f ↦ ground (arith, erase_expired_shrinks ts u s m)
          | inr (d, f) ↦ elim (Bool-cases (ltb m.current_time_cached d.expiration_time)) [
            | inl live ↦ ground (
              arith,
              clock-erase_expired ts m,
              erase_expired_keeps ts u s m (not_collected u d f (ground arith)) e,
            )
            | inr over ↦ ground (arith, clock-erase_expired ts m, erase_expired_shrinks ts u s m)
          ]
        ]
      ]

  -- Where each user's token leads back to its user, a sweep erases both entries of every user's
  -- token that has expired.
  pub sweep_erases_expired :
      (u : ℕ) (d : TransferTokenData)
      → token_of u m ≡ some d
      → d.expiration_time ≤ m.current_time_cached
      → (token_of u (async_clear_old_transfer_tokens m) ≡ none)
        × (user_of d.token (async_clear_old_transfer_tokens m) ≡ none)
  unfolding async_clear_old_transfer_tokens
  sweep_erases_expired u d e old =
      let gone =
        erase_expired_gone (collect_expired m.current_time_cached m.transfer_tokens_map) d.token u m
          (has_key-collect_expired m.current_time_cached u d m.transfer_tokens_map e old)
          (v.leads_back u d e) in
      (gone.1, gone.0)

-- The bug: where each user's token leads back to its user, a token that a newer one of its user has
-- replaced is not erased by a sweep, at whatever time: it still leads to the user afterwards.
pub sweep_leaves_replaced_token :
    (s : String) (u : ℕ) (d : TransferTokenData) (m : TransferTokenManager)
    → IsBacked m
    → user_of s m ≡ some u
    → token_of u m ≡ some d
    → d.token ≢ s
    → user_of s (async_clear_old_transfer_tokens m) ≡ some u
unfolding async_clear_old_transfer_tokens
sweep_leaves_replaced_token s u d m v e f ne =
    erase_expired_other (collect_expired m.current_time_cached m.transfer_tokens_map) s m (
      All-map (IsExpired m.current_time_cached m.transfer_tokens_map) (λ t. t ≢ s) _
        (λ t x k. absurd (other t x k))
        (collect_expired-IsExpired m.current_time_cached m.transfer_tokens_map v.unique))
    ∙ e
  where
    other : (t : String) → IsExpired m.current_time_cached m.transfer_tokens_map t → t ≢ s
    other t (j, c, g, same, old) k = ground (arith, v.leads_back j c)

-- The bug: where each user's token leads back to its user, when a user's token has expired and the
-- user creates a new one, not in use before, between the two sections of a sweep, the new one is not
-- valid after the second section.
pub sweep_kills_new_token :
    (u : ℕ) (t : String) (d : TransferTokenData) (m : TransferTokenManager)
    → IsBacked m
    → token_of u m ≡ some d
    → d.expiration_time ≤ m.current_time_cached
    → user_of t m ≡ none
    → is_transfer_token_valid t (
        erase_expired
          (collect_expired m.current_time_cached m.transfer_tokens_map)
          (create_transfer_token u t m))
      ≡ false
sweep_kills_new_token u t d m v e old fresh =
    let ts = collect_expired m.current_time_cached m.transfer_tokens_map in
    let n = create_transfer_token u t m in
    let old_token : user_of d.token n ≡ some u =
      unfold create_transfer_token in
      ground
        (arith, find-insert_or_assign t d.token u m.transfer_token_to_id_map, v.leads_back u d) in
    let new_token : user_of t n ≡ some u =
      unfold create_transfer_token in
      ground (arith, find-insert_or_assign t t u m.transfer_token_to_id_map) in
    unfold is_transfer_token_valid is_current in
    ground (
      arith,
      erase_expired_gone ts d.token u n
          (has_key-collect_expired m.current_time_cached u d m.transfer_tokens_map e old) old_token,
      erase_expired_shrinks ts u t n,
    )
