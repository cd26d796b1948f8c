-- ===== src/TransferTokens/Validity.antt =====
-- When a transfer token of FTransferTokenManager is valid, and for whom.
use squirrel_communicator.Prelude.{
  ℕ, ◌+◌, ◌^◌, ◌<◌, String, ◌≡◌, ◌≢◌, Bool, false, ◌&&◌, not, Option, none, some, arith, ltb, ite,
  ◌≟◌, nat_key, string_key, ◌==◌, Option-cases, inl, inr,
}
use squirrel_communicator.UnorderedMap.{find-erase, find-insert_or_assign}
use squirrel_communicator.TransferTokens.{
  TransferTokenManager, post_second_tick, create_transfer_token, remove_transfer_token, is_current,
  is_transfer_token_valid,
}
use squirrel_communicator.TransferTokens.Backed.{user_of, new_token}

-- Some user other than `u` has the token.
abbrev pub belongs_to_other : ℕ → Option ℕ → Bool
belongs_to_other u none = false
belongs_to_other u (some j) = not (u == j)

-- Unless its expiry overflows 64 bits, a new token is valid for sixty seconds. Every
-- other token is as valid as before, except those of the same user, which are valid no more.
pub valid-after_create :
    (u now : ℕ) (t s : String) (m : TransferTokenManager)
    → m.current_time_cached + 60 < 2 ^ 64
    → is_transfer_token_valid s (post_second_tick now (create_transfer_token u t m))
      ≡ ite
          (t ≟ s)
          (ltb now (m.current_time_cached + 60))
          (is_transfer_token_valid s (post_second_tick now m) && belongs_to_other u (user_of s m))
unfolding is_transfer_token_valid is_current post_second_tick create_transfer_token
valid-after_create u now t s m h = elim (Option-cases (user_of s m)) [
  | inl e ↦ ground (
    arith,
    find-insert_or_assign t s u m.transfer_token_to_id_map,
    find-insert_or_assign u u (new_token t m) m.transfer_tokens_map,
  )
  | inr (i, e) ↦ ground (
    arith,
    find-insert_or_assign t s u m.transfer_token_to_id_map,
    find-insert_or_assign u u (new_token t m) m.transfer_tokens_map,
    find-insert_or_assign u i (new_token t m) m.transfer_tokens_map,
  )
]

-- The bug: to remove a token that a newer one of the same user has replaced takes the newer one
-- too.
pub remove_replaced_token :
    (t s : String) (u : ℕ) (m : TransferTokenManager)
    → user_of s m ≡ some u
    → user_of t m ≡ some u
    → s ≢ t
    → (is_transfer_token_valid t (remove_transfer_token s m).0 ≡ false)
      × (user_of t (remove_transfer_token s m).0 ≡ some u)
unfolding is_transfer_token_valid remove_transfer_token
remove_replaced_token t s u m e f ne = (
  ground (arith, find-erase s t m.transfer_token_to_id_map, find-erase u u m.transfer_tokens_map),
  ground (arith, find-erase s t m.transfer_token_to_id_map),
)
