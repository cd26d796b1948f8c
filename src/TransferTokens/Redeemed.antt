-- ===== src/TransferTokens/Redeemed.antt =====
-- How often a transfer token logs in by the route transfer_token/redeem
-- (ProjectServer/Source/Private/Rest/TransferTokenEndpoint.cpp).
use squirrel_communicator.Prelude.{
  ℕ, String, ◌≡◌, ◌≢◌, Bool, true, false, Option, some, List, [], ◌∷◌, arith, nat_key, string_key,
}
use squirrel_communicator.UnorderedMap.{find-erase}
use squirrel_communicator.TransferTokens.{
  TransferTokenManager, Redeeming, starts, answered, invalid_token, logged_in, login_answer,
  redeem_step, is_transfer_token_valid, get_user_id_from_transfer_token,
}

-- Two requests with one token, and what LoginFromId answers each of them
pub record TwoRequests : Type 0 where
  pub manager : TransferTokenManager
  pub first : Redeeming
  pub second : Redeeming

module _ (login login' : ℕ → Option String) (t : String) where
  -- The next call of one of them, of the second if the Boolean is true
  unfoldable pub turn : Bool → TwoRequests → TwoRequests
  turn false r =
      let (m, p) = redeem_step login t r.first r.manager in
      record { manager = m; first = p; second = r.second }
  turn true r =
      let (m, p) = redeem_step login' t r.second r.manager in
      record { manager = m; first = r.first; second = p }

  unfoldable pub turns : List Bool → TwoRequests → TwoRequests
  turns [] r = r
  turns (b ∷ bs) r = turns bs (turn b r)

-- Both requests begin.
abbrev pub both_start : TransferTokenManager → TwoRequests
both_start m = record { manager = m; first = starts; second = starts }

-- One request after the other
abbrev pub in_sequence : List Bool
in_sequence = false ∷ false ∷ false ∷ false ∷ true ∷ true ∷ true ∷ true ∷ []

-- Their calls by turns
abbrev pub by_turns : List Bool
by_turns = false ∷ true ∷ false ∷ true ∷ false ∷ true ∷ false ∷ true ∷ []

-- The bug: of two requests with one token that is valid, not empty and of a user other than 0, for
-- whom each login succeeds with a session token, the first logs in and the second is told that the
-- token is invalid if they run one after the other; but if their calls come by turns, both log in.
pub logs_in_twice :
    (login login' : ℕ → Option String) (t session session' : String) (u : ℕ)
    (m : TransferTokenManager)
    → t ≢ ""
    → u ≢ 0
    → is_transfer_token_valid t m ≡ true
    → get_user_id_from_transfer_token t m ≡ u
    → login u ≡ some session
    → login' u ≡ some session'
    → session ≢ ""
    → session' ≢ ""
    → ((turns login login' t in_sequence (both_start m)).first ≡ answered (logged_in u session))
      × ((turns login login' t in_sequence (both_start m)).second ≡ answered invalid_token)
      × ((turns login login' t by_turns (both_start m)).first ≡ answered (logged_in u session))
      × ((turns login login' t by_turns (both_start m)).second ≡ answered (logged_in u session'))
unfolding turns turn redeem_step login_answer
logs_in_twice login login' t session session' u m n z v g l l' s s' = (
  ground (arith, n, z, v, g, l, s),
  ground (arith, n, z, v, g, l, s, find-erase t t m.transfer_token_to_id_map),
  ground (arith, n, z, v, g, l, s),
  ground (arith, n, z, v, g, l', s'),
)
