-- ===== src/TransferTokens/Erased.antt =====
-- The two sections of FTransferTokenManager::AsyncClearOldTransferTokens: which tokens the first one
-- collects, and which entries the second one erases.
use squirrel_communicator.Prelude.{
  ℕ, ◌≤◌, String, ◌≡◌, ◌≢◌, refl, ◌∙◌, true, ◌⊎◌, inl, inr, none, some, List, [], ◌∷◌, arith, leb,
  ite, ◌≟◌, nat_key, string_key, Option-cases, Bool-cases, All, All-map, if_neg,
}
use squirrel_communicator.UnorderedMap.{UnorderedMap, find, has_key, find-erase}
use squirrel_communicator.UnorderedMap.Unique.{IsUnique}
use squirrel_communicator.TransferTokens.{
  TransferTokenData, TransferTokenManager, erase_token, collect_expired, erase_expired,
}
use squirrel_communicator.TransferTokens.Backed.{user_of, token_of}

-- A collected token is the expired one of some user.
abbrev pub IsExpired : ℕ → UnorderedMap ℕ TransferTokenData → String → Type 0
IsExpired now tokens t =
    (u : ℕ) × (d : TransferTokenData) × (find u tokens ≡ some d)
    × (d.token ≡ t)
    × (d.expiration_time ≤ now)

IsExpired-cons :
    (now : ℕ) (i : ℕ) (e : TransferTokenData) (rest : UnorderedMap ℕ TransferTokenData) (t : String)
    → find i rest ≡ none
    → IsExpired now rest t
    → IsExpired now ((i, e) ∷ rest) t
unfolding find
IsExpired-cons now i e rest t n (u, d, f, same, old) = (u, d, ground arith, same, old)

pub collect_expired-IsExpired :
    (now : ℕ) (tokens : UnorderedMap ℕ TransferTokenData)
    → IsUnique tokens
    → All (IsExpired now tokens) (collect_expired now tokens)
unfolding collect_expired
collect_expired-IsExpired now [] u = tt
collect_expired-IsExpired now ((i, d) ∷ rest) u =
    let later =
      All-map (IsExpired now rest) (IsExpired now ((i, d) ∷ rest)) (collect_expired now rest)
        (λ t. IsExpired-cons now i d rest t u.0) (collect_expired-IsExpired now rest u.1) in
    elim (Bool-cases (leb d.expiration_time now)) [
      | inl e ↦ rw e ((i, d, unfold find in ground arith, refl, ground arith), later)
      | inr e ↦ rw e later
    ]

user_of-erase_token :
    (t s : String) (u : ℕ) (m : TransferTokenManager)
    → user_of s (erase_token t u m) ≡ ite (t ≟ s) none (user_of s m)
unfolding erase_token
user_of-erase_token t s u m = find-erase t s m.transfer_token_to_id_map

token_of-erase_token :
    (t : String) (u j : ℕ) (m : TransferTokenManager)
    → token_of j (erase_token t u m) ≡ ite (u ≟ j) none (token_of j m)
unfolding erase_token
token_of-erase_token t u j m = find-erase u j m.transfer_tokens_map

-- The user's entries stay if no erased token is the user's.
pub erase_expired_keeps :
    (ts : List String) (u : ℕ) (s : String) (m : TransferTokenManager)
    → All (λ t. user_of t m ≢ some u) ts
    → user_of s m ≡ some u
    → (user_of s (erase_expired ts m) ≡ some u) × (token_of u (erase_expired ts m) ≡ token_of u m)
unfolding erase_expired
erase_expired_keeps [] u s m a e = (e, refl)
erase_expired_keeps (t ∷ ts) u s m a e = elim (Option-cases (user_of t m)) [
  | inl n ↦ rw (n, erase_expired) (erase_expired_keeps ts u s m a.1 e)
  | inr (i, n) ↦
      rw (n, erase_expired)
        (let other : user_of s (erase_token t i m) ≡ some u =
            ground (arith, user_of-erase_token t s i m, a.0) in
          let ih =
            erase_expired_keeps ts u s (erase_token t i m)
              (All-map (λ r. user_of r m ≢ some u) (λ r. user_of r (erase_token t i m) ≢ some u) ts
                (λ r h k. h (ground (arith, user_of-erase_token t r i m))) a.1)
              other in
          (ih.0, ground (arith, ih.1, token_of-erase_token t i u m, a.0)))
]

-- Erasing makes no entry.
pub erase_expired_shrinks :
    (ts : List String) (u : ℕ) (s : String) (m : TransferTokenManager)
    → ((user_of s (erase_expired ts m) ≡ none) ⊎ (user_of s (erase_expired ts m) ≡ user_of s m))
      × ((token_of u (erase_expired ts m) ≡ none)
          ⊎ (token_of u (erase_expired ts m) ≡ token_of u m))
unfolding erase_expired
erase_expired_shrinks [] u s m = (inr refl, inr refl)
erase_expired_shrinks (t ∷ ts) u s m = elim (Option-cases (user_of t m)) [
  | inl n ↦ rw (n, erase_expired) (erase_expired_shrinks ts u s m)
  | inr (i, n) ↦
      rw (n, erase_expired)
        (ground (
          arith,
          erase_expired_shrinks ts u s (erase_token t i m),
          user_of-erase_token t s i m,
          token_of-erase_token t i u m,
        ))
]

pub clock-erase_expired :
    (ts : List String) (m : TransferTokenManager)
    → (erase_expired ts m).current_time_cached ≡ m.current_time_cached
unfolding erase_expired erase_token
clock-erase_expired [] m = refl
clock-erase_expired (t ∷ ts) m = elim (Option-cases (user_of t m)) [
  | inl n ↦ rw (n, erase_expired) (clock-erase_expired ts m)
  | inr (i, n) ↦ rw (n, erase_expired) (clock-erase_expired ts (erase_token t i m))
]

-- A token on the list loses both entries.
pub erase_expired_gone :
    (ts : List String) (t : String) (u : ℕ) (m : TransferTokenManager)
    → has_key t ts ≡ true
    → user_of t m ≡ some u
    → (user_of t (erase_expired ts m) ≡ none) × (token_of u (erase_expired ts m) ≡ none)
unfolding erase_expired has_key
erase_expired_gone [] t u m k e = cc
erase_expired_gone (r ∷ ts) t u m k e = elim (Option-cases (user_of r m)) [
  | inl n ↦ rw (n, erase_expired) (erase_expired_gone ts t u m (ground arith) e)
  | inr (i, n) ↦
      rw (n, erase_expired)
        (elim (r ≟ t) [
          | yes hit ↦ ground (
            arith,
            erase_expired_shrinks ts u t (erase_token r i m),
            user_of-erase_token r t i m,
            token_of-erase_token r i u m,
          )
          | no miss ↦
              erase_expired_gone ts t u (erase_token r i m) (ground arith)
                (ground (arith, user_of-erase_token r t i m))
        ])
]

pub erase_expired_other :
    (ts : List String) (s : String) (m : TransferTokenManager)
    → All (λ t. t ≢ s) ts
    → user_of s (erase_expired ts m) ≡ user_of s m
unfolding erase_expired
erase_expired_other [] s m a = refl
erase_expired_other (t ∷ ts) s m a = elim (Option-cases (user_of t m)) [
  | inl n ↦ rw (n, erase_expired) (erase_expired_other ts s m a.1)
  | inr (i, n) ↦
      rw (n, erase_expired)
        (erase_expired_other ts s (erase_token t i m) a.1
          ∙ user_of-erase_token t s i m
          ∙ if_neg (t ≟ s) a.0 none (user_of s m))
]

pub has_key-collect_expired :
    (now u : ℕ) (d : TransferTokenData) (tokens : UnorderedMap ℕ TransferTokenData)
    → find u tokens ≡ some d
    → d.expiration_time ≤ now
    → has_key d.token (collect_expired now tokens) ≡ true
unfolding collect_expired has_key find
has_key-collect_expired now u d [] e old = cc
has_key-collect_expired now u d ((i, c) ∷ rest) e old =
    ground (arith, has_key-collect_expired now u d rest)
