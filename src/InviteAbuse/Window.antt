-- ===== src/InviteAbuse/Window.antt =====
-- FRateLimiter::AddInviteAbuseAttempt against the history of failed attempts: the purged list of an
-- IP stands for all its attempts, seen from any later time.
use squirrel_communicator.Prelude.{
  ℕ, ◌+◌, ◌≤◌, String, ◌≡◌, refl, sym, ap, subst, ◌∙◌, Bool, not, none, List, [], ◌∷◌, ◌++◌, arith,
  ltb, leb, length, keep, ite, ◌≟◌, if_pos, if_neg, string_key,
}
use squirrel_communicator.UnorderedMap.{find, find-insert_or_assign}
use squirrel_communicator.InviteAbuse.{
  InviteAbuse, InviteAbuseRecord, RemoveIf, new_record, purge_old_invite_attempts, record_attempt,
  triggers_ban, add_invite_abuse_attempt,
}
use mathlib.Core.Option
use mathlib.Core.List.{append_assoc, append-nil}

-- The attempt is not older than the window, seen from a time.
abbrev pub recent : ℕ → ℕ → ℕ → Bool
recent window now t = not (ltb (t + window) now)

pub keep-append {ℓ} :
    {A : Type ℓ} (p : A → Bool) (xs ys : List A) → keep p (xs ++ ys) ≡ keep p xs ++ keep p ys
unfolding keep
keep-append p [] ys = refl
keep-append p (x ∷ xs) ys = ground (arith, keep-append p xs ys)

-- What an earlier look drops, a later one drops too.
pub keep-keep :
    (window early late : ℕ) (xs : List ℕ)
    → early ≤ late
    → keep (recent window late) (keep (recent window early) xs) ≡ keep (recent window late) xs
unfolding keep
keep-keep window early late [] h = refl
keep-keep window early late (x ∷ xs) h = ground (arith, keep-keep window early late xs h)

-- The attempts that are stored for an IP.
abbrev pub stored : String → InviteAbuse → List ℕ
stored ip a = (Option.get_or (find ip a.invite_abuse_records) new_record).failed_attempts

module _ (simd : RemoveIf) where
  pub purge-eq-keep :
      (window now : ℕ) (xs : List ℕ)
      → purge_old_invite_attempts simd window now xs ≡ keep (recent window now) xs
  unfolding purge_old_invite_attempts
  purge-eq-keep window now xs = simd.remove_if-eq-keep _ xs

  pub failed_attempts-record_attempt :
      (now : ℕ) (a : InviteAbuse) (r : InviteAbuseRecord)
      → (record_attempt simd now a r).failed_attempts
        ≡ keep (recent a.invite_abuse_window_seconds now) (r.failed_attempts ++ now ∷ [])
  unfolding record_attempt
  failed_attempts-record_attempt now a r =
      ground
        (arith, purge-eq-keep a.invite_abuse_window_seconds now (r.failed_attempts ++ now ∷ []))

  pub stored-add :
      (now : ℕ) (ip j : String) (a : InviteAbuse)
      → stored j (add_invite_abuse_attempt simd now ip a).0
        ≡ ite
            (ip ≟ j)
            (keep (recent a.invite_abuse_window_seconds now) (stored ip a ++ now ∷ []))
            (stored j a)
  unfolding add_invite_abuse_attempt
  stored-add now ip j a =
      let r = Option.get_or (find ip a.invite_abuse_records) new_record in
      ground (
        arith,
        find-insert_or_assign ip j (record_attempt simd now a r) a.invite_abuse_records,
        failed_attempts-record_attempt now a r,
      )

  -- Failed attempts of any IPs, the oldest first.
  unfoldable pub run_failures : List (ℕ × String) → InviteAbuse → InviteAbuse
  run_failures [] a = a
  run_failures ((t, ip) ∷ rest) a = run_failures rest (add_invite_abuse_attempt simd t ip a).0

-- The times of one IP's attempts, the order of time, and the latest time.
unfoldable pub times_of : String → List (ℕ × String) → List ℕ
times_of ip [] = []
times_of ip ((t, j) ∷ rest) = ite (j ≟ ip) (t ∷ times_of ip rest) (times_of ip rest)

abbrev pub InOrder : ℕ → List (ℕ × String) → Type 0
InOrder t [] = Unit {0}
InOrder t ((u, ip) ∷ rest) = (t ≤ u) × InOrder u rest

abbrev pub latest : ℕ → List (ℕ × String) → ℕ
latest t [] = t
latest t ((u, ip) ∷ rest) = latest u rest

-- From the time `t` on, the stored attempts of the IP are as good as all of `xs`.
abbrev Tracks : ℕ → ℕ → List ℕ → List ℕ → Type 0
Tracks window t stored xs =
    (u : ℕ) → t ≤ u → keep (recent window u) stored ≡ keep (recent window u) xs

Tracks-add :
    (window t u : ℕ) (stored xs : List ℕ)
    → t ≤ u
    → Tracks window t stored xs
    → Tracks window u (keep (recent window u) (stored ++ u ∷ [])) (xs ++ u ∷ [])
Tracks-add window t u stored xs h k v g =
    keep-keep window u v (stored ++ u ∷ []) g
    ∙ keep-append (recent window v) stored (u ∷ [])
    ∙ ap (λ ys. ys ++ keep (recent window v) (u ∷ [])) (k v (omega arith))
    ∙ sym (keep-append (recent window v) xs (u ∷ []))

module _ (simd : RemoveIf) (ip : String) where
  settings-run_failures :
      (rest : List (ℕ × String)) (a : InviteAbuse)
      → ((run_failures simd rest a).invite_abuse_window_seconds ≡ a.invite_abuse_window_seconds)
        × ((run_failures simd rest a).invite_abuse_max_attempts ≡ a.invite_abuse_max_attempts)
  unfolding run_failures add_invite_abuse_attempt
  settings-run_failures [] a = (refl, refl)
  settings-run_failures ((t, j) ∷ rest) a =
      settings-run_failures rest (add_invite_abuse_attempt simd t j a).0

  -- One attempt, of this IP or of another.
  Tracks-step :
      (j : String) (u t : ℕ) (a : InviteAbuse) (xs : List ℕ)
      → t ≤ u
      → Tracks a.invite_abuse_window_seconds t (stored ip a) xs
      → Tracks a.invite_abuse_window_seconds u
          (stored ip (add_invite_abuse_attempt simd u j a).0)
          (xs ++ ite (j ≟ ip) (u ∷ []) [])
  Tracks-step j u t a xs h k = elim (j ≟ ip) [
    | yes hit ↦
        rw (if_pos (j ≟ ip) hit, stored-add simd u j ip a, if_pos (j ≟ ip) hit, hit)
          (Tracks-add a.invite_abuse_window_seconds t u (stored ip a) xs h k)
    | no miss ↦
        rw (if_neg (j ≟ ip) miss, stored-add simd u j ip a, if_neg (j ≟ ip) miss, append-nil xs)
          (λ v g. k v (omega arith))
  ]

  times_of-cons :
      (j : String) (u : ℕ) (rest : List (ℕ × String)) (xs : List ℕ)
      → (xs ++ ite (j ≟ ip) (u ∷ []) []) ++ times_of ip rest ≡ xs ++ times_of ip ((u, j) ∷ rest)
  unfolding times_of
  times_of-cons j u rest xs = elim (j ≟ ip) [
    | yes hit ↦
        rw (if_pos (j ≟ ip) hit, if_pos (j ≟ ip) hit) (append_assoc xs (u ∷ []) (times_of ip rest))
    | no miss ↦ rw (if_neg (j ≟ ip) miss, if_neg (j ≟ ip) miss, append-nil xs)
  ]

  Tracks-run_failures :
      (rest : List (ℕ × String)) (a : InviteAbuse) (t : ℕ) (xs : List ℕ)
      → InOrder t rest
      → Tracks a.invite_abuse_window_seconds t (stored ip a) xs
      → Tracks a.invite_abuse_window_seconds
          (latest t rest)
          (stored ip (run_failures simd rest a))
          (xs ++ times_of ip rest)
  unfolding run_failures add_invite_abuse_attempt
  Tracks-run_failures [] a t xs o k = unfold times_of in rw (append-nil xs) k
  Tracks-run_failures ((u, j) ∷ rest) a t xs o k =
      subst
        (Tracks a.invite_abuse_window_seconds (latest u rest)
          (stored ip (run_failures simd ((u, j) ∷ rest) a)))
        (times_of-cons j u rest xs)
        (Tracks-run_failures rest (add_invite_abuse_attempt simd u j a).0 u
          (xs ++ ite (j ≟ ip) (u ∷ []) []) o.1 (Tracks-step j u t a xs o.0 k))

  pub triggers-add :
      (now : ℕ) (a : InviteAbuse)
      → (add_invite_abuse_attempt simd now ip a).1
        ≡ leb a.invite_abuse_max_attempts
            (length (keep (recent a.invite_abuse_window_seconds now) (stored ip a ++ now ∷ [])))
  unfolding add_invite_abuse_attempt triggers_ban
  triggers-add now a =
      ap (λ xs. leb a.invite_abuse_max_attempts (length xs))
        (failed_attempts-record_attempt simd now a
          (Option.get_or (find ip a.invite_abuse_records) new_record))

  -- Over a chronological history of failed attempts of any IPs, beginning with no record of this
  -- one, its next attempt triggers a ban exactly when the attempts of this IP that are not older
  -- than the window, the new one included, reach the maximum.
  pub ban_exactly_at_maximum :
      (history : List (ℕ × String)) (now : ℕ) (a : InviteAbuse)
      → find ip a.invite_abuse_records ≡ none
      → InOrder 0 history
      → latest 0 history ≤ now
      → (add_invite_abuse_attempt simd now ip (run_failures simd history a)).1
        ≡ leb a.invite_abuse_max_attempts (
            length
              (keep (recent a.invite_abuse_window_seconds now) (times_of ip history ++ now ∷ [])))
  ban_exactly_at_maximum history now a fresh o l =
      triggers-add now b
      ∙ rw ((settings-run_failures history a).0, (settings-run_failures history a).1)
          (ap (λ xs. leb a.invite_abuse_max_attempts (length xs)) same_attempts)
    where
      b : InviteAbuse
      b = run_failures simd history a

      window : ℕ
      window = a.invite_abuse_window_seconds

      none_stored : stored ip a ≡ []
      none_stored = rw (fresh, stored)

      same_attempts :
          keep (recent window now) (stored ip b ++ now ∷ [])
          ≡ keep (recent window now) (times_of ip history ++ now ∷ [])
      same_attempts =
          keep-append (recent window now) (stored ip b) (now ∷ [])
          ∙ ap (λ ys. ys ++ keep (recent window now) (now ∷ []))
              (Tracks-run_failures history a 0 [] o (λ u g. ap (keep (recent window u)) none_stored)
                now l)
          ∙ sym (keep-append (recent window now) (times_of ip history) (now ∷ []))
