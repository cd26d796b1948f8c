-- ===== src/RateLimiter/Interleaving.antt =====
-- Concurrent calls of FRateLimitObject::AddAttempt: each is one or two critical sections, and other
-- calls may run between the two.
use squirrel_communicator.Prelude.{
  ℕ, zero, suc, String, ◌≡◌, refl, Option, none, some, List, [], ◌∷◌, ap, ◌∙◌, arith, ite, ◌≟◌,
  string_key, Option-cases, inl, inr, sym,
}
use squirrel_communicator.UnorderedMap.{find, find-modify}
use squirrel_communicator.RateLimiter.{
  RateLimitObject, empty, increment, try_increment, increment_or_insert,
}
use squirrel_communicator.RateLimiter.Counts.{
  entry_after, occurrences, add_attempts, bump, bump-entry_after, find-increment_or_insert,
  find-add_attempts,
}

-- The object, the keys of the calls that stand between their two sections, and those of the calls
-- that have returned, the latest first.
pub record Calls : Type 0 where
  pub object : RateLimitObject
  pub waiting : List String
  pub returned : List String

-- A call begins with its first section; the waiting call at an index runs its second one.
pub data Section : Type 0 where
  begin : String → Section
  finish : ℕ → Section

abbrev pub take_at : ℕ → List String → Option (String × List String)
take_at i [] = none
take_at zero (k ∷ ks) = some (k, ks)
take_at (suc i) (k ∷ ks) = elim (take_at i ks) [ none ↦ none | some (j, rest) ↦ some (j, k ∷ rest) ]

unfoldable pub run_section : Section → Calls → Calls
run_section (begin k) c = elim (try_increment k c.object) [
  | some o ↦ record c { object = o; returned = k ∷ c.returned }
  | none ↦ record c { waiting = k ∷ c.waiting }
]
run_section (finish i) c = elim (take_at i c.waiting) [
  | some (k, rest) ↦ record {
    object = increment_or_insert k c.object;
    waiting = rest;
    returned = k ∷ c.returned;
  }
  | none ↦ c
]

unfoldable pub run_sections : List Section → Calls → Calls
run_sections [] c = c
run_sections (s ∷ ss) c = run_sections ss (run_section s c)

unfoldable pub idle : Calls
unfolding empty
idle = record { object = empty; waiting = []; returned = [] }

-- Every counter stands for the calls that have returned.
abbrev IsExact : Calls → Type 0
IsExact c = (k : String) → find k c.object.rate_limit_map ≡ entry_after (occurrences k c.returned)

find-try_increment :
    (j k : String) (o o' : RateLimitObject)
    → try_increment j o ≡ some o'
    → find k o'.rate_limit_map
      ≡ ite (j ≟ k) (bump (find j o.rate_limit_map)) (find k o.rate_limit_map)
unfolding try_increment
find-try_increment j k o o' e = ground (arith, find-modify j k increment o.rate_limit_map)

-- One more call for `j` has returned.
count_one :
    (j k : String) (returned : List String) (before after : RateLimitObject)
    → ((i : String) → find i before.rate_limit_map ≡ entry_after (occurrences i returned))
    → find k after.rate_limit_map
      ≡ ite (j ≟ k) (bump (find j before.rate_limit_map)) (find k before.rate_limit_map)
    → find k after.rate_limit_map ≡ entry_after (occurrences k (j ∷ returned))
unfolding occurrences
count_one j k returned before after h e =
    ground (arith, h j, h k, bump-entry_after (occurrences k returned))

run_section-IsExact : (s : Section) (c : Calls) → IsExact c → IsExact (run_section s c)
unfolding run_section
run_section-IsExact (begin j) c h k = elim (Option-cases (try_increment j c.object)) [
  | inl e ↦ rw (e, run_section) (h k)
  | inr (o, e) ↦
      rw (e, run_section)
        (count_one j k c.returned c.object o h (find-try_increment j k c.object o e))
]
run_section-IsExact (finish i) c h k = elim (Option-cases (take_at i c.waiting)) [
  | inl e ↦ rw (e, run_section) (h k)
  | inr (r, e) ↦
      rw (e, run_section)
        (count_one r.0 k c.returned c.object (increment_or_insert r.0 c.object) h
          (find-increment_or_insert r.0 k c.object))
]

run_sections-IsExact : (ss : List Section) (c : Calls) → IsExact c → IsExact (run_sections ss c)
unfolding run_sections
run_sections-IsExact [] c h = h
run_sections-IsExact (s ∷ ss) c h =
    run_sections-IsExact ss (run_section s c) (run_section-IsExact s c h)

-- However the sections of concurrent calls interleave, no attempt is lost or counted twice: the
-- counters are those of the returned calls, run one after another.
pub interleaved-eq-sequential :
    (ss : List Section) (k : String)
    → let c = run_sections ss idle in
      find k c.object.rate_limit_map ≡ find k (add_attempts c.returned empty).rate_limit_map
unfolding empty idle find occurrences
interleaved-eq-sequential ss k =
    run_sections-IsExact ss idle (λ i. refl) k
    ∙ sym (
        find-add_attempts (run_sections ss idle).returned k empty 0 refl
        ∙ ap entry_after (omega arith))
