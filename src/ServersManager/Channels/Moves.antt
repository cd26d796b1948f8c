-- ===== src/ServersManager/Channels/Moves.antt =====
-- What std::vector's erase and insert do to the order of channels in MoveChannel.
use squirrel_communicator.Prelude.{
  ℕ, zero, suc, ◌-◌, ◌≤◌, ◌<◌, ◌≡◌, refl, subst, ◌∙◌, not, is_yes, ◌≟◌, Option, none, some, List,
  [], ◌∷◌, arith, leb, if◌then◌else◌, length, keep, nat_key, Perm, Option-cases, Bool-cases, ◌==◌,
  ap, inl, inr,
}
use squirrel_communicator.ServersManager.Channels.{erase_at, insert_at, index_of, moved}
use mathlib.Core.List.Perm

-- The element at an index
abbrev pub get_elem? : List ℕ → ℕ → Option ℕ
get_elem? [] n = none
get_elem? (x ∷ xs) zero = some x
get_elem? (x ∷ xs) (suc n) = get_elem? xs n

insert_at-Perm : (n a : ℕ) (xs : List ℕ) → Perm (insert_at n a xs) (a ∷ xs)
unfolding insert_at
insert_at-Perm zero a xs = Perm.refl (a ∷ xs)
insert_at-Perm (suc n) a [] = Perm.refl (a ∷ [])
insert_at-Perm (suc n) a (x ∷ xs) =
    Perm.trans (Perm.cons x (insert_at-Perm n a xs)) (Perm.swap a x xs)

first_is : (id x : ℕ) (xs : List ℕ) → index_of id (x ∷ xs) ≡ some 0 → id ≡ x
unfolding index_of
first_is id x xs h = elim (Option-cases (index_of id xs)) [
  | inl e ↦ ground arith
  | inr (i, e) ↦ ground arith
]

erase_at-Perm : (id n : ℕ) (xs : List ℕ) → index_of id xs ≡ some n → Perm (id ∷ erase_at n xs) xs
unfolding index_of erase_at
erase_at-Perm id n [] h = cc
erase_at-Perm id zero (x ∷ xs) h =
    subst (λ z. Perm (id ∷ xs) (z ∷ xs)) (first_is id x xs h) (Perm.refl (id ∷ xs))
erase_at-Perm id (suc n) (x ∷ xs) h = elim (Option-cases (index_of id xs)) [
  | inl e ↦ absurd (ground arith)
  | inr (i, e) ↦
      Perm.trans (Perm.swap x id (erase_at n xs))
        (Perm.cons x (erase_at-Perm id n xs (ground arith)))
]

pub moved-Perm :
    (id old to : ℕ) (xs : List ℕ) → index_of id xs ≡ some old → Perm (moved id old to xs) xs
unfolding moved
moved-Perm id old to xs h =
    Perm.trans (insert_at-Perm to id (erase_at old xs)) (erase_at-Perm id old xs h)

-- The others
abbrev pub others : ℕ → List ℕ → List ℕ
others id = keep (λ x. not (is_yes (x ≟ id)))

others-insert_at : (n id : ℕ) (xs : List ℕ) → others id (insert_at n id xs) ≡ others id xs
unfolding insert_at keep
others-insert_at zero id xs = ground arith
others-insert_at (suc n) id [] = ground arith
others-insert_at (suc n) id (x ∷ xs) = ground (arith, others-insert_at n id xs)

others-erase_at :
    (id n : ℕ) (xs : List ℕ) → index_of id xs ≡ some n → others id (erase_at n xs) ≡ others id xs
unfolding index_of erase_at keep
others-erase_at id n [] h = cc
others-erase_at id zero (x ∷ xs) h = elim (Option-cases (index_of id xs)) [
  | inl e ↦ ground arith
  | inr (i, e) ↦ ground arith
]
others-erase_at id (suc n) (x ∷ xs) h = elim (Option-cases (index_of id xs)) [
  | inl e ↦ ground arith
  | inr (i, e) ↦ ground (arith, others-erase_at id n xs)
]

get_elem?-insert_at :
    (n id : ℕ) (xs : List ℕ) → n ≤ length xs → get_elem? (insert_at n id xs) n ≡ some id
unfolding insert_at
get_elem?-insert_at zero id xs h = refl
get_elem?-insert_at (suc n) id [] h = absurd (omega arith)
get_elem?-insert_at (suc n) id (x ∷ xs) h = get_elem?-insert_at n id xs (omega arith)

pub length-erase_at :
    (id n : ℕ) (xs : List ℕ) → index_of id xs ≡ some n → suc (length (erase_at n xs)) ≡ length xs
unfolding index_of erase_at
length-erase_at id n [] h = cc
length-erase_at id zero (x ∷ xs) h = refl
length-erase_at id (suc n) (x ∷ xs) h = elim (Option-cases (index_of id xs)) [
  | inl e ↦ ground arith
  | inr (i, e) ↦ ground (arith, length-erase_at id n xs)
]

pub get_elem?-index_of :
    (id n : ℕ) (xs : List ℕ) → index_of id xs ≡ some n → get_elem? xs n ≡ some id
unfolding index_of
get_elem?-index_of id n [] h = cc
get_elem?-index_of id zero (x ∷ xs) h = elim (Option-cases (index_of id xs)) [
  | inl e ↦ ground arith
  | inr (i, e) ↦ ground arith
]
get_elem?-index_of id (suc n) (x ∷ xs) h = elim (Option-cases (index_of id xs)) [
  | inl e ↦ ground arith
  | inr (i, e) ↦ ground (arith, get_elem?-index_of id n xs)
]

-- The channel stands at its new index, and the others are in the order in which they were.
pub moved_lem :
    (id old to : ℕ) (xs : List ℕ)
    → index_of id xs ≡ some old
    → to < length xs
    → (get_elem? (moved id old to xs) to ≡ some id)
      × (others id (moved id old to xs) ≡ others id xs)
unfolding moved
moved_lem id old to xs h l = (
  get_elem?-insert_at to id (erase_at old xs) (omega (arith, length-erase_at id old xs h)),
  others-insert_at to id (erase_at old xs) ∙ others-erase_at id old xs h,
)

-- The same where the channel is left alone if it stands there already.
pub moved_or_left :
    (id old to : ℕ) (xs : List ℕ)
    → index_of id xs ≡ some old
    → to < length xs
    → let after = if old == to then xs else moved id old to xs in
      (get_elem? after to ≡ some id) × (others id after ≡ others id xs)
moved_or_left id old to xs h l = elim (Bool-cases (old == to)) [
  | inl e ↦ rw e (ap (get_elem? xs) (ground arith) ∙ get_elem?-index_of id old xs h, refl)
  | inr e ↦ rw e (moved_lem id old to xs h l)
]

-- A clamped index is one of the list's.
pub clamp-lt :
    (id old n : ℕ) (xs : List ℕ)
    → index_of id xs ≡ some old
    → (if leb (length xs) n then length xs - 1 else n) < length xs
clamp-lt id old n xs h = ground (arith, length-erase_at id old xs)
