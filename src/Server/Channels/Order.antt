-- ===== src/Server/Channels/Order.antt =====
-- The display order of channels: what sorting by a rank gives, and on what it depends.
use squirrel_communicator.Prelude.{
  IsSortedBy, ℕ, ◌≡◌, refl, ap, ◌∙◌, List, [], ◌∷◌, map, arith, leb, All, Bool-cases, inl, inr,
}
use squirrel_communicator.Server.Channels.{insert_by, sort_by}
use mathlib.Core.List.{Perm}
use mathlib.Core.List.Perm

module _ {ℓ} {A : Type ℓ} (rank : A → ℕ) where
  insert_by-IsSortedBy :
      (a : A) (xs : List A) → IsSortedBy rank xs → IsSortedBy rank (insert_by rank a xs)
  unfolding insert_by
  insert_by-IsSortedBy a [] s = tt
  insert_by-IsSortedBy a (x ∷ []) s = ground arith
  insert_by-IsSortedBy a (x ∷ y ∷ xs) s = ground (arith, insert_by-IsSortedBy a (y ∷ xs) s.1)

  pub sort_by-IsSortedBy : (xs : List A) → IsSortedBy rank (sort_by rank xs)
  unfolding sort_by
  sort_by-IsSortedBy [] = tt
  sort_by-IsSortedBy (x ∷ xs) = insert_by-IsSortedBy x (sort_by rank xs) (sort_by-IsSortedBy xs)

  insert_by-perm : (a : A) (xs : List A) → Perm (insert_by rank a xs) (a ∷ xs)
  unfolding insert_by
  insert_by-perm a [] = Perm.refl (a ∷ [])
  insert_by-perm a (x ∷ xs) = elim (Bool-cases (leb (rank a) (rank x))) [
    | inl e ↦ rw (e, insert_by) (Perm.refl (a ∷ x ∷ xs))
    | inr e ↦ rw (e, insert_by) (Perm.trans (Perm.cons x (insert_by-perm a xs)) (Perm.swap a x xs))
  ]

  pub sort_by-perm : (xs : List A) → Perm (sort_by rank xs) xs
  unfolding sort_by
  sort_by-perm [] = Perm.refl []
  sort_by-perm (x ∷ xs) =
      Perm.trans (insert_by-perm x (sort_by rank xs)) (Perm.cons x (sort_by-perm xs))

  insert_by-All {κ} :
      (P : A → Type κ) (a : A) (xs : List A) → P a → All P xs → All P (insert_by rank a xs)
  unfolding insert_by
  insert_by-All P a [] p h = (p, tt)
  insert_by-All P a (x ∷ xs) p h = elim (Bool-cases (leb (rank a) (rank x))) [
    | inl e ↦ rw (e, insert_by) (p, h)
    | inr e ↦ rw (e, insert_by) (h.0, insert_by-All P a xs p h.1)
  ]

  pub sort_by-All {κ} : (P : A → Type κ) (xs : List A) → All P xs → All P (sort_by rank xs)
  unfolding sort_by
  sort_by-All P [] h = tt
  sort_by-All P (x ∷ xs) h = insert_by-All P x (sort_by rank xs) h.0 (sort_by-All P xs h.1)

-- Sorting looks at nothing but the ranks.
module _ {ℓ κ} {A : Type ℓ} {B : Type κ} (f : A → B) (rank : B → ℕ) where
  map-insert_by :
      (a : A) (xs : List A)
      → map f (insert_by (λ x. rank (f x)) a xs) ≡ insert_by rank (f a) (map f xs)
  unfolding insert_by
  map-insert_by a [] = refl
  map-insert_by a (x ∷ xs) = elim (Bool-cases (leb (rank (f a)) (rank (f x)))) [
    | inl e ↦ rw (e, insert_by)
    | inr e ↦ rw (e, insert_by) (ap (◌∷◌ (f x)) (map-insert_by a xs))
  ]

  pub map-sort_by : (xs : List A) → map f (sort_by (λ x. rank (f x)) xs) ≡ sort_by rank (map f xs)
  unfolding sort_by
  map-sort_by [] = refl
  map-sort_by (x ∷ xs) =
      map-insert_by x (sort_by (λ x. rank (f x)) xs) ∙ ap (insert_by rank (f x)) (map-sort_by xs)
