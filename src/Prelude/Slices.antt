-- ===== src/Prelude/Slices.antt =====
-- Slices of lists: the elements from an offset on, up to a limit.
use Prim.Native.Nat.{ℕ, zero, suc, ◌+◌, ◌-◌, ◌≤◌}
use mathlib.Core.Path.{◌≡◌, refl, sym, ap, ◌∙◌}
use mathlib.Core.List.{List, [], ◌∷◌, ◌++◌, map}
use native.Mathlib.Omega.{arith}
use squirrel_communicator.Prelude.Lists.{take, drop, length, length-drop}

module _ {ℓ} {A : Type ℓ} where
  pub length-take : (n : ℕ) (xs : List A) → length (take n xs) ≡ n - (n - length xs)
  length-take zero xs = omega arith
  length-take (suc n) [] = omega arith
  length-take (suc n) (x ∷ xs) = omega (arith, length-take n xs)

  abbrev pub nil : List A
  nil = []

  pub take-nil : (n : ℕ) → take n nil ≡ nil
  take-nil zero = refl
  take-nil (suc n) = refl

  pub take-all : (n : ℕ) (xs : List A) → length xs ≤ n → take n xs ≡ xs
  take-all zero [] h = refl
  take-all zero (x ∷ xs) h = absurd (omega arith)
  take-all (suc n) [] h = refl
  take-all (suc n) (x ∷ xs) h = ap (◌∷◌ x) (take-all n xs (omega arith))

  pub drop-all : (n : ℕ) (xs : List A) → length xs ≤ n → drop n xs ≡ []
  drop-all zero [] h = refl
  drop-all zero (x ∷ xs) h = absurd (omega arith)
  drop-all (suc n) [] h = refl
  drop-all (suc n) (x ∷ xs) h = drop-all n xs (omega arith)

  pub slice-past :
      (offset limit : ℕ) (xs : List A) → length xs ≤ offset → take limit (drop offset xs) ≡ []
  slice-past offset limit xs h = rw (drop-all offset xs h) (take-nil limit)

  pub slice-rest :
      (offset limit : ℕ) (xs : List A)
      → length xs - offset ≤ limit
      → take limit (drop offset xs) ≡ drop offset xs
  slice-rest offset limit xs h =
      take-all limit (drop offset xs) (omega (arith, length-drop offset xs))

  -- A slice of a prefix is a slice of the whole.
  pub slice-take :
      (offset count n : ℕ) (xs : List A)
      → offset + count ≤ n
      → take count (drop offset (take n xs)) ≡ take count (drop offset xs)
  slice-take zero zero n xs h = refl
  slice-take zero (suc count) zero xs h = absurd (omega arith)
  slice-take zero (suc count) (suc n) [] h = refl
  slice-take zero (suc count) (suc n) (x ∷ xs) h =
      ap (◌∷◌ x) (slice-take zero count n xs (omega arith))
  slice-take (suc offset) count zero xs h = absurd (omega arith)
  slice-take (suc offset) count (suc n) [] h = refl
  slice-take (suc offset) count (suc n) (x ∷ xs) h = slice-take offset count n xs (omega arith)

  -- A prefix and the slice that follows it
  pub take-then : (n k : ℕ) (xs : List A) → take n xs ++ take k (drop n xs) ≡ take (n + k) xs
  take-then zero k xs = ap (λ j. take j xs) (omega arith)
  take-then (suc n) k [] = take-nil k ∙ sym (take-nil (suc n + k))
  take-then (suc n) k (x ∷ xs) =
      let e : suc n + k ≡ suc (n + k) = omega arith in
      ap (◌∷◌ x) (take-then n k xs) ∙ sym (ap (λ j. take j (x ∷ xs)) e)

module _ {ℓ κ} {A : Type ℓ} {B : Type κ} (f : A → B) where
  pub map-take : (n : ℕ) (xs : List A) → map f (take n xs) ≡ take n (map f xs)
  map-take zero xs = refl
  map-take (suc n) [] = refl
  map-take (suc n) (x ∷ xs) = ap (◌∷◌ (f x)) (map-take n xs)

  pub map-drop : (n : ℕ) (xs : List A) → map f (drop n xs) ≡ drop n (map f xs)
  map-drop zero xs = refl
  map-drop (suc n) [] = refl
  map-drop (suc n) (x ∷ xs) = map-drop n xs
