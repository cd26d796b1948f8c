-- ===== src/Prelude/Rearranged.antt =====
-- Lists of keys that are rearrangements of one another, by Boolean tests.
use Prim.Native.Nat.{ℕ, suc, ◌≤◌}
use mathlib.Core.Path.{◌≡◌, refl, sym, ap, subst, ◌∙◌}
use mathlib.Core.Logic.{∥∥₁_elim}
use mathlib.Core.Bool.{Bool, true, not, ◌&&◌}
use mathlib.Core.List.{List, [], ◌∷◌, map, Perm, Permᴰ}
use mathlib.Core.List.Perm
use native.Mathlib.Omega.{arith}
use squirrel_communicator.Prelude.Lists.{length}
use squirrel_communicator.Prelude.Keys.{◌≟◌, is_yes, nat_key}
use squirrel_communicator.Prelude.Tests.{ltb, leb}

unfoldable pub all_of {ℓ} : {A : Type ℓ} → (A → Bool) → List A → Bool
all_of p [] = true
all_of p (x ∷ xs) = p x && all_of p xs

pub all_of-map {ℓ} :
    {A : Type ℓ} (p q : A → Bool) (xs : List A)
    → ((x : A) → p x ≡ true → q x ≡ true)
    → all_of p xs ≡ true
    → all_of q xs ≡ true
unfolding all_of
all_of-map p q [] f h = refl
all_of-map p q (x ∷ xs) f h = ground (arith, f x, all_of-map p q xs f)

pub all_of-both {ℓ} :
    {A : Type ℓ} (p q : A → Bool) (xs : List A)
    → all_of p xs ≡ true
    → all_of q xs ≡ true
    → all_of (λ x. p x && q x) xs ≡ true
unfolding all_of
all_of-both p q [] h k = refl
all_of-both p q (x ∷ xs) h k = ground (arith, all_of-both p q xs)

all_of-Permᴰ {ℓ} :
    {A : Type ℓ} (p : A → Bool) {xs ys : List A} → Permᴰ xs ys → all_of p xs ≡ all_of p ys
unfolding all_of
all_of-Permᴰ p Permᴰ.nil = refl
all_of-Permᴰ p (Permᴰ.cons e d) = ground (arith, ap p e, all_of-Permᴰ p d)
all_of-Permᴰ p (Permᴰ.swap e f) = ground (arith, ap p e, ap p f)
all_of-Permᴰ p (Permᴰ.trans d e) = all_of-Permᴰ p d ∙ all_of-Permᴰ p e

pub all_of-Perm {ℓ} :
    {A : Type ℓ} (p : A → Bool) {xs ys : List A} → Perm xs ys → all_of p xs ≡ all_of p ys
all_of-Perm p d = ∥∥₁_elim d (hlevel) (all_of-Permᴰ p)

-- Ranks rise along the list.
unfoldable pub rises {ℓ} : {A : Type ℓ} → (A → ℕ) → List A → Bool
unfolding all_of
rises rank [] = true
rises rank (x ∷ xs) = all_of (λ y. ltb (rank x) (rank y)) xs && rises rank xs

-- Ranks do not fall along the list.
abbrev pub IsSortedBy {ℓ} : {A : Type ℓ} → (A → ℕ) → List A → Type 0
IsSortedBy rank [] = Unit {0}
IsSortedBy rank (x ∷ []) = Unit {0}
IsSortedBy rank (x ∷ y ∷ xs) = (rank x ≤ rank y) × IsSortedBy rank (y ∷ xs)

head_least {ℓ} :
    {A : Type ℓ} (rank : A → ℕ) (x : A) (xs : List A)
    → IsSortedBy rank (x ∷ xs)
    → all_of (λ y. leb (rank x) (rank y)) xs ≡ true
unfolding all_of
head_least rank x [] s = refl
head_least rank x (y ∷ xs) s = ground (
  arith,
  s.0,
  all_of-map (λ z. leb (rank y) (rank z)) (λ z. leb (rank x) (rank z)) xs
      (λ z h. ground (arith, s.0)) (head_least rank y xs s.1),
)

tail_sorted {ℓ} :
    {A : Type ℓ} (rank : A → ℕ) (x : A) (xs : List A)
    → IsSortedBy rank (x ∷ xs)
    → IsSortedBy rank xs
tail_sorted rank x [] s = tt
tail_sorted rank x (y ∷ xs) s = s.1

-- The first elements of two rearranged lists, one sorted and the other rising, are the same.
same_head :
    (rank : ℕ → ℕ) (x y : ℕ) (xs ys : List ℕ)
    → IsSortedBy rank (x ∷ xs)
    → rises rank (y ∷ ys) ≡ true
    → Perm (x ∷ xs) (y ∷ ys)
    → x ≡ y
unfolding all_of rises
same_head rank x y xs ys s r p = elim (x ≟ y) [
  | yes e ↦ e
  | no n ↦ absurd (
      ground (
        arith,
        n,
        all_of-Perm (λ z. leb (rank x) (rank z)) p,
        head_least rank x xs s,
        all_of-Perm (λ z. not (is_yes (x ≟ z))) p,
        all_of-map (λ z. ltb (rank y) (rank z)) (λ z. not (is_yes (x ≟ z))) ys later,
      ))
]
  where
    x_least : rank x ≤ rank y
    x_least = ground (arith, all_of-Perm (λ z. leb (rank x) (rank z)) p, head_least rank x xs s)

    later : (z : ℕ) → ltb (rank y) (rank z) ≡ true → not (is_yes (x ≟ z)) ≡ true
    later z h = elim (x ≟ z) [
      | yes e ↦ absurd (ground (arith, x_least, ap rank e))
      | no n ↦ ground (arith, n)
    ]

-- Of all rearrangements of a list along which ranks rise, that list is the only sorted one.
pub sorted_unique :
    (rank : ℕ → ℕ) (xs ys : List ℕ)
    → IsSortedBy rank xs
    → rises rank ys ≡ true
    → Perm xs ys
    → xs ≡ ys
unfolding rises
sorted_unique rank [] ys s r p = Perm.nil-eq p
sorted_unique rank (x ∷ xs) [] s r p = Perm.eq-nil p
sorted_unique rank (x ∷ xs) (y ∷ ys) s r p =
    let e = same_head rank x y xs ys s r p in
    cc (
      e,
      sorted_unique rank xs ys (tail_sorted rank x xs s) (ground (arith, r))
          (Perm.cons_inv {a = x} (subst (λ z. Perm (x ∷ xs) (z ∷ ys)) (sym e) p)),
    )

length-Permᴰ {ℓ} : {A : Type ℓ} {xs ys : List A} → Permᴰ xs ys → length xs ≡ length ys
length-Permᴰ Permᴰ.nil = refl
length-Permᴰ (Permᴰ.cons e d) = ap suc (length-Permᴰ d)
length-Permᴰ (Permᴰ.swap e f) = refl
length-Permᴰ (Permᴰ.trans d e) = length-Permᴰ d ∙ length-Permᴰ e

pub length-Perm {ℓ} : {A : Type ℓ} {xs ys : List A} → Perm xs ys → length xs ≡ length ys
length-Perm d = ∥∥₁_elim d (hlevel) length-Permᴰ

pub length-map {ℓ κ} :
    {A : Type ℓ} {B : Type κ} (f : A → B) (xs : List A) → length (map f xs) ≡ length xs
length-map f [] = refl
length-map f (x ∷ xs) = ap suc (length-map f xs)
