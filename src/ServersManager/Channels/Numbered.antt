-- ===== src/ServersManager/Channels/Numbered.antt =====
-- The positions that FServersManager gives to a list of channels, read back.
use squirrel_communicator.Prelude.{
  ℕ, suc, ◌≡◌, refl, ◌∙◌, Bool, true, not, ◌&&◌, is_yes, ◌≟◌, ite, some, List, [], ◌∷◌, arith, ltb,
  leb, is_some, nat_key, all_of, all_of-map, all_of-both, rises, Perm, all_of-Perm,
}
use squirrel_communicator.UnorderedMap.{UnorderedMap, find, has_key}
use squirrel_communicator.UnorderedMap.Unique.{IsUnique}
use squirrel_communicator.ServersManager.Channels.{number_from}
use mathlib.Core.List.{Permᴰ}
use mathlib.Core.Logic.{∥∥₁_elim}
use mathlib.Core.Option

unfoldable pub all_distinct : List ℕ → Bool
all_distinct [] = true
all_distinct (i ∷ ids) = not (has_key i ids) && all_distinct ids

-- The position that a channel gets, where it gets one.
abbrev pub position_in : UnorderedMap ℕ ℕ → ℕ → ℕ
position_in p k = Option.get_or (find k p) 0

pub find-number_from :
    (n k : ℕ) (ids : List ℕ) → is_some (find k (number_from n ids)) ≡ has_key k ids
unfolding find number_from has_key
find-number_from n k [] = refl
find-number_from n k (i ∷ ids) = ground (arith, find-number_from (suc n) k ids)

pub distinct_of_rest :
    (i : ℕ) (ids : List ℕ) → all_of (λ y. not (is_yes (i ≟ y))) ids ≡ not (has_key i ids)
unfolding all_of has_key
distinct_of_rest i [] = refl
distinct_of_rest i (j ∷ ids) = ground (arith, distinct_of_rest i ids)

pub number_from-IsUnique :
    (n : ℕ) (ids : List ℕ) → all_distinct ids ≡ true → IsUnique (number_from n ids)
unfolding number_from all_distinct
number_from-IsUnique n [] h = tt
number_from-IsUnique n (i ∷ ids) h = (
  ground (arith, find-number_from (suc n) i ids),
  number_from-IsUnique (suc n) ids (ground arith),
)

pub all_found :
    (n : ℕ) (ids : List ℕ) → all_of (λ k. is_some (find k (number_from n ids))) ids ≡ true
unfolding all_of number_from find
all_found n [] = refl
all_found n (i ∷ ids) = ground (
  arith,
  all_of-map (λ k. is_some (find k (number_from (suc n) ids)))
      (λ k. is_some (ite (i ≟ k) (some n) (find k (number_from (suc n) ids)))) ids
      (λ k h. ground arith) (all_found (suc n) ids),
)

-- Positions count up from the first one.
positions_from :
    (n : ℕ) (ids : List ℕ) → all_of (λ k. leb n (position_in (number_from n ids) k)) ids ≡ true
unfolding all_of number_from find
positions_from n [] = refl
positions_from n (i ∷ ids) =
    let p = number_from (suc n) ids in
    ground (
      arith,
      all_of-map (λ k. leb (suc n) (position_in p k))
          (λ k. leb n (Option.get_or (ite (i ≟ k) (some n) (find k p)) 0)) ids (λ k h. ground arith)
          (positions_from (suc n) ids),
    )

-- An entry in front does not matter to the ranks of other keys.
rises_behind :
    (i n : ℕ) (p : UnorderedMap ℕ ℕ) (ids : List ℕ)
    → all_of (λ y. not (is_yes (i ≟ y))) ids ≡ true
    → rises (position_in p) ids ≡ true
    → rises (λ k. Option.get_or (ite (i ≟ k) (some n) (find k p)) 0) ids ≡ true
unfolding rises all_of
rises_behind i n p [] h r = refl
rises_behind i n p (j ∷ ids) h r =
    let rank = λ (k : ℕ). Option.get_or (ite (i ≟ k) (some n) (find k p)) 0 in
    ground (
      arith,
      all_of-map (λ y. not (is_yes (i ≟ y)) && ltb (position_in p j) (position_in p y))
          (λ y. ltb (rank j) (rank y)) ids (λ y k. ground arith)
          (all_of-both (λ y. not (is_yes (i ≟ y))) (λ y. ltb (position_in p j) (position_in p y))
            ids (ground arith) (ground arith)),
      rises_behind i n p ids,
    )

pub rises-number_from :
    (n : ℕ) (ids : List ℕ)
    → all_distinct ids ≡ true
    → rises (position_in (number_from n ids)) ids ≡ true
unfolding rises number_from all_distinct find
rises-number_from n [] h = refl
rises-number_from n (i ∷ ids) h =
    let p = number_from (suc n) ids in
    let rank = λ (k : ℕ). Option.get_or (ite (i ≟ k) (some n) (find k p)) 0 in
    let others : all_of (λ y. not (is_yes (i ≟ y))) ids ≡ true =
      ground (arith, distinct_of_rest i ids) in
    ground (
      arith,
      all_of-map (λ y. not (is_yes (i ≟ y)) && leb (suc n) (position_in p y)) (λ y. ltb n (rank y))
          ids (λ y k. ground arith)
          (all_of-both (λ y. not (is_yes (i ≟ y))) (λ y. leb (suc n) (position_in p y)) ids others
            (positions_from (suc n) ids)),
      rises_behind i n p ids others (rises-number_from (suc n) ids (ground arith)),
    )

all_distinct-Permᴰ : {xs ys : List ℕ} → Permᴰ xs ys → all_distinct xs ≡ all_distinct ys
unfolding all_distinct has_key
all_distinct-Permᴰ Permᴰ.nil = refl
all_distinct-Permᴰ (Permᴰ.cons {a} {b} {l₁} {l₂} e d) = ground (
  arith,
  e,
  all_distinct-Permᴰ d,
  distinct_of_rest b l₁,
  distinct_of_rest b l₂,
  all_of-Perm (λ y. not (is_yes (b ≟ y))) ∣ d ∣₁,
)
all_distinct-Permᴰ (Permᴰ.swap e f) = ground (arith, e, f)
all_distinct-Permᴰ (Permᴰ.trans d e) = all_distinct-Permᴰ d ∙ all_distinct-Permᴰ e

pub all_distinct-Perm : {xs ys : List ℕ} → Perm xs ys → all_distinct xs ≡ all_distinct ys
all_distinct-Perm d = ∥∥₁_elim d (hlevel) all_distinct-Permᴰ
