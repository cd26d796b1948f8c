-- ===== src/UnorderedMap/Unique.antt =====
-- The keys of a `std::unordered_map` are unique, and every operation keeps them so. With unique
-- keys a walk over the entries meets for each key the value that `find` returns.
use squirrel_communicator.Prelude.{
  ◌≡◌, refl, some, none, List, [], ◌∷◌, arith, Key, Bool, false, Option,
}
use squirrel_communicator.UnorderedMap.{
  UnorderedMap, find, insert_or_assign, erase, erase_all, emplace, modify, select_keys, map_values,
  find-insert_or_assign, find-erase, find-modify, find-map_values, has_key,
}

abbrev pub IsUnique {ℓ} : {K V : Type ℓ} ⦃key : Key K⦄ → UnorderedMap K V → Type ℓ
IsUnique [] = Unit
IsUnique ((k, v) ∷ m) = (find k m ≡ none) × IsUnique m

-- There is a value, and it passes the test.
abbrev pub passes {ℓ} : {V : Type ℓ} → (V → Bool) → Option V → Bool
passes p none = false
passes p (some v) = p v

module _ {ℓ} {K V : Type ℓ} ⦃key : Key K⦄ where
  pub insert_or_assign-IsUnique :
      (k : K) (v : V) (m : UnorderedMap K V) → IsUnique m → IsUnique (insert_or_assign k v m)
  unfolding insert_or_assign find
  insert_or_assign-IsUnique k v [] u = (refl, tt)
  insert_or_assign-IsUnique k v ((j, w) ∷ m) u =
      ground (arith, find-insert_or_assign k j v m, insert_or_assign-IsUnique k v m)

  pub emplace-IsUnique :
      (k : K) (v : V) (m : UnorderedMap K V) → IsUnique m → IsUnique (emplace k v m)
  unfolding emplace
  emplace-IsUnique k v m u = ground (arith, insert_or_assign-IsUnique k v m)

  pub erase-IsUnique : (k : K) (m : UnorderedMap K V) → IsUnique m → IsUnique (erase k m)
  unfolding erase
  erase-IsUnique k [] u = tt
  erase-IsUnique k ((j, w) ∷ m) u = ground (arith, find-erase k j m, erase-IsUnique k m)

  pub erase-absent : (k : K) (m : UnorderedMap K V) → find k m ≡ none → erase k m ≡ m
  unfolding erase find
  erase-absent k [] h = refl
  erase-absent k ((j, w) ∷ m) h = ground (arith, erase-absent k m)

  pub modify-IsUnique :
      (k : K) (f : V → V) (m : UnorderedMap K V) → IsUnique m → IsUnique (modify k f m)
  unfolding modify
  modify-IsUnique k f [] u = tt
  modify-IsUnique k f ((j, w) ∷ m) u = ground (arith, find-modify k j f m, modify-IsUnique k f m)

  pub map_values-IsUnique :
      (f : V → V) (m : UnorderedMap K V) → IsUnique m → IsUnique (map_values f m)
  unfolding map_values
  map_values-IsUnique f [] u = tt
  map_values-IsUnique f ((j, w) ∷ m) u =
      ground (arith, find-map_values f j m, map_values-IsUnique f m)

  pub erase_all-IsUnique :
      (ks : List K) (m : UnorderedMap K V) → IsUnique m → IsUnique (erase_all ks m)
  unfolding erase_all
  erase_all-IsUnique [] m u = u
  erase_all-IsUnique (k ∷ ks) m u = erase_all-IsUnique ks (erase k m) (erase-IsUnique k m u)

  -- A key is among the selected ones exactly when its own value passes the test.
  pub has_key-select_keys :
      (p : K → V → Bool) (k : K) (m : UnorderedMap K V)
      → IsUnique m
      → has_key k (select_keys p m) ≡ passes (p k) (find k m)
  unfolding has_key select_keys find
  has_key-select_keys p k [] u = refl
  has_key-select_keys p k ((j, v) ∷ m) u = ground (arith, has_key-select_keys p k m)

-- The operations that keep keys unique, for `search`.
pub ruleset keeps_unique = (
  insert_or_assign-IsUnique, emplace-IsUnique, erase-IsUnique, modify-IsUnique, map_values-IsUnique,
  erase_all-IsUnique,
)
