-- ===== src/UnorderedMap.antt =====
-- `std::unordered_map` and the engine's `CUnorderedMap` over it
-- (ProjectServer/Source/Utils/EngineCompat.h) as an association list. The order of the list stands
-- for the map's unspecified iteration order; keys are unique (UnorderedMap/Unique.antt).
pub mod Unique
use squirrel_communicator.Prelude.{
  ◌≡◌, refl, Bool, false, ◌||◌, is_yes, Option, none, some, List, [], ◌∷◌, arith, Key, ◌≟◌, ite,
  is_some, if◌then◌else◌,
}
use mathlib.Core.Option

abbrev pub UnorderedMap {ℓ} : Type ℓ → Type ℓ → Type ℓ
UnorderedMap K V = List (K × V)

module _ {ℓ} {K V : Type ℓ} ⦃key : Key K⦄ where
  -- m.find(k), with the value that the iterator points to; FindValueByKey
  unfoldable pub find : K → UnorderedMap K V → Option V
  find k [] = none
  find k ((j, v) ∷ m) = ite (j ≟ k) (some v) (find k m)

  -- m.contains(k); ContainsKey
  unfoldable pub contains : K → UnorderedMap K V → Bool
  unfolding find
  contains k m = is_some (find k m)

  -- m[k] = v; insert_or_assign
  unfoldable pub insert_or_assign : K → V → UnorderedMap K V → UnorderedMap K V
  insert_or_assign k v [] = (k, v) ∷ []
  insert_or_assign k v ((j, w) ∷ m) = ite (j ≟ k) ((k, v) ∷ m) ((j, w) ∷ insert_or_assign k v m)

  emplace_found : K → V → Option V → UnorderedMap K V → UnorderedMap K V
  unfolding insert_or_assign
  emplace_found k v (some w) m = m
  emplace_found k v none m = insert_or_assign k v m

  -- m.try_emplace(k, v), m.emplace(k, v): an entry that is there stays as it is
  unfoldable pub emplace : K → V → UnorderedMap K V → UnorderedMap K V
  unfolding emplace_found find
  emplace k v m = emplace_found k v (find k m) m

  -- m.erase(k)
  unfoldable pub erase : K → UnorderedMap K V → UnorderedMap K V
  erase k [] = []
  erase k ((j, v) ∷ m) = let rest = erase k m in ite (j ≟ k) rest ((j, v) ∷ rest)

  -- the same change made to the entry under a key, if there is one
  unfoldable pub modify : K → (V → V) → UnorderedMap K V → UnorderedMap K V
  modify k f [] = []
  modify k f ((j, v) ∷ m) = ite (j ≟ k) ((j, f v) ∷ m) ((j, v) ∷ modify k f m)

  -- for (const K& Key : Keys) m.erase(Key)
  unfoldable pub erase_all : List K → UnorderedMap K V → UnorderedMap K V
  unfolding erase
  erase_all [] m = m
  erase_all (k ∷ ks) m = erase_all ks (erase k m)

  pub find-insert_or_assign :
      (k j : K) (v : V) (m : UnorderedMap K V)
      → find j (insert_or_assign k v m) ≡ ite (k ≟ j) (some v) (find j m)
  unfolding find insert_or_assign
  find-insert_or_assign k j v [] = refl
  find-insert_or_assign k j v ((i, w) ∷ m) = ground (arith, find-insert_or_assign k j v m)

  pub find-erase :
      (k j : K) (m : UnorderedMap K V) → find j (erase k m) ≡ ite (k ≟ j) none (find j m)
  unfolding find erase
  find-erase k j [] = ground arith
  find-erase k j ((i, w) ∷ m) = ground (arith, find-erase k j m)

  pub find-emplace :
      (k j : K) (v : V) (m : UnorderedMap K V)
      → find j (emplace k v m) ≡ ite (k ≟ j) (some (Option.get_or (find k m) v)) (find j m)
  unfolding emplace
  find-emplace k j v m = ground (arith, find-insert_or_assign k j v m)

  pub find-modify :
      (k j : K) (f : V → V) (m : UnorderedMap K V)
      → find j (modify k f m) ≡ ite (k ≟ j) (Option.map f (find k m)) (find j m)
  unfolding find modify
  find-modify k j f [] = ground arith
  find-modify k j f ((i, w) ∷ m) = ground (arith, find-modify k j f m)

  -- a loop that changes every value
  unfoldable pub map_values : (V → V) → UnorderedMap K V → UnorderedMap K V
  map_values f [] = []
  map_values f ((k, v) ∷ m) = (k, f v) ∷ map_values f m

  -- a loop that collects the keys of the entries that pass a test
  unfoldable pub select_keys : (K → V → Bool) → UnorderedMap K V → List K
  select_keys p [] = []
  select_keys p ((k, v) ∷ m) = let rest = select_keys p m in if p k v then k ∷ rest else rest

  pub find-map_values :
      (f : V → V) (k : K) (m : UnorderedMap K V) → find k (map_values f m) ≡ Option.map f (find k m)
  unfolding find map_values
  find-map_values f k [] = refl
  find-map_values f k ((j, v) ∷ m) = ground (arith, find-map_values f k m)

unfoldable pub has_key {ℓ} : {K : Type ℓ} ⦃key : Key K⦄ → K → List K → Bool
has_key k [] = false
has_key k (j ∷ ks) = is_yes (j ≟ k) || has_key k ks

module _ {ℓ} {K V : Type ℓ} ⦃key : Key K⦄ where
  pub find-erase_all :
      (ks : List K) (k : K) (m : UnorderedMap K V)
      → find k (erase_all ks m) ≡ (if has_key k ks then none else find k m)
  unfolding erase_all has_key
  find-erase_all [] k m = refl
  find-erase_all (j ∷ ks) k m = ground (arith, find-erase_all ks k (erase j m), find-erase j k m)

-- What a lookup finds after each operation, for `grind` and `simp`.
pub ruleset find_laws = (
  arith, find-insert_or_assign, find-erase, find-emplace, find-modify, find-map_values,
  find-erase_all,
)
