-- ===== src/ServersManager/Positions.antt =====
-- What FServersManager's handlers do to the vector of a server's channel ids (ProjectServer/Source/
-- Private/Managers/ServersManager.cpp): finding, erasing, inserting, validating and numbering.
use squirrel_communicator.Prelude.{
  ℕ, zero, suc, Bool, true, false, is_yes, ◌≟◌, Option, none, some, List, [], ◌∷◌, map,
  if◌then◌else◌, nat_key,
}
use squirrel_communicator.UnorderedMap.{UnorderedMap, has_key}
use squirrel_communicator.Server.{ServerChannel}

-- std::vector::erase at an index, std::vector::insert at an index
unfoldable pub erase_at {ℓ} : {A : Type ℓ} → ℕ → List A → List A
erase_at n [] = []
erase_at zero (x ∷ xs) = xs
erase_at (suc n) (x ∷ xs) = x ∷ erase_at n xs

unfoldable pub insert_at {ℓ} : {A : Type ℓ} → ℕ → A → List A → List A
insert_at zero a xs = a ∷ xs
insert_at (suc n) a [] = a ∷ []
insert_at (suc n) a (x ∷ xs) = x ∷ insert_at n a xs

-- The loop of MoveChannel that looks for the channel
unfoldable pub index_of : ℕ → List ℕ → Option ℕ
index_of id [] = none
index_of id (j ∷ ids) =
    let rest = index_of id ids in
    if is_yes (j ≟ id) then some 0 else elim rest [ none ↦ none | some i ↦ some (suc i) ]

-- NewPositions: each channel with its index, from a first one on
unfoldable pub number_from : ℕ → List ℕ → UnorderedMap ℕ ℕ
number_from n [] = []
number_from n (id ∷ ids) = (id, n) ∷ number_from (suc n) ids

abbrev pub ids_of : List ServerChannel → List ℕ
ids_of = map (λ c. c.channel_id)

-- MoveChannel, the vector after erase and insert
unfoldable pub moved : ℕ → ℕ → ℕ → List ℕ → List ℕ
unfolding erase_at insert_at
moved channel_id old_position new_position ids =
    insert_at new_position channel_id (erase_at old_position ids)

-- ReorderChannels, the loop that validates the request: each id exists and was not seen before
unfoldable pub is_valid_order : List ℕ → List ℕ → List ℕ → Bool
unfolding has_key
is_valid_order existing seen [] = true
is_valid_order existing seen (id ∷ ids) =
    let rest = is_valid_order existing (id ∷ seen) ids in
    if has_key id existing then if has_key id seen then false else rest else false
