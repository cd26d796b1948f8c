-- ===== src/ServersManager/Channels/Shown.antt =====
-- The order that FServer shows after FServersManager has numbered its channels.
use squirrel_communicator.Prelude.{
  ℕ, ◌≡◌, refl, sym, ap, ◌∙◌, true, ◌≟◌, ite, none, some, List, [], ◌∷◌, map, arith, is_some,
  nat_key, all_of, Perm, all_of-Perm, sorted_unique, All, if_pos, if_neg,
}
use squirrel_communicator.UnorderedMap.{UnorderedMap, find, modify, has_key}
use squirrel_communicator.UnorderedMap.Unique.{IsUnique, modify-IsUnique}
use squirrel_communicator.Server.{Server, ServerChannel}
use squirrel_communicator.Server.Channels.{
  Entry, entry_position, sort_by, assign_positions, set_channel_positions, get_all_channels,
}
use squirrel_communicator.Server.Channels.Order.{
  sort_by-IsSortedBy, sort_by-perm, sort_by-All, map-sort_by,
}
use squirrel_communicator.Server.Channels.Cache.{
  IsCoherent, outline, order, map-map, order-outline, reads_present_order,
  set_channel_positions-IsCoherent,
}
use squirrel_communicator.ServersManager.Channels.{number_from, ids_of}
use squirrel_communicator.ServersManager.Channels.Numbered.{
  position_in, all_distinct, all_found, number_from-IsUnique, rises-number_from,
}
use mathlib.Core.List.Perm
use mathlib.Core.Option
use mathlib.Core.Path.{fun_ext}

-- The ids of a server's channels, in the map's order
abbrev pub keys : UnorderedMap ℕ ServerChannel → List ℕ
keys = map (λ e. e.0)

-- Each channel is kept under its id.
abbrev pub IsKeyed : UnorderedMap ℕ ServerChannel → Type 0
IsKeyed = All (λ e. e.1.channel_id ≡ e.0)

outline-absent :
    (i n : ℕ) (m : UnorderedMap ℕ ServerChannel)
    → find i m ≡ none
    → map (λ e. (e.0, ite (i ≟ e.0) n e.1)) (outline m) ≡ outline m
unfolding find
outline-absent i n [] h = refl
outline-absent i n ((j, c) ∷ m) h = ground (arith, outline-absent i n m)

outline-modify_position :
    (i n : ℕ) (m : UnorderedMap ℕ ServerChannel)
    → IsUnique m
    → outline (modify i (λ c. record c { position = n }) m)
      ≡ map (λ e. (e.0, ite (i ≟ e.0) n e.1)) (outline m)
unfolding modify
outline-modify_position i n [] u = refl
outline-modify_position i n ((j, c) ∷ m) u =
    ground (arith, outline-absent i n m, outline-modify_position i n m)

map-id {ℓ} : {A : Type ℓ} (xs : List A) → map (λ x. x) xs ≡ xs
map-id [] = refl
map-id (x ∷ xs) = ap (◌∷◌ x) (map-id xs)

outline-assign :
    (p : UnorderedMap ℕ ℕ) (m : UnorderedMap ℕ ServerChannel)
    → IsUnique p
    → IsUnique m
    → outline (assign_positions p m) ≡ map (λ e. (e.0, Option.get_or (find e.0 p) e.1)) (outline m)
unfolding assign_positions find
outline-assign [] m u v = sym (map-id (outline m))
outline-assign ((i, n) ∷ p) m u v =
    outline-assign p _ u.1 (modify-IsUnique i (λ c. record c { position = n }) m v)
    ∙ ap (map (λ e. (e.0, Option.get_or (find e.0 p) e.1))) (outline-modify_position i n m v)
    ∙ map-map (λ e. (e.0, Option.get_or (find e.0 p) e.1)) (λ e. (e.0, ite (i ≟ e.0) n e.1))
        (outline m)
    ∙ ap (λ f. map f (outline m)) (fun_ext (λ (e : ℕ × ℕ). front e))
  where
    front :
        (e : ℕ × ℕ)
        → ◌≡◌ {A = ℕ × ℕ}
            (e.0, Option.get_or (find e.0 p) (ite (i ≟ e.0) n e.1))
            (e.0, Option.get_or (ite (i ≟ e.0) (some n) (find e.0 p)) e.1)
    front e = ground (arith, u.0)

all_numbered :
    (p : UnorderedMap ℕ ℕ) (m : UnorderedMap ℕ ServerChannel)
    → all_of (λ k. is_some (find k p)) (keys m) ≡ true
    → map (λ e. (e.0, Option.get_or (find e.0 p) e.1)) (outline m)
      ≡ map {B = ℕ × ℕ} (λ k. (k, position_in p k)) (keys m)
unfolding all_of
all_numbered p [] h = refl
all_numbered p ((i, c) ∷ m) h = ground (arith, all_numbered p m)

-- The order in which a server with these positions is shown.
order-numbered :
    (ids : List ℕ) (m : UnorderedMap ℕ ServerChannel)
    → IsUnique m
    → Perm ids (keys m)
    → all_distinct ids ≡ true
    → order (assign_positions (number_from 0 ids) m) ≡ ids
order-numbered ids m u same d =
    order-outline (assign_positions p m)
    ∙ ap (λ o. map (λ e. e.0) (sort_by (λ e. e.1) o)) numbered
    ∙ ap (map (λ e. e.0)) (sym (map-sort_by (λ k. (k, position_in p k)) (λ e. e.1) (keys m)))
    ∙ map-map (λ (e : ℕ × ℕ). e.0) (λ k. (k, position_in p k)) (sort_by (position_in p) (keys m))
    ∙ map-id (sort_by (position_in p) (keys m))
    ∙ sorted_unique (position_in p) (sort_by (position_in p) (keys m)) ids
        (sort_by-IsSortedBy (position_in p) (keys m)) (rises-number_from 0 ids d)
        (Perm.trans (sort_by-perm (position_in p) (keys m)) (Perm.symm same))
  where
    p : UnorderedMap ℕ ℕ
    p = number_from 0 ids

    numbered : outline (assign_positions p m) ≡ map (λ k. (k, position_in p k)) (keys m)
    numbered =
        outline-assign p m (number_from-IsUnique 0 ids d) u
        ∙ all_numbered p m (sym (all_of-Perm (λ k. is_some (find k p)) same) ∙ all_found 0 ids)

modify_position-IsKeyed :
    (i n : ℕ) (m : UnorderedMap ℕ ServerChannel)
    → IsKeyed m
    → IsKeyed (modify i (λ c. record c { position = n }) m)
unfolding modify
modify_position-IsKeyed i n [] k = tt
modify_position-IsKeyed i n ((j, c) ∷ m) k = elim (j ≟ i) [
  | yes e ↦ rw (if_pos (j ≟ i) e) (k.0, k.1)
  | no e ↦ rw (if_neg (j ≟ i) e) (k.0, modify_position-IsKeyed i n m k.1)
]

assign_positions-IsKeyed :
    (p : UnorderedMap ℕ ℕ) (m : UnorderedMap ℕ ServerChannel)
    → IsKeyed m
    → IsKeyed (assign_positions p m)
unfolding assign_positions
assign_positions-IsKeyed [] m k = k
assign_positions-IsKeyed ((i, n) ∷ p) m k =
    assign_positions-IsKeyed p _ (modify_position-IsKeyed i n m k)

ids-keyed :
    (es : List Entry)
    → All (λ e. e.1.channel_id ≡ e.0) es
    → map (λ e. e.1.channel_id) es ≡ map (λ e. e.0) es
ids-keyed [] k = refl
ids-keyed (e ∷ es) k = cc (k.0, ids-keyed es k.1)

-- The ids that a coherent server shows are its order.
pub shown-eq-order :
    (s : Server)
    → IsCoherent s
    → IsKeyed s.channels
    → ids_of (get_all_channels s).1 ≡ order s.channels
shown-eq-order s v k =
    ap ids_of (reads_present_order s v)
    ∙ map-map (λ (c : ServerChannel). c.channel_id) (λ (e : Entry). e.1)
        (sort_by entry_position s.channels)
    ∙ ids-keyed (sort_by entry_position s.channels)
        (sort_by-All entry_position (λ e. e.1.channel_id ≡ e.0) s.channels k)

-- A server whose channels were numbered along a rearrangement of their ids shows that order.
pub shown_after_numbering :
    (ids : List ℕ) (s : Server)
    → IsCoherent s
    → IsKeyed s.channels
    → Perm ids (keys s.channels)
    → all_distinct ids ≡ true
    → ids_of (get_all_channels (set_channel_positions (number_from 0 ids) s)).1 ≡ ids
unfolding set_channel_positions
shown_after_numbering ids s v k same d =
    shown-eq-order (set_channel_positions (number_from 0 ids) s)
      (set_channel_positions-IsCoherent (number_from 0 ids) s v)
      (assign_positions-IsKeyed (number_from 0 ids) s.channels k)
    ∙ order-numbered ids s.channels v.unique same d

has_key-keys : (k : ℕ) (m : UnorderedMap ℕ ServerChannel) → has_key k (keys m) ≡ is_some (find k m)
unfolding has_key find
has_key-keys k [] = refl
has_key-keys k ((i, c) ∷ m) = ground (arith, has_key-keys k m)

-- The keys of a map are distinct.
pub keys-distinct : (m : UnorderedMap ℕ ServerChannel) → IsUnique m → all_distinct (keys m) ≡ true
unfolding all_distinct
keys-distinct [] u = refl
keys-distinct ((i, c) ∷ m) u = ground (arith, keys-distinct m, has_key-keys i m)
