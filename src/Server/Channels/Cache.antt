-- ===== src/Server/Channels/Cache.antt =====
-- FServer::GetAllChannels never shows a stale order: the cache, where it is valid, holds the order of
-- the channels as they are.
use squirrel_communicator.Prelude.{
  IsSortedBy, ℕ, ◌≡◌, refl, sym, ap, ◌∙◌, true, false, some, List, [], ◌∷◌, map, arith, All,
  All-map, Bool-cases, Option-cases, inl, inr, nat_key,
}
use squirrel_communicator.UnorderedMap.{UnorderedMap, find, contains, modify}
use squirrel_communicator.UnorderedMap.Unique.{
  IsUnique, keeps_unique, erase-absent, modify-IsUnique,
}
use squirrel_communicator.Server.{Server, ServerChannel, init}
use squirrel_communicator.Server.Channels.{
  Entry, entry_position, sort_by, dereference, assign_positions, set_channel_positions, add_channel,
  invalidate_channel_cache, remove_channel, get_all_channels, write_channel,
}
use squirrel_communicator.Server.Channels.Order.{
  sort_by-IsSortedBy, sort_by-perm, sort_by-All, map-sort_by,
}
use mathlib.Core.List.{Perm}
use mathlib.Core.List.Perm

-- Ids and positions, in the map's order, and the ids in display order.
abbrev pub outline : UnorderedMap ℕ ServerChannel → List (ℕ × ℕ)
outline = map (λ e. (e.0, e.1.position))

abbrev pub order : UnorderedMap ℕ ServerChannel → List ℕ
order m = map (λ e. e.0) (sort_by entry_position m)

pub map-map {ℓ κ μ} :
    {A : Type ℓ} {B : Type κ} {C : Type μ} (g : B → C) (f : A → B) (xs : List A)
    → map g (map f xs) ≡ map (λ x. g (f x)) xs
map-map g f [] = refl
map-map g f (x ∷ xs) = ap (◌∷◌ (g (f x))) (map-map g f xs)

pub order-outline :
    (m : UnorderedMap ℕ ServerChannel) → order m ≡ map (λ p. p.0) (sort_by (λ p. p.1) (outline m))
order-outline m =
    sym
      (map-map (λ (p : ℕ × ℕ). p.0) (λ (e : Entry). (e.0, e.1.position)) (sort_by entry_position m))
    ∙ ap (map (λ (p : ℕ × ℕ). p.0)) (map-sort_by (λ (e : Entry). (e.0, e.1.position)) (λ p. p.1) m)

outline-modify :
    (id : ℕ) (change : ServerChannel → ServerChannel) (m : UnorderedMap ℕ ServerChannel)
    → ((c : ServerChannel) → (change c).position ≡ c.position)
    → outline (modify id change m) ≡ outline m
unfolding modify
outline-modify id change [] same = refl
outline-modify id change ((j, c) ∷ m) same = ground (arith, same c, outline-modify id change m same)

pub record IsCoherent (s : Server) : Type 0 where
  pub unique : IsUnique s.channels
  pub fresh : s.channel_cache_valid ≡ true → s.cached_sorted_channels ≡ order s.channels

-- What stands under an entry's id is the entry's channel.
abbrev IsEntry : UnorderedMap ℕ ServerChannel → Entry → Type 0
IsEntry m e = find e.0 m ≡ some e.1

dereference-entries :
    (m : UnorderedMap ℕ ServerChannel) (es : List Entry)
    → All (IsEntry m) es
    → dereference m (map (λ e. e.0) es) ≡ map (λ e. e.1) es
unfolding dereference
dereference-entries m [] h = refl
dereference-entries m (e ∷ es) h =
    rw (h.0, dereference) (ap (◌∷◌ e.1) (dereference-entries m es h.1))

IsEntry-All : (m : UnorderedMap ℕ ServerChannel) → IsUnique m → All (IsEntry m) m
IsEntry-All [] u = tt
IsEntry-All ((id, c) ∷ m) u = (
  unfold find in ground arith,
  All-map (IsEntry m) (IsEntry ((id, c) ∷ m)) m (λ e h. unfold find in ground arith)
      (IsEntry-All m u.1),
)

-- A read gives the present channels in the order of their present positions.
pub reads_present_order :
    (s : Server)
    → IsCoherent s
    → (get_all_channels s).1 ≡ map (λ e. e.1) (sort_by entry_position s.channels)
unfolding get_all_channels
reads_present_order s v = elim (Bool-cases s.channel_cache_valid) [
  | inl e ↦
      rw (e, get_all_channels)
        (ap (dereference s.channels) (v.fresh e)
          ∙ dereference-entries s.channels (sort_by entry_position s.channels) (
              sort_by-All entry_position (IsEntry s.channels) s.channels
                (IsEntry-All s.channels v.unique)))
  | inr e ↦ rw (e, get_all_channels)
]

-- The calls that touch channels. Writes through a pointer change no position: they rename a channel
-- or change its connected users.
pub data Call : Type 0 where
  adds : ServerChannel → Call
  removes : ℕ → Call
  positions : UnorderedMap ℕ ℕ → Call
  writes :
      ℕ
      → (change : ServerChannel → ServerChannel)
      → ((c : ServerChannel) → (change c).position ≡ c.position)
      → Call
  reads : Call

unfoldable pub step : Call → Server → Server
step (adds c) s = add_channel c s
step (removes id) s = (remove_channel id s).0
step (positions p) s = set_channel_positions p s
step (writes id change same) s = write_channel id change s
step reads s = (get_all_channels s).0

unfoldable pub run : List Call → Server → Server
run [] s = s
run (c ∷ cs) s = run cs (step c s)

pub assign_positions-IsUnique :
    (p : UnorderedMap ℕ ℕ) (m : UnorderedMap ℕ ServerChannel)
    → IsUnique m
    → IsUnique (assign_positions p m)
unfolding assign_positions
assign_positions-IsUnique [] m u = u
assign_positions-IsUnique ((id, n) ∷ p) m u =
    assign_positions-IsUnique p _ (modify-IsUnique id (λ c. record c { position = n }) m u)

invalid-fresh :
    (s : Server)
    → s.channel_cache_valid ≡ false
    → s.channel_cache_valid ≡ true
    → s.cached_sorted_channels ≡ order s.channels
invalid-fresh s h e = cc

order-write :
    (id : ℕ) (change : ServerChannel → ServerChannel) (m : UnorderedMap ℕ ServerChannel)
    → ((c : ServerChannel) → (change c).position ≡ c.position)
    → order (modify id change m) ≡ order m
order-write id change m same =
    order-outline (modify id change m)
    ∙ ap (λ o. map (λ p. p.0) (sort_by (λ p. p.1) o)) (outline-modify id change m same)
    ∙ sym (order-outline m)

pub add_channel-IsCoherent :
    (c : ServerChannel) (s : Server) → IsCoherent s → IsCoherent (add_channel c s)
unfolding add_channel invalidate_channel_cache
add_channel-IsCoherent c s v = record { unique = search (keeps_unique, v.unique); fresh = λ e. cc }

pub remove_channel-IsCoherent :
    (id : ℕ) (s : Server) → IsCoherent s → IsCoherent (remove_channel id s).0
unfolding remove_channel invalidate_channel_cache contains
remove_channel-IsCoherent id s v = elim (Option-cases (find id s.channels)) [
  | inl e ↦
      rw (e, remove_channel)
        (record {
          unique = search (keeps_unique, v.unique);
          fresh = rw (erase-absent id s.channels e) v.fresh;
        })
  | inr (c, e) ↦
      rw (e, remove_channel) (record { unique = search (keeps_unique, v.unique); fresh = λ e. cc })
]

pub set_channel_positions-IsCoherent :
    (p : UnorderedMap ℕ ℕ) (s : Server) → IsCoherent s → IsCoherent (set_channel_positions p s)
unfolding set_channel_positions
set_channel_positions-IsCoherent p s v = record {
  unique = assign_positions-IsUnique p s.channels v.unique;
  fresh = λ e. cc;
}

pub get_all_channels-IsCoherent : (s : Server) → IsCoherent s → IsCoherent (get_all_channels s).0
unfolding get_all_channels
get_all_channels-IsCoherent s v = elim (Bool-cases s.channel_cache_valid) [
  | inl e ↦ simp (e, get_all_channels) v
  | inr e ↦ rw (e, get_all_channels) (record { unique = v.unique; fresh = λ e. refl })
]

-- Every call that touches channels keeps the cache coherent.
step-IsCoherent : (c : Call) (s : Server) → IsCoherent s → IsCoherent (step c s)
unfolding step
step-IsCoherent (adds c) s v = add_channel-IsCoherent c s v
step-IsCoherent (removes id) s v = remove_channel-IsCoherent id s v
step-IsCoherent (positions p) s v = set_channel_positions-IsCoherent p s v
step-IsCoherent (writes id change same) s v =
    unfold write_channel in
    record {
      unique = search (keeps_unique, v.unique);
      fresh = λ e. v.fresh e ∙ sym (order-write id change s.channels same);
    }
step-IsCoherent reads s v = get_all_channels-IsCoherent s v

run-IsCoherent : (cs : List Call) (s : Server) → IsCoherent s → IsCoherent (run cs s)
unfolding run
run-IsCoherent [] s v = v
run-IsCoherent (c ∷ cs) s v = run-IsCoherent cs (step c s) (step-IsCoherent c s v)

init-IsCoherent : IsCoherent init
unfolding init sort_by
init-IsCoherent = record { unique = tt; fresh = λ e. refl }

IsSortedBy-map {ℓ κ} :
    {A : Type ℓ} {B : Type κ} (f : A → B) (rank : B → ℕ) (xs : List A)
    → IsSortedBy (λ x. rank (f x)) xs
    → IsSortedBy rank (map f xs)
IsSortedBy-map f rank [] h = tt
IsSortedBy-map f rank (x ∷ []) h = tt
IsSortedBy-map f rank (x ∷ y ∷ xs) h = (h.0, IsSortedBy-map f rank (y ∷ xs) h.1)

-- However a server's channels were added, removed, moved, written through pointers and read before,
-- GetAllChannels shows exactly the channels that the server has now, each once, and their present
-- positions do not fall along the list: a cached order is never stale.
pub shows_present_order :
    (cs : List Call)
    → Perm (get_all_channels (run cs init)).1 (map (λ e. e.1) (run cs init).channels)
      × IsSortedBy (λ c. c.position) (get_all_channels (run cs init)).1
shows_present_order cs =
    let s = run cs init in
    rw (reads_present_order s (run-IsCoherent cs init init-IsCoherent)) (
      Perm.map (λ (e : Entry). e.1) (sort_by-perm entry_position s.channels),
      IsSortedBy-map (λ (e : Entry). e.1) (λ c. c.position) (sort_by entry_position s.channels)
          (sort_by-IsSortedBy entry_position s.channels),
    )
