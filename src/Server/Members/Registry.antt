-- ===== src/Server/Members/Registry.antt =====
-- What FServer's members are to its callers: a registry that has for each user at most one member.
-- The operations on the map implement it.
use squirrel_communicator.Prelude.{
  ℕ, String, ◌≡◌, refl, ap, ◌∙◌, Option, none, some, List, [], ◌∷◌, is_some, ite, ◌≟◌, nat_key,
  string_key, arith, Option-cases, inl, inr,
}
use squirrel_communicator.UnorderedMap.{
  find, contains, find-modify, find-erase, find-insert_or_assign,
}
use squirrel_communicator.Server.{Server, ServerMember}
use squirrel_communicator.Server.Members.{
  add_member, remove_member, has_member, update_member_status, fill_user_name,
  update_member_user_name, update_member_permissions, get_member_permissions,
}
use mathlib.Core.Option
use mathlib.Core.Path.{fun_ext}

-- Who is a member, as what
abbrev pub Registry : Type 0
Registry = ℕ → Option ServerMember

abbrev pub registry : Server → Registry
registry s user_id = find user_id s.members

-- The registry with another answer for one user
abbrev update : ℕ → Option ServerMember → Registry → Registry
update user_id answer r j = ite (user_id ≟ j) answer (r j)

pub data Call : Type 0 where
  adds : ServerMember → Call
  removes : ℕ → Call
  sets_status : ℕ → String → Call
  sets_user_name : ℕ → String → Call
  sets_permissions : ℕ → ℕ → Call

unfoldable pub step : Call → Server → Server
step (adds m) s = add_member m s
step (removes u) s = (remove_member u s).0
step (sets_status u status) s = update_member_status u status s
step (sets_user_name u name) s = update_member_user_name u name s
step (sets_permissions u p) s = update_member_permissions u p s

-- A member with a name that was empty filled in
abbrev named : String → ServerMember → ServerMember
named name m = record {
  user_id = m.user_id;
  user_name = ite (m.user_name ≟ "") name m.user_name;
  status = m.status;
  permissions = m.permissions;
}

fill_user_name-eq-named : (name : String) (m : ServerMember) → fill_user_name name m ≡ named name m
unfolding fill_user_name
fill_user_name-eq-named name m = ground arith

-- What each call promises
abbrev promised : Call → Registry → Registry
promised (adds m) r = update m.user_id (some m) r
promised (removes u) r = update u none r
promised (sets_status u status) r =
    update u (Option.map {A = ServerMember} (λ m. record m { status = status }) (r u)) r
promised (sets_user_name u name) r = update u (Option.map (named name) (r u)) r
promised (sets_permissions u p) r =
    update u (Option.map {A = ServerMember} (λ m. record m { permissions = p }) (r u)) r

unfoldable pub run : List Call → Server → Server
run [] s = s
run (c ∷ cs) s = run cs (step c s)

unfoldable pub promised_all : List Call → Registry → Registry
promised_all [] r = r
promised_all (c ∷ cs) r = promised_all cs (promised c r)

step-promised : (c : Call) (s : Server) (j : ℕ) → registry (step c s) j ≡ promised c (registry s) j
unfolding step add_member remove_member update_member_status update_member_user_name
    update_member_permissions
step-promised (adds m) s j = find-insert_or_assign m.user_id j m s.members
step-promised (removes u) s j = find-erase u j s.members
step-promised (sets_status u status) s j = find-modify u j _ s.members
step-promised (sets_user_name u name) s j =
    find-modify u j (fill_user_name name) s.members
    ∙ ap (λ f. ite (u ≟ j) (Option.map f (find u s.members)) (find j s.members))
        (fun_ext (fill_user_name-eq-named name))
step-promised (sets_permissions u p) s j = find-modify u j _ s.members

step-registry : (c : Call) (s : Server) → registry (step c s) ≡ promised c (registry s)
step-registry c s = fun_ext (λ j. step-promised c s j)

run-registry : (cs : List Call) (s : Server) → registry (run cs s) ≡ promised_all cs (registry s)
unfolding run promised_all
run-registry [] s = refl
run-registry (c ∷ cs) s = run-registry cs (step c s) ∙ ap (promised_all cs) (step-registry c s)

-- After any calls, the members that HasMember and GetMemberPermissions see are those of the registry
-- that the calls promise, started from the members there were: a user who is not a member has no
-- permission, a status, a name or a permission is set only for a user who is one, and a name that is
-- there is not overwritten.
pub members_refine_registry :
    (cs : List Call) (s : Server) (user_id : ℕ)
    → (registry (run cs s) user_id ≡ promised_all cs (registry s) user_id)
      × (has_member user_id (run cs s) ≡ is_some (promised_all cs (registry s) user_id))
      × (get_member_permissions user_id (run cs s)
          ≡ Option.get_or
              (Option.map (λ m. m.permissions) (promised_all cs (registry s) user_id))
              0)
unfolding has_member contains get_member_permissions
members_refine_registry cs s user_id = rw⁻¹ (run-registry cs s) (
  refl,
  refl,
  elim (Option-cases (find user_id (run cs s).members)) [
    | inl e ↦ rw (e, get_member_permissions)
    | inr (m, e) ↦ rw (e, get_member_permissions)
  ],
)
