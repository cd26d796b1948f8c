-- ===== src/ServersManager/Invites/Tests.antt =====
-- Runs of FServersManager's invites over a database with one invite.
use squirrel_communicator.Prelude.{
  ℕ, ◌%◌, String, Bool, length, ◌≡◌, ◌≢◌, ◌⊎◌, refl, ℕ_discrete, String-discrete, true, false, not,
  none, some, [], ◌∷◌, keep, ◌≟◌, ltb_i32, arith, nat_key, string_key,
}
use squirrel_communicator.UnorderedMap.{find, contains, modify, insert_or_assign}
use squirrel_communicator.Server.{Server}
use squirrel_communicator.Server.Members.{add_member, has_member}
use squirrel_communicator.InviteAbuse.{InviteAbuse, RemoveIf, is_invite_abuse_banned}
use squirrel_communicator.ServersManager.{ServersManager, write_server}
use squirrel_communicator.ServersManager.Home.{Log, log, server, servers}
use squirrel_communicator.ServersManager.Allowed.{permissions_of}
use squirrel_communicator.ServersManager.Invites.{
  InviteStatements, InviteSettings, joined, refused, create_invite,
}
use squirrel_communicator.ServersManager.Invites.Joining.{join_via_invite}
use squirrel_communicator.ServersManager.Invites.Joined.{
  cached_member, join_uses_invite, member_wastes_use,
}
use squirrel_communicator.ServersManager.Invites.Banned.{triggered_ban_refuses}
use squirrel_communicator.ServersManager.Invites.Created.{creates_only_permitted}

abbrev std : RemoveIf
std = record { remove_if = λ p. keep (λ x. not (p x)); remove_if-eq-keep = λ p xs. refl }

-- The code "code" is for server 1; a use of it is logged.
abbrev invites : InviteStatements Log
invites = record {
  select_valid_invite = λ code d. elim (code ≟ "code") [ yes e ↦ some 1 | no n ↦ none ];
  increment_uses = λ code d. ((1, 1) ∷ d, true);
  insert_invite = λ code server creator uses expiry d. (d, true);
  count_active_invites = λ server d. some 3;
  delete_invite = λ code server d. (d, some 1);
  count_invites = λ server d. some 1;
  select_invites = λ server limit offset d. some [];
}

-- One failed attempt is enough.
abbrev strict : InviteAbuse
strict = record {
  invite_abuse_records = [];
  invite_abuse_max_attempts = 1;
  invite_abuse_window_seconds = 60;
  invite_abuse_ban_duration_seconds = 600;
}

cached : find 1 servers.servers_map ≡ some server
unfolding find ℕ_discrete
cached = refl

abbrev visit : (ServersManager Log × InviteAbuse)
visit = (join_via_invite log invites std 1000 "code" 8 "guest" "ip" servers strict).0

join_uses_invite_example :
    ((◌≡◌ {A = String} "ip" "") ⊎ (is_invite_abuse_banned 1000 "ip" strict ≡ 0))
    × (◌≡◌ {A = Bool} true true)
    × (invites.select_valid_invite "code" [] ≡ some 1)
    × (length visit.0.database ≡ 1)
    × (cached_member 1 8 visit.0 ≡ some true)
    × ((◌≡◌ {A = String} "ip" "") ⊎ (find "ip" visit.1.invite_abuse_records ≡ none))
unfolding contains
join_uses_invite_example =
    join_uses_invite log length (λ d. refl) (λ s u p d. refl) invites std 1000 8 1 "code" "guest"
      "ip" servers visit.0 strict visit.1 (λ d e. refl)
      (unfold join_via_invite find ℕ_discrete String-discrete in refl)

abbrev attempt : (ServersManager Log × InviteAbuse)
attempt = (join_via_invite log invites std 1000 "guess" 8 "guest" "ip" servers strict).0

not_empty : ◌≢◌ {A = String} "ip" ""
not_empty = cc

not_banned : is_invite_abuse_banned 1000 "ip" strict ≡ 0
unfolding is_invite_abuse_banned find
not_banned = refl

failed :
    join_via_invite log invites std 1000 "guess" 8 "guest" "ip" servers strict
    ≡ (attempt, refused "abuse_ban")
unfolding join_via_invite find String-discrete keep
failed = refl

triggered_ban_refuses_example :
    join_via_invite log invites std 1599 "code" 9 "other" "ip" attempt.0 attempt.1
    ≡ (attempt, refused "abuse_ban")
triggered_ban_refuses_example =
    triggered_ban_refuses log invites std 1000 1599 8 9 "guess" "code" "guest" "other" "ip" servers
      attempt.0 strict attempt.1 not_empty not_banned failed (omega arith)

abbrev guest_home : Server
guest_home =
    add_member (record { user_id = 8; user_name = "guest"; status = "online"; permissions = 0 })
      server

abbrev with_guest : ServersManager Log
with_guest = write_server 1 guest_home servers

member_wastes_use_example :
    join_via_invite log invites std 1000 "code" 8 "guest" "" with_guest strict
    ≡ ((record with_guest { database = (1, 1) ∷ [] }, strict), joined 1)
unfolding write_server modify contains add_member insert_or_assign
member_wastes_use_example =
    member_wastes_use log invites std 1000 8 1 "code" "guest" guest_home with_guest strict
      (unfold find ℕ_discrete in refl) (unfold has_member find ℕ_discrete in refl)
      (unfold find in refl) refl (unfold String-discrete in refl) refl

abbrev defaults : InviteSettings
defaults = record {
  default_max_uses = 10;
  default_expires_in_seconds = 3600;
  max_expires_in_seconds = 86400;
  max_invites_per_server = 5;
}

abbrev with_code : ServersManager Log
with_code = record servers { invite_code_to_server_id = ("fresh", 1) ∷ [] }

is_created : create_invite log invites defaults "fresh" 1 7 0 0 servers ≡ (with_code, "fresh")
unfolding create_invite find ℕ_discrete insert_or_assign
is_created = refl

code_not_empty : ◌≢◌ {A = String} "fresh" ""
code_not_empty = cc

creates_only_permitted_example :
    ((◌≡◌ {A = ℕ} 7 7) ⊎ (permissions_of 7 server % 2 ≡ 1))
    × ((ltb_i32 0 5 ≡ false) ⊎ (ltb_i32 3 5 ≡ true))
    × (find "fresh" with_code.invite_code_to_server_id ≡ some 1)
creates_only_permitted_example =
    creates_only_permitted log invites defaults "fresh" "fresh" 1 7 0 0 3 server servers with_code
      cached refl refl is_created code_not_empty
