-- ===== src/ServersManager/Tests.antt =====
-- Runs of FServersManager over a database that only logs its renumberings.
use squirrel_communicator.Prelude.{
  ℕ, ◌-◌, ℕ_discrete, ◌≡◌, refl, false, ◌≟◌, some, [], ◌∷◌, leb, if◌then◌else◌, length, nat_key,
  arith,
}
use squirrel_communicator.UnorderedMap.{find}
use squirrel_communicator.Server.{text}
use squirrel_communicator.Server.Channels.{get_all_channels}
use squirrel_communicator.Server.Channels.Cache.{IsCoherent}
use squirrel_communicator.ServersManager.{server_permits}
use squirrel_communicator.ServersManager.Home.{log, server, servers}
use squirrel_communicator.ServersManager.Channels.{
  add_channel, remove_channel, move_channel, reorder_channels, rename_channel, index_of,
}
use squirrel_communicator.ServersManager.Channels.Moves.{get_elem?, others}
use squirrel_communicator.ServersManager.Channels.Stored.{shown}
use squirrel_communicator.ServersManager.Channels.Reordered.{shown_after_move}
use squirrel_communicator.ServersManager.Permitted.{refuses_without_permission}

cached : find 1 servers.servers_map ≡ some server
unfolding find ℕ_discrete
cached = refl

server-IsCoherent : IsCoherent server
unfolding find ℕ_discrete
server-IsCoherent = record { unique = (refl, (refl, tt)); fresh = λ e. cc }

refuses_without_permission_example :
    (add_channel log 1 "new" text 8 servers ≡ (servers, 0))
    × (remove_channel log 1 10 8 servers ≡ (servers, false))
    × (move_channel log 1 10 1 8 servers ≡ (servers, false))
    × (reorder_channels log 1 (11 ∷ 10 ∷ []) 8 servers ≡ (servers, false))
    × (rename_channel log 1 10 "new" 8 servers ≡ (servers, false))
refuses_without_permission_example =
    refuses_without_permission log 1 8 10 1 "new" text (11 ∷ 10 ∷ []) server servers cached
      (omega arith) (unfold find ℕ_discrete in omega arith)

shown_after_move_example :
    (get_elem?
        (shown 1 (move_channel log 1 10 5 7 servers).0)
        (if leb (length (shown 1 servers)) 5 then length (shown 1 servers) - 1 else 5)
      ≡ some 10)
    × (others 10 (shown 1 (move_channel log 1 10 5 7 servers).0) ≡ others 10 (shown 1 servers))
shown_after_move_example =
    shown_after_move log 1 7 server servers cached (unfold server_permits ℕ_discrete in refl)
      server-IsCoherent (refl, (refl, tt)) refl 10 0 5
      (unfold index_of find get_all_channels ℕ_discrete in refl)

abbrev same : Discrete ℕ
same = ◌≟◌ {K = ℕ}
