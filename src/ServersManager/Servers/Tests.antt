-- ===== src/ServersManager/Servers/Tests.antt =====
-- A run of FServersManager::AddServer.
use squirrel_communicator.Prelude.{◌≡◌, String-discrete, refl, some, none, true, [], arith, nat_key}
use squirrel_communicator.UnorderedMap.{find}
use squirrel_communicator.Server.Members.{get_member_permissions}
use squirrel_communicator.Server.Permissions.{all_permissions}
use squirrel_communicator.ServersManager.{ServersManager}
use squirrel_communicator.ServersManager.Home.{Log, log, servers}
use squirrel_communicator.ServersManager.Servers.{ServerStatements, add_server}
use squirrel_communicator.ServersManager.Servers.Channelless.{new_server_has_no_channels}
use mathlib.Core.Option

abbrev statements : ServerStatements Log
statements = record { insert_server = λ s d. (d, some 2); select_user_servers = λ u d. ([], true) }

abbrev grown : ServersManager Log
grown = (add_server log statements 100 "token" "new" 7 servers).0

made : add_server log statements 100 "token" "new" 7 servers ≡ (grown, 2)
unfolding add_server String-discrete
made = refl

new_server_has_no_channels_example :
    (Option.map (λ s. s.channels) (find 2 grown.servers_map) ≡ some [])
    × (Option.map (get_member_permissions 7) (find 2 grown.servers_map) ≡ some all_permissions)
    × (find 7 grown.user_to_server_ids_cache ≡ none)
new_server_has_no_channels_example =
    new_server_has_no_channels log statements 100 7 2 "token" "new" servers grown made (omega arith)
