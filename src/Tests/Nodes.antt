-- ===== src/Tests/Nodes.antt =====
-- The theorems about nodes at concrete inputs.
use vpn_controll_app.Base.{nat_Eq, ◌≤◌, ◌≡◌, ◌↔◌, refl, none, some, true, [], ◌∷◌}
use vpn_controll_app.Base.Sort.{sorted, insert_up, min_by, min_from}
use vpn_controll_app.Dict.{lookup, values}
use vpn_controll_app.Domain.Status.{ServerStatus}
use vpn_controll_app.Domain.Entities.{ServerNode}
use vpn_controll_app.Storage.State.{Store}
use vpn_controll_app.Storage.Action.{Result, ok, err}
use vpn_controll_app.Storage.Tables.{list_server_nodes, count_active_devices_for_server}
use vpn_controll_app.Agent
use vpn_controll_app.Servers
use vpn_controll_app.Servers.{is_selectable, list_available, pick_for_new_device}
use vpn_controll_app.Servers.Pick.{pick-least}
use vpn_controll_app.Servers.Status.{health_check-disabled_iff}
use vpn_controll_app.Tests.Sample.{outside, node, store}

-- A second node, with no device.
abbrev oslo : ServerNode
oslo = record node { id = 8; name = "oslo"; created_at = 21 }

abbrev two : Store
two = record store { server_nodes = (5, node) ∷ (8, oslo) ∷ [] }

least_example :
    (is_selectable oslo ≡ true)
    × (count_active_devices_for_server 8 two ≤ count_active_devices_for_server 5 two)
unfolding pick_for_new_device list_available list_server_nodes is_selectable sorted insert_up min_by
    min_from values lookup count_active_devices_for_server
least_example = pick-least two oslo node 5 refl refl refl

abbrev resting : ServerNode
resting = record node { status = ServerStatus.disabled }

abbrev closed : Store
closed = record store { server_nodes = (5, resting) ∷ [] }

abbrev checked : Result ServerNode × Store
checked = Servers.health_check outside 5 none closed

abbrev node_of : Result ServerNode → ServerNode
node_of (ok n) = n
node_of (err e) = node

disabled_example :
    (lookup 5 checked.1.server_nodes ≡ some (node_of checked.0))
    × (((node_of checked.0).status ≡ ServerStatus.disabled)
        ↔ (resting.status ≡ ServerStatus.disabled))
unfolding lookup Servers.health_check Servers.probe Agent.health Agent.status Servers.check_passed
disabled_example =
    health_check-disabled_iff outside 5 none resting (node_of checked.0) closed checked.1 refl refl
