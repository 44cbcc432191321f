-- ===== src/Servers/Choice.antt =====
-- Which nodes a new device may be placed on (backend/app/services/server_service.py).
use vpn_controll_app.Base.{Bool, true, false, not, ◌&&◌, Option, List, filter, nat_Eq}
use vpn_controll_app.Base.Sort.{min_by}
use vpn_controll_app.Domain.Status.{ServerStatus, ServerStatus_Eq}
use vpn_controll_app.Domain.Entities.{ServerNode}
use vpn_controll_app.Errors.Code.{ErrorCode, ErrorCode_Eq}
use vpn_controll_app.Errors.{app}
use vpn_controll_app.Storage.State.{Store}
use vpn_controll_app.Storage.Action.{Action, raise_if}
use vpn_controll_app.Storage.Tables.{list_server_nodes, count_active_devices_for_server}

-- `node.status in _SELECTABLE_STATUSES`
abbrev pub is_selectable_status : ServerStatus → Bool
is_selectable_status ServerStatus.online = true
is_selectable_status ServerStatus.warning = true
is_selectable_status _ = false

unfoldable pub is_selectable : ServerNode → Bool
is_selectable node = node.is_available_for_new_devices && is_selectable_status node.status

unfoldable pub list_available : Store → List ServerNode
list_available s = filter is_selectable (list_server_nodes s)

-- The least loaded of the available nodes; of several, the one created first.
unfoldable pub pick_for_new_device : Store → Option ServerNode
pick_for_new_device s = min_by (λ n. count_active_devices_for_server n.id s) (list_available s)

unfoldable pub ensure_selectable : ServerNode → Action (Unit {0})
ensure_selectable node =
    raise_if (not (is_selectable node))
      (app ErrorCode.server_unavailable "Этот сервер сейчас недоступен для новых устройств" 503)
