-- ===== src/Devices/Visible.antt =====
-- Which devices an actor sees (backend/app/services/device_service.py).
use vpn_controll_app.Base.{
  ℕ, Bool, not, ◌&&◌, String, Option, none, some, List, ◌==◌, nat_Eq, if◌then◌else◌,
}
use vpn_controll_app.Domain.Status.{UserRole, UserRole_Eq, DeviceStatus_Eq}
use vpn_controll_app.Domain.Entities.{User, Device, ServerNode}
use vpn_controll_app.Errors.Code.{ErrorCode_Eq}
use vpn_controll_app.Errors.{not_found}
use vpn_controll_app.Storage.State.{Store}
use vpn_controll_app.Storage.Action.{Action, pure, raise, gets, ◌>>=◌}
use vpn_controll_app.Storage.Tables.{get_device, get_server_node, list_devices_for_user}

-- What the member receives: `{"device_id", "config", "vpn_url", "expires_at"}`.
pub record IssueResult : Type 0 where
  pub device_id : ℕ
  pub config : String
  pub vpn_url : Option String
  pub expires_at : ℕ

unfoldable pub list_for_user : ℕ → Store → List Device
list_for_user user_id = list_devices_for_user user_id

-- A device of another member looks as if it did not exist, but to an administrator.
unfoldable pub is_hidden_from : User → Device → Bool
is_hidden_from actor device = not (device.user_id == actor.id) && not (actor.role == UserRole.admin)

unfoldable pub visible : User → Option Device → Action Device
unfolding is_hidden_from
visible actor none = raise (not_found "Устройство не найдено")
visible actor (some device) =
    if is_hidden_from actor device then raise (not_found "Устройство не найдено") else pure device

unfoldable pub get_for_actor : User → ℕ → Action Device
unfolding visible
get_for_actor actor device_id = do visible actor (← gets (get_device device_id))

abbrev pub name_of : Option ServerNode → Option String
name_of none = none
name_of (some node) = some node.name

unfoldable pub server_name : Device → Store → Option String
server_name device s = name_of (get_server_node device.server_node_id s)
