-- ===== src/Api/Members.antt =====
-- The routes for members: backend/app/api/routes/auth.py, me.py, devices.py, servers.py and
-- support.py.
use vpn_controll_app.Base.{
  ℕ, ◌*◌, Bool, true, not, ◌||◌, String, Option, none, some, map, filter, find, take, ◌==◌, nat_Eq,
  if◌then◌else◌, is_some, is_blank,
}
use vpn_controll_app.Domain.Status.{DeviceStatus, DeviceStatus_Eq}
use vpn_controll_app.Domain.Entities.{User, Device}
use vpn_controll_app.Errors.{not_found}
use vpn_controll_app.Outside.{Outside}
use vpn_controll_app.Settings.{Settings}
use vpn_controll_app.Agent.{text_or_empty}
use vpn_controll_app.Auth
use vpn_controll_app.Devices
use vpn_controll_app.Devices.{list_for_user, server_name}
use vpn_controll_app.Servers.{list_available}
use vpn_controll_app.Support.{visible_for, view_for, history_for}
use vpn_controll_app.Storage.State.{Store}
use vpn_controll_app.Storage.Tables.{count_devices_toward_limit}
use vpn_controll_app.Storage.Action.{Action, pure, gets, or_raise, when, ◌>>=◌, ◌>>◌}
use vpn_controll_app.Api.Schemas.{user_out, device_out, server_out, DeviceOut}
use vpn_controll_app.Api.Schemas.Records.{contribution_out}
use vpn_controll_app.Api.Request.{HttpRequest, Payload, Dashboard, Cookie}
use vpn_controll_app.Api.Guards.{cookie_token, as_user}

-- `DeviceOut.from_domain(d, container.devices.server_name(d))`
unfoldable pub show_device : Store → Device → DeviceOut
show_device s d = device_out d (server_name d s)

-- `user.device_limit_unlimited or user.device_limit is None`
unfoldable pub is_unlimited : User → Bool
is_unlimited user = user.device_limit_unlimited || not (is_some user.device_limit)

-- The body of `dashboard`, which only reads.
unfoldable pub dashboard_of : User → Store → Dashboard
unfolding is_unlimited show_device
dashboard_of user s =
    let visible = visible_for user s in
    let recent =
      take 3 (filter (λ d. not (d.status == DeviceStatus.revoked)) (list_for_user user.id s)) in
    record {
      user = user_out user;
      is_active = user.is_active;
      message = "Твой доступ активен";
      used = count_devices_toward_limit user.id s;
      limit = if is_unlimited user then none else user.device_limit;
      unlimited = is_unlimited user;
      support_visible = visible;
      support_hint = if visible then some "Можно поддержать сервер" else none;
      recent_devices = map (show_device s) recent;
    }

module _ (o : Outside) (settings : Settings) where
  abbrev session_cookie : String → Cookie
  session_cookie token = record {
    key = settings.session_cookie_name;
    value = token;
    httponly = true;
    samesite = "lax";
    secure = settings.cookie_secure;
    max_age = settings.session_ttl_days * 86400;
    path = "/";
  }

  unfoldable pub login : HttpRequest → String → String → Action Payload
  login r given password = do
    (user, token) ← Auth.login o settings given password r.client
    pure (Payload.logged_in (user_out user) (session_cookie token))

  unfoldable pub logout : HttpRequest → Action Payload
  logout r = do
    when (not (is_blank (cookie_token o settings r)))
        (Auth.logout o settings (text_or_empty (cookie_token o settings r)) r.client)
    pure (Payload.logged_out settings.session_cookie_name)

  unfoldable pub session : HttpRequest → Action Payload
  session r = as_user o settings r λ user. pure (Payload.user (user_out user))

  unfoldable pub me : HttpRequest → Action Payload
  me r = as_user o settings r λ user. pure (Payload.user (user_out user))

  unfoldable pub dashboard : HttpRequest → Action Payload
  dashboard r = as_user o settings r λ user. gets (λ s. Payload.dashboard (dashboard_of user s))

  unfoldable pub list_devices : HttpRequest → Action Payload
  unfolding show_device
  list_devices r =
      as_user o settings r
        λ user. gets (λ s. Payload.devices (map (show_device s) (list_for_user user.id s)))

  unfoldable pub create_device : HttpRequest → String → Option ℕ → Action Payload
  unfolding show_device
  create_device r name server_node_id = as_user o settings r λ user. do
    (device, issue) ← Devices.create o settings user name server_node_id r.client
    gets (λ s. Payload.created_device (show_device s device) issue)

  unfoldable pub get_device : HttpRequest → ℕ → Action Payload
  unfolding show_device
  get_device r device_id = as_user o settings r λ user. do
    device ← Devices.get_for_actor user device_id
    gets (λ s. Payload.device (show_device s device))

  unfoldable pub revoke_device : HttpRequest → ℕ → Action Payload
  unfolding show_device
  revoke_device r device_id = as_user o settings r λ user. do
    device ← Devices.revoke o settings user device_id r.client
    gets (λ s. Payload.device (show_device s device))

  unfoldable pub issue_result : HttpRequest → ℕ → Action Payload
  issue_result r device_id =
      as_user o settings r
        λ user. Devices.issue_result o settings user device_id >>= λ x. pure (Payload.issue x)

  unfoldable pub list_servers : HttpRequest → Action Payload
  list_servers r =
      as_user o settings r λ user. gets (λ s. Payload.servers (map server_out (list_available s)))

  unfoldable pub get_server : HttpRequest → ℕ → Action Payload
  get_server r server_id = as_user o settings r λ user. do
    node ←
        or_raise (← gets (λ s. find (λ n. n.id == server_id) (list_available s)))
          (not_found "Сервер не найден")
    pure (Payload.server (server_out node))

  unfoldable pub support_view : HttpRequest → Action Payload
  support_view r = as_user o settings r λ user. gets (λ s. Payload.support_view (view_for user s))

  unfoldable pub support_history : HttpRequest → Action Payload
  support_history r = as_user o settings r λ user. do
    (visible, items) ← gets (history_for user)
    pure (Payload.support_history visible (map contribution_out items))
