-- ===== src/Devices.antt =====
-- Devices (backend/app/services/device_service.py): issuing and revoking VPN configurations,
-- and the result of an issue, which can be read until it expires. `create` and `revoke` hold
-- the storage's lock from end to end, so each is one call here.
mod Visible
mod Reading
pub mod Limit
pub mod Create
pub mod Access
pub mod Results
pub use Visible.*
pub use Reading.*
unfoldable pub use Visible.{list_for_user, is_hidden_from, visible, get_for_actor, server_name}
unfoldable pub use Reading.{mark_consumed, read_issue, read_stored, issue_result}
use vpn_controll_app.Base.{
  ℕ, ◌+◌, Bool, true, false, not, ◌&&◌, ◌||◌, String, Option, none, some, List, [], ◌∷◌, leb, ◌==◌,
  nat_Eq, is_some, is_blank, concat, strip, if◌then◌else◌,
}
use vpn_controll_app.Domain.Status.{UserRole, DeviceStatus, UserRole_Eq, DeviceStatus_Eq}
use vpn_controll_app.Domain.Json.{Value, num, str, Fields, end, field}
use vpn_controll_app.Domain.Entities.{User, Device, DeviceConfigIssue, ServerNode}
use vpn_controll_app.Errors.Code.{ErrorCode, ErrorCode_Eq, code_value}
use vpn_controll_app.Errors.{Error, AppError, app_error, app, app_with, not_found, value_error}
use vpn_controll_app.Outside.{Outside}
use vpn_controll_app.Settings.{Settings, minutes}
use vpn_controll_app.Agent
use vpn_controll_app.Agent.{AgentIssueResult}
use vpn_controll_app.Audit.{log, ClientMeta}
use vpn_controll_app.Servers
use vpn_controll_app.Servers.{ensure_selectable, pick_for_new_device}
use vpn_controll_app.Storage.State.{Store}
use vpn_controll_app.Storage.Action.{
  Action, Result, ok, err, pure, raise, gets, or_raise, ask, modify, raise_if, skip, ◌>>=◌, ◌>>◌,
}
use vpn_controll_app.Storage.Tables.{
  save_device, get_device, get_server_node, list_devices_for_user, count_devices_toward_limit,
  save_issue, get_issue, drop_issue,
}

-- The test of `_enforce_limit` once the member has a limit.
unfoldable pub check_limit : Option ℕ → ℕ → Action (Unit {0})
check_limit none used = skip
check_limit (some limit) used = raise_if (leb limit used) (
    app_with ErrorCode.device_limit_reached "Лимит устройств закончился" 409
      (field "used" (num used) (field "limit" (num limit) end)))

-- `_enforce_limit`: an unlimited member, or one with no limit, passes.
unfoldable pub enforce_limit : User → Action (Unit {0})
unfolding check_limit
enforce_limit user s =
    if user.device_limit_unlimited
    then (ok tt, s)
    else check_limit user.device_limit (count_devices_toward_limit user.id s) s

abbrev new_device : ℕ → User → ServerNode → String → ℕ → Device
new_device id user node name now = record {
  id = id;
  user_id = user.id;
  server_node_id = node.id;
  name = strip name;
  created_at = now;
  updated_at = now;
  status = DeviceStatus.provisioning;
  public_key = none;
  client_ip = none;
  last_config_issued_at = none;
  last_handshake_at = none;
  transfer_received_label = none;
  transfer_sent_label = none;
  last_agent_sync_at = none;
  revoked_at = none;
  failure_message = none;
}

module _ (o : Outside) (settings : Settings) where
  -- The node that the request names, or the least loaded one.
  unfoldable pub choose_node : Option ℕ → Action ServerNode
  choose_node (some node_id) = do node ← Servers.get o node_id; ensure_selectable node; pure node
  choose_node none = do
    or_raise (← gets pick_for_new_device)
        (app ErrorCode.server_unavailable "Сейчас нет доступного сервера — попробуй позже" 503)

  -- The `except AppError` of `create`: the device stays, as failed.
  unfoldable pub issue_failed :
      User → Device → AppError → ClientMeta → Action (Device × IssueResult)
  issue_failed user device exc client = do
    now ← ask o.clock
    modify (
        save_device (record device {
          status = DeviceStatus.failed;
          failure_message = some exc.message;
          updated_at = now;
        }))
    log o "device_issue_failed" (some user.id) (some "device") (some device.id)
        (field "code" (str (code_value exc.code))
          (field "server_node_id" (num device.server_node_id) end))
        client
    raise (app_error exc)

  -- The end of `create`, after the agent issued the peer.
  unfoldable pub issue_done :
      User → Device → AgentIssueResult → ClientMeta → Action (Device × IssueResult)
  issue_done user device result client = do
    now ← ask o.clock
    let active : Device = record device {
      public_key = some result.public_key;
      client_ip = some result.client_ip;
      status = DeviceStatus.active;
      last_config_issued_at = some now;
      updated_at = now;
    }
    modify (save_device active)
    id ← ask o.uuid4
    config_encrypted ← ask (λ n. o.encrypt n result.config)
    vpn_url_encrypted ← ask (λ n. o.encrypt n result.vpn_url)
    let expires_at = now + minutes settings.issue_result_ttl_minutes
    modify (
        save_issue (record {
          id = id;
          device_id = device.id;
          issued_to_user_id = user.id;
          created_at = now;
          expires_at = expires_at;
          config_encrypted = some config_encrypted;
          vpn_url_encrypted = some vpn_url_encrypted;
          consumed_at = none;
        }))
    log o "device_issued" (some user.id) (some "device") (some device.id)
        (field "server_node_id" (num device.server_node_id) end) client
    pure (
      active,
      record {
        device_id = device.id;
        config = result.config;
        vpn_url = some result.vpn_url;
        expires_at = expires_at;
      },
    )

  -- What follows the agent's answer; an error that is no `AppError` passes through.
  unfoldable pub finish_create :
      User → Device → Result AgentIssueResult → ClientMeta → Action (Device × IssueResult)
  finish_create user device (ok result) client = issue_done user device result client
  finish_create user device (err (app_error exc)) client = issue_failed user device exc client
  finish_create user device (err e) client = raise e

  -- The part of `create` after the node is known.
  unfoldable pub provision : User → ServerNode → String → ClientMeta → Action (Device × IssueResult)
  unfolding finish_create
  provision user node name client = do
    now ← ask o.clock
    id ← ask o.uuid4
    let device = new_device id user node name now
    modify (save_device device)
    result ← (λ s.
        let (r, t) =
          Agent.issue_peer o node (concat user.display_name (concat " — " device.name))
            node.public_host (field "backend_device_id" (num device.id) end) s in
        (ok r, t))
    finish_create user device result client

  -- `create` once the limit allows one more device.
  unfoldable pub place : User → String → Option ℕ → ClientMeta → Action (Device × IssueResult)
  place user name server_node_id client = do
    node ← choose_node server_node_id
    provision user node name client

  unfoldable pub create : User → String → Option ℕ → ClientMeta → Action (Device × IssueResult)
  create user name server_node_id client = do
    enforce_limit user
    place user name server_node_id client

  -- The call of the agent in `revoke`: an unavailable node stops the revocation, a node that
  -- rejects the request (the peer is gone already) does not.
  abbrev tolerate : Result Value → Action (Unit {0})
  tolerate (ok _) = skip
  tolerate (err (app_error exc)) =
      if exc.code == ErrorCode.agent_unavailable then raise (app_error exc) else skip
  tolerate (err e) = raise e

  unfoldable pub revoke_on_node : Option String → Option ServerNode → Action (Unit {0})
  revoke_on_node (some key) (some node) =
      if is_blank (some key)
      then skip
      else ((λ s. let (r, t) = Agent.revoke_peer o node key s in (ok r, t)) >>= tolerate)
  revoke_on_node _ _ = skip

  -- The end of `revoke`.
  unfoldable pub mark_revoked : User → Device → ClientMeta → Action Device
  mark_revoked actor device client = do
    now ← ask o.clock
    let revoked : Device = record device {
      status = DeviceStatus.revoked;
      revoked_at = some now;
      updated_at = now;
    }
    modify (save_device revoked)
    modify (drop_issue device.id)
    log o "device_revoked" (some actor.id) (some "device") (some device.id)
        (field "owner_user_id" (num device.user_id) end) client
    pure revoked

  -- `revoke` once the device is known.
  unfoldable pub revoke_known : User → Device → ClientMeta → Action Device
  unfolding mark_revoked
  revoke_known actor device client =
      if device.status == DeviceStatus.revoked then pure device else do
        node ← gets (get_server_node device.server_node_id)
        revoke_on_node device.public_key node
        mark_revoked actor device client

  unfoldable pub revoke : User → ℕ → ClientMeta → Action Device
  revoke actor device_id client = do
    device ← get_for_actor actor device_id
    revoke_known actor device client
