-- ===== src/Servers/Health.antt =====
-- Reading a node and asking its agent (backend/app/services/server_service.py): get, health_check and
-- agent_peers.
use vpn_controll_app.Base.{
  ℕ, Bool, false, not, ◌&&◌, String, Option, none, some, ◌==◌, nat_Eq, if◌then◌else◌,
}
use vpn_controll_app.Domain.Status.{ServerStatus, ServerStatus_Eq, server_status_value}
use vpn_controll_app.Domain.Json.{is_truthy, Value, str, obj, Fields, end, field, get_field}
use vpn_controll_app.Domain.Entities.{ServerNode}
use vpn_controll_app.Errors.Code.{ErrorCode, ErrorCode_Eq, code_value}
use vpn_controll_app.Errors.{AppError, app_error, key_error, not_found}
use vpn_controll_app.Outside.{Outside}
use vpn_controll_app.Agent
use vpn_controll_app.Audit.{log, no_client}
use vpn_controll_app.Storage.Action.{
  Action, Result, ok, err, pure, raise, gets, or_raise, ask, modify, when, ◌>>=◌, ◌>>◌,
}
use vpn_controll_app.Storage.Tables.{save_server_node, get_server_node}

-- `bool(payload.get(key))`
abbrev pub has_field : String → Fields → Bool
has_field key fs = elim (get_field key fs) [ none ↦ false | some v ↦ is_truthy v ]

module _ (o : Outside) where
  unfoldable pub get : ℕ → Action ServerNode
  get node_id = do or_raise (← gets (get_server_node node_id)) (not_found "Сервер не найден")

  -- A check never enables a disabled node.
  abbrev unless_disabled : ServerStatus → ServerStatus → ServerStatus
  unless_disabled old new = if old == ServerStatus.disabled then old else new

  -- The `except AppError` of `health_check`.
  unfoldable pub check_failed : Option ℕ → ServerNode → ℕ → AppError → Action ServerNode
  check_failed actor_user_id node now exc =
      if exc.code == ErrorCode.secret_required then raise (app_error exc) else do
        let saved : ServerNode = record node {
          status = unless_disabled node.status ServerStatus.offline;
          last_error = some exc.message;
          updated_at = now;
        }
        modify (save_server_node saved)
        log o "agent_call_failed" actor_user_id (some "server_node") (some node.id)
            (field "code" (str (code_value exc.code)) (field "details" (obj exc.details) end))
            no_client
        pure saved

  abbrev checked_status : Fields → ServerStatus
  checked_status payload =
      if has_field "container_running" payload && not (has_field "warnings" payload)
      then ServerStatus.online
      else ServerStatus.warning

  -- The save of a node that was checked, with its status before and after.
  unfoldable pub save_checked : Option ℕ → ServerNode → ServerStatus → ℕ → Action ServerNode
  save_checked actor_user_id node status now = do
    let saved : ServerNode = record node { status = status; updated_at = now }
    modify (save_server_node saved)
    when (not (status == node.status)) (
        log o "server_status_changed" actor_user_id (some "server_node") (some node.id)
          (field "from" (str (server_status_value node.status))
            (field "to" (str (server_status_value status)) end))
          no_client)
    pure saved

  -- `status_payload.get(…)`, unless the node is disabled; of a payload that is no object it raises,
  -- after the three assignments to the stored node.
  unfoldable pub judge : Option ℕ → ServerNode → ℕ → Value → Action ServerNode
  unfolding save_checked
  judge actor_user_id seen now (obj payload) =
      save_checked actor_user_id seen (checked_status payload) now
  judge actor_user_id seen now _ = modify (save_server_node seen) >> raise (key_error "object")

  -- The end of `health_check`, after the agent answered both requests.
  unfoldable pub check_passed : Option ℕ → ServerNode → ℕ → Value → Action ServerNode
  unfolding save_checked judge
  check_passed actor_user_id node now payload =
      let seen : ServerNode = record node {
        last_seen_at = some now;
        last_status_payload = some payload;
        last_error = none;
      } in
      if node.status == ServerStatus.disabled
      then save_checked actor_user_id seen ServerStatus.disabled now
      else judge actor_user_id seen now payload

  -- The two requests of a check, and the status payload.
  unfoldable pub probe : ServerNode → Action Value
  probe node = do alive ← Agent.health o node; Agent.status o node

  abbrev pub finish_check : Option ℕ → ServerNode → ℕ → Result Value → Action ServerNode
  finish_check actor_user_id node now (ok payload) = check_passed actor_user_id node now payload
  finish_check actor_user_id node now (err (app_error exc)) =
      check_failed actor_user_id node now exc
  finish_check actor_user_id node now (err e) = raise e

  unfoldable pub health_check : ℕ → Option ℕ → Action ServerNode
  unfolding get
  health_check node_id actor_user_id = do
    node ← get node_id
    now ← ask o.clock
    result ← (λ s. let (r, t) = probe node s in (ok r, t))
    finish_check actor_user_id node now result

  unfoldable pub agent_peers : ℕ → Action Value
  unfolding get
  agent_peers node_id = do Agent.peers o (← get node_id)
