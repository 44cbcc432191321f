-- ===== src/Worker/Quiet.antt =====
-- The calls of the node service that the worker makes write no job.
use vpn_controll_app.Base.{
  ℕ, suc, ◌∙◌, ap, refl, arith, inl, inr, Bool, none, some, ◌==◌, nat_Eq, Bool-cases,
}
use vpn_controll_app.Domain.Status.{ServerStatus, ServerStatus_Eq, SetupJobStatus_Eq}
use vpn_controll_app.Domain.Entities.{ServerNode}
use vpn_controll_app.Domain.Json.{Value, null, bool, num, str, arr, obj}
use vpn_controll_app.Errors.{
  AppError, app_error, setup_step_error, value_error, key_error, attribute_error,
}
use vpn_controll_app.Outside.{Outside}
use vpn_controll_app.Agent
use vpn_controll_app.Agent.Frame.{health-OnlyAsked, status-OnlyAsked}
use vpn_controll_app.Audit.{log}
use vpn_controll_app.Servers
use vpn_controll_app.Storage.State.{Store}
use vpn_controll_app.Storage.Action.{Result, ok, err, ask, ◌>>=◌}
use vpn_controll_app.Storage.Tables.{save_server_node}
use vpn_controll_app.Worker.Outcome.{IsQuiet, bind-IsQuiet}

module _ (o : Outside) where
  save_checked-IsQuiet :
      (node : ServerNode) (status : ServerStatus) (now : ℕ)
      → IsQuiet (Servers.save_checked o none node status now)
  unfolding Servers.save_checked save_server_node log
  save_checked-IsQuiet node status now s = ground arith

  judge-IsQuiet :
      (node : ServerNode) (now : ℕ) (payload : Value)
      → IsQuiet (Servers.judge o none node now payload)
  unfolding Servers.judge save_server_node
  judge-IsQuiet node now (obj payload) = save_checked-IsQuiet node _ now
  judge-IsQuiet node now null = λ s. refl
  judge-IsQuiet node now (bool b) = λ s. refl
  judge-IsQuiet node now (num n) = λ s. refl
  judge-IsQuiet node now (str x) = λ s. refl
  judge-IsQuiet node now (arr xs) = λ s. refl

  check_passed-IsQuiet :
      (node : ServerNode) (now : ℕ) (payload : Value)
      → IsQuiet (Servers.check_passed o none node now payload)
  unfolding Servers.check_passed
  check_passed-IsQuiet node now payload =
      let seen : ServerNode = record node {
        last_seen_at = some now;
        last_status_payload = some payload;
        last_error = none;
      } in
      elim (Bool-cases (node.status == ServerStatus.disabled)) [
        | inl off ↦ rw off (save_checked-IsQuiet seen ServerStatus.disabled now)
        | inr on ↦ rw on (judge-IsQuiet seen now payload)
      ]

  check_failed-IsQuiet :
      (node : ServerNode) (now : ℕ) (exc : AppError)
      → IsQuiet (Servers.check_failed o none node now exc)
  unfolding Servers.check_failed save_server_node log
  check_failed-IsQuiet node now exc s = ground arith

  get-IsQuiet : (node_id : ℕ) → IsQuiet (Servers.get o node_id)
  unfolding Servers.get
  get-IsQuiet node_id s = ground arith

  finish_check-IsQuiet :
      (node : ServerNode) (now : ℕ) (r : Result Value)
      → IsQuiet (Servers.finish_check o none node now r)
  finish_check-IsQuiet node now (ok payload) = check_passed-IsQuiet node now payload
  finish_check-IsQuiet node now (err (app_error exc)) = check_failed-IsQuiet node now exc
  finish_check-IsQuiet node now (err (setup_step_error m)) = λ s. refl
  finish_check-IsQuiet node now (err (value_error m)) = λ s. refl
  finish_check-IsQuiet node now (err (key_error m)) = λ s. refl
  finish_check-IsQuiet node now (err attribute_error) = λ s. refl

  probe-IsQuiet : (node : ServerNode) → IsQuiet (Servers.probe o node)
  unfolding Servers.probe
  probe-IsQuiet node =
      bind-IsQuiet (Agent.health o node) (λ alive. Agent.status o node)
        (λ s. ap (λ (t : Store). t.setup_jobs) (health-OnlyAsked o node s).0)
        (λ alive s. ap (λ (t : Store). t.setup_jobs) (status-OnlyAsked o node s).0)

  pub health_check-IsQuiet : (node_id : ℕ) → IsQuiet (Servers.health_check o node_id none)
  unfolding Servers.health_check
  health_check-IsQuiet node_id =
      bind-IsQuiet (Servers.get o node_id)
        (λ node. ask o.clock >>= λ now.
          (λ s. let (r, t) = Servers.probe o node s in (ok r, t)) >>= λ result.
          Servers.finish_check o none node now result)
        (get-IsQuiet node_id)
        (λ node s.
          let (r, t) = Servers.probe o node (record s { asked = suc s.asked }) in
          finish_check-IsQuiet node (o.clock s.asked) r t
          ∙ probe-IsQuiet node (record s { asked = suc s.asked }))

  pub activate-IsQuiet :
      (node_id : ℕ) (available : Bool) → IsQuiet (Servers.activate_after_setup o node_id available)
  unfolding Servers.activate_after_setup Servers.get save_server_node
  activate-IsQuiet node_id available s = ground arith
