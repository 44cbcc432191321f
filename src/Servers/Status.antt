-- ===== src/Servers/Status.antt =====
-- The status of a node under checks and switches.
use vpn_controll_app.Base.{
  ℕ, false, none, refl, inl, inr, Bool-cases, ◌==◌, suc, ◌≡◌, ◌↔◌, ◌∙◌, sym, arith, Option, some,
  nat_Eq,
}
use vpn_controll_app.Dict.{lookup}
use vpn_controll_app.Dict.Laws.{lookup-insert_self}
use vpn_controll_app.Domain.Status.{ServerStatus, ServerStatus_Eq}
use vpn_controll_app.Domain.Json.{Value, null, bool, num, str, arr, obj}
use vpn_controll_app.Domain.Entities.{ServerNode}
use vpn_controll_app.Errors.Code.{ErrorCode_Eq}
use vpn_controll_app.Errors.{
  AppError, app_error, setup_step_error, value_error, key_error, attribute_error,
}
use vpn_controll_app.Outside.{Outside}
use vpn_controll_app.Audit.{log}
use vpn_controll_app.Storage.State.{Store}
use vpn_controll_app.Storage.Action.{Result, ok, err, bind_ok, ask, ◌>>=◌}
use vpn_controll_app.Storage.Tables.{save_server_node}
use vpn_controll_app.Servers.{
  get, save_checked, judge, check_failed, check_passed, finish_check, probe, health_check,
}

module _ (o : Outside) where
  get_ok :
      (node_id : ℕ) (node : ServerNode) (s : Store)
      → lookup node_id s.server_nodes ≡ some node
      → get o node_id s ≡ (ok node, s)
  unfolding get
  get_ok node_id node s known = ground arith

  -- The state in which a check talks to the agent.
  abbrev asking : Store → Store
  asking s = record s { asked = suc s.asked }

  health_check_lem :
      (node_id : ℕ) (actor : Option ℕ) (node : ServerNode) (s : Store)
      → lookup node_id s.server_nodes ≡ some node
      → health_check o node_id actor s
        ≡ finish_check o actor node
            (o.clock s.asked)
            (probe o node (asking s)).0
            (probe o node (asking s)).1
  unfolding health_check
  health_check_lem node_id actor node s known =
      bind_ok (get o node_id)
        (λ n. ask o.clock >>= λ now. (λ t. let (r, u) = probe o n t in (ok r, u)) >>= λ result.
          finish_check o actor n now result)
        s (get_ok node_id node s known)

  -- How a check that returned left the node: disabled exactly if it was, and stored.
  abbrev Checked : ServerNode → ServerNode → Store → Type 0
  Checked node saved t =
      (lookup node.id t.server_nodes ≡ some saved)
      × ((saved.status ≡ ServerStatus.disabled) ↔ (node.status ≡ ServerStatus.disabled))

  save_checked-Checked :
      (actor : Option ℕ) (node seen saved : ServerNode) (status : ServerStatus) (now : ℕ)
      (s t : Store)
      → seen.id ≡ node.id
      → ((status ≡ ServerStatus.disabled) ↔ (node.status ≡ ServerStatus.disabled))
      → save_checked o actor seen status now s ≡ (ok saved, t)
      → Checked node saved t
  unfolding save_checked save_server_node log
  save_checked-Checked actor node seen saved status now s t same both e =
      let moved : saved.status ≡ status = ground arith in
      (
        ground (arith, lookup-insert_self node.id saved s.server_nodes),
        (λ h. both.0 (sym moved ∙ h), λ h. moved ∙ both.1 h),
      )

  judge-Checked :
      (actor : Option ℕ) (node seen saved : ServerNode) (now : ℕ) (payload : Value) (s t : Store)
      → seen.id ≡ node.id
      → (node.status == ServerStatus.disabled) ≡ false
      → judge o actor seen now payload s ≡ (ok saved, t)
      → Checked node saved t
  unfolding judge
  judge-Checked actor node seen saved now (obj payload) s t same off e =
      save_checked-Checked actor node seen saved _ now s t same
        (λ h. ground arith, λ h. ground arith) e
  judge-Checked actor node seen saved now null s t same off e = cc
  judge-Checked actor node seen saved now (bool _) s t same off e = cc
  judge-Checked actor node seen saved now (num _) s t same off e = cc
  judge-Checked actor node seen saved now (str _) s t same off e = cc
  judge-Checked actor node seen saved now (arr _) s t same off e = cc

  check_passed-Checked :
      (actor : Option ℕ) (node saved : ServerNode) (now : ℕ) (payload : Value) (s t : Store)
      → check_passed o actor node now payload s ≡ (ok saved, t)
      → Checked node saved t
  unfolding check_passed
  check_passed-Checked actor node saved now payload s t e =
      let seen : ServerNode = record node {
        last_seen_at = some now;
        last_status_payload = some payload;
        last_error = none;
      } in
      elim (Bool-cases (node.status == ServerStatus.disabled)) [
        | inl off ↦
            save_checked-Checked actor node seen saved ServerStatus.disabled now s t refl
              (λ h. (ServerStatus_Eq.is_equal_iff _ _).0 off, λ h. refl) (rw off at e)
        | inr on ↦ judge-Checked actor node seen saved now payload s t refl on (rw on at e)
      ]

  check_failed-Checked :
      (actor : Option ℕ) (node saved : ServerNode) (now : ℕ) (exc : AppError) (s t : Store)
      → check_failed o actor node now exc s ≡ (ok saved, t)
      → Checked node saved t
  unfolding check_failed save_server_node log
  check_failed-Checked actor node saved now exc s t e = (
    ground (arith, lookup-insert_self node.id saved s.server_nodes),
    (λ h. ground arith, λ h. ground arith),
  )

  finish_check-Checked :
      (actor : Option ℕ) (node saved : ServerNode) (now : ℕ) (r : Result Value) (s t : Store)
      → finish_check o actor node now r s ≡ (ok saved, t)
      → Checked node saved t
  finish_check-Checked actor node saved now (ok payload) s t e =
      check_passed-Checked actor node saved now payload s t e
  finish_check-Checked actor node saved now (err (app_error exc)) s t e =
      check_failed-Checked actor node saved now exc s t e
  finish_check-Checked actor node saved now (err (setup_step_error m)) s t e = cc
  finish_check-Checked actor node saved now (err (value_error m)) s t e = cc
  finish_check-Checked actor node saved now (err (key_error m)) s t e = cc
  finish_check-Checked actor node saved now (err attribute_error) s t e = cc

  -- A health check of a stored node that returns stores the node that it returns, and that node is
  -- disabled exactly if it was before the check: whatever the agent answers, a check neither
  -- enables a disabled node nor disables one.
  pub health_check-disabled_iff :
      (node_id : ℕ) (actor : Option ℕ) (node saved : ServerNode) (s t : Store)
      → lookup node_id s.server_nodes ≡ some node
      → health_check o node_id actor s ≡ (ok saved, t)
      → (lookup node.id t.server_nodes ≡ some saved)
        × ((saved.status ≡ ServerStatus.disabled) ↔ (node.status ≡ ServerStatus.disabled))
  health_check-disabled_iff node_id actor node saved s t known e =
      finish_check-Checked actor node saved (o.clock s.asked) _ _ t
        (sym (health_check_lem node_id actor node s known) ∙ e)
