-- ===== src/Devices/Limit.antt =====
-- The limit of devices: what `create` does to the number of devices that count toward it.
use vpn_controll_app.Base.{
  ℕ, suc, ◌+◌, ◌≤◌, ◌&&◌, String, none, some, ◌≡◌, ◌∙◌, ap, refl, arith, ◌==◌, nat_Eq, count,
  concat, if◌then◌else◌,
}
use vpn_controll_app.Dict.{Dict, lookup, insert, values}
use vpn_controll_app.Dict.Laws.{lookup-insert_self, count-insert_new, count-insert_old}
use vpn_controll_app.Domain.Status.{DeviceStatus}
use vpn_controll_app.Domain.Json.{num, end, field}
use vpn_controll_app.Domain.Entities.{User, Device, ServerNode}
use vpn_controll_app.Errors.{
  AppError, app_error, setup_step_error, value_error, key_error, attribute_error,
}
use vpn_controll_app.Outside.{Outside}
use vpn_controll_app.Settings.{Settings}
use vpn_controll_app.Audit.{log, ClientMeta}
use vpn_controll_app.Agent
use vpn_controll_app.Agent.{AgentIssueResult}
use vpn_controll_app.Agent.Frame.{issue_peer-OnlyAsked}
use vpn_controll_app.Storage.State.{Store}
use vpn_controll_app.Storage.Action.{Result, ok, err}
use vpn_controll_app.Storage.Tables.{save_device, is_counted, save_issue}
use vpn_controll_app.Devices.{
  IssueResult, new_device, issue_failed, issue_done, finish_create, provision,
}

-- The ids that the outside has yet to give name no device.
abbrev pub FreshDevices : Outside → Store → Type 0
FreshDevices o s = (n : ℕ) → s.asked ≤ n → lookup (o.uuid4 n) s.devices ≡ none

-- How many devices of a member count, in a table of devices.
abbrev pub used : ℕ → Dict ℕ Device → ℕ
used user_id d = count (λ x. x.user_id == user_id && is_counted x.status) (values d)

-- Whether a device counts for a member, as a number.
abbrev weight : ℕ → Device → ℕ
weight user_id d = if d.user_id == user_id && is_counted d.status then 1 else 0

module _ (o : Outside) (settings : Settings) (user : User) where
  -- An active device counts as much as the provisioning one that it replaces.
  issue_done-used :
      (u : ℕ) (device : Device) (result : AgentIssueResult) (client : ClientMeta) (s : Store)
      → lookup device.id s.devices ≡ some device
      → device.status ≡ DeviceStatus.provisioning
      → used u (issue_done o settings user device result client s).1.devices ≡ used u s.devices
  unfolding issue_done save_device save_issue log
  issue_done-used u device result client s stored fresh = ground (
    arith,
    count-insert_old (λ x. x.user_id == u && is_counted x.status) device.id
        (record device {
          public_key = some result.public_key;
          client_ip = some result.client_ip;
          status = DeviceStatus.active;
          last_config_issued_at = some (o.clock s.asked);
          updated_at = o.clock s.asked;
        })
        device s.devices,
  )

  -- A failed device no longer counts.
  issue_failed-used :
      (u : ℕ) (device : Device) (exc : AppError) (client : ClientMeta) (s : Store)
      → lookup device.id s.devices ≡ some device
      → device.status ≡ DeviceStatus.provisioning
      → used u (issue_failed o settings user device exc client s).1.devices + weight u device
        ≡ used u s.devices
  unfolding issue_failed save_device log
  issue_failed-used u device exc client s stored fresh = ground (
    arith,
    count-insert_old (λ x. x.user_id == u && is_counted x.status) device.id
        (record device {
          status = DeviceStatus.failed;
          failure_message = some exc.message;
          updated_at = o.clock s.asked;
        })
        device s.devices,
  )

  -- The device that `create` adds, as a number of counted devices of a member.
  abbrev own : ℕ → ℕ
  own u = if user.id == u then 1 else 0

  -- What `create` adds to the count, by how it ends: an `AppError` of the agent frees the place
  -- again, any other exception leaves the device as it is, provisioning.
  abbrev pub added : ℕ → Result (Device × IssueResult) → ℕ
  added u (ok _) = own u
  added u (err (app_error _)) = 0
  added u (err _) = own u

  finish_create-used :
      (u : ℕ) (device : Device) (result : Result AgentIssueResult) (client : ClientMeta) (s : Store)
      (n : ℕ)
      → lookup device.id s.devices ≡ some device
      → device.status ≡ DeviceStatus.provisioning
      → device.user_id ≡ user.id
      → used u s.devices ≡ n + own u
      → let (r, t) = finish_create o settings user device result client s in
        used u t.devices ≡ n + added u r
  unfolding finish_create issue_done issue_failed log save_device save_issue
  finish_create-used u device (ok result) client s n stored fresh mine c =
      issue_done-used u device result client s stored fresh ∙ c
  finish_create-used u device (err (app_error exc)) client s n stored fresh mine c =
      let w : weight u device ≡ own u = ground arith in
      omega (arith, issue_failed-used u device exc client s stored fresh)
  finish_create-used u device (err (setup_step_error m)) client s n stored fresh mine c = c
  finish_create-used u device (err (value_error m)) client s n stored fresh mine c = c
  finish_create-used u device (err (key_error m)) client s n stored fresh mine c = c
  finish_create-used u device (err attribute_error) client s n stored fresh mine c = c

  -- The state in which the agent is called.
  abbrev pub asking : ServerNode → String → Store → Store
  asking node name s = record s {
    asked = suc (suc s.asked);
    devices =
        insert (o.uuid4 (suc s.asked))
          (new_device (o.uuid4 (suc s.asked)) user node name (o.clock s.asked)) s.devices;
  }

  pub provision-used :
      (u : ℕ) (node : ServerNode) (name : String) (client : ClientMeta) (s : Store)
      → FreshDevices o s
      → let (r, t) = provision o settings user node name client s in
        used u t.devices ≡ used u s.devices + added u r
  unfolding provision save_device
  provision-used u node name client s fresh =
      finish_create-used u device (called s1).0 client (called s1).1 (used u s.devices)
        (rw kept (lookup-insert_self device.id device s.devices)) refl refl
        (rw kept (
          ground (
            arith,
            count-insert_new (λ x. x.user_id == u && is_counted x.status) device.id device
                s.devices,
            fresh (suc s.asked),
          )))
    where
      device : Device
      device = new_device (o.uuid4 (suc s.asked)) user node name (o.clock s.asked)

      s1 : Store
      s1 = asking node name s

      called : Store → Result AgentIssueResult × Store
      called =
          Agent.issue_peer o node (concat user.display_name (concat " — " device.name))
            node.public_host (field "backend_device_id" (num device.id) end)

      kept : (called s1).1.devices ≡ s1.devices
      kept = ap (λ (w : Store). w.devices) (issue_peer-OnlyAsked o node _ _ _ s1).0
