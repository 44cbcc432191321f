-- ===== src/Devices/Reading.antt =====
-- Reading the result of an issue (backend/app/services/device_service.py, issue_result).
use vpn_controll_app.Base.{
  ℕ, String, Option, none, some, leb, nat_Eq, is_some, is_blank, if◌then◌else◌,
}
use vpn_controll_app.Domain.Status.{UserRole_Eq, DeviceStatus_Eq}
use vpn_controll_app.Domain.Entities.{User, Device, DeviceConfigIssue}
use vpn_controll_app.Errors.Code.{ErrorCode, ErrorCode_Eq}
use vpn_controll_app.Errors.{app, not_found, value_error}
use vpn_controll_app.Outside.{Outside}
use vpn_controll_app.Settings.{Settings}
use vpn_controll_app.Storage.Action.{
  Action, pure, raise, gets, or_raise, ask, modify, skip, ◌>>=◌, ◌>>◌,
}
use vpn_controll_app.Storage.Tables.{save_issue, get_issue, drop_issue}
use vpn_controll_app.Devices.Visible.{IssueResult, get_for_actor}

module _ (o : Outside) (settings : Settings) where
  abbrev unseal : String → Action String
  unseal sealed = or_raise (o.decrypt sealed) (value_error "secret cannot be decrypted")

  -- `decrypt(x) if x else None`
  abbrev unseal_if_given : Option String → Action (Option String)
  unseal_if_given none = pure none
  unseal_if_given (some x) =
      if is_blank (some x) then pure none else (unseal x >>= λ v. pure (some v))

  -- The first read is noted; later reads are allowed too.
  unfoldable pub mark_consumed : DeviceConfigIssue → ℕ → Action (Unit {0})
  mark_consumed issue now =
      if is_some issue.consumed_at
      then skip
      else modify (save_issue (record issue { consumed_at = some now }))

  -- `issue_result` for an issue with a stored configuration.
  unfoldable pub read_issue : Device → DeviceConfigIssue → String → Action IssueResult
  read_issue device issue sealed = do
    now ← ask o.clock
    if leb issue.expires_at now
        then (modify (drop_issue device.id)
            >> raise (
                app ErrorCode.issue_result_expired "Срок действия истёк — выпусти конфиг заново"
                  404))
        else do
          mark_consumed issue now
          config ← unseal sealed
          vpn_url ← unseal_if_given issue.vpn_url_encrypted
          pure (record {
            device_id = device.id;
            config = config;
            vpn_url = vpn_url;
            expires_at = issue.expires_at;
          })

  -- `if issue is None or not issue.config_encrypted: raise …`
  unfoldable pub read_stored : Device → Option DeviceConfigIssue → Action IssueResult
  unfolding read_issue
  read_stored device none = raise (not_found "Результат выпуска недоступен — выпусти конфиг заново")
  read_stored device (some issue) = elim issue.config_encrypted [
    | none ↦ raise (not_found "Результат выпуска недоступен — выпусти конфиг заново")
    | some sealed ↦
        if is_blank (some sealed)
        then raise (not_found "Результат выпуска недоступен — выпусти конфиг заново")
        else read_issue device issue sealed
  ]

  unfoldable pub issue_result : User → ℕ → Action IssueResult
  issue_result actor device_id = do
    device ← get_for_actor actor device_id
    issue ← gets (get_issue device.id)
    read_stored device issue
