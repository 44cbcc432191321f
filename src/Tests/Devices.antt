-- ===== src/Tests/Devices.antt =====
-- The theorems about devices at concrete inputs.
use vpn_controll_app.Base.{nat_Eq, ◌≤◌, ◌<◌, ◌≡◌, ap, ◌⊎◌, ◌↔◌, ◌+◌, refl, arith, none, some, max}
use vpn_controll_app.Base.Sort.{sorted, insert_up, min_by, min_from}
use vpn_controll_app.Dict.{lookup, insert, values}
use vpn_controll_app.Domain.Status.{UserRole, DeviceStatus}
use vpn_controll_app.Domain.Entities.{User, Device}
use vpn_controll_app.Errors.Code.{ErrorCode}
use vpn_controll_app.Errors.{app_with, not_found}
use vpn_controll_app.Domain.Json.{num, field, end}
use vpn_controll_app.Storage.State.{Store}
use vpn_controll_app.Storage.Action.{Result, ok, err}
use vpn_controll_app.Storage.Tables.{
  save_device, count_devices_toward_limit, count_active_devices_for_server, list_server_nodes,
  save_issue,
}
use vpn_controll_app.Agent
use vpn_controll_app.Audit.{log}
use vpn_controll_app.Servers.{is_selectable, list_available, pick_for_new_device, ensure_selectable}
use vpn_controll_app.Servers
use vpn_controll_app.Devices
use vpn_controll_app.Devices.{IssueResult}
use vpn_controll_app.Devices.Limit.{used, FreshDevices}
use vpn_controll_app.Devices.Create.{
  create-within-limit, create-one_place, create-other_members, create-limit_reached,
}
use vpn_controll_app.Devices.Access.{get_for_actor_iff, revoke-err, revoke-ok, revoke-revoke}
use vpn_controll_app.Devices.Results.{create-issue_result}
use vpn_controll_app.Tests.Sample.{outside, settings, member, phone, store, client}

fresh : FreshDevices outside store
unfolding lookup
fresh n later = ground arith

within_limit_example :
    used 1 (Devices.create outside settings member "laptop" none client store).1.devices
    ≤ max 2 (used 1 store.devices)
within_limit_example =
    create-within-limit outside settings member "laptop" none client store 2 fresh refl refl

-- A run that issues Ann's laptop.
abbrev made : Result (Device × IssueResult) × Store
made = Devices.create outside settings member "laptop" none client store

abbrev device_of : Result (Device × IssueResult) → Device
device_of (ok (d, r)) = d
device_of (err e) = phone

abbrev result_of : Result (Device × IssueResult) → IssueResult
result_of (ok (d, r)) = r
result_of (err e) = record { device_id = 0; config = ""; vpn_url = none; expires_at = 0 }

made_ok : made ≡ (ok (device_of made.0, result_of made.0), made.1)
unfolding Devices.create Devices.place Devices.enforce_limit Devices.check_limit Devices.choose_node
    Devices.provision Devices.finish_create Devices.issue_done Servers.get pick_for_new_device
    list_available is_selectable list_server_nodes sorted insert_up min_by min_from values lookup
    insert count_devices_toward_limit count_active_devices_for_server save_device Agent.issue_peer
    Agent.request Agent.expect Agent.sign_headers Agent.send Agent.sign_agent_request log
made_ok = refl

one_place_example : (used 1 made.1.devices ≡ used 1 store.devices + 1) × (used 1 made.1.devices ≤ 2)
one_place_example =
    create-one_place outside settings member "laptop" none client store 2 (device_of made.0)
      (result_of made.0) fresh refl refl
      (ap (λ (p : Result (Device × IssueResult) × Store). p.0) made_ok)

other_members_example : used 2 made.1.devices ≡ used 2 store.devices
other_members_example =
    create-other_members outside settings member "laptop" none client store 2 2 fresh refl refl
      (ground arith)

one_used : 1 ≤ used 1 store.devices
unfolding values
one_used = ground arith

limit_reached_example :
    Devices.create outside settings
      (record member { device_limit = some 1 })
      "laptop"
      none
      client
      store
    ≡ (
      err (
          app_with ErrorCode.device_limit_reached "Лимит устройств закончился" 409
            (field "used" (num (used 1 store.devices)) (field "limit" (num 1) end))),
      store,
    )
limit_reached_example =
    create-limit_reached outside settings (record member { device_limit = some 1 }) "laptop" none
      client store 1 refl refl one_used

early : outside.clock made.1.asked < (result_of made.0).expires_at
unfolding Devices.create Devices.place Devices.enforce_limit Devices.check_limit Devices.choose_node
    Devices.provision Devices.finish_create Devices.issue_done Servers.get pick_for_new_device
    list_available is_selectable list_server_nodes sorted insert_up min_by min_from values lookup
    insert count_devices_toward_limit count_active_devices_for_server save_device Agent.issue_peer
    Agent.request Agent.expect Agent.sign_headers Agent.send Agent.sign_agent_request log save_issue
early = omega arith

still :
    outside.clock
      (Devices.issue_result outside settings member (device_of made.0).id made.1).1.asked
    < (result_of made.0).expires_at
unfolding Devices.create Devices.place Devices.enforce_limit Devices.check_limit Devices.choose_node
    Devices.provision Devices.finish_create Devices.issue_done Servers.get pick_for_new_device
    list_available is_selectable list_server_nodes sorted insert_up min_by min_from values lookup
    insert count_devices_toward_limit count_active_devices_for_server save_device Agent.issue_peer
    Agent.request Agent.expect Agent.sign_headers Agent.send Agent.sign_agent_request log
    Devices.issue_result Devices.get_for_actor Devices.read_stored Devices.read_issue
    Devices.mark_consumed save_issue
still = omega arith

issue_result_example :
    ((Devices.issue_result outside settings member (device_of made.0).id made.1).0
      ≡ ok (result_of made.0))
    × ((Devices.issue_result outside settings member
          (device_of made.0).id
          (Devices.issue_result outside settings member (device_of made.0).id made.1).1).0
        ≡ ok (result_of made.0))
unfolding Devices.create Devices.place Devices.enforce_limit Devices.check_limit Devices.choose_node
    Devices.provision Devices.finish_create Devices.issue_done Servers.get pick_for_new_device
    list_available is_selectable list_server_nodes sorted insert_up min_by min_from values lookup
    insert count_devices_toward_limit count_active_devices_for_server save_device Agent.issue_peer
    Agent.request Agent.expect Agent.sign_headers Agent.send Agent.sign_agent_request log
issue_result_example =
    create-issue_result outside settings member (λ n s. refl) (λ n s. refl) "laptop" none client
      store (device_of made.0) (result_of made.0) made.1 made_ok early still

get_for_actor_example : (Devices.get_for_actor member 6 store ≡ (ok phone, store)) ↔ (
    (lookup 6 store.devices ≡ some phone)
    × ((phone.user_id ≡ member.id) ⊎ (member.role ≡ UserRole.admin)))
get_for_actor_example = get_for_actor_iff member 6 store phone

abbrev stranger : User
stranger = record member { id = 3; login = "eve" }

revoke_err_example :
    let t = (Devices.revoke outside settings stranger 6 client store).1 in
    (t.devices ≡ store.devices) × (t.issues ≡ store.issues)
unfolding lookup Devices.revoke Devices.get_for_actor
revoke_err_example =
    revoke-err outside settings stranger phone client store (not_found "Устройство не найдено") refl
      refl

abbrev revoked : Result Device × Store
revoked = Devices.revoke outside settings member 6 client store

abbrev revoked_device : Result Device → Device
revoked_device (ok d) = d
revoked_device (err e) = phone

revoke_ok_example :
    ((revoked_device revoked.0).status ≡ DeviceStatus.revoked)
    × (lookup 6 revoked.1.devices ≡ some (revoked_device revoked.0))
    × (lookup 6 revoked.1.issues ≡ none)
unfolding lookup Devices.revoke Devices.get_for_actor Devices.revoke_known Devices.revoke_on_node
    Agent.revoke_peer log
revoke_ok_example =
    revoke-ok outside settings member phone (revoked_device revoked.0) client store refl
      (ground arith) refl

revoke-revoke_example :
    Devices.revoke outside settings member 6 client revoked.1
    ≡ (ok (revoked_device revoked.0), revoked.1)
unfolding lookup Devices.revoke Devices.get_for_actor Devices.revoke_known Devices.revoke_on_node
    Agent.revoke_peer log
revoke-revoke_example =
    revoke-revoke outside settings member phone (revoked_device revoked.0) client client store refl
      refl
