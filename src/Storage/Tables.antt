-- ===== src/Storage/Tables.antt =====
-- The methods of `InMemoryStorage`: one function on the state for each. A method that only
-- reads takes the state and returns the value.
use vpn_controll_app.Base.{
  ℕ, ◌-◌, Bool, true, false, ◌&&◌, not, Option, none, some, List, [], ◌∷◌, ◌++◌, String, length,
  filter, count, any, find, drop, reverse, leb, ◌==◌, nat_Eq, string_Eq, if◌then◌else◌, is_some,
  strip,
}
use vpn_controll_app.Base.Sort.{sorted, sorted_reverse}
use vpn_controll_app.Dict.{lookup, insert, erase, values, map_values}
use vpn_controll_app.Domain.Status.{
  UserRole, DeviceStatus, UserRole_Eq, DeviceStatus_Eq, SetupJobStatus_Eq,
}
use vpn_controll_app.Domain.Entities.{
  User, Session, ServerNode, Device, DeviceConfigIssue, SupportContribution, SupportSettings,
  AuditLogEntry,
}
use vpn_controll_app.Outside.{Outside}
use vpn_controll_app.Storage.State.{Store}

-- users

unfoldable pub save_user : User → Store → Store
save_user u s = record s { users = insert u.id u s.users }

abbrev pub get_user : ℕ → Store → Option User
get_user k s = lookup k s.users

-- `login.strip().lower()`
unfoldable pub normalize : Outside → String → String
normalize o login = o.lower (strip login)

unfoldable pub get_user_by_login : Outside → String → Store → Option User
get_user_by_login o login s = find (λ u. u.login == normalize o login) (values s.users)

unfoldable pub list_users : Store → List User
list_users s = sorted (λ u. u.created_at) (values s.users)

unfoldable pub has_admin : Store → Bool
has_admin s = any (λ u. u.role == UserRole.admin) (values s.users)

-- sessions, keyed by the token's hash

unfoldable pub save_session : Session → Store → Store
save_session x s = record s { sessions = insert x.token_hash x s.sessions }

abbrev pub get_session_by_token_hash : ℕ → Store → Option Session
get_session_by_token_hash h s = lookup h s.sessions

-- One round of the loop of `revoke_sessions_for_user`.
unfoldable pub revoke_if_open : ℕ → ℕ → Session → Session
revoke_if_open user_id now x =
    if x.user_id == user_id && not (is_some x.revoked_at)
    then record x { revoked_at = some now }
    else x

unfoldable pub revoke_sessions_for_user : ℕ → ℕ → Store → Store
revoke_sessions_for_user user_id now s = record s {
  sessions = map_values (revoke_if_open user_id now) s.sessions;
}

-- server nodes

unfoldable pub save_server_node : ServerNode → Store → Store
save_server_node n s = record s { server_nodes = insert n.id n s.server_nodes }

abbrev pub get_server_node : ℕ → Store → Option ServerNode
get_server_node k s = lookup k s.server_nodes

unfoldable pub list_server_nodes : Store → List ServerNode
list_server_nodes s = sorted (λ n. n.created_at) (values s.server_nodes)

-- devices

unfoldable pub save_device : Device → Store → Store
save_device d s = record s { devices = insert d.id d s.devices }

abbrev pub get_device : ℕ → Store → Option Device
get_device k s = lookup k s.devices

unfoldable pub list_devices_for_user : ℕ → Store → List Device
list_devices_for_user user_id s =
    sorted_reverse (λ d. d.created_at) (filter (λ d. d.user_id == user_id) (values s.devices))

-- `d.status in {PROVISIONING, ACTIVE}`
abbrev pub is_counted : DeviceStatus → Bool
is_counted DeviceStatus.provisioning = true
is_counted DeviceStatus.active = true
is_counted _ = false

unfoldable pub count_devices_toward_limit : ℕ → Store → ℕ
count_devices_toward_limit user_id s =
    count (λ d. d.user_id == user_id && is_counted d.status) (values s.devices)

unfoldable pub count_active_devices_for_server : ℕ → Store → ℕ
count_active_devices_for_server node_id s =
    count (λ d. d.server_node_id == node_id && is_counted d.status) (values s.devices)

-- device config issues, keyed by the device

unfoldable pub save_issue : DeviceConfigIssue → Store → Store
save_issue i s = record s { issues = insert i.device_id i s.issues }

abbrev pub get_issue : ℕ → Store → Option DeviceConfigIssue
get_issue k s = lookup k s.issues

unfoldable pub drop_issue : ℕ → Store → Store
drop_issue k s = record s { issues = erase k s.issues }

-- support

unfoldable pub add_contribution : SupportContribution → Store → Store
add_contribution c s = record s { contributions = s.contributions ++ (c ∷ []) }

unfoldable pub save_support_settings : SupportSettings → Store → Store
save_support_settings x s = record s { support_settings = x }

unfoldable pub list_contributions_for_user : ℕ → Store → List SupportContribution
list_contributions_for_user user_id s =
    sorted_reverse (λ c. c.recorded_at) (filter (λ c. c.user_id == user_id) s.contributions)

-- audit

unfoldable pub add_audit_entry : AuditLogEntry → Store → Store
add_audit_entry x s = record s { audit = s.audit ++ (x ∷ []) }

-- `list(reversed(self._audit[-limit:]))`, where `[-0:]` is the whole list.
unfoldable pub list_audit_entries : ℕ → Store → List AuditLogEntry
list_audit_entries limit s =
    reverse (if limit == 0 then s.audit else drop (length s.audit - limit) s.audit)

-- login rate limit

unfoldable pub failures_of : String → Store → List ℕ
failures_of key s = elim (lookup key s.login_failures) [ none ↦ [] | some l ↦ l ]

unfoldable pub record_login_failure : String → ℕ → Store → Store
record_login_failure key now s = record s {
  login_failures = insert key (failures_of key s ++ (now ∷ [])) s.login_failures;
}

-- The attempts that `count_login_failures` keeps; the others it forgets.
unfoldable pub fresh_failures : String → ℕ → Store → List ℕ
fresh_failures key since s = filter (λ a. leb since a) (failures_of key s)

unfoldable pub count_login_failures : String → ℕ → Store → ℕ × Store
count_login_failures key since s =
    let fresh = fresh_failures key since s in
    (length fresh, record s { login_failures = insert key fresh s.login_failures })

unfoldable pub clear_login_failures : String → Store → Store
clear_login_failures key s = record s { login_failures = erase key s.login_failures }
