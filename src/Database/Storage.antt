-- ===== src/Database/Storage.antt =====
-- The methods of `DatabaseStorage` (backend/app/storage/db.py) but those of setup jobs. A result of
-- none is an exception; the session is then rolled back.
use mathlib.Core.Option
use vpn_controll_app.Base.{
  [], ◌++◌, ℕ, Bool, false, not, ◌&&◌, ◌||◌, String, Option, none, some, List, ◌∷◌, filter, count,
  find, take, ltb, ◌==◌, nat_Eq, string_Eq, if◌then◌else◌, is_some,
}
use vpn_controll_app.Base.Sort.{sorted, sorted_reverse}
use vpn_controll_app.Domain.Entities.{
  User, Session, ServerNode, Device, DeviceConfigIssue, SupportContribution, SupportSettings,
  AuditLogEntry,
}
use vpn_controll_app.Outside.{Outside}
use vpn_controll_app.Storage.Tables.{normalize}
use vpn_controll_app.Database.Rows.{user_row, user_of, device_row, device_of}
use vpn_controll_app.Database.Rows.Nodes.{server_node_row, server_node_of}
use vpn_controll_app.Database.Sql.{
  merge, merge_unique, update_where, delete_where, read_all, read_one,
}
use vpn_controll_app.Database.State.{Tables}

-- users

unfoldable pub save_user : User → Tables → Option Tables
save_user u db =
    Option.map (λ rows. record db { users = rows })
      (merge_unique (λ r. r.id) (λ r. r.login) (user_row u) db.users)

unfoldable pub get_user : ℕ → Tables → Option (Option User)
get_user user_id db = read_one user_of (find (λ r. r.id == user_id) db.users)

unfoldable pub get_user_by_login : Outside → String → Tables → Option (Option User)
get_user_by_login o login db = read_one user_of (find (λ r. r.login == normalize o login) db.users)

unfoldable pub list_users : Tables → Option (List User)
list_users db = read_all user_of (sorted (λ r. r.created_at) db.users)

unfoldable pub has_admin : Tables → Bool
has_admin db = not (count (λ r. r.role == "admin") db.users == 0)

-- sessions

unfoldable pub save_session : Session → Tables → Option Tables
save_session x db =
    Option.map (λ rows. record db { sessions = rows })
      (merge_unique (λ r. r.id) (λ r. r.token_hash) x db.sessions)

unfoldable pub get_session_by_token_hash : ℕ → Tables → Option Session
get_session_by_token_hash token_hash db = find (λ r. r.token_hash == token_hash) db.sessions

unfoldable pub revoke_sessions_for_user : ℕ → ℕ → Tables → Tables
revoke_sessions_for_user user_id now db = record db {
  sessions =
      update_where (λ r. r.user_id == user_id && not (is_some r.revoked_at))
        (λ r. record r { revoked_at = some now }) db.sessions;
}

-- server nodes

unfoldable pub save_server_node : ServerNode → Tables → Tables
save_server_node n db = record db {
  server_nodes = merge (λ r. r.id) (server_node_row n) db.server_nodes;
}

unfoldable pub get_server_node : ℕ → Tables → Option (Option ServerNode)
get_server_node node_id db = read_one server_node_of (find (λ r. r.id == node_id) db.server_nodes)

unfoldable pub list_server_nodes : Tables → Option (List ServerNode)
list_server_nodes db = read_all server_node_of (sorted (λ r. r.created_at) db.server_nodes)

-- devices

unfoldable pub save_device : Device → Tables → Tables
save_device d db = record db { devices = merge (λ r. r.id) (device_row d) db.devices }

unfoldable pub get_device : ℕ → Tables → Option (Option Device)
get_device device_id db = read_one device_of (find (λ r. r.id == device_id) db.devices)

unfoldable pub list_devices_for_user : ℕ → Tables → Option (List Device)
list_devices_for_user user_id db =
    read_all device_of
      (sorted_reverse (λ r. r.created_at) (filter (λ r. r.user_id == user_id) db.devices))

-- `DeviceRow.status.in_(["provisioning", "active"])`
abbrev pub is_counted : String → Bool
is_counted status = status == "provisioning" || status == "active"

unfoldable pub count_devices_toward_limit : ℕ → Tables → ℕ
count_devices_toward_limit user_id db =
    count (λ r. r.user_id == user_id && is_counted r.status) db.devices

unfoldable pub count_active_devices_for_server : ℕ → Tables → ℕ
count_active_devices_for_server node_id db =
    count (λ r. r.server_node_id == node_id && is_counted r.status) db.devices

-- device config issues

-- An issue under another id for the same device is deleted first.
unfoldable pub save_issue : DeviceConfigIssue → Tables → Tables
save_issue issue db = record db {
  issues = elim (find (λ r. r.device_id == issue.device_id) db.issues) [
    | none ↦ merge (λ r. r.id) issue db.issues
    | some old ↦
        merge (λ r. r.id) issue
          (if old.id == issue.id then db.issues else delete_where (λ r. r.id == old.id) db.issues)
  ];
}

unfoldable pub get_issue : ℕ → Tables → Option DeviceConfigIssue
get_issue device_id db = find (λ r. r.device_id == device_id) db.issues

unfoldable pub drop_issue : ℕ → Tables → Tables
drop_issue device_id db = record db {
  issues = delete_where (λ r. r.device_id == device_id) db.issues;
}

-- support

-- `SupportSettings()`
abbrev default_settings : SupportSettings
default_settings = record {
  title = "Поддержка сервера";
  description = "Если хочется — можно поддержать VPS. Это добровольно и ни на что не влияет.";
  sbp_phone = none;
  bank_name = none;
  extra_contact = none;
  monthly_cost_amount = none;
  reserve_amount = none;
  is_enabled = false;
  updated_by_user_id = none;
  updated_at = none;
}

-- `get_support_settings` with `_ensure_support_settings_row`
unfoldable pub get_support_settings : Tables → SupportSettings × Tables
get_support_settings db = elim db.support_settings [
  | none ↦ (default_settings, record db { support_settings = some default_settings })
  | some row ↦ (row, db)
]

unfoldable pub save_support_settings : SupportSettings → Tables → Tables
save_support_settings x db = record db { support_settings = some x }

unfoldable pub add_contribution : SupportContribution → Tables → Tables
add_contribution c db = record db { contributions = merge (λ r. r.id) c db.contributions }

unfoldable pub list_contributions_for_user : ℕ → Tables → List SupportContribution
list_contributions_for_user user_id db =
    sorted_reverse (λ r. r.recorded_at) (filter (λ r. r.user_id == user_id) db.contributions)

-- audit

unfoldable pub add_audit_entry : AuditLogEntry → Tables → Tables
add_audit_entry x db = record db { audit = merge (λ r. r.id) x db.audit }

unfoldable pub list_audit_entries : ℕ → Tables → List AuditLogEntry
list_audit_entries limit db = take limit (sorted_reverse (λ r. r.created_at) db.audit)

-- login rate limit

unfoldable pub record_login_failure : String → ℕ → Tables → Tables
record_login_failure key now db = record db {
  login_failures = db.login_failures ++ (record { key = key; attempted_at = now } ∷ []);
}

-- The failures of every key that are older than the window are deleted.
unfoldable pub count_login_failures : String → ℕ → Tables → ℕ × Tables
count_login_failures key since db =
    let kept = delete_where (λ r. ltb r.attempted_at since) db.login_failures in
    (count (λ r. r.key == key) kept, record db { login_failures = kept })

unfoldable pub clear_login_failures : String → Tables → Tables
clear_login_failures key db = record db {
  login_failures = delete_where (λ r. r.key == key) db.login_failures;
}
