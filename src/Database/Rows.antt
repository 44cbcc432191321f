-- ===== src/Database/Rows.antt =====
-- Rows of backend/app/db/models.py that store an enumeration by its value, and their conversions
-- in backend/app/storage/db.py: members, devices and events.
pub mod Nodes
use vpn_controll_app.Base.{ℕ, Bool, String, Option, none, some, ◌≡◌, refl}
use mathlib.Core.Option
use vpn_controll_app.Domain.Json.{Fields}
use vpn_controll_app.Domain.Entities.{User, Device, SetupJobEvent}
use vpn_controll_app.Domain.Status.{
  DeviceStatus, EventLevel, UserRole, device_status_value, event_level_value, role_value,
}
use vpn_controll_app.Database.Enums.{
  device_status_of, event_level_of, role_of, device_status_of-device_status_value,
  event_level_of-event_level_value, role_of-role_value,
}

pub record UserRow : Type 0 where
  pub id : ℕ
  pub login : String
  pub display_name : String
  pub role : String
  pub password_hash : String
  pub created_at : ℕ
  pub updated_at : ℕ
  pub is_active : Bool
  pub telegram_username : Option String
  pub device_limit : Option ℕ
  pub device_limit_unlimited : Bool
  pub show_server_support : Bool
  pub free_access : Bool
  pub note : Option String
  pub created_by_user_id : Option ℕ

unfoldable pub user_row : User → UserRow
user_row x = record {
  id = x.id;
  login = x.login;
  display_name = x.display_name;
  role = role_value x.role;
  password_hash = x.password_hash;
  created_at = x.created_at;
  updated_at = x.updated_at;
  is_active = x.is_active;
  telegram_username = x.telegram_username;
  device_limit = x.device_limit;
  device_limit_unlimited = x.device_limit_unlimited;
  show_server_support = x.show_server_support;
  free_access = x.free_access;
  note = x.note;
  created_by_user_id = x.created_by_user_id;
}

abbrev user_with : UserRow → UserRole → User
user_with r role = record {
  id = r.id;
  login = r.login;
  display_name = r.display_name;
  role = role;
  password_hash = r.password_hash;
  created_at = r.created_at;
  updated_at = r.updated_at;
  is_active = r.is_active;
  telegram_username = r.telegram_username;
  device_limit = r.device_limit;
  device_limit_unlimited = r.device_limit_unlimited;
  show_server_support = r.show_server_support;
  free_access = r.free_access;
  note = r.note;
  created_by_user_id = r.created_by_user_id;
}

unfoldable pub user_of : UserRow → Option User
user_of r = Option.map (user_with r) (role_of r.role)

pub user_of-user_row : (x : User) → user_of (user_row x) ≡ some x
unfolding user_of user_row
user_of-user_row x = rw (role_of-role_value x.role) refl

pub record DeviceRow : Type 0 where
  pub id : ℕ
  pub user_id : ℕ
  pub server_node_id : ℕ
  pub name : String
  pub created_at : ℕ
  pub updated_at : ℕ
  pub status : String
  pub public_key : Option String
  pub client_ip : Option String
  pub last_config_issued_at : Option ℕ
  pub last_handshake_at : Option ℕ
  pub transfer_received_label : Option String
  pub transfer_sent_label : Option String
  pub last_agent_sync_at : Option ℕ
  pub revoked_at : Option ℕ
  pub failure_message : Option String

unfoldable pub device_row : Device → DeviceRow
device_row x = record {
  id = x.id;
  user_id = x.user_id;
  server_node_id = x.server_node_id;
  name = x.name;
  created_at = x.created_at;
  updated_at = x.updated_at;
  status = device_status_value x.status;
  public_key = x.public_key;
  client_ip = x.client_ip;
  last_config_issued_at = x.last_config_issued_at;
  last_handshake_at = x.last_handshake_at;
  transfer_received_label = x.transfer_received_label;
  transfer_sent_label = x.transfer_sent_label;
  last_agent_sync_at = x.last_agent_sync_at;
  revoked_at = x.revoked_at;
  failure_message = x.failure_message;
}

abbrev device_with : DeviceRow → DeviceStatus → Device
device_with r status = record {
  id = r.id;
  user_id = r.user_id;
  server_node_id = r.server_node_id;
  name = r.name;
  created_at = r.created_at;
  updated_at = r.updated_at;
  status = status;
  public_key = r.public_key;
  client_ip = r.client_ip;
  last_config_issued_at = r.last_config_issued_at;
  last_handshake_at = r.last_handshake_at;
  transfer_received_label = r.transfer_received_label;
  transfer_sent_label = r.transfer_sent_label;
  last_agent_sync_at = r.last_agent_sync_at;
  revoked_at = r.revoked_at;
  failure_message = r.failure_message;
}

unfoldable pub device_of : DeviceRow → Option Device
device_of r = Option.map (device_with r) (device_status_of r.status)

pub device_of-device_row : (x : Device) → device_of (device_row x) ≡ some x
unfolding device_of device_row
device_of-device_row x = rw (device_status_of-device_status_value x.status) refl

pub record SetupJobEventRow : Type 0 where
  pub id : ℕ
  pub setup_job_id : ℕ
  pub level : String
  pub step : String
  pub message : String
  pub created_at : ℕ
  pub event_metadata : Fields

unfoldable pub setup_event_row : SetupJobEvent → SetupJobEventRow
setup_event_row x = record {
  id = x.id;
  setup_job_id = x.setup_job_id;
  level = event_level_value x.level;
  step = x.step;
  message = x.message;
  created_at = x.created_at;
  event_metadata = x.metadata;
}

abbrev setup_event_with : SetupJobEventRow → EventLevel → SetupJobEvent
setup_event_with r level = record {
  id = r.id;
  setup_job_id = r.setup_job_id;
  level = level;
  step = r.step;
  message = r.message;
  created_at = r.created_at;
  metadata = r.event_metadata;
}

unfoldable pub setup_event_of : SetupJobEventRow → Option SetupJobEvent
setup_event_of r = Option.map (setup_event_with r) (event_level_of r.level)

pub setup_event_of-setup_event_row :
    (x : SetupJobEvent) → setup_event_of (setup_event_row x) ≡ some x
unfolding setup_event_of setup_event_row
setup_event_of-setup_event_row x = rw (event_level_of-event_level_value x.level) refl
