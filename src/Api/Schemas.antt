-- ===== src/Api/Schemas.antt =====
-- What the API shows of members, devices and nodes: the `Out` models of backend/app/schemas, each
-- with its `from_domain`.
pub mod Records
use vpn_controll_app.Base.{ℕ, Bool, String, Option, is_some}
use vpn_controll_app.Domain.Status.{UserRole, DeviceStatus, ServerStatus}
use vpn_controll_app.Domain.Json.{Value, Fields}
use vpn_controll_app.Domain.Entities.{User, Device, ServerNode}

pub record UserOut : Type 0 where
  pub id : ℕ
  pub login : String
  pub display_name : String
  pub role : UserRole
  pub telegram_username : Option String

unfoldable pub user_out : User → UserOut
user_out u = record {
  id = u.id;
  login = u.login;
  display_name = u.display_name;
  role = u.role;
  telegram_username = u.telegram_username;
}

pub record AdminUserOut : Type 0 where
  pub id : ℕ
  pub login : String
  pub display_name : String
  pub role : UserRole
  pub telegram_username : Option String
  pub is_active : Bool
  pub device_limit : Option ℕ
  pub device_limit_unlimited : Bool
  pub show_server_support : Bool
  pub free_access : Bool
  pub note : Option String
  pub active_device_count : ℕ
  pub created_at : ℕ

unfoldable pub admin_user_out : User → ℕ → AdminUserOut
admin_user_out u active_device_count = record {
  id = u.id;
  login = u.login;
  display_name = u.display_name;
  role = u.role;
  telegram_username = u.telegram_username;
  is_active = u.is_active;
  device_limit = u.device_limit;
  device_limit_unlimited = u.device_limit_unlimited;
  show_server_support = u.show_server_support;
  free_access = u.free_access;
  note = u.note;
  active_device_count = active_device_count;
  created_at = u.created_at;
}

pub record DeviceOut : Type 0 where
  pub id : ℕ
  pub name : String
  pub status : DeviceStatus
  pub server_node_id : ℕ
  pub server_name : Option String
  pub client_ip : Option String
  pub public_key : Option String
  pub created_at : ℕ
  pub last_config_issued_at : Option ℕ
  pub last_handshake_at : Option ℕ
  pub transfer_received_label : Option String
  pub transfer_sent_label : Option String
  pub revoked_at : Option ℕ
  pub failure_message : Option String

unfoldable pub device_out : Device → Option String → DeviceOut
device_out d server_name = record {
  id = d.id;
  name = d.name;
  status = d.status;
  server_node_id = d.server_node_id;
  server_name = server_name;
  client_ip = d.client_ip;
  public_key = d.public_key;
  created_at = d.created_at;
  last_config_issued_at = d.last_config_issued_at;
  last_handshake_at = d.last_handshake_at;
  transfer_received_label = d.transfer_received_label;
  transfer_sent_label = d.transfer_sent_label;
  revoked_at = d.revoked_at;
  failure_message = d.failure_message;
}

-- A node as a member sees it: no host and nothing of the agent.
pub record ServerOut : Type 0 where
  pub id : ℕ
  pub name : String
  pub region_note : Option String
  pub status : ServerStatus

unfoldable pub server_out : ServerNode → ServerOut
server_out n = record { id = n.id; name = n.name; region_note = n.region_note; status = n.status }

pub record AdminServerOut : Type 0 where
  pub id : ℕ
  pub name : String
  pub public_host : String
  pub public_port : Option ℕ
  pub region_note : Option String
  pub provider : Option String
  pub agent_base_url : String
  pub agent_key_id : Option String
  pub has_agent_secret : Bool
  pub agent_allowed_ip_note : Option String
  pub status : ServerStatus
  pub last_seen_at : Option ℕ
  pub last_error : Option String
  pub last_status_payload : Option Value
  pub awg_container_name : String
  pub awg_interface : String
  pub awg_config_path : String
  pub clients_table_path : String
  pub is_available_for_new_devices : Bool
  pub active_device_count : ℕ
  pub created_at : ℕ

unfoldable pub admin_server_out : ServerNode → ℕ → AdminServerOut
admin_server_out n active_device_count = record {
  id = n.id;
  name = n.name;
  public_host = n.public_host;
  public_port = n.public_port;
  region_note = n.region_note;
  provider = n.provider;
  agent_base_url = n.agent_base_url;
  agent_key_id = n.agent_key_id;
  has_agent_secret = is_some n.agent_secret_encrypted;
  agent_allowed_ip_note = n.agent_allowed_ip_note;
  status = n.status;
  last_seen_at = n.last_seen_at;
  last_error = n.last_error;
  last_status_payload = n.last_status_payload;
  awg_container_name = n.awg_container_name;
  awg_interface = n.awg_interface;
  awg_config_path = n.awg_config_path;
  clients_table_path = n.clients_table_path;
  is_available_for_new_devices = n.is_available_for_new_devices;
  active_device_count = active_device_count;
  created_at = n.created_at;
}
