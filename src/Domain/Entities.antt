-- ===== src/Domain/Entities.antt =====
-- The dataclasses of backend/app/domain/models.py, field by field.
use vpn_controll_app.Base.{ℕ, Bool, String, Option}
use vpn_controll_app.Domain.Status.{
  UserRole, DeviceStatus, ServerStatus, SetupJobStatus, AuthMethod, EventLevel,
}
use vpn_controll_app.Domain.Json.{Value, Fields}

pub record User : Type 0 where
  pub id : ℕ
  pub login : String
  pub display_name : String
  pub role : UserRole
  pub password_hash : String
  pub created_at : ℕ
  pub updated_at : ℕ
  pub is_active : Bool
  pub telegram_username : Option String
  pub device_limit : Option ℕ
  pub device_limit_unlimited : Bool
  pub show_server_support : Bool
  pub free_access : Bool
  pub note : Option String
  pub created_by_user_id : Option ℕ

pub record Session : Type 0 where
  pub id : ℕ
  pub user_id : ℕ
  pub token_hash : ℕ
  pub created_at : ℕ
  pub expires_at : ℕ
  pub last_seen_at : ℕ
  pub user_agent : Option String
  pub ip_address : Option String
  pub revoked_at : Option ℕ

pub record ServerNode : Type 0 where
  pub id : ℕ
  pub name : String
  pub public_host : String
  pub agent_base_url : String
  pub created_at : ℕ
  pub updated_at : ℕ
  pub public_port : Option ℕ
  pub region_note : Option String
  pub provider : Option String
  pub agent_key_id : Option String
  pub agent_secret_encrypted : Option String
  pub agent_allowed_ip_note : Option String
  pub status : ServerStatus
  pub last_seen_at : Option ℕ
  pub last_error : Option String
  pub last_status_payload : Option Value
  pub awg_container_name : String
  pub awg_interface : String
  pub awg_config_path : String
  pub clients_table_path : String
  pub is_available_for_new_devices : Bool
  pub created_by_user_id : Option ℕ

pub record Device : Type 0 where
  pub id : ℕ
  pub user_id : ℕ
  pub server_node_id : ℕ
  pub name : String
  pub created_at : ℕ
  pub updated_at : ℕ
  pub status : DeviceStatus
  pub public_key : Option String
  pub client_ip : Option String
  pub last_config_issued_at : Option ℕ
  pub last_handshake_at : Option ℕ
  pub transfer_received_label : Option String
  pub transfer_sent_label : Option String
  pub last_agent_sync_at : Option ℕ
  pub revoked_at : Option ℕ
  pub failure_message : Option String

pub record DeviceConfigIssue : Type 0 where
  pub id : ℕ
  pub device_id : ℕ
  pub issued_to_user_id : ℕ
  pub created_at : ℕ
  pub expires_at : ℕ
  pub config_encrypted : Option String
  pub vpn_url_encrypted : Option String
  pub consumed_at : Option ℕ

-- `amount` is numeric(10, 2) in the database: a number of hundredths.
pub record SupportContribution : Type 0 where
  pub id : ℕ
  pub user_id : ℕ
  pub amount : ℕ
  pub currency : String
  pub recorded_by_user_id : ℕ
  pub recorded_at : ℕ
  pub created_at : ℕ
  pub period_label : Option String
  pub comment : Option String

pub record SupportSettings : Type 0 where
  pub title : String
  pub description : String
  pub sbp_phone : Option String
  pub bank_name : Option String
  pub extra_contact : Option String
  pub monthly_cost_amount : Option ℕ
  pub reserve_amount : Option ℕ
  pub is_enabled : Bool
  pub updated_by_user_id : Option ℕ
  pub updated_at : Option ℕ

pub record SetupJob : Type 0 where
  pub id : ℕ
  pub created_by_user_id : ℕ
  pub server_name : String
  pub host : String
  pub ssh_port : ℕ
  pub ssh_username : String
  pub auth_method : AuthMethod
  pub created_at : ℕ
  pub updated_at : ℕ
  pub status : SetupJobStatus
  pub secret_encrypted : Option String
  pub region_note : Option String
  pub install_awg : Bool
  pub available_for_new_devices : Bool
  pub verify_before_install : Bool
  pub current_step : String
  pub error_message : Option String
  pub result_payload : Option Fields
  pub server_node_id : Option ℕ
  pub started_at : Option ℕ
  pub finished_at : Option ℕ

pub record SetupJobEvent : Type 0 where
  pub id : ℕ
  pub setup_job_id : ℕ
  pub level : EventLevel
  pub step : String
  pub message : String
  pub created_at : ℕ
  pub metadata : Fields

pub record AuditLogEntry : Type 0 where
  pub id : ℕ
  pub action : String
  pub created_at : ℕ
  pub actor_user_id : Option ℕ
  pub target_type : Option String
  pub target_id : Option ℕ
  pub metadata : Fields
  pub ip_address : Option String
  pub user_agent : Option String
