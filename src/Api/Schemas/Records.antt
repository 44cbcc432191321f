-- ===== src/Api/Schemas/Records.antt =====
-- What the API shows of contributions, settings, setup jobs and the audit log: the other `Out`
-- models of backend/app/schemas, each with its `from_domain`.
use vpn_controll_app.Base.{ℕ, Bool, String, Option, List}
use vpn_controll_app.Domain.Status.{SetupJobStatus, AuthMethod, EventLevel}
use vpn_controll_app.Domain.Json.{Fields}
use vpn_controll_app.Domain.Entities.{
  SupportContribution, SupportSettings, SetupJob, SetupJobEvent, AuditLogEntry,
}

pub record ContributionOut : Type 0 where
  pub id : ℕ
  pub amount : ℕ
  pub currency : String
  pub period_label : Option String
  pub comment : Option String
  pub recorded_at : ℕ

unfoldable pub contribution_out : SupportContribution → ContributionOut
contribution_out c = record {
  id = c.id;
  amount = c.amount;
  currency = c.currency;
  period_label = c.period_label;
  comment = c.comment;
  recorded_at = c.recorded_at;
}

pub record SupportSettingsOut : Type 0 where
  pub title : String
  pub description : String
  pub sbp_phone : Option String
  pub bank_name : Option String
  pub extra_contact : Option String
  pub monthly_cost_amount : Option ℕ
  pub reserve_amount : Option ℕ
  pub is_enabled : Bool
  pub updated_at : Option ℕ

unfoldable pub support_settings_out : SupportSettings → SupportSettingsOut
support_settings_out x = record {
  title = x.title;
  description = x.description;
  sbp_phone = x.sbp_phone;
  bank_name = x.bank_name;
  extra_contact = x.extra_contact;
  monthly_cost_amount = x.monthly_cost_amount;
  reserve_amount = x.reserve_amount;
  is_enabled = x.is_enabled;
  updated_at = x.updated_at;
}

-- A setup job without its secret.
pub record SetupJobOut : Type 0 where
  pub id : ℕ
  pub status : SetupJobStatus
  pub current_step : String
  pub server_name : String
  pub host : String
  pub ssh_port : ℕ
  pub ssh_username : String
  pub auth_method : AuthMethod
  pub region_note : Option String
  pub install_awg : Bool
  pub available_for_new_devices : Bool
  pub verify_before_install : Bool
  pub error_message : Option String
  pub server_node_id : Option ℕ
  pub created_at : ℕ
  pub started_at : Option ℕ
  pub finished_at : Option ℕ
  pub agent_base_url : String
  pub agent_allow_ips : List String

unfoldable pub setup_job_out : SetupJob → String → List String → SetupJobOut
setup_job_out job agent_base_url agent_allow_ips = record {
  id = job.id;
  status = job.status;
  current_step = job.current_step;
  server_name = job.server_name;
  host = job.host;
  ssh_port = job.ssh_port;
  ssh_username = job.ssh_username;
  auth_method = job.auth_method;
  region_note = job.region_note;
  install_awg = job.install_awg;
  available_for_new_devices = job.available_for_new_devices;
  verify_before_install = job.verify_before_install;
  error_message = job.error_message;
  server_node_id = job.server_node_id;
  created_at = job.created_at;
  started_at = job.started_at;
  finished_at = job.finished_at;
  agent_base_url = agent_base_url;
  agent_allow_ips = agent_allow_ips;
}

pub record SetupJobEventOut : Type 0 where
  pub level : EventLevel
  pub step : String
  pub message : String
  pub metadata : Fields
  pub created_at : ℕ

unfoldable pub setup_job_event_out : SetupJobEvent → SetupJobEventOut
setup_job_event_out e = record {
  level = e.level;
  step = e.step;
  message = e.message;
  metadata = e.metadata;
  created_at = e.created_at;
}

pub record AuditLogOut : Type 0 where
  pub id : ℕ
  pub action : String
  pub actor_user_id : Option ℕ
  pub target_type : Option String
  pub target_id : Option ℕ
  pub metadata : Fields
  pub ip_address : Option String
  pub user_agent : Option String
  pub created_at : ℕ

unfoldable pub audit_log_out : AuditLogEntry → AuditLogOut
audit_log_out x = record {
  id = x.id;
  action = x.action;
  actor_user_id = x.actor_user_id;
  target_type = x.target_type;
  target_id = x.target_id;
  metadata = x.metadata;
  ip_address = x.ip_address;
  user_agent = x.user_agent;
  created_at = x.created_at;
}
