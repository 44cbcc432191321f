-- ===== src/Database/Rows/Nodes.antt =====
-- Rows of backend/app/db/models.py and their conversions in backend/app/storage/db.py: nodes and
-- setup jobs.
use vpn_controll_app.Base.{ℕ, Bool, String, Option, none, some, ◌≡◌, refl}
use mathlib.Core.Option
use vpn_controll_app.Domain.Json.{Value, Fields}
use vpn_controll_app.Domain.Entities.{ServerNode, SetupJob}
use vpn_controll_app.Domain.Status.{
  AuthMethod, ServerStatus, SetupJobStatus, auth_method_value, server_status_value,
  job_status_value,
}
use vpn_controll_app.Database.Enums.{
  auth_method_of, server_status_of, job_status_of, auth_method_of-auth_method_value,
  server_status_of-server_status_value, job_status_of-job_status_value,
}

pub record ServerNodeRow : Type 0 where
  pub id : ℕ
  pub name : String
  pub public_host : String
  pub agent_base_url : String
  pub created_at : ℕ
  pub updated_at : ℕ
  pub public_port : Option ℕ
  pub region_note : Option String
  pub provider : Option String
  pub agent_key_id : Option String
  pub agent_secret_encrypted : Option String
  pub agent_allowed_ip_note : Option String
  pub status : String
  pub last_seen_at : Option ℕ
  pub last_error : Option String
  pub last_status_payload : Option Value
  pub awg_container_name : String
  pub awg_interface : String
  pub awg_config_path : String
  pub clients_table_path : String
  pub is_available_for_new_devices : Bool
  pub created_by_user_id : Option ℕ

unfoldable pub server_node_row : ServerNode → ServerNodeRow
server_node_row x = record {
  id = x.id;
  name = x.name;
  public_host = x.public_host;
  agent_base_url = x.agent_base_url;
  created_at = x.created_at;
  updated_at = x.updated_at;
  public_port = x.public_port;
  region_note = x.region_note;
  provider = x.provider;
  agent_key_id = x.agent_key_id;
  agent_secret_encrypted = x.agent_secret_encrypted;
  agent_allowed_ip_note = x.agent_allowed_ip_note;
  status = server_status_value x.status;
  last_seen_at = x.last_seen_at;
  last_error = x.last_error;
  last_status_payload = x.last_status_payload;
  awg_container_name = x.awg_container_name;
  awg_interface = x.awg_interface;
  awg_config_path = x.awg_config_path;
  clients_table_path = x.clients_table_path;
  is_available_for_new_devices = x.is_available_for_new_devices;
  created_by_user_id = x.created_by_user_id;
}

abbrev server_node_with : ServerNodeRow → ServerStatus → ServerNode
server_node_with r status = record {
  id = r.id;
  name = r.name;
  public_host = r.public_host;
  agent_base_url = r.agent_base_url;
  created_at = r.created_at;
  updated_at = r.updated_at;
  public_port = r.public_port;
  region_note = r.region_note;
  provider = r.provider;
  agent_key_id = r.agent_key_id;
  agent_secret_encrypted = r.agent_secret_encrypted;
  agent_allowed_ip_note = r.agent_allowed_ip_note;
  status = status;
  last_seen_at = r.last_seen_at;
  last_error = r.last_error;
  last_status_payload = r.last_status_payload;
  awg_container_name = r.awg_container_name;
  awg_interface = r.awg_interface;
  awg_config_path = r.awg_config_path;
  clients_table_path = r.clients_table_path;
  is_available_for_new_devices = r.is_available_for_new_devices;
  created_by_user_id = r.created_by_user_id;
}

unfoldable pub server_node_of : ServerNodeRow → Option ServerNode
server_node_of r = Option.map (server_node_with r) (server_status_of r.status)

pub server_node_of-server_node_row : (x : ServerNode) → server_node_of (server_node_row x) ≡ some x
unfolding server_node_of server_node_row
server_node_of-server_node_row x = rw (server_status_of-server_status_value x.status) refl

pub record SetupJobRow : Type 0 where
  pub id : ℕ
  pub created_by_user_id : ℕ
  pub server_name : String
  pub host : String
  pub ssh_port : ℕ
  pub ssh_username : String
  pub auth_method : String
  pub created_at : ℕ
  pub updated_at : ℕ
  pub status : String
  pub secret_encrypted : Option String
  pub region_note : Option String
  pub install_awg : Bool
  pub available_for_new_devices : Bool
  pub verify_before_install : Bool
  pub current_step : String
  pub error_message : Option String
  pub result_payload : Option Fields
  pub server_node_id : Option ℕ
  pub started_at : Option ℕ
  pub finished_at : Option ℕ

unfoldable pub setup_job_row : SetupJob → SetupJobRow
setup_job_row x = record {
  id = x.id;
  created_by_user_id = x.created_by_user_id;
  server_name = x.server_name;
  host = x.host;
  ssh_port = x.ssh_port;
  ssh_username = x.ssh_username;
  auth_method = auth_method_value x.auth_method;
  created_at = x.created_at;
  updated_at = x.updated_at;
  status = job_status_value x.status;
  secret_encrypted = x.secret_encrypted;
  region_note = x.region_note;
  install_awg = x.install_awg;
  available_for_new_devices = x.available_for_new_devices;
  verify_before_install = x.verify_before_install;
  current_step = x.current_step;
  error_message = x.error_message;
  result_payload = x.result_payload;
  server_node_id = x.server_node_id;
  started_at = x.started_at;
  finished_at = x.finished_at;
}

abbrev setup_job_with : SetupJobRow → AuthMethod → SetupJobStatus → SetupJob
setup_job_with r auth_method status = record {
  id = r.id;
  created_by_user_id = r.created_by_user_id;
  server_name = r.server_name;
  host = r.host;
  ssh_port = r.ssh_port;
  ssh_username = r.ssh_username;
  auth_method = auth_method;
  created_at = r.created_at;
  updated_at = r.updated_at;
  status = status;
  secret_encrypted = r.secret_encrypted;
  region_note = r.region_note;
  install_awg = r.install_awg;
  available_for_new_devices = r.available_for_new_devices;
  verify_before_install = r.verify_before_install;
  current_step = r.current_step;
  error_message = r.error_message;
  result_payload = r.result_payload;
  server_node_id = r.server_node_id;
  started_at = r.started_at;
  finished_at = r.finished_at;
}

unfoldable pub setup_job_of : SetupJobRow → Option SetupJob
setup_job_of r = elim (auth_method_of r.auth_method) [
  | none ↦ none
  | some auth_method ↦
      Option.map (λ status. setup_job_with r auth_method status) (job_status_of r.status)
]

pub setup_job_of-setup_job_row : (x : SetupJob) → setup_job_of (setup_job_row x) ≡ some x
unfolding setup_job_of setup_job_row
setup_job_of-setup_job_row x =
    rw (auth_method_of-auth_method_value x.auth_method, setup_job_of)
      (rw (job_status_of-job_status_value x.status) refl)
