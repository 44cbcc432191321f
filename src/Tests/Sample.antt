-- ===== src/Tests/Sample.antt =====
-- Concrete values for the tests: an outside, the settings, two members, a node and a state.
use vpn_controll_app.Base.{
  ◌+◌, true, false, String, Option, none, some, [], ◌∷◌, ◌==◌, nat_Eq, string_Eq, concat,
  if◌then◌else◌,
}
use vpn_controll_app.Domain.Status.{UserRole, DeviceStatus, ServerStatus}
use vpn_controll_app.Domain.Json.{bool, str, obj, end, field}
use vpn_controll_app.Domain.Entities.{User, Session, Device, ServerNode}
use vpn_controll_app.Outside.{Outside, AgentRequest, Reply}
use vpn_controll_app.Settings.{Settings}
use vpn_controll_app.Audit.{ClientMeta}
use vpn_controll_app.Storage.State.{Store}

abbrev tail_text : String → Option String
tail_text String.[] = none
tail_text (String.◌∷◌ c s) = some s

abbrev answer : AgentRequest → Reply
answer r =
    if r.method == "POST"
    then Reply.reply (record {
      status_code = 201;
      payload = obj (
          field "public_key" (str "key") (
            field "client_ip" (str "10.8.0.2")
              (field "config" (str "[Interface]") (field "vpn_url" (str "vpn://a") end))));
    })
    else Reply.reply
        (record { status_code = 200; payload = obj (field "container_running" (bool true) end) })

abbrev pub outside : Outside
outside = record {
  clock = λ n. 100 + n;
  uuid4 = λ n. 1000 + n;
  session_token = λ n. "token";
  agent_key_id = λ n. "key-id";
  agent_secret = λ n. "secret";
  rfc3339_utc_now = λ n. "2025-01-01T00:00:00Z";
  lower = λ s. s;
  upper = λ s. s;
  digest = λ s. if s == "token" then 7 else 8;
  hash = λ n p. concat "h" p;
  verify = λ p h. concat "h" p == h;
  encrypt = λ n s. String.◌∷◌ "x" s;
  decrypt = tail_text;
  sha256_hex = λ s. s;
  hmac_sha256_hex = λ k s. concat k s;
  dumps = λ fs. "{}";
  repr = λ v. "";
  quote = λ s. s;
  respond = λ n r. answer r;
}

abbrev pub settings : Settings
settings = record {
  app_env = "development";
  database_url = none;
  db_host = none;
  db_port = 5432;
  db_name = none;
  db_user = none;
  db_password = none;
  db_sslmode = "prefer";
  session_cookie_name = "session";
  session_ttl_days = 30;
  issue_result_ttl_minutes = 10;
  cors_origins = [];
  csrf_enabled = true;
  cookie_secure = false;
  first_admin_login = "admin";
  first_admin_password = none;
  login_rate_limit_attempts = 2;
  login_rate_limit_window_minutes = 15;
  agent_mode = "fake";
  encryption_key = none;
  setup_worker_enabled = true;
  setup_worker_poll_seconds = 1000000;
  setup_step_delay_seconds = 0;
  setup_runner = "stub";
  setup_deploy_script_path = "deploy-agent.sh";
  setup_agent_listen = "0.0.0.0:9080";
  setup_agent_base_url_template = "http://{host}:9080";
  setup_agent_allow_ips = [];
  setup_timeout_seconds = 900000000;
  setup_allow_public_agent_access = false;
}

abbrev pub member : User
member = record {
  id = 1;
  login = "ann";
  display_name = "Ann";
  role = UserRole.user;
  password_hash = "hpw";
  created_at = 10;
  updated_at = 10;
  is_active = true;
  telegram_username = none;
  device_limit = some 2;
  device_limit_unlimited = false;
  show_server_support = true;
  free_access = false;
  note = none;
  created_by_user_id = none;
}

abbrev pub admin : User
admin = record member { id = 2; login = "root"; role = UserRole.admin }

abbrev pub node : ServerNode
node = record {
  id = 5;
  name = "amsterdam";
  public_host = "vpn.example.org";
  agent_base_url = "http://vpn.example.org:9080";
  created_at = 20;
  updated_at = 20;
  public_port = none;
  region_note = none;
  provider = none;
  agent_key_id = some "key-id";
  agent_secret_encrypted = some "xsecret";
  agent_allowed_ip_note = none;
  status = ServerStatus.online;
  last_seen_at = none;
  last_error = none;
  last_status_payload = none;
  awg_container_name = "amnezia-awg2";
  awg_interface = "awg0";
  awg_config_path = "/opt/amnezia/awg/awg0.conf";
  clients_table_path = "/opt/amnezia/awg/clientsTable";
  is_available_for_new_devices = true;
  created_by_user_id = none;
}

abbrev pub phone : Device
phone = record {
  id = 6;
  user_id = 1;
  server_node_id = 5;
  name = "phone";
  created_at = 30;
  updated_at = 30;
  status = DeviceStatus.active;
  public_key = some "key";
  client_ip = some "10.8.0.3";
  last_config_issued_at = none;
  last_handshake_at = none;
  transfer_received_label = none;
  transfer_sent_label = none;
  last_agent_sync_at = none;
  revoked_at = none;
  failure_message = none;
}

abbrev pub session : Session
session = record {
  id = 9;
  user_id = 1;
  token_hash = 7;
  created_at = 40;
  expires_at = 1000000;
  last_seen_at = 40;
  user_agent = none;
  ip_address = none;
  revoked_at = none;
}

abbrev pub store : Store
store = record {
  users = (1, member) ∷ (2, admin) ∷ [];
  sessions = (7, session) ∷ [];
  server_nodes = (5, node) ∷ [];
  devices = (6, phone) ∷ [];
  issues = [];
  contributions = [];
  support_settings = record {
    title = "";
    description = "";
    sbp_phone = none;
    bank_name = none;
    extra_contact = none;
    monthly_cost_amount = none;
    reserve_amount = none;
    is_enabled = true;
    updated_by_user_id = none;
    updated_at = none;
  };
  setup_jobs = [];
  setup_events = [];
  audit = [];
  login_failures = [];
  ephemeral_ssh_secrets = [];
  asked = 0;
  wire = [];
}

abbrev pub client : ClientMeta
client = record { ip = some "198.51.100.7"; user_agent = none }
