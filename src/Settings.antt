-- ===== src/Settings.antt =====
-- `Settings` (backend/app/core/config.py): the dataclass. Numbers of seconds are kept in
-- microseconds, as everywhere.
pub mod Validate
pub mod Production
pub mod Env
pub mod FromEnv
use vpn_controll_app.Base.{ℕ, ◌*◌, Bool, String, Option, List}

pub record Settings : Type 0 where
  pub app_env : String
  pub database_url : Option String
  pub db_host : Option String
  pub db_port : ℕ
  pub db_name : Option String
  pub db_user : Option String
  pub db_password : Option String
  pub db_sslmode : String
  pub session_cookie_name : String
  pub session_ttl_days : ℕ
  pub issue_result_ttl_minutes : ℕ
  pub cors_origins : List String
  pub csrf_enabled : Bool
  pub cookie_secure : Bool
  pub first_admin_login : String
  pub first_admin_password : Option String
  pub login_rate_limit_attempts : ℕ
  pub login_rate_limit_window_minutes : ℕ
  pub agent_mode : String
  pub encryption_key : Option String
  pub setup_worker_enabled : Bool
  pub setup_worker_poll_seconds : ℕ
  pub setup_step_delay_seconds : ℕ
  pub setup_runner : String
  pub setup_deploy_script_path : String
  pub setup_agent_listen : String
  pub setup_agent_base_url_template : String
  pub setup_agent_allow_ips : List String
  pub setup_timeout_seconds : ℕ
  pub setup_allow_public_agent_access : Bool

-- `timedelta(minutes=n)` and `timedelta(days=n)`, in microseconds.
abbrev pub minutes : ℕ → ℕ
minutes n = n * 60000000

abbrev pub days : ℕ → ℕ
days n = n * 86400000000
