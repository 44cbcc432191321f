-- ===== src/Settings/FromEnv.antt =====
-- `Settings.from_env` (backend/app/core/config.py), and what it promises outside APP_ENV=local.
use vpn_controll_app.Base.{
  ◌⊎◌, inl, inr, Bool-cases, ℕ, Bool, true, false, not, String, Option, none, some, [], ◌∷◌, ◌≡◌,
  ◌∙◌, refl, ap, ◌==◌, string_Eq, strip,
}
use vpn_controll_app.Dict.{lookup}
use vpn_controll_app.Settings.{Settings}
use vpn_controll_app.Storage.Checked.{◌>>=◌, ended_well}
use vpn_controll_app.Settings.Validate.{validate}
use vpn_controll_app.Settings.Production.{
  NetworkLaw, IsProduction, validate-IsProduction, validate-same,
}
use vpn_controll_app.Settings.Env.{
  Env, Python, or_none, or_default, get_or, csv, parse_bool, get_int, get_float, db_port_of,
  sslmode_of, build_database_url, is_unset,
}
use vpn_controll_app.Storage.Action.{Result, ok}

-- The numbers that `from_env` reads, in the order in which it reads them.
pub record Numbers : Type 0 where
  pub db_port : ℕ
  pub session_ttl_days : ℕ
  pub issue_result_ttl_minutes : ℕ
  pub login_rate_limit_attempts : ℕ
  pub login_rate_limit_window_minutes : ℕ
  pub setup_worker_poll_seconds : ℕ
  pub setup_step_delay_seconds : ℕ
  pub setup_timeout_seconds : ℕ

-- `env.get("APP_ENV", "local").strip() or "local"`
abbrev pub app_env_of : Env → String
app_env_of env = or_default (some (strip (get_or "APP_ENV" "local" env))) "local"

module _ (py : Python) where
  unfoldable pub read_numbers : Env → Result Numbers
  read_numbers env = do
    db_port ← db_port_of py env
    session_ttl_days ← get_int py "SESSION_TTL_DAYS" "30" env
    issue_result_ttl_minutes ← get_int py "ISSUE_RESULT_TTL_MINUTES" "15" env
    login_rate_limit_attempts ← get_int py "LOGIN_RATE_LIMIT_ATTEMPTS" "5" env
    login_rate_limit_window_minutes ← get_int py "LOGIN_RATE_LIMIT_WINDOW_MINUTES" "15" env
    setup_worker_poll_seconds ← get_float py "SETUP_WORKER_POLL_SECONDS" "0.5" env
    setup_step_delay_seconds ← get_float py "SETUP_STEP_DELAY_SECONDS" "1.2" env
    setup_timeout_seconds ← get_float py "SETUP_TIMEOUT_SECONDS" "600" env
    ok (record {
      db_port = db_port;
      session_ttl_days = session_ttl_days;
      issue_result_ttl_minutes = issue_result_ttl_minutes;
      login_rate_limit_attempts = login_rate_limit_attempts;
      login_rate_limit_window_minutes = login_rate_limit_window_minutes;
      setup_worker_poll_seconds = setup_worker_poll_seconds;
      setup_step_delay_seconds = setup_step_delay_seconds;
      setup_timeout_seconds = setup_timeout_seconds;
    })

  -- `cls(…)`
  unfoldable pub settings_of : Env → Option String → Numbers → Settings
  settings_of env database_url n =
      let not_local = not (app_env_of env == "local") in
      record {
        app_env = app_env_of env;
        database_url = database_url;
        db_host = or_none (lookup "DB_HOST" env);
        db_port = n.db_port;
        db_name = or_none (lookup "DB_NAME" env);
        db_user = or_none (lookup "DB_USER" env);
        db_password = or_none (lookup "DB_PASSWORD" env);
        db_sslmode = sslmode_of py env;
        session_cookie_name = get_or "SESSION_COOKIE_NAME" "vca_session" env;
        session_ttl_days = n.session_ttl_days;
        issue_result_ttl_minutes = n.issue_result_ttl_minutes;
        cors_origins = csv (lookup "CORS_ORIGINS" env) ("http://localhost:5173" ∷ []);
        csrf_enabled = parse_bool py (lookup "CSRF_ENABLED" env) not_local;
        cookie_secure = parse_bool py (lookup "COOKIE_SECURE" env) not_local;
        first_admin_login = get_or "FIRST_ADMIN_LOGIN" "midhey" env;
        first_admin_password = or_none (lookup "FIRST_ADMIN_PASSWORD" env);
        login_rate_limit_attempts = n.login_rate_limit_attempts;
        login_rate_limit_window_minutes = n.login_rate_limit_window_minutes;
        agent_mode = get_or "AGENT_MODE" "fake" env;
        encryption_key = or_none (lookup "ENCRYPTION_KEY" env);
        setup_worker_enabled = parse_bool py (lookup "SETUP_WORKER_ENABLED" env) true;
        setup_worker_poll_seconds = n.setup_worker_poll_seconds;
        setup_step_delay_seconds = n.setup_step_delay_seconds;
        setup_runner = or_default (some (strip (get_or "SETUP_RUNNER" "stub" env))) "stub";
        setup_deploy_script_path =
            strip (get_or "SETUP_DEPLOY_SCRIPT_PATH" "../agent/scripts/deploy-agent.sh" env);
        setup_agent_listen = strip (get_or "SETUP_AGENT_LISTEN" "127.0.0.1:8090" env);
        setup_agent_base_url_template =
            strip (get_or "SETUP_AGENT_BASE_URL_TEMPLATE" "http://{host}:8090" env);
        setup_agent_allow_ips = csv (lookup "SETUP_AGENT_ALLOW_IPS" env) [];
        setup_timeout_seconds = n.setup_timeout_seconds;
        setup_allow_public_agent_access =
            parse_bool py (lookup "SETUP_ALLOW_PUBLIC_AGENT_ACCESS" env) false;
      }

  unfoldable pub from_env : Env → Result Settings
  from_env env = do
    database_url ← build_database_url py env
    numbers ← read_numbers env
    validate py.ip_network py.is_fernet_key (settings_of env database_url numbers)

  -- A variable that is not set, or blank, takes the default.
  parse_bool-unset :
      (v : Option String) (default : Bool) → is_unset v ≡ true → parse_bool py v default ≡ default
  unfolding parse_bool
  parse_bool-unset none default h = refl
  parse_bool-unset (some v) default h = rw h refl

  on_unless_set :
      (v : Option String) (default on : Bool)
      → default ≡ true
      → on ≡ parse_bool py v default
      → (is_unset v ≡ false) ⊎ (on ≡ true)
  on_unless_set v default on yes_by_default read = elim (Bool-cases (is_unset v)) [
    | inl unset ↦ inr (read ∙ parse_bool-unset v default unset ∙ yes_by_default)
    | inr set ↦ inl set
  ]

  -- The settings that an environment outside APP_ENV=local gives, if it gives any, reach a real agent
  -- and run the real installation, with an encryption key that Fernet accepts and a list of networks
  -- for the agent that is not empty and has the whole internet only where public access was allowed;
  -- the CSRF check is on unless CSRF_ENABLED is set, and the session's cookie is secure unless
  -- COOKIE_SECURE is set. This is given that the text of a network is read as that network.
  pub from_env-IsProduction :
      (env : Env) (y : Settings)
      → NetworkLaw py.ip_network
      → from_env env ≡ ok y
      → (app_env_of env == "local") ≡ false
      → IsProduction py.ip_network py.is_fernet_key y
        × ((is_unset (lookup "CSRF_ENABLED" env) ≡ false) ⊎ (y.csrf_enabled ≡ true))
        × ((is_unset (lookup "COOKIE_SECURE" env) ≡ false) ⊎ (y.cookie_secure ≡ true))
  unfolding from_env settings_of
  from_env-IsProduction env y law h remote =
      let finish = λ (url : Option String) (n : Numbers).
        validate py.ip_network py.is_fernet_key (settings_of env url n) in
      let (url, _, later) =
        ended_well (build_database_url py env) (λ u. read_numbers env >>= finish u) h in
      let (numbers, _, valid) = ended_well (read_numbers env) (finish url) later in
      let same = validate-same py.ip_network py.is_fernet_key _ y valid in
      (
        validate-IsProduction py.ip_network py.is_fernet_key _ y law valid remote,
        on_unless_set (lookup "CSRF_ENABLED" env) (not (app_env_of env == "local")) y.csrf_enabled
            (ap not remote) (ap (λ (z : Settings). z.csrf_enabled) same),
        on_unless_set (lookup "COOKIE_SECURE" env) (not (app_env_of env == "local")) y.cookie_secure
            (ap not remote) (ap (λ (z : Settings). z.cookie_secure) same),
      )
