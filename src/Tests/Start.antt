-- ===== src/Tests/Start.antt =====
-- The theorems about the settings and the start of the application at concrete inputs.
use vpn_controll_app.Base.{
  ◌⊎◌, String, Option, none, some, [], ◌∷◌, ◌≡◌, refl, arith, nat_Eq, string_Eq, true, false, ◌==◌,
  strip, contains,
}
use vpn_controll_app.Dict.{lookup}
use vpn_controll_app.Settings.{Settings}
use vpn_controll_app.Settings.Validate.{
  Network, check_network, normalize_networks, check_choices, check_production, validate,
}
use vpn_controll_app.Settings.Production.{NetworkLaw, IsProduction, validate-validate}
use vpn_controll_app.Settings.Env.{
  Python, Env, is_unset, csv, split_comma, parse_bool, build_database_url,
}
use vpn_controll_app.Settings.FromEnv.{
  from_env, read_numbers, settings_of, app_env_of, from_env-IsProduction,
}
use vpn_controll_app.Storage.State.{Store}
use vpn_controll_app.Storage.Action.{ok}
use vpn_controll_app.Storage.Tables.{has_admin}
use vpn_controll_app.Bootstrap.{bootstrap_first_admin, bootstrap_first_admin_idem}
use vpn_controll_app.Tests.Sample.{outside, settings, store}

-- Every text is the network of a single host but for the empty one, which is none.
abbrev network_of : String → Option Network
network_of String.[] = none
network_of (String.◌∷◌ c s) = some (record { prefixlen = 32; text = String.◌∷◌ c s })

network_law : NetworkLaw network_of
network_law String.[] n h = cc
network_law (String.◌∷◌ c s) n h = ground arith

abbrev python : Python
python = record {
  int = λ s. some 5;
  float = λ s. some 600000000;
  str = λ n. "5432";
  lower = λ s. s;
  quote = λ s. s;
  urlsplit =
      λ s. record { scheme = "postgresql"; netloc = "db"; path = s; query = ""; fragment = "" };
  urlunsplit = λ u. u.path;
  parse_qsl = λ s. [];
  urlencode = λ d. "";
  ip_network = network_of;
  is_fernet_key = λ k. true;
}

abbrev env : Env
env =
    ("APP_ENV", "production")
    ∷ ("AGENT_MODE", "http")
    ∷ ("ENCRYPTION_KEY", "k")
    ∷ ("SETUP_RUNNER", "deploy_script")
    ∷ ("SETUP_AGENT_ALLOW_IPS", "192.0.2.1, 192.0.2.2")
    ∷ []

abbrev numbered : Settings
numbered = settings_of python env none (record {
  db_port = 5;
  session_ttl_days = 5;
  issue_result_ttl_minutes = 5;
  login_rate_limit_attempts = 5;
  login_rate_limit_window_minutes = 5;
  setup_worker_poll_seconds = 600000000;
  setup_step_delay_seconds = 600000000;
  setup_timeout_seconds = 600000000;
})

read : from_env python env ≡ ok numbered
unfolding from_env read_numbers settings_of lookup build_database_url csv split_comma strip
    check_network normalize_networks check_choices check_production validate contains parse_bool
read = refl

remote : (app_env_of env == "local") ≡ false
unfolding lookup strip
remote = refl

from_env-IsProduction_example :
    IsProduction network_of python.is_fernet_key numbered
    × ((is_unset (lookup "CSRF_ENABLED" env) ≡ false) ⊎ (numbered.csrf_enabled ≡ true))
    × ((is_unset (lookup "COOKIE_SECURE" env) ≡ false) ⊎ (numbered.cookie_secure ≡ true))
from_env-IsProduction_example = from_env-IsProduction python env numbered network_law read remote

valid : validate network_of python.is_fernet_key numbered ≡ ok numbered
unfolding settings_of lookup csv split_comma strip check_network normalize_networks check_choices
    check_production validate contains parse_bool
valid = refl

validate-validate_example : validate network_of python.is_fernet_key numbered ≡ ok numbered
validate-validate_example =
    validate-validate network_of python.is_fernet_key numbered numbered network_law valid

abbrev started : Store
started = (bootstrap_first_admin outside settings (λ n. "password") (record store { users = [] })).1

bootstrap_first_admin_idem_example :
    (has_admin started ≡ true)
    × ((bootstrap_first_admin outside settings (λ n. "password") started) ≡ (ok tt, started))
bootstrap_first_admin_idem_example =
    bootstrap_first_admin_idem outside settings (λ n. "password") (record store { users = [] })
