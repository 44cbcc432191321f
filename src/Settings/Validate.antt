-- ===== src/Settings/Validate.antt =====
-- `Settings.validate` (backend/app/core/config.py). The networks of `ipaddress` and the keys of
-- Fernet are parameters; a timeout is a number, so it is positive or zero.
use vpn_controll_app.Base.{
  ℕ, Bool, true, false, not, ◌&&◌, ◌||◌, String, Option, none, some, List, [], ◌∷◌, ◌==◌, nat_Eq,
  string_Eq, contains, concat, is_blank, if◌then◌else◌,
}
use vpn_controll_app.Errors.{value_error}
use vpn_controll_app.Settings.{Settings}
use vpn_controll_app.Storage.Checked.{◌>>=◌, ◌>>◌, refuse_if}
use vpn_controll_app.Storage.Action.{Result, ok, err}

-- What `ip_network(value, strict=False)` returns: the prefix's length, and `str` of the network.
pub record Network : Type 0 where
  pub prefixlen : ℕ
  pub text : String

abbrev pub is_nil {ℓ} : {A : Type ℓ} → List A → Bool
is_nil [] = true
is_nil (_ ∷ _) = false

-- One round of the loop over SETUP_AGENT_ALLOW_IPS; `guarded` is whether a network of the whole
-- internet is refused.
unfoldable pub check_network : Bool → String → Option Network → Result String
check_network guarded value none =
    err (value_error (concat "SETUP_AGENT_ALLOW_IPS contains invalid IP/CIDR: " value))
check_network guarded value (some network) =
    if network.prefixlen == 0 && guarded
    then err (
        value_error
          "SETUP_AGENT_ALLOW_IPS must not allow the internet; set SETUP_ALLOW_PUBLIC_AGENT_ACCESS=true only after an explicit risk review")
    else ok network.text

-- The checks that hold in every environment, before the networks.
unfoldable pub check_choices : Settings → Result (Unit {0})
check_choices x = do
  refuse_if (not (x.agent_mode == "fake" || x.agent_mode == "http"))
      "AGENT_MODE must be fake or http"
  refuse_if (not (x.setup_runner == "stub" || x.setup_runner == "deploy_script"))
      "SETUP_RUNNER must be stub or deploy_script"
  refuse_if (x.setup_timeout_seconds == 0) "SETUP_TIMEOUT_SECONDS must be positive"
  refuse_if (not (contains "{host}" x.setup_agent_base_url_template))
      "SETUP_AGENT_BASE_URL_TEMPLATE must contain {host}"

-- `self.app_env != "local" and … and not self.setup_allow_public_agent_access`
abbrev pub is_guarded : Settings → Bool
is_guarded x = not (x.app_env == "local") && not x.setup_allow_public_agent_access

abbrev with_networks : Settings → List String → Settings
with_networks x texts = record x { setup_agent_allow_ips = texts }

-- `ip_network` is none where it raises.
module _ (ip_network : String → Option Network) where
  unfoldable pub normalize_networks : Bool → List String → Result (List String)
  normalize_networks guarded [] = ok []
  normalize_networks guarded (value ∷ rest) =
      check_network guarded value (ip_network value) >>= λ text.
      normalize_networks guarded rest >>= λ texts. ok (text ∷ texts)

-- Whether `FernetSecretBox` accepts a key.
module _ (is_fernet_key : String → Bool) where
  -- `FernetSecretBox(self.encryption_key)` after `if not self.encryption_key: raise …`
  abbrev check_key : Option String → Result (Unit {0})
  check_key none = err (value_error "ENCRYPTION_KEY is required outside APP_ENV=local")
  check_key (some key) = do
    refuse_if (is_blank (some key)) "ENCRYPTION_KEY is required outside APP_ENV=local"
    refuse_if (not (is_fernet_key key)) "ENCRYPTION_KEY must be a valid Fernet key"

  -- The checks outside `APP_ENV=local`.
  unfoldable pub check_production : Settings → Result (Unit {0})
  check_production x = do
    refuse_if (not (x.agent_mode == "http")) "AGENT_MODE=http is required outside APP_ENV=local"
    check_key x.encryption_key
    refuse_if (not (x.setup_runner == "deploy_script"))
        "SETUP_RUNNER=deploy_script is required outside APP_ENV=local"
    refuse_if (is_nil x.setup_agent_allow_ips)
        "SETUP_AGENT_ALLOW_IPS is required outside APP_ENV=local"

module _ (ip_network : String → Option Network) (is_fernet_key : String → Bool) where
  -- The settings as `validate` leaves them.
  unfoldable pub validate : Settings → Result Settings
  validate x = do
    check_choices x
    texts ← normalize_networks ip_network (is_guarded x) x.setup_agent_allow_ips
    if x.app_env == "local"
        then ok (with_networks x texts)
        else (check_production is_fernet_key (with_networks x texts) >> ok (with_networks x texts))
