-- ===== src/Database/Enums.antt =====
-- `UserRole(value)` and its like: the member of an enumeration with a value, none where Python raises
-- ValueError.
use vpn_controll_app.Base.{
  String, Option, some, List, [], ◌∷◌, find, ◌≡◌, refl, ap, sym, ◌∙◌, Eq, ◌==◌, string_Eq, inl, inr,
  Bool-cases, some-injective,
}
use vpn_controll_app.Dict.Laws.{equal_self}
use vpn_controll_app.Domain.Status.{
  UserRole, DeviceStatus, ServerStatus, SetupJobStatus, AuthMethod, EventLevel, role_value,
  device_status_value, server_status_value, job_status_value, auth_method_value, event_level_value,
}

abbrev pub member_of : {A : Type 0} → (A → String) → List A → String → Option A
member_of value members text = find (λ a. value a == text) members

-- Members have the same value exactly if they are the same.
pub value-eq :
    {A : Type 0} ⦃e : Eq A⦄ (value : A → String) (parse : String → Option A)
    → ((a : A) → parse (value a) ≡ some a)
    → (a b : A) → (value a == value b) ≡ (a == b)
value-eq ⦃e⦄ value parse back a b = elim (Bool-cases (a == b)) [
  | inl same ↦ let equal = (e.is_equal_iff a b).0 same in rw (same, equal) (equal_self (value b))
  | inr other ↦ elim (Bool-cases (value a == value b)) [
    | inl alike ↦
        let equal : a ≡ b =
          some-injective a b
            (sym (back a) ∙ ap parse ((string_Eq.is_equal_iff _ _).0 alike) ∙ back b) in
        cc ((e.is_equal_iff a b).1 equal)
    | inr unlike ↦ unlike ∙ sym other
  ]
]

unfoldable pub role_of : String → Option UserRole
role_of = member_of role_value (UserRole.admin ∷ UserRole.user ∷ [])

pub role_of-role_value : (x : UserRole) → role_of (role_value x) ≡ some x
unfolding role_of
role_of-role_value UserRole.admin = refl
role_of-role_value UserRole.user = refl

unfoldable pub server_status_of : String → Option ServerStatus
server_status_of = member_of server_status_value (
    ServerStatus.draft ∷ ServerStatus.setup_pending ∷ ServerStatus.setup_running
    ∷ ServerStatus.online ∷ ServerStatus.warning ∷ ServerStatus.offline ∷ ServerStatus.disabled
    ∷ ServerStatus.setup_failed ∷ [])

pub server_status_of-server_status_value :
    (x : ServerStatus) → server_status_of (server_status_value x) ≡ some x
unfolding server_status_of
server_status_of-server_status_value ServerStatus.draft = refl
server_status_of-server_status_value ServerStatus.setup_pending = refl
server_status_of-server_status_value ServerStatus.setup_running = refl
server_status_of-server_status_value ServerStatus.online = refl
server_status_of-server_status_value ServerStatus.warning = refl
server_status_of-server_status_value ServerStatus.offline = refl
server_status_of-server_status_value ServerStatus.disabled = refl
server_status_of-server_status_value ServerStatus.setup_failed = refl

unfoldable pub device_status_of : String → Option DeviceStatus
device_status_of = member_of device_status_value (
    DeviceStatus.provisioning ∷ DeviceStatus.active ∷ DeviceStatus.revoked ∷ DeviceStatus.failed
    ∷ [])

pub device_status_of-device_status_value :
    (x : DeviceStatus) → device_status_of (device_status_value x) ≡ some x
unfolding device_status_of
device_status_of-device_status_value DeviceStatus.provisioning = refl
device_status_of-device_status_value DeviceStatus.active = refl
device_status_of-device_status_value DeviceStatus.revoked = refl
device_status_of-device_status_value DeviceStatus.failed = refl

unfoldable pub job_status_of : String → Option SetupJobStatus
job_status_of = member_of job_status_value (
    SetupJobStatus.draft ∷ SetupJobStatus.queued ∷ SetupJobStatus.checking_ssh
    ∷ SetupJobStatus.installing_agent ∷ SetupJobStatus.installing_vpn ∷ SetupJobStatus.verifying
    ∷ SetupJobStatus.success ∷ SetupJobStatus.failed ∷ SetupJobStatus.cancelled ∷ [])

pub job_status_of-job_status_value :
    (x : SetupJobStatus) → job_status_of (job_status_value x) ≡ some x
unfolding job_status_of
job_status_of-job_status_value SetupJobStatus.draft = refl
job_status_of-job_status_value SetupJobStatus.queued = refl
job_status_of-job_status_value SetupJobStatus.checking_ssh = refl
job_status_of-job_status_value SetupJobStatus.installing_agent = refl
job_status_of-job_status_value SetupJobStatus.installing_vpn = refl
job_status_of-job_status_value SetupJobStatus.verifying = refl
job_status_of-job_status_value SetupJobStatus.success = refl
job_status_of-job_status_value SetupJobStatus.failed = refl
job_status_of-job_status_value SetupJobStatus.cancelled = refl

unfoldable pub auth_method_of : String → Option AuthMethod
auth_method_of = member_of auth_method_value (AuthMethod.ssh_key ∷ AuthMethod.password ∷ [])

pub auth_method_of-auth_method_value :
    (x : AuthMethod) → auth_method_of (auth_method_value x) ≡ some x
unfolding auth_method_of
auth_method_of-auth_method_value AuthMethod.ssh_key = refl
auth_method_of-auth_method_value AuthMethod.password = refl

unfoldable pub event_level_of : String → Option EventLevel
event_level_of =
    member_of event_level_value (EventLevel.info ∷ EventLevel.warning ∷ EventLevel.error ∷ [])

pub event_level_of-event_level_value :
    (x : EventLevel) → event_level_of (event_level_value x) ≡ some x
unfolding event_level_of
event_level_of-event_level_value EventLevel.info = refl
event_level_of-event_level_value EventLevel.warning = refl
event_level_of-event_level_value EventLevel.error = refl
