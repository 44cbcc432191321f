-- ===== src/Domain/Status.antt =====
-- The enumerations of backend/app/domain/models.py, with their values and their equality.
use vpn_controll_app.Base.{ℕ, Bool, true, false, String, ◌≡◌, ◌↔◌, arith, Eq, ◌==◌, nat_Eq}

pub data UserRole : Type 0 where
  admin user : UserRole

pub data DeviceStatus : Type 0 where
  provisioning active revoked failed : DeviceStatus

pub data ServerStatus : Type 0 where
  draft setup_pending setup_running online warning offline disabled setup_failed : ServerStatus

pub data SetupJobStatus : Type 0 where
  draft queued checking_ssh installing_agent installing_vpn verifying : SetupJobStatus
  success failed cancelled : SetupJobStatus

pub data AuthMethod : Type 0 where
  ssh_key password : AuthMethod

pub data EventLevel : Type 0 where
  info warning error : EventLevel

-- The position of a member in its enumeration, by which members are compared.
abbrev pub role_index : UserRole → ℕ
role_index UserRole.admin = 0
role_index UserRole.user = 1

pub role_index-eq_iff : (a b : UserRole) → ((role_index a == role_index b) ≡ true) ↔ (a ≡ b)
role_index-eq_iff a b = ground arith

abbrev pub role_value : UserRole → String
role_value UserRole.admin = "admin"
role_value UserRole.user = "user"

abbrev pub device_status_index : DeviceStatus → ℕ
device_status_index DeviceStatus.provisioning = 0
device_status_index DeviceStatus.active = 1
device_status_index DeviceStatus.revoked = 2
device_status_index DeviceStatus.failed = 3

pub device_status_index-eq_iff :
    (a b : DeviceStatus) → ((device_status_index a == device_status_index b) ≡ true) ↔ (a ≡ b)
device_status_index-eq_iff a b = ground arith

abbrev pub server_status_index : ServerStatus → ℕ
server_status_index ServerStatus.draft = 0
server_status_index ServerStatus.setup_pending = 1
server_status_index ServerStatus.setup_running = 2
server_status_index ServerStatus.online = 3
server_status_index ServerStatus.warning = 4
server_status_index ServerStatus.offline = 5
server_status_index ServerStatus.disabled = 6
server_status_index ServerStatus.setup_failed = 7

pub server_status_index-eq_iff :
    (a b : ServerStatus) → ((server_status_index a == server_status_index b) ≡ true) ↔ (a ≡ b)
server_status_index-eq_iff a b = ground arith

abbrev pub server_status_value : ServerStatus → String
server_status_value ServerStatus.draft = "draft"
server_status_value ServerStatus.setup_pending = "setup_pending"
server_status_value ServerStatus.setup_running = "setup_running"
server_status_value ServerStatus.online = "online"
server_status_value ServerStatus.warning = "warning"
server_status_value ServerStatus.offline = "offline"
server_status_value ServerStatus.disabled = "disabled"
server_status_value ServerStatus.setup_failed = "setup_failed"

abbrev pub job_status_index : SetupJobStatus → ℕ
job_status_index SetupJobStatus.draft = 0
job_status_index SetupJobStatus.queued = 1
job_status_index SetupJobStatus.checking_ssh = 2
job_status_index SetupJobStatus.installing_agent = 3
job_status_index SetupJobStatus.installing_vpn = 4
job_status_index SetupJobStatus.verifying = 5
job_status_index SetupJobStatus.success = 6
job_status_index SetupJobStatus.failed = 7
job_status_index SetupJobStatus.cancelled = 8

pub job_status_index-eq_iff :
    (a b : SetupJobStatus) → ((job_status_index a == job_status_index b) ≡ true) ↔ (a ≡ b)
job_status_index-eq_iff a b = ground arith

abbrev pub job_status_value : SetupJobStatus → String
job_status_value SetupJobStatus.draft = "draft"
job_status_value SetupJobStatus.queued = "queued"
job_status_value SetupJobStatus.checking_ssh = "checking_ssh"
job_status_value SetupJobStatus.installing_agent = "installing_agent"
job_status_value SetupJobStatus.installing_vpn = "installing_vpn"
job_status_value SetupJobStatus.verifying = "verifying"
job_status_value SetupJobStatus.success = "success"
job_status_value SetupJobStatus.failed = "failed"
job_status_value SetupJobStatus.cancelled = "cancelled"

-- The property `is_terminal` of a setup job's status.
abbrev pub is_terminal : SetupJobStatus → Bool
is_terminal SetupJobStatus.success = true
is_terminal SetupJobStatus.failed = true
is_terminal SetupJobStatus.cancelled = true
is_terminal _ = false

abbrev pub auth_method_value : AuthMethod → String
auth_method_value AuthMethod.ssh_key = "ssh_key"
auth_method_value AuthMethod.password = "password"

instance abbrev pub UserRole_Eq : Eq UserRole
UserRole_Eq = record {
  is_equal = λ a b. role_index a == role_index b;
  is_equal_iff = role_index-eq_iff;
}

instance abbrev pub DeviceStatus_Eq : Eq DeviceStatus
DeviceStatus_Eq = record {
  is_equal = λ a b. device_status_index a == device_status_index b;
  is_equal_iff = device_status_index-eq_iff;
}

instance abbrev pub ServerStatus_Eq : Eq ServerStatus
ServerStatus_Eq = record {
  is_equal = λ a b. server_status_index a == server_status_index b;
  is_equal_iff = server_status_index-eq_iff;
}

instance abbrev pub SetupJobStatus_Eq : Eq SetupJobStatus
SetupJobStatus_Eq = record {
  is_equal = λ a b. job_status_index a == job_status_index b;
  is_equal_iff = job_status_index-eq_iff;
}

abbrev pub device_status_value : DeviceStatus → String
device_status_value DeviceStatus.provisioning = "provisioning"
device_status_value DeviceStatus.active = "active"
device_status_value DeviceStatus.revoked = "revoked"
device_status_value DeviceStatus.failed = "failed"

abbrev pub event_level_value : EventLevel → String
event_level_value EventLevel.info = "info"
event_level_value EventLevel.warning = "warning"
event_level_value EventLevel.error = "error"
