-- ===== src/Worker/Runner.antt =====
-- The runner of an installation (backend/app/workers/setup_worker.py): what the worker asks of
-- it, and the runner of the local demo.
use vpn_controll_app.Base.{String, concat, contains, if◌then◌else◌}
use vpn_controll_app.Domain.Entities.{SetupJob}
use vpn_controll_app.Errors.{setup_step_error}
use vpn_controll_app.Storage.Action.{Action, raise, skip}

pub record AgentCredentials : Type 0 where
  pub key_id : String
  pub secret : String
  pub base_url : String

-- The protocol `SetupRunner`.
pub record SetupRunner : Type 0 where
  pub check_ssh : SetupJob → AgentCredentials → String → Action (Unit {0})
  pub install_agent : SetupJob → AgentCredentials → String → Action (Unit {0})
  pub install_vpn : SetupJob → AgentCredentials → String → Action (Unit {0})

-- `StubSetupRunner.check_ssh`, after the delay.
unfoldable pub stub_check_ssh : SetupJob → AgentCredentials → String → Action (Unit {0})
stub_check_ssh job credentials ssh_secret =
    if contains "fail" job.host
    then raise (
        setup_step_error
          (concat "Не удалось подключиться по SSH к " (concat job.host " (имитация)")))
    else skip

abbrev pub stub_runner : SetupRunner
stub_runner = record {
  check_ssh = stub_check_ssh;
  install_agent = λ job credentials ssh_secret. skip;
  install_vpn = λ job credentials ssh_secret. skip;
}
