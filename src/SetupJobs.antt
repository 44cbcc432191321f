-- ===== src/SetupJobs.antt =====
-- The jobs that install a node (backend/app/services/setup_job_service.py): queue, steps and
-- events. The SSH secret stays in the process's memory, never in a job.
mod Records
mod Steps
pub mod Machine
pub mod Effects
pub mod Queue
pub mod Calls
pub mod Forever
pub use Records.*
pub use Steps.*
unfoldable pub use Records.{keep_ssh_secret, forget_ephemeral_ssh_secret, add_event}
unfoldable pub use Steps.{
  note_step, claim_next, set_step, note_success, finish_success, note_failure, finish_failed,
}
use vpn_controll_app.Base.{
  ℕ, Bool, true, false, not, String, Option, none, some, List, [], ◌∷◌, ◌==◌, nat_Eq, is_some,
  is_empty, strip, if◌then◌else◌,
}
use vpn_controll_app.Dict.{lookup, insert, erase}
use vpn_controll_app.Domain.Status.{
  SetupJobStatus, AuthMethod, EventLevel, SetupJobStatus_Eq, job_status_value, is_terminal,
}
use vpn_controll_app.Domain.Json.{Value, num, str, Fields, end, field}
use vpn_controll_app.Domain.Entities.{User, SetupJob, SetupJobEvent}
use vpn_controll_app.Errors.Code.{ErrorCode}
use vpn_controll_app.Errors.{Error, app, not_found}
use vpn_controll_app.Outside.{Outside}
use vpn_controll_app.Audit.{log, no_client}
use vpn_controll_app.Storage.State.{Store}
use vpn_controll_app.Storage.Action.{
  Action, ok, pure, raise, gets, or_raise, ask, modify, raise_if, ◌>>=◌, ◌>>◌,
}
use vpn_controll_app.Storage.Jobs.{
  save_setup_job, get_setup_job, list_setup_jobs, claim_next_setup_job, transition_setup_job,
  add_setup_event, list_setup_events, JobChange,
}

-- The arguments of `create` that come from the request.
pub record NewJob : Type 0 where
  pub server_name : String
  pub host : String
  pub ssh_port : ℕ
  pub ssh_username : String
  pub auth_method : AuthMethod
  pub secret : String
  pub region_note : Option String
  pub install_awg : Bool
  pub available_for_new_devices : Bool
  pub verify_before_install : Bool

abbrev queued_job : ℕ → User → NewJob → ℕ → SetupJob
queued_job id actor new now = record {
  id = id;
  created_by_user_id = actor.id;
  server_name = strip new.server_name;
  host = strip new.host;
  ssh_port = new.ssh_port;
  ssh_username = strip new.ssh_username;
  auth_method = new.auth_method;
  created_at = now;
  updated_at = now;
  status = SetupJobStatus.queued;
  secret_encrypted = none;
  region_note = new.region_note;
  install_awg = new.install_awg;
  available_for_new_devices = new.available_for_new_devices;
  verify_before_install = new.verify_before_install;
  current_step = step_label SetupJobStatus.queued;
  error_message = none;
  result_payload = none;
  server_node_id = none;
  started_at = none;
  finished_at = none;
}

module _ (o : Outside) where
  -- In memory `add_setup_job` cannot fail, so the handler that forgets the secret is left out.
  unfoldable pub create : Bool → User → NewJob → Action SetupJob
  unfolding add_event
  create worker_enabled actor new = do
    raise_if (is_empty (strip new.secret))
        (app ErrorCode.secret_required "Нужен SSH-ключ или пароль для подключения" 400)
    raise_if (not worker_enabled) (
        app ErrorCode.validation_error
          "Воркер установки выключен; пароль не будет сохранён — включи SETUP_WORKER_ENABLED и создай задачу заново"
          409)
    now ← ask o.clock
    id ← ask o.uuid4
    let job = queued_job id actor new now
    modify (keep_ssh_secret id new.secret)
    modify (save_setup_job job)
    add_event o id EventLevel.info (job_status_value job.status)
        "Задача поставлена в очередь; SSH-пароль хранится только в памяти процесса"
    log o "setup_job_created" (some actor.id) (some "setup_job") (some id)
        (field "server_name" (str job.server_name) (field "host" (str job.host) end)) no_client
    pure job

  unfoldable pub get : ℕ → Action SetupJob
  get job_id = do or_raise (← gets (get_setup_job job_id)) (not_found "Задача установки не найдена")

  unfoldable pub events : ℕ → Action (List SetupJobEvent)
  unfolding get
  events job_id = do job ← get job_id; gets (list_setup_events job_id)

  -- Creating a job queues it already; a repeated start stores nothing.
  unfoldable pub start : Bool → User → ℕ → Action SetupJob
  unfolding get
  start worker_enabled actor job_id = do
    job ← get job_id
    raise_if (not worker_enabled) (
        app ErrorCode.validation_error
          "Воркер установки выключен; включи SETUP_WORKER_ENABLED, чтобы запустить задачу" 409)
    raise_if (is_terminal job.status)
        (app ErrorCode.validation_error "Задача уже завершена — создай новую" 409)
    raise_if (job.status == SetupJobStatus.draft) (
        app ErrorCode.secret_required
          "SSH-пароль не хранится; создай новую задачу и введи пароль заново" 409)
    pure job

  -- The end of `cancel`, with the job as the transition returned it.
  unfoldable pub cancelled : User → ℕ → Option SetupJob → Action SetupJob
  unfolding add_event
  cancelled actor job_id none = raise (app ErrorCode.validation_error "Задача уже завершена" 409)
  cancelled actor job_id (some job) = do
    modify (forget_ephemeral_ssh_secret job_id)
    add_event o job.id EventLevel.warning "cancelled" "Задача отменена"
    log o "setup_job_cancelled" (some actor.id) (some "setup_job") (some job.id) end no_client
    pure job

  -- `cancel` once the job is known to exist.
  unfoldable pub cancel_known : User → ℕ → Action SetupJob
  unfolding cancelled
  cancel_known actor job_id = do
    now ← ask o.clock
    moved ← transition job_id non_terminal_statuses (
        JobChange.status SetupJobStatus.cancelled
        ∷ JobChange.current_step (step_label SetupJobStatus.cancelled)
        ∷ JobChange.finished_at now
        ∷ JobChange.updated_at now
        ∷ JobChange.secret_encrypted none
        ∷ [])
    cancelled actor job_id moved

  unfoldable pub cancel : User → ℕ → Action SetupJob
  unfolding get
  cancel actor job_id = do job ← get job_id; cancel_known actor job_id
