-- ===== src/SetupJobs/Records.antt =====
-- What the calls of the job service share (backend/app/services/setup_job_service.py): the labels of
-- the steps, the guarded transition, the secrets in memory and the events.
use vpn_controll_app.Base.{ℕ, String, Option, List, [], ◌∷◌, nat_Eq}
use vpn_controll_app.Dict.{lookup, insert, erase}
use vpn_controll_app.Domain.Status.{SetupJobStatus, EventLevel, SetupJobStatus_Eq}
use vpn_controll_app.Domain.Json.{end}
use vpn_controll_app.Domain.Entities.{SetupJob}
use vpn_controll_app.Outside.{Outside}
use vpn_controll_app.Storage.State.{Store}
use vpn_controll_app.Storage.Action.{Action, ok, ask, modify, ◌>>=◌}
use vpn_controll_app.Storage.Jobs.{transition_setup_job, add_setup_event, JobChange}

-- `STEP_LABELS`
abbrev pub step_label : SetupJobStatus → String
step_label SetupJobStatus.draft = "Черновик"
step_label SetupJobStatus.queued = "В очереди"
step_label SetupJobStatus.checking_ssh = "Проверяем SSH-подключение"
step_label SetupJobStatus.installing_agent = "Устанавливаем агент"
step_label SetupJobStatus.installing_vpn = "Устанавливаем VPN"
step_label SetupJobStatus.verifying = "Проверяем узел"
step_label SetupJobStatus.success = "Готово"
step_label SetupJobStatus.failed = "Ошибка"
step_label SetupJobStatus.cancelled = "Отменено"

-- `NON_TERMINAL_STATUSES`
abbrev pub non_terminal_statuses : List SetupJobStatus
non_terminal_statuses =
    SetupJobStatus.draft ∷ SetupJobStatus.queued ∷ SetupJobStatus.checking_ssh
    ∷ SetupJobStatus.installing_agent ∷ SetupJobStatus.installing_vpn ∷ SetupJobStatus.verifying
    ∷ []

-- `transition_setup_job` as a call of the storage.
abbrev pub transition : ℕ → List SetupJobStatus → List JobChange → Action (Option SetupJob)
transition job_id expected changes s =
    let (r, t) = transition_setup_job job_id expected changes s in (ok r, t)

unfoldable pub keep_ssh_secret : ℕ → String → Store → Store
keep_ssh_secret job_id secret s = record s {
  ephemeral_ssh_secrets = insert job_id secret s.ephemeral_ssh_secrets;
}

abbrev pub get_ephemeral_ssh_secret : ℕ → Store → Option String
get_ephemeral_ssh_secret job_id s = lookup job_id s.ephemeral_ssh_secrets

unfoldable pub forget_ephemeral_ssh_secret : ℕ → Store → Store
forget_ephemeral_ssh_secret job_id s = record s {
  ephemeral_ssh_secrets = erase job_id s.ephemeral_ssh_secrets;
}

module _ (o : Outside) where
  unfoldable pub add_event : ℕ → EventLevel → String → String → Action (Unit {0})
  unfolding add_setup_event
  add_event job_id level step message = do
    id ← ask o.uuid4
    now ← ask o.clock
    modify (
        add_setup_event (record {
          id = id;
          setup_job_id = job_id;
          level = level;
          step = step;
          message = message;
          created_at = now;
          metadata = end;
        }))
