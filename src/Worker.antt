-- ===== src/Worker.antt =====
-- The worker that installs nodes (backend/app/workers/setup_worker.py): it claims a job, runs its
-- steps, and records how they end. What other tasks do while a step runs is a parameter: for
-- each poll of the step that found it still running, a function on the state.
pub mod Runner
pub mod Deploy
pub mod Secrets
pub mod Outcome
pub mod Transitions
pub mod Quiet
pub mod Finish
pub mod Run
pub mod Round
pub mod Cancel
use vpn_controll_app.Base.{
  ℕ, Bool, true, false, not, ◌||◌, String, Option, none, some, List, [], ◌∷◌, ◌==◌, nat_Eq, concat,
  is_empty, if◌then◌else◌,
}
use vpn_controll_app.Domain.Status.{
  SetupJobStatus, EventLevel, ServerStatus, SetupJobStatus_Eq, ServerStatus_Eq, job_status_value,
}
use vpn_controll_app.Domain.Entities.{SetupJob, ServerNode}
use vpn_controll_app.Errors.{Error, app_error, setup_step_error, attribute_error}
use vpn_controll_app.Outside.{Outside}
use vpn_controll_app.Settings.{Settings}
use vpn_controll_app.Storage.State.{Store}
use vpn_controll_app.Storage.Action.{
  Action, Result, ok, err, pure, raise, gets, ask, modify, skip, catch, ◌>>=◌, ◌>>◌,
}
use vpn_controll_app.Servers
use vpn_controll_app.Servers.{strip_slashes}
use vpn_controll_app.SetupJobs
use vpn_controll_app.SetupJobs.{
  add_event, set_step, finish_success, finish_failed, claim_next, get_ephemeral_ssh_secret,
  forget_ephemeral_ssh_secret,
}
use Runner.{AgentCredentials, SetupRunner}

-- What other tasks do during the polls of a step.
abbrev pub Meanwhile : Type 0
Meanwhile = List (Store → Store)

-- `STEP_START_MESSAGES`, for the steps that use it.
abbrev step_start_message : SetupJobStatus → String
step_start_message SetupJobStatus.checking_ssh = "Проверяем SSH-подключение"
step_start_message SetupJobStatus.installing_agent = "Устанавливаем агент"
step_start_message SetupJobStatus.installing_vpn = "Проверяем VPN-окружение"
step_start_message _ = ""

-- `checked.last_error or "нет ответа"`
abbrev reason : Option String → String
reason none = "нет ответа"
reason (some e) = if is_empty e then "нет ответа" else e

-- `template.format(host=host).rstrip("/")`; `format` is Python's.
module _ (o : Outside) (settings : Settings) (runner : SetupRunner)
    (format : String → String → String) where
  -- `_run_cancellable`: the result of the operation, or none if the job was cancelled first.
  unfoldable pub run_cancellable : {A : Type 0} → ℕ → Meanwhile → Action A → Action (Option A)
  run_cancellable job_id [] operation = operation >>= λ a. pure (some a)
  run_cancellable job_id (others ∷ rest) operation =
      modify others >> SetupJobs.get o job_id >>= λ job.
      if job.status == SetupJobStatus.cancelled
      then pure none
      else run_cancellable job_id rest operation

  -- What to do with a step's result, unless the job was cancelled.
  abbrev pub if_completed : {A : Type 0} → (A → Action (Unit {0})) → Option A → Action (Unit {0})
  if_completed next none = skip
  if_completed next (some a) = next a

  -- The last steps: the node's health, and the end of the job.
  unfoldable pub finish_checked : SetupJob → ServerNode → ServerNode → Action (Unit {0})
  finish_checked job node checked =
      if checked.status == ServerStatus.online || checked.status == ServerStatus.warning
      then (finish_success o job.id node.id
          >>= if_completed
              (λ _. Servers.activate_after_setup o node.id job.available_for_new_devices >> skip))
      else raise (
          setup_step_error
            (concat "Агент установлен, но health-check не прошёл: " (reason checked.last_error)))

  -- From the status `verifying` on.
  unfoldable pub verify_node : SetupJob → AgentCredentials → Meanwhile → Action (Unit {0})
  verify_node job credentials meanwhile = do
    node ←
        Servers.create_from_setup o job credentials.base_url credentials.key_id credentials.secret
    checked ← run_cancellable job.id meanwhile (Servers.health_check o node.id none)
    if_completed (finish_checked job node) checked

  -- The step that checks the VPN, or its omission.
  unfoldable pub install_vpn :
      SetupJob → AgentCredentials → String → Meanwhile → Meanwhile → Action (Unit {0})
  install_vpn job credentials ssh_secret meanwhile later =
      if job.install_awg
      then (set_step o job.id (SetupJobStatus.installing_agent ∷ []) SetupJobStatus.installing_vpn
            (step_start_message SetupJobStatus.installing_vpn)
          >>= if_completed (λ next.
            add_event o next.id EventLevel.info (job_status_value SetupJobStatus.installing_agent)
              "Агент установлен"
            >> run_cancellable next.id meanwhile (runner.install_vpn next credentials ssh_secret)
            >>= if_completed (λ _.
              set_step o next.id (SetupJobStatus.installing_vpn ∷ []) SetupJobStatus.verifying
                "Проверяем доступность агента"
              >>= if_completed (λ last.
                add_event o last.id EventLevel.info (job_status_value SetupJobStatus.installing_vpn)
                  "VPN-окружение проверено"
                >> verify_node last credentials later))))
      else (set_step o job.id (SetupJobStatus.installing_agent ∷ []) SetupJobStatus.verifying
            "Проверяем доступность агента"
          >>= if_completed (λ next.
            add_event o next.id EventLevel.info (job_status_value SetupJobStatus.installing_agent)
              "Агент установлен"
            >> add_event o next.id EventLevel.info (job_status_value SetupJobStatus.installing_vpn)
                "Проверка VPN-окружения пропущена по настройке"
            >> verify_node next credentials later))

  -- What other tasks do during the four steps of a job.
  pub record Schedule : Type 0 where
    pub preflight : Meanwhile
    pub install : Meanwhile
    pub vpn : Meanwhile
    pub health : Meanwhile

  -- `if job is None: return` after `job = …set_step(…)`: the `finally` of `_run_job` then reads
  -- `job.id` of None, so the return becomes an AttributeError.
  abbrev pub if_bound : Option SetupJob → Action (Option SetupJob)
  if_bound none = raise attribute_error
  if_bound (some next) = pure (some next)

  -- The step that installs the agent, and those after it.
  unfoldable pub install_agent : SetupJob → AgentCredentials → String → Schedule → Action (Unit {0})
  install_agent job credentials ssh_secret schedule =
      set_step o job.id (SetupJobStatus.checking_ssh ∷ []) SetupJobStatus.installing_agent
        (step_start_message SetupJobStatus.installing_agent)
      >>= if_bound
      >>= if_completed (λ next.
        (if job.verify_before_install
          then add_event o next.id EventLevel.info (job_status_value SetupJobStatus.checking_ssh)
              "SSH preflight успешно выполнен"
          else skip)
        >> run_cancellable next.id schedule.install
            (runner.install_agent next credentials ssh_secret)
        >>= if_completed
            (λ _. install_vpn next credentials ssh_secret schedule.vpn schedule.health))

  -- The body of the `try` of `_run_job`.
  unfoldable pub run_steps : SetupJob → AgentCredentials → String → Schedule → Action (Unit {0})
  run_steps job credentials ssh_secret schedule =
      if job.verify_before_install
      then (run_cancellable job.id schedule.preflight (runner.check_ssh job credentials ssh_secret)
          >>= if_completed (λ _. install_agent job credentials ssh_secret schedule))
      else (add_event o job.id EventLevel.warning (job_status_value SetupJobStatus.checking_ssh)
            "SSH preflight пропущен по настройке"
          >> install_agent job credentials ssh_secret schedule)

  -- The `except` clauses of `_run_job`; any other error goes on to the loop.
  abbrev pub handle_step_error : ℕ → Error → Action (Unit {0})
  handle_step_error job_id (setup_step_error message) = finish_failed o job_id message >> skip
  handle_step_error job_id (app_error exc) = finish_failed o job_id exc.message >> skip
  handle_step_error job_id e = raise e

  -- The last call, unless its argument `job.id` failed.
  abbrev pub last_call : (Store → Store) → Result (Unit {0}) → Store → Store
  last_call f (err attribute_error) t = t
  last_call f _ t = f t

  -- `try: m finally: …`
  abbrev pub finally : Action (Unit {0}) → (Store → Store) → Action (Unit {0})
  finally m f s = let (r, t) = m s in (r, last_call f r t)

  abbrev pub run_with : SetupJob → Schedule → Option String → Action (Unit {0})
  run_with job schedule none =
      finish_failed o job.id
        "SSH-пароль больше недоступен; создай новую задачу и введи пароль заново"
      >> skip
  run_with job schedule (some ssh_secret) = do
    key_id ← ask o.agent_key_id
    secret ← ask o.agent_secret
    let credentials : AgentCredentials = record {
      key_id = key_id;
      secret = secret;
      base_url = strip_slashes (format settings.setup_agent_base_url_template job.host);
    }
    finally (catch (run_steps job credentials ssh_secret schedule) (handle_step_error job.id))
        (forget_ephemeral_ssh_secret job.id)

  unfoldable pub run_job : SetupJob → Schedule → Action (Unit {0})
  run_job job schedule = gets (get_ephemeral_ssh_secret job.id) >>= run_with job schedule

  -- `except Exception` of `_loop`.
  abbrev pub handle_crash : ℕ → Error → Action (Unit {0})
  handle_crash job_id e = finish_failed o job_id "Внутренняя ошибка установки" >> skip

  -- A job that was claimed, if one was.
  abbrev pub run_claimed : Schedule → Option SetupJob → Action (Option SetupJob)
  run_claimed schedule none = pure none
  run_claimed schedule (some job) =
      catch (run_job job schedule) (handle_crash job.id) >> pure (some job)

  -- One round of `_loop`: none if no job was queued.
  unfoldable pub run_round : Schedule → Action (Option SetupJob)
  run_round schedule = claim_next o >>= run_claimed schedule
