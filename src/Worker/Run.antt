-- ===== src/Worker/Run.antt =====
-- A run of a job, with the `except` clauses around it: whatever runs meanwhile, the job ends.
use vpn_controll_app.Base.{
  ℕ, ◌≡◌, refl, inl, inr, Bool, true, false, String, Option, none, some, All, nat_Eq, Bool-cases,
  if◌then◌else◌,
}
use vpn_controll_app.Dict.{lookup}
use vpn_controll_app.Domain.Status.{
  SetupJobStatus, ServerStatus_Eq, EventLevel, SetupJobStatus_Eq, job_status_value,
}
use vpn_controll_app.Domain.Entities.{SetupJob}
use vpn_controll_app.Errors.{app_error, setup_step_error, value_error, key_error, attribute_error}
use vpn_controll_app.Outside.{Outside}
use vpn_controll_app.Settings.{Settings}
use vpn_controll_app.Storage.State.{Store}
use vpn_controll_app.Storage.Action.{Action, Result, ok, err, skip, ◌>>=◌, ◌>>◌}
use vpn_controll_app.Storage.Jobs.{add_setup_event}
use vpn_controll_app.SetupJobs.{add_event, finish_failed, forget_ephemeral_ssh_secret}
use vpn_controll_app.Worker.{
  Schedule, if_completed, run_cancellable, install_vpn, install_agent, run_steps, run_job,
}
use vpn_controll_app.Worker.Runner.{AgentCredentials, SetupRunner}
use vpn_controll_app.Worker.Outcome.{
  Holds-map, At, IsFinished, IsThere, IsFine, IsHarmless, completed-IsFine, run_cancellable-Leaves,
}
use vpn_controll_app.Worker.Transitions.{HasEnded, finish_failed-HasEnded}
use vpn_controll_app.Worker.Finish.{
  IsQuietRunner, finished, there, moved, bound_step-IsFine, harmless_for, install_vpn-IsFine, note,
}
use vpn_controll_app.Worker.{run_with, handle_step_error, last_call, handle_crash}
use vpn_controll_app.Storage.Action.{catch}

-- A call that returned, and left the job finished.
abbrev pub IsEnded : ℕ → Result (Unit {0}) × Store → Type 0
IsEnded k q = (q.0 ≡ ok tt) × IsFinished k q.1

module _ (o : Outside) (settings : Settings) (runner : SetupRunner)
    (format : String → String → String) (calm : IsQuietRunner runner) where
  -- Whatever runs during a job's steps is harmless for the job.
  pub record IsHarmlessSchedule (k : ℕ) (schedule : Schedule o settings runner format)
      : Type 0 where
    pub preflight : All (IsHarmless k) schedule.preflight
    pub install : All (IsHarmless k) schedule.install
    pub vpn : All (IsHarmless k) schedule.vpn
    pub health : All (IsHarmless k) schedule.health

  install_agent-IsFine :
      (job : SetupJob) (c : AgentCredentials) (x : String)
      (schedule : Schedule o settings runner format) (s : Store)
      → IsHarmlessSchedule job.id schedule
      → At job.id SetupJobStatus.checking_ssh s
      → IsFine job.id (install_agent o settings runner format job c x schedule s)
  unfolding install_agent add_event add_setup_event
  install_agent-IsFine job c x schedule s harmless at =
      elim (Bool-cases job.verify_before_install) [
        | inl verified ↦ rw verified (
            bound_step-IsFine o settings runner format calm job.id SetupJobStatus.checking_ssh
              SetupJobStatus.installing_agent _ _ s refl at
              (λ next t same h.
                installed next same
                  (note o settings runner format calm next SetupJobStatus.checking_ssh
                    "SSH preflight успешно выполнен" t)
                  (moved next.id t _ refl h)))
        | inr skipped ↦ rw skipped (
            bound_step-IsFine o settings runner format calm job.id SetupJobStatus.checking_ssh
              SetupJobStatus.installing_agent _ _ s refl at
              (λ next t same h. installed next same t h))
      ]
    where
      installed :
          (next : SetupJob)
          → next.id ≡ job.id
          → (t : Store) → At next.id SetupJobStatus.installing_agent t
          → IsFine next.id (
              (run_cancellable o settings runner format next.id schedule.install
                    (runner.install_agent next c x)
                  >>= if_completed o settings runner format (λ _.
                    install_vpn o settings runner format next c x schedule.vpn schedule.health))
                t)
      installed next same t h =
          completed-IsFine o settings runner format next.id
            (λ _ u. At next.id SetupJobStatus.installing_agent u)
            (λ _. install_vpn o settings runner format next c x schedule.vpn schedule.health)
            (run_cancellable o settings runner format next.id schedule.install
              (runner.install_agent next c x))
            t
            (run_cancellable-Leaves o settings runner format next.id SetupJobStatus.installing_agent
              schedule.install (runner.install_agent next c x) t
              (harmless_for o settings runner format calm schedule.install same harmless.install)
              (calm.install_agent next c x) h)
            (λ _ u g.
              install_vpn-IsFine o settings runner format calm next c x schedule.vpn schedule.health
                u (harmless_for o settings runner format calm schedule.vpn same harmless.vpn)
                (harmless_for o settings runner format calm schedule.health same harmless.health) g)

  either-IsFine :
      (b : Bool) (m n : Action (Unit {0})) (k : ℕ) (s : Store)
      → IsFine k (m s)
      → IsFine k (n s)
      → IsFine k ((if b then m else n) s)
  either-IsFine true m n k s h g = h
  either-IsFine false m n k s h g = g

  run_steps-IsFine :
      (job : SetupJob) (c : AgentCredentials) (x : String)
      (schedule : Schedule o settings runner format) (s : Store)
      → IsHarmlessSchedule job.id schedule
      → At job.id SetupJobStatus.checking_ssh s
      → IsFine job.id (run_steps o settings runner format job c x schedule s)
  unfolding run_steps add_event add_setup_event
  run_steps-IsFine job c x schedule s harmless at =
      either-IsFine job.verify_before_install
        (run_cancellable o settings runner format job.id schedule.preflight
            (runner.check_ssh job c x)
          >>= if_completed o settings runner format
              (λ _. install_agent o settings runner format job c x schedule))
        (add_event o job.id EventLevel.warning (job_status_value SetupJobStatus.checking_ssh)
            "SSH preflight пропущен по настройке"
          >> install_agent o settings runner format job c x schedule)
        job.id s
        (completed-IsFine o settings runner format job.id
          (λ _ t. At job.id SetupJobStatus.checking_ssh t)
          (λ _. install_agent o settings runner format job c x schedule)
          (run_cancellable o settings runner format job.id schedule.preflight
            (runner.check_ssh job c x))
          s
          (run_cancellable-Leaves o settings runner format job.id SetupJobStatus.checking_ssh
            schedule.preflight (runner.check_ssh job c x) s harmless.preflight
            (calm.check_ssh job c x) at)
          (λ _ t h. install_agent-IsFine job c x schedule t harmless h))
        (install_agent-IsFine job c x schedule
          (add_event o job.id EventLevel.warning (job_status_value SetupJobStatus.checking_ssh)
            "SSH preflight пропущен по настройке" s).1
          harmless (moved job.id s _ refl at))

  -- A failure that is recorded finishes the job.
  failed-IsFine :
      (k : ℕ) (message : String) (s : Store)
      → IsThere k s
      → IsFine k ((finish_failed o k message >> skip) s)
  failed-IsFine k message s h =
      go (finish_failed o k message s) ((finish_failed-HasEnded o k message s h).1)
    where
      go :
          (q : Result (Option SetupJob) × Store)
          → IsFinished k q.1
          → IsFine k (elim q.0 as (λ _. Result (Unit {0}) × Store) [
            | ok a ↦ (ok tt, q.1)
            | err e ↦ (err e, q.1)
          ])
      go (ok a, t) h = h
      go (err e, t) h = Holds-map k t t refl (λ y p. tt) h

  -- The `except` clauses and the `finally` after the steps.
  handled-IsFine :
      (k : ℕ) (q : Result (Unit {0}) × Store)
      → IsFine k q
      → IsFine k (elim q.0 as (λ _. Result (Unit {0}) × Store) [
        | ok a ↦ (ok a, q.1)
        | err e ↦ handle_step_error o settings runner format k e q.1
      ])
  handled-IsFine k (ok a, t) h = h
  handled-IsFine k (err (app_error exc), t) h = failed-IsFine k exc.message t h
  handled-IsFine k (err (setup_step_error m), t) h = failed-IsFine k m t h
  handled-IsFine k (err (value_error m), t) h = h
  handled-IsFine k (err (key_error m), t) h = h
  handled-IsFine k (err attribute_error, t) h = h

  forgotten-IsFine :
      (k : ℕ) (q : Result (Unit {0}) × Store)
      → IsFine k q
      → IsFine k (q.0, last_call o settings runner format (forget_ephemeral_ssh_secret k) q.0 q.1)
  unfolding forget_ephemeral_ssh_secret
  forgotten-IsFine k (ok a, t) h = finished k t _ refl h
  forgotten-IsFine k (err (app_error exc), t) h = Holds-map k t _ refl (λ y p. p) h
  forgotten-IsFine k (err (setup_step_error m), t) h = Holds-map k t _ refl (λ y p. p) h
  forgotten-IsFine k (err (value_error m), t) h = Holds-map k t _ refl (λ y p. p) h
  forgotten-IsFine k (err (key_error m), t) h = Holds-map k t _ refl (λ y p. p) h
  forgotten-IsFine k (err attribute_error, t) h = h

  run_with-IsFine :
      (job : SetupJob) (schedule : Schedule o settings runner format) (secret : Option String)
      (s : Store)
      → IsHarmlessSchedule job.id schedule
      → At job.id SetupJobStatus.checking_ssh s
      → IsFine job.id (run_with o settings runner format job schedule secret s)
  run_with-IsFine job schedule none s harmless at = failed-IsFine job.id _ s (there job.id s at)
  run_with-IsFine job schedule (some x) s harmless at = forgotten-IsFine job.id _ (
      handled-IsFine job.id _
        (run_steps-IsFine job _ x schedule _ harmless (moved job.id s _ refl at)))

  crash_lem :
      (k : ℕ) (q : Result (Option SetupJob) × Store)
      → HasEnded k q
      → IsEnded k (elim q.0 as (λ _. Result (Unit {0}) × Store) [
        | ok a ↦ (ok tt, q.1)
        | err e ↦ (err e, q.1)
      ])
  crash_lem k (ok a, t) h = (refl, h.1)
  crash_lem k (err e, t) h = cc

  -- A crash of the job's run is recorded as well: the job is finished whatever happens.
  crashed :
      (k : ℕ) (q : Result (Unit {0}) × Store)
      → IsFine k q
      → IsEnded k (elim q.0 as (λ _. Result (Unit {0}) × Store) [
        | ok a ↦ (ok a, q.1)
        | err e ↦ handle_crash o settings runner format k e q.1
      ])
  crashed k (ok tt, t) h = (refl, h)
  crashed k (err e, t) h =
      crash_lem k (finish_failed o k "Внутренняя ошибка установки" t)
        (finish_failed-HasEnded o k "Внутренняя ошибка установки" t h)

  -- The run of a job returns, whatever its steps end with, and leaves the job finished.
  pub run_caught-IsEnded :
      (job : SetupJob) (schedule : Schedule o settings runner format) (s : Store)
      → IsHarmlessSchedule job.id schedule
      → At job.id SetupJobStatus.checking_ssh s
      → IsEnded job.id (
          catch
            (run_job o settings runner format job schedule)
            (handle_crash o settings runner format job.id)
            s)
  unfolding run_job
  run_caught-IsEnded job schedule s harmless at =
      crashed job.id (run_job o settings runner format job schedule s)
        (run_with-IsFine job schedule (lookup job.id s.ephemeral_ssh_secrets) s harmless at)
