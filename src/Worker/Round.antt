-- ===== src/Worker/Round.antt =====
-- A round of the worker as a whole: whatever runs meanwhile, the job that was claimed ends.
use vpn_controll_app.Base.{ℕ, ◌≡◌, refl, sym, subst, inl, String, Option, none, some, nat_Eq}
use vpn_controll_app.Base.Sort.{sorted}
use vpn_controll_app.Dict.{values}
use vpn_controll_app.Domain.Status.{SetupJobStatus, ServerStatus_Eq, SetupJobStatus_Eq}
use vpn_controll_app.Domain.Entities.{SetupJob}
use vpn_controll_app.Outside.{Outside}
use vpn_controll_app.Settings.{Settings}
use vpn_controll_app.Storage.State.{Store}
use vpn_controll_app.Storage.Action.{Result, ok, err}
use vpn_controll_app.Storage.Jobs.{add_setup_event}
use vpn_controll_app.SetupJobs.{add_event}
use vpn_controll_app.Worker.{Schedule, run_job}
use vpn_controll_app.Worker.Runner.{SetupRunner}
use vpn_controll_app.Worker.Outcome.{At, IsFinished}
use vpn_controll_app.Worker.Finish.{IsQuietRunner}
use vpn_controll_app.Storage.Jobs.{claim_next_setup_job, next_queued_setup_job, save_setup_job}
use vpn_controll_app.SetupJobs.{claim_next, note_step}
use vpn_controll_app.Dict.Laws.{lookup-insert_self}
use vpn_controll_app.Worker.{handle_crash, run_claimed, run_round}
use vpn_controll_app.Storage.Action.{catch}
use vpn_controll_app.Worker.Run.{IsHarmlessSchedule, IsEnded, run_caught-IsEnded}

-- `claim_next` returns the job that was queued first, moved to the first step.
abbrev IsClaimed : ℕ → Result (Option SetupJob) × Store → Type 0
IsClaimed k (ok (some job), t) = (job.id ≡ k) × At k SetupJobStatus.checking_ssh t
IsClaimed k (ok none, t) = ⊥
IsClaimed k (err e, t) = ⊥

-- A round that returned a job, and left it finished.
abbrev pub HasFinished : ℕ → Result (Option SetupJob) × Store → Type 0
HasFinished k (r, t) = ((job : SetupJob) × (r ≡ ok (some job)) × (job.id ≡ k)) × IsFinished k t

module _ (o : Outside) (settings : Settings) (runner : SetupRunner)
    (format : String → String → String) (calm : IsQuietRunner runner) where
  claim_next-IsClaimed :
      (s : Store) (job : SetupJob)
      → next_queued_setup_job s ≡ some job
      → IsClaimed job.id (claim_next o s)
  unfolding claim_next note_step add_event add_setup_event claim_next_setup_job save_setup_job
      next_queued_setup_job sorted values
  claim_next-IsClaimed s job next = simp next (
    refl,
    record {
      job = _;
      found = lookup-insert_self job.id _ s.setup_jobs;
      same = refl;
      holds = inl refl;
    },
  )

  ran :
      (job : SetupJob) (q : Result (Unit {0}) × Store)
      → IsEnded job.id q
      → HasFinished job.id (elim q.0 as (λ _. Result (Option SetupJob) × Store) [
        | ok a ↦ (ok (some job), q.1)
        | err e ↦ (err e, q.1)
      ])
  ran job (ok a, t) h = ((job, refl, refl), h.1)
  ran job (err e, t) h = cc

  claimed-HasFinished :
      (schedule : Schedule o settings runner format) (k : ℕ) (q : Result (Option SetupJob) × Store)
      → IsHarmlessSchedule o settings runner format calm k schedule
      → IsClaimed k q
      → HasFinished k (elim q.0 as (λ _. Result (Option SetupJob) × Store) [
        | ok a ↦ run_claimed o settings runner format schedule a q.1
        | err e ↦ (err e, q.1)
      ])
  claimed-HasFinished schedule k (ok (some job), t) harmless (same, at) =
      subst (λ i. HasFinished i (run_claimed o settings runner format schedule (some job) t)) same
        (ran job
          (catch (run_job o settings runner format job schedule)
            (handle_crash o settings runner format job.id) t)
          (run_caught-IsEnded o settings runner format calm job schedule t
            (subst (λ i. IsHarmlessSchedule o settings runner format calm i schedule) (sym same)
              harmless)
            (subst (λ i. At i SetupJobStatus.checking_ssh t) (sym same) at)))
  claimed-HasFinished schedule k (ok none, t) harmless h = absurd h
  claimed-HasFinished schedule k (err e, t) harmless h = absurd h

  -- A round of a worker that is not stopped, with a job in the queue: it returns the job that was
  -- queued first, without an error, and leaves it finished: as success, failed or cancelled. This
  -- holds whatever the job's steps end with, errors that they do not expect included, for a runner
  -- whose operations do not write jobs, and whatever other tasks do between the polls, as long as
  -- they leave the job as it is or end it.
  pub run_round-IsFinished :
      (schedule : Schedule o settings runner format) (s : Store) (job : SetupJob)
      → IsHarmlessSchedule o settings runner format calm job.id schedule
      → next_queued_setup_job s ≡ some job
      → HasFinished job.id (run_round o settings runner format schedule s)
  unfolding run_round
  run_round-IsFinished schedule s job harmless next =
      claimed-HasFinished schedule job.id (claim_next o s) harmless
        (claim_next-IsClaimed s job next)
