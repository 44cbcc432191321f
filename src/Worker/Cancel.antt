-- ===== src/Worker/Cancel.antt =====
-- A cancellation (`cancel` of backend/app/services/setup_job_service.py) between the polls of a step
-- of backend/app/workers/setup_worker.py.
use vpn_controll_app.Base.{
  ℕ, ◌≡◌, ◌∙◌, ap, refl, subst, arith, inl, inr, true, Option, none, some, [], ◌∷◌, ◌==◌, nat_Eq,
  Bool-cases, Option-cases,
}
use vpn_controll_app.Dict.{lookup, insert}
use vpn_controll_app.Dict.Laws.{lookup-insert}
use vpn_controll_app.Domain.Status.{SetupJobStatus, SetupJobStatus_Eq, is_terminal}
use vpn_controll_app.Domain.Entities.{User, SetupJob}
use vpn_controll_app.Outside.{Outside}
use vpn_controll_app.Audit.{log}
use vpn_controll_app.Settings.{Settings}
use vpn_controll_app.Storage.Action.{Action, Result, ok}
use vpn_controll_app.Storage.State.{Store}
use vpn_controll_app.Storage.Jobs.{
  JobChange, transition_setup_job, transition_found, assign_all, save_setup_job, add_setup_event,
}
use vpn_controll_app.SetupJobs.{
  step_label, get, cancel, cancel_known, cancelled, add_event, forget_ephemeral_ssh_secret,
}
use vpn_controll_app.Worker.Outcome.{Holds-map, At, IsHarmless}

-- The table of jobs after a job was saved that is terminal: any job stands as before, or is
-- that one.
saved-At :
    (k : ℕ) (x : SetupJobStatus) (new : SetupJob) (s t : Store)
    → t.setup_jobs ≡ insert new.id new s.setup_jobs
    → is_terminal new.status ≡ true
    → At k x s
    → At k x t
saved-At k x new s t jobs over at = elim (Bool-cases (new.id == k)) [
  | inl same ↦ record {
    job = new;
    found = ap (lookup k) jobs ∙ lookup-insert new.id k new s.setup_jobs ∙ rw same refl;
    same = (nat_Eq.is_equal_iff new.id k).0 same;
    holds = inr over;
  }
  | inr other ↦ record {
    job = at.job;
    found = ap (lookup k) jobs ∙ lookup-insert new.id k new s.setup_jobs ∙ rw other at.found;
    same = at.same;
    holds = at.holds;
  }
]

module _ (o : Outside) where
  cancel_known-IsHarmless :
      (actor : User) (i k : ℕ) (x : SetupJobStatus) (s : Store)
      → At k x s
      → At k x (cancel_known o actor i s).1
  unfolding cancel_known cancelled add_event add_setup_event transition_setup_job transition_found
      save_setup_job assign_all log forget_ephemeral_ssh_secret
  cancel_known-IsHarmless actor i k x s at = elim (Option-cases (lookup i s.setup_jobs)) [
    | inl absent ↦ Holds-map k s _ (ground arith) (λ y p. p) at
    | inr (job, found) ↦ elim (Bool-cases (is_terminal job.status)) [
      | inl over ↦ Holds-map k s _ (ground arith) (λ y p. p) at
      | inr going ↦
          saved-At k x
            (assign_all
              (JobChange.status SetupJobStatus.cancelled
                ∷ JobChange.current_step (step_label SetupJobStatus.cancelled)
                ∷ JobChange.finished_at (o.clock s.asked)
                ∷ JobChange.updated_at (o.clock s.asked)
                ∷ JobChange.secret_encrypted none
                ∷ [])
              job)
            s (cancel_known o actor i s).1 (ground arith) refl at
    ]
  ]

  -- Whoever cancels whatever job while a step runs: a job that stands at a status, or is finished,
  -- stands there still, or is finished.
  pub cancel-IsHarmless : (actor : User) (i k : ℕ) → IsHarmless k (λ s. (cancel o actor i s).1)
  unfolding cancel get
  cancel-IsHarmless actor i k x s at = elim (Option-cases (lookup i s.setup_jobs)) [
    | inl absent ↦ Holds-map k s _ (ground arith) (λ y p. p) at
    | inr (job, found) ↦ subst (At k x) (ground arith) (cancel_known-IsHarmless actor i k x s at)
  ]

-- A step that was given up because its job was cancelled: it has no result and did nothing but
-- see the cancellation, the job stands as cancelled, and its SSH secret is gone.
abbrev pub IsCancelled : {A : Type 0} → ℕ → Store → Result (Option A) × Store → Type 0
IsCancelled k t p =
    (p ≡ (ok none, t))
    × ((job : SetupJob) × (lookup k t.setup_jobs ≡ some job)
        × (job.status ≡ SetupJobStatus.cancelled))
    × (lookup k t.ephemeral_ssh_secrets ≡ none)
