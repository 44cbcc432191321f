-- ===== src/SetupJobs/Effects.antt =====
-- Every method of the service has one of the effects of the state machine.
use vpn_controll_app.Base.{
  ℕ, suc, ◌+◌, ◌==◌, is_empty, strip, Bool, true, false, String, none, some, [], ◌∷◌, ◌≡◌, refl,
  arith, inl, inr, Bool-cases, Option-cases, nat_Eq,
}
use mathlib.Core.Path.{subst, sym}
use vpn_controll_app.Dict.{lookup}
use vpn_controll_app.Domain.Status.{SetupJobStatus, SetupJobStatus_Eq, is_terminal}
use vpn_controll_app.Domain.Entities.{User, SetupJob}
use vpn_controll_app.Outside.{Outside}
use vpn_controll_app.Audit.{log}
use vpn_controll_app.Storage.State.{Store}
use vpn_controll_app.Storage.Jobs.{
  save_setup_job, transition_setup_job, transition_found, assign_all, JobChange,
  claim_next_setup_job, next_queued_setup_job, claimed,
}
use vpn_controll_app.SetupJobs.{
  NewJob, queued_job, step_label, keep_ssh_secret, forget_ephemeral_ssh_secret, create, start,
  cancel, cancel_known, claim_next, set_step, finish_success, finish_failed,
}
use vpn_controll_app.Domain.Json.{num, end, field}
use vpn_controll_app.SetupJobs.Queue.{next_queued_lem}
use vpn_controll_app.SetupJobs.Machine.{
  Moves, claim, succeed, fail, abort, Effect, quiet, forgets, moves, creates, IsValid,
}

-- A move from a status that a job was found in.
from_status :
    {a b : SetupJobStatus} (job : SetupJob)
    → Moves a b
    → (job.status == a) ≡ true
    → Moves job.status b
from_status {a} {b} job move there =
    subst (λ x. Moves x b) (sym ((SetupJobStatus_Eq.is_equal_iff job.status a).0 there)) move

next_queued-asked :
    (s : Store) (job : SetupJob)
    → next_queued_setup_job (record s { asked = suc s.asked }) ≡ some job
    → next_queued_setup_job s ≡ some job
unfolding next_queued_setup_job
next_queued-asked s job e = e

module _ (o : Outside) where
  -- A new job is queued, with its secret in memory; a rejected request changes nothing.
  pub create-Effect :
      (enabled : Bool) (actor : User) (new : NewJob) (s : Store)
      → Effect o s (create o enabled actor new s).1
  unfolding create save_setup_job keep_ssh_secret log
  create-Effect enabled actor new s = elim (Bool-cases (is_empty (strip new.secret))) [
    | inl blank ↦ quiet (ground arith) (ground arith) (ground arith)
    | inr given ↦ elim (Bool-cases enabled) [
      | inr off ↦ quiet (ground arith) (ground arith) (ground arith)
      | inl on ↦
          creates (s.asked + 1) (queued_job (o.uuid4 (s.asked + 1)) actor new (o.clock s.asked))
            new.secret (omega arith) (ground arith) refl refl (ground arith) (ground arith)
    ]
  ]

  pub start-Effect :
      (enabled : Bool) (actor : User) (job_id : ℕ) (s : Store)
      → Effect o s (start o enabled actor job_id s).1
  unfolding start
  start-Effect enabled actor job_id s = quiet (ground arith) (ground arith) (ground arith)

  pub finish_failed-Effect :
      (job_id : ℕ) (message : String) (s : Store) → Effect o s (finish_failed o job_id message s).1
  unfolding finish_failed transition_setup_job transition_found save_setup_job assign_all log
      forget_ephemeral_ssh_secret
  finish_failed-Effect job_id message s = elim (Option-cases (lookup job_id s.setup_jobs)) [
    | inl absent ↦ forgets job_id (ground arith) (ground arith) (ground arith)
    | inr (job, found) ↦ elim (Bool-cases (is_terminal job.status)) [
      | inl finished ↦ forgets job_id (ground arith) (ground arith) (ground arith)
      | inr running ↦
          moves job_id job
            (assign_all
              (JobChange.status SetupJobStatus.failed
                ∷ JobChange.current_step (step_label SetupJobStatus.failed)
                ∷ JobChange.error_message message
                ∷ JobChange.finished_at (o.clock s.asked)
                ∷ JobChange.updated_at (o.clock s.asked)
                ∷ JobChange.secret_encrypted none
                ∷ [])
              job)
            found refl (fail running) (ground arith) (ground arith) (ground arith)
    ]
  ]

  cancel_known-Effect :
      (actor : User) (job_id : ℕ) (s : Store) → Effect o s (cancel_known o actor job_id s).1
  unfolding cancel_known transition_setup_job transition_found save_setup_job assign_all log
      forget_ephemeral_ssh_secret
  cancel_known-Effect actor job_id s = elim (Option-cases (lookup job_id s.setup_jobs)) [
    | inl absent ↦ quiet (ground arith) (ground arith) (ground arith)
    | inr (job, found) ↦ elim (Bool-cases (is_terminal job.status)) [
      | inl finished ↦ quiet (ground arith) (ground arith) (ground arith)
      | inr running ↦
          moves job_id job
            (assign_all
              (JobChange.status SetupJobStatus.cancelled
                ∷ JobChange.current_step (step_label SetupJobStatus.cancelled)
                ∷ JobChange.finished_at (o.clock s.asked)
                ∷ JobChange.updated_at (o.clock s.asked)
                ∷ JobChange.secret_encrypted none
                ∷ [])
              job)
            found refl (abort running) (ground arith) (ground arith) (ground arith)
    ]
  ]

  pub cancel-Effect :
      (actor : User) (job_id : ℕ) (s : Store) → Effect o s (cancel o actor job_id s).1
  unfolding cancel
  cancel-Effect actor job_id s = elim (Option-cases (lookup job_id s.setup_jobs)) [
    | inl absent ↦ quiet (ground arith) (ground arith) (ground arith)
    | inr (job, found) ↦ subst (Effect o s) (ground arith) (cancel_known-Effect actor job_id s)
  ]

  pub finish_success-Effect :
      (job_id node_id : ℕ) (s : Store) → Effect o s (finish_success o job_id node_id s).1
  unfolding finish_success transition_setup_job transition_found save_setup_job assign_all log
      forget_ephemeral_ssh_secret
  finish_success-Effect job_id node_id s = elim (Option-cases (lookup job_id s.setup_jobs)) [
    | inl absent ↦ forgets job_id (ground arith) (ground arith) (ground arith)
    | inr (job, found) ↦ elim (Bool-cases (job.status == SetupJobStatus.verifying)) [
      | inr elsewhere ↦ forgets job_id (ground arith) (ground arith) (ground arith)
      | inl verified ↦
          moves job_id job
            (assign_all
              (JobChange.status SetupJobStatus.success
                ∷ JobChange.current_step (step_label SetupJobStatus.success)
                ∷ JobChange.server_node_id node_id
                ∷ JobChange.finished_at (o.clock s.asked)
                ∷ JobChange.updated_at (o.clock s.asked)
                ∷ JobChange.secret_encrypted none
                ∷ JobChange.result_payload (field "server_node_id" (num node_id) end)
                ∷ [])
              job)
            found refl (from_status job succeed verified) (ground arith) (ground arith)
            (ground arith)
    ]
  ]

  -- A step from one status to another by `set_step`, where the move is allowed.
  pub set_step-Effect :
      (job_id : ℕ) (a b : SetupJobStatus) (message : String) (s : Store)
      → Moves a b
      → is_terminal b ≡ false
      → Effect o s (set_step o job_id (a ∷ []) b message s).1
  unfolding set_step transition_setup_job transition_found save_setup_job assign_all
  set_step-Effect job_id a b message s move going =
      elim (Option-cases (lookup job_id s.setup_jobs)) [
        | inl absent ↦ quiet (ground arith) (ground arith) (ground arith)
        | inr (job, found) ↦ elim (Bool-cases (job.status == a)) [
          | inr elsewhere ↦ quiet (ground arith) (ground arith) (ground arith)
          | inl there ↦
              moves job_id job
                (assign_all
                  (JobChange.status b
                    ∷ JobChange.current_step (step_label b)
                    ∷ JobChange.updated_at (o.clock s.asked)
                    ∷ [])
                  job)
                found refl (from_status job move there) (ground arith) (ground arith) (ground arith)
        ]
      ]

  pub claim_next-Effect : (s : Store) → IsValid o s → Effect o s (claim_next o s).1
  unfolding claim_next claim_next_setup_job save_setup_job
  claim_next-Effect s valid =
      elim (Option-cases (next_queued_setup_job (record s { asked = suc s.asked }))) [
        | inl empty ↦ quiet (ground arith) (ground arith) (ground arith)
        | inr (job, next) ↦
            let r = next_queued_lem o s valid job (next_queued-asked s job next) in
            moves job.id job
              (claimed (o.clock s.asked) (step_label SetupJobStatus.checking_ssh) job) r.1 refl
              (subst (λ x. Moves x SetupJobStatus.checking_ssh) (sym r.0) claim) (ground arith)
              (ground arith) (ground arith)
      ]
