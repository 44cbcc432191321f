-- ===== src/SetupJobs/Steps.antt =====
-- The calls by which the worker moves a job (backend/app/services/setup_job_service.py).
use vpn_controll_app.Base.{ℕ, String, Option, none, some, List, [], ◌∷◌, nat_Eq}
use vpn_controll_app.Domain.Status.{SetupJobStatus, EventLevel, SetupJobStatus_Eq, job_status_value}
use vpn_controll_app.Domain.Json.{num, str, end, field}
use vpn_controll_app.Domain.Entities.{SetupJob}
use vpn_controll_app.Outside.{Outside}
use vpn_controll_app.Audit.{log, no_client}
use vpn_controll_app.Storage.Action.{Action, ok, pure, ask, modify, ◌>>=◌, ◌>>◌}
use vpn_controll_app.Storage.Jobs.{claim_next_setup_job, JobChange}
use vpn_controll_app.SetupJobs.Records.{
  step_label, non_terminal_statuses, transition, forget_ephemeral_ssh_secret, add_event,
}

module _ (o : Outside) where
  -- `if job is not None: self.add_event(job, …)`, and the job.
  unfoldable pub note_step :
      EventLevel → String → String → Option SetupJob → Action (Option SetupJob)
  unfolding add_event
  note_step level step message none = pure none
  note_step level step message (some job) = add_event o job.id level step message >> pure (some job)

  unfoldable pub claim_next : Action (Option SetupJob)
  unfolding note_step
  claim_next = do
    now ← ask o.clock
    job ← (λ s.
        let (r, t) = claim_next_setup_job now (step_label SetupJobStatus.checking_ssh) s in
        (ok r, t))
    note_step EventLevel.info (job_status_value SetupJobStatus.checking_ssh)
        "Подготовка SSH preflight" job

  unfoldable pub set_step :
      ℕ → List SetupJobStatus → SetupJobStatus → String → Action (Option SetupJob)
  unfolding note_step
  set_step job_id expected status message = do
    now ← ask o.clock
    job ← transition job_id expected (
        JobChange.status status
        ∷ JobChange.current_step (step_label status)
        ∷ JobChange.updated_at now
        ∷ [])
    note_step EventLevel.info (job_status_value status) message job

  unfoldable pub note_success : ℕ → Option SetupJob → Action (Option SetupJob)
  unfolding add_event
  note_success server_node_id none = pure none
  note_success server_node_id (some job) = do
    add_event o job.id EventLevel.info "success" "Узел установлен и подключён"
    log o "setup_job_succeeded" none (some "setup_job") (some job.id)
        (field "server_node_id" (num server_node_id) end) no_client
    pure (some job)

  unfoldable pub finish_success : ℕ → ℕ → Action (Option SetupJob)
  unfolding note_success
  finish_success job_id server_node_id = do
    now ← ask o.clock
    job ← transition job_id (SetupJobStatus.verifying ∷ []) (
        JobChange.status SetupJobStatus.success
        ∷ JobChange.current_step (step_label SetupJobStatus.success)
        ∷ JobChange.server_node_id server_node_id
        ∷ JobChange.finished_at now
        ∷ JobChange.updated_at now
        ∷ JobChange.secret_encrypted none
        ∷ JobChange.result_payload (field "server_node_id" (num server_node_id) end)
        ∷ [])
    modify (forget_ephemeral_ssh_secret job_id)
    note_success server_node_id job

  unfoldable pub note_failure : String → Option SetupJob → Action (Option SetupJob)
  unfolding add_event
  note_failure message none = pure none
  note_failure message (some job) = do
    add_event o job.id EventLevel.error "failed" message
    log o "setup_job_failed" none (some "setup_job") (some job.id) (field "error" (str message) end)
        no_client
    pure (some job)

  unfoldable pub finish_failed : ℕ → String → Action (Option SetupJob)
  unfolding note_failure
  finish_failed job_id message = do
    now ← ask o.clock
    job ← transition job_id non_terminal_statuses (
        JobChange.status SetupJobStatus.failed
        ∷ JobChange.current_step (step_label SetupJobStatus.failed)
        ∷ JobChange.error_message message
        ∷ JobChange.finished_at now
        ∷ JobChange.updated_at now
        ∷ JobChange.secret_encrypted none
        ∷ [])
    modify (forget_ephemeral_ssh_secret job_id)
    note_failure message job
