-- ===== src/Worker/Transitions.antt =====
-- The transitions that the worker asks for, from what it knows of the job.
use vpn_controll_app.Base.{
  ℕ, suc, ◌≡◌, ◌∙◌, ap, refl, sym, subst, arith, inl, inr, Bool, true, false, String, Option, none,
  some, List, [], ◌∷◌, nat_Eq, Bool-cases, if◌then◌else◌,
}
use vpn_controll_app.Dict.{Dict, lookup, insert}
use vpn_controll_app.Dict.Laws.{lookup-insert_self}
use vpn_controll_app.Domain.Status.{
  SetupJobStatus, EventLevel, SetupJobStatus_Eq, is_terminal, job_status_value,
}
use vpn_controll_app.Domain.Json.{field, num, end}
use vpn_controll_app.Domain.Entities.{SetupJob}
use vpn_controll_app.Outside.{Outside}
use vpn_controll_app.Audit.{log}
use vpn_controll_app.Storage.State.{Store}
use vpn_controll_app.Storage.Action.{Action, Result, ok, bind_ok, modify, ◌>>◌}
use vpn_controll_app.Storage.Jobs.{
  JobChange, transition_setup_job, transition_found, is_expected, assign_all, save_setup_job,
  add_setup_event,
}
use vpn_controll_app.SetupJobs.{
  step_label, non_terminal_statuses, transition, set_step, note_step, add_event, finish_success,
  note_success, finish_failed, note_failure, forget_ephemeral_ssh_secret,
}
use vpn_controll_app.Worker.Outcome.{At, IsFinished, IsThere, Leaves}

-- A transition of a job that is found: made where its status is expected, else none.
transition_lem :
    (k : ℕ) (expected : List SetupJobStatus) (changes : List JobChange) (s : Store) (job : SetupJob)
    (b : Bool)
    → lookup k s.setup_jobs ≡ some job
    → is_expected expected job.status ≡ b
    → transition_setup_job k expected changes s ≡ (
        if b
        then (some (assign_all changes job), save_setup_job (assign_all changes job) s)
        else (none, s))
unfolding transition_setup_job transition_found
transition_lem k expected changes s job b found test =
    ap
      (λ z. elim z as (λ _. Option SetupJob × Store) [
        | none ↦ (none, s)
        | some j ↦ transition_found j expected changes s
      ])
      found
    ∙ ap
        (λ (c : Bool).
          if c
          then (some (assign_all changes job), save_setup_job (assign_all changes job) s)
          else (none, s))
        test

-- As a call of the storage.
abbrev call : Option SetupJob × Store → Result (Option SetupJob) × Store
call (r, t) = (ok r, t)

transition_made :
    (k : ℕ) (expected : List SetupJobStatus) (changes : List JobChange) (s : Store) (job : SetupJob)
    → lookup k s.setup_jobs ≡ some job
    → is_expected expected job.status ≡ true
    → transition k expected changes s
      ≡ (ok (some (assign_all changes job)), save_setup_job (assign_all changes job) s)
transition_made k expected changes s job found here =
    ap call (transition_lem k expected changes s job true found here)

transition_refused :
    (k : ℕ) (expected : List SetupJobStatus) (changes : List JobChange) (s : Store) (job : SetupJob)
    → lookup k s.setup_jobs ≡ some job
    → is_expected expected job.status ≡ false
    → transition k expected changes s ≡ (ok none, s)
transition_refused k expected changes s job found elsewhere =
    ap call (transition_lem k expected changes s job false found elsewhere)

-- A job saved under its id is found there.
saved :
    (i k : ℕ) (job : SetupJob) (d : Dict ℕ SetupJob) → i ≡ k → lookup k (insert i job d) ≡ some job
saved i k job d same =
    subst (λ j. lookup j (insert i job d) ≡ some job) same (lookup-insert_self i job d)

-- A call that returned, and left the job finished.
abbrev pub HasEnded : ℕ → Result (Option SetupJob) × Store → Type 0
HasEnded k q = ((r : Option SetupJob) × (q.0 ≡ ok r)) × IsFinished k q.1

module _ (o : Outside) where
  -- A later question does not matter.
  abbrev asked : Store → Store
  asked s = record s { asked = suc s.asked }

  -- `set_step` from the status that the job is expected to have.
  pub set_step-Leaves :
      (k : ℕ) (x y : SetupJobStatus) (message : String) (s : Store)
      → is_terminal x ≡ false
      → At k x s
      → Leaves k (λ next t. At next.id y t × (next.id ≡ k)) (set_step o k (x ∷ []) y message s)
  unfolding set_step note_step add_event add_setup_event save_setup_job assign_all
  set_step-Leaves k x y message s going at =
      let changes : List JobChange =
        JobChange.status y
        ∷ JobChange.current_step (step_label y)
        ∷ JobChange.updated_at (o.clock s.asked)
        ∷ [] in
      let note : Option SetupJob → Action (Option SetupJob) =
        note_step o EventLevel.info (job_status_value y) message in
      elim at.holds [
        | inl here ↦
            subst (Leaves k (λ next t. At next.id y t × (next.id ≡ k)))
              (sym (
                bind_ok (transition k (x ∷ []) changes) note (asked s) (
                  transition_made k (x ∷ []) changes (asked s) at.job at.found
                    (ground (arith, SetupJobStatus_Eq.is_equal_iff at.job.status x)))))
              (
                record {
                  job = assign_all changes at.job;
                  found = lookup-insert_self at.job.id _ s.setup_jobs;
                  same = refl;
                  holds = inl refl;
                },
                at.same,
              )
        | inr over ↦
            subst (Leaves k (λ next t. At next.id y t × (next.id ≡ k)))
              (sym (
                bind_ok (transition k (x ∷ []) changes) note (asked s) (
                  transition_refused k (x ∷ []) changes (asked s) at.job at.found
                    (ground (arith, SetupJobStatus_Eq.is_equal_iff at.job.status x)))))
              (record { job = at.job; found = at.found; same = at.same; holds = over })
      ]

  -- `finish_success` of a job under verification: the job is finished either way.
  pub finish_success-Leaves :
      (k node_id : ℕ) (s : Store)
      → At k SetupJobStatus.verifying s
      → Leaves k (λ next t. IsFinished k t) (finish_success o k node_id s)
  unfolding finish_success note_success add_event add_setup_event save_setup_job assign_all log
      forget_ephemeral_ssh_secret
  finish_success-Leaves k node_id s at =
      let changes : List JobChange =
        JobChange.status SetupJobStatus.success
        ∷ JobChange.current_step (step_label SetupJobStatus.success)
        ∷ JobChange.server_node_id node_id
        ∷ JobChange.finished_at (o.clock s.asked)
        ∷ JobChange.updated_at (o.clock s.asked)
        ∷ JobChange.secret_encrypted none
        ∷ JobChange.result_payload (field "server_node_id" (num node_id) end)
        ∷ [] in
      let note : Option SetupJob → Action (Option SetupJob) =
        λ job. modify (forget_ephemeral_ssh_secret k) >> note_success o node_id job in
      elim at.holds [
        | inl here ↦
            subst (Leaves k (λ next t. IsFinished k t))
              (sym (
                bind_ok (transition k (SetupJobStatus.verifying ∷ []) changes) note (asked s) (
                  transition_made k (SetupJobStatus.verifying ∷ []) changes (asked s) at.job
                    at.found (ground (arith, here)))))
              (record {
                job = assign_all changes at.job;
                found = saved at.job.id k _ s.setup_jobs at.same;
                same = at.same;
                holds = refl;
              })
        | inr over ↦
            subst (Leaves k (λ next t. IsFinished k t))
              (sym (
                bind_ok (transition k (SetupJobStatus.verifying ∷ []) changes) note (asked s) (
                  transition_refused k (SetupJobStatus.verifying ∷ []) changes (asked s) at.job
                    at.found (ground (arith, over)))))
              (record { job = at.job; found = at.found; same = at.same; holds = over })
      ]

  -- `finish_failed` returns, and finishes any job that is there.
  pub finish_failed-HasEnded :
      (k : ℕ) (message : String) (s : Store)
      → IsThere k s
      → HasEnded k (finish_failed o k message s)
  unfolding finish_failed note_failure add_event add_setup_event save_setup_job assign_all log
      forget_ephemeral_ssh_secret
  finish_failed-HasEnded k message s at =
      let changes : List JobChange =
        JobChange.status SetupJobStatus.failed
        ∷ JobChange.current_step (step_label SetupJobStatus.failed)
        ∷ JobChange.error_message message
        ∷ JobChange.finished_at (o.clock s.asked)
        ∷ JobChange.updated_at (o.clock s.asked)
        ∷ JobChange.secret_encrypted none
        ∷ [] in
      let note : Option SetupJob → Action (Option SetupJob) =
        λ job. modify (forget_ephemeral_ssh_secret k) >> note_failure o message job in
      elim (Bool-cases (is_terminal at.job.status)) [
        | inr going ↦
            subst (HasEnded k)
              (sym (
                bind_ok (transition k non_terminal_statuses changes) note (asked s) (
                  transition_made k non_terminal_statuses changes (asked s) at.job at.found
                    (ground (arith, going)))))
              (
                (_, refl),
                record {
                  job = assign_all changes at.job;
                  found = saved at.job.id k _ s.setup_jobs at.same;
                  same = at.same;
                  holds = refl;
                },
              )
        | inl over ↦
            subst (HasEnded k)
              (sym (
                bind_ok (transition k non_terminal_statuses changes) note (asked s) (
                  transition_refused k non_terminal_statuses changes (asked s) at.job at.found
                    (ground (arith, over)))))
              ((_, refl), record { job = at.job; found = at.found; same = at.same; holds = over })
      ]
