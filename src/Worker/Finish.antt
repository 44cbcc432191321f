-- ===== src/Worker/Finish.antt =====
-- A round of the worker, whatever runs meanwhile, leaves the job that it claimed finished.
use vpn_controll_app.Base.{
  Option, none, some, ℕ, suc, ◌≡◌, ◌∙◌, refl, sym, subst, inl, inr, false, ◌||◌, String, none, [],
  ◌∷◌, All, ◌==◌, nat_Eq, Bool-cases,
}
use vpn_controll_app.Domain.Status.{
  SetupJobStatus, ServerStatus, ServerStatus_Eq, EventLevel, SetupJobStatus_Eq, is_terminal,
  job_status_value,
}
use vpn_controll_app.Domain.Entities.{SetupJob, ServerNode}
use vpn_controll_app.Outside.{Outside}
use vpn_controll_app.Settings.{Settings}
use vpn_controll_app.Servers
use vpn_controll_app.Storage.State.{Store}
use vpn_controll_app.Storage.Action.{Action, Result, ok, err, skip, ◌>>=◌, ◌>>◌}
use vpn_controll_app.Storage.Tables.{save_server_node}
use vpn_controll_app.Storage.Jobs.{add_setup_event}
use vpn_controll_app.SetupJobs.{set_step, add_event, finish_success}
use vpn_controll_app.Worker.{
  Meanwhile, if_completed, if_bound, run_cancellable, finish_checked, verify_node, install_vpn,
}
use vpn_controll_app.Worker.Runner.{AgentCredentials, SetupRunner}
use vpn_controll_app.Worker.Outcome.{
  Leaves, Holds-map, At, IsFinished, IsThere, IsFine, IsHarmless, IsQuiet, completed-IsFine,
  run_cancellable-Leaves,
}
use vpn_controll_app.Worker.Transitions.{set_step-Leaves, finish_success-Leaves}
use vpn_controll_app.Worker.Quiet.{health_check-IsQuiet, activate-IsQuiet}

-- A runner whose operations do not write jobs.
pub record IsQuietRunner (runner : SetupRunner) : Type 0 where
  pub check_ssh :
      (job : SetupJob) (c : AgentCredentials) (x : String) → IsQuiet (runner.check_ssh job c x)
  pub install_agent :
      (job : SetupJob) (c : AgentCredentials) (x : String) → IsQuiet (runner.install_agent job c x)
  pub install_vpn :
      (job : SetupJob) (c : AgentCredentials) (x : String) → IsQuiet (runner.install_vpn job c x)

pub finished : (k : ℕ) (s t : Store) → t.setup_jobs ≡ s.setup_jobs → IsFinished k s → IsFinished k t
finished k s t jobs h = Holds-map k s t jobs (λ y p. p) h

pub there : {x : SetupJobStatus} (k : ℕ) (s : Store) → At k x s → IsThere k s
there k s h = Holds-map k s s refl (λ y p. tt) h

pub moved :
    {x : SetupJobStatus} (k : ℕ) (s t : Store) → t.setup_jobs ≡ s.setup_jobs → At k x s → At k x t
moved k s t jobs h = Holds-map k s t jobs (λ y p. p) h

module _ (o : Outside) (settings : Settings) (runner : SetupRunner)
    (format : String → String → String) (calm : IsQuietRunner runner) where
  -- A call that does not write jobs, after the job is finished.
  pub quiet-IsFine :
      {A : Type 0} (k : ℕ) (m : Action A) (s : Store)
      → IsQuiet m
      → IsFinished k s
      → IsFine k ((m >> skip) s)
  quiet-IsFine {A} k m s quiet h = go (m s) (finished k s (m s).1 (quiet s) h)
    where
      go :
          (q : Result A × Store)
          → IsFinished k q.1
          → IsFine k (elim q.0 as (λ _. Result (Unit {0}) × Store) [
            | ok a ↦ (ok tt, q.1)
            | err e ↦ (err e, q.1)
          ])
      go (ok a, t) h = h
      go (err e, t) h = Holds-map k t t refl (λ y p. tt) h

  finish_checked-IsFine :
      (job : SetupJob) (node checked : ServerNode) (s : Store)
      → At job.id SetupJobStatus.verifying s
      → IsFine job.id (finish_checked o settings runner format job node checked s)
  unfolding finish_checked
  finish_checked-IsFine job node checked s at =
      elim (Bool-cases
        (checked.status == ServerStatus.online || checked.status == ServerStatus.warning)) [
          | inl good ↦ rw good (
              completed-IsFine o settings runner format job.id (λ next t. IsFinished job.id t)
                (λ _. Servers.activate_after_setup o node.id job.available_for_new_devices >> skip)
                (finish_success o job.id node.id) s (finish_success-Leaves o job.id node.id s at)
                (λ a t h.
                  quiet-IsFine job.id
                    (Servers.activate_after_setup o node.id job.available_for_new_devices) t
                    (activate-IsQuiet o node.id job.available_for_new_devices) h))
          | inr bad ↦ rw bad (there job.id s at)
        ]

  verify_node-IsFine :
      (job : SetupJob) (c : AgentCredentials) (meanwhile : Meanwhile) (s : Store)
      → All (IsHarmless job.id) meanwhile
      → At job.id SetupJobStatus.verifying s
      → IsFine job.id (verify_node o settings runner format job c meanwhile s)
  unfolding verify_node Servers.create_from_setup save_server_node
  verify_node-IsFine job c meanwhile s harmless at =
      completed-IsFine o settings runner format job.id (λ _ t. At job.id SetupJobStatus.verifying t)
        (λ checked. finish_checked o settings runner format job _ checked)
        (run_cancellable o settings runner format job.id meanwhile
          (Servers.health_check o (o.uuid4 (suc s.asked)) none))
        _
        (run_cancellable-Leaves o settings runner format job.id SetupJobStatus.verifying meanwhile _
          _ harmless (health_check-IsQuiet o _) (moved job.id s _ refl at))
        (λ checked t h. finish_checked-IsFine job _ checked t h)

  pub set_step-IsFine :
      (k : ℕ) (x y : SetupJobStatus) (message : String) (next : SetupJob → Action (Unit {0}))
      (s : Store)
      → is_terminal x ≡ false
      → At k x s
      → ((job : SetupJob) (t : Store) → job.id ≡ k → At job.id y t → IsFine job.id (next job t))
      → IsFine k
          ((set_step o k (x ∷ []) y message >>= if_completed o settings runner format next) s)
  set_step-IsFine k x y message next s going at then_fine =
      completed-IsFine o settings runner format k (λ job t. At job.id y t × (job.id ≡ k)) next
        (set_step o k (x ∷ []) y message) s (set_step-Leaves o k x y message s going at)
        (λ job t h. subst (λ i. IsFine i (next job t)) h.1 (then_fine job t h.1 h.0))

  -- The same, where a step that was not made is an error.
  pub bound_step-IsFine :
      (k : ℕ) (x y : SetupJobStatus) (message : String) (next : SetupJob → Action (Unit {0}))
      (s : Store)
      → is_terminal x ≡ false
      → At k x s
      → ((job : SetupJob) (t : Store) → job.id ≡ k → At job.id y t → IsFine job.id (next job t))
      → IsFine k (
          (set_step o k (x ∷ []) y message
              >>= if_bound o settings runner format
              >>= if_completed o settings runner format next)
            s)
  bound_step-IsFine k x y message next s going at then_fine =
      completed-IsFine o settings runner format k (λ job t. At job.id y t × (job.id ≡ k)) next
        (set_step o k (x ∷ []) y message >>= if_bound o settings runner format) s
        (go (set_step o k (x ∷ []) y message s) (set_step-Leaves o k x y message s going at))
        (λ job t h. subst (λ i. IsFine i (next job t)) h.1 (then_fine job t h.1 h.0))
    where
      go :
          (q : Result (Option SetupJob) × Store)
          → Leaves k (λ job t. At job.id y t × (job.id ≡ k)) q
          → Leaves k
              (λ job t. At job.id y t × (job.id ≡ k))
              (elim q.0 as (λ _. Result (Option SetupJob) × Store) [
                | ok a ↦ if_bound o settings runner format a q.1
                | err e ↦ (err e, q.1)
              ])
      go (ok (some job), t) h = h
      go (ok none, t) h = Holds-map k t t refl (λ y p. tt) h
      go (err e, t) h = h

  -- Harmless for a job is harmless for the same job.
  pub harmless_for : {i k : ℕ} (l : Meanwhile) → i ≡ k → All (IsHarmless k) l → All (IsHarmless i) l
  harmless_for l same h = subst (λ j. All (IsHarmless j) l) (sym same) h

  -- The state after an event of a job.
  abbrev pub note : SetupJob → SetupJobStatus → String → Store → Store
  note job status message s =
      (add_event o job.id EventLevel.info (job_status_value status) message s).1

  pub install_vpn-IsFine :
      (job : SetupJob) (c : AgentCredentials) (x : String) (meanwhile later : Meanwhile) (s : Store)
      → All (IsHarmless job.id) meanwhile
      → All (IsHarmless job.id) later
      → At job.id SetupJobStatus.installing_agent s
      → IsFine job.id (install_vpn o settings runner format job c x meanwhile later s)
  unfolding install_vpn add_event add_setup_event
  install_vpn-IsFine job c x meanwhile later s harmless harmless_later at =
      elim (Bool-cases job.install_awg) [
        | inl with_vpn ↦ rw with_vpn (
            set_step-IsFine job.id SetupJobStatus.installing_agent SetupJobStatus.installing_vpn _ _
              s refl at
              (λ next t same h.
                let noted = note next SetupJobStatus.installing_agent "Агент установлен" t in
                completed-IsFine o settings runner format next.id
                  (λ _ u. At next.id SetupJobStatus.installing_vpn u) _
                  (run_cancellable o settings runner format next.id meanwhile
                    (runner.install_vpn next c x))
                  noted
                  (run_cancellable-Leaves o settings runner format next.id
                    SetupJobStatus.installing_vpn meanwhile (runner.install_vpn next c x) noted
                    (harmless_for meanwhile same harmless) (calm.install_vpn next c x)
                    (moved next.id t noted refl h))
                  (λ _ u g.
                    set_step-IsFine next.id SetupJobStatus.installing_vpn SetupJobStatus.verifying _
                      _ u refl g
                      (λ last v again at_last.
                        let last_noted =
                          note last SetupJobStatus.installing_vpn "VPN-окружение проверено" v in
                        verify_node-IsFine last c later last_noted
                          (harmless_for later (again ∙ same) harmless_later)
                          (moved last.id v last_noted refl at_last)))))
        | inr without ↦ rw without (
            set_step-IsFine job.id SetupJobStatus.installing_agent SetupJobStatus.verifying _ _ s
              refl at
              (λ next t same h.
                let noted =
                  note next SetupJobStatus.installing_vpn
                    "Проверка VPN-окружения пропущена по настройке"
                    (note next SetupJobStatus.installing_agent "Агент установлен" t) in
                verify_node-IsFine next c later noted (harmless_for later same harmless_later)
                  (moved next.id t noted refl h)))
      ]
