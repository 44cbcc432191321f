-- ===== src/Worker/Outcome.antt =====
-- How a step of an installation leaves the job: as the step expects it, or finished.
use vpn_controll_app.Base.{
  ℕ, ◌≡◌, ◌⊎◌, ◌∙◌, ap, refl, sym, subst, arith, inl, inr, true, String, Option, none, some, [],
  ◌∷◌, All, ◌==◌, nat_Eq, Bool-cases, if◌then◌else◌,
}
use vpn_controll_app.Dict.{lookup}
use vpn_controll_app.Domain.Status.{SetupJobStatus, SetupJobStatus_Eq, is_terminal}
use vpn_controll_app.Domain.Entities.{SetupJob}
use vpn_controll_app.Outside.{Outside}
use vpn_controll_app.Settings.{Settings}
use vpn_controll_app.Storage.State.{Store}
use vpn_controll_app.Storage.Action.{Action, Result, ok, err, pure, bind_ok, ◌>>=◌}
use vpn_controll_app.SetupJobs
use vpn_controll_app.SetupJobs.{
  set_step, note_step, add_event, finish_success, note_success, finish_failed, note_failure,
  forget_ephemeral_ssh_secret,
}
use vpn_controll_app.Worker.{Meanwhile, run_cancellable, if_completed}
use vpn_controll_app.Worker.Runner.{SetupRunner}

-- A job stands in the table under its id, with a property of its status.
pub record Holds (k : ℕ) (P : SetupJobStatus → Type 0) (s : Store) : Type 0 where
  pub job : SetupJob
  pub found : lookup k s.setup_jobs ≡ some job
  pub same : job.id ≡ k
  pub holds : P job.status

-- The job has the status, or is finished.
abbrev pub At : ℕ → SetupJobStatus → Store → Type 0
At k x = Holds k (λ y. (y ≡ x) ⊎ (is_terminal y ≡ true))

abbrev pub IsFinished : ℕ → Store → Type 0
IsFinished k = Holds k (λ y. is_terminal y ≡ true)

abbrev pub IsThere : ℕ → Store → Type 0
IsThere k = Holds k (λ y. Unit {0})

pub Holds-map :
    {P Q : SetupJobStatus → Type 0} (k : ℕ) (s t : Store)
    → t.setup_jobs ≡ s.setup_jobs
    → ((x : SetupJobStatus) → P x → Q x)
    → Holds k P s
    → Holds k Q t
Holds-map k s t jobs f h = record {
  job = h.job;
  found = ap (lookup k) jobs ∙ h.found;
  same = h.same;
  holds = f h.job.status h.holds;
}

-- How a call leaves the job: finished, or failed with the job still there.
abbrev pub IsFine : ℕ → Result (Unit {0}) × Store → Type 0
IsFine k (ok _, t) = IsFinished k t
IsFine k (err e, t) = IsThere k t

-- How a step leaves the job: with a value and a property, without one and finished, or failed.
abbrev pub Leaves : {A : Type 0} → ℕ → (A → Store → Type 0) → Result (Option A) × Store → Type 0
Leaves k P (ok (some a), t) = P a t
Leaves k P (ok none, t) = IsFinished k t
Leaves k P (err e, t) = IsThere k t

-- What another task does: it leaves the job as it is, or ends it.
abbrev pub IsHarmless : ℕ → (Store → Store) → Type 0
IsHarmless k f = (x : SetupJobStatus) (s : Store) → At k x s → At k x (f s)

-- A call that does not write jobs.
abbrev pub IsQuiet : {A : Type 0} → Action A → Type 0
IsQuiet m = (s : Store) → (m s).1.setup_jobs ≡ s.setup_jobs

pub bind-IsQuiet :
    {A B : Type 0} (m : Action A) (f : A → Action B)
    → IsQuiet m
    → ((a : A) → IsQuiet (f a))
    → IsQuiet (m >>= f)
bind-IsQuiet {A} {B} m f quiet next s = go (m s) (quiet s)
  where
    go :
        (q : Result A × Store)
        → q.1.setup_jobs ≡ s.setup_jobs
        → (elim q.0 as (λ _. Result B × Store) [
          | ok a ↦ f a q.1
          | err e ↦ (err e, q.1)
        ]).1.setup_jobs
          ≡ s.setup_jobs
    go (ok a, t) h = next a t ∙ h
    go (err e, t) h = h

module _ (o : Outside) (settings : Settings) (runner : SetupRunner)
    (format : String → String → String) where
  -- One step, then what follows it if it was completed.
  pub completed-IsFine :
      {A : Type 0} (k : ℕ) (P : A → Store → Type 0) (next : A → Action (Unit {0}))
      (m : Action (Option A)) (s : Store)
      → Leaves k P (m s)
      → ((a : A) (t : Store) → P a t → IsFine k (next a t))
      → IsFine k ((m >>= if_completed o settings runner format next) s)
  completed-IsFine {A} k P next m s h then_fine = go (m s) h
    where
      go :
          (q : Result (Option A) × Store)
          → Leaves k P q
          → IsFine k (elim q.0 as (λ _. Result (Unit {0}) × Store) [
            | ok a ↦ if_completed o settings runner format next a q.1
            | err e ↦ (err e, q.1)
          ])
      go (ok (some a), t) h = then_fine a t h
      go (ok none, t) h = h
      go (err e, t) h = h

  pub get_job :
      (k : ℕ) (s : Store) {job : SetupJob}
      → lookup k s.setup_jobs ≡ some job
      → SetupJobs.get o k s ≡ (ok job, s)
  unfolding SetupJobs.get
  get_job k s found = ground (arith, found)

  -- An operation that does not write jobs, under whatever harmless tasks run meanwhile.
  pub run_cancellable-Leaves :
      {A : Type 0} (k : ℕ) (x : SetupJobStatus) (meanwhile : Meanwhile) (operation : Action A)
      (s : Store)
      → All (IsHarmless k) meanwhile
      → IsQuiet operation
      → At k x s
      → Leaves k
          (λ _ t. At k x t)
          (run_cancellable o settings runner format k meanwhile operation s)
  unfolding run_cancellable
  run_cancellable-Leaves {A} k x [] operation s harmless quiet at =
      go (operation s) (Holds-map k s (operation s).1 (quiet s) (λ y h. h) at)
    where
      go :
          (q : Result A × Store)
          → At k x q.1
          → Leaves k
              (λ _ t. At k x t)
              (elim q.0 as (λ _. Result (Option A) × Store) [
                | ok a ↦ (ok (some a), q.1)
                | err e ↦ (err e, q.1)
              ])
      go (ok a, t) h = h
      go (err e, t) h = Holds-map k t t refl (λ y h. tt) h
  run_cancellable-Leaves {A} k x (others ∷ rest) operation s harmless quiet at =
      let later = harmless.0 x s at in
      let step : Action (Option A) =
        λ t. run_cancellable o settings runner format k rest operation t in
      subst (Leaves k (λ _ t. At k x t))
        (sym (
          bind_ok (SetupJobs.get o k)
            (λ job. if job.status == SetupJobStatus.cancelled then pure none else step) (others s)
            (get_job k _ later.found)))
        (elim (Bool-cases (later.job.status == SetupJobStatus.cancelled)) [
          | inl cancelled ↦ rw cancelled (record {
            job = later.job;
            found = later.found;
            same = later.same;
            holds =
                ground
                  (arith, SetupJobStatus_Eq.is_equal_iff later.job.status SetupJobStatus.cancelled);
          })
          | inr going ↦
              rw going (run_cancellable-Leaves k x rest operation (others s) harmless.1 quiet later)
        ])
