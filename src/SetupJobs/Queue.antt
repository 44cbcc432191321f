-- ===== src/SetupJobs/Queue.antt =====
-- The queue: `claim_next_setup_job` takes the oldest queued job.
use vpn_controll_app.Base.{first, ℕ, ◌≤◌, true, some, List, [], ◌∷◌, ◌≡◌, arith, nat_Eq, All}
use mathlib.Core.Path.{subst, sym}
use mathlib.Core.Option.{some-injective}
use vpn_controll_app.Base.Filter.{first-All, filter-All, filter-All⁻}
use vpn_controll_app.Base.Sort.{sorted-All, All-of_sorted, sorted-IsSorted, IsSorted}
use vpn_controll_app.Dict.{lookup, values}
use vpn_controll_app.Dict.Distinct.{All-values, AllValues-All}
use vpn_controll_app.Domain.Status.{SetupJobStatus, SetupJobStatus_Eq}
use vpn_controll_app.Domain.Entities.{SetupJob}
use vpn_controll_app.Outside.{Outside}
use vpn_controll_app.Storage.State.{Store}
use vpn_controll_app.Storage.Jobs.{next_queued_setup_job, is_queued}
use vpn_controll_app.SetupJobs.Machine.{IsValid}

first-least {ℓ} :
    {A : Type ℓ} (key : A → ℕ) (xs : List A) (x : A)
    → IsSorted key xs
    → first xs ≡ some x
    → All (λ y. key x ≤ key y) xs
first-least key [] x h e = tt
first-least key (y ∷ ys) x h e =
    subst (λ z. All (λ w. key z ≤ key w) (y ∷ ys)) (some-injective y x e) (omega arith, h.0)

module _ (o : Outside) (s : Store) (valid : IsValid o s) where
  pub next_queued_lem :
      (job : SetupJob)
      → next_queued_setup_job s ≡ some job
      → (job.status ≡ SetupJobStatus.queued) × (lookup job.id s.setup_jobs ≡ some job)
  unfolding next_queued_setup_job
  next_queued_lem job e =
      let stored : All (λ j. lookup j.id s.setup_jobs ≡ some j) (values s.setup_jobs) =
        All-values (λ j. lookup j.id s.setup_jobs ≡ some j) s.setup_jobs valid.distinct
          (λ k j q. subst (λ z. lookup z s.setup_jobs ≡ some j) (sym (valid.keyed k j q)) q) in
      let r : (is_queued job ≡ true) × (lookup job.id s.setup_jobs ≡ some job) =
        first-All (λ j. (is_queued j ≡ true) × (lookup j.id s.setup_jobs ≡ some j)) _ job
          (sorted-All (λ j. j.created_at) _ _
            (filter-All (λ j. lookup j.id s.setup_jobs ≡ some j) is_queued _ stored))
          e in
      ((SetupJobStatus_Eq.is_equal_iff job.status SetupJobStatus.queued).0 r.0, r.1)

  no_older :
      (job other : SetupJob) (k : ℕ)
      → next_queued_setup_job s ≡ some job
      → lookup k s.setup_jobs ≡ some other
      → other.status ≡ SetupJobStatus.queued
      → job.created_at ≤ other.created_at
  unfolding next_queued_setup_job
  no_older job other k e found queued =
      AllValues-All (λ j. is_queued j ≡ true → job.created_at ≤ j.created_at) s.setup_jobs
        (filter-All⁻ (λ j. job.created_at ≤ j.created_at) is_queued _
          (All-of_sorted (λ j. j.created_at) _ _
            (first-least (λ j. j.created_at) _ job (sorted-IsSorted _ _) e)))
        k other found ((SetupJobStatus_Eq.is_equal_iff other.status SetupJobStatus.queued).1 queued)

  -- In a well-formed table, the job that is next stands under its id, is queued, and no queued job
  -- is older.
  pub next_queued_oldest :
      (job other : SetupJob) (k : ℕ)
      → next_queued_setup_job s ≡ some job
      → lookup k s.setup_jobs ≡ some other
      → other.status ≡ SetupJobStatus.queued
      → (job.status ≡ SetupJobStatus.queued)
        × (lookup job.id s.setup_jobs ≡ some job)
        × (job.created_at ≤ other.created_at)
  next_queued_oldest job other k e found queued =
      let (waiting, stored) = next_queued_lem job e in
      (waiting, stored, no_older job other k e found queued)
