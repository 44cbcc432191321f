-- ===== src/SetupJobs/Machine.antt =====
-- The life of a setup job as a state machine, and the effects that the service's methods may
-- have on the jobs and on the SSH secrets.
use vpn_controll_app.Base.{ℕ, ◌≤◌, ◌<◌, false, String, none, some, ◌≡◌, nat_Eq, if◌then◌else◌}
use vpn_controll_app.Dict.{Dict, lookup, insert, erase}
use vpn_controll_app.Dict.Laws.{AllValues}
use vpn_controll_app.Dict.Distinct.{Distinct}
use vpn_controll_app.Domain.Status.{SetupJobStatus, is_terminal}
use vpn_controll_app.Domain.Entities.{SetupJob}
use vpn_controll_app.Outside.{Outside}
use vpn_controll_app.Storage.State.{Store}

-- The moves that are allowed: the installation goes forward one step at a time, and any job that
-- is not finished may fail or be cancelled.
pub data Moves : SetupJobStatus → SetupJobStatus → Type 0 where
  claim : Moves SetupJobStatus.queued SetupJobStatus.checking_ssh
  to_agent : Moves SetupJobStatus.checking_ssh SetupJobStatus.installing_agent
  to_vpn : Moves SetupJobStatus.installing_agent SetupJobStatus.installing_vpn
  to_verify : Moves SetupJobStatus.installing_vpn SetupJobStatus.verifying
  skip_vpn : Moves SetupJobStatus.installing_agent SetupJobStatus.verifying
  succeed : Moves SetupJobStatus.verifying SetupJobStatus.success
  fail : {a : SetupJobStatus} → is_terminal a ≡ false → Moves a SetupJobStatus.failed
  abort : {a : SetupJobStatus} → is_terminal a ≡ false → Moves a SetupJobStatus.cancelled

-- What a method may do to the jobs and the secrets.
pub data Effect (o : Outside) (s t : Store) : Type 0 where
  quiet :
      t.setup_jobs ≡ s.setup_jobs
      → t.ephemeral_ssh_secrets ≡ s.ephemeral_ssh_secrets
      → s.asked ≤ t.asked
      → Effect o s t
  forgets :
      (k : ℕ)
      → t.setup_jobs ≡ s.setup_jobs
      → t.ephemeral_ssh_secrets ≡ erase k s.ephemeral_ssh_secrets
      → s.asked ≤ t.asked
      → Effect o s t
  moves :
      (k : ℕ) (job job' : SetupJob)
      → lookup k s.setup_jobs ≡ some job
      → job'.id ≡ job.id
      → Moves job.status job'.status
      → t.setup_jobs ≡ insert job.id job' s.setup_jobs
      → t.ephemeral_ssh_secrets ≡ (
          if is_terminal job'.status
          then erase k s.ephemeral_ssh_secrets
          else s.ephemeral_ssh_secrets)
      → s.asked ≤ t.asked
      → Effect o s t
  creates :
      (n : ℕ) (job : SetupJob) (secret : String)
      → s.asked ≤ n
      → n < t.asked
      → job.id ≡ o.uuid4 n
      → job.status ≡ SetupJobStatus.queued
      → t.setup_jobs ≡ insert (o.uuid4 n) job s.setup_jobs
      → t.ephemeral_ssh_secrets ≡ insert (o.uuid4 n) secret s.ephemeral_ssh_secrets
      → Effect o s t

-- Fresh identifiers: two questions never get the same uuid4.
abbrev pub Injective : Outside → Type 0
Injective o = (m n : ℕ) → o.uuid4 m ≡ o.uuid4 n → m ≡ n

-- A well-formed table of jobs: each under its own id, and no id is used that the outside has yet
-- to give; a secret is held only for a job that is not finished.
pub record JobsValid (o : Outside) (jobs : Dict ℕ SetupJob) (secrets : Dict ℕ String) (asked : ℕ)
    : Type 0 where
  pub distinct : Distinct jobs
  pub keyed : AllValues (λ k j. j.id ≡ k) jobs
  pub unused : (n : ℕ) → asked ≤ n → lookup (o.uuid4 n) jobs ≡ none
  pub live :
      (k : ℕ) (x : String)
      → lookup k secrets ≡ some x
      → (job : SetupJob) × (lookup k jobs ≡ some job) × (is_terminal job.status ≡ false)

abbrev pub IsValid : Outside → Store → Type 0
IsValid o s = JobsValid o s.setup_jobs s.ephemeral_ssh_secrets s.asked
