-- ===== src/Database/Refines/Commutes.antt =====
-- Setup jobs and their rows: the same tests, changes and choice of the next job.
use mathlib.Core.Option
use vpn_controll_app.Base.{
  ℕ, true, ◌||◌, String, Option, none, some, List, [], ◌∷◌, filter, first, All, ◌≡◌, refl, ap, ap₂,
  ◌∙◌, subst, nat_Eq, string_Eq,
}
use vpn_controll_app.Base.Sort.{sorted, sorted-All}
use vpn_controll_app.Base.Filter.{first-All, filter-All}
use vpn_controll_app.Dict.{lookup, values}
use vpn_controll_app.Dict.Distinct.{All-values}
use vpn_controll_app.Domain.Status.{SetupJobStatus, SetupJobStatus_Eq, job_status_value}
use vpn_controll_app.Domain.Entities.{SetupJob}
use vpn_controll_app.Storage.State.{Store}
use vpn_controll_app.Storage.Jobs.{
  JobChange, assign, assign_all, claimed, is_expected, is_queued, next_queued_setup_job,
}
use vpn_controll_app.Database.Enums.{value-eq, job_status_of, job_status_of-job_status_value}
use vpn_controll_app.Database.Rows.Nodes.{SetupJobRow, setup_job_row}
use vpn_controll_app.Database.State.{Tables}
use vpn_controll_app.Database.Tables.{sorted-map, filter-map, first-map}
use vpn_controll_app.Database.Jobs.{
  assign_row, assign_row_all, claim_values, is_expected_row, is_queued_row, candidate,
}
use vpn_controll_app.Database.Mirrors.{lookup-Keyed}
use vpn_controll_app.Database.Refines.{Represents, job_id, row_id}

pub row_id-setup_job_row : (x : SetupJob) → row_id (setup_job_row x) ≡ job_id x
unfolding setup_job_row
row_id-setup_job_row x = refl

pub map-row :
    (o : Option SetupJob) → Option.map row_id (Option.map setup_job_row o) ≡ Option.map job_id o
unfolding setup_job_row
map-row none = refl
map-row (some x) = refl

pub is_queued-setup_job_row : (v : SetupJob) → is_queued_row (setup_job_row v) ≡ is_queued v
unfolding setup_job_row
is_queued-setup_job_row v =
    value-eq job_status_value job_status_of job_status_of-job_status_value v.status
      SetupJobStatus.queued

pub claim_values-setup_job_row :
    (now : ℕ) (step : String) (v : SetupJob)
    → claim_values now step (setup_job_row v) ≡ setup_job_row (claimed now step v)
unfolding setup_job_row
claim_values-setup_job_row now step v = refl

pub candidate-next :
    (db : Tables) (s : Store)
    → Represents db s
    → candidate db ≡ Option.map job_id (next_queued_setup_job s)
unfolding candidate next_queued_setup_job setup_job_row
candidate-next db s h =
    let column : SetupJobRow → ℕ = λ r. r.created_at in
    let oldest : List SetupJobRow → Option ℕ =
      λ rows. Option.map row_id (first (sorted column rows)) in
    ap (λ rows. oldest (filter is_queued_row rows)) h.jobs.rows
    ∙ ap oldest (
        filter-map setup_job_row is_queued is_queued_row is_queued-setup_job_row
          (values s.setup_jobs))
    ∙ ap (λ rows. Option.map row_id (first rows))
        (sorted-map setup_job_row (λ j. j.created_at) column (λ v. refl) _)
    ∙ ap (Option.map row_id) (first-map setup_job_row _)
    ∙ map-row _

-- The job that is next stands under its id, and is queued.
pub next_queued-stored :
    (db : Tables) (s : Store) (v : SetupJob)
    → Represents db s
    → next_queued_setup_job s ≡ some v
    → (is_queued v ≡ true) × (lookup v.id s.setup_jobs ≡ some v)
unfolding next_queued_setup_job
next_queued-stored db s v h e =
    let stored : All (λ j. lookup j.id s.setup_jobs ≡ some j) (values s.setup_jobs) =
      All-values (λ j. lookup j.id s.setup_jobs ≡ some j) s.setup_jobs h.jobs.distinct
        (λ k j q.
          subst (λ z. lookup z s.setup_jobs ≡ some j)
            (lookup-Keyed setup_job_row job_id k j s.setup_jobs h.jobs.keyed q) q) in
    first-All (λ j. (is_queued j ≡ true) × (lookup j.id s.setup_jobs ≡ some j)) _ v
      (sorted-All (λ j. j.created_at) _ _
        (filter-All (λ j. lookup j.id s.setup_jobs ≡ some j) is_queued _ stored))
      e

pub is_expected_row-setup_job_row :
    (expected : List SetupJobStatus) (v : SetupJob)
    → is_expected_row expected (setup_job_row v) ≡ is_expected expected v.status
unfolding setup_job_row
is_expected_row-setup_job_row [] v = refl
is_expected_row-setup_job_row (x ∷ xs) v =
    ap₂ ◌||◌ (value-eq job_status_value job_status_of job_status_of-job_status_value v.status x)
      (is_expected_row-setup_job_row xs v)

pub assign_row-setup_job_row :
    (c : JobChange) (v : SetupJob)
    → (assign_row c (setup_job_row v) ≡ setup_job_row (assign c v)) × ((assign c v).id ≡ v.id)
unfolding assign_row assign setup_job_row
assign_row-setup_job_row (JobChange.status x) v = (refl, refl)
assign_row-setup_job_row (JobChange.current_step x) v = (refl, refl)
assign_row-setup_job_row (JobChange.server_node_id x) v = (refl, refl)
assign_row-setup_job_row (JobChange.finished_at x) v = (refl, refl)
assign_row-setup_job_row (JobChange.updated_at x) v = (refl, refl)
assign_row-setup_job_row (JobChange.error_message x) v = (refl, refl)
assign_row-setup_job_row (JobChange.secret_encrypted x) v = (refl, refl)
assign_row-setup_job_row (JobChange.result_payload x) v = (refl, refl)

pub assign_row_all-setup_job_row :
    (cs : List JobChange) (v : SetupJob)
    → (assign_row_all cs (setup_job_row v) ≡ setup_job_row (assign_all cs v))
      × ((assign_all cs v).id ≡ v.id)
unfolding assign_row_all assign_all
assign_row_all-setup_job_row [] v = (refl, refl)
assign_row_all-setup_job_row (c ∷ cs) v =
    let (head, same) = assign_row-setup_job_row c v in
    let (tail, rest) = assign_row_all-setup_job_row cs (assign c v) in
    (ap (assign_row_all cs) head ∙ tail, rest ∙ same)
