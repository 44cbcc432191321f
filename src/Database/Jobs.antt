-- ===== src/Database/Jobs.antt =====
-- The setup jobs of `DatabaseStorage` (backend/app/storage/db.py): claiming a job and a guarded
-- transition are one UPDATE each.
use mathlib.Core.Option
use vpn_controll_app.Base.{
  ℕ, Bool, ◌&&◌, String, Option, none, some, List, [], ◌∷◌, filter, first, any, find, ◌==◌, nat_Eq,
  string_Eq,
}
use vpn_controll_app.Base.Sort.{sorted, sorted_reverse}
use vpn_controll_app.Domain.Status.{SetupJobStatus, job_status_value}
use vpn_controll_app.Domain.Entities.{SetupJob, SetupJobEvent}
use vpn_controll_app.Storage.Jobs.{JobChange}
use vpn_controll_app.Database.Rows.{setup_event_row, setup_event_of}
use vpn_controll_app.Database.Rows.Nodes.{SetupJobRow, setup_job_row, setup_job_of}
use vpn_controll_app.Database.Sql.{merge, update_where, read_all, read_one}
use vpn_controll_app.Database.State.{Tables}

unfoldable pub save_setup_job : SetupJob → Tables → Tables
save_setup_job job db = record db {
  setup_jobs = merge (λ r. r.id) (setup_job_row job) db.setup_jobs;
}

unfoldable pub get_setup_job : ℕ → Tables → Option (Option SetupJob)
get_setup_job job_id db = read_one setup_job_of (find (λ r. r.id == job_id) db.setup_jobs)

unfoldable pub list_setup_jobs : Tables → Option (List SetupJob)
list_setup_jobs db = read_all setup_job_of (sorted_reverse (λ r. r.created_at) db.setup_jobs)

abbrev pub is_queued_row : SetupJobRow → Bool
is_queued_row r = r.status == job_status_value SetupJobStatus.queued

-- `UPDATE … WHERE id = … AND … RETURNING …`, and `_setup_job(row) if row else None`
unfoldable pub update_job :
    ℕ
    → (SetupJobRow → Bool)
    → (SetupJobRow → SetupJobRow)
    → Tables
    → Option (Option SetupJob) × Tables
update_job job_id test change db =
    let wanted = λ (r : SetupJobRow). r.id == job_id && test r in
    (
      read_one setup_job_of (Option.map change (find wanted db.setup_jobs)),
      record db { setup_jobs = update_where wanted change db.setup_jobs },
    )

abbrev pub claim_values : ℕ → String → SetupJobRow → SetupJobRow
claim_values now current_step r = record r {
  status = job_status_value SetupJobStatus.checking_ssh;
  current_step = current_step;
  started_at = some now;
  updated_at = now;
}

-- The scalar subquery: the id of the oldest queued row.
unfoldable pub candidate : Tables → Option ℕ
candidate db =
    Option.map (λ (r : SetupJobRow). r.id)
      (first (sorted (λ r. r.created_at) (filter is_queued_row db.setup_jobs)))

-- No id equals NULL.
unfoldable pub claim_next_setup_job : ℕ → String → Tables → Option (Option SetupJob) × Tables
claim_next_setup_job now current_step db = elim (candidate db) [
  | none ↦ (some none, db)
  | some job_id ↦ update_job job_id is_queued_row (claim_values now current_step) db
]

-- One entry of `stored_values`.
unfoldable pub assign_row : JobChange → SetupJobRow → SetupJobRow
assign_row (JobChange.status v) r = record r { status = job_status_value v }
assign_row (JobChange.current_step v) r = record r { current_step = v }
assign_row (JobChange.server_node_id v) r = record r { server_node_id = some v }
assign_row (JobChange.finished_at v) r = record r { finished_at = some v }
assign_row (JobChange.updated_at v) r = record r { updated_at = v }
assign_row (JobChange.error_message v) r = record r { error_message = some v }
assign_row (JobChange.secret_encrypted v) r = record r { secret_encrypted = v }
assign_row (JobChange.result_payload v) r = record r { result_payload = some v }

unfoldable pub assign_row_all : List JobChange → SetupJobRow → SetupJobRow
assign_row_all [] r = r
assign_row_all (c ∷ cs) r = assign_row_all cs (assign_row c r)

-- `SetupJobRow.status.in_(status.value for status in expected_statuses)`
abbrev pub is_expected_row : List SetupJobStatus → SetupJobRow → Bool
is_expected_row expected r = any (λ x. r.status == job_status_value x) expected

unfoldable pub transition_setup_job :
    ℕ → List SetupJobStatus → List JobChange → Tables → Option (Option SetupJob) × Tables
transition_setup_job job_id expected changes db =
    update_job job_id (is_expected_row expected) (assign_row_all changes) db

unfoldable pub add_setup_event : SetupJobEvent → Tables → Tables
add_setup_event e db = record db {
  setup_events = merge (λ r. r.id) (setup_event_row e) db.setup_events;
}

unfoldable pub list_setup_events : ℕ → Tables → Option (List SetupJobEvent)
list_setup_events job_id db =
    read_all setup_event_of
      (sorted (λ r. r.created_at) (filter (λ r. r.setup_job_id == job_id) db.setup_events))
