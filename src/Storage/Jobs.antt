-- ===== src/Storage/Jobs.antt =====
-- The setup jobs of `InMemoryStorage`: claiming the oldest queued job, and the guarded
-- transition, each one atomic step under `_setup_jobs_guard`.
use vpn_controll_app.Base.{
  ℕ, Bool, String, Option, none, some, List, [], ◌∷◌, ◌++◌, filter, first, any, ◌==◌, nat_Eq,
  if◌then◌else◌,
}
use vpn_controll_app.Base.Sort.{sorted, sorted_reverse}
use vpn_controll_app.Dict.{lookup, insert, set_default, values}
use vpn_controll_app.Domain.Status.{SetupJobStatus, SetupJobStatus_Eq}
use vpn_controll_app.Domain.Json.{Fields}
use vpn_controll_app.Domain.Entities.{SetupJob, SetupJobEvent}
use vpn_controll_app.Storage.State.{Store}

unfoldable pub save_setup_job : SetupJob → Store → Store
save_setup_job job s = record s {
  setup_jobs = insert job.id job s.setup_jobs;
  setup_events = set_default job.id [] s.setup_events;
}

abbrev pub get_setup_job : ℕ → Store → Option SetupJob
get_setup_job k s = lookup k s.setup_jobs

unfoldable pub list_setup_jobs : Store → List SetupJob
list_setup_jobs s = sorted_reverse (λ j. j.created_at) (values s.setup_jobs)

abbrev pub is_queued : SetupJob → Bool
is_queued job = job.status == SetupJobStatus.queued

unfoldable pub next_queued_setup_job : Store → Option SetupJob
next_queued_setup_job s =
    first (sorted (λ j. j.created_at) (filter is_queued (values s.setup_jobs)))

-- The job as `claim_next_setup_job` leaves it.
abbrev pub claimed : ℕ → String → SetupJob → SetupJob
claimed now current_step job = record job {
  status = SetupJobStatus.checking_ssh;
  current_step = current_step;
  started_at = some now;
  updated_at = now;
}

unfoldable pub claim_next_setup_job : ℕ → String → Store → Option SetupJob × Store
claim_next_setup_job now current_step s = elim (next_queued_setup_job s) [
  | none ↦ (none, s)
  | some job ↦
      (some (claimed now current_step job), save_setup_job (claimed now current_step job) s)
]

-- An entry of the dict `values` of a transition: a field's name and its value.
pub data JobChange : Type 0 where
  status : SetupJobStatus → JobChange
  current_step : String → JobChange
  server_node_id finished_at : ℕ → JobChange
  updated_at : ℕ → JobChange
  error_message : String → JobChange
  secret_encrypted : Option String → JobChange
  result_payload : Fields → JobChange

-- `setattr(job, field_name, value)`
unfoldable pub assign : JobChange → SetupJob → SetupJob
assign (JobChange.status v) j = record j { status = v }
assign (JobChange.current_step v) j = record j { current_step = v }
assign (JobChange.server_node_id v) j = record j { server_node_id = some v }
assign (JobChange.finished_at v) j = record j { finished_at = some v }
assign (JobChange.updated_at v) j = record j { updated_at = v }
assign (JobChange.error_message v) j = record j { error_message = some v }
assign (JobChange.secret_encrypted v) j = record j { secret_encrypted = v }
assign (JobChange.result_payload v) j = record j { result_payload = some v }

unfoldable pub assign_all : List JobChange → SetupJob → SetupJob
unfolding assign
assign_all [] j = j
assign_all (c ∷ cs) j = assign_all cs (assign c j)

-- `status in expected_statuses`
abbrev pub is_expected : List SetupJobStatus → SetupJobStatus → Bool
is_expected expected s = any (λ x. s == x) expected

-- The transition of a job that was found.
unfoldable pub transition_found :
    SetupJob → List SetupJobStatus → List JobChange → Store → Option SetupJob × Store
transition_found job expected changes s =
    if is_expected expected job.status
    then (some (assign_all changes job), save_setup_job (assign_all changes job) s)
    else (none, s)

unfoldable pub transition_setup_job :
    ℕ → List SetupJobStatus → List JobChange → Store → Option SetupJob × Store
transition_setup_job job_id expected changes s = elim (get_setup_job job_id s) [
  | none ↦ (none, s)
  | some job ↦ transition_found job expected changes s
]

abbrev events_of : ℕ → Store → List SetupJobEvent
events_of job_id s = elim (lookup job_id s.setup_events) [ none ↦ [] | some l ↦ l ]

unfoldable pub add_setup_event : SetupJobEvent → Store → Store
add_setup_event e s = record s {
  setup_events = insert e.setup_job_id (events_of e.setup_job_id s ++ (e ∷ [])) s.setup_events;
}

unfoldable pub list_setup_events : ℕ → Store → List SetupJobEvent
list_setup_events job_id s = events_of job_id s
