-- ===== src/Database/Refines/Jobs.antt =====
-- The statements on setup jobs, in the database and in memory.
use mathlib.Core.Option
use vpn_controll_app.Base.{
  ℕ, String, none, some, List, ◌≡◌, refl, sym, ap, ◌∙◌, nat_Eq, string_Eq, inl, inr, Bool-cases,
  Option-cases,
}
use vpn_controll_app.Base.Sort.{sorted_reverse}
use vpn_controll_app.Dict.{lookup, values}
use vpn_controll_app.Domain.Status.{SetupJobStatus, SetupJobStatus_Eq}
use vpn_controll_app.Domain.Entities.{SetupJob}
use vpn_controll_app.Outside.{Outside}
use vpn_controll_app.Storage.State.{Store}
use vpn_controll_app.Storage.Jobs as Memory
use vpn_controll_app.Storage.Jobs.{
  JobChange, assign, assign_all, claimed, is_expected, is_queued, next_queued_setup_job,
  transition_found,
}
use vpn_controll_app.Database.Rows.Nodes.{setup_job_row, setup_job_of, setup_job_of-setup_job_row}
use vpn_controll_app.Database.Sql.{read_all}
use vpn_controll_app.Database.State.{Tables}
use vpn_controll_app.Database.Mirrors.{merge-Mirrors, get-lookup, read_sorted_reverse, lookup-Keyed}
use vpn_controll_app.Database.Jobs as Rows
use vpn_controll_app.Database.Jobs.{
  assign_row, assign_row_all, claim_values, is_expected_row, is_queued_row, candidate, update_job,
}
use vpn_controll_app.Database.Refines.{
  Represents, Statement, Reply, run_memory, run_database, Agrees, job_id, row_id,
}
use vpn_controll_app.Database.Refines.Commutes.{
  row_id-setup_job_row, candidate-next, next_queued-stored, is_queued-setup_job_row,
  claim_values-setup_job_row, is_expected_row-setup_job_row, assign_row_all-setup_job_row,
}
use vpn_controll_app.Database.Refines.Updates.{
  update_job-absent, update_job-refused, update_job-changed,
}

pub save_job-Agrees :
    (o : Outside) (x : SetupJob) (db : Tables) (s : Store)
    → Represents db s
    → Agrees (run_database o (Statement.save_job x) db) (run_memory o (Statement.save_job x) s)
unfolding run_database run_memory Memory.save_setup_job Rows.save_setup_job
save_job-Agrees o x db s h = (
  refl,
  record {
    jobs = merge-Mirrors setup_job_row job_id row_id row_id-setup_job_row x _ _ h.jobs;
    devices = h.devices;
    nodes = h.nodes;
    users = h.users;
  },
)

pub get_job-Agrees :
    (o : Outside) (id : ℕ) (db : Tables) (s : Store)
    → Represents db s
    → Agrees (run_database o (Statement.get_job id) db) (run_memory o (Statement.get_job id) s)
unfolding run_database run_memory Rows.get_setup_job
get_job-Agrees o id db s h = (
  ap (Option.map Reply.one_job) (
      get-lookup setup_job_row job_id setup_job_of setup_job_of-setup_job_row row_id
        row_id-setup_job_row id _ _ h.jobs),
  h,
)

pub list_jobs-Agrees :
    (o : Outside) (db : Tables) (s : Store)
    → Represents db s
    → Agrees (run_database o Statement.list_jobs db) (run_memory o Statement.list_jobs s)
unfolding run_database run_memory Rows.list_setup_jobs Memory.list_setup_jobs setup_job_row
list_jobs-Agrees o db s h = (
  ap (λ t. Option.map Reply.all_jobs (read_all setup_job_of (sorted_reverse (λ r. r.created_at) t)))
        h.jobs.rows
      ∙ ap (Option.map Reply.all_jobs) (
          read_sorted_reverse setup_job_row job_id setup_job_of setup_job_of-setup_job_row
            (λ j. j.created_at) (λ r. r.created_at) (λ v. refl) (values s.setup_jobs)),
  h,
)

pub claim-Agrees :
    (o : Outside) (now : ℕ) (step : String) (db : Tables) (s : Store)
    → Represents db s
    → Agrees
        (run_database o (Statement.claim now step) db)
        (run_memory o (Statement.claim now step) s)
unfolding run_database run_memory Rows.claim_next_setup_job Memory.claim_next_setup_job
claim-Agrees o now step db s h = elim (Option-cases (next_queued_setup_job s)) [
  | inl e ↦
      let none_left : candidate db ≡ none = candidate-next db s h ∙ ap (Option.map job_id) e in
      rw (e, none_left, Memory.claim_next_setup_job, Rows.claim_next_setup_job) (refl, h)
  | inr (v, e) ↦
      let chosen : candidate db ≡ some v.id = candidate-next db s h ∙ ap (Option.map job_id) e in
      let (waiting, stored) = next_queued-stored db s v h e in
      let (returned, kept) =
        update_job-changed v.id is_queued_row (claim_values now step) db s h v (claimed now step v)
          stored (is_queued-setup_job_row v ∙ waiting) (claim_values-setup_job_row now step v)
          refl in
      rw (e, chosen, Memory.claim_next_setup_job, Rows.claim_next_setup_job)
        (ap (Option.map Reply.one_job) returned, kept)
]

pub transition-Agrees :
    (o : Outside) (id : ℕ) (expected : List SetupJobStatus) (changes : List JobChange) (db : Tables)
    (s : Store)
    → Represents db s
    → Agrees
        (run_database o (Statement.transition id expected changes) db)
        (run_memory o (Statement.transition id expected changes) s)
unfolding run_database run_memory Rows.transition_setup_job Memory.transition_setup_job
    transition_found
transition-Agrees o id expected changes db s h = elim (Option-cases (lookup id s.setup_jobs)) [
  | inl e ↦
      let (returned, kept) =
        update_job-absent id (is_expected_row expected) (assign_row_all changes) db s h e in
      rw (e, Memory.transition_setup_job) (ap (Option.map Reply.one_job) returned, kept)
  | inr (v, e) ↦ elim (Bool-cases (is_expected expected v.status)) [
    | inl passed ↦
        let (changed, same) = assign_row_all-setup_job_row changes v in
        let (returned, kept) =
          update_job-changed id (is_expected_row expected) (assign_row_all changes) db s h v
            (assign_all changes v) e (is_expected_row-setup_job_row expected v ∙ passed) changed
            (lookup-Keyed setup_job_row job_id id v s.setup_jobs h.jobs.keyed e ∙ sym same) in
        rw (e, Memory.transition_setup_job)
          (rw passed (ap (Option.map Reply.one_job) returned, kept))
    | inr failed ↦
        let (returned, kept) =
          update_job-refused id (is_expected_row expected) (assign_row_all changes) db s h v e
            (is_expected_row-setup_job_row expected v ∙ failed) in
        rw (e, Memory.transition_setup_job)
          (rw failed (ap (Option.map Reply.one_job) returned, kept))
  ]
]
