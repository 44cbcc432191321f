-- ===== src/Database/Refines/Updates.antt =====
-- One UPDATE of a setup job.
use mathlib.Core.Option
use vpn_controll_app.Base.{
  ℕ, Bool, true, false, ◌&&◌, none, some, map, find, ◌≡◌, ap, ◌∙◌, ◌==◌, nat_Eq, string_Eq,
}
use vpn_controll_app.Dict.{lookup, insert, values}
use vpn_controll_app.Domain.Status.{SetupJobStatus_Eq}
use vpn_controll_app.Domain.Entities.{SetupJob}
use vpn_controll_app.Storage.State.{Store}
use vpn_controll_app.Storage.Jobs as Memory
use vpn_controll_app.Storage.Jobs.{
  JobChange, assign, assign_all, claimed, is_expected, is_queued, next_queued_setup_job,
  transition_found,
}
use vpn_controll_app.Database.Rows.Nodes.{
  SetupJobRow, setup_job_row, setup_job_of, setup_job_of-setup_job_row,
}
use vpn_controll_app.Database.Sql.{read_one, update_where}
use vpn_controll_app.Database.State.{Tables}
use vpn_controll_app.Database.Tables.{update-absent, update-refused, update-insert}
use vpn_controll_app.Database.Jobs.{update_job}
use vpn_controll_app.Database.Refines.{Represents, job_id, row_id}
use vpn_controll_app.Database.Refines.Commutes.{row_id-setup_job_row}
use vpn_controll_app.Database.Mirrors.{insert-Mirrors, read_one-map}

module _ (id : ℕ) (test : SetupJobRow → Bool) (change : SetupJobRow → SetupJobRow) (db : Tables)
    (s : Store) (h : Represents db s) where
  abbrev wanted : SetupJobRow → Bool
  wanted r = r.id == id && test r

  -- An UPDATE that no row matches.
  none_changed :
      (update_where wanted change (map setup_job_row (values s.setup_jobs))
          ≡ map setup_job_row (values s.setup_jobs))
        × (find wanted (map setup_job_row (values s.setup_jobs)) ≡ none)
      → ((update_job id test change db).0 ≡ some none)
        × Represents (update_job id test change db).1 s
  unfolding update_job
  none_changed (kept, unfound) = (
    ap (λ t. read_one setup_job_of (Option.map change (find wanted t))) h.jobs.rows
        ∙ ap (λ r. read_one setup_job_of (Option.map change r)) unfound
        ∙ read_one-map setup_job_row job_id setup_job_of setup_job_of-setup_job_row none,
    record {
      jobs = record {
        rows = ap (update_where wanted change) h.jobs.rows ∙ kept;
        distinct = h.jobs.distinct;
        keyed = h.jobs.keyed;
      };
      devices = h.devices;
      nodes = h.nodes;
      users = h.users;
    },
  )

  pub update_job-absent :
      lookup id s.setup_jobs ≡ none
      → ((update_job id test change db).0 ≡ some none)
        × Represents (update_job id test change db).1 s
  update_job-absent absent = none_changed (
      update-absent setup_job_row job_id row_id row_id-setup_job_row id test change s.setup_jobs
        h.jobs.keyed absent)

  pub update_job-refused :
      (v : SetupJob)
      → lookup id s.setup_jobs ≡ some v
      → test (setup_job_row v) ≡ false
      → ((update_job id test change db).0 ≡ some none)
        × Represents (update_job id test change db).1 s
  update_job-refused v found failed = none_changed (
      update-refused setup_job_row job_id row_id row_id-setup_job_row id test change v s.setup_jobs
        h.jobs.distinct h.jobs.keyed found failed)

  pub update_job-changed :
      (v v' : SetupJob)
      → lookup id s.setup_jobs ≡ some v
      → test (setup_job_row v) ≡ true
      → change (setup_job_row v) ≡ setup_job_row v'
      → id ≡ v'.id
      → ((update_job id test change db).0 ≡ some (some v'))
        × Represents (update_job id test change db).1 (Memory.save_setup_job v' s)
  unfolding update_job Memory.save_setup_job
  update_job-changed v v' found passed changed same =
      let (kept, one) =
        update-insert setup_job_row job_id row_id row_id-setup_job_row id test change v v'
          s.setup_jobs h.jobs.distinct h.jobs.keyed found passed changed in
      (
        ap (λ t. read_one setup_job_of (Option.map change (find wanted t))) h.jobs.rows
            ∙ ap (λ r. read_one setup_job_of (Option.map change r)) one
            ∙ ap (λ r. read_one setup_job_of (some r)) changed
            ∙ read_one-map setup_job_row job_id setup_job_of setup_job_of-setup_job_row (some v'),
        record {
          jobs = insert-Mirrors setup_job_row job_id v' _ _ s.setup_jobs h.jobs (
              ap (update_where wanted change) h.jobs.rows
              ∙ kept
              ∙ ap (λ k. map setup_job_row (values (insert k v' s.setup_jobs))) same);
          devices = h.devices;
          nodes = h.nodes;
          users = h.users;
        },
      )
