-- ===== src/Tests/Tables.antt =====
-- The statements of the database at concrete inputs.
use vpn_controll_app.Base.{false, nat_Eq, string_Eq, ◌≡◌, refl, none, some, List, [], ◌∷◌}
use vpn_controll_app.Dict.{lookup, values}
use vpn_controll_app.Domain.Status.{SetupJobStatus, DeviceStatus, ServerStatus}
use vpn_controll_app.Storage.Jobs.{JobChange}
use vpn_controll_app.Database.State.{Tables}
use vpn_controll_app.Database.Rows.Nodes.{setup_job_row, server_node_row}
use vpn_controll_app.Database.Rows.{device_row, user_row}
use vpn_controll_app.Tests.Sample.{outside, admin, member, phone, node}
use vpn_controll_app.Database.Refines.{
  Represents, Statement, AreFree, is_free, is_login_free, run_memory, replies, replies_database,
}
use vpn_controll_app.Database.Refines.Replies.{replies_database-replies}
use vpn_controll_app.Tests.Jobs.{job, done, busy}

abbrev tables : Tables
tables = record {
  users = user_row member ∷ user_row admin ∷ [];
  sessions = [];
  server_nodes = server_node_row node ∷ [];
  devices = device_row phone ∷ [];
  issues = [];
  contributions = [];
  support_settings = none;
  setup_jobs = setup_job_row job ∷ setup_job_row done ∷ [];
  setup_events = [];
  audit = [];
  login_failures = [];
}

tables-Represents : Represents tables busy
unfolding lookup values
tables-Represents = record {
  jobs = record { rows = refl; distinct = (refl, (refl, tt)); keyed = (refl, (refl, tt)) };
  devices = record { rows = refl; distinct = (refl, tt); keyed = (refl, tt) };
  nodes = record { rows = refl; distinct = (refl, tt); keyed = (refl, tt) };
  users = record { rows = refl; distinct = (refl, (refl, tt)); keyed = (refl, (refl, tt)) };
}

abbrev statements : List Statement
statements =
    Statement.save_user (record member { is_active = false })
    ∷ Statement.find_login member.login
    ∷ Statement.has_admin
    ∷ Statement.claim 60 "checking"
    ∷ Statement.transition 30 (SetupJobStatus.checking_ssh ∷ [])
        (JobChange.status SetupJobStatus.failed ∷ JobChange.error_message "no route" ∷ [])
    ∷ Statement.transition 31 (SetupJobStatus.queued ∷ []) (JobChange.updated_at 70 ∷ [])
    ∷ Statement.save_job (record job { id = 32 })
    ∷ Statement.get_job 32
    ∷ Statement.list_jobs
    ∷ Statement.save_device (record phone { id = 8; status = DeviceStatus.revoked })
    ∷ Statement.list_devices phone.user_id
    ∷ Statement.count_devices phone.user_id
    ∷ Statement.save_server (record node { status = ServerStatus.offline })
    ∷ Statement.list_servers
    ∷ []

statements-AreFree : AreFree outside statements busy
unfolding AreFree is_free is_login_free run_memory values
statements-AreFree = (
  refl,
  (
    refl,
    (
      refl,
      (refl, (refl, (refl, (refl, (refl, (refl, (refl, (refl, (refl, (refl, (refl, tt))))))))))),
    ),
  ),
)

replies_example :
    replies_database outside statements tables ≡ some (replies outside statements busy)
replies_example =
    replies_database-replies outside statements tables busy tables-Represents statements-AreFree
