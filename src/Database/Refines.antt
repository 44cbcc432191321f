-- ===== src/Database/Refines.antt =====
-- The setup jobs, devices, nodes and members of `DatabaseStorage` beside those of `InMemoryStorage`
-- (backend/app/storage/db.py, memory.py): the statements, their replies, and when the tables
-- represent the memory.
pub mod Commutes
pub mod Updates
pub mod Jobs
pub mod Devices
pub mod Users
pub mod Replies
use mathlib.Core.Option
use vpn_controll_app.Base.{
  not, ◌&&◌, ◌==◌, any, nat_Eq, string_Eq, true, ℕ, Bool, true, false, ◌&&◌, ◌||◌, String, Option,
  none, some, some-injective, List, [], ◌∷◌, map, find, filter, first, any, All, ◌≡◌, refl, sym, ap,
  ap₂, ◌∙◌, subst, arith, ◌==◌, nat_Eq, string_Eq, inl, inr, Bool-cases, Option-cases,
  if◌then◌else◌,
}
use vpn_controll_app.Base.Sort.{sorted, sorted_reverse, sorted-All}
use vpn_controll_app.Base.Filter.{first-All, filter-All}
use vpn_controll_app.Dict.{Dict, lookup, insert, values}
use vpn_controll_app.Dict.Laws.{AllValues}
use vpn_controll_app.Dict.Distinct.{Distinct, insert-Distinct, All-values}
use vpn_controll_app.Domain.Status.{SetupJobStatus, SetupJobStatus_Eq, job_status_value}
use vpn_controll_app.Domain.Entities.{SetupJob, Device, ServerNode, User}
use vpn_controll_app.Outside.{Outside}
use vpn_controll_app.Storage.State.{Store}
use vpn_controll_app.Storage.Jobs as Memory
use vpn_controll_app.Storage.Tables as MemoryTables
use vpn_controll_app.Database.Storage as RowTables
use vpn_controll_app.Database.Mirrors.{Mirrors}
use vpn_controll_app.Database.Rows.{device_row, user_row}
use vpn_controll_app.Storage.Jobs.{
  JobChange, assign, assign_all, claimed, is_expected, is_queued, next_queued_setup_job,
  transition_found,
}
use vpn_controll_app.Database.Enums.{value-eq, job_status_of, job_status_of-job_status_value}
use vpn_controll_app.Database.Rows.Nodes.{
  SetupJobRow, setup_job_row, server_node_row, setup_job_of, setup_job_of-setup_job_row,
}
use vpn_controll_app.Database.Sql.{merge, read_all, read_one, update_where}
use vpn_controll_app.Database.State.{Tables}
use vpn_controll_app.Database.Tables.{
  Keyed, merge-insert, find-lookup, update-absent, update-refused, update-insert, sorted-map,
  sorted_reverse-map, filter-map, first-map,
}
use vpn_controll_app.Database.Jobs as Rows
use vpn_controll_app.Database.Jobs.{
  assign_row, assign_row_all, claim_values, is_expected_row, is_queued_row, candidate, update_job,
}

abbrev pub job_id : SetupJob → ℕ
job_id job = job.id

abbrev row_id : SetupJobRow → ℕ
row_id r = r.id

abbrev pub user_id : User → ℕ
user_id u = u.id

abbrev pub device_id : Device → ℕ
device_id d = d.id

abbrev pub node_id : ServerNode → ℕ
node_id n = n.id

-- The tables have the rows of the jobs, the devices, the nodes and the members in memory.
pub record Represents (db : Tables) (s : Store) : Type 0 where
  pub jobs : Mirrors setup_job_row job_id db.setup_jobs s.setup_jobs
  pub devices : Mirrors device_row device_id db.devices s.devices
  pub nodes : Mirrors server_node_row node_id db.server_nodes s.server_nodes
  pub users : Mirrors user_row user_id db.users s.users

-- A statement, and its reply.
pub data Statement : Type 0 where
  save_job : SetupJob → Statement
  get_job : ℕ → Statement
  list_jobs : Statement
  claim : ℕ → String → Statement
  transition : ℕ → List SetupJobStatus → List JobChange → Statement
  save_device : Device → Statement
  get_device list_devices count_devices count_on_server : ℕ → Statement
  save_server : ServerNode → Statement
  get_server : ℕ → Statement
  list_servers : Statement
  save_user : User → Statement
  get_user : ℕ → Statement
  find_login : String → Statement
  list_users has_admin : Statement

pub data Reply : Type 0 where
  saved : Reply
  counted : ℕ → Reply
  one_job : Option SetupJob → Reply
  all_jobs : List SetupJob → Reply
  one_device : Option Device → Reply
  all_devices : List Device → Reply
  one_server : Option ServerNode → Reply
  all_servers : List ServerNode → Reply
  one_user : Option User → Reply
  all_users : List User → Reply
  told : Bool → Reply

-- The database answers as the memory does, and still represents it.
abbrev pub Agrees : Option Reply × Tables → Reply × Store → Type 0
Agrees p q = (p.0 ≡ some q.0) × Represents p.1 q.1

-- No other member has the login.
unfoldable pub is_login_free : User → Store → Bool
is_login_free u s =
    not (any (λ (v : User). v.login == u.login && not (v.id == u.id)) (values s.users))

-- A save of a member takes no other's login.
unfoldable pub is_free : Statement → Store → Bool
is_free (Statement.save_user u) s = is_login_free u s
is_free _ s = true

module _ (o : Outside) where
  unfoldable pub run_memory : Statement → Store → Reply × Store
  run_memory (Statement.save_job x) s = (Reply.saved, Memory.save_setup_job x s)
  run_memory (Statement.get_job id) s = (Reply.one_job (Memory.get_setup_job id s), s)
  run_memory Statement.list_jobs s = (Reply.all_jobs (Memory.list_setup_jobs s), s)
  run_memory (Statement.claim now step) s =
      let (x, t) = Memory.claim_next_setup_job now step s in (Reply.one_job x, t)
  run_memory (Statement.transition id expected changes) s =
      let (x, t) = Memory.transition_setup_job id expected changes s in (Reply.one_job x, t)
  run_memory (Statement.save_device x) s = (Reply.saved, MemoryTables.save_device x s)
  run_memory (Statement.get_device id) s = (Reply.one_device (MemoryTables.get_device id s), s)
  run_memory (Statement.list_devices user_id) s =
      (Reply.all_devices (MemoryTables.list_devices_for_user user_id s), s)
  run_memory (Statement.count_devices user_id) s =
      (Reply.counted (MemoryTables.count_devices_toward_limit user_id s), s)
  run_memory (Statement.count_on_server id) s =
      (Reply.counted (MemoryTables.count_active_devices_for_server id s), s)
  run_memory (Statement.save_server x) s = (Reply.saved, MemoryTables.save_server_node x s)
  run_memory (Statement.get_server id) s = (Reply.one_server (MemoryTables.get_server_node id s), s)
  run_memory Statement.list_servers s = (Reply.all_servers (MemoryTables.list_server_nodes s), s)
  run_memory (Statement.save_user x) s = (Reply.saved, MemoryTables.save_user x s)
  run_memory (Statement.get_user id) s = (Reply.one_user (MemoryTables.get_user id s), s)
  run_memory (Statement.find_login login) s =
      (Reply.one_user (MemoryTables.get_user_by_login o login s), s)
  run_memory Statement.list_users s = (Reply.all_users (MemoryTables.list_users s), s)
  run_memory Statement.has_admin s = (Reply.told (MemoryTables.has_admin s), s)

  -- None where a save is refused or the reading of a row raises.
  unfoldable pub run_database : Statement → Tables → Option Reply × Tables
  run_database (Statement.save_job x) db = (some Reply.saved, Rows.save_setup_job x db)
  run_database (Statement.get_job id) db = (Option.map Reply.one_job (Rows.get_setup_job id db), db)
  run_database Statement.list_jobs db = (Option.map Reply.all_jobs (Rows.list_setup_jobs db), db)
  run_database (Statement.claim now step) db =
      let (x, d) = Rows.claim_next_setup_job now step db in (Option.map Reply.one_job x, d)
  run_database (Statement.transition id expected changes) db =
      let (x, d) = Rows.transition_setup_job id expected changes db in
      (Option.map Reply.one_job x, d)
  run_database (Statement.save_device x) db = (some Reply.saved, RowTables.save_device x db)
  run_database (Statement.get_device id) db =
      (Option.map Reply.one_device (RowTables.get_device id db), db)
  run_database (Statement.list_devices user_id) db =
      (Option.map Reply.all_devices (RowTables.list_devices_for_user user_id db), db)
  run_database (Statement.count_devices user_id) db =
      (some (Reply.counted (RowTables.count_devices_toward_limit user_id db)), db)
  run_database (Statement.count_on_server id) db =
      (some (Reply.counted (RowTables.count_active_devices_for_server id db)), db)
  run_database (Statement.save_server x) db = (some Reply.saved, RowTables.save_server_node x db)
  run_database (Statement.get_server id) db =
      (Option.map Reply.one_server (RowTables.get_server_node id db), db)
  run_database Statement.list_servers db =
      (Option.map Reply.all_servers (RowTables.list_server_nodes db), db)
  run_database (Statement.save_user x) db = elim (RowTables.save_user x db) [
    | none ↦ (none, db)
    | some d ↦ (some Reply.saved, d)
  ]
  run_database (Statement.get_user id) db =
      (Option.map Reply.one_user (RowTables.get_user id db), db)
  run_database (Statement.find_login login) db =
      (Option.map Reply.one_user (RowTables.get_user_by_login o login db), db)
  run_database Statement.list_users db = (Option.map Reply.all_users (RowTables.list_users db), db)
  run_database Statement.has_admin db = (some (Reply.told (RowTables.has_admin db)), db)

  -- The replies to a sequence of statements.
  unfoldable pub replies : List Statement → Store → List Reply
  replies [] s = []
  replies (x ∷ xs) s = let (r, t) = run_memory x s in r ∷ replies xs t

  unfoldable pub replies_database : List Statement → Tables → Option (List Reply)
  replies_database [] db = some []
  replies_database (x ∷ xs) db =
      let (r, d) = run_database x db in
      let rest = replies_database xs d in
      elim r [ none ↦ none | some y ↦ Option.map (λ ys. y ∷ ys) rest ]

  -- Each statement takes no other's login when its turn comes.
  unfoldable pub AreFree : List Statement → Store → Type 0
  AreFree [] s = Unit
  AreFree (x ∷ xs) s = (is_free x s ≡ true) × AreFree xs (run_memory x s).1
