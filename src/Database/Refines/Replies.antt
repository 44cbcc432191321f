-- ===== src/Database/Refines/Replies.antt =====
-- Sequences of statements, in the database and in memory.
use vpn_controll_app.Base.{true, some, List, [], ◌∷◌, ◌≡◌, refl, nat_Eq, string_Eq}
use vpn_controll_app.Domain.Status.{SetupJobStatus_Eq}
use vpn_controll_app.Storage.State.{Store}
use vpn_controll_app.Database.State.{Tables}
use vpn_controll_app.Database.Refines.{
  Represents, is_free, AreFree, replies, replies_database, Statement, run_memory, run_database,
  Agrees,
}
use vpn_controll_app.Outside.{Outside}
use vpn_controll_app.Database.Refines.Users.{
  save_user-Agrees, get_user-Agrees, find_login-Agrees, list_users-Agrees, has_admin-Agrees,
}
use vpn_controll_app.Database.Refines.Jobs.{
  save_job-Agrees, get_job-Agrees, list_jobs-Agrees, claim-Agrees, transition-Agrees,
}
use vpn_controll_app.Database.Refines.Devices.{
  save_device-Agrees, get_device-Agrees, list_devices-Agrees, count_devices-Agrees,
  count_on_server-Agrees, save_server-Agrees, get_server-Agrees, list_servers-Agrees,
}

run-Agrees :
    (o : Outside) (x : Statement) (db : Tables) (s : Store)
    → Represents db s
    → is_free x s ≡ true
    → Agrees (run_database o x db) (run_memory o x s)
unfolding is_free
run-Agrees o (Statement.save_job x) db s h free = save_job-Agrees o x db s h
run-Agrees o (Statement.get_job id) db s h free = get_job-Agrees o id db s h
run-Agrees o Statement.list_jobs db s h free = list_jobs-Agrees o db s h
run-Agrees o (Statement.claim now step) db s h free = claim-Agrees o now step db s h
run-Agrees o (Statement.transition id expected changes) db s h free =
    transition-Agrees o id expected changes db s h
run-Agrees o (Statement.save_device x) db s h free = save_device-Agrees o x db s h
run-Agrees o (Statement.get_device id) db s h free = get_device-Agrees o id db s h
run-Agrees o (Statement.list_devices id) db s h free = list_devices-Agrees o id db s h
run-Agrees o (Statement.count_devices id) db s h free = count_devices-Agrees o id db s h
run-Agrees o (Statement.count_on_server id) db s h free = count_on_server-Agrees o id db s h
run-Agrees o (Statement.save_server x) db s h free = save_server-Agrees o x db s h
run-Agrees o (Statement.get_server id) db s h free = get_server-Agrees o id db s h
run-Agrees o Statement.list_servers db s h free = list_servers-Agrees o db s h
run-Agrees o (Statement.save_user x) db s h free = save_user-Agrees o x db s h free
run-Agrees o (Statement.get_user id) db s h free = get_user-Agrees o id db s h
run-Agrees o (Statement.find_login login) db s h free = find_login-Agrees o login db s h
run-Agrees o Statement.list_users db s h free = list_users-Agrees o db s h
run-Agrees o Statement.has_admin db s h free = has_admin-Agrees o db s h

-- Where the tables have the rows of the jobs, the devices, the nodes and the members in memory, each
-- filed once and under its id, a sequence of statements on them (saves, reads, listings, counts,
-- claims of a job and guarded transitions) in which no save of a member takes another's login gets
-- from the database the replies that it gets from memory, and none of them raises.
pub replies_database-replies :
    (o : Outside) (xs : List Statement) (db : Tables) (s : Store)
    → Represents db s
    → AreFree o xs s
    → replies_database o xs db ≡ some (replies o xs s)
unfolding replies_database replies AreFree
replies_database-replies o [] db s h free = refl
replies_database-replies o (x ∷ xs) db s h free =
    let (answered, after) = run-Agrees o x db s h free.0 in
    rw
      (
        answered,
        replies_database,
        replies_database-replies o xs (run_database o x db).1 (run_memory o x s).1 after free.1,
      )
      refl
