-- ===== src/Database/Refines/Devices.antt =====
-- The statements on devices and nodes, in the database and in memory.
use mathlib.Core.Option
use vpn_controll_app.Base.{
  ℕ, Bool, ◌&&◌, count, filter, ◌≡◌, refl, ap, ◌∙◌, ◌==◌, nat_Eq, string_Eq, some,
}
use vpn_controll_app.Base.Sort.{sorted, sorted_reverse}
use vpn_controll_app.Dict.{values}
use vpn_controll_app.Domain.Status.{DeviceStatus, device_status_value}
use vpn_controll_app.Domain.Entities.{Device, ServerNode}
use vpn_controll_app.Outside.{Outside}
use vpn_controll_app.Storage.State.{Store}
use vpn_controll_app.Storage.Tables as Memory
use vpn_controll_app.Database.Rows.{DeviceRow, device_row, device_of, device_of-device_row}
use vpn_controll_app.Database.Rows.Nodes.{
  ServerNodeRow, server_node_row, server_node_of, server_node_of-server_node_row,
}
use vpn_controll_app.Database.Sql.{read_all}
use vpn_controll_app.Database.State.{Tables}
use vpn_controll_app.Database.Storage as Rows
use vpn_controll_app.Database.Tables.{filter-map}
use vpn_controll_app.Database.Mirrors.{
  merge-Mirrors, get-lookup, read_sorted, read_sorted_reverse, count-map,
}
use vpn_controll_app.Database.Refines.{
  Represents, Statement, Reply, run_memory, run_database, Agrees, device_id, node_id,
}

abbrev device_row_id : DeviceRow → ℕ
device_row_id r = r.id

abbrev node_row_id : ServerNodeRow → ℕ
node_row_id r = r.id

device_row_id-device_row : (x : Device) → device_row_id (device_row x) ≡ device_id x
unfolding device_row
device_row_id-device_row x = refl

node_row_id-server_node_row : (x : ServerNode) → node_row_id (server_node_row x) ≡ node_id x
unfolding server_node_row
node_row_id-server_node_row x = refl

is_counted-device_status_value :
    (x : DeviceStatus) → Rows.is_counted (device_status_value x) ≡ Memory.is_counted x
is_counted-device_status_value DeviceStatus.provisioning = refl
is_counted-device_status_value DeviceStatus.active = refl
is_counted-device_status_value DeviceStatus.revoked = refl
is_counted-device_status_value DeviceStatus.failed = refl

pub save_device-Agrees :
    (o : Outside) (x : Device) (db : Tables) (s : Store)
    → Represents db s
    → Agrees
        (run_database o (Statement.save_device x) db)
        (run_memory o (Statement.save_device x) s)
unfolding run_database run_memory Memory.save_device Rows.save_device
save_device-Agrees o x db s h = (
  refl,
  record {
    jobs = h.jobs;
    devices =
        merge-Mirrors device_row device_id device_row_id device_row_id-device_row x _ _ h.devices;
    nodes = h.nodes;
    users = h.users;
  },
)

pub get_device-Agrees :
    (o : Outside) (id : ℕ) (db : Tables) (s : Store)
    → Represents db s
    → Agrees
        (run_database o (Statement.get_device id) db)
        (run_memory o (Statement.get_device id) s)
unfolding run_database run_memory Rows.get_device
get_device-Agrees o id db s h = (
  ap (Option.map Reply.one_device) (
      get-lookup device_row device_id device_of device_of-device_row device_row_id
        device_row_id-device_row id _ _ h.devices),
  h,
)

pub list_devices-Agrees :
    (o : Outside) (user_id : ℕ) (db : Tables) (s : Store)
    → Represents db s
    → Agrees
        (run_database o (Statement.list_devices user_id) db)
        (run_memory o (Statement.list_devices user_id) s)
unfolding run_database run_memory Rows.list_devices_for_user Memory.list_devices_for_user device_row
list_devices-Agrees o user_id db s h = (
  ap
        (λ t. Option.map Reply.all_devices (
          read_all device_of
            (sorted_reverse (λ r. r.created_at) (filter (λ r. r.user_id == user_id) t))))
        h.devices.rows
      ∙ ap
          (λ t.
            Option.map Reply.all_devices
              (read_all device_of (sorted_reverse (λ r. r.created_at) t)))
          (filter-map device_row (λ d. d.user_id == user_id) (λ r. r.user_id == user_id) (λ v. refl)
            (values s.devices))
      ∙ ap (Option.map Reply.all_devices) (
          read_sorted_reverse device_row device_id device_of device_of-device_row
            (λ d. d.created_at) (λ r. r.created_at) (λ v. refl) _),
  h,
)

pub count_devices-Agrees :
    (o : Outside) (user_id : ℕ) (db : Tables) (s : Store)
    → Represents db s
    → Agrees
        (run_database o (Statement.count_devices user_id) db)
        (run_memory o (Statement.count_devices user_id) s)
unfolding run_database run_memory Rows.count_devices_toward_limit Memory.count_devices_toward_limit
    device_row
count_devices-Agrees o user_id db s h =
    let wanted : DeviceRow → Bool = λ r. r.user_id == user_id && Rows.is_counted r.status in
    (
      ap (λ t. some (Reply.counted (count wanted t))) h.devices.rows
          ∙ ap (λ n. some (Reply.counted n))
              (count-map device_row device_id
                (λ d. d.user_id == user_id && Memory.is_counted d.status) wanted
                (λ v. ap (λ b. v.user_id == user_id && b) (is_counted-device_status_value v.status))
                (values s.devices)),
      h,
    )

pub count_on_server-Agrees :
    (o : Outside) (id : ℕ) (db : Tables) (s : Store)
    → Represents db s
    → Agrees
        (run_database o (Statement.count_on_server id) db)
        (run_memory o (Statement.count_on_server id) s)
unfolding run_database run_memory Rows.count_active_devices_for_server
    Memory.count_active_devices_for_server device_row
count_on_server-Agrees o id db s h =
    let wanted : DeviceRow → Bool = λ r. r.server_node_id == id && Rows.is_counted r.status in
    (
      ap (λ t. some (Reply.counted (count wanted t))) h.devices.rows
          ∙ ap (λ n. some (Reply.counted n))
              (count-map device_row device_id
                (λ d. d.server_node_id == id && Memory.is_counted d.status) wanted
                (λ v.
                  ap (λ b. v.server_node_id == id && b) (is_counted-device_status_value v.status))
                (values s.devices)),
      h,
    )

pub save_server-Agrees :
    (o : Outside) (x : ServerNode) (db : Tables) (s : Store)
    → Represents db s
    → Agrees
        (run_database o (Statement.save_server x) db)
        (run_memory o (Statement.save_server x) s)
unfolding run_database run_memory Memory.save_server_node Rows.save_server_node
save_server-Agrees o x db s h = (
  refl,
  record {
    jobs = h.jobs;
    devices = h.devices;
    nodes =
        merge-Mirrors server_node_row node_id node_row_id node_row_id-server_node_row x _ _ h.nodes;
    users = h.users;
  },
)

pub get_server-Agrees :
    (o : Outside) (id : ℕ) (db : Tables) (s : Store)
    → Represents db s
    → Agrees
        (run_database o (Statement.get_server id) db)
        (run_memory o (Statement.get_server id) s)
unfolding run_database run_memory Rows.get_server_node
get_server-Agrees o id db s h = (
  ap (Option.map Reply.one_server) (
      get-lookup server_node_row node_id server_node_of server_node_of-server_node_row node_row_id
        node_row_id-server_node_row id _ _ h.nodes),
  h,
)

pub list_servers-Agrees :
    (o : Outside) (db : Tables) (s : Store)
    → Represents db s
    → Agrees (run_database o Statement.list_servers db) (run_memory o Statement.list_servers s)
unfolding run_database run_memory Rows.list_server_nodes Memory.list_server_nodes server_node_row
list_servers-Agrees o db s h = (
  ap (λ t. Option.map Reply.all_servers (read_all server_node_of (sorted (λ r. r.created_at) t)))
        h.nodes.rows
      ∙ ap (Option.map Reply.all_servers) (
          read_sorted server_node_row node_id server_node_of server_node_of-server_node_row
            (λ n. n.created_at) (λ r. r.created_at) (λ v. refl) (values s.server_nodes)),
  h,
)
