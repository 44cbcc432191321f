-- ===== src/Servers.antt =====
-- The nodes (backend/app/services/server_service.py): inventory, health, and the choice of a
-- node for a new device.
mod Choice
mod Health
pub mod Patch
pub mod Pick
pub mod Status
pub use Choice.*
pub use Health.*
unfoldable pub use Choice.{is_selectable, list_available, pick_for_new_device, ensure_selectable}
unfoldable pub use Health.{
  get, check_failed, save_checked, judge, check_passed, probe, health_check, agent_peers,
}
use vpn_controll_app.Base.{
  ℕ, Bool, true, false, not, ◌&&◌, ◌||◌, String, Option, none, some, List, [], ◌∷◌, filter, ◌==◌,
  nat_Eq, is_blank, strip, rstrip, if◌then◌else◌,
}
use vpn_controll_app.Base.Sort.{min_by}
use vpn_controll_app.Domain.Status.{ServerStatus, ServerStatus_Eq, server_status_value}
use vpn_controll_app.Domain.Json.{
  is_truthy, Value, null, bool, num, str, arr, obj, Items, nil, cons, Fields, end, field, get_field,
}
use vpn_controll_app.Domain.Entities.{User, ServerNode, SetupJob}
use vpn_controll_app.Errors.Code.{ErrorCode, ErrorCode_Eq, code_value}
use vpn_controll_app.Errors.{Error, AppError, app_error, app, not_found}
use vpn_controll_app.Outside.{Outside}
use vpn_controll_app.Agent
use vpn_controll_app.Agent.{as_object}
use vpn_controll_app.Audit.{log, no_client}
use vpn_controll_app.Users.Patch.{names}
use vpn_controll_app.Storage.State.{Store}
use vpn_controll_app.Storage.Action.{
  Action, Result, ok, err, pure, raise, gets, or_raise, ask, modify, raise_if, when, catch, ◌>>=◌,
  ◌>>◌,
}
use vpn_controll_app.Storage.Tables.{
  save_server_node, get_server_node, list_server_nodes, count_active_devices_for_server,
}
use Patch.{NodeField, patch_node}

-- The arguments of `create_manual` that come from the request.
pub record NewServer : Type 0 where
  pub name : String
  pub public_host : String
  pub agent_base_url : String
  pub public_port : Option ℕ
  pub region_note : Option String
  pub provider : Option String
  pub agent_key_id : Option String
  pub agent_secret : Option String
  pub agent_allowed_ip_note : Option String
  pub is_available_for_new_devices : Bool

-- `rstrip("/")`
abbrev pub strip_slashes : String → String
strip_slashes = rstrip (λ c. c == b'/')

-- A node with the defaults of the dataclass.
abbrev blank_node : ℕ → String → String → String → ℕ → ServerNode
blank_node id name public_host agent_base_url now = record {
  id = id;
  name = name;
  public_host = public_host;
  agent_base_url = agent_base_url;
  created_at = now;
  updated_at = now;
  public_port = none;
  region_note = none;
  provider = none;
  agent_key_id = none;
  agent_secret_encrypted = none;
  agent_allowed_ip_note = none;
  status = ServerStatus.draft;
  last_seen_at = none;
  last_error = none;
  last_status_payload = none;
  awg_container_name = "amnezia-awg2";
  awg_interface = "awg0";
  awg_config_path = "/opt/amnezia/awg/awg0.conf";
  clients_table_path = "/opt/amnezia/awg/clientsTable";
  is_available_for_new_devices = true;
  created_by_user_id = none;
}

module _ (o : Outside) where
  -- `self._secret_box.encrypt(x) if x else None`
  unfoldable pub encrypt_if_given : Option String → Action (Option String)
  encrypt_if_given none = pure none
  encrypt_if_given (some x) =
      if is_blank (some x) then pure none else ask (λ n. some (o.encrypt n x))

  unfoldable pub create_manual : User → NewServer → Action ServerNode
  unfolding encrypt_if_given
  create_manual actor new = do
    now ← ask o.clock
    id ← ask o.uuid4
    secret ← encrypt_if_given new.agent_secret
    let blank =
        blank_node id (strip new.name) (strip new.public_host)
          (strip_slashes (strip new.agent_base_url)) now
    let node : ServerNode = record blank {
      public_port = new.public_port;
      region_note = new.region_note;
      provider = new.provider;
      agent_key_id = new.agent_key_id;
      agent_secret_encrypted = secret;
      agent_allowed_ip_note = new.agent_allowed_ip_note;
      is_available_for_new_devices = new.is_available_for_new_devices;
      created_by_user_id = some actor.id;
    }
    modify (save_server_node node)
    log o "server_created" (some actor.id) (some "server_node") (some id)
        (field "name" (str node.name) end) no_client
    pure node

  unfoldable pub create_from_setup : SetupJob → String → String → String → Action ServerNode
  create_from_setup job agent_base_url agent_key_id agent_secret = do
    now ← ask o.clock
    id ← ask o.uuid4
    secret ← ask (λ n. o.encrypt n agent_secret)
    let blank = blank_node id job.server_name job.host agent_base_url now
    let node : ServerNode = record blank {
      region_note = job.region_note;
      agent_key_id = some agent_key_id;
      agent_secret_encrypted = some secret;
      status = ServerStatus.setup_running;
      is_available_for_new_devices = false;
      created_by_user_id = some job.created_by_user_id;
    }
    modify (save_server_node node)
    pure node

  unfoldable pub activate_after_setup : ℕ → Bool → Action ServerNode
  unfolding get
  activate_after_setup node_id available = do
    node ← get o node_id
    now ← ask o.clock
    let saved : ServerNode = record node {
      is_available_for_new_devices = available;
      updated_at = now;
    }
    modify (save_server_node saved)
    pure saved

  unfoldable pub save_changes : User → ServerNode → List String → Action ServerNode
  save_changes actor node [] = pure node
  save_changes actor node (name ∷ rest) = do
    now ← ask o.clock
    let saved : ServerNode = record node { updated_at = now }
    modify (save_server_node saved)
    log o "server_updated" (some actor.id) (some "server_node") (some node.id)
        (field "changed" (arr (names (name ∷ rest))) end) no_client
    pure saved

  unfoldable pub update : User → ℕ → List NodeField → Action ServerNode
  unfolding get save_changes
  update actor node_id patch = do
    node ← get o node_id
    (patched, changed) ← patch_node o patch node
    save_changes actor patched changed

  -- The status after the switch: enabling a disabled node leaves it unknown until a check.
  unfoldable pub switched : Bool → ServerStatus → ServerStatus
  switched true status = ServerStatus.disabled
  switched false ServerStatus.disabled = ServerStatus.draft
  switched false status = status

  unfoldable pub set_disabled : User → ℕ → Bool → Action ServerNode
  unfolding get switched
  set_disabled actor node_id disabled = do
    node ← get o node_id
    now ← ask o.clock
    let saved : ServerNode = record node {
      status = switched disabled node.status;
      updated_at = now;
    }
    modify (save_server_node saved)
    log o (if disabled then "server_disabled" else "server_enabled") (some actor.id)
        (some "server_node") (some node.id) end no_client
    pure saved
