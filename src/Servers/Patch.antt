-- ===== src/Servers/Patch.antt =====
-- The patch of a node: the loop of `ServerService.update`. A pair of a field's name and a value
-- is a constructor; `status` stands for the fields that `_PATCHABLE_FIELDS` lacks, and `other`
-- for a name that `ServerNode` lacks.
use vpn_controll_app.Base.{
  ℕ, Bool, true, false, not, ◌&&◌, String, Option, none, some, List, [], ◌∷◌, ◌++◌, ◌==◌, nat_Eq,
  bool_Eq, string_Eq, option_Eq, is_blank, if◌then◌else◌,
}
use vpn_controll_app.Domain.Status.{ServerStatus, ServerStatus_Eq}
use vpn_controll_app.Domain.Entities.{ServerNode}
use vpn_controll_app.Outside.{Outside}
use vpn_controll_app.Storage.Action.{Action, pure, ask, ◌>>=◌}

pub data NodeField : Type 0 where
  name public_host agent_base_url other : String → NodeField
  awg_container_name awg_interface awg_config_path clients_table_path : String → NodeField
  region_note provider agent_key_id agent_allowed_ip_note agent_secret : Option String → NodeField
  public_port : Option ℕ → NodeField
  is_available_for_new_devices : Bool → NodeField
  status : ServerStatus → NodeField

unfoldable pub is_patchable : NodeField → Bool
is_patchable (NodeField.other _) = false
is_patchable (NodeField.status _) = false
is_patchable (NodeField.agent_secret _) = false
is_patchable _ = true

abbrev pub field_name : NodeField → String
field_name (NodeField.name _) = "name"
field_name (NodeField.public_host _) = "public_host"
field_name (NodeField.agent_base_url _) = "agent_base_url"
field_name (NodeField.other key) = key
field_name (NodeField.awg_container_name _) = "awg_container_name"
field_name (NodeField.awg_interface _) = "awg_interface"
field_name (NodeField.awg_config_path _) = "awg_config_path"
field_name (NodeField.clients_table_path _) = "clients_table_path"
field_name (NodeField.region_note _) = "region_note"
field_name (NodeField.provider _) = "provider"
field_name (NodeField.agent_key_id _) = "agent_key_id"
field_name (NodeField.agent_allowed_ip_note _) = "agent_allowed_ip_note"
field_name (NodeField.agent_secret _) = "agent_secret"
field_name (NodeField.public_port _) = "public_port"
field_name (NodeField.is_available_for_new_devices _) = "is_available_for_new_devices"
field_name (NodeField.status _) = "status"

-- `getattr(node, field_name) == value`; `agent_secret` is handled before the test.
unfoldable pub has : ServerNode → NodeField → Bool
has n (NodeField.name v) = n.name == v
has n (NodeField.public_host v) = n.public_host == v
has n (NodeField.agent_base_url v) = n.agent_base_url == v
has n (NodeField.other v) = false
has n (NodeField.awg_container_name v) = n.awg_container_name == v
has n (NodeField.awg_interface v) = n.awg_interface == v
has n (NodeField.awg_config_path v) = n.awg_config_path == v
has n (NodeField.clients_table_path v) = n.clients_table_path == v
has n (NodeField.region_note v) = n.region_note == v
has n (NodeField.provider v) = n.provider == v
has n (NodeField.agent_key_id v) = n.agent_key_id == v
has n (NodeField.agent_allowed_ip_note v) = n.agent_allowed_ip_note == v
has n (NodeField.agent_secret v) = false
has n (NodeField.public_port v) = n.public_port == v
has n (NodeField.is_available_for_new_devices v) = n.is_available_for_new_devices == v
has n (NodeField.status v) = n.status == v

-- `setattr(node, field_name, value)`
unfoldable pub assign : NodeField → ServerNode → ServerNode
assign (NodeField.name v) n = record n { name = v }
assign (NodeField.public_host v) n = record n { public_host = v }
assign (NodeField.agent_base_url v) n = record n { agent_base_url = v }
assign (NodeField.other v) n = n
assign (NodeField.awg_container_name v) n = record n { awg_container_name = v }
assign (NodeField.awg_interface v) n = record n { awg_interface = v }
assign (NodeField.awg_config_path v) n = record n { awg_config_path = v }
assign (NodeField.clients_table_path v) n = record n { clients_table_path = v }
assign (NodeField.region_note v) n = record n { region_note = v }
assign (NodeField.provider v) n = record n { provider = v }
assign (NodeField.agent_key_id v) n = record n { agent_key_id = v }
assign (NodeField.agent_allowed_ip_note v) n = record n { agent_allowed_ip_note = v }
assign (NodeField.agent_secret v) n = n
assign (NodeField.public_port v) n = record n { public_port = v }
assign (NodeField.is_available_for_new_devices v) n = record n { is_available_for_new_devices = v }
assign (NodeField.status v) n = record n { status = v }

-- One round of the loop, on the node and the names changed so far.
unfoldable pub patch_step :
    Outside → NodeField → ServerNode × List String → Action (ServerNode × List String)
patch_step o (NodeField.agent_secret v) (n, changed) = do
  secret ← elim v [
    | none ↦ pure none
    | some x ↦ if is_blank (some x) then pure none else ask (λ k. some (o.encrypt k x))
  ]
  pure (record n { agent_secret_encrypted = secret }, changed ++ ("agent_secret" ∷ []))
patch_step o f (n, changed) =
    if is_patchable f && not (has n f)
    then pure (assign f n, changed ++ (field_name f ∷ []))
    else pure (n, changed)

unfoldable pub patch_from :
    Outside → List NodeField → ServerNode × List String → Action (ServerNode × List String)
patch_from o [] acc = pure acc
patch_from o (f ∷ fs) acc = patch_step o f acc >>= λ next. patch_from o fs next

unfoldable pub patch_node :
    Outside → List NodeField → ServerNode → Action (ServerNode × List String)
patch_node o fs n = patch_from o fs (n, [])
