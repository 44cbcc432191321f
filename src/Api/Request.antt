-- ===== src/Api/Request.antt =====
-- Requests and responses: the endpoints of backend/app/api/routes with their methods, prefixes
-- and status codes. A body arrives parsed and validated by pydantic; a path parameter is an id.
use vpn_controll_app.Base.{ℕ, Bool, String, Option, List}
use vpn_controll_app.Dict.{Dict}
use vpn_controll_app.Domain.Json.{Value, Fields}
use vpn_controll_app.Errors.{Error}
use vpn_controll_app.Audit.{ClientMeta}
use vpn_controll_app.Users.{NewUser}
use vpn_controll_app.Users.Patch.{UserField}
use vpn_controll_app.Servers.{NewServer}
use vpn_controll_app.Servers.Patch.{NodeField}
use vpn_controll_app.SetupJobs.{NewJob}
use vpn_controll_app.Support.{NewContribution}
use vpn_controll_app.Support.Patch.{SettingsField}
use vpn_controll_app.Devices.{IssueResult}
use vpn_controll_app.Api.Schemas.{UserOut, AdminUserOut, DeviceOut, ServerOut, AdminServerOut}
use vpn_controll_app.Api.Schemas.Records.{
  ContributionOut, SupportSettingsOut, SetupJobOut, SetupJobEventOut, AuditLogOut,
}

-- An endpoint with its path parameters and its body, by the name of its handler.
pub data Endpoint : Type 0 where
  health : Endpoint
  login : String → String → Endpoint
  logout session me dashboard : Endpoint
  list_devices : Endpoint
  create_device : String → Option ℕ → Endpoint
  get_device revoke_device issue_result : ℕ → Endpoint
  list_servers : Endpoint
  get_server : ℕ → Endpoint
  support_view support_history : Endpoint
  list_users : Endpoint
  create_user : NewUser → Endpoint
  get_user : ℕ → Endpoint
  update_user : ℕ → List UserField → Endpoint
  reset_password : ℕ → String → Endpoint
  disable_user enable_user user_devices user_contributions : ℕ → Endpoint
  record_contribution : ℕ → NewContribution → Endpoint
  list_nodes : Endpoint
  create_node : NewServer → Endpoint
  get_node : ℕ → Endpoint
  update_node : ℕ → List NodeField → Endpoint
  health_check server_peers disable_node enable_node : ℕ → Endpoint
  create_job : NewJob → Endpoint
  list_jobs : Endpoint
  get_job start_job cancel_job job_events : ℕ → Endpoint
  get_settings : Endpoint
  update_settings : List SettingsField → Endpoint
  list_audit_logs : ℕ → Endpoint

-- The method that an endpoint is registered for.
unfoldable pub method_of : Endpoint → String
method_of (Endpoint.login _ _) = "POST"
method_of Endpoint.logout = "POST"
method_of (Endpoint.create_device _ _) = "POST"
method_of (Endpoint.revoke_device _) = "DELETE"
method_of (Endpoint.create_user _) = "POST"
method_of (Endpoint.update_user _ _) = "PATCH"
method_of (Endpoint.reset_password _ _) = "POST"
method_of (Endpoint.disable_user _) = "POST"
method_of (Endpoint.enable_user _) = "POST"
method_of (Endpoint.record_contribution _ _) = "POST"
method_of (Endpoint.create_node _) = "POST"
method_of (Endpoint.update_node _ _) = "PATCH"
method_of (Endpoint.health_check _) = "POST"
method_of (Endpoint.disable_node _) = "POST"
method_of (Endpoint.enable_node _) = "POST"
method_of (Endpoint.create_job _) = "POST"
method_of (Endpoint.start_job _) = "POST"
method_of (Endpoint.cancel_job _) = "POST"
method_of (Endpoint.update_settings _) = "PATCH"
method_of _ = "GET"

-- The prefix of the router that an endpoint is registered at, below `/api/v1`.
unfoldable pub prefix_of : Endpoint → String
prefix_of Endpoint.health = ""
prefix_of (Endpoint.login _ _) = "/auth"
prefix_of Endpoint.logout = "/auth"
prefix_of Endpoint.session = "/auth"
prefix_of Endpoint.me = "/me"
prefix_of Endpoint.dashboard = "/me"
prefix_of Endpoint.list_devices = "/devices"
prefix_of (Endpoint.create_device _ _) = "/devices"
prefix_of (Endpoint.get_device _) = "/devices"
prefix_of (Endpoint.revoke_device _) = "/devices"
prefix_of (Endpoint.issue_result _) = "/devices"
prefix_of Endpoint.list_servers = "/servers"
prefix_of (Endpoint.get_server _) = "/servers"
prefix_of Endpoint.support_view = "/support"
prefix_of Endpoint.support_history = "/support"
prefix_of Endpoint.list_users = "/admin/users"
prefix_of (Endpoint.create_user _) = "/admin/users"
prefix_of (Endpoint.get_user _) = "/admin/users"
prefix_of (Endpoint.update_user _ _) = "/admin/users"
prefix_of (Endpoint.reset_password _ _) = "/admin/users"
prefix_of (Endpoint.disable_user _) = "/admin/users"
prefix_of (Endpoint.enable_user _) = "/admin/users"
prefix_of (Endpoint.user_devices _) = "/admin/users"
prefix_of (Endpoint.user_contributions _) = "/admin/users"
prefix_of (Endpoint.record_contribution _ _) = "/admin/users"
prefix_of Endpoint.list_nodes = "/admin/servers"
prefix_of (Endpoint.create_node _) = "/admin/servers"
prefix_of (Endpoint.get_node _) = "/admin/servers"
prefix_of (Endpoint.update_node _ _) = "/admin/servers"
prefix_of (Endpoint.health_check _) = "/admin/servers"
prefix_of (Endpoint.server_peers _) = "/admin/servers"
prefix_of (Endpoint.disable_node _) = "/admin/servers"
prefix_of (Endpoint.enable_node _) = "/admin/servers"
prefix_of (Endpoint.create_job _) = "/admin/setup-jobs"
prefix_of Endpoint.list_jobs = "/admin/setup-jobs"
prefix_of (Endpoint.get_job _) = "/admin/setup-jobs"
prefix_of (Endpoint.start_job _) = "/admin/setup-jobs"
prefix_of (Endpoint.cancel_job _) = "/admin/setup-jobs"
prefix_of (Endpoint.job_events _) = "/admin/setup-jobs"
prefix_of Endpoint.get_settings = "/admin/support-settings"
prefix_of (Endpoint.update_settings _) = "/admin/support-settings"
prefix_of (Endpoint.list_audit_logs _) = "/admin/audit-logs"

-- The status of a reply: `status_code=201` of the decorator, or 200.
unfoldable pub success_status : Endpoint → ℕ
success_status (Endpoint.create_device _ _) = 201
success_status (Endpoint.create_user _) = 201
success_status (Endpoint.record_contribution _ _) = 201
success_status (Endpoint.create_node _) = 201
success_status (Endpoint.create_job _) = 201
success_status _ = 200

-- What a handler reads of a request. `requested_with` is the header X-Requested-With, or the
-- empty text where it is missing.
pub record HttpRequest : Type 0 where
  pub cookies : Dict String String
  pub origin : Option String
  pub requested_with : String
  pub client : ClientMeta

-- `response.set_cookie(…)`
pub record Cookie : Type 0 where
  pub key : String
  pub value : String
  pub httponly : Bool
  pub samesite : String
  pub secure : Bool
  pub max_age : ℕ
  pub path : String

pub record Dashboard : Type 0 where
  pub user : UserOut
  pub is_active : Bool
  pub message : String
  pub used : ℕ
  pub limit : Option ℕ
  pub unlimited : Bool
  pub support_visible : Bool
  pub support_hint : Option String
  pub recent_devices : List DeviceOut

-- The body of a successful reply, by its response model.
pub data Payload : Type 0 where
  done : Payload
  alive : String → Payload
  logged_in : UserOut → Cookie → Payload
  logged_out : String → Payload
  user : UserOut → Payload
  dashboard : Dashboard → Payload
  devices : List DeviceOut → Payload
  device : DeviceOut → Payload
  created_device : DeviceOut → IssueResult → Payload
  issue : IssueResult → Payload
  servers : List ServerOut → Payload
  server : ServerOut → Payload
  support_view : Fields → Payload
  support_history : Bool → List ContributionOut → Payload
  admin_users : List AdminUserOut → Payload
  admin_user : AdminUserOut → Payload
  contributions : List ContributionOut → Payload
  contribution : ContributionOut → Payload
  admin_servers : List AdminServerOut → Payload
  admin_server : AdminServerOut → Payload
  peers : Value → Payload
  setup_jobs : List SetupJobOut → Payload
  setup_job : SetupJobOut → Payload
  setup_job_events : List SetupJobEventOut → Payload
  support_settings : SupportSettingsOut → Payload
  audit_logs : List AuditLogOut → Payload

-- A reply; an error body that the program writes; or an error that no handler of the program
-- catches, which the framework answers with 500.
pub data Response : Type 0 where
  success : ℕ → Payload → Response
  error : ℕ → Fields → Response
  unhandled : Error → Response
