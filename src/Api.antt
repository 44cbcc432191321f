-- ===== src/Api.antt =====
-- The HTTP interface: the routes of backend/app/api, behind the CSRF middleware of
-- backend/app/main.py and with the error handler of backend/app/core/errors.py.
pub mod Schemas
pub mod Request
pub mod Guards
pub mod Members
pub mod Admin
pub mod Access
pub mod Admins
pub mod Csrf
pub mod Dashboard
use vpn_controll_app.Base.{
  ℕ, Bool, true, false, not, ◌&&◌, String, Option, none, some, List, [], ◌∷◌, any, ◌==◌, string_Eq,
  if◌then◌else◌,
}
use vpn_controll_app.Domain.Json.{Fields, end}
use vpn_controll_app.Errors.Code.{ErrorCode}
use vpn_controll_app.Errors.{Error, app_error, error_body, handle_app_error}
use vpn_controll_app.Outside.{Outside}
use vpn_controll_app.Settings.{Settings}
use vpn_controll_app.Storage.State.{Store}
use vpn_controll_app.Storage.Action.{Action, Result, ok, err, pure}
use Request.{Endpoint, HttpRequest, Payload, Response, method_of, success_status}

abbrev pub unsafe_methods : List String
unsafe_methods = "POST" ∷ "PUT" ∷ "PATCH" ∷ "DELETE" ∷ []

-- `x in xs` of a list of texts.
abbrev pub is_in : String → List String → Bool
is_in x xs = any (λ y. x == y) xs

-- `handle_app_error`, and the reply of a handler that returned.
unfoldable pub answer : Endpoint → Result Payload → Response
answer e (ok p) = Response.success (success_status e) p
answer e (err (app_error exc)) =
    let (status, body) = handle_app_error exc in Response.error status body
answer e (err other) = Response.unhandled other

abbrev csrf_failed : String → Response
csrf_failed message = Response.error 403 (error_body ErrorCode.csrf_failed message end)

module _ (o : Outside) (settings : Settings) (format : String → String → String) where
  -- The handler of an endpoint.
  unfoldable pub dispatch : HttpRequest → Endpoint → Action Payload
  dispatch r Endpoint.health = pure (Payload.alive "0.1.0")
  dispatch r (Endpoint.login given password) = Members.login o settings r given password
  dispatch r Endpoint.logout = Members.logout o settings r
  dispatch r Endpoint.session = Members.session o settings r
  dispatch r Endpoint.me = Members.me o settings r
  dispatch r Endpoint.dashboard = Members.dashboard o settings r
  dispatch r Endpoint.list_devices = Members.list_devices o settings r
  dispatch r (Endpoint.create_device name node) = Members.create_device o settings r name node
  dispatch r (Endpoint.get_device id) = Members.get_device o settings r id
  dispatch r (Endpoint.revoke_device id) = Members.revoke_device o settings r id
  dispatch r (Endpoint.issue_result id) = Members.issue_result o settings r id
  dispatch r Endpoint.list_servers = Members.list_servers o settings r
  dispatch r (Endpoint.get_server id) = Members.get_server o settings r id
  dispatch r Endpoint.support_view = Members.support_view o settings r
  dispatch r Endpoint.support_history = Members.support_history o settings r
  dispatch r Endpoint.list_users = Admin.list_users o settings r
  dispatch r (Endpoint.create_user body) = Admin.create_user o settings r body
  dispatch r (Endpoint.get_user id) = Admin.get_user o settings r id
  dispatch r (Endpoint.update_user id body) = Admin.update_user o settings r id body
  dispatch r (Endpoint.reset_password id password) = Admin.reset_password o settings r id password
  dispatch r (Endpoint.disable_user id) = Admin.switch_user o settings r id false
  dispatch r (Endpoint.enable_user id) = Admin.switch_user o settings r id true
  dispatch r (Endpoint.user_devices id) = Admin.user_devices o settings r id
  dispatch r (Endpoint.user_contributions id) = Admin.user_contributions o settings r id
  dispatch r (Endpoint.record_contribution id body) = Admin.record_contribution o settings r id body
  dispatch r Endpoint.list_nodes = Admin.list_nodes o settings r
  dispatch r (Endpoint.create_node body) = Admin.create_node o settings r body
  dispatch r (Endpoint.get_node id) = Admin.get_node o settings r id
  dispatch r (Endpoint.update_node id body) = Admin.update_node o settings r id body
  dispatch r (Endpoint.health_check id) = Admin.health_check o settings r id
  dispatch r (Endpoint.server_peers id) = Admin.server_peers o settings r id
  dispatch r (Endpoint.disable_node id) = Admin.switch_node o settings r id true
  dispatch r (Endpoint.enable_node id) = Admin.switch_node o settings r id false
  dispatch r (Endpoint.create_job body) = Admin.create_job o settings format r body
  dispatch r Endpoint.list_jobs = Admin.list_jobs o settings format r
  dispatch r (Endpoint.get_job id) = Admin.get_job o settings format r id
  dispatch r (Endpoint.start_job id) = Admin.start_job o settings format r id
  dispatch r (Endpoint.cancel_job id) = Admin.cancel_job o settings format r id
  dispatch r (Endpoint.job_events id) = Admin.job_events o settings format r id
  dispatch r Endpoint.get_settings = Admin.get_settings o settings r
  dispatch r (Endpoint.update_settings body) = Admin.update_settings o settings r body
  dispatch r (Endpoint.list_audit_logs limit) = Admin.list_audit_logs o settings r limit

  -- A handler behind the error handler.
  unfoldable pub handle : HttpRequest → Endpoint → Store → Response × Store
  handle r e s = let (result, t) = dispatch r e s in (answer e result, t)

  -- `origin is not None and origin not in settings.cors_origins`
  abbrev pub is_foreign : Option String → Bool
  is_foreign none = false
  is_foreign (some origin) = not (is_in origin settings.cors_origins)

  -- `csrf_protect`: what answers in place of the handler, if anything.
  unfoldable pub csrf_check : HttpRequest → String → Option Response
  csrf_check r method =
      if settings.csrf_enabled && is_in method unsafe_methods
      then (if is_foreign r.origin
          then some (csrf_failed "Запрос отклонён (CSRF)")
          else if not (o.lower r.requested_with == "xmlhttprequest")
          then some (csrf_failed "Нет заголовка X-Requested-With")
          else none)
      else none

  -- A request, through the middleware to the handler.
  unfoldable pub serve : HttpRequest → Endpoint → Store → Response × Store
  serve r e s = elim (csrf_check r (method_of e)) [
    | some response ↦ (response, s)
    | none ↦ handle r e s
  ]
