-- ===== src/Api/Admins.antt =====
-- A request to a route below `/admin` is made by an administrator, or refused.
use vpn_controll_app.Base.{
  true, String, ◌≡◌, refl, ◌⊎◌, inl, inr, some, some-injective, subst, Bool-cases, Option-cases,
  ◌&&◌, ◌==◌, string_Eq,
}
use text.Mathlib.Text.{starts_with}
use vpn_controll_app.Errors.{AppError, app_error, handle_app_error}
use vpn_controll_app.Outside.{Outside}
use vpn_controll_app.Settings.{Settings}
use vpn_controll_app.Storage.State.{Store}
use vpn_controll_app.Storage.Action.{Result, err}
use vpn_controll_app.Auth.Sessions.{IsKeyed}
use vpn_controll_app.Api.Request.{Endpoint, HttpRequest, Payload, Response, method_of, prefix_of}
use vpn_controll_app.Api.Admin
use vpn_controll_app.Api.Access.{IsFromAdmin, IsTouched, Guarded, as_admin-Guarded}
use vpn_controll_app.Api.{
  dispatch, handle, answer, csrf_check, serve, is_in, unsafe_methods, is_foreign,
}

-- An answer that refuses: unauthorized, or forbidden.
abbrev pub IsRefusal : Response → Type 0
IsRefusal (Response.error status _) = (status ≡ 401) ⊎ (status ≡ 403)
IsRefusal _ = ⊥

module _ (o : Outside) (settings : Settings) (format : String → String → String) where
  dispatch-Guarded :
      (r : HttpRequest) (e : Endpoint) (s : Store)
      → starts_with (prefix_of e) "/admin" ≡ true
      → IsKeyed o settings s
      → Guarded o settings r s (dispatch o settings format r e s)
  unfolding dispatch prefix_of Admin.list_users Admin.create_user Admin.get_user Admin.update_user
      Admin.reset_password Admin.switch_user Admin.user_devices Admin.user_contributions
      Admin.record_contribution Admin.list_nodes Admin.create_node Admin.get_node Admin.update_node
      Admin.health_check Admin.server_peers Admin.switch_node Admin.create_job Admin.list_jobs
      Admin.get_job Admin.start_job Admin.cancel_job Admin.job_events Admin.get_settings
      Admin.update_settings Admin.list_audit_logs
  dispatch-Guarded r Endpoint.health s h keyed = cc
  dispatch-Guarded r (Endpoint.login given password) s h keyed = cc
  dispatch-Guarded r Endpoint.logout s h keyed = cc
  dispatch-Guarded r Endpoint.session s h keyed = cc
  dispatch-Guarded r Endpoint.me s h keyed = cc
  dispatch-Guarded r Endpoint.dashboard s h keyed = cc
  dispatch-Guarded r Endpoint.list_devices s h keyed = cc
  dispatch-Guarded r (Endpoint.create_device name server) s h keyed = cc
  dispatch-Guarded r (Endpoint.get_device id) s h keyed = cc
  dispatch-Guarded r (Endpoint.revoke_device id) s h keyed = cc
  dispatch-Guarded r (Endpoint.issue_result id) s h keyed = cc
  dispatch-Guarded r Endpoint.list_servers s h keyed = cc
  dispatch-Guarded r (Endpoint.get_server id) s h keyed = cc
  dispatch-Guarded r Endpoint.support_view s h keyed = cc
  dispatch-Guarded r Endpoint.support_history s h keyed = cc
  dispatch-Guarded r Endpoint.list_users s h keyed = as_admin-Guarded o settings r _ s keyed
  dispatch-Guarded r (Endpoint.create_user body) s h keyed = as_admin-Guarded o settings r _ s keyed
  dispatch-Guarded r (Endpoint.get_user id) s h keyed = as_admin-Guarded o settings r _ s keyed
  dispatch-Guarded r (Endpoint.update_user id body) s h keyed =
      as_admin-Guarded o settings r _ s keyed
  dispatch-Guarded r (Endpoint.reset_password id password) s h keyed =
      as_admin-Guarded o settings r _ s keyed
  dispatch-Guarded r (Endpoint.disable_user id) s h keyed = as_admin-Guarded o settings r _ s keyed
  dispatch-Guarded r (Endpoint.enable_user id) s h keyed = as_admin-Guarded o settings r _ s keyed
  dispatch-Guarded r (Endpoint.user_devices id) s h keyed = as_admin-Guarded o settings r _ s keyed
  dispatch-Guarded r (Endpoint.user_contributions id) s h keyed =
      as_admin-Guarded o settings r _ s keyed
  dispatch-Guarded r (Endpoint.record_contribution id body) s h keyed =
      as_admin-Guarded o settings r _ s keyed
  dispatch-Guarded r Endpoint.list_nodes s h keyed = as_admin-Guarded o settings r _ s keyed
  dispatch-Guarded r (Endpoint.create_node body) s h keyed = as_admin-Guarded o settings r _ s keyed
  dispatch-Guarded r (Endpoint.get_node id) s h keyed = as_admin-Guarded o settings r _ s keyed
  dispatch-Guarded r (Endpoint.update_node id body) s h keyed =
      as_admin-Guarded o settings r _ s keyed
  dispatch-Guarded r (Endpoint.health_check id) s h keyed = as_admin-Guarded o settings r _ s keyed
  dispatch-Guarded r (Endpoint.server_peers id) s h keyed = as_admin-Guarded o settings r _ s keyed
  dispatch-Guarded r (Endpoint.disable_node id) s h keyed = as_admin-Guarded o settings r _ s keyed
  dispatch-Guarded r (Endpoint.enable_node id) s h keyed = as_admin-Guarded o settings r _ s keyed
  dispatch-Guarded r (Endpoint.create_job body) s h keyed = as_admin-Guarded o settings r _ s keyed
  dispatch-Guarded r Endpoint.list_jobs s h keyed = as_admin-Guarded o settings r _ s keyed
  dispatch-Guarded r (Endpoint.get_job id) s h keyed = as_admin-Guarded o settings r _ s keyed
  dispatch-Guarded r (Endpoint.start_job id) s h keyed = as_admin-Guarded o settings r _ s keyed
  dispatch-Guarded r (Endpoint.cancel_job id) s h keyed = as_admin-Guarded o settings r _ s keyed
  dispatch-Guarded r (Endpoint.job_events id) s h keyed = as_admin-Guarded o settings r _ s keyed
  dispatch-Guarded r Endpoint.get_settings s h keyed = as_admin-Guarded o settings r _ s keyed
  dispatch-Guarded r (Endpoint.update_settings body) s h keyed =
      as_admin-Guarded o settings r _ s keyed
  dispatch-Guarded r (Endpoint.list_audit_logs limit) s h keyed =
      as_admin-Guarded o settings r _ s keyed

  answer-IsRefusal :
      (e : Endpoint) (result : Result Payload) (exc : AppError)
      → result ≡ err (app_error exc)
      → (exc.status ≡ 401) ⊎ (exc.status ≡ 403)
      → IsRefusal (answer e result)
  unfolding answer handle_app_error
  answer-IsRefusal e result exc failed denied = rw failed denied

  pub handle-Guarded :
      (r : HttpRequest) (e : Endpoint) (s : Store)
      → starts_with (prefix_of e) "/admin" ≡ true
      → IsKeyed o settings s
      → IsFromAdmin o settings r s
        ⊎ (IsRefusal (handle o settings format r e s).0
            × IsTouched o settings s (handle o settings format r e s).1)
  unfolding handle
  handle-Guarded r e s below keyed = elim (dispatch-Guarded r e s below keyed) [
    | inl admin ↦ inl admin
    | inr (exc, failed, denied, touched) ↦ inr (answer-IsRefusal e _ exc failed denied, touched)
  ]

  -- What the middleware answers is a refusal.
  csrf_check-IsRefusal :
      (r : HttpRequest) (method : String) (x : Response)
      → csrf_check o settings format r method ≡ some x
      → IsRefusal x
  unfolding csrf_check
  csrf_check-IsRefusal r method x e =
      elim (Bool-cases (settings.csrf_enabled && is_in method unsafe_methods)) [
        | inr off ↦ cc
        | inl on ↦ elim (Bool-cases (is_foreign o settings format r.origin)) [
          | inl foreign ↦
              subst IsRefusal (some-injective _ x (rw on at (rw foreign at e))) (inr refl)
          | inr near ↦ elim (Bool-cases (o.lower r.requested_with == "xmlhttprequest")) [
            | inl sent ↦ cc
            | inr missing ↦
                subst IsRefusal (some-injective _ x (rw on at (rw near at (rw missing at e))))
                  (inr refl)
          ]
        ]
      ]

  -- A request to a route below /admin carries the cookie of an open session of an active
  -- administrator, or it is answered with 401 or 403 and changes nothing but when one session
  -- was seen last, over sessions filed under the hash of their token.
  pub serve-admins_only :
      (r : HttpRequest) (e : Endpoint) (s : Store)
      → starts_with (prefix_of e) "/admin" ≡ true
      → IsKeyed o settings s
      → IsFromAdmin o settings r s
        ⊎ (IsRefusal (serve o settings format r e s).0
            × IsTouched o settings s (serve o settings format r e s).1)
  unfolding serve handle csrf_check
  serve-admins_only r e s below keyed =
      elim (Option-cases (csrf_check o settings format r (method_of e))) [
        | inl passed ↦ rw (passed, serve) (handle-Guarded r e s below keyed)
        | inr (x, stopped) ↦
            rw (stopped, serve)
              (inr (csrf_check-IsRefusal r (method_of e) x stopped, (refl, inl refl)))
      ]
