-- ===== src/Api/Csrf.antt =====
-- What the CSRF check of the middleware rests on: a request that it lets pass unseen, one with a
-- safe method, changes nothing that matters.
use vpn_controll_app.Base.{
  ℕ, true, false, String, Option, ◌≡◌, refl, ◌⊎◌, inl, inr, arith, some, none, Bool-cases,
  Option-cases, ◌==◌, string_Eq,
}
use vpn_controll_app.Domain.Entities.{User, Device, DeviceConfigIssue}
use vpn_controll_app.Outside.{Outside}
use vpn_controll_app.Settings.{Settings}
use vpn_controll_app.Storage.State.{Store}
use vpn_controll_app.Storage.Action.{Action, Result, ok, err, pure, gets, ◌>>=◌}
use vpn_controll_app.Agent.Frame.{peers-OnlyAsked}
use vpn_controll_app.Auth.{resolve_session, resolve_at, touch_session, is_open}
use vpn_controll_app.Storage.Tables.{
  save_session, save_issue, drop_issue, get_issue, get_server_node,
}
use vpn_controll_app.Devices
use vpn_controll_app.Servers
use vpn_controll_app.SetupJobs
use vpn_controll_app.Support
use vpn_controll_app.Users
use vpn_controll_app.Api.Request.{Endpoint, HttpRequest, Payload, method_of}
use vpn_controll_app.Api.Members
use vpn_controll_app.Api.Admin
use vpn_controll_app.Api.Guards.{as_user, as_admin, get_current_user, get_current_admin}
use vpn_controll_app.Api.{dispatch, handle, csrf_check, serve, is_in, unsafe_methods, is_foreign}

-- Members, nodes, devices, contributions, settings, setup jobs with their events and secrets, and
-- the login failures are as they were.
abbrev pub Kept : Store → Store → Type 0
Kept s t = t ≡ record s {
  sessions = t.sessions;
  issues = t.issues;
  audit = t.audit;
  asked = t.asked;
  wire = t.wire;
}

Kept-trans : (s t u : Store) → Kept s t → Kept t u → Kept s u
Kept-trans s t u p q = ground arith

-- A chain of calls keeps what each of them keeps.
module _ {ℓ κ} {A : Type ℓ} {B : Type κ} where
  result-Kept :
      (s : Store) (p : Result A × Store) (f : A → Action B)
      → Kept s p.1
      → ((a : A) (t : Store) → Kept t (f a t).1)
      → Kept s (elim p.0 as (λ _. Result B × Store) [ ok a ↦ f a p.1 | err e ↦ (err e, p.1) ]).1
  result-Kept s (ok a, t) f kept keeps = Kept-trans s t _ kept (keeps a t)
  result-Kept s (err e, t) f kept keeps = kept

  bind-Kept :
      (m : Action A) (f : A → Action B) (s : Store)
      → Kept s (m s).1
      → ((a : A) (t : Store) → Kept t (f a t).1)
      → Kept s ((m >>= f) s).1
  bind-Kept m f s kept keeps = result-Kept s (m s) f kept keeps

module _ (o : Outside) (settings : Settings) where
  -- A handler keeps what matters, whoever calls it.
  abbrev Keeps : (User → Action Payload) → Type 0
  Keeps h = (user : User) (s : Store) → Kept s (h user s).1

  get_current_user-Kept : (r : HttpRequest) (s : Store) → Kept s (get_current_user o settings r s).1
  unfolding get_current_user resolve_session resolve_at touch_session is_open save_session
  get_current_user-Kept r s = ground arith

  get_current_admin-Kept :
      (r : HttpRequest) (s : Store) → Kept s (get_current_admin o settings r s).1
  unfolding get_current_admin get_current_user resolve_session resolve_at touch_session is_open
      save_session
  get_current_admin-Kept r s = ground arith

  as_user-Kept :
      (r : HttpRequest) (h : User → Action Payload) (s : Store)
      → Keeps h
      → Kept s (as_user o settings r h s).1
  unfolding as_user
  as_user-Kept r h s keeps =
      bind-Kept (get_current_user o settings r) h s (get_current_user-Kept r s) keeps

  as_admin-Kept :
      (r : HttpRequest) (h : User → Action Payload) (s : Store)
      → Keeps h
      → Kept s (as_admin o settings r h s).1
  unfolding as_admin
  as_admin-Kept r h s keeps =
      bind-Kept (get_current_admin o settings r) h s (get_current_admin-Kept r s) keeps

  read_stored-Kept :
      (device : Device) (issue : Option DeviceConfigIssue) (s : Store)
      → Kept s (Devices.read_stored o settings device issue s).1
  unfolding Devices.read_stored Devices.mark_consumed save_issue drop_issue
  read_stored-Kept device none s = refl
  read_stored-Kept device (some issue) s = ground arith

  get_for_actor-Kept :
      (user : User) (id : ℕ) (s : Store) → Kept s (Devices.get_for_actor user id s).1
  unfolding Devices.get_for_actor
  get_for_actor-Kept user id s = ground arith

  issue_result-Kept :
      (user : User) (id : ℕ) (s : Store) → Kept s (Devices.issue_result o settings user id s).1
  unfolding Devices.issue_result
  issue_result-Kept user id s =
      bind-Kept (Devices.get_for_actor user id)
        (λ device. gets (get_issue device.id) >>= Devices.read_stored o settings device) s
        (get_for_actor-Kept user id s)
        (λ device t. read_stored-Kept device (get_issue device.id t) t)

  agent_peers-Kept : (id : ℕ) (s : Store) → Kept s (Servers.agent_peers o id s).1
  unfolding Servers.agent_peers Servers.get
  agent_peers-Kept id s = elim (Option-cases (get_server_node id s)) [
    | inl absent ↦ ground arith
    | inr (node, known) ↦ ground (arith, peers-OnlyAsked o node s)
  ]

module _ (o : Outside) (settings : Settings) (format : String → String → String) where
  dispatch-Kept :
      (r : HttpRequest) (e : Endpoint) (s : Store)
      → is_in (method_of e) unsafe_methods ≡ false
      → Kept s (dispatch o settings format r e s).1
  unfolding dispatch method_of Devices.get_for_actor Users.get Servers.get SetupJobs.get
      SetupJobs.events Support.list_for_user_admin Members.session Members.me Members.dashboard
      Members.list_devices Members.get_device Members.issue_result Members.list_servers
      Members.get_server Members.support_view Members.support_history Admin.list_users
      Admin.get_user Admin.user_devices Admin.user_contributions Admin.list_nodes Admin.get_node
      Admin.server_peers Admin.list_jobs Admin.get_job Admin.job_events Admin.get_settings
      Admin.list_audit_logs
  dispatch-Kept r Endpoint.health s h = refl
  dispatch-Kept r (Endpoint.login given password) s h = cc
  dispatch-Kept r Endpoint.logout s h = cc
  dispatch-Kept r (Endpoint.create_device name server) s h = cc
  dispatch-Kept r (Endpoint.revoke_device id) s h = cc
  dispatch-Kept r (Endpoint.create_user body) s h = cc
  dispatch-Kept r (Endpoint.update_user id body) s h = cc
  dispatch-Kept r (Endpoint.reset_password id password) s h = cc
  dispatch-Kept r (Endpoint.disable_user id) s h = cc
  dispatch-Kept r (Endpoint.enable_user id) s h = cc
  dispatch-Kept r (Endpoint.record_contribution id body) s h = cc
  dispatch-Kept r (Endpoint.create_node body) s h = cc
  dispatch-Kept r (Endpoint.update_node id body) s h = cc
  dispatch-Kept r (Endpoint.health_check id) s h = cc
  dispatch-Kept r (Endpoint.disable_node id) s h = cc
  dispatch-Kept r (Endpoint.enable_node id) s h = cc
  dispatch-Kept r (Endpoint.create_job body) s h = cc
  dispatch-Kept r (Endpoint.start_job id) s h = cc
  dispatch-Kept r (Endpoint.cancel_job id) s h = cc
  dispatch-Kept r (Endpoint.update_settings body) s h = cc
  dispatch-Kept r Endpoint.session s h = as_user-Kept o settings r _ s (λ u t. refl)
  dispatch-Kept r Endpoint.me s h = as_user-Kept o settings r _ s (λ u t. refl)
  dispatch-Kept r Endpoint.dashboard s h = as_user-Kept o settings r _ s (λ u t. refl)
  dispatch-Kept r Endpoint.list_devices s h = as_user-Kept o settings r _ s (λ u t. refl)
  dispatch-Kept r (Endpoint.get_device id) s h = as_user-Kept o settings r _ s (λ u t. ground arith)
  dispatch-Kept r (Endpoint.issue_result id) s h = as_user-Kept o settings r _ s (λ u t.
      bind-Kept (Devices.issue_result o settings u id) (λ x. pure (Payload.issue x)) t
        (issue_result-Kept o settings u id t) (λ _ _. refl))
  dispatch-Kept r Endpoint.list_servers s h = as_user-Kept o settings r _ s (λ u t. refl)
  dispatch-Kept r (Endpoint.get_server id) s h = as_user-Kept o settings r _ s (λ u t. ground arith)
  dispatch-Kept r Endpoint.support_view s h = as_user-Kept o settings r _ s (λ u t. refl)
  dispatch-Kept r Endpoint.support_history s h = as_user-Kept o settings r _ s (λ u t. refl)
  dispatch-Kept r Endpoint.list_users s h = as_admin-Kept o settings r _ s (λ u t. refl)
  dispatch-Kept r (Endpoint.get_user id) s h = as_admin-Kept o settings r _ s (λ u t. ground arith)
  dispatch-Kept r (Endpoint.user_devices id) s h =
      as_admin-Kept o settings r _ s (λ u t. ground arith)
  dispatch-Kept r (Endpoint.user_contributions id) s h =
      as_admin-Kept o settings r _ s (λ u t. ground arith)
  dispatch-Kept r Endpoint.list_nodes s h = as_admin-Kept o settings r _ s (λ u t. refl)
  dispatch-Kept r (Endpoint.get_node id) s h = as_admin-Kept o settings r _ s (λ u t. ground arith)
  dispatch-Kept r (Endpoint.server_peers id) s h = as_admin-Kept o settings r _ s (λ u t.
      bind-Kept (Servers.agent_peers o id) (λ x. pure (Payload.peers x)) t
        (agent_peers-Kept o settings id t) (λ _ _. refl))
  dispatch-Kept r Endpoint.list_jobs s h = as_admin-Kept o settings r _ s (λ u t. refl)
  dispatch-Kept r (Endpoint.get_job id) s h = as_admin-Kept o settings r _ s (λ u t. ground arith)
  dispatch-Kept r (Endpoint.job_events id) s h =
      as_admin-Kept o settings r _ s (λ u t. ground arith)
  dispatch-Kept r Endpoint.get_settings s h = as_admin-Kept o settings r _ s (λ u t. refl)
  dispatch-Kept r (Endpoint.list_audit_logs limit) s h =
      as_admin-Kept o settings r _ s (λ u t. refl)

  -- Where the check is on, a request that changes a member, a node, a device, a contribution, the
  -- settings of the support, a setup job or its secret, or the count of failed logins, came with the
  -- header X-Requested-With of a script, and from no other origin than the allowed ones.
  pub serve-csrf :
      (r : HttpRequest) (e : Endpoint) (s : Store)
      → settings.csrf_enabled ≡ true
      → Kept s (serve o settings format r e s).1
        ⊎ ((is_foreign o settings format r.origin ≡ false)
            × (o.lower r.requested_with ≡ "xmlhttprequest"))
  unfolding serve handle csrf_check
  serve-csrf r e s on = elim (Bool-cases (is_in (method_of e) unsafe_methods)) [
    | inr safe ↦ inl (rw (serve, safe, on) (dispatch-Kept r e s safe))
    | inl unsafe ↦ elim (Bool-cases (is_foreign o settings format r.origin)) [
      | inl foreign ↦ inl (rw (serve, unsafe, on, foreign) refl)
      | inr near ↦ elim (Bool-cases (o.lower r.requested_with == "xmlhttprequest")) [
        | inl sent ↦ inr (near, (string_Eq.is_equal_iff _ _).0 sent)
        | inr missing ↦ inl (rw (serve, unsafe, on, near, missing) refl)
      ]
    ]
  ]
