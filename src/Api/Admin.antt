-- ===== src/Api/Admin.antt =====
-- The routes for administrators: backend/app/api/routes/admin_users.py, admin_servers.py,
-- admin_setup_jobs.py, admin_support.py and admin_audit_logs.py.
use vpn_controll_app.Base.{ℕ, Bool, String, some, List, map}
use vpn_controll_app.Domain.Entities.{User, ServerNode, SetupJob}
use vpn_controll_app.Outside.{Outside}
use vpn_controll_app.Settings.{Settings}
use vpn_controll_app.Audit
use vpn_controll_app.Users
use vpn_controll_app.Users.{NewUser}
use vpn_controll_app.Users.Patch.{UserField}
use vpn_controll_app.Servers
use vpn_controll_app.Servers.{NewServer}
use vpn_controll_app.Servers.Patch.{NodeField}
use vpn_controll_app.SetupJobs
use vpn_controll_app.SetupJobs.{NewJob}
use vpn_controll_app.Support
use vpn_controll_app.Support.{NewContribution}
use vpn_controll_app.Support.Patch.{SettingsField}
use vpn_controll_app.Devices.{list_for_user}
use vpn_controll_app.Storage.State.{Store}
use vpn_controll_app.Storage.Tables.{
  list_server_nodes, count_devices_toward_limit, count_active_devices_for_server,
}
use vpn_controll_app.Storage.Jobs.{list_setup_jobs}
use vpn_controll_app.Storage.Action.{Action, pure, gets, ◌>>=◌, ◌>>◌}
use vpn_controll_app.Api.Schemas.{admin_user_out, admin_server_out, AdminServerOut}
use vpn_controll_app.Api.Schemas.Records.{
  contribution_out, support_settings_out, setup_job_out, setup_job_event_out, audit_log_out,
  SetupJobOut,
}
use vpn_controll_app.Api.Request.{HttpRequest, Payload}
use vpn_controll_app.Api.Guards.{as_admin}
use vpn_controll_app.Api.Members.{show_device}

-- `_out` of admin_servers.py
unfoldable pub show_node : Store → ServerNode → AdminServerOut
show_node s node = admin_server_out node (count_active_devices_for_server node.id s)

-- `AdminUserOut.from_domain(user, container.storage.count_devices_toward_limit(user.id))`
abbrev pub show_user : User → Action Payload
show_user user =
    gets (λ s. Payload.admin_user (admin_user_out user (count_devices_toward_limit user.id s)))

abbrev pub reply_node : ServerNode → Action Payload
reply_node node = gets (λ s. Payload.admin_server (show_node s node))

module _ (o : Outside) (settings : Settings) where
  unfoldable pub list_users : HttpRequest → Action Payload
  list_users r = as_admin o settings r λ admin. gets (λ s.
      Payload.admin_users
        (map (λ (p : User × ℕ). admin_user_out p.0 p.1) (Users.list_with_device_counts o s)))

  unfoldable pub create_user : HttpRequest → NewUser → Action Payload
  create_user r body = as_admin o settings r λ admin.
      Users.create o admin body >>= λ user. pure (Payload.admin_user (admin_user_out user 0))

  unfoldable pub get_user : HttpRequest → ℕ → Action Payload
  get_user r user_id = as_admin o settings r λ admin. Users.get o user_id >>= show_user

  unfoldable pub update_user : HttpRequest → ℕ → List UserField → Action Payload
  update_user r user_id body =
      as_admin o settings r λ admin. Users.update o admin user_id body >>= show_user

  unfoldable pub reset_password : HttpRequest → ℕ → String → Action Payload
  reset_password r user_id password =
      as_admin o settings r
        λ admin. Users.reset_password o admin user_id password >> pure Payload.done

  -- `disable_user` and `enable_user`
  unfoldable pub switch_user : HttpRequest → ℕ → Bool → Action Payload
  switch_user r user_id is_active = as_admin o settings r λ admin.
      Users.set_active o admin user_id is_active >>= λ user.
      pure (Payload.admin_user (admin_user_out user 0))

  unfoldable pub user_devices : HttpRequest → ℕ → Action Payload
  user_devices r user_id = as_admin o settings r λ admin.
      Users.get o user_id
      >> gets (λ s. Payload.devices (map (show_device s) (list_for_user user_id s)))

  unfoldable pub user_contributions : HttpRequest → ℕ → Action Payload
  user_contributions r user_id = as_admin o settings r λ admin.
      Support.list_for_user_admin o user_id >>= λ items.
      pure (Payload.contributions (map contribution_out items))

  unfoldable pub record_contribution : HttpRequest → ℕ → NewContribution → Action Payload
  record_contribution r user_id body = as_admin o settings r λ admin.
      Support.record_contribution o admin user_id body >>= λ c.
      pure (Payload.contribution (contribution_out c))

  unfoldable pub list_nodes : HttpRequest → Action Payload
  list_nodes r =
      as_admin o settings r
        λ admin. gets (λ s. Payload.admin_servers (map (show_node s) (list_server_nodes s)))

  unfoldable pub create_node : HttpRequest → NewServer → Action Payload
  create_node r body =
      as_admin o settings r λ admin. Servers.create_manual o admin body >>= reply_node

  unfoldable pub get_node : HttpRequest → ℕ → Action Payload
  get_node r server_id = as_admin o settings r λ admin. Servers.get o server_id >>= reply_node

  unfoldable pub update_node : HttpRequest → ℕ → List NodeField → Action Payload
  update_node r server_id body =
      as_admin o settings r λ admin. Servers.update o admin server_id body >>= reply_node

  unfoldable pub health_check : HttpRequest → ℕ → Action Payload
  health_check r server_id =
      as_admin o settings r λ admin. Servers.health_check o server_id (some admin.id) >>= reply_node

  -- The conversion of each peer by pydantic is left out.
  unfoldable pub server_peers : HttpRequest → ℕ → Action Payload
  server_peers r server_id =
      as_admin o settings r
        λ admin. Servers.agent_peers o server_id >>= λ peers. pure (Payload.peers peers)

  -- `disable_server` and `enable_server`
  unfoldable pub switch_node : HttpRequest → ℕ → Bool → Action Payload
  switch_node r server_id disabled =
      as_admin o settings r λ admin. Servers.set_disabled o admin server_id disabled >>= reply_node

  unfoldable pub get_settings : HttpRequest → Action Payload
  get_settings r =
      as_admin o settings r
        λ admin. gets (λ s. Payload.support_settings (support_settings_out s.support_settings))

  unfoldable pub update_settings : HttpRequest → List SettingsField → Action Payload
  update_settings r body = as_admin o settings r λ admin.
      Support.update_settings o admin body >>= λ x.
      pure (Payload.support_settings (support_settings_out x))

  unfoldable pub list_audit_logs : HttpRequest → ℕ → Action Payload
  list_audit_logs r limit =
      as_admin o settings r
        λ admin. gets (λ s. Payload.audit_logs (map audit_log_out (Audit.list limit s)))

-- `format` is Python's, of the template of an agent's URL at a host.
module _ (o : Outside) (settings : Settings) (format : String → String → String) where
  -- `_out` of admin_setup_jobs.py
  unfoldable pub show_job : SetupJob → SetupJobOut
  show_job job =
      setup_job_out job (format settings.setup_agent_base_url_template job.host)
        settings.setup_agent_allow_ips

  abbrev pub reply_job : SetupJob → Action Payload
  reply_job job = pure (Payload.setup_job (show_job job))

  unfoldable pub create_job : HttpRequest → NewJob → Action Payload
  create_job r body =
      as_admin o settings r
        λ admin. SetupJobs.create o settings.setup_worker_enabled admin body >>= reply_job

  unfoldable pub list_jobs : HttpRequest → Action Payload
  list_jobs r =
      as_admin o settings r
        λ admin. gets (λ s. Payload.setup_jobs (map show_job (list_setup_jobs s)))

  unfoldable pub get_job : HttpRequest → ℕ → Action Payload
  get_job r job_id = as_admin o settings r λ admin. SetupJobs.get o job_id >>= reply_job

  unfoldable pub start_job : HttpRequest → ℕ → Action Payload
  start_job r job_id =
      as_admin o settings r
        λ admin. SetupJobs.start o settings.setup_worker_enabled admin job_id >>= reply_job

  unfoldable pub cancel_job : HttpRequest → ℕ → Action Payload
  cancel_job r job_id = as_admin o settings r λ admin. SetupJobs.cancel o admin job_id >>= reply_job

  unfoldable pub job_events : HttpRequest → ℕ → Action Payload
  job_events r job_id = as_admin o settings r λ admin. SetupJobs.events o job_id >>= λ xs.
      pure (Payload.setup_job_events (map setup_job_event_out xs))
