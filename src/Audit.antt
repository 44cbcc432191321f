-- ===== src/Audit.antt =====
-- The audit log (backend/app/services/audit_service.py): metadata is redacted before it is kept.
pub mod Redact
pub mod Log
pub mod Paths
use vpn_controll_app.Base.{ℕ, String, Option, none, List}
use vpn_controll_app.Domain.Json.{Fields}
use vpn_controll_app.Domain.Entities.{AuditLogEntry}
use vpn_controll_app.Outside.{Outside}
use vpn_controll_app.Storage.State.{Store}
use vpn_controll_app.Storage.Action.{Action, ask, modify, ◌>>=◌, ◌>>◌}
use vpn_controll_app.Storage.Tables.{add_audit_entry, list_audit_entries}
use Redact.{redact_fields}

-- The request that an audited action belongs to: the client's address and browser.
pub record ClientMeta : Type 0 where
  pub ip : Option String
  pub user_agent : Option String

-- `AuditService.log`; an argument that a caller leaves out is `none` or `{}`.
unfoldable pub log :
    Outside → String → Option ℕ → Option String → Option ℕ → Fields → ClientMeta → Action (Unit {0})
unfolding add_audit_entry
log o action actor_user_id target_type target_id metadata client = do
  id ← ask o.uuid4
  now ← ask o.clock
  modify (
      add_audit_entry (record {
        id = id;
        action = action;
        created_at = now;
        actor_user_id = actor_user_id;
        target_type = target_type;
        target_id = target_id;
        metadata = redact_fields o.lower metadata;
        ip_address = client.ip;
        user_agent = client.user_agent;
      }))

-- `AuditService.list`
unfoldable pub list : ℕ → Store → List AuditLogEntry
list limit = list_audit_entries limit

-- A caller that passes neither address nor browser.
abbrev pub no_client : ClientMeta
no_client = record { ip = none; user_agent = none }
