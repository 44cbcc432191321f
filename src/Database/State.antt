-- ===== src/Database/State.antt =====
-- The tables of the database (backend/app/db/models.py). A row with the same columns as its entity
-- is the entity.
use vpn_controll_app.Base.{ℕ, String, Option, List}
use vpn_controll_app.Domain.Entities.{
  Session, DeviceConfigIssue, SupportContribution, SupportSettings, AuditLogEntry,
}
use vpn_controll_app.Database.Rows.{UserRow, DeviceRow, SetupJobEventRow}
use vpn_controll_app.Database.Rows.Nodes.{ServerNodeRow, SetupJobRow}

pub record LoginFailureRow : Type 0 where
  pub key : String
  pub attempted_at : ℕ

-- `support_settings` is the row with id 1, if it is there.
pub record Tables : Type 0 where
  pub users : List UserRow
  pub sessions : List Session
  pub server_nodes : List ServerNodeRow
  pub devices : List DeviceRow
  pub issues : List DeviceConfigIssue
  pub contributions : List SupportContribution
  pub support_settings : Option SupportSettings
  pub setup_jobs : List SetupJobRow
  pub setup_events : List SetupJobEventRow
  pub audit : List AuditLogEntry
  pub login_failures : List LoginFailureRow
