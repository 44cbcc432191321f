-- ===== src/Storage/State.antt =====
-- `InMemoryStorage.__init__`, the dict of SSH secrets, and the dialogue with the outside.
use vpn_controll_app.Base.{ℕ, String, List}
use vpn_controll_app.Dict.{Dict}
use vpn_controll_app.Domain.Entities.{
  User, Session, ServerNode, Device, DeviceConfigIssue, SupportContribution, SupportSettings,
  SetupJob, SetupJobEvent, AuditLogEntry,
}
use vpn_controll_app.Outside.{AgentRequest}

-- `asked` counts the questions put to the outside, and `wire` lists what was sent to agents,
-- the latest first.
pub record Store : Type 0 where
  pub users : Dict ℕ User
  pub sessions : Dict ℕ Session
  pub server_nodes : Dict ℕ ServerNode
  pub devices : Dict ℕ Device
  pub issues : Dict ℕ DeviceConfigIssue
  pub contributions : List SupportContribution
  pub support_settings : SupportSettings
  pub setup_jobs : Dict ℕ SetupJob
  pub setup_events : Dict ℕ (List SetupJobEvent)
  pub audit : List AuditLogEntry
  pub login_failures : Dict String (List ℕ)
  pub ephemeral_ssh_secrets : Dict ℕ String
  pub asked : ℕ
  pub wire : List AgentRequest
