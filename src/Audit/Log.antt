-- ===== src/Audit/Log.antt =====
-- No audit entry keeps a secret.
use vpn_controll_app.Base.{ℕ, String, Option, List, [], ◌∷◌, ◌++◌, All}
use vpn_controll_app.Domain.Json.{Fields}
use vpn_controll_app.Domain.Entities.{AuditLogEntry}
use vpn_controll_app.Outside.{Outside}
use vpn_controll_app.Storage.State.{Store}
use vpn_controll_app.Storage.Tables.{add_audit_entry}
use vpn_controll_app.Audit.{log, ClientMeta}
use vpn_controll_app.Audit.Redact.{FieldsClean, redact_fields-clean}

-- An entry in whose metadata no field with a sensitive key, at any depth, keeps a value.
abbrev pub IsCleanEntry : Outside → AuditLogEntry → Type 0
IsCleanEntry o x = FieldsClean o.lower x.metadata

All-append {ℓ κ} :
    {A : Type ℓ} (P : A → Type κ) (xs : List A) (x : A) → All P xs → P x → All P (xs ++ (x ∷ []))
All-append P [] x h p = (p, tt)
All-append P (y ∷ ys) x h p = (h.0, All-append P ys x h.1 p)

-- Logging keeps a clean log clean: whatever metadata a service hands over, no value under a
-- sensitive key is stored, at any depth.
pub log-clean :
    (o : Outside) (action : String) (actor : Option ℕ) (target : Option String)
    (target_id : Option ℕ) (metadata : Fields) (client : ClientMeta) (s : Store)
    → All (IsCleanEntry o) s.audit
    → All (IsCleanEntry o) (log o action actor target target_id metadata client s).1.audit
unfolding log add_audit_entry
log-clean o action actor target target_id metadata client s clean =
    All-append (IsCleanEntry o) s.audit _ clean (redact_fields-clean o.lower metadata)
