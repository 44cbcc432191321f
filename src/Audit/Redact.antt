-- ===== src/Audit/Redact.antt =====
-- `_redact` of backend/app/services/audit_service.py, over JSON values.
use vpn_controll_app.Base.{
  Bool, String, ◌||◌, ◌≡◌, refl, true, contains, if◌then◌else◌, Bool-cases, inl, inr,
}
use vpn_controll_app.Domain.Json.{
  Value, null, bool, num, str, arr, obj, Items, nil, cons, Fields, end, field,
}

-- `any(token in key.lower() for token in _SENSITIVE_KEYS)`
unfoldable pub is_sensitive : (String → String) → String → Bool
is_sensitive lower key =
    let k = lower key in
    contains "secret" k
    || contains "password" k
    || contains "ssh_key" k
    || contains "private_key" k
    || contains "config" k
    || contains "vpn_url" k

unfoldable mutual
  pub redact : (String → String) → Value → Value
  redact lower null = null
  redact lower (bool b) = bool b
  redact lower (num n) = num n
  redact lower (str s) = str s
  redact lower (arr xs) = arr (redact_items lower xs)
  redact lower (obj fs) = obj (redact_fields lower fs)

  pub redact_items : (String → String) → Items → Items
  redact_items lower nil = nil
  redact_items lower (cons x xs) = cons (redact lower x) (redact_items lower xs)

  pub redact_fields : (String → String) → Fields → Fields
  redact_fields lower end = end
  redact_fields lower (field k v fs) =
      field k (if is_sensitive lower k then str "[redacted]" else redact lower v)
        (redact_fields lower fs)

-- No field with a sensitive key, at any depth, keeps a value of its own.
abbrev mark : Value
mark = str "[redacted]"

unfoldable mutual
  pub IsClean : (String → String) → Value → Type 0
  IsClean lower null = Unit
  IsClean lower (bool b) = Unit
  IsClean lower (num n) = Unit
  IsClean lower (str s) = Unit
  IsClean lower (arr xs) = AreClean lower xs
  IsClean lower (obj fs) = FieldsClean lower fs

  pub AreClean : (String → String) → Items → Type 0
  AreClean lower nil = Unit
  AreClean lower (cons x xs) = IsClean lower x × AreClean lower xs

  pub FieldsClean : (String → String) → Fields → Type 0
  FieldsClean lower end = Unit
  FieldsClean lower (field k v fs) =
      (is_sensitive lower k ≡ true → v ≡ mark) × IsClean lower v × FieldsClean lower fs

field_clean :
    (lower : String → String) (k : String) (v : Value) (fs : Fields)
    → IsClean lower v
    → FieldsClean lower fs
    → FieldsClean lower (field k (if is_sensitive lower k then mark else v) fs)
unfolding IsClean
field_clean lower k v fs h hs = elim (Bool-cases (is_sensitive lower k)) [
  | inl sensitive ↦ rw sensitive ((λ _. refl), tt, hs)
  | inr plain ↦ rw plain ((λ c. cc), h, hs)
]

mutual
  unfolding redact IsClean

  redact-IsClean : (lower : String → String) (v : Value) → IsClean lower (redact lower v)
  redact-IsClean lower null = tt
  redact-IsClean lower (bool b) = tt
  redact-IsClean lower (num n) = tt
  redact-IsClean lower (str s) = tt
  redact-IsClean lower (arr xs) = redact_items-clean lower xs
  redact-IsClean lower (obj fs) = redact_fields-clean lower fs

  redact_items-clean :
      (lower : String → String) (xs : Items) → AreClean lower (redact_items lower xs)
  redact_items-clean lower nil = tt
  redact_items-clean lower (cons x xs) = (redact-IsClean lower x, redact_items-clean lower xs)

  pub redact_fields-clean :
      (lower : String → String) (fs : Fields) → FieldsClean lower (redact_fields lower fs)
  redact_fields-clean lower end = tt
  redact_fields-clean lower (field k v fs) =
      field_clean lower k (redact lower v) (redact_fields lower fs) (redact-IsClean lower v)
        (redact_fields-clean lower fs)
