-- ===== src/Users/Patch.antt =====
-- The patch of a member: `for field_name, value in patch.items()` in `UserService.update`. A
-- pair of a field's name and a value is a constructor, one for each field of `User`; `other` is a name that `User` lacks.
use vpn_controll_app.Base.{
  ℕ, Bool, true, false, not, ◌&&◌, String, Option, List, [], ◌∷◌, ◌++◌, ◌==◌, nat_Eq, bool_Eq,
  string_Eq, option_Eq, if◌then◌else◌,
}
use vpn_controll_app.Domain.Status.{UserRole, UserRole_Eq}
use vpn_controll_app.Domain.Json.{str, Items, nil, cons}
use vpn_controll_app.Domain.Entities.{User}

pub data UserField : Type 0 where
  display_name login password_hash other : String → UserField
  telegram_username note : Option String → UserField
  role : UserRole → UserField
  device_limit : Option ℕ → UserField
  device_limit_unlimited show_server_support free_access is_active : Bool → UserField
  id created_at updated_at : ℕ → UserField
  created_by_user_id : Option ℕ → UserField

-- `field_name in _PATCHABLE_FIELDS`
unfoldable pub is_patchable : UserField → Bool
is_patchable (UserField.display_name _) = true
is_patchable (UserField.telegram_username _) = true
is_patchable (UserField.role _) = true
is_patchable (UserField.device_limit _) = true
is_patchable (UserField.device_limit_unlimited _) = true
is_patchable (UserField.show_server_support _) = true
is_patchable (UserField.free_access _) = true
is_patchable (UserField.note _) = true
is_patchable _ = false

abbrev pub field_name : UserField → String
field_name (UserField.display_name _) = "display_name"
field_name (UserField.login _) = "login"
field_name (UserField.password_hash _) = "password_hash"
field_name (UserField.other name) = name
field_name (UserField.telegram_username _) = "telegram_username"
field_name (UserField.note _) = "note"
field_name (UserField.role _) = "role"
field_name (UserField.device_limit _) = "device_limit"
field_name (UserField.device_limit_unlimited _) = "device_limit_unlimited"
field_name (UserField.show_server_support _) = "show_server_support"
field_name (UserField.free_access _) = "free_access"
field_name (UserField.is_active _) = "is_active"
field_name (UserField.id _) = "id"
field_name (UserField.created_at _) = "created_at"
field_name (UserField.updated_at _) = "updated_at"
field_name (UserField.created_by_user_id _) = "created_by_user_id"

-- `getattr(user, field_name) == value`
unfoldable pub has : User → UserField → Bool
has u (UserField.display_name v) = u.display_name == v
has u (UserField.login v) = u.login == v
has u (UserField.password_hash v) = u.password_hash == v
has u (UserField.other v) = false
has u (UserField.telegram_username v) = u.telegram_username == v
has u (UserField.note v) = u.note == v
has u (UserField.role v) = u.role == v
has u (UserField.device_limit v) = u.device_limit == v
has u (UserField.device_limit_unlimited v) = u.device_limit_unlimited == v
has u (UserField.show_server_support v) = u.show_server_support == v
has u (UserField.free_access v) = u.free_access == v
has u (UserField.is_active v) = u.is_active == v
has u (UserField.id v) = u.id == v
has u (UserField.created_at v) = u.created_at == v
has u (UserField.updated_at v) = u.updated_at == v
has u (UserField.created_by_user_id v) = u.created_by_user_id == v

-- `setattr(user, field_name, value)`
unfoldable pub assign : UserField → User → User
assign (UserField.display_name v) u = record u { display_name = v }
assign (UserField.login v) u = record u { login = v }
assign (UserField.password_hash v) u = record u { password_hash = v }
assign (UserField.other v) u = u
assign (UserField.telegram_username v) u = record u { telegram_username = v }
assign (UserField.note v) u = record u { note = v }
assign (UserField.role v) u = record u { role = v }
assign (UserField.device_limit v) u = record u { device_limit = v }
assign (UserField.device_limit_unlimited v) u = record u { device_limit_unlimited = v }
assign (UserField.show_server_support v) u = record u { show_server_support = v }
assign (UserField.free_access v) u = record u { free_access = v }
assign (UserField.is_active v) u = record u { is_active = v }
assign (UserField.id v) u = record u { id = v }
assign (UserField.created_at v) u = record u { created_at = v }
assign (UserField.updated_at v) u = record u { updated_at = v }
assign (UserField.created_by_user_id v) u = record u { created_by_user_id = v }

-- One round of the loop, on the member and the names changed so far.
unfoldable pub patch_step : UserField → User × List String → User × List String
patch_step f (u, changed) =
    if is_patchable f && not (has u f)
    then (assign f u, changed ++ (field_name f ∷ []))
    else (u, changed)

unfoldable pub patch_from : List UserField → User × List String → User × List String
patch_from [] acc = acc
patch_from (f ∷ fs) acc = patch_from fs (patch_step f acc)

unfoldable pub patch_user : List UserField → User → User × List String
patch_user fs u = patch_from fs (u, [])

-- A list of texts as a JSON array.
abbrev pub names : List String → Items
names [] = nil
names (x ∷ xs) = cons (str x) (names xs)
