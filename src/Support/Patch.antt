-- ===== src/Support/Patch.antt =====
-- The patch of the support settings: the loop of `SupportService.update_settings`. A pair of a
-- field's name and a value is a constructor; `other` is a name outside `_SETTINGS_PATCHABLE`.
use vpn_controll_app.Base.{
  ℕ, Bool, true, false, not, ◌&&◌, String, Option, List, [], ◌∷◌, ◌++◌, ◌==◌, nat_Eq, bool_Eq,
  string_Eq, option_Eq, if◌then◌else◌,
}
use vpn_controll_app.Domain.Entities.{SupportSettings}

pub data SettingsField : Type 0 where
  title description other : String → SettingsField
  sbp_phone bank_name extra_contact : Option String → SettingsField
  monthly_cost_amount reserve_amount : Option ℕ → SettingsField
  is_enabled : Bool → SettingsField

unfoldable pub is_patchable : SettingsField → Bool
is_patchable (SettingsField.other _) = false
is_patchable _ = true

abbrev pub field_name : SettingsField → String
field_name (SettingsField.title _) = "title"
field_name (SettingsField.description _) = "description"
field_name (SettingsField.other name) = name
field_name (SettingsField.sbp_phone _) = "sbp_phone"
field_name (SettingsField.bank_name _) = "bank_name"
field_name (SettingsField.extra_contact _) = "extra_contact"
field_name (SettingsField.monthly_cost_amount _) = "monthly_cost_amount"
field_name (SettingsField.reserve_amount _) = "reserve_amount"
field_name (SettingsField.is_enabled _) = "is_enabled"

unfoldable pub has : SupportSettings → SettingsField → Bool
has x (SettingsField.title v) = x.title == v
has x (SettingsField.description v) = x.description == v
has x (SettingsField.other v) = false
has x (SettingsField.sbp_phone v) = x.sbp_phone == v
has x (SettingsField.bank_name v) = x.bank_name == v
has x (SettingsField.extra_contact v) = x.extra_contact == v
has x (SettingsField.monthly_cost_amount v) = x.monthly_cost_amount == v
has x (SettingsField.reserve_amount v) = x.reserve_amount == v
has x (SettingsField.is_enabled v) = x.is_enabled == v

unfoldable pub assign : SettingsField → SupportSettings → SupportSettings
assign (SettingsField.title v) x = record x { title = v }
assign (SettingsField.description v) x = record x { description = v }
assign (SettingsField.other v) x = x
assign (SettingsField.sbp_phone v) x = record x { sbp_phone = v }
assign (SettingsField.bank_name v) x = record x { bank_name = v }
assign (SettingsField.extra_contact v) x = record x { extra_contact = v }
assign (SettingsField.monthly_cost_amount v) x = record x { monthly_cost_amount = v }
assign (SettingsField.reserve_amount v) x = record x { reserve_amount = v }
assign (SettingsField.is_enabled v) x = record x { is_enabled = v }

unfoldable pub patch_step :
    SettingsField → SupportSettings × List String → SupportSettings × List String
patch_step f (x, changed) =
    if is_patchable f && not (has x f)
    then (assign f x, changed ++ (field_name f ∷ []))
    else (x, changed)

unfoldable pub patch_from :
    List SettingsField → SupportSettings × List String → SupportSettings × List String
patch_from [] acc = acc
patch_from (f ∷ fs) acc = patch_from fs (patch_step f acc)

unfoldable pub patch_settings : List SettingsField → SupportSettings → SupportSettings × List String
patch_settings fs x = patch_from fs (x, [])
