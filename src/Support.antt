-- ===== src/Support.antt =====
-- "Support the server" (backend/app/services/support_service.py): a history of contributions
-- and the global settings.
pub mod Patch
use vpn_controll_app.Base.{
  ℕ, Bool, true, false, not, ◌&&◌, String, Option, none, some, List, [], ◌∷◌, if◌then◌else◌,
}
use vpn_controll_app.Domain.Json.{Value, null, bool, num, str, arr, Fields, end, field}
use vpn_controll_app.Domain.Entities.{User, SupportContribution, SupportSettings}
use vpn_controll_app.Outside.{Outside}
use vpn_controll_app.Audit.{log, no_client}
use vpn_controll_app.Users
use vpn_controll_app.Users.Patch.{names}
use vpn_controll_app.Storage.State.{Store}
use vpn_controll_app.Storage.Action.{Action, pure, gets, ask, modify, ◌>>=◌, ◌>>◌}
use vpn_controll_app.Storage.Tables.{
  add_contribution, save_support_settings, list_contributions_for_user,
}
use Patch.{SettingsField, patch_settings}

unfoldable pub visible_for : User → Store → Bool
visible_for user s =
    s.support_settings.is_enabled && user.show_server_support && not user.free_access

abbrev pub opt_str : Option String → Value
opt_str none = null
opt_str (some t) = str t

abbrev pub opt_num : Option ℕ → Value
opt_num none = null
opt_num (some n) = num n

unfoldable pub view_for : User → Store → Fields
unfolding visible_for
view_for user s =
    if visible_for user s
    then field "visible" (bool true) (
        field "title" (str x.title) (
          field "description" (str x.description) (
            field "sbp_phone" (opt_str x.sbp_phone) (
              field "bank_name" (opt_str x.bank_name) (
                field "extra_contact" (opt_str x.extra_contact) (
                  field "monthly_cost_amount" (opt_num x.monthly_cost_amount)
                    (field "reserve_amount" (opt_num x.reserve_amount) end)))))))
    else field "visible" (bool false) end
  where
    x : SupportSettings
    x = s.support_settings

unfoldable pub history_for : User → Store → Bool × List SupportContribution
unfolding visible_for
history_for user s =
    if visible_for user s then (true, list_contributions_for_user user.id s) else (false, [])

-- The arguments of `record` that come from the request.
pub record NewContribution : Type 0 where
  pub amount : ℕ
  pub currency : String
  pub period_label : Option String
  pub comment : Option String

module _ (o : Outside) where
  unfoldable pub list_for_user_admin : ℕ → Action (List SupportContribution)
  list_for_user_admin user_id = do
    user ← Users.get o user_id
    gets (list_contributions_for_user user_id)

  -- `SupportService.record`
  unfoldable pub record_contribution : User → ℕ → NewContribution → Action SupportContribution
  record_contribution actor user_id new = do
    user ← Users.get o user_id
    now ← ask o.clock
    id ← ask o.uuid4
    let contribution : SupportContribution = record {
      id = id;
      user_id = user.id;
      amount = new.amount;
      currency = new.currency;
      recorded_by_user_id = actor.id;
      recorded_at = now;
      created_at = now;
      period_label = new.period_label;
      comment = new.comment;
    }
    modify (add_contribution contribution)
    log o "support_contribution_recorded" (some actor.id) (some "user") (some user.id)
        (field "amount" (num new.amount)
          (field "currency" (str new.currency) (field "period" (opt_str new.period_label) end)))
        no_client
    pure contribution

  unfoldable pub save_settings : User → SupportSettings → List String → Action SupportSettings
  save_settings actor settings [] = pure settings
  save_settings actor settings (name ∷ rest) = do
    now ← ask o.clock
    let saved : SupportSettings = record settings {
      updated_by_user_id = some actor.id;
      updated_at = some now;
    }
    modify (save_support_settings saved)
    log o "support_settings_updated" (some actor.id) (some "support_settings") none
        (field "changed" (arr (names (name ∷ rest))) end) no_client
    pure saved

  unfoldable pub update_settings : User → List SettingsField → Action SupportSettings
  unfolding save_settings
  update_settings actor patch = do
    settings ← gets (λ s. s.support_settings)
    let (patched, changed) = patch_settings patch settings
    save_settings actor patched changed
