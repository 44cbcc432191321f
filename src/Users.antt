-- ===== src/Users.antt =====
-- Members (backend/app/services/user_service.py): an administrator creates and manages them.
pub mod Patch
pub mod Manage
pub mod Logins
pub mod Calls
use vpn_controll_app.Base.{
  ℕ, Bool, true, false, not, ◌&&◌, String, Option, none, some, List, [], ◌∷◌, map, ◌==◌, nat_Eq,
  bool_Eq, if◌then◌else◌, is_some, strip,
}
use vpn_controll_app.Domain.Status.{UserRole, role_value}
use vpn_controll_app.Domain.Json.{Value, str, arr, Items, Fields, end, field}
use vpn_controll_app.Domain.Entities.{User}
use vpn_controll_app.Errors.Code.{ErrorCode}
use vpn_controll_app.Errors.{Error, app, not_found}
use vpn_controll_app.Outside.{Outside}
use vpn_controll_app.Audit.{log, no_client}
use vpn_controll_app.Storage.State.{Store}
use vpn_controll_app.Storage.Action.{
  Action, pure, gets, or_raise, ask, modify, raise_if, when, ◌>>=◌, ◌>>◌,
}
use vpn_controll_app.Storage.Tables.{
  save_user, get_user, get_user_by_login, list_users, normalize, revoke_sessions_for_user,
  count_devices_toward_limit,
}
use Patch.{UserField, patch_user, names}

-- The arguments of `create` that come from the request.
pub record NewUser : Type 0 where
  pub login : String
  pub display_name : String
  pub password : String
  pub role : UserRole
  pub telegram_username : Option String
  pub device_limit : Option ℕ
  pub device_limit_unlimited : Bool
  pub show_server_support : Bool
  pub free_access : Bool
  pub note : Option String

module _ (o : Outside) where
  unfoldable pub get : ℕ → Action User
  get user_id = do or_raise (← gets (get_user user_id)) (not_found "Участник не найден")

  unfoldable pub list_with_device_counts : Store → List (User × ℕ)
  list_with_device_counts s = map (λ u. (u, count_devices_toward_limit u.id s)) (list_users s)

  unfoldable pub create : User → NewUser → Action User
  create actor new = do
    let login = normalize o new.login
    raise_if (is_some (← gets (get_user_by_login o login)))
        (app ErrorCode.validation_error "Логин уже занят" 409)
    now ← ask o.clock
    id ← ask o.uuid4
    password_hash ← ask (λ n. o.hash n new.password)
    let user : User = record {
      id = id;
      login = login;
      display_name = strip new.display_name;
      role = new.role;
      password_hash = password_hash;
      created_at = now;
      updated_at = now;
      is_active = true;
      telegram_username = new.telegram_username;
      device_limit = new.device_limit;
      device_limit_unlimited = new.device_limit_unlimited;
      show_server_support = new.show_server_support;
      free_access = new.free_access;
      note = new.note;
      created_by_user_id = some actor.id;
    }
    modify (save_user user)
    log o "user_created" (some actor.id) (some "user") (some id)
        (field "login" (str login) (field "role" (str (role_value new.role)) end)) no_client
    pure user

  -- Save what a patch changed; `changed` lists the fields, and is empty where nothing differs.
  unfoldable pub save_changes : User → User → List String → Action User
  save_changes actor user [] = pure user
  save_changes actor user (name ∷ rest) = do
    now ← ask o.clock
    let saved : User = record user { updated_at = now }
    modify (save_user saved)
    log o "user_updated" (some actor.id) (some "user") (some user.id)
        (field "changed" (arr (names (name ∷ rest))) end) no_client
    pure saved

  unfoldable pub update : User → ℕ → List UserField → Action User
  update actor user_id patch = do
    user ← get user_id
    let (patched, changed) = patch_user patch user
    save_changes actor patched changed

  unfoldable pub reset_password : User → ℕ → String → Action (Unit {0})
  reset_password actor user_id new_password = do
    user ← get user_id
    password_hash ← ask (λ n. o.hash n new_password)
    now ← ask o.clock
    modify (save_user (record user { password_hash = password_hash; updated_at = now }))
    later ← ask o.clock
    modify (revoke_sessions_for_user user.id later)
    log o "user_password_reset" (some actor.id) (some "user") (some user.id) end no_client

  -- The branch of `set_active` in which the flag changes.
  unfoldable pub switch_active : User → User → Bool → Action User
  switch_active actor user is_active = do
    now ← ask o.clock
    let saved : User = record user { is_active = is_active; updated_at = now }
    modify (save_user saved)
    when (not is_active) (ask o.clock >>= λ later. modify (revoke_sessions_for_user user.id later))
    log o (if is_active then "user_enabled" else "user_disabled") (some actor.id) (some "user")
        (some user.id) end no_client
    pure saved

  unfoldable pub set_active : User → ℕ → Bool → Action User
  set_active actor user_id is_active = do
    user ← get user_id
    raise_if (user.id == actor.id && not is_active)
        (app ErrorCode.validation_error "Нельзя отключить самого себя" 400)
    if user.is_active == is_active then pure user else switch_active actor user is_active
