-- ===== src/Tests/Accounts.antt =====
-- The theorems about accounts, sessions and the audit log at concrete inputs.
use vpn_controll_app.Base.{
  List, ◌↔◌, nat_Eq, string_Eq, ◌<◌, ◌≡◌, ◌==◌, ◌+◌, ◌*◌, refl, arith, none, some, String, true,
  false, [], ◌∷◌, All, strip, contains,
}
use vpn_controll_app.Base.Strip.{strip_idem}
use vpn_controll_app.Dict.{lookup, insert, values}
use vpn_controll_app.Domain.Status.{UserRole}
use vpn_controll_app.Domain.Json.{Value, str, arr, obj, nil, cons, end, field}
use vpn_controll_app.Domain.Entities.{User, Session}
use vpn_controll_app.Errors.Code.{ErrorCode}
use vpn_controll_app.Errors.{app}
use vpn_controll_app.Storage.State.{Store}
use vpn_controll_app.Storage.Action.{Result, ok, err}
use vpn_controll_app.Storage.Tables.{
  save_session, clear_login_failures, count_login_failures, normalize, get_user_by_login,
  fresh_failures, failures_of,
}
use vpn_controll_app.Audit.{log}
use vpn_controll_app.Audit.Redact.{is_sensitive, redact}
use vpn_controll_app.Audit.Paths.{Step, look, look-redact}
use vpn_controll_app.Audit.Log.{IsCleanEntry, log-clean}
use vpn_controll_app.Auth.{
  enforce_rate_limit, recent_attempts, decide_login, may_enter, accept_login, login, logout,
  resolve_session, resolve_at, touch_session, is_open,
}
use vpn_controll_app.Auth.Sessions.{
  IsKeyed, IsOpen, resolve_session-only_if, logout-resolve_session, reset_password-resolve_session,
  set_active-resolve_session,
}
use vpn_controll_app.Auth.Uses.{uses}
use vpn_controll_app.Auth.Login.{login-rate_limited, login-resolve_session}
use vpn_controll_app.Auth.Outcome.{MayEnter, Returns, login_iff}
use vpn_controll_app.Users
use vpn_controll_app.Users.{NewUser}
use vpn_controll_app.Users.Patch.{
  UserField, patch_user, patch_from, patch_step, is_patchable, has, assign,
}
use vpn_controll_app.Users.Manage.{IsStored, update-IsSamePerson}
use vpn_controll_app.Users.Calls.{Call, IsValid, run, run-unique_logins}
use vpn_controll_app.Tests.Sample.{outside, settings, member, admin, session, store, client}

pub keyed : IsKeyed outside settings store
unfolding lookup
keyed = record { by_token = λ k x h. ground arith; by_id = λ k u h. ground arith }

-- Ann logs in.
abbrev entered : Result (User × String) × Store
entered = login outside settings " ann" "pw" client store

entered_ok : entered ≡ (ok (member, "token"), entered.1)
unfolding login enforce_rate_limit recent_attempts count_login_failures fresh_failures failures_of
    lookup insert normalize strip decide_login get_user_by_login values may_enter accept_login log
entered_ok = refl

-- The token is used twice before.
abbrev used : Store
used = uses outside settings "token" 2 entered.1

used_early : outside.clock used.asked < 100 + 30 * 86400000000
unfolding login enforce_rate_limit recent_attempts count_login_failures fresh_failures failures_of
    lookup insert normalize strip decide_login get_user_by_login values may_enter accept_login log
    save_session clear_login_failures resolve_session resolve_at touch_session is_open
used_early = omega arith

login_example :
    ((outside.verify "pw" member.password_hash) ≡ true)
    × (member.is_active ≡ true)
    × ((member.login == normalize outside (normalize outside " ann")) ≡ true)
    × ((resolve_session outside settings "token" used).0 ≡ ok (some member))
unfolding lookup
login_example =
    login-resolve_session outside settings " ann" "pw" client store entered.1 member "token" 2
      entered_ok keyed (refl, (refl, tt)) used_early

abbrev tired : Store
tired = record store { login_failures = ("login:ann", 90 ∷ 95 ∷ []) ∷ [] }

login_iff_example :
    Returns outside settings (login outside settings "ann" "pw" client store).0 member
    ↔ MayEnter outside settings
        (get_user_by_login outside (normalize outside "ann") store)
        "pw"
        member
unfolding recent_attempts count_login_failures fresh_failures failures_of lookup normalize strip
    insert
login_iff_example = login_iff outside settings "ann" "pw" client store 0 member refl (omega arith)

rate_limited_example :
    let (r, t) = login outside settings "ann" "pw" client tired in
    (r ≡ err (app ErrorCode.rate_limited "Слишком много попыток входа — подожди немного" 429))
    × (t.users ≡ store.users)
    × (t.sessions ≡ store.sessions)
unfolding fresh_failures failures_of lookup normalize strip
rate_limited_example = login-rate_limited outside settings "ann" "pw" client tired (omega arith)

only_if_example :
    (x : Session) × IsOpen outside settings "token" x store
    × (lookup x.user_id store.users ≡ some member)
    × (member.is_active ≡ true)
unfolding resolve_session lookup
only_if_example =
    resolve_session-only_if outside settings "token" store
      (resolve_session outside settings "token" store).1 member refl

logout_example :
    (resolve_session outside settings "token" (logout outside settings "token" client store).1).0
    ≡ ok none
logout_example = logout-resolve_session outside settings "token" client store keyed

reset_password_example :
    (resolve_session outside settings "token"
      (Users.reset_password outside admin 1 "new" store).1).0
    ≡ ok none
unfolding lookup Users.reset_password Users.get log
reset_password_example =
    reset_password-resolve_session outside settings admin 1 "new" "token" session store
      (Users.reset_password outside admin 1 "new" store).1 refl keyed refl refl

abbrev off : User
off = record member { is_active = false; updated_at = 100 }

set_active_example :
    (resolve_session outside settings "token" (Users.set_active outside admin 1 false store).1).0
    ≡ ok none
unfolding lookup Users.set_active Users.get Users.switch_active log
set_active_example =
    set_active-resolve_session outside settings admin off 1 "token" session store
      (Users.set_active outside admin 1 false store).1 refl keyed refl refl

abbrev patched : User
patched = record member { note = some "vip"; updated_at = 100 }

abbrev patch : List UserField
patch =
    UserField.note (some "vip")
    ∷ UserField.login "root"
    ∷ UserField.created_by_user_id (some 9)
    ∷ []

update_example : IsStored outside member patched store (Users.update outside admin 1 patch store).1
unfolding lookup Users.update Users.get Users.save_changes patch_user patch_from patch_step
    is_patchable has assign log
update_example =
    update-IsSamePerson outside admin member patched patch store
      (Users.update outside admin 1 patch store).1 refl refl

abbrev newcomer : NewUser
newcomer = record {
  login = "Bob";
  display_name = "Bob";
  password = "pw";
  role = UserRole.user;
  telegram_username = none;
  device_limit = none;
  device_limit_unlimited = false;
  show_server_support = true;
  free_access = false;
  note = none;
}

-- A state with one administrator.
abbrev alone : Store
alone = record store { users = (2, admin) ∷ [] }

valid : IsValid alone
unfolding lookup
valid = record { unique = λ j k u v p q e. ground arith; by_id = λ k u h. ground arith }

unique_logins_example : IsValid (
    run outside
      ((admin, Call.create newcomer)
        ∷ (admin, Call.create newcomer)
        ∷ (admin, Call.set_active 2 false)
        ∷ [])
      alone)
unfolding normalize
unique_logins_example =
    run-unique_logins outside
      ((admin, Call.create newcomer)
        ∷ (admin, Call.create newcomer)
        ∷ (admin, Call.set_active 2 false)
        ∷ [])
      alone (λ name. strip_idem name) valid

clean_example :
    All
      (IsCleanEntry outside)
      (log outside "x" none none none (field "password" (str "pw") end) client store).1.audit
clean_example =
    log-clean outside "x" none none none (field "password" (str "pw") end) client store tt

-- A password two levels below the metadata, in a list.
abbrev metadata : Value
metadata = obj (field "hosts" (arr (cons (obj (field "ssh_password" (str "pw") end)) nil)) end)

redact_example :
    look
      (Step.key "hosts" ∷ Step.index 0 ∷ Step.key "ssh_password" ∷ [])
      (redact outside.lower metadata)
    ≡ some (str "[redacted]")
unfolding is_sensitive contains
redact_example =
    look-redact outside.lower (Step.key "hosts" ∷ Step.index 0 ∷ Step.key "ssh_password" ∷ [])
      metadata
