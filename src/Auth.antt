-- ===== src/Auth.antt =====
-- Login, logout and sessions (backend/app/services/auth_service.py): the cookie holds a raw
-- token, the storage only its hash; login is limited by the recent failures.
pub mod Limit
pub mod Sessions
pub mod Uses
pub mod Login
pub mod Outcome
use vpn_controll_app.Base.{
  ℕ, ◌+◌, ◌-◌, max, Bool, true, false, not, ◌&&◌, ◌||◌, String, Option, none, some, leb, is_some,
  is_empty, is_blank, concat, if◌then◌else◌,
}
use vpn_controll_app.Domain.Json.{Value, str, Fields, end, field}
use vpn_controll_app.Domain.Entities.{User, Session}
use vpn_controll_app.Errors.Code.{ErrorCode}
use vpn_controll_app.Errors.{Error, app, unauthorized}
use vpn_controll_app.Outside.{Outside}
use vpn_controll_app.Settings.{Settings, minutes, days}
use vpn_controll_app.Audit.{log, ClientMeta}
use vpn_controll_app.Storage.State.{Store}
use vpn_controll_app.Storage.Action.{
  Action, ok, err, pure, raise, gets, ask, modify, raise_if, when, skip, ◌>>=◌, ◌>>◌,
}
use vpn_controll_app.Storage.Tables.{
  save_session, get_session_by_token_hash, get_user, get_user_by_login, normalize,
  record_login_failure, count_login_failures, clear_login_failures,
}

-- `f"login:{login}"` and `f"ip:{ip}"`
abbrev pub login_key : String → String
login_key login = concat "login:" login

abbrev pub ip_key : String → String
ip_key ip = concat "ip:" ip

-- `count_login_failures` as a call of the storage.
abbrev pub count_failures : String → ℕ → Action ℕ
count_failures key since s = let (n, t) = count_login_failures key since s in (ok n, t)

-- `if ip: …` for an optional address.
abbrev pub if_ip : {A : Type 0} → Option String → (String → A) → A → A
if_ip none f d = d
if_ip (some ip) f d = if is_empty ip then d else f ip

module _ (o : Outside) (settings : Settings) where
  -- The failures since the window began, by login or by address, whichever are more.
  unfoldable pub recent_attempts : String → Option String → ℕ → Action ℕ
  recent_attempts login ip now = do
    let since = now - minutes settings.login_rate_limit_window_minutes
    attempts ← count_failures (login_key login) since
    if_ip ip (λ a. count_failures (ip_key a) since >>= λ n. pure (max attempts n)) (pure attempts)

  unfoldable pub enforce_rate_limit : String → Option String → ℕ → Action (Unit {0})
  enforce_rate_limit login ip now = do
    attempts ← recent_attempts login ip now
    raise_if (leb settings.login_rate_limit_attempts attempts)
        (app ErrorCode.rate_limited "Слишком много попыток входа — подожди немного" 429)

  -- `user is not None and verify(…)` and `user.is_active`
  unfoldable pub may_enter : Option User → String → Bool
  may_enter none password = false
  may_enter (some u) password = o.verify password u.password_hash && u.is_active

  unfoldable pub reject_login : String → ℕ → ClientMeta → Action (User × String)
  reject_login login now client = do
    modify (record_login_failure (login_key login) now)
    if_ip client.ip (λ a. modify (record_login_failure (ip_key a) now)) skip
    log o "login_failed" none none none (field "login" (str login) end) client
    raise (unauthorized "Неверный логин или пароль")

  unfoldable pub accept_login : User → String → ℕ → ClientMeta → Action (User × String)
  accept_login user login now client = do
    modify (clear_login_failures (login_key login))
    token ← ask o.session_token
    id ← ask o.uuid4
    modify (
        save_session (record {
          id = id;
          user_id = user.id;
          token_hash = o.digest token;
          created_at = now;
          expires_at = now + days settings.session_ttl_days;
          last_seen_at = now;
          user_agent = client.user_agent;
          ip_address = client.ip;
          revoked_at = none;
        }))
    log o "login_success" (some user.id) none none end client
    pure (user, token)

  -- The branch after the look-up and the password check.
  unfoldable pub decide_login :
      Option User → String → String → ℕ → ClientMeta → Action (User × String)
  decide_login none login password now client = reject_login login now client
  decide_login (some user) login password now client =
      if may_enter (some user) password
      then accept_login user login now client
      else reject_login login now client

  unfoldable pub login : String → String → ClientMeta → Action (User × String)
  login given password client = do
    let name = normalize o given
    now ← ask o.clock
    enforce_rate_limit name client.ip now
    user ← gets (get_user_by_login o name)
    decide_login user name password now client

  -- `session is not None and session.revoked_at is None and session.expires_at > now`
  unfoldable pub is_open : ℕ → Session → Bool
  is_open now x = not (is_some x.revoked_at || leb x.expires_at now)

  -- The member behind an open session, if the account is active.
  unfoldable pub touch_session : ℕ → Session → Option User → Action (Option User)
  touch_session now x none = pure none
  touch_session now x (some u) =
      if u.is_active
      then (modify (save_session (record x { last_seen_at = now })) >> pure (some u))
      else pure none

  -- `resolve_session` after the session was looked up and the clock read.
  unfoldable pub resolve_at : ℕ → Option Session → Action (Option User)
  resolve_at now none = pure none
  resolve_at now (some x) =
      if is_open now x then (gets (get_user x.user_id) >>= touch_session now x) else pure none

  unfoldable pub resolve_session : String → Action (Option User)
  unfolding resolve_at touch_session is_open
  resolve_session raw_token = do
    session ← gets (get_session_by_token_hash (o.digest raw_token))
    now ← ask o.clock
    resolve_at now session

  unfoldable pub end_session : Option Session → ClientMeta → Action (Unit {0})
  end_session none client = skip
  end_session (some x) client =
      if is_some x.revoked_at
      then skip
      else (ask o.clock >>= λ now.
          modify (save_session (record x { revoked_at = some now }))
          >> log o "logout" (some x.user_id) none none end client)

  unfoldable pub logout : String → ClientMeta → Action (Unit {0})
  unfolding end_session
  logout raw_token client = do
    session ← gets (get_session_by_token_hash (o.digest raw_token))
    end_session session client
