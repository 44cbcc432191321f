-- ===== src/Auth/Limit.antt =====
-- The limit on failed logins, as `login` meets it.
use vpn_controll_app.Base.{
  ℕ, suc, max, ◌≡◌, ◌<◌, ◌≤◌, ◌∙◌, ◌-◌, refl, arith, inl, inr, String, Option, none, some, length,
  nat_Eq, string_Eq, is_empty, leb, Bool-cases, if◌then◌else◌,
}
use vpn_controll_app.Domain.Entities.{User}
use vpn_controll_app.Errors.Code.{ErrorCode}
use vpn_controll_app.Errors.{Error, app}
use vpn_controll_app.Outside.{Outside}
use vpn_controll_app.Settings.{Settings, minutes}
use vpn_controll_app.Audit.{ClientMeta}
use vpn_controll_app.Storage.State.{Store}
use vpn_controll_app.Storage.Action.{Action, ok, err, bind_ok, bind_err, gets, raise_if, ◌>>=◌}
use vpn_controll_app.Storage.Tables.{
  get_user_by_login, normalize, count_login_failures, fresh_failures,
}
use vpn_controll_app.Auth.{
  login_key, ip_key, recent_attempts, enforce_rate_limit, decide_login, login,
}

module _ (o : Outside) (settings : Settings) where
  -- The start of the window at a moment.
  abbrev pub since : ℕ → ℕ
  since now = now - minutes settings.login_rate_limit_window_minutes

  -- The recent failures of a login, before the limit is enforced.
  abbrev pub failures : String → ℕ → Store → ℕ
  failures name now s = length (fresh_failures (login_key name) (since now) s)

  -- A count of the failures: at least those of the login; nothing but the failures changes.
  pub record IsCount (name : String) (ip : Option String) (now : ℕ) (s : Store) : Type 0 where
    pub n : ℕ
    pub t : Store
    pub counted : recent_attempts o settings name ip now s ≡ (ok n, t)
    pub enough : failures name now s ≤ n
    pub users : t.users ≡ s.users
    pub sessions : t.sessions ≡ s.sessions
    pub asked : t.asked ≡ s.asked

  pub recent_attempts_lem :
      (name : String) (ip : Option String) (now : ℕ) (s : Store) → IsCount name ip now s
  unfolding recent_attempts count_login_failures
  recent_attempts_lem name none now s = record {
    n = _;
    t = _;
    counted = refl;
    enough = omega arith;
    users = refl;
    sessions = refl;
    asked = refl;
  }
  recent_attempts_lem name (some a) now s = elim (Bool-cases (is_empty a)) [
    | inl blank ↦ record {
      n = failures name now s;
      t = (count_login_failures (login_key name) (since now) s).1;
      counted = simp blank refl;
      enough = omega arith;
      users = refl;
      sessions = refl;
      asked = refl;
    }
    | inr real ↦
        let (n, t) = count_login_failures (login_key name) (since now) s in
        let (m, u) = count_login_failures (ip_key a) (since now) t in
        record {
          n = max n m;
          t = u;
          counted = simp real refl;
          enough = ground arith;
          users = refl;
          sessions = refl;
          asked = refl;
        }
  ]

  abbrev pub rate_limited : Error
  rate_limited = app ErrorCode.rate_limited "Слишком много попыток входа — подожди немного" 429

  enforce_rate_limit_lem :
      (name : String) (ip : Option String) (now : ℕ) (s : Store) (c : IsCount name ip now s)
      → enforce_rate_limit o settings name ip now s
        ≡ ((if leb settings.login_rate_limit_attempts c.n then err rate_limited else ok tt), c.t)
  unfolding enforce_rate_limit
  enforce_rate_limit_lem name ip now s c =
      bind_ok (recent_attempts o settings name ip now)
        (λ attempts. raise_if (leb settings.login_rate_limit_attempts attempts) rate_limited) s
        c.counted

  -- The calls of `login` after the limit.
  abbrev after_limit : String → String → ℕ → ClientMeta → Action (User × String)
  after_limit name password now client = gets (get_user_by_login o name) >>= λ user.
      decide_login o settings user name password now client

  -- The state in which `login` looks at the failures.
  abbrev pub start : Store → Store
  start s = record s { asked = suc s.asked }

  pub login_refused :
      (given password : String) (client : ClientMeta) (s : Store)
      (c : IsCount (normalize o given) client.ip (o.clock s.asked) (start s))
      → settings.login_rate_limit_attempts ≤ c.n
      → login o settings given password client s ≡ (err rate_limited, c.t)
  unfolding login
  login_refused given password client s c many =
      bind_err (enforce_rate_limit o settings (normalize o given) client.ip (o.clock s.asked))
        (λ _. after_limit (normalize o given) password (o.clock s.asked) client) (start s)
        (enforce_rate_limit_lem (normalize o given) client.ip (o.clock s.asked) (start s) c
          ∙ ground arith)

  pub login_passed :
      (given password : String) (client : ClientMeta) (s : Store)
      (c : IsCount (normalize o given) client.ip (o.clock s.asked) (start s))
      → c.n < settings.login_rate_limit_attempts
      → login o settings given password client s
        ≡ decide_login o settings
            (get_user_by_login o (normalize o given) s)
            (normalize o given)
            password
            (o.clock s.asked)
            client
            c.t
  unfolding login get_user_by_login
  login_passed given password client s c few =
      let allowed : (
        (if leb settings.login_rate_limit_attempts c.n then err rate_limited else ok tt),
        c.t,
      )
          ≡ (ok tt, c.t) =
        ground arith in
      bind_ok (enforce_rate_limit o settings (normalize o given) client.ip (o.clock s.asked))
        (λ _. after_limit (normalize o given) password (o.clock s.asked) client) (start s)
        (enforce_rate_limit_lem (normalize o given) client.ip (o.clock s.asked) (start s) c
          ∙ allowed)
      ∙ simp c.users refl
