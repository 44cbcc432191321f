-- ===== src/Auth/Outcome.antt =====
-- Whom `login` lets in, below the limit on failures.
use vpn_controll_app.Base.{
  ℕ, ◌<◌, ◌≡◌, ◌↔◌, ◌∙◌, refl, sym, ap, subst, arith, true, String, Option, some, nat_Eq, string_Eq,
}
use vpn_controll_app.Domain.Entities.{User}
use vpn_controll_app.Outside.{Outside}
use vpn_controll_app.Settings.{Settings}
use vpn_controll_app.Audit.{log, ClientMeta}
use vpn_controll_app.Storage.State.{Store}
use vpn_controll_app.Storage.Action.{Result, ok}
use vpn_controll_app.Storage.Tables.{
  get_user_by_login, normalize, save_session, clear_login_failures,
}
use vpn_controll_app.Auth.{recent_attempts, may_enter, accept_login, decide_login, login}
use vpn_controll_app.Auth.Limit.{recent_attempts_lem, login_passed, start}
use vpn_controll_app.Auth.Login.{IsEntryOf, decide_login-IsEntryOf}

module _ (o : Outside) (settings : Settings) where
  -- The member whom a password check found may enter.
  abbrev pub MayEnter : Option User → String → User → Type 0
  MayEnter found password user =
      (found ≡ some user) × (o.verify password user.password_hash ≡ true) × (user.is_active ≡ true)

  abbrev pub Returns : Result (User × String) → User → Type 0
  Returns r user = (token : String) × (r ≡ ok (user, token))

  entered :
      (found : Option User) (password : String) (now : ℕ) (s : Store)
      (q : Result (User × String) × Store) (user : User)
      → IsEntryOf o settings found password now s q
      → Returns q.0 user
      → MayEnter found password user
  entered found password now s (r, t) user h (token, e) =
      let p : IsEntryOf o settings found password now s (ok (user, token), t) =
        subst (λ z. IsEntryOf o settings found password now s (z, t)) e h in
      (p.0, p.1.verified, p.1.active)

  decide_login-Returns :
      (found : Option User) (name password : String) (now : ℕ) (client : ClientMeta) (s : Store)
      (user : User)
      → MayEnter found password user
      → Returns (decide_login o settings found name password now client s).0 user
  unfolding decide_login may_enter accept_login save_session clear_login_failures log
  decide_login-Returns found name password now client s user (same, right, active) =
      subst (λ f. Returns (decide_login o settings f name password now client s).0 user) (sym same)
        (rw (right, active) (_, refl))

  -- With fewer recent failures of the login and of the address than the settings allow, `login`
  -- returns a member exactly if it is the one with the login, the password is theirs and the
  -- account is active.
  pub login_iff :
      (given password : String) (client : ClientMeta) (s : Store) (n : ℕ) (user : User)
      → (recent_attempts o settings
          (normalize o given)
          client.ip
          (o.clock s.asked)
          (start o settings s)).0
        ≡ ok n
      → n < settings.login_rate_limit_attempts
      → Returns (login o settings given password client s).0 user
        ↔ MayEnter (get_user_by_login o (normalize o given) s) password user
  login_iff given password client s n user counted few =
      let name = normalize o given in
      let now = o.clock s.asked in
      let found = get_user_by_login o name s in
      let c = recent_attempts_lem o settings name client.ip now (start o settings s) in
      let counted_once : ok c.n ≡ ok n =
        sym (ap (λ (q : Result ℕ × Store). q.0) c.counted) ∙ counted in
      let passed =
        login_passed o settings given password client s c (ground (arith, counted_once)) in
      (
        (λ h.
            entered found password now c.t
              (decide_login o settings found name password now client c.t) user
              (decide_login-IsEntryOf o settings found name password now client c.t)
              (subst (λ q. Returns q.0 user) passed h)),
        (λ h.
            subst (λ q. Returns q.0 user) (sym passed)
              (decide_login-Returns found name password now client c.t user h)),
      )
