-- ===== src/Auth/Login.antt =====
-- What `login` gives, and what it refuses.
use vpn_controll_app.Base.{
  ℕ, ap, ◌≡◌, ◌<◌, ◌≤◌, ◌∙◌, ◌+◌, refl, sym, subst, arith, inl, inr, Bool, true, String, Option,
  none, some, List, [], ◌∷◌, All, find, ◌==◌, nat_Eq, string_Eq, leb, Bool-cases, some-injective,
}
use vpn_controll_app.Dict.{lookup, values}
use vpn_controll_app.Dict.Laws.{lookup-insert_self}
use vpn_controll_app.Dict.Distinct.{Distinct, All-values}
use vpn_controll_app.Domain.Entities.{User, Session}
use vpn_controll_app.Errors.{unauthorized}
use vpn_controll_app.Outside.{Outside}
use vpn_controll_app.Settings.{Settings, days}
use vpn_controll_app.Audit.{log, ClientMeta}
use vpn_controll_app.Storage.State.{Store}
use vpn_controll_app.Storage.Action.{Result, ok, err}
use vpn_controll_app.Storage.Tables.{
  save_session, get_user_by_login, normalize, fresh_failures, failures_of, clear_login_failures,
}
use vpn_controll_app.Auth.{
  may_enter, reject_login, accept_login, decide_login, login, resolve_session,
}
use vpn_controll_app.Auth.Limit.{
  failures, recent_attempts_lem, login_refused, login_passed, rate_limited, start,
}
use vpn_controll_app.Auth.Uses.{IsLive, uses, live-resolve_session, uses-IsLive}
use vpn_controll_app.Auth.Sessions.{IsKeyed}

find-All {ℓ κ} :
    {A : Type ℓ} (P : A → Type κ) (p : A → Bool) (xs : List A) (x : A)
    → All P xs
    → find p xs ≡ some x
    → P x × (p x ≡ true)
find-All P p [] x h e = cc
find-All P p (y ∷ ys) x h e = elim (Bool-cases (p y)) [
  | inl passed ↦
      let same = some-injective y x (ground arith) in
      (subst P same h.0, subst (λ z. p z ≡ true) same passed)
  | inr failed ↦ find-All P p ys x h.1 (ground arith)
]

module _ (o : Outside) (settings : Settings) where
  -- A member found by login is the one filed under their id.
  get_user_by_login-get_user :
      (name : String) (s : Store) (user : User)
      → IsKeyed o settings s
      → Distinct s.users
      → get_user_by_login o name s ≡ some user
      → (lookup user.id s.users ≡ some user) × ((user.login == normalize o name) ≡ true)
  unfolding get_user_by_login
  get_user_by_login-get_user name s user keyed once found =
      find-All (λ u. lookup u.id s.users ≡ some u) _ (values s.users) user
        (All-values (λ u. lookup u.id s.users ≡ some u) s.users once
          (λ k u kept. subst (λ j. lookup j s.users ≡ some u) (keyed.by_id k u kept) kept))
        found

  -- With at least as many recent failures of a login as the settings allow, every attempt at that
  -- login is refused with `rate_limited`, the right password included, and no session starts.
  pub login-rate_limited :
      (given password : String) (client : ClientMeta) (s : Store)
      → settings.login_rate_limit_attempts
        ≤ failures o settings (normalize o given) (o.clock s.asked) s
      → let (r, t) = login o settings given password client s in
        (r ≡ err (rate_limited o settings)) × (t.users ≡ s.users) × (t.sessions ≡ s.sessions)
  unfolding fresh_failures failures_of
  login-rate_limited given password client s many =
      let c =
        recent_attempts_lem o settings (normalize o given) client.ip (o.clock s.asked)
          (start o settings s) in
      rw (login_refused o settings given password client s c (omega (arith, many, c.enough)))
        (refl, c.users, c.sessions)

  -- A login that succeeds.
  pub record IsEntry (user : User) (token : String) (password : String) (now : ℕ) (s t : Store)
      : Type 0 where
    pub users : t.users ≡ s.users
    pub verified : o.verify password user.password_hash ≡ true
    pub active : user.is_active ≡ true
    pub session : Session
    pub kept : lookup (o.digest token) t.sessions ≡ some session
    pub keyed : session.token_hash ≡ o.digest token
    pub unrevoked : session.revoked_at ≡ none
    pub given_to : session.user_id ≡ user.id
    pub expires : session.expires_at ≡ now + days settings.session_ttl_days

  -- What holds of the outcome of the password check.
  abbrev pub IsEntryOf : Option User → String → ℕ → Store → Result (User × String) × Store → Type 0
  IsEntryOf found password now s (ok (user, token), t) =
      (found ≡ some user) × IsEntry user token password now s t
  IsEntryOf found password now s (err _, t) = Unit

  reject_login-err :
      (name : String) (now : ℕ) (client : ClientMeta) (s : Store)
      → (reject_login o settings name now client s).0
        ≡ err (unauthorized "Неверный логин или пароль")
  unfolding reject_login log
  reject_login-err name now client s = ground arith

  reject_login-IsEntryOf :
      (found : Option User) (name password : String) (now : ℕ) (client : ClientMeta) (s : Store)
      → IsEntryOf found password now s (reject_login o settings name now client s)
  reject_login-IsEntryOf found name password now client s =
      let (r, t) = reject_login o settings name now client s in
      subst (λ q. IsEntryOf found password now s (q, t)) (sym (reject_login-err name now client s))
        tt

  pub decide_login-IsEntryOf :
      (found : Option User) (name password : String) (now : ℕ) (client : ClientMeta) (s : Store)
      → IsEntryOf found password now s (decide_login o settings found name password now client s)
  unfolding decide_login accept_login may_enter save_session clear_login_failures log
  decide_login-IsEntryOf none name password now client s =
      reject_login-IsEntryOf none name password now client s
  decide_login-IsEntryOf (some u) name password now client s =
      elim (Bool-cases (may_enter o settings (some u) password)) [
        | inl allowed ↦ rw allowed (
          refl,
          record {
            users = refl;
            verified = ground arith;
            active = ground arith;
            session = _;
            kept = lookup-insert_self _ _ s.sessions;
            keyed = refl;
            unrevoked = refl;
            given_to = refl;
            expires = refl;
          },
        )
        | inr refused ↦ rw refused (reject_login-IsEntryOf (some u) name password now client s)
      ]

  entry-IsLive :
      (s c t : Store) (user : User) (token password : String) (now : ℕ)
      → IsEntry user token password now c t
      → c.users ≡ s.users
      → lookup user.id s.users ≡ some user
      → IsLive o settings user token (now + days settings.session_ttl_days) t
  entry-IsLive s c t user token password now p same known = record {
    session = p.session;
    kept = p.kept;
    keyed = p.keyed;
    unrevoked = p.unrevoked;
    given_to = p.given_to;
    expires = p.expires;
    known = ap (lookup user.id) (p.users ∙ same) ∙ known;
    active = p.active;
  }

  -- After a login that succeeds, over members filed once and under their ids: the password is
  -- right, the account is active and has the login that was given, and the token resolves to the
  -- member, however often it was resolved before, until its session runs out.
  pub login-resolve_session :
      (given password : String) (client : ClientMeta) (s t : Store) (user : User) (token : String)
      (n : ℕ)
      → login o settings given password client s ≡ (ok (user, token), t)
      → IsKeyed o settings s
      → Distinct s.users
      → o.clock (uses o settings token n t).asked < o.clock s.asked + days settings.session_ttl_days
      → (o.verify password user.password_hash ≡ true)
        × (user.is_active ≡ true)
        × ((user.login == normalize o (normalize o given)) ≡ true)
        × ((resolve_session o settings token (uses o settings token n t)).0 ≡ ok (some user))
  login-resolve_session given password client s t user token n e keyed once early =
      let name = normalize o given in
      let now = o.clock s.asked in
      let end = now + days settings.session_ttl_days in
      let c = recent_attempts_lem o settings name client.ip now (start o settings s) in
      elim (Bool-cases (leb settings.login_rate_limit_attempts c.n)) [
        | inl many ↦
            let refused = login_refused o settings given password client s c (ground arith) in
            ground arith
        | inr few ↦
            let found = get_user_by_login o name s in
            let passed = login_passed o settings given password client s c (ground arith) in
            let p : IsEntryOf found password now c.t (ok (user, token), t) =
              subst (IsEntryOf found password now c.t) (sym passed ∙ e)
                (decide_login-IsEntryOf found name password now client c.t) in
            let known = get_user_by_login-get_user name s user keyed once p.0 in
            let live = entry-IsLive s c.t t user token password now p.1 c.users known.0 in
            (
              p.1.verified,
              p.1.active,
              known.1,
              live-resolve_session o settings user token end (uses o settings token n t)
                  (uses-IsLive o settings user token end n t live) early,
            )
      ]
