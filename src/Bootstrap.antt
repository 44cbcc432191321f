-- ===== src/Bootstrap.antt =====
-- The first administrator: `bootstrap_first_admin` of backend/app/main.py, at every start of the
-- application.
use vpn_controll_app.Base.{
  ℕ, Bool, true, false, String, Option, none, some, [], ◌∷◌, ◌≡◌, refl, arith, Eq, any, inl, inr,
  nat_Eq, Bool-cases, Option-cases, if◌then◌else◌,
}
use vpn_controll_app.Dict.{Dict, insert, values}
use vpn_controll_app.Domain.Status.{UserRole, UserRole_Eq}
use vpn_controll_app.Domain.Json.{end}
use vpn_controll_app.Domain.Entities.{User}
use vpn_controll_app.Outside.{Outside}
use vpn_controll_app.Settings.{Settings}
use vpn_controll_app.Audit.{log, no_client}
use vpn_controll_app.Storage.State.{Store}
use vpn_controll_app.Storage.Action.{Action, ok, pure, ask, modify, ◌>>=◌, ◌>>◌}
use vpn_controll_app.Storage.Tables.{save_user, has_admin, normalize}

abbrev first_admin : Outside → Settings → ℕ → String → ℕ → User
first_admin o settings id password_hash now = record {
  id = id;
  login = normalize o settings.first_admin_login;
  display_name = settings.first_admin_login;
  role = UserRole.admin;
  password_hash = password_hash;
  created_at = now;
  updated_at = now;
  is_active = true;
  telegram_username = none;
  device_limit = none;
  device_limit_unlimited = true;
  show_server_support = false;
  free_access = true;
  note = none;
  created_by_user_id = none;
}

-- `generate_password` is the random text of core/security.py.
module _ (o : Outside) (settings : Settings) (generate_password : ℕ → String) where
  -- `password = settings.first_admin_password`, or a generated one.
  abbrev choose_password : Option String → Action String
  choose_password none = ask generate_password
  choose_password (some password) = pure password

  unfoldable pub create_first_admin : Action (Unit {0})
  create_first_admin = do
    password ← choose_password settings.first_admin_password
    now ← ask o.clock
    id ← ask o.uuid4
    password_hash ← ask (λ n. o.hash n password)
    modify (save_user (first_admin o settings id password_hash now))
    log o "bootstrap_admin_created" none (some "user") (some id) end no_client

  unfoldable pub bootstrap_first_admin : Action (Unit {0})
  unfolding create_first_admin
  bootstrap_first_admin s = if has_admin s then (ok tt, s) else create_first_admin s

any-insert {ℓ κ} :
    {K : Type ℓ} {V : Type κ} ⦃e : Eq K⦄ (p : V → Bool) (k : K) (v : V) (d : Dict K V)
    → p v ≡ true
    → any p (values (insert k v d)) ≡ true
unfolding insert values
any-insert p k v [] h = rw h refl
any-insert p k v ((j, w) ∷ d) h = ground (arith, any-insert p k v d)

module _ (o : Outside) (settings : Settings) (generate_password : ℕ → String) where
  created-has_admin :
      (s : Store) → has_admin (create_first_admin o settings generate_password s).1 ≡ true
  unfolding create_first_admin save_user has_admin log
  created-has_admin s = elim (Option-cases settings.first_admin_password) [
    | inl generated ↦ simp generated (any-insert _ _ _ s.users refl)
    | inr (password, given) ↦ simp given (any-insert _ _ _ s.users refl)
  ]

  has_admin-bootstrap_first_admin :
      (s : Store) → has_admin (bootstrap_first_admin o settings generate_password s).1 ≡ true
  unfolding bootstrap_first_admin
  has_admin-bootstrap_first_admin s = elim (Bool-cases (has_admin s)) [
    | inl present ↦ rw present present
    | inr absent ↦ rw absent (created-has_admin s)
  ]

  present-bootstrap_first_admin :
      (t : Store)
      → has_admin t ≡ true
      → bootstrap_first_admin o settings generate_password t ≡ (ok tt, t)
  unfolding bootstrap_first_admin
  present-bootstrap_first_admin t h = rw h refl

  -- After a start of the application there is an administrator, and another start changes nothing.
  pub bootstrap_first_admin_idem :
      (s : Store)
      → (has_admin (bootstrap_first_admin o settings generate_password s).1 ≡ true)
        × (bootstrap_first_admin o settings generate_password
              (bootstrap_first_admin o settings generate_password s).1
            ≡ (ok tt, (bootstrap_first_admin o settings generate_password s).1))
  bootstrap_first_admin_idem s = (
    has_admin-bootstrap_first_admin s,
    present-bootstrap_first_admin _ (has_admin-bootstrap_first_admin s),
  )
