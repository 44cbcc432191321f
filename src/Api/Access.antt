-- ===== src/Api/Access.antt =====
-- The routes below `/admin` serve administrators only.
use vpn_controll_app.Base.{
  ℕ, ap, sym, true, ◌==◌, some, ◌≡◌, refl, arith, ◌⊎◌, inl, inr, nat_Eq, is_blank, string_Eq,
  Bool-cases, Option-cases,
}
use vpn_controll_app.Dict.{lookup, insert}
use vpn_controll_app.Domain.Status.{UserRole, UserRole_Eq}
use vpn_controll_app.Domain.Entities.{User, Session}
use vpn_controll_app.Errors.{Error, AppError, app_error}
use vpn_controll_app.Outside.{Outside}
use vpn_controll_app.Settings.{Settings}
use vpn_controll_app.Storage.State.{Store}
use vpn_controll_app.Storage.Tables.{save_session}
use vpn_controll_app.Storage.Action.{Action, Result, ok, err}
use vpn_controll_app.Agent.{text_or_empty}
use vpn_controll_app.Auth.{resolve_session, resolve_at, touch_session, is_open}
use vpn_controll_app.Auth.Sessions.{IsOpen, IsKeyed}
use vpn_controll_app.Api.Request.{HttpRequest, Payload}
use vpn_controll_app.Api.Guards.{cookie_token, get_current_user, get_current_admin, as_admin}

module _ (o : Outside) (settings : Settings) where
  -- The request's cookie is the token of an open session of an active administrator.
  pub record IsFromAdmin (r : HttpRequest) (s : Store) : Type 0 where
    pub session : Session
    pub admin : User
    pub opened : IsOpen o settings (text_or_empty (cookie_token o settings r)) session s
    pub known : lookup session.user_id s.users ≡ some admin
    pub active : admin.is_active ≡ true
    pub role : admin.role ≡ UserRole.admin

  -- Nothing has changed but when one session was seen last.
  abbrev pub IsTouched : Store → Store → Type 0
  IsTouched s t =
      (t ≡ record s { sessions = t.sessions; asked = t.asked })
      × ((t.sessions ≡ s.sessions)
          ⊎ ((k : ℕ) × (x : Session) × (now : ℕ) × (lookup k s.sessions ≡ some x)
              × (t.sessions ≡ insert k (record x { last_seen_at = now }) s.sessions)))

  -- A session that is saved with a new time is the one that was found.
  touched_lem :
      (k : ℕ) (x : Session) (now : ℕ) (s : Store)
      → IsKeyed o settings s
      → lookup k s.sessions ≡ some x
      → (insert x.token_hash (record x { last_seen_at = now }) s.sessions)
        ≡ (insert k (record x { last_seen_at = now }) s.sessions)
  touched_lem k x now s keyed kept =
      ap (λ i. insert i (record x { last_seen_at = now }) s.sessions)
        (sym (keyed.by_token k x kept))

  get_current_admin_frame :
      (r : HttpRequest) (s : Store)
      → let t = (get_current_admin o settings r s).1 in
        t ≡ record s { sessions = t.sessions; asked = t.asked }
  unfolding get_current_admin get_current_user resolve_session resolve_at touch_session is_open
      save_session
  get_current_admin_frame r s = ground arith

  get_current_admin-IsTouched :
      (r : HttpRequest) (s : Store)
      → IsKeyed o settings s
      → IsTouched s (get_current_admin o settings r s).1
  unfolding get_current_admin get_current_user resolve_session resolve_at touch_session is_open
      save_session
  get_current_admin-IsTouched r s keyed = (
    get_current_admin_frame r s,
    elim (Bool-cases (is_blank (cookie_token o settings r))) [
      | inl blank ↦ inl (ground arith)
      | inr given ↦
          let token = text_or_empty (cookie_token o settings r) in
          elim (Option-cases (lookup (o.digest token) s.sessions)) [
            | inl absent ↦ inl (ground arith)
            | inr (x, kept) ↦ elim (Bool-cases (is_open o settings (o.clock s.asked) x)) [
              | inr closed ↦ inl (ground arith)
              | inl opened ↦ elim (Option-cases (lookup x.user_id s.users)) [
                | inl gone ↦ inl (ground arith)
                | inr (u, known) ↦ elim (Bool-cases u.is_active) [
                  | inr inactive ↦ inl (ground arith)
                  | inl active ↦
                      let now = o.clock s.asked in
                      let k = o.digest token in
                      inr (k, x, now, kept, ground (arith, touched_lem k x now s keyed kept))
                ]
              ]
            ]
          ]
    ],
  )

  -- Unauthorized, or forbidden.
  abbrev IsDenied : Result User → Type 0
  IsDenied (ok u) = ⊥
  IsDenied (err (app_error exc)) = (exc.status ≡ 401) ⊎ (exc.status ≡ 403)
  IsDenied (err _) = ⊥

  get_current_admin_cases :
      (r : HttpRequest) (s : Store)
      → IsFromAdmin r s ⊎ IsDenied (get_current_admin o settings r s).0
  unfolding get_current_admin get_current_user resolve_session resolve_at touch_session is_open
      save_session
  get_current_admin_cases r s = elim (Bool-cases (is_blank (cookie_token o settings r))) [
    | inl blank ↦ inr (rw blank (inl refl))
    | inr given ↦
        elim (Option-cases
          (lookup (o.digest (text_or_empty (cookie_token o settings r))) s.sessions)) [
            | inl absent ↦ inr (ground arith)
            | inr (x, kept) ↦ elim (Bool-cases (is_open o settings (o.clock s.asked) x)) [
              | inr closed ↦ inr (ground arith)
              | inl opened ↦ elim (Option-cases (lookup x.user_id s.users)) [
                | inl gone ↦ inr (ground arith)
                | inr (u, known) ↦ elim (Bool-cases u.is_active) [
                  | inr inactive ↦ inr (ground arith)
                  | inl active ↦ elim (Bool-cases (u.role == UserRole.admin)) [
                    | inr member ↦ inr (ground arith)
                    | inl admin ↦ inl (record {
                      session = x;
                      admin = u;
                      opened = record {
                        kept = kept;
                        unrevoked = ground arith;
                        unexpired = ground arith;
                      };
                      known = known;
                      active = active;
                      role = ground arith;
                    })
                  ]
                ]
              ]
            ]
          ]
  ]

  -- A call that an administrator made, or that was refused and has changed nothing.
  abbrev pub Guarded {ℓ} : {A : Type ℓ} → HttpRequest → Store → Result A × Store → Type ℓ
  Guarded {A} r s p =
      IsFromAdmin r s
      ⊎ ((exc : AppError) × (p.0 ≡ err (app_error exc))
          × ((exc.status ≡ 401) ⊎ (exc.status ≡ 403))
          × IsTouched s p.1)

  denied-Guarded :
      (r : HttpRequest) (s : Store) (p : Result User × Store) (handler : User → Action Payload)
      → IsDenied p.0
      → IsTouched s p.1
      → Guarded r s (elim p.0 as (λ _. Result Payload × Store) [
        | ok a ↦ handler a p.1
        | err e ↦ (err e, p.1)
      ])
  denied-Guarded r s (err (app_error exc), t) handler d touched = inr (exc, refl, d, touched)
  denied-Guarded r s (ok u, t) handler d touched = absurd d
  denied-Guarded r s (err (Error.setup_step_error _), t) handler d touched = absurd d
  denied-Guarded r s (err (Error.value_error _), t) handler d touched = absurd d
  denied-Guarded r s (err (Error.key_error _), t) handler d touched = absurd d
  denied-Guarded r s (err Error.attribute_error, t) handler d touched = absurd d

  pub as_admin-Guarded :
      (r : HttpRequest) (handler : User → Action Payload) (s : Store)
      → IsKeyed o settings s
      → Guarded r s (as_admin o settings r handler s)
  unfolding as_admin
  as_admin-Guarded r handler s keyed = elim (get_current_admin_cases r s) [
    | inl admin ↦ inl admin
    | inr denied ↦
        denied-Guarded r s (get_current_admin o settings r s) handler denied
          (get_current_admin-IsTouched r s keyed)
  ]
