-- ===== src/Auth/Sessions.antt =====
-- Who a session token stands for: `resolve_session` after a login, a logout, a new password and
-- a switched-off account.
use vpn_controll_app.Base.{
  ℕ, suc, ◌≡◌, ◌<◌, arith, inl, inr, true, false, String, none, some, nat_Eq, is_some, Bool-cases,
  Option-cases,
}
use vpn_controll_app.Dict.{lookup}
use vpn_controll_app.Dict.Laws.{AllValues, lookup-insert_self, lookup-map_values, equal_self}
use vpn_controll_app.Domain.Entities.{User, Session}
use vpn_controll_app.Outside.{Outside}
use vpn_controll_app.Settings.{Settings}
use vpn_controll_app.Audit.{log, ClientMeta}
use vpn_controll_app.Storage.State.{Store}
use vpn_controll_app.Storage.Action.{ok}
use vpn_controll_app.Storage.Tables.{
  save_session, save_user, revoke_sessions_for_user, revoke_if_open,
}
use vpn_controll_app.Auth.{is_open, touch_session, resolve_at, resolve_session, end_session, logout}
use vpn_controll_app.Users

module _ (o : Outside) (settings : Settings) where
  -- The session of a token is there, is not revoked and has not run out.
  pub record IsOpen (raw_token : String) (x : Session) (s : Store) : Type 0 where
    pub kept : lookup (o.digest raw_token) s.sessions ≡ some x
    pub unrevoked : x.revoked_at ≡ none
    pub unexpired : o.clock s.asked < x.expires_at

  -- A token resolves to a member only if its session is open at that moment and the member it was
  -- given to has an active account.
  pub resolve_session-only_if :
      (raw_token : String) (s t : Store) (user : User)
      → resolve_session o settings raw_token s ≡ (ok (some user), t)
      → (x : Session) × IsOpen raw_token x s
        × (lookup x.user_id s.users ≡ some user)
        × (user.is_active ≡ true)
  unfolding resolve_session resolve_at touch_session is_open
  resolve_session-only_if raw_token s t user e =
      elim (Option-cases (lookup (o.digest raw_token) s.sessions)) [
        | inl absent ↦ ground arith
        | inr (x, kept) ↦ (
          x,
          record { kept = kept; unrevoked = ground arith; unexpired = ground arith },
          ground arith,
          ground arith,
        )
      ]

  pub resolve_session-if :
      (raw_token : String) (s : Store) (user : User) (x : Session)
      → IsOpen raw_token x s
      → lookup x.user_id s.users ≡ some user
      → user.is_active ≡ true
      → (resolve_session o settings raw_token s).0 ≡ ok (some user)
  unfolding resolve_session resolve_at touch_session is_open
  resolve_session-if raw_token s user x valid known active =
      ground (arith, valid.kept, valid.unrevoked, valid.unexpired)

  -- No member behind a revoked session.
  revoked_lem :
      (raw_token : String) (s : Store)
      → ((x : Session)
          → lookup (o.digest raw_token) s.sessions ≡ some x
          → is_some x.revoked_at ≡ true)
      → (resolve_session o settings raw_token s).0 ≡ ok none
  unfolding resolve_session resolve_at touch_session is_open
  revoked_lem raw_token s revoked = elim (Option-cases (lookup (o.digest raw_token) s.sessions)) [
    | inl absent ↦ ground arith
    | inr (x, kept) ↦ ground (arith, revoked x kept)
  ]

  -- Every session is filed under the hash of its token, and every member under their id.
  pub record IsKeyed (s : Store) : Type 0 where
    pub by_token : AllValues (λ k (x : Session). k ≡ x.token_hash) s.sessions
    pub by_id : AllValues (λ k (u : User). k ≡ u.id) s.users

  -- After a logout the token stands for nobody, whatever it stood for before, over sessions filed
  -- under the hash of their token.
  pub logout-resolve_session :
      (raw_token : String) (client : ClientMeta) (s : Store)
      → IsKeyed s
      → let (_, t) = logout o settings raw_token client s in
        (resolve_session o settings raw_token t).0 ≡ ok none
  unfolding logout end_session save_session log
  logout-resolve_session raw_token client s keyed =
      elim (Option-cases (lookup (o.digest raw_token) s.sessions)) [
        | inl absent ↦ rw absent (revoked_lem raw_token s (λ x kept. cc))
        | inr (x, kept) ↦
            let filed = keyed.by_token _ x kept in
            elim (Bool-cases (is_some x.revoked_at)) [
              | inl revoked ↦
                  simp (kept, revoked) (revoked_lem raw_token s (λ y found. ground arith))
              | inr still ↦
                  simp (kept, still)
                    (revoked_lem raw_token _ (λ y found. ground (
                      arith,
                      found,
                      lookup-insert_self x.token_hash
                          (record x { revoked_at = some (o.clock s.asked) }) s.sessions,
                    )))
            ]
      ]

  -- Whatever a member's token stood for, it stands for nobody once the sessions are revoked.
  revoke-resolve_session :
      (raw_token : String) (x : Session) (now : ℕ) (s t : Store)
      → lookup (o.digest raw_token) s.sessions ≡ some x
      → t.sessions ≡ (revoke_sessions_for_user x.user_id now s).sessions
      → (resolve_session o settings raw_token t).0 ≡ ok none
  unfolding revoke_sessions_for_user revoke_if_open
  revoke-resolve_session raw_token x now s t kept same = revoked_lem raw_token t (λ y found.
      ground (
        arith,
        lookup-map_values (revoke_if_open x.user_id now) (o.digest raw_token) s.sessions,
        equal_self x.user_id,
      ))

  -- After a password was reset, no token whose session belongs to the member resolves, over
  -- members filed under their ids and sessions under the hash of their token.
  pub reset_password-resolve_session :
      (actor : User) (user_id : ℕ) (new_password raw_token : String) (x : Session) (s t : Store)
      → Users.reset_password o actor user_id new_password s ≡ (ok tt, t)
      → IsKeyed s
      → lookup (o.digest raw_token) s.sessions ≡ some x
      → x.user_id ≡ user_id
      → (resolve_session o settings raw_token t).0 ≡ ok none
  unfolding Users.reset_password Users.get save_user revoke_sessions_for_user log
  reset_password-resolve_session actor user_id new_password raw_token x s t e keyed kept owned =
      elim (Option-cases (lookup user_id s.users)) [
        | inl absent ↦ ground arith
        | inr (user, known) ↦
            revoke-resolve_session raw_token x (o.clock (suc (suc s.asked))) s t kept
              (ground (arith, keyed.by_id user_id user known))
      ]

  -- A member whose account is off has no session that resolves.
  inactive_lem :
      (raw_token : String) (x : Session) (user : User) (s : Store)
      → lookup (o.digest raw_token) s.sessions ≡ some x
      → lookup x.user_id s.users ≡ some user
      → user.is_active ≡ false
      → (resolve_session o settings raw_token s).0 ≡ ok none
  unfolding resolve_session resolve_at touch_session is_open
  inactive_lem raw_token x user s kept known inactive = ground (arith, kept, known, inactive)

  -- After an account was switched off, no token whose session belongs to the member resolves,
  -- whether the account was on before or not, over members filed under their ids and sessions
  -- under the hash of their token.
  pub set_active-resolve_session :
      (actor user : User) (user_id : ℕ) (raw_token : String) (x : Session) (s t : Store)
      → Users.set_active o actor user_id false s ≡ (ok user, t)
      → IsKeyed s
      → lookup (o.digest raw_token) s.sessions ≡ some x
      → x.user_id ≡ user_id
      → (resolve_session o settings raw_token t).0 ≡ ok none
  unfolding Users.set_active Users.switch_active Users.get save_user revoke_sessions_for_user log
  set_active-resolve_session actor user user_id raw_token x s t e keyed kept owned =
      elim (Option-cases (lookup user_id s.users)) [
        | inl absent ↦ ground arith
        | inr (found, known) ↦ elim (Bool-cases found.is_active) [
          | inl on ↦
              revoke-resolve_session raw_token x (o.clock (suc s.asked)) s t kept
                (ground (arith, keyed.by_id user_id found known))
          | inr off ↦ inactive_lem raw_token x found t (ground arith) (ground arith) off
        ]
      ]
