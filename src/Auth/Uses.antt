-- ===== src/Auth/Uses.antt =====
-- What a token stands for, however often `resolve_session` was called with it.
use vpn_controll_app.Base.{
  ℕ, zero, suc, ◌≡◌, ◌<◌, arith, inl, inr, true, String, none, some, nat_Eq, string_Eq, Bool-cases,
}
use vpn_controll_app.Dict.{lookup}
use vpn_controll_app.Dict.Laws.{lookup-insert_self}
use vpn_controll_app.Domain.Entities.{User, Session}
use vpn_controll_app.Outside.{Outside}
use vpn_controll_app.Settings.{Settings}
use vpn_controll_app.Storage.State.{Store}
use vpn_controll_app.Storage.Action.{ok}
use vpn_controll_app.Storage.Tables.{save_session}
use vpn_controll_app.Auth.{is_open, resolve_at, touch_session, resolve_session}
use vpn_controll_app.Auth.Sessions.{resolve_session-if}

module _ (o : Outside) (settings : Settings) where
  -- A token that stands for an active member: its session, filed under the hash of the token, is
  -- not revoked and runs out at the given time.
  pub record IsLive (user : User) (token : String) (end : ℕ) (t : Store) : Type 0 where
    pub session : Session
    pub kept : lookup (o.digest token) t.sessions ≡ some session
    pub keyed : session.token_hash ≡ o.digest token
    pub unrevoked : session.revoked_at ≡ none
    pub given_to : session.user_id ≡ user.id
    pub expires : session.expires_at ≡ end
    pub known : lookup user.id t.users ≡ some user
    pub active : user.is_active ≡ true

  -- A token that stands for a member resolves to them until its session runs out.
  pub live-resolve_session :
      (user : User) (token : String) (end : ℕ) (t : Store)
      → IsLive user token end t
      → o.clock t.asked < end
      → (resolve_session o settings token t).0 ≡ ok (some user)
  live-resolve_session user token end t live early =
      resolve_session-if o settings token t user live.session
        (record {
          kept = live.kept;
          unrevoked = live.unrevoked;
          unexpired = ground (arith, early, live.expires);
        })
        (ground (arith, live.known, live.given_to)) live.active

  -- Resolving a token does not end what it stands for.
  resolve_session-IsLive :
      (user : User) (token : String) (end : ℕ) (t : Store)
      → IsLive user token end t
      → IsLive user token end (resolve_session o settings token t).1
  unfolding resolve_session resolve_at touch_session is_open save_session
  resolve_session-IsLive user token end t live =
      let x = live.session in
      let filed : lookup x.user_id t.users ≡ some user =
        ground (arith, live.known, live.given_to) in
      elim (Bool-cases (is_open o settings (o.clock t.asked) x)) [
        | inr closed ↦ record {
          session = x;
          kept = ground (arith, live.kept);
          keyed = live.keyed;
          unrevoked = live.unrevoked;
          given_to = live.given_to;
          expires = live.expires;
          known = ground (arith, live.kept, live.known);
          active = live.active;
        }
        | inl opened ↦ record {
          session = record x { last_seen_at = o.clock t.asked };
          kept = ground (
            arith,
            live.kept,
            filed,
            live.active,
            live.keyed,
            lookup-insert_self x.token_hash (record x { last_seen_at = o.clock t.asked })
                t.sessions,
          );
          keyed = live.keyed;
          unrevoked = live.unrevoked;
          given_to = live.given_to;
          expires = live.expires;
          known = ground (arith, live.kept, filed, live.known, live.active);
          active = live.active;
        }
      ]

  -- The state after a token was resolved a number of times.
  abbrev pub uses : String → ℕ → Store → Store
  uses token zero s = s
  uses token (suc n) s = (resolve_session o settings token (uses token n s)).1

  pub uses-IsLive :
      (user : User) (token : String) (end n : ℕ) (t : Store)
      → IsLive user token end t
      → IsLive user token end (uses token n t)
  uses-IsLive user token end zero t live = live
  uses-IsLive user token end (suc n) t live =
      resolve_session-IsLive user token end (uses token n t) (uses-IsLive user token end n t live)
