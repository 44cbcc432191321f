-- ===== src/Api/Guards.antt =====
-- The dependencies of the routes (backend/app/api/deps.py): who a request comes from.
use vpn_controll_app.Base.{not, String, Option, string_Eq, is_blank, ◌==◌}
use vpn_controll_app.Dict.{lookup}
use vpn_controll_app.Domain.Status.{UserRole, UserRole_Eq}
use vpn_controll_app.Domain.Entities.{User}
use vpn_controll_app.Errors.{unauthorized, forbidden}
use vpn_controll_app.Outside.{Outside}
use vpn_controll_app.Settings.{Settings}
use vpn_controll_app.Auth.{resolve_session}
use vpn_controll_app.Agent.{text_or_empty}
use vpn_controll_app.Storage.Action.{Action, pure, or_raise, raise_if, ◌>>=◌, ◌>>◌}
use vpn_controll_app.Api.Request.{HttpRequest, Payload}

module _ (o : Outside) (settings : Settings) where
  -- `request.cookies.get(settings.session_cookie_name)`
  unfoldable pub cookie_token : HttpRequest → Option String
  cookie_token r = lookup settings.session_cookie_name r.cookies

  unfoldable pub get_current_user : HttpRequest → Action User
  get_current_user r = do
    raise_if (is_blank (cookie_token r)) (unauthorized "Нужно войти")
    user ← resolve_session o settings (text_or_empty (cookie_token r))
    or_raise user (unauthorized "Сессия истекла — войди заново")

  unfoldable pub get_current_admin : HttpRequest → Action User
  get_current_admin r = do
    user ← get_current_user r
    raise_if (not (user.role == UserRole.admin)) forbidden
    pure user

  -- A handler with the parameter `user: CurrentUser`, and one with `admin: CurrentAdmin`.
  unfoldable pub as_user : HttpRequest → (User → Action Payload) → Action Payload
  as_user r handler = get_current_user r >>= handler

  unfoldable pub as_admin : HttpRequest → (User → Action Payload) → Action Payload
  as_admin r handler = get_current_admin r >>= handler
