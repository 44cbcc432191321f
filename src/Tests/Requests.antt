-- ===== src/Tests/Requests.antt =====
-- The theorems about the HTTP interface at concrete requests.
use vpn_controll_app.Base.{
  String, none, some, [], ◌∷◌, ◌≡◌, ◌↔◌, ◌⊎◌, refl, nat_Eq, string_Eq, false,
}
use vpn_controll_app.Domain.Status.{DeviceStatus_Eq}
use vpn_controll_app.Storage.Action.{ok}
use vpn_controll_app.Devices.{enforce_limit}
use vpn_controll_app.Api.Request.{Endpoint, HttpRequest, prefix_of}
use vpn_controll_app.Api.Members.{dashboard_of}
use vpn_controll_app.Api.Access.{IsFromAdmin, IsTouched}
use vpn_controll_app.Api.Admins.{IsRefusal, serve-admins_only}
use vpn_controll_app.Api.Csrf.{Kept, serve-csrf}
use vpn_controll_app.Api.Dashboard.{HasRoom, dashboard_of-enforce_limit_iff}
use vpn_controll_app.Api.{serve, is_foreign}
use vpn_controll_app.Tests.Accounts.{keyed}
use vpn_controll_app.Tests.Sample.{outside, settings, member, store, client}

abbrev format : String → String → String
format template host = template

-- A member's browser, from the panel's own page.
abbrev request : HttpRequest
request = record {
  cookies = ("session", "token") ∷ [];
  origin = none;
  requested_with = "xmlhttprequest";
  client = client;
}

-- The member tries to switch off the administrator.
serve-admins_only_example :
    IsFromAdmin outside settings request store
    ⊎ (IsRefusal (serve outside settings format request (Endpoint.disable_user 2) store).0
        × IsTouched outside settings store
            (serve outside settings format request (Endpoint.disable_user 2) store).1)
unfolding prefix_of
serve-admins_only_example =
    serve-admins_only outside settings format request (Endpoint.disable_user 2) store refl keyed

-- A form on another page revokes the member's phone.
abbrev forged : HttpRequest
forged = record request { origin = some "https://evil.example"; requested_with = "" }

serve-csrf_example :
    Kept store (serve outside settings format forged (Endpoint.revoke_device 6) store).1
    ⊎ ((is_foreign outside settings format forged.origin ≡ false)
        × (outside.lower forged.requested_with ≡ "xmlhttprequest"))
serve-csrf_example = serve-csrf outside settings format forged (Endpoint.revoke_device 6) store refl

dashboard_of-enforce_limit_iff_example :
    ((enforce_limit member store) ≡ (ok tt, store)) ↔ HasRoom (dashboard_of member store)
dashboard_of-enforce_limit_iff_example = dashboard_of-enforce_limit_iff member store
