-- ===== src/Api/Dashboard.antt =====
-- The dashboard of a member, against what the device service will do.
use vpn_controll_app.Base.{
  ℕ, ◌<◌, ◌≤◌, true, false, not, some, ◌≡◌, arith, ◌↔◌, ◌⊎◌, inl, inr, All, length, Bool-cases,
  Option-cases, leb, ◌==◌,
}
use vpn_controll_app.Base.Filter.{length-map-take, take-All, All-map, All-filter}
use vpn_controll_app.Domain.Status.{DeviceStatus, DeviceStatus_Eq}
use vpn_controll_app.Domain.Entities.{User}
use vpn_controll_app.Storage.State.{Store}
use vpn_controll_app.Storage.Tables.{count_devices_toward_limit}
use vpn_controll_app.Api.Schemas.{DeviceOut, device_out}
use vpn_controll_app.Storage.Action.{ok}
use vpn_controll_app.Devices.{enforce_limit, list_for_user}
use vpn_controll_app.Api.Request.{Dashboard}
use vpn_controll_app.Api.Members.{dashboard_of, show_device}

-- By its numbers, a dashboard has room for another device.
abbrev pub HasRoom : Dashboard → Type 0
HasRoom d = (d.unlimited ≡ true) ⊎ ((limit : ℕ) × (d.limit ≡ some limit) × (d.used < limit))

-- A member passes the check of the limit exactly if their dashboard shows no limit, or fewer
-- devices in use than the limit that it shows.
pub dashboard_of-enforce_limit_iff :
    (user : User) (s : Store)
    → ((enforce_limit user s) ≡ (ok tt, s)) ↔ HasRoom (dashboard_of user s)
unfolding dashboard_of enforce_limit
dashboard_of-enforce_limit_iff user s = elim (Bool-cases user.device_limit_unlimited) [
  | inl unlimited ↦ ((λ _. inl (ground arith)), (λ _. ground arith))
  | inr limited ↦ elim (Option-cases user.device_limit) [
    | inl absent ↦ ((λ _. inl (ground arith)), (λ _. ground arith))
    | inr (limit, present) ↦ elim (Bool-cases (leb limit (count_devices_toward_limit user.id s))) [
      | inl full ↦ (
        (λ h. ground arith),
        (λ room. elim room [ inl unlimited ↦ ground arith | inr (n, shown, less) ↦ ground arith ]),
      )
      | inr free ↦ ((λ h. inr (limit, ground arith, ground arith)), (λ _. ground arith))
    ]
  ]
]

-- A dashboard shows at most three devices, and none that is revoked.
pub dashboard_of-recent :
    (user : User) (s : Store)
    → (length (dashboard_of user s).recent_devices ≤ 3)
      × All
          (λ (d : DeviceOut). (d.status == DeviceStatus.revoked) ≡ false)
          (dashboard_of user s).recent_devices
unfolding dashboard_of show_device device_out
dashboard_of-recent user s = (
  length-map-take _ 3 _,
  All-map (λ d. not (d.status == DeviceStatus.revoked) ≡ true) _ (show_device s)
      (λ d kept. ground arith) _ (take-All _ 3 _ (All-filter _ (list_for_user user.id s))),
)
