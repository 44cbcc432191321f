-- ===== src/Devices/Create.antt =====
-- `DeviceService.create` as a whole: the limit, the choice of the node, and what stays unchanged.
use vpn_controll_app.Base.{
  ℕ, ◌+◌, ◌≤◌, ◌<◌, max, true, false, String, Option, none, some, ◌≡◌, ◌≢◌, ◌⊎◌, ◌∙◌, refl, arith,
  inl, inr, Bool-cases, Option-cases, nat_Eq, ltb,
}
use vpn_controll_app.Domain.Json.{num, end, field}
use vpn_controll_app.Domain.Entities.{User, Device, ServerNode}
use vpn_controll_app.Errors.Code.{ErrorCode}
use vpn_controll_app.Errors.{
  Error, app_error, setup_step_error, value_error, key_error, attribute_error, app, app_with,
  not_found,
}
use vpn_controll_app.Outside.{Outside}
use vpn_controll_app.Settings.{Settings}
use vpn_controll_app.Audit.{ClientMeta}
use vpn_controll_app.Servers
use vpn_controll_app.Servers.{is_selectable, ensure_selectable, pick_for_new_device}
use vpn_controll_app.Servers.Pick.{pick-selectable}
use vpn_controll_app.Storage.State.{Store}
use vpn_controll_app.Storage.Action.{Action, Result, ok, err, bind_ok, bind_err}
use vpn_controll_app.Storage.Tables.{get_server_node, count_devices_toward_limit}
use vpn_controll_app.Devices.{IssueResult, enforce_limit, choose_node, provision, place, create}
use vpn_controll_app.Devices.Limit.{FreshDevices, used, added, provision-used}

-- The errors of a choice that finds no node.
abbrev no_server : Error
no_server = app ErrorCode.server_unavailable "Сейчас нет доступного сервера — попробуй позже" 503

abbrev busy_server : Error
busy_server =
    app ErrorCode.server_unavailable "Этот сервер сейчас недоступен для новых устройств" 503

module _ (o : Outside) (settings : Settings) (user : User) (name : String) (node_id : Option ℕ)
    (client : ClientMeta) (s : Store) where
  -- Choosing a node only reads, and gives a node that may be selected.
  choose_node_cases :
      ((e : Error) × (choose_node o settings node_id s ≡ (err e, s)))
      ⊎ ((node : ServerNode) × (is_selectable node ≡ true)
          × (choose_node o settings node_id s ≡ (ok node, s)))
  unfolding choose_node Servers.get ensure_selectable
  choose_node_cases = go node_id
    where
      go :
          (i : Option ℕ)
          → ((e : Error) × (choose_node o settings i s ≡ (err e, s)))
            ⊎ ((node : ServerNode) × (is_selectable node ≡ true)
                × (choose_node o settings i s ≡ (ok node, s)))
      go none = elim (Option-cases (pick_for_new_device s)) [
        | inl absent ↦ inl (no_server, ground arith)
        | inr (node, picked) ↦ inr (node, pick-selectable s node picked, ground arith)
      ]
      go (some i) = elim (Option-cases (get_server_node i s)) [
        | inl absent ↦ inl (not_found "Сервер не найден", ground arith)
        | inr (node, found) ↦ elim (Bool-cases (is_selectable node)) [
          | inl ready ↦ inr (node, ready, ground arith)
          | inr busy ↦ inl (busy_server, ground arith)
        ]
      ]

  -- Past the limit's test, `create` fails with no trace, or goes on with the node chosen.
  pub create_cases :
      enforce_limit user s ≡ (ok tt, s)
      → ((e : Error) × (create o settings user name node_id client s ≡ (err e, s)))
        ⊎ ((node : ServerNode) × (is_selectable node ≡ true)
            × (create o settings user name node_id client s
                ≡ provision o settings user node name client s))
  unfolding create place
  create_cases passed = elim choose_node_cases [
    | inl (e, h) ↦ inl (
      e,
      bind_ok (enforce_limit user) (λ _. later) s passed
          ∙ bind_err (choose_node o settings node_id) next s h,
    )
    | inr (node, ready, h) ↦ inr (
      node,
      ready,
      bind_ok (enforce_limit user) (λ _. later) s passed
          ∙ bind_ok (choose_node o settings node_id) next s h,
    )
  ]
    where
      next : ServerNode → Action (Device × IssueResult)
      next node = provision o settings user node name client

      later : Action (Device × IssueResult)
      later = place o settings user name node_id client

  -- A limited member with a free place passes the test; one without is refused.
  enforce_limit_pass :
      (limit : ℕ)
      → user.device_limit_unlimited ≡ false
      → user.device_limit ≡ some limit
      → used user.id s.devices < limit
      → enforce_limit user s ≡ (ok tt, s)
  unfolding enforce_limit count_devices_toward_limit
  enforce_limit_pass limit limited bound free = ground arith

  enforce_limit_full :
      (limit : ℕ)
      → user.device_limit_unlimited ≡ false
      → user.device_limit ≡ some limit
      → limit ≤ used user.id s.devices
      → enforce_limit user s ≡ (
        err (
            app_with ErrorCode.device_limit_reached "Лимит устройств закончился" 409
              (field "used" (num (used user.id s.devices)) (field "limit" (num limit) end))),
        s,
      )
  unfolding enforce_limit count_devices_toward_limit
  enforce_limit_full limit limited bound full = ground arith

  -- A limited member with at least as many counted devices as the limit is refused by `create`
  -- with both numbers: no node is chosen, no agent is called, nothing changes.
  pub create-limit_reached :
      (limit : ℕ)
      → user.device_limit_unlimited ≡ false
      → user.device_limit ≡ some limit
      → limit ≤ used user.id s.devices
      → create o settings user name node_id client s ≡ (
        err (
            app_with ErrorCode.device_limit_reached "Лимит устройств закончился" 409
              (field "used" (num (used user.id s.devices)) (field "limit" (num limit) end))),
        s,
      )
  unfolding create
  create-limit_reached limit limited bound full =
      bind_err (enforce_limit user) (λ _. place o settings user name node_id client) s
        (enforce_limit_full limit limited bound full)

  -- What a call by a limited member does to the numbers of devices that count.
  create_counts :
      (limit : ℕ)
      → FreshDevices o s
      → user.device_limit_unlimited ≡ false
      → user.device_limit ≡ some limit
      → let (r, t) = create o settings user name node_id client s in
        (used user.id t.devices ≤ max limit (used user.id s.devices))
        × ((x : Device × IssueResult)
            → r ≡ ok x
            → (used user.id t.devices ≡ used user.id s.devices + 1)
              × (used user.id t.devices ≤ limit))
        × ((u : ℕ) → user.id ≢ u → used u t.devices ≡ used u s.devices)
  create_counts limit fresh limited bound = elim (Bool-cases (ltb (used user.id s.devices) limit)) [
    | inr full ↦
        rw (create-limit_reached limit limited bound (ground arith))
          (omega arith, (λ x h. cc), (λ u h. refl))
    | inl free ↦ elim (create_cases (enforce_limit_pass limit limited bound (ground arith))) [
      | inl (e, h) ↦ rw h (omega arith, (λ x q. cc), (λ u q. refl))
      | inr (node, ready, h) ↦
          let (r, t) = provision o settings user node name client s in
          rw h (
            counts r t (provision-used o settings user user.id node name client s fresh)
              (ground arith) (λ u. provision-used o settings user u node name client s fresh))
    ]
  ]
    where
      counts :
          (r : Result (Device × IssueResult)) (t : Store)
          → used user.id t.devices ≡ used user.id s.devices + added o settings user user.id r
          → used user.id s.devices < limit
          → ((u : ℕ) → used u t.devices ≡ used u s.devices + added o settings user u r)
          → (used user.id t.devices ≤ max limit (used user.id s.devices))
            × ((x : Device × IssueResult)
                → r ≡ ok x
                → (used user.id t.devices ≡ used user.id s.devices + 1)
                  × (used user.id t.devices ≤ limit))
            × ((u : ℕ) → user.id ≢ u → used u t.devices ≡ used u s.devices)
      counts (ok y) t h free all =
          (ground arith, (λ x q. ground arith), (λ u q. ground (arith, all u)))
      counts (err (app_error exc)) t h free all =
          (ground arith, (λ x q. cc), (λ u q. ground (arith, all u)))
      counts (err (setup_step_error m)) t h free all =
          (ground arith, (λ x q. cc), (λ u q. ground (arith, all u)))
      counts (err (value_error m)) t h free all =
          (ground arith, (λ x q. cc), (λ u q. ground (arith, all u)))
      counts (err (key_error m)) t h free all =
          (ground arith, (λ x q. cc), (λ u q. ground (arith, all u)))
      counts (err attribute_error) t h free all =
          (ground arith, (λ x q. cc), (λ u q. ground (arith, all u)))

  -- A call of `create` by a limited member, however it ends, never takes the member past the
  -- limit: where the ids still to be given are new, afterwards no more devices count than the
  -- limit allows, or than counted before.
  pub create-within-limit :
      (limit : ℕ)
      → FreshDevices o s
      → user.device_limit_unlimited ≡ false
      → user.device_limit ≡ some limit
      → used user.id (create o settings user name node_id client s).1.devices
        ≤ max limit (used user.id s.devices)
  create-within-limit limit fresh limited bound = (create_counts limit fresh limited bound).0

  -- Where the ids still to be given are new, a call of `create` by a limited member that returns a
  -- device takes exactly one place, and the limit still holds.
  pub create-one_place :
      (limit : ℕ) (device : Device) (res : IssueResult)
      → FreshDevices o s
      → user.device_limit_unlimited ≡ false
      → user.device_limit ≡ some limit
      → (create o settings user name node_id client s).0 ≡ ok (device, res)
      → let t = (create o settings user name node_id client s).1 in
        (used user.id t.devices ≡ used user.id s.devices + 1) × (used user.id t.devices ≤ limit)
  create-one_place limit device res fresh limited bound e =
      (create_counts limit fresh limited bound).1 (device, res) e

  -- Where the ids still to be given are new, a call of `create` by a limited member leaves the
  -- count of every other member as it was.
  pub create-other_members :
      (limit other : ℕ)
      → FreshDevices o s
      → user.device_limit_unlimited ≡ false
      → user.device_limit ≡ some limit
      → user.id ≢ other
      → used other (create o settings user name node_id client s).1.devices ≡ used other s.devices
  create-other_members limit other fresh limited bound distinct =
      (create_counts limit fresh limited bound).2 other distinct
