-- ===== src/Devices/Access.antt =====
-- Who sees a device, and what a revocation does.
use vpn_controll_app.Base.{
  sym, ℕ, String, Option, none, some, ◌≡◌, ◌≢◌, ◌⊎◌, ◌↔◌, ◌∙◌, ap, refl, subst, arith, inl, inr,
  Bool-cases, ◌==◌, nat_Eq,
}
use vpn_controll_app.Dict.{lookup}
use vpn_controll_app.Dict.Laws.{lookup-insert_self, lookup-erase, equal_self}
use vpn_controll_app.Domain.Status.{UserRole, DeviceStatus, UserRole_Eq, DeviceStatus_Eq}
use vpn_controll_app.Domain.Entities.{User, Device, ServerNode}
use vpn_controll_app.Errors.Code.{ErrorCode_Eq}
use vpn_controll_app.Errors.{Error, not_found}
use vpn_controll_app.Outside.{Outside}
use vpn_controll_app.Settings.{Settings}
use vpn_controll_app.Agent.Frame.{OnlyAsked, revoke_peer-OnlyAsked}
use vpn_controll_app.Audit.{log, ClientMeta}
use vpn_controll_app.Storage.State.{Store}
use vpn_controll_app.Storage.Action.{Action, Result, ok, err, bind_ok, bind_err, ◌>>=◌}
use vpn_controll_app.Storage.Tables.{save_device, drop_issue}
use vpn_controll_app.Devices.{
  get_for_actor, is_hidden_from, revoke_on_node, mark_revoked, revoke_known, revoke,
}

-- The reply to every request for a device that the actor may not see.
abbrev hidden : Error
hidden = not_found "Устройство не найдено"

module _ (actor : User) (device_id : ℕ) (s : Store) where
  -- `get_for_actor` returns a device exactly if it is stored under the id and belongs to the
  -- actor, or the actor is an administrator; the storage is only read.
  pub get_for_actor_iff :
      (device : Device)
      → (get_for_actor actor device_id s ≡ (ok device, s)) ↔ (
          (lookup device_id s.devices ≡ some device)
          × ((device.user_id ≡ actor.id) ⊎ (actor.role ≡ UserRole.admin)))
  unfolding get_for_actor
  get_for_actor_iff device = (λ h. ground arith, λ h. ground arith)

  -- To a member who is no administrator, a device of someone else is answered exactly as in a
  -- state that has no device under the id.
  pub get_for_actor-hidden :
      (device : Device) (s' : Store)
      → lookup device_id s.devices ≡ some device
      → device.user_id ≢ actor.id
      → actor.role ≡ UserRole.user
      → lookup device_id s'.devices ≡ none
      → (get_for_actor actor device_id s).0 ≡ (get_for_actor actor device_id s').0
  unfolding get_for_actor
  get_for_actor-hidden device s' stored foreign member absent = ground arith

module _ (o : Outside) (settings : Settings) where
  -- The request to the node changes nothing but the dialogue with the outside.
  revoke_on_node-OnlyAsked :
      (key : Option String) (node : Option ServerNode) (s : Store)
      → OnlyAsked s (revoke_on_node o settings key node s).1
  unfolding revoke_on_node
  revoke_on_node-OnlyAsked none _ s = ground arith
  revoke_on_node-OnlyAsked (some key) none s = ground arith
  revoke_on_node-OnlyAsked (some key) (some node) s =
      ground (arith, revoke_peer-OnlyAsked o node key s)

  -- A failed revocation leaves the devices and the issues; a successful one stores the device as
  -- revoked, and drops its issue unless it was revoked before.
  abbrev Revoked : Device → Store → Result Device → Store → Type 0
  Revoked device s (err e) t = (t.devices ≡ s.devices) × (t.issues ≡ s.issues)
  Revoked device s (ok d) t =
      (d.status ≡ DeviceStatus.revoked)
      × (lookup device.id t.devices ≡ some d)
      × (device.status ≢ DeviceStatus.revoked → lookup device.id t.issues ≡ none)
      × (d.id ≡ device.id)
      × (d.user_id ≡ device.user_id)

  mark_revoked-Revoked :
      (actor : User) (device : Device) (client : ClientMeta) (s s' : Store)
      → let (r, t) = mark_revoked o settings actor device client s' in Revoked device s r t
  unfolding mark_revoked save_device drop_issue log
  mark_revoked-Revoked actor device client s s' = (
    refl,
    lookup-insert_self device.id _ s'.devices,
    (λ _. ground (arith, lookup-erase device.id device.id s'.issues, equal_self device.id)),
    refl,
    refl,
  )

  after_node :
      (actor : User) (device : Device) (client : ClientMeta) (s : Store) (r : Result (Unit {0}))
      (t : Store)
      → t.devices ≡ s.devices
      → t.issues ≡ s.issues
      → let (q, u) =
          ((λ (_ : Store). (r, t)) >>= λ _. mark_revoked o settings actor device client) s in
        Revoked device s q u
  after_node actor device client s (ok _) t d i = mark_revoked-Revoked actor device client s t
  after_node actor device client s (err e) t d i = (d, i)

  revoke_known-Revoked :
      (actor : User) (device : Device) (client : ClientMeta) (s : Store)
      → lookup device.id s.devices ≡ some device
      → let (r, t) = revoke_known o settings actor device client s in Revoked device s r t
  unfolding revoke_known
  revoke_known-Revoked actor device client s stored =
      elim (Bool-cases (device.status == DeviceStatus.revoked)) [
        | inl before ↦
            let same = (DeviceStatus_Eq.is_equal_iff device.status DeviceStatus.revoked).0 before in
            rw before (same, stored, (λ n. absurd (n same)), refl, refl)
        | inr going ↦
            let node = lookup device.server_node_id s.server_nodes in
            let kept = (revoke_on_node-OnlyAsked device.public_key node s).0 in
            let (r, t) = revoke_on_node o settings device.public_key node s in
            rw going (
              after_node actor device client s r t (ap (λ (w : Store). w.devices) kept)
                (ap (λ (w : Store). w.issues) kept))
      ]

  get_cases :
      (actor : User) (device : Device) (s : Store)
      → lookup device.id s.devices ≡ some device
      → (get_for_actor actor device.id s ≡ (ok device, s))
        ⊎ (get_for_actor actor device.id s ≡ (err hidden, s))
  unfolding get_for_actor
  get_cases actor device s stored = elim (Bool-cases (is_hidden_from actor device)) [
    | inl foreign ↦ inr (ground arith)
    | inr allowed ↦ inl (ground arith)
  ]

  spread :
      (device : Device) (s : Store) (r : Result Device) (t : Store)
      → Revoked device s r t
      → ((e : Error) → r ≡ err e → (t.devices ≡ s.devices) × (t.issues ≡ s.issues))
        × ((d : Device)
            → r ≡ ok d
            → (d.status ≡ DeviceStatus.revoked)
              × (lookup device.id t.devices ≡ some d)
              × (device.status ≢ DeviceStatus.revoked → lookup device.id t.issues ≡ none)
              × (d.id ≡ device.id)
              × (d.user_id ≡ device.user_id))
  spread device s (ok d) t h =
      ((λ e q. cc), (λ d' q. subst (λ (x : Device). Revoked device s (ok x) t) (cc) h))
  spread device s (err e) t h = ((λ e' q. h), (λ d q. cc))

  -- Both ends of a revocation.
  revoke_outcome :
      (actor : User) (device : Device) (client : ClientMeta) (s : Store)
      → lookup device.id s.devices ≡ some device
      → let (r, t) = revoke o settings actor device.id client s in
        ((e : Error) → r ≡ err e → (t.devices ≡ s.devices) × (t.issues ≡ s.issues))
        × ((d : Device)
            → r ≡ ok d
            → (d.status ≡ DeviceStatus.revoked)
              × (lookup device.id t.devices ≡ some d)
              × (device.status ≢ DeviceStatus.revoked → lookup device.id t.issues ≡ none)
              × (d.id ≡ device.id)
              × (d.user_id ≡ device.user_id))
  unfolding revoke
  revoke_outcome actor device client s stored =
      let next : Device → Action Device = λ d. revoke_known o settings actor d client in
      elim (get_cases actor device s stored) [
        | inl h ↦
            rw (bind_ok (get_for_actor actor device.id) next s h)
              (spread device s _ _ (revoke_known-Revoked actor device client s stored))
        | inr h ↦
            rw (bind_err (get_for_actor actor device.id) next s h)
              ((λ e q. (refl, refl)), (λ d q. cc))
      ]

  -- A revocation of a stored device that fails, for lack of access or of an answer from the node,
  -- leaves every device and every issue as it was.
  pub revoke-err :
      (actor : User) (device : Device) (client : ClientMeta) (s : Store) (e : Error)
      → lookup device.id s.devices ≡ some device
      → (revoke o settings actor device.id client s).0 ≡ err e
      → let t = (revoke o settings actor device.id client s).1 in
        (t.devices ≡ s.devices) × (t.issues ≡ s.issues)
  revoke-err actor device client s e stored failed =
      (revoke_outcome actor device client s stored).0 e failed

  -- A revocation that succeeds, of a stored device not revoked before, stores the device as
  -- revoked and leaves no configuration of it to read.
  pub revoke-ok :
      (actor : User) (device revoked : Device) (client : ClientMeta) (s : Store)
      → lookup device.id s.devices ≡ some device
      → device.status ≢ DeviceStatus.revoked
      → (revoke o settings actor device.id client s).0 ≡ ok revoked
      → let t = (revoke o settings actor device.id client s).1 in
        (revoked.status ≡ DeviceStatus.revoked)
        × (lookup device.id t.devices ≡ some revoked)
        × (lookup device.id t.issues ≡ none)
  revoke-ok actor device revoked client s stored live done =
      let (status, kept, gone, _, _) =
        (revoke_outcome actor device client s stored).1 revoked done in
      (status, kept, gone live)

  -- A device that is revoked already is returned as it is.
  revoke_again :
      (actor : User) (device : Device) (client : ClientMeta) (s : Store)
      → get_for_actor actor device.id s ≡ (ok device, s)
      → device.status ≡ DeviceStatus.revoked
      → revoke o settings actor device.id client s ≡ (ok device, s)
  unfolding revoke revoke_known
  revoke_again actor device client s allowed revoked =
      bind_ok (get_for_actor actor device.id) (λ d. revoke_known o settings actor d client) s
        allowed
      ∙ rw revoked

  -- After a revocation of a stored device that succeeded, the same actor's second revocation
  -- returns the same device and changes nothing: the node is not asked again.
  pub revoke-revoke :
      (actor : User) (device revoked : Device) (client again : ClientMeta) (s : Store)
      → lookup device.id s.devices ≡ some device
      → (revoke o settings actor device.id client s).0 ≡ ok revoked
      → let t = (revoke o settings actor device.id client s).1 in
        revoke o settings actor device.id again t ≡ (ok revoked, t)
  unfolding revoke
  revoke-revoke actor device revoked client again s stored done =
      let t = (revoke o settings actor device.id client s).1 in
      let (status, kept, gone, id, owner) =
        (revoke_outcome actor device client s stored).1 revoked done in
      elim (get_cases actor device s stored) [
        | inl h ↦
            let may = ((get_for_actor_iff actor device.id s device).0 h).1 in
            let stays : (revoked.user_id ≡ actor.id) ⊎ (actor.role ≡ UserRole.admin) = elim may [
              | inl mine ↦ inl (owner ∙ mine)
              | inr rank ↦ inr rank
            ] in
            let found : lookup revoked.id t.devices ≡ some revoked =
              subst (λ i. lookup i t.devices ≡ some revoked) (sym id) kept in
            subst (λ i. revoke o settings actor i again t ≡ (ok revoked, t)) id
              (revoke_again actor revoked again t
                ((get_for_actor_iff actor revoked.id t revoked).1 (found, stays)) status)
        | inr h ↦
            let refused : (revoke o settings actor device.id client s).0 ≡ err hidden =
              ap (λ (q : Result Device × Store). q.0)
                (bind_err (get_for_actor actor device.id)
                  (λ d. revoke_known o settings actor d client) s h) in
            cc
      ]
