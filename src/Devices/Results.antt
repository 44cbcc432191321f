-- ===== src/Devices/Results.antt =====
-- The result of an issue: what `create` returned can be read again until it expires.
use vpn_controll_app.Base.{
  ℕ, suc, ◌<◌, false, String, Option, some, ◌≡◌, ◌∙◌, ap, refl, sym, subst, arith, inl, inr,
  Bool-cases, nat_Eq, is_some, is_empty,
}
use vpn_controll_app.Dict.{lookup, insert}
use vpn_controll_app.Dict.Laws.{lookup-insert_self}
use vpn_controll_app.Domain.Entities.{User, Device, DeviceConfigIssue, ServerNode}
use vpn_controll_app.Errors.{app_error, setup_step_error, value_error, key_error, attribute_error}
use vpn_controll_app.Outside.{Outside, BoxLaw, SealedLaw}
use vpn_controll_app.Settings.{Settings}
use vpn_controll_app.Agent.{AgentIssueResult}
use vpn_controll_app.Audit.{log, ClientMeta}
use vpn_controll_app.Storage.State.{Store}
use vpn_controll_app.Storage.Action.{Result, ok, err, bind_ok, bind_err, reads_cases, gets, ◌>>=◌}
use vpn_controll_app.Storage.Tables.{save_device, save_issue, get_issue}
use vpn_controll_app.Devices.{
  IssueResult, enforce_limit, check_limit, issue_failed, issue_done, finish_create, provision,
  place, create, get_for_actor, issue_result, read_stored, read_issue, mark_consumed,
}
use vpn_controll_app.Devices.Create.{create_cases}

module _ (o : Outside) (settings : Settings) (user : User) where
  -- A sealed text that opens to a value.
  abbrev Opens : Option String → String → Type 0
  Opens x v = (c : String) × (x ≡ some c) × (is_empty c ≡ false) × (o.decrypt c ≡ some v)

  -- A result that the member can read: the device is stored and theirs, and the stored issue
  -- opens to the result.
  pub record IsReadable (device : Device) (res : IssueResult) (s : Store) : Type 0 where
    pub stored : lookup device.id s.devices ≡ some device
    pub owned : device.user_id ≡ user.id
    pub about : res.device_id ≡ device.id
    pub issue : DeviceConfigIssue
    pub kept : lookup device.id s.issues ≡ some issue
    pub keyed : issue.device_id ≡ device.id
    pub expires : issue.expires_at ≡ res.expires_at
    pub url : String
    pub has_url : res.vpn_url ≡ some url
    pub opens_config : Opens issue.config_encrypted res.config
    pub opens_url : Opens issue.vpn_url_encrypted url

  -- Every outcome of an issue: a result, if there is one, can be read.
  abbrev IsGood : Result (Device × IssueResult) × Store → Type 0
  IsGood (ok (d, res), t) = IsReadable d res t
  IsGood (err _, t) = Unit

  module _ (box : BoxLaw o) (sealed : SealedLaw o) where
    issue_done-IsGood :
        (device : Device) (result : AgentIssueResult) (client : ClientMeta) (s : Store)
        → device.user_id ≡ user.id
        → IsGood (issue_done o settings user device result client s)
    unfolding issue_done save_device save_issue log
    issue_done-IsGood device result client s mine = record {
      stored = lookup-insert_self device.id _ s.devices;
      owned = mine;
      about = refl;
      issue = _;
      kept = lookup-insert_self device.id _ s.issues;
      keyed = refl;
      expires = refl;
      url = result.vpn_url;
      has_url = refl;
      opens_config = (_, refl, sealed _ _, box _ _);
      opens_url = (_, refl, sealed _ _, box _ _);
    }

    finish_create-IsGood :
        (device : Device) (r : Result AgentIssueResult) (client : ClientMeta) (s : Store)
        → device.user_id ≡ user.id
        → IsGood (finish_create o settings user device r client s)
    unfolding finish_create issue_failed log
    finish_create-IsGood device (ok result) client s mine =
        issue_done-IsGood device result client s mine
    finish_create-IsGood device (err (app_error exc)) client s mine = tt
    finish_create-IsGood device (err (setup_step_error m)) client s mine = tt
    finish_create-IsGood device (err (value_error m)) client s mine = tt
    finish_create-IsGood device (err (key_error m)) client s mine = tt
    finish_create-IsGood device (err attribute_error) client s mine = tt

    provision-IsGood :
        (node : ServerNode) (name : String) (client : ClientMeta) (s : Store)
        → IsGood (provision o settings user node name client s)
    unfolding provision
    provision-IsGood node name client s = finish_create-IsGood _ _ client _ refl

    enforce_limit-state : (s : Store) → (enforce_limit user s).1 ≡ s
    unfolding enforce_limit check_limit
    enforce_limit-state s = ground arith

    create-IsGood :
        (name : String) (node_id : Option ℕ) (client : ClientMeta) (s : Store)
        → IsGood (create o settings user name node_id client s)
    unfolding create
    create-IsGood name node_id client s =
        elim (reads_cases (enforce_limit user) s (enforce_limit-state s)) [
          | inr (e, h) ↦
              rw
                (bind_err (enforce_limit user) (λ _. place o settings user name node_id client) s h)
                tt
          | inl (_, passed) ↦ elim (create_cases o settings user name node_id client s passed) [
            | inl (e, h) ↦ subst IsGood (sym h) tt
            | inr (node, ready, h) ↦ subst IsGood (sym h) (provision-IsGood node name client s)
          ]
        ]

    -- A read before the expiry.
    mark_consumed-IsReadable :
        (device : Device) (res : IssueResult) (s : Store) (now : ℕ) (r : IsReadable device res s)
        → IsReadable device res (mark_consumed o settings r.issue now s).1
    unfolding mark_consumed save_issue
    mark_consumed-IsReadable device res s now r = elim (Bool-cases (is_some r.issue.consumed_at)) [
      | inl read ↦ rw read r
      | inr unread ↦ rw unread (record {
        stored = r.stored;
        owned = r.owned;
        about = r.about;
        issue = record r.issue { consumed_at = some now };
        kept =
            subst
              (λ k.
                lookup device.id (insert k (record r.issue { consumed_at = some now }) s.issues)
                ≡ some (record r.issue { consumed_at = some now }))
              (sym r.keyed) (lookup-insert_self device.id _ s.issues);
        keyed = r.keyed;
        expires = r.expires;
        url = r.url;
        has_url = r.has_url;
        opens_config = r.opens_config;
        opens_url = r.opens_url;
      })
    ]

    later-IsReadable :
        (device : Device) (res : IssueResult) (s : Store) (n : ℕ)
        → IsReadable device res s
        → IsReadable device res (record s { asked = n })
    later-IsReadable device res s n r = record {
      stored = r.stored;
      owned = r.owned;
      about = r.about;
      issue = r.issue;
      kept = r.kept;
      keyed = r.keyed;
      expires = r.expires;
      url = r.url;
      has_url = r.has_url;
      opens_config = r.opens_config;
      opens_url = r.opens_url;
    }

    -- The state after a read.
    abbrev after_read : DeviceConfigIssue → Store → Store
    after_read issue s =
        (mark_consumed o settings issue (o.clock s.asked) (record s { asked = suc s.asked })).1

    read_issue_lem :
        (device : Device) (res : IssueResult) (s : Store) (r : IsReadable device res s)
        → o.clock s.asked < res.expires_at
        → read_issue o settings device r.issue r.opens_config.0 s ≡ (ok res, after_read r.issue s)
    unfolding read_issue mark_consumed
    read_issue_lem device res s r early =
        let open_config = r.opens_config.3 in
        let open_url = r.opens_url.3 in
        ground (arith, r.expires, r.about, r.has_url, r.opens_url.1, r.opens_url.2)

    read_stored_lem :
        (device : Device) (res : IssueResult) (s : Store) (r : IsReadable device res s)
        → o.clock s.asked < res.expires_at
        → read_stored o settings device (some r.issue) s ≡ (ok res, after_read r.issue s)
    unfolding read_stored
    read_stored_lem device res s r early =
        simp (r.opens_config.1, r.opens_config.2) (read_issue_lem device res s r early)

    get_lem :
        (device : Device) (res : IssueResult) (s : Store)
        → IsReadable device res s
        → get_for_actor user device.id s ≡ (ok device, s)
    unfolding get_for_actor
    get_lem device res s r = ground (arith, r.stored, r.owned)

    read_equation :
        (device : Device) (res : IssueResult) (s : Store) (r : IsReadable device res s)
        → o.clock s.asked < res.expires_at
        → issue_result o settings user device.id s ≡ (ok res, after_read r.issue s)
    unfolding issue_result
    read_equation device res s r early =
        bind_ok (get_for_actor user device.id)
          (λ d. gets (get_issue d.id) >>= λ issue. read_stored o settings d issue) s
          (get_lem device res s r)
        ∙ bind_ok (gets (get_issue device.id)) (λ issue. read_stored o settings device issue) s
            (ap (λ (x : Option DeviceConfigIssue). (ok x, s)) r.kept)
        ∙ read_stored_lem device res s r early

    -- A result that can be read is returned at every read before its expiry, and can be read again.
    pub read_again :
        (device : Device) (res : IssueResult) (s : Store)
        → IsReadable device res s
        → o.clock s.asked < res.expires_at
        → let (q, t) = issue_result o settings user device.id s in
          (q ≡ ok res) × IsReadable device res t
    unfolding later-IsReadable
    read_again device res s r early =
        let e = read_equation device res s r early in
        rw e (
          refl,
          mark_consumed-IsReadable device res (record s { asked = suc s.asked }) (o.clock s.asked)
              (later-IsReadable device res s (suc s.asked) r),
        )

    -- Given that sealing a text and opening it gives the text back and that no sealed text is
    -- empty: whatever `create` returns, `issue_result` returns to the same member at two reads in
    -- a row that are made before the result expires, with the same configuration, link and expiry.
    pub create-issue_result :
        (name : String) (node_id : Option ℕ) (client : ClientMeta) (s : Store) (device : Device)
        (res : IssueResult) (t : Store)
        → create o settings user name node_id client s ≡ (ok (device, res), t)
        → o.clock t.asked < res.expires_at
        → o.clock (issue_result o settings user device.id t).1.asked < res.expires_at
        → let (q, u) = issue_result o settings user device.id t in
          (q ≡ ok res) × ((issue_result o settings user device.id u).0 ≡ ok res)
    create-issue_result name node_id client s device res t e early still =
        let r = subst IsGood e (create-IsGood name node_id client s) in
        let again = read_again device res t r early in
        (again.0, (read_again device res _ again.1 still).0)
