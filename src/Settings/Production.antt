-- ===== src/Settings/Production.antt =====
-- What settings that passed `validate` are like.
use vpn_controll_app.Base.{
  Bool, true, false, not, ◌&&◌, String, Option, some, List, [], ◌∷◌, ◌≡◌, refl, sym, subst, arith,
  ◌==◌, nat_Eq, string_Eq, All, inl, inr, Bool-cases, Option-cases, if◌then◌else◌,
}
use vpn_controll_app.Settings.{Settings}
use vpn_controll_app.Storage.Checked.{◌>>◌, ended_well}
use vpn_controll_app.Storage.Action.{Result, ok, err}
use vpn_controll_app.Settings.Validate.{
  Network, is_nil, check_network, normalize_networks, check_choices, check_production, is_guarded,
  validate,
}

-- `str` of a network is read as that network.
abbrev pub NetworkLaw : (String → Option Network) → Type 0
NetworkLaw ip_network =
    (v : String) (n : Network) → ip_network v ≡ some n → ip_network n.text ≡ some n

equal_if : (a b : String) → (a == b) ≡ true → a ≡ b
equal_if a b h = (string_Eq.is_equal_iff a b).0 h

module _ (ip_network : String → Option Network) (is_fernet_key : String → Bool) where
  -- An entry of the allow list that denotes a network, and not the whole internet if guarded.
  pub record IsAllowed (guarded : Bool) (v : String) : Type 0 where
    pub network : Network
    pub read : ip_network v ≡ some network
    pub normal : v ≡ network.text
    pub narrow : (network.prefixlen == 0 && guarded) ≡ false

  check_network-IsAllowed :
      (guarded : Bool) (v : String) (t : String)
      → NetworkLaw ip_network
      → check_network guarded v (ip_network v) ≡ ok t
      → IsAllowed guarded t
  unfolding check_network
  check_network-IsAllowed guarded v t law h = elim (Option-cases (ip_network v)) [
    | inl unread ↦ absurd (ground arith)
    | inr (network, read) ↦ elim (Bool-cases (network.prefixlen == 0 && guarded)) [
      | inl wide ↦ absurd (ground arith)
      | inr narrow ↦
          let normal : t ≡ network.text = ground arith in
          record {
            network = network;
            read = rw normal (law v network read);
            normal = normal;
            narrow = narrow;
          }
    ]
  ]

  normalize_networks-All :
      (guarded : Bool) (vs ts : List String)
      → NetworkLaw ip_network
      → normalize_networks ip_network guarded vs ≡ ok ts
      → All (IsAllowed guarded) ts
  unfolding normalize_networks
  normalize_networks-All guarded [] ts law h = subst (All (IsAllowed guarded)) {x = []} (cc) tt
  normalize_networks-All guarded (v ∷ vs) ts law h =
      let (t, first, later) = ended_well _ _ h in
      let (rest, others, done) = ended_well _ _ later in
      subst (All (IsAllowed guarded)) {x = t ∷ rest} (cc) (
        check_network-IsAllowed guarded v t law first,
        normalize_networks-All guarded vs rest law others,
      )

  -- Normalized networks are left as they are.
  normalize_networks-normal :
      (guarded : Bool) (ts : List String)
      → All (IsAllowed guarded) ts
      → normalize_networks ip_network guarded ts ≡ ok ts
  unfolding normalize_networks check_network
  normalize_networks-normal guarded [] h = refl
  normalize_networks-normal guarded (t ∷ ts) h =
      ground (arith, h.0.read, h.0.normal, h.0.narrow, normalize_networks-normal guarded ts h.1)

  -- Settings of an installation outside APP_ENV=local: a real agent and a real installation, an
  -- encryption key, and a list of addresses for the agent that is not empty and does not have the
  -- whole internet, unless that was asked for.
  pub record IsProduction (x : Settings) : Type 0 where
    pub agent : x.agent_mode ≡ "http"
    pub runner : x.setup_runner ≡ "deploy_script"
    pub key : String
    pub keyed : x.encryption_key ≡ some key
    pub accepted : is_fernet_key key ≡ true
    pub some_allowed : is_nil x.setup_agent_allow_ips ≡ false
    pub allowed : All (IsAllowed (not x.setup_allow_public_agent_access)) x.setup_agent_allow_ips

  check_production-IsProduction :
      (x : Settings)
      → check_production is_fernet_key x ≡ ok tt
      → All (IsAllowed (not x.setup_allow_public_agent_access)) x.setup_agent_allow_ips
      → IsProduction x
  unfolding check_production
  check_production-IsProduction x h allowed = elim (Option-cases x.encryption_key) [
    | inl absent ↦ absurd (ground arith)
    | inr (key, keyed) ↦ record {
      agent = equal_if x.agent_mode "http" (ground arith);
      runner = equal_if x.setup_runner "deploy_script" (ground arith);
      key = key;
      keyed = keyed;
      accepted = ground arith;
      some_allowed = ground arith;
      allowed = allowed;
    }
  ]

  last_step :
      (local : Bool) (checked : Result (Unit {0})) (x y : Settings)
      → (if local then ok x else (checked >> ok x)) ≡ ok y
      → (y ≡ x) × ((if local then ok tt else checked) ≡ ok tt)
  last_step true checked x y h = (cc, refl)
  last_step false (ok tt) x y h = (cc, refl)
  last_step false (err e) x y h = cc

  -- The steps of a validation that ended well.
  record IsPassed (x y : Settings) : Type 0 where
    texts : List String
    chosen : check_choices x ≡ ok tt
    normalized : normalize_networks ip_network (is_guarded x) x.setup_agent_allow_ips ≡ ok texts
    result : y ≡ record x { setup_agent_allow_ips = texts }
    produced :
        (if x.app_env == "local"
          then ok tt
          else check_production is_fernet_key (record x { setup_agent_allow_ips = texts }))
        ≡ ok tt

  validate-IsPassed : (x y : Settings) → validate ip_network is_fernet_key x ≡ ok y → IsPassed x y
  unfolding validate
  validate-IsPassed x y h =
      let (_, chosen, later) = ended_well _ _ h in
      let (texts, normalized, last) = ended_well _ _ later in
      let (result, produced) = last_step (x.app_env == "local") _ _ y last in
      record {
        texts = texts;
        chosen = chosen;
        normalized = normalized;
        result = result;
        produced = produced;
      }

  -- Validation changes nothing but the spelling of the networks.
  pub validate-same :
      (x y : Settings)
      → validate ip_network is_fernet_key x ≡ ok y
      → y ≡ record x { setup_agent_allow_ips = y.setup_agent_allow_ips }
  validate-same x y h =
      let passed = validate-IsPassed x y h in
      subst (λ z. z ≡ record x { setup_agent_allow_ips = z.setup_agent_allow_ips })
        (sym passed.result) refl

  -- Outside APP_ENV=local, settings that validate accepts reach a real agent and run the real
  -- installation, have an encryption key that Fernet accepts, and a list of networks for the agent
  -- that is not empty, is normalized, and has the whole internet only where public access was allowed.
  pub validate-IsProduction :
      (x y : Settings)
      → NetworkLaw ip_network
      → validate ip_network is_fernet_key x ≡ ok y
      → (x.app_env == "local") ≡ false
      → IsProduction y
  validate-IsProduction x y law h remote =
      let passed = validate-IsPassed x y h in
      let guarded : is_guarded x ≡ not x.setup_allow_public_agent_access = rw remote refl in
      subst IsProduction (sym passed.result) (
        check_production-IsProduction _ (rw remote at passed.produced) (
          subst (λ g. All (IsAllowed g) passed.texts) guarded
            (normalize_networks-All _ _ _ law passed.normalized)))

  check_choices_same :
      (x : Settings) (texts : List String)
      → check_choices (record x { setup_agent_allow_ips = texts }) ≡ check_choices x
  unfolding check_choices
  check_choices_same x texts = refl

  revalidate :
      (x : Settings) (texts : List String)
      → check_choices x ≡ ok tt
      → normalize_networks ip_network (is_guarded x) texts ≡ ok texts
      → (if x.app_env == "local"
          then ok tt
          else check_production is_fernet_key (record x { setup_agent_allow_ips = texts }))
        ≡ ok tt
      → validate ip_network is_fernet_key (record x { setup_agent_allow_ips = texts })
        ≡ ok (record x { setup_agent_allow_ips = texts })
  unfolding validate
  revalidate x texts chosen normal produced = ground (arith, check_choices_same x texts)

  -- Validating settings that were validated before accepts them and changes nothing, given that
  -- the text of a network is read as that network.
  pub validate-validate :
      (x y : Settings)
      → NetworkLaw ip_network
      → validate ip_network is_fernet_key x ≡ ok y
      → validate ip_network is_fernet_key y ≡ ok y
  validate-validate x y law h =
      let passed = validate-IsPassed x y h in
      let normal =
        normalize_networks-normal (is_guarded x) passed.texts
          (normalize_networks-All _ _ _ law passed.normalized) in
      subst (λ z. validate ip_network is_fernet_key z ≡ ok z) (sym passed.result)
        (revalidate x passed.texts passed.chosen normal passed.produced)
