-- ===== src/Config/Loading.antt =====
-- What a configuration that was loaded without error guarantees.
use mathlib.Core.Path.{subst}
use dknet.Base.{
  ℕ, suc, String, true, false, [], ◌∷◌, Option, none, some, ok, ◌≡◌, ◌≢◌, ◌⊎◌, inl, inr, refl,
  arith, eq_iff, ==_of_ne, ◌==◌, ◌||◌, contains, Bool-cases, Result-cases, ℤ, pos, negsuc, ap, sym,
  ◌∙◌,
}
use dknet.Config.{
  NodeConfig, ValidationServiceConfig, Files, Viper, validate_config, validate_service,
  validate_logging_config, resolve, update_paths_for_node_dir, load, read_errors, set_defaults,
  is_not_positive,
}

-- What `validateConfig` asks of a configuration.
pub record IsValid (c : NodeConfig) : Type 0 where
  pub named : c.tss.moniker ≢ ""
  pub storage : (c.storage.type ≡ "file") ⊎ (c.storage.type ≡ "leveldb")
  pub service :
      (v : ValidationServiceConfig)
      → c.tss.validation_service ≡ some v
      → v.enabled ≡ true
      → (v.url ≢ "") × ((n : ℕ) × (v.timeout_seconds ≡ pos (suc n)))
  pub secret : c.security.api_auth.enabled ≡ true → c.security.api_auth.jwt_secret ≢ ""
  pub level : contains ("debug" ∷ "info" ∷ "warn" ∷ "error" ∷ []) c.logging.level ≡ true
  pub environment : contains ("dev" ∷ "pro" ∷ []) c.logging.environment ≡ true

positive : (t : ℤ) → is_not_positive t ≡ false → (n : ℕ) × (t ≡ pos (suc n))
positive (pos ℕ.zero) h = ground arith
positive (pos (ℕ.suc n)) h = (n, refl)
positive (negsuc n) h = ground arith

enabled_service :
    (v : ValidationServiceConfig)
    → validate_service (some v) ≡ ok tt
    → v.enabled ≡ true
    → (v.url ≢ "") × ((n : ℕ) × (v.timeout_seconds ≡ pos (suc n)))
unfolding validate_service
enabled_service v h enabled =
    let timed : is_not_positive v.timeout_seconds ≡ false = ground (arith, eq_iff v.url "") in
    (ground (arith, eq_iff v.url ""), positive v.timeout_seconds timed)

valid_service :
    (o : Option ValidationServiceConfig)
    → ((v : ValidationServiceConfig)
        → o ≡ some v
        → v.enabled ≡ true
        → (v.url ≢ "") × ((n : ℕ) × (v.timeout_seconds ≡ pos (suc n))))
    → validate_service o ≡ ok tt
unfolding validate_service
valid_service none h = refl
valid_service (some v) h = elim (Bool-cases v.enabled) [
  | inl e ↦
      let (given, (n, time)) = h v refl e in rw e (rw (==_of_ne v.url "" given) (rw time refl))
  | inr e ↦ rw e refl
]

module _ (c : NodeConfig) where
  service_accepted : validate_config c ≡ ok tt → validate_service c.tss.validation_service ≡ ok tt
  unfolding validate_config
  service_accepted h = elim (Result-cases (validate_service c.tss.validation_service)) [
    | inl bad ↦ ground arith
    | inr (u, e) ↦ ground arith
  ]

  logging_accepted : validate_config c ≡ ok tt → validate_logging_config c.logging ≡ ok tt
  unfolding validate_config
  logging_accepted h = elim (Result-cases (validate_logging_config c.logging)) [
    | inl bad ↦ ground arith
    | inr (u, e) ↦ ground arith
  ]

  logging_known :
      validate_logging_config c.logging ≡ ok tt
      → (contains ("debug" ∷ "info" ∷ "warn" ∷ "error" ∷ []) c.logging.level ≡ true)
        × (contains ("dev" ∷ "pro" ∷ []) c.logging.environment ≡ true)
  unfolding validate_logging_config
  logging_known h = (ground arith, ground arith)

  -- A configuration that is accepted is valid.
  pub validate_config-IsValid : validate_config c ≡ ok tt → IsValid c
  unfolding validate_config
  validate_config-IsValid h =
      let (level, environment) = logging_known (logging_accepted h) in
      record {
        named = ground (arith, eq_iff c.tss.moniker "");
        storage = elim (Bool-cases (c.storage.type == "file")) [
          | inl e ↦ inl ((eq_iff c.storage.type "file").0 e)
          | inr e ↦ inr ((eq_iff c.storage.type "leveldb").0 (ground arith))
        ];
        service = λ v same. enabled_service v (ap validate_service (sym same) ∙ service_accepted h);
        secret = λ enabled. ground (arith, eq_iff c.security.api_auth.jwt_secret "");
        level = level;
        environment = environment;
      }

  -- A valid configuration is accepted.
  IsValid-accepted : IsValid c → validate_config c ≡ ok tt
  unfolding validate_config validate_logging_config
  IsValid-accepted v =
      let service = valid_service c.tss.validation_service v.service in
      let named : (c.tss.moniker == "") ≡ false = ==_of_ne c.tss.moniker "" v.named in
      let stored : (c.storage.type == "file" || c.storage.type == "leveldb") ≡ true =
        elim v.storage [
          | inl e ↦ ground (arith, eq_iff c.storage.type "file")
          | inr e ↦ ground (arith, eq_iff c.storage.type "leveldb")
        ] in
      let level = v.level in
      let environment = v.environment in
      elim (Bool-cases c.security.api_auth.enabled) [
        | inl e ↦
            let secret : (c.security.api_auth.jwt_secret == "") ≡ false =
              ==_of_ne c.security.api_auth.jwt_secret "" (v.secret e) in
            ground arith
        | inr e ↦ ground arith
      ]

-- What path/filepath promises: an absolute path stays absolute when names are joined to it, and
-- `Abs` gives an absolute path.
pub record FilesLaws (files : Files) : Type 0 where
  pub absolute_join :
      (dir path : String)
      → files.is_absolute dir ≡ true
      → files.is_absolute (files.join dir path) ≡ true
  pub absolute_path :
      (path dir : String) → files.absolute path ≡ ok dir → files.is_absolute dir ≡ true

module _ (files : Files) (laws : FilesLaws files) where
  -- a path that is not given, or absolute
  abbrev pub Anchored : String → Type 0
  Anchored path = (path ≡ "") ⊎ (files.is_absolute path ≡ true)

  resolve-Anchored :
      (dir path : String) → files.is_absolute dir ≡ true → Anchored (resolve files dir path)
  unfolding resolve
  resolve-Anchored dir path absolute = elim (Bool-cases (path == "")) [
    | inl e ↦ inl (ground (arith, eq_iff path ""))
    | inr e ↦ elim (Bool-cases (files.is_absolute path)) [
      | inl f ↦ inr (ground arith)
      | inr f ↦
          let joined : files.is_absolute (files.join dir path) ≡ true =
            laws.absolute_join dir path absolute in
          inr (ground arith)
    ]
  ]

  -- What `Load` guarantees: the configuration is valid, and its paths are absolute or not given.
  pub record IsLoaded (c : NodeConfig) : Type 0 where
    pub valid : IsValid c
    pub directory : files.is_absolute c.config_dir ≡ true
    pub exists : files.is_missing c.config_dir ≡ false
    pub cert_file : Anchored c.security.cert_file
    pub key_file : Anchored c.security.key_file
    pub private_key_file : Anchored c.p2p.private_key_file
    pub storage_path : Anchored c.storage.path

  resolved-IsLoaded :
      (c : NodeConfig) (dir : String)
      → files.is_absolute dir ≡ true
      → files.is_missing dir ≡ false
      → validate_config (update_paths_for_node_dir files (record c { config_dir = dir }) dir)
        ≡ ok tt
      → IsLoaded (update_paths_for_node_dir files (record c { config_dir = dir }) dir)
  unfolding update_paths_for_node_dir
  resolved-IsLoaded c dir absolute exists accepted = record {
    valid = validate_config-IsValid _ accepted;
    directory = absolute;
    exists = exists;
    cert_file = resolve-Anchored dir c.security.cert_file absolute;
    key_file = resolve-Anchored dir c.security.key_file absolute;
    private_key_file = resolve-Anchored dir c.p2p.private_key_file absolute;
    storage_path = resolve-Anchored dir c.storage.path absolute;
  }

  -- what is known when `Load` has returned without error
  load-steps :
      (viper : Viper) (hostname node_dir : String) (c : NodeConfig)
      → load files viper hostname node_dir ≡ ok c
      → (dir : String) × (r : NodeConfig) × (files.absolute node_dir ≡ ok dir)
        × (files.is_missing dir ≡ false)
        × (validate_config (update_paths_for_node_dir files (record r { config_dir = dir }) dir)
            ≡ ok tt)
        × (update_paths_for_node_dir files (record r { config_dir = dir }) dir ≡ c)
  unfolding load
  load-steps viper hostname node_dir c loaded = elim (Result-cases (files.absolute node_dir)) [
    | inl bad ↦ absurd (ground arith)
    | inr (dir, a) ↦
        elim (Result-cases
          (read_errors files (viper.read_in_config (files.join dir "config.yaml")))) [
            | inl bad ↦ absurd (ground arith)
            | inr (u, e) ↦
                elim (Result-cases
                  (viper.unmarshal (set_defaults hostname) (files.join dir "config.yaml"))) [
                    | inl bad ↦ absurd (ground arith)
                    | inr (r, f) ↦
                        let x : NodeConfig =
                          update_paths_for_node_dir files (record r { config_dir = dir }) dir in
                        elim (Result-cases (validate_config x)) [
                          | inl bad ↦ absurd (ground arith)
                          | inr (v, g) ↦ (dir, r, a, ground arith, g, ground arith)
                        ]
                  ]
          ]
  ]

  -- A configuration that is loaded without error is valid, names an existing absolute directory,
  -- and each of its paths is absolute or not given (path/filepath keeps its laws).
  pub load-IsLoaded :
      (viper : Viper) (hostname node_dir : String) (c : NodeConfig)
      → load files viper hostname node_dir ≡ ok c
      → IsLoaded c
  load-IsLoaded viper hostname node_dir c loaded =
      let (dir, r, absolute, exists, accepted, same) =
        load-steps viper hostname node_dir c loaded in
      subst (λ x. IsLoaded x) same
        (resolved-IsLoaded r dir (laws.absolute_path node_dir dir absolute) exists accepted)
