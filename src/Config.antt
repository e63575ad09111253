-- ===== src/Config.antt =====
-- internal/config/config.go: what a node is configured with, and how the configuration is loaded.
-- viper, the file system and path/filepath are parameters.
pub mod Loading
use dknet.Base.{
  ℕ, String, Bool, true, false, not, List, [], ◌∷◌, Option, none, some, Result, ok, err, Error,
  errorf, wrapf, str, ℤ, pos, negsuc, is_negative, ◌==◌, ◌&&◌, ◌||◌, if◌then◌else◌, contains,
  wrapping,
}
use dknet.P2p.Network.{then_do}
use dknet.Api.Auth.{AuthConfig}

-- HTTPConfig and GRPCConfig
pub record ServerAddress : Type 0 where
  pub port : ℤ
  pub host : String

pub record P2pConfig : Type 0 where
  pub listen_addrs : List String
  pub bootstrap_peers : List String
  pub private_key_file : String
  pub net_mod : String

pub record StorageConfig : Type 0 where
  pub type : String
  pub path : String
  pub options : List (String × String)

pub record ValidationServiceConfig : Type 0 where
  pub enabled : Bool
  pub url : String
  pub timeout_seconds : ℤ
  pub headers : List (String × String)
  pub insecure_skip_verify : Bool

pub record TssConfig : Type 0 where
  pub moniker : String
  pub validation_service : Option ValidationServiceConfig

pub record AccessControlConfig : Type 0 where
  pub enabled : Bool
  pub allowed_peers : List String

pub record SecurityConfig : Type 0 where
  pub tls_enabled : Bool
  pub cert_file : String
  pub key_file : String
  pub api_auth : AuthConfig
  pub access_control : AccessControlConfig

pub record LoggingConfig : Type 0 where
  pub level : String
  pub environment : String
  pub output : String

pub record NodeConfig : Type 0 where
  pub http : ServerAddress
  pub grpc : ServerAddress
  pub p2p : P2pConfig
  pub storage : StorageConfig
  pub tss : TssConfig
  pub security : SecurityConfig
  pub logging : LoggingConfig
  pub config_dir : String

-- the value of a default
pub data Setting : Type 0 where
  text_setting : String → Setting
  number_setting : ℕ → Setting
  flag_setting : Bool → Setting
  texts_setting : List String → Setting

-- setDefaults: what is given to `SetDefault`, in order
unfoldable pub set_defaults : String → List (String × Setting)
set_defaults hostname =
    ("server.http.host", text_setting "0.0.0.0")
    ∷ ("server.http.port", number_setting 8080)
    ∷ ("server.grpc.host", text_setting "0.0.0.0")
    ∷ ("server.grpc.port", number_setting 9090)
    ∷ ("p2p.listen_addrs", texts_setting ("/ip4/0.0.0.0/tcp/4001" ∷ []))
    ∷ ("p2p.bootstrap_peers", texts_setting [])
    ∷ ("p2p.private_key_file", text_setting "node_key")
    ∷ ("p2p.net_mod", text_setting "mdns")
    ∷ ("storage.type", text_setting "leveldb")
    ∷ ("storage.path", text_setting "data")
    ∷ ("tss.moniker", text_setting hostname)
    ∷ ("tss.validation_service.enabled", flag_setting false)
    ∷ ("tss.validation_service.timeout_seconds", number_setting 30)
    ∷ ("tss.validation_service.insecure_skip_verify", flag_setting false)
    ∷ ("security.tls_enabled", flag_setting false)
    ∷ ("security.cert_file", text_setting "")
    ∷ ("security.key_file", text_setting "")
    ∷ ("security.api_auth.enabled", flag_setting false)
    ∷ ("security.api_auth.jwt_secret", text_setting "")
    ∷ ("security.api_auth.jwt_issuer", text_setting "")
    ∷ ("security.access_control.enabled", flag_setting false)
    ∷ ("security.access_control.allowed_peers", texts_setting [])
    ∷ ("logging.level", text_setting "info")
    ∷ ("logging.environment", text_setting "dev")
    ∷ ("logging.output", text_setting "stdout")
    ∷ []

-- t <= 0
abbrev pub is_not_positive : ℤ → Bool
is_not_positive (pos ℕ.zero) = true
is_not_positive (pos (ℕ.suc n)) = false
is_not_positive (negsuc n) = true

-- the configuration of the validation service, if it is enabled
unfoldable pub validate_service : Option ValidationServiceConfig → Result (Unit {0})
validate_service none = ok tt
validate_service (some v) =
    if not v.enabled
    then ok tt
    else if v.url == ""
    then err (errorf "validation service URL cannot be empty when validation service is enabled" [])
    else if is_not_positive v.timeout_seconds
    then err (errorf "validation service timeout must be positive" [])
    else ok tt

-- validateLoggingConfig
unfoldable pub validate_logging_config : LoggingConfig → Result (Unit {0})
validate_logging_config c =
    if not (contains ("debug" ∷ "info" ∷ "warn" ∷ "error" ∷ []) c.level)
    then err (errorf "invalid log level: %s, must be one of: %v" (str c.level ∷ []))
    else if not (contains ("dev" ∷ "pro" ∷ []) c.environment)
    then err (errorf "invalid log environment: %s, must be one of: %v" (str c.environment ∷ []))
    else ok tt

-- validateConfig
unfoldable pub validate_config : NodeConfig → Result (Unit {0})
validate_config c =
    if c.tss.moniker == ""
    then err (errorf "moniker cannot be empty" [])
    else if not (c.storage.type == "file" || c.storage.type == "leveldb")
    then err (errorf "unsupported storage type: %s" (str c.storage.type ∷ []))
    else then_do (validate_service c.tss.validation_service) (λ _.
      if c.security.api_auth.enabled && (c.security.api_auth.jwt_secret == "")
      then err (errorf "JWT secret cannot be empty when authentication is enabled" [])
      else wrapping "invalid logging configuration" (validate_logging_config c.logging))

-- path/filepath and os.Stat; `absolute` is filepath.Abs and `is_absolute` filepath.IsAbs
pub record Files : Type 0 where
  pub absolute : String → Result String
  pub is_absolute : String → Bool
  pub join : String → String → String
  pub is_missing : String → Bool

-- what `ReadInConfig` finds; viper tells a missing file from other errors
pub data ConfigFile : Type 0 where
  file_read : ConfigFile
  file_not_found : ConfigFile
  file_error : Error → ConfigFile

-- viper on the defaults and a file: reading it, and `Unmarshal`
pub record Viper : Type 0 where
  pub read_in_config : String → ConfigFile
  pub unmarshal : List (String × Setting) → String → Result NodeConfig

module _ (files : Files) where
  -- a non-empty relative path is taken relative to the node's directory
  unfoldable pub resolve : String → String → String
  resolve dir path =
      if not (path == "") && not (files.is_absolute path) then files.join dir path else path

  -- updatePathsForNodeDir
  unfoldable pub update_paths_for_node_dir : NodeConfig → String → NodeConfig
  unfolding resolve
  update_paths_for_node_dir c dir = record c {
    security = record (c.security) {
      cert_file = resolve dir c.security.cert_file;
      key_file = resolve dir c.security.key_file;
    };
    p2p = record (c.p2p) { private_key_file = resolve dir c.p2p.private_key_file };
    storage = record (c.storage) { path = resolve dir c.storage.path };
  }

  abbrev pub read_errors : ConfigFile → Result (Unit {0})
  read_errors (file_error e) = err (wrapf "error reading config file" e)
  read_errors _ = ok tt

  -- Load, with the host's name
  unfoldable pub load : Viper → String → String → Result NodeConfig
  load viper hostname node_dir =
      if node_dir == ""
      then err (errorf "node directory is required" [])
      else then_do
          (wrapping "error converting node directory to absolute path" (files.absolute node_dir))
          (λ dir.
            if files.is_missing dir
            then err (errorf "node directory does not exist: %s" (str dir ∷ []))
            else then_do (read_errors (viper.read_in_config (files.join dir "config.yaml"))) (λ _.
              then_do
                (wrapping "error unmarshaling config"
                  (viper.unmarshal (set_defaults hostname) (files.join dir "config.yaml")))
                (λ c.
                  let config = update_paths_for_node_dir (record c { config_dir = dir }) dir in
                  then_do (wrapping "invalid configuration" (validate_config config))
                    (λ _. ok config))))
