-- ===== src/Examples/Settings.antt =====
-- Configurations and passwords at concrete inputs.
use dknet.Base.{false, [], none, ok, ◌≡◌, ◌↔◌, refl, pos, ◌==◌, ==_of_eq, contains, arith}
use dknet.Common.Password.{validate_password}
use dknet.Common.Password.Strength.{IsStrong, validate_password_iff}
use dknet.Config.{
  NodeConfig, Files, Viper, file_read, load, update_paths_for_node_dir, validate_config,
  validate_service, validate_logging_config,
}
use dknet.Config.Loading.{FilesLaws, IsLoaded, load-IsLoaded}

validate_password_iff_example : (validate_password "Secret-12" ≡ ok tt) ↔ IsStrong "Secret-12"
validate_password_iff_example = validate_password_iff "Secret-12"

-- every path below the one root counts as absolute
abbrev files : Files
files = record {
  absolute = λ path. ok "/node";
  is_absolute = λ path. path == "/node";
  join = λ dir path. dir;
  is_missing = λ path. false;
}

files-FilesLaws : FilesLaws files
files-FilesLaws = record {
  absolute_join = λ dir path absolute. absolute;
  absolute_path = λ path dir e. ==_of_eq dir "/node" (ground arith);
}

abbrev read : NodeConfig
read = record {
  http = record { port = pos 8080; host = "0.0.0.0" };
  grpc = record { port = pos 9090; host = "0.0.0.0" };
  p2p = record {
    listen_addrs = [];
    bootstrap_peers = [];
    private_key_file = "node_key";
    net_mod = "mdns";
  };
  storage = record { type = "leveldb"; path = "data"; options = [] };
  tss = record { moniker = "alice"; validation_service = none };
  security = record {
    tls_enabled = false;
    cert_file = "";
    key_file = "";
    api_auth = record { enabled = false; jwt_secret = ""; jwt_issuer = "" };
    access_control = record { enabled = false; allowed_peers = [] };
  };
  logging = record { level = "info"; environment = "dev"; output = "stdout" };
  config_dir = "";
}

abbrev viper : Viper
viper = record { read_in_config = λ path. file_read; unmarshal = λ defaults path. ok read }

abbrev loaded : NodeConfig
loaded = update_paths_for_node_dir files (record read { config_dir = "/node" }) "/node"

loads : load files viper "host" "node" ≡ ok loaded
unfolding load validate_config validate_service validate_logging_config contains
    update_paths_for_node_dir
loads = refl

load-IsLoaded_example : IsLoaded files files-FilesLaws loaded
load-IsLoaded_example = load-IsLoaded files files-FilesLaws viper "host" "node" loaded loads
