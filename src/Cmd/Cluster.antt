-- ===== src/Cmd/Cluster.antt =====
-- cmd/dknet/init_cluster.go, with what it uses of config.go and utils.go. Files, YAML, templates and libp2p's
-- keys are parameters.
pub mod Valid
pub mod Ports
use Prim.Native.String.{◌++◌ as ◌++ˢ◌}
use dknet.Base.{
  ℕ, zero, suc, ◌+◌, ◌*◌, ◌-◌, String, Bool, true, false, List, [], ◌∷◌, ◌++◌, Option, none, some,
  Result, ok, err, Error, wrapf, wrap_args, number, ℤ, pos, ◌==ℕ◌, ◌==◌, if◌then◌else◌, wrapping,
  ◌⊎◌,
}
use dknet.Base.Texts.{format_int}
use dknet.P2p.Network.{then_do}
use dknet.P2p.Host.{checked, returned}
use dknet.Api.Auth.{AuthConfig}
use dknet.Config.{
  NodeConfig, SecurityConfig, ServerAddress, P2pConfig, StorageConfig, TssConfig,
  ValidationServiceConfig, AccessControlConfig, LoggingConfig,
}

-- getNodeP2PPort
unfoldable pub node_p2p_port : ℕ → Bool → ℕ
node_p2p_port index docker = if docker then 4001 else 4000 + index

-- getNodeListenAddr
unfoldable pub node_listen_addr : Bool → String
node_listen_addr docker = if docker then "0.0.0.0" else "127.0.0.1"

-- generateDefaultSecurityConfig
abbrev pub default_security_config : SecurityConfig
default_security_config = record {
  tls_enabled = false;
  cert_file = "";
  key_file = "";
  api_auth = record {
    enabled = true;
    jwt_secret = "dknet-test-jwt-secret-key-2024";
    jwt_issuer = "dknet-test";
  };
  access_control = record { enabled = false; allowed_peers = [] };
}

-- the configuration that generateAndSaveNodeConfig makes; it does not set `NetMod`
unfoldable pub node_config : String → List String → String → ℕ → ℕ → ℕ → Bool → NodeConfig
node_config moniker bootstrap_peers listen_addr p2p_port http_port grpc_port docker = record {
  http = record { host = "0.0.0.0"; port = pos http_port };
  grpc = record { host = "0.0.0.0"; port = pos grpc_port };
  p2p = record {
    listen_addrs = ("/ip4/" ++ˢ listen_addr ++ˢ "/tcp/" ++ˢ format_int p2p_port) ∷ [];
    bootstrap_peers = bootstrap_peers;
    private_key_file = if docker then "/app/node/node_key" else "./node_key";
    net_mod = "";
  };
  storage = record {
    type = "leveldb";
    path = if docker then "/app/data/storage" else "./data/storage";
    options = [];
  };
  tss = record {
    moniker = moniker;
    validation_service = some (record {
      enabled = false;
      url = "";
      timeout_seconds = pos 30;
      headers = [];
      insecure_skip_verify = false;
    });
  };
  security = default_security_config;
  logging = record { level = "debug"; environment = "dev"; output = "stdout" };
  config_dir = "";
}

-- NodeInfo
pub record NodeInfo : Type 0 where
  pub index : ℕ
  pub node_dir : String
  pub peer_id : String
  pub multiaddr : String

-- the address that the other nodes are given
unfoldable pub node_multiaddr : Bool → ℕ → String → String
unfolding node_listen_addr node_p2p_port
node_multiaddr docker index peer_id =
    if docker
    then "/ip4/172.20.0." ++ˢ format_int (index + 1) ++ˢ "/tcp/4001/p2p/" ++ˢ peer_id
    else "/ip4/"
      ++ˢ node_listen_addr docker
      ++ˢ "/tcp/"
      ++ˢ format_int (node_p2p_port index docker)
      ++ˢ "/p2p/"
      ++ˢ peer_id

-- os.MkdirAll; making and saving the key of a node; writing a configuration as YAML, the node's
-- information and the docker-compose file; path/filepath
pub record ClusterLibs : Type 0 where
  pub make_dir : String → Option Error
  pub generate_key : String → Error ⊎ String
  pub write_config : String → NodeConfig → Option Error
  pub write_info : NodeInfo → Option Error
  pub write_compose : String → ℕ → Option Error
  pub join : String → String → String

-- the loop over the bootstrap peers: all other nodes
unfoldable pub other_multiaddrs : ℕ → List NodeInfo → List String
other_multiaddrs index [] = []
other_multiaddrs index (info ∷ infos) =
    let rest = other_multiaddrs index infos in
    if info.index ==ℕ index then rest else info.multiaddr ∷ rest

unfoldable pub http_port : Bool → ℕ → ℕ
http_port docker index = if docker then 8080 else 8080 + index

unfoldable pub grpc_port : Bool → ℕ → ℕ
grpc_port docker index = if docker then 9090 else 9090 + index + 4

-- the configuration of one node of the cluster
unfoldable pub cluster_config : Bool → List NodeInfo → NodeInfo → NodeConfig
unfolding node_config other_multiaddrs node_listen_addr node_p2p_port http_port grpc_port
cluster_config docker infos info =
    node_config ("TSS Node " ++ˢ format_int info.index) (other_multiaddrs info.index infos)
      (node_listen_addr docker) (node_p2p_port info.index docker) (http_port docker info.index)
      (grpc_port docker info.index) docker

-- `fmt.Errorf("... for node %d: %w", index, err)`
abbrev pub at_node : String → ℕ → Result (Unit {0}) → Result (Unit {0})
at_node text index (ok u) = ok tt
at_node text index (err e) = err (wrap_args text (number index ∷ []) e)
at_node text index Result.panics = Result.panics

module _ (libs : ClusterLibs) (docker : Bool) (output_dir : String) where
  -- the first loop, from an index on, over the nodes that are left
  unfoldable pub node_infos : ℕ → ℕ → Result (List NodeInfo)
  unfolding node_multiaddr
  node_infos index zero = ok []
  node_infos index (suc left) =
      let dir : String = libs.join output_dir ("node" ++ˢ format_int index) in
      then_do (wrapping "failed to create node directory" (checked (libs.make_dir dir))) (λ _.
        then_do (wrapping "failed to generate node key" (returned (libs.generate_key dir)))
          (λ peer_id. then_do (node_infos (suc index) left) (λ infos. ok (
            record {
              index = index;
              node_dir = dir;
              peer_id = peer_id;
              multiaddr = node_multiaddr docker index peer_id;
            }
            ∷ infos))))

  -- the second loop: the configurations, each with its path, in the order in which they are written
  unfoldable pub write_configs : List NodeInfo → List NodeInfo → Result (List (String × NodeConfig))
  unfolding cluster_config
  write_configs all [] = ok []
  write_configs all (info ∷ infos) =
      let path : String = libs.join info.node_dir "config.yaml" in
      let cfg : NodeConfig = cluster_config docker all info in
      then_do
        (at_node "failed to generate config for node %d" info.index
          (checked (libs.write_config path cfg)))
        (λ _.
          then_do
            (at_node "failed to generate node info for node %d" info.index
              (checked (libs.write_info info)))
            (λ _. then_do (write_configs all infos) (λ rest. ok ((path, cfg) ∷ rest))))

  -- runInitCluster: the configurations of a cluster of `nodes` nodes
  unfoldable pub init_cluster : ℕ → Result (List (String × NodeConfig))
  unfolding node_infos write_configs
  init_cluster nodes =
      then_do (wrapping "failed to create output directory" (checked (libs.make_dir output_dir)))
        (λ _. then_do (node_infos 1 nodes) (λ infos. then_do (write_configs infos infos) (λ configs.
          then_do
            (if docker
              then wrapping "failed to generate docker-compose.yaml"
                  (checked (libs.write_compose output_dir nodes))
              else ok tt)
            (λ _. ok configs))))
