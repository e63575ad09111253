-- ===== src/Cmd/Docker.antt =====
-- cmd/dknet/utils.go, the nodes that `generateDockerCompose` puts into its template.
use Prim.Native.String.{◌++◌ as ◌++ˢ◌}
use dknet.Base.{ℕ, zero, suc, ◌+◌, ◌*◌, ◌-◌, String, List, [], ◌∷◌, ◌++◌, true, ◌≡◌, sym, ap, ◌∙◌}
use dknet.Base.Texts.{format_int}
use dknet.Cmd.Cluster.{node_multiaddr}
use dknet.Cmd.Show.Addresses.{append_assoc}

-- DockerNodeConfig, with the fields that depend on the node
pub record DockerNodeConfig : Type 0 where
  pub service_name : String
  pub http_port : ℕ
  pub grpc_port : ℕ
  pub p2p_port : ℕ
  pub ip : String
  pub start_period : ℕ
  pub dependencies : List String

abbrev pub service_name : ℕ → String
service_name index = "tss-node" ++ˢ format_int index

-- the services of the nodes before, in order
unfoldable pub services_before : ℕ → List String
services_before zero = []
services_before (suc n) = services_before n ++ service_name (suc n) ∷ []

-- one round of the loop of generateDockerCompose
unfoldable pub docker_node : ℕ → DockerNodeConfig
unfolding services_before
docker_node index = record {
  service_name = service_name index;
  http_port = 18080 + index;
  grpc_port = 19090 + index + 4;
  p2p_port = 14000 + index;
  ip = "172.20.0." ++ˢ format_int (index + 1);
  start_period = 5 + (index - 1) * 5;
  dependencies = services_before (index - 1);
}

-- the services that generateDockerCompose puts into its file, for the nodes from an index on
unfoldable pub docker_nodes : ℕ → ℕ → List DockerNodeConfig
unfolding docker_node
docker_nodes index zero = []
docker_nodes index (suc left) = docker_node index ∷ docker_nodes (suc index) left

-- The address that init-cluster gives to the other nodes of a Docker cluster is at the node's IP address in
-- the compose file.
pub node_multiaddr-docker_node :
    (index : ℕ) (peer_id : String)
    → node_multiaddr true index peer_id
      ≡ "/ip4/" ++ˢ ((docker_node index).ip ++ˢ ("/tcp/4001/p2p/" ++ˢ peer_id))
unfolding node_multiaddr docker_node
node_multiaddr-docker_node index peer_id =
    let number : String = format_int (index + 1) in
    let rest : String = "/tcp/4001/p2p/" ++ˢ peer_id in
    append_assoc "/ip4/" "172.20.0." (number ++ˢ rest)
    ∙ ap (λ t. "/ip4/" ++ˢ t) (sym (append_assoc "172.20.0." number rest))
