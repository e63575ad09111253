-- ===== src/Cmd/Node.antt =====
-- cmd/dknet/init_node.go, `runInitNode`.
use Prim.Native.String.{◌++◌ as ◌++ˢ◌}
use dknet.Base.{ℕ, String, Bool, List, Result, ok, ◌==◌, if◌then◌else◌, wrapping}
use dknet.Base.Texts.{format_int}
use dknet.P2p.Network.{then_do}
use dknet.P2p.Host.{checked, returned}
use dknet.Config.{NodeConfig}
use dknet.Cmd.Cluster.{ClusterLibs, NodeInfo, node_config}

-- the flags of init-node
pub record NodeFlags : Type 0 where
  pub moniker : String
  pub output_dir : String
  pub bootstrap_peers : List String
  pub http_port : ℕ
  pub grpc_port : ℕ
  pub p2p_port : ℕ
  pub listen_addr : String

-- runInitNode: the configuration that it writes, with its path
unfoldable pub init_node : ClusterLibs → Bool → NodeFlags → Result (String × NodeConfig)
unfolding node_config
init_node libs docker flags =
    let moniker : String = if flags.moniker == "" then "node1" else flags.moniker in
    let dir : String = libs.join flags.output_dir "config" in
    let path : String = libs.join dir "config.yaml" in
    then_do (wrapping "failed to create node directory" (checked (libs.make_dir dir))) (λ _.
      then_do (returned (libs.generate_key dir)) (λ peer_id.
        let cfg : NodeConfig =
          node_config moniker flags.bootstrap_peers flags.listen_addr flags.p2p_port flags.http_port
            flags.grpc_port docker in
        let info : NodeInfo = record {
          index = 0;
          node_dir = dir;
          peer_id = peer_id;
          multiaddr =
              "/ip4/"
              ++ˢ flags.listen_addr
              ++ˢ "/tcp/"
              ++ˢ format_int flags.p2p_port
              ++ˢ "/p2p/"
              ++ˢ peer_id;
        } in
        then_do (wrapping "failed to save config file" (checked (libs.write_config path cfg))) (λ _.
          then_do (wrapping "failed to generate node info" (checked (libs.write_info info)))
            (λ _. ok (path, cfg)))))
