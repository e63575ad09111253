-- ===== src/Cmd/Cluster/Valid.antt =====
-- What the configurations of a new cluster have in common.
use Prim.Native.String.{◌++◌ as ◌++ˢ◌}
use dknet.Base.{
  ℕ, suc, ◌≤◌, String, Bool, true, false, List, [], ◌∷◌, Result, ok, err, ◌≡◌, ◌≢◌, inr, refl,
  arith, contains, length,
}
use dknet.Base.Texts.{format_int}
use dknet.P2p.Discovery.{chooses_dht}
use dknet.Config.{NodeConfig, validate_config}
use dknet.Cmd.Cluster.{NodeInfo, ClusterLibs, at_node, node_multiaddr}

-- the nodes are numbered from `start` on
abbrev Numbered : ℕ → List NodeInfo → Type 0
Numbered start [] = Unit
Numbered start (info ∷ infos) = (info.index ≡ start) × Numbered (suc start) infos

module _ (libs : ClusterLibs) (docker : Bool) (output_dir : String) where
  -- `peer_id` is the identity of the key that is made for the node with the number `j`
  abbrev pub IsKeyed : ℕ → String → Type 0
  IsKeyed j peer_id =
      libs.generate_key (libs.join output_dir ("node" ++ˢ format_int j)) ≡ inr peer_id

  -- the nodes have the addresses of their keys
  abbrev Reached : List NodeInfo → Type 0
  Reached [] = Unit
  Reached (info ∷ infos) =
      (IsKeyed info.index info.peer_id
        × (info.multiaddr ≡ node_multiaddr docker info.index info.peer_id))
      × Reached infos

  -- The configuration of the node with the number `i` passes the validation of Load. Its bootstrap
  -- peers are one fewer than the nodes, among them every other node under the address with the peer
  -- ID of the key made for it. The node will use mDNS, which reads no bootstrap peers.
  pub record Configured (nodes : ℕ) (written : String × NodeConfig) : Type 0 where
    pub i : ℕ
    pub moniker : written.1.tss.moniker ≡ "TSS Node " ++ˢ format_int i
    pub accepted : validate_config written.1 ≡ ok tt
    pub count : suc (length written.1.p2p.bootstrap_peers) ≡ nodes
    pub lists :
        (j : ℕ)
        → 1 ≤ j
        → j ≤ nodes
        → j ≢ i
        → (peer_id : String) × IsKeyed j peer_id
          × (contains written.1.p2p.bootstrap_peers (node_multiaddr docker j peer_id) ≡ true)
    pub uses_mdns : chooses_dht written.1.p2p.net_mod ≡ false

at_node-ok : (text : String) (i : ℕ) (r : Result (Unit {0})) → at_node text i r ≡ ok tt → r ≡ ok tt
at_node-ok text i (ok u) h = refl
at_node-ok text i (err e) h = absurd (ground arith)
at_node-ok text i Result.panics h = absurd (ground arith)
