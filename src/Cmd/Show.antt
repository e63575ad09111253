-- ===== src/Cmd/Show.antt =====
-- cmd/dknet/show_node.go: what is shown of a node. `Sscanf` of a number is a parameter.
pub mod Addresses
use Prim.Native.Char.{Char, code}
use Prim.Native.String.{len, slice, ◌∷◌ as ◌∷ˢ◌, ◌++◌ as ◌++ˢ◌, [] as empty}
use text.Mathlib.Text.{starts_with, find?}
use dknet.Base.{
  ℕ, zero, suc, ◌+◌, String, Bool, true, false, not, List, [], ◌∷◌, Option, none, some, ◌==◌, ◌==ℕ◌,
  ◌&&◌, ◌||◌, if◌then◌else◌, ltb, ℤ, length,
}
use dknet.Base.Texts.{format_int}
use dknet.Config.{NodeConfig}

-- strings.Split(text, "/")
abbrev pub push : Char → List String → List String
push c [] = (c ∷ˢ empty) ∷ []
push c (part ∷ parts) = (c ∷ˢ part) ∷ parts

unfoldable pub split_slash : String → List String
split_slash empty = empty ∷ []
split_slash (c ∷ˢ s) =
    let rest = split_slash s in if code c ==ℕ b'/' then empty ∷ rest else push c rest

-- the second and the fourth part, if there are five
abbrev pub host_and_port : List String → Option (String × String)
host_and_port (a ∷ b ∷ host ∷ d ∷ port ∷ parts) = some (host, port)
host_and_port _ = none

-- fmt.Sscanf(text, "%d", &n), for the numbers that are not negative
abbrev pub Scan : Type 0
Scan = String → Option ℕ

module _ (scan : Scan) where
  port_of : Option ℕ → ℕ
  port_of none = 4001
  port_of (some n) = n

  host_of : Option (String × String) → String × ℕ
  host_of none = ("", 0)
  host_of (some (host, port)) = (host, port_of (scan port))

  -- the listen address and the port of the first address
  unfoldable pub listen_of : List String → String × ℕ
  unfolding host_of port_of split_slash
  listen_of [] = ("", 0)
  listen_of (addr ∷ addrs) = host_of (host_and_port (split_slash addr))

  numbered_ip : Option ℕ → String
  numbered_ip none = ""
  numbered_ip (some n) = "172.20.0." ++ˢ format_int (n + 1)

  -- inferDockerIPFromPeerID
  unfoldable pub infer_ip_from_peer_id : String → String
  unfolding numbered_ip
  infer_ip_from_peer_id peer_id =
      if starts_with peer_id "node" && ltb 4 (len peer_id)
      then numbered_ip (scan (slice peer_id 4 (len peer_id)))
      else ""

  -- some peer has an address of the Docker network
  unfoldable pub mentions_docker : List String → Bool
  mentions_docker [] = false
  mentions_docker (peer ∷ peers) = elim (find? peer "/ip4/172.20.0.") [
    | none ↦ mentions_docker peers
    | some i ↦ true
  ]

  pattern_ip : List String → Option ℕ → String
  pattern_ip peers none = ""
  pattern_ip peers (some zero) = ""
  pattern_ip peers (some (suc n)) =
      if mentions_docker peers then "172.20.0." ++ˢ format_int (suc n + 1) else ""

  -- inferDockerIPFromBootstrapPeers
  unfoldable pub infer_ip_from_bootstrap_peers : List String → String → String
  unfolding pattern_ip mentions_docker
  infer_ip_from_bootstrap_peers peers peer_id =
      if starts_with peer_id "node" && ltb 4 (len peer_id)
      then pattern_ip peers (scan (slice peer_id 4 (len peer_id)))
      else ""

  unfoldable pub address_text : String → ℕ → String → String
  address_text host port peer_id =
      "/ip4/" ++ˢ host ++ˢ "/tcp/" ++ˢ format_int port ++ˢ "/p2p/" ++ˢ peer_id

  -- buildDisplayMultiaddr, for the bootstrap peers of the configuration
  unfoldable pub build_display_multiaddr : List String → String → ℕ → String → String
  unfolding address_text infer_ip_from_peer_id infer_ip_from_bootstrap_peers
  build_display_multiaddr peers listen_addr port peer_id =
      if listen_addr == "0.0.0.0"
      then (if not (infer_ip_from_peer_id peer_id == "")
          then address_text (infer_ip_from_peer_id peer_id) port peer_id
          else if not (length peers ==ℕ 0)
              && not (infer_ip_from_bootstrap_peers peers peer_id == "")
          then address_text (infer_ip_from_bootstrap_peers peers peer_id) port peer_id
          else address_text "172.20.0.2" port peer_id)
      else address_text listen_addr port peer_id

  -- runShowNode: the multiaddress that is shown for a configuration and the ID of the node's key
  unfoldable pub shown_multiaddr : NodeConfig → String → String
  unfolding listen_of build_display_multiaddr
  shown_multiaddr cfg peer_id =
      build_display_multiaddr cfg.p2p.bootstrap_peers (listen_of cfg.p2p.listen_addrs).0
        (listen_of cfg.p2p.listen_addrs).1 peer_id
