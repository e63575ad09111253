-- ===== src/P2p/Discovery.antt =====
-- internal/p2p/mdns.go, dht.go and `NewPeerDiscovery` of types.go: finding other peers and connecting
-- to them. zeroconf, the DHT, libp2p and multiaddresses are parameters.
pub mod Rounds
use Prim.Native.String.{slice, len, ◌++◌ as ◌++ˢ◌}
use text.Mathlib.Text.{starts_with}
use dknet.Base.{
  ℕ, String, Bool, true, false, not, List, [], ◌∷◌, ◌++◌, Option, none, some, Result, ok, Error, M,
  ◌==◌, ◌&&◌, ◌||◌, if◌then◌else◌, length, ltb, contains, ◌≡◌, ◌==ℕ◌,
}
use dknet.Base.Texts.{format_int, lower_codes, same_codes}

-- peer.AddrInfo
pub record AddrInfo : Type 0 where
  pub id : String
  pub addrs : List String

-- multiaddr.NewMultiaddr and peer.IDFromP2PAddr; `none` is an error
pub record Addresses : Type 0 where
  pub new_multiaddr : String → Option String
  pub id_from_p2p_addr : String → Option String

-- zeroconf.ServiceEntry
pub record ServiceEntry : Type 0 where
  pub text : List String
  pub port : ℕ
  pub addr_ipv4 : List String
  pub addr_ipv6 : List String

-- NewPeerDiscovery: whether it makes a DHT; else it makes an mDNS
unfoldable pub chooses_dht : String → Bool
unfolding lower_codes same_codes
chooses_dht net_mod = same_codes (lower_codes net_mod) (b'd' ∷ b'h' ∷ b't' ∷ [])

module _ (lib : Addresses) where
  -- the peer ID of one TXT record, if it has one
  unfoldable pub record_id : String → Option String
  record_id txt =
      if starts_with txt "dnsaddr="
      then elim (lib.new_multiaddr (slice txt 8 (len txt))) [
        | none ↦ none
        | some maddr ↦ lib.id_from_p2p_addr maddr
      ]
      else none

  -- the loop over the TXT records: the first peer ID
  unfoldable pub first_id : List String → Option String
  first_id [] = none
  first_id (txt ∷ records) = elim (record_id txt) [ none ↦ first_id records | some id ↦ some id ]

  -- the addresses that can be parsed
  unfoldable pub entry_addrs : String → ℕ → String → List String → List String
  entry_addrs ip_name port id [] = []
  entry_addrs ip_name port id (ip ∷ ips) =
      let rest = entry_addrs ip_name port id ips in
      let text = ip_name ++ˢ ip ++ˢ "/tcp/" ++ˢ format_int port ++ˢ "/p2p/" ++ˢ id in
      elim (lib.new_multiaddr text) [ none ↦ rest | some maddr ↦ maddr ∷ rest ]

  with_addrs : String → List String → Option AddrInfo
  with_addrs id [] = none
  with_addrs id (addr ∷ addrs) = some (record { id = id; addrs = addr ∷ addrs })

  entry_peer : String → ServiceEntry → Option String → Option AddrInfo
  entry_peer self entry none = none
  entry_peer self entry (some id) =
      if id == self
      then none
      else with_addrs id (
          entry_addrs "/ip4/" entry.port id entry.addr_ipv4
          ++ entry_addrs "/ip6/" entry.port id entry.addr_ipv6)

  -- processDiscoveredService, up to the channel: the peer that is sent to it
  unfoldable pub process_discovered_service : String → ServiceEntry → Option AddrInfo
  unfolding entry_peer with_addrs
  process_discovered_service self entry = entry_peer self entry (first_id entry.text)

-- an attempt to connect, with the peers that were connected then
pub record Attempt : Type 0 where
  pub target : AddrInfo
  pub connected : List String

-- mdnsNet: what the channel `peerChan` holds, whether it is closed, and whether the context is
-- cancelled; then the connected peers of the host and the attempts so far. A round of the DHT uses the
-- last two.
pub record Discovery : Type 0 where
  pub peer_chan : List AddrInfo
  pub closed : Bool
  pub cancelled : Bool
  pub connected : List String
  pub attempts : List Attempt

-- a send to the channel when its case is taken
send_peer : AddrInfo → M Discovery (Unit {0})
send_peer pi s =
    if s.closed
    then (Result.panics, s)
    else (ok tt, record s { peer_chan = s.peer_chan ++ pi ∷ [] })

-- HandlePeerFound, and the end of processDiscoveredService. A closed channel, or one with room, is
-- ready; `sends` says which case is taken if the context is done as well.
unfoldable pub handle_peer_found : Bool → AddrInfo → M Discovery (Unit {0})
unfolding send_peer
handle_peer_found sends pi s =
    if s.closed || ltb (length s.peer_chan) 10
    then (if s.cancelled && not sends then (ok tt, s) else send_peer pi s)
    else (ok tt, s)

module _ (connect : AddrInfo → Option Error) where
  connect_result : AddrInfo → Option Error → Discovery → Discovery
  connect_result p none s = record s { connected = p.id ∷ s.connected }
  connect_result p (some e) s = s

  -- `Connect` of the host, whose error is logged
  unfoldable pub connect_to_peer : AddrInfo → Discovery → Discovery
  unfolding connect_result
  connect_to_peer p s =
      connect_result p (connect p)
        (record s { attempts = record { target = p; connected = s.connected } ∷ s.attempts })

  -- what `handlePeers` does with a peer from the channel
  unfoldable pub handle_peer : String → AddrInfo → Discovery → Discovery
  handle_peer self p s =
      if p.id == self then s else if contains s.connected p.id then s else connect_to_peer p s

  receive : String → List AddrInfo → Discovery → Discovery
  receive self [] s = if s.closed then handle_peer self (record { id = ""; addrs = [] }) s else s
  receive self (p ∷ queued) s = handle_peer self p (record s { peer_chan = queued })

  -- one round of `handlePeers`; a closed channel gives the zero value when it is empty
  unfoldable pub handle_peers : String → Discovery → Discovery
  unfolding receive
  handle_peers self s = receive self s.peer_chan s

  -- what `discoverPeers` of the DHT does with a peer
  unfoldable pub discovered_peer : String → AddrInfo → Discovery → Discovery
  discovered_peer self p s =
      if p.id == self
      then s
      else if length p.addrs ==ℕ 0
      then s
      else if contains s.connected p.id
      then s
      else connect_to_peer p s

  -- discoverPeers, over the peers that are found before the channel closes or the time is over
  unfoldable pub discover_peers : String → List AddrInfo → Discovery → Discovery
  discover_peers self [] s = s
  discover_peers self (p ∷ found) s = discover_peers self found (discovered_peer self p s)

-- Stop of the mDNS
unfoldable pub stop_mdns : M Discovery (Unit {0})
stop_mdns s =
    if s.closed
    then (Result.panics, record s { cancelled = true })
    else (ok tt, record s { closed = true; cancelled = true })

-- the bootstrap peers of `Start` of the DHT: those that can be parsed, or else the default ones
unfoldable pub parsed_peers : (String → Option AddrInfo) → List String → List AddrInfo
parsed_peers parse [] = []
parsed_peers parse (addr ∷ addrs) =
    let rest = parsed_peers parse addrs in
    elim (parse addr) [ none ↦ rest | some info ↦ info ∷ rest ]

abbrev pub or_default : List AddrInfo → List AddrInfo → List AddrInfo
or_default [] default = default
or_default (p ∷ peers) default = p ∷ peers

unfoldable pub dht_bootstrap_peers :
    (String → Option AddrInfo) → List AddrInfo → List String → List AddrInfo
dht_bootstrap_peers parse default addrs = or_default (parsed_peers parse addrs) default

-- What happens to the discovery of a node over time: mDNS reports a peer, an entry is discovered by
-- browsing, `handlePeers` goes round, a round of the DHT ends, it is stopped, or connections change.
pub data Happens (lib : Addresses) (self : String) (s : Discovery) : Discovery → Type 0 where
  peer_found : (sends : Bool) (pi : AddrInfo) → Happens lib self s (handle_peer_found sends pi s).1
  entry_found :
      (sends : Bool) (entry : ServiceEntry) (pi : AddrInfo)
      → process_discovered_service lib self entry ≡ some pi
      → Happens lib self s (handle_peer_found sends pi s).1
  peers_handled :
      (connect : AddrInfo → Option Error) → Happens lib self s (handle_peers connect self s)
  round_ended :
      (connect : AddrInfo → Option Error) (found : List AddrInfo)
      → Happens lib self s (discover_peers connect self found s)
  stopped : Happens lib self s (stop_mdns s).1
  connections_change :
      (connected : List String) → Happens lib self s (record s { connected = connected })

-- the discovery that NewMDNS makes, with the connections that the host has
abbrev pub new_discovery : List String → Discovery
new_discovery connected = record {
  peer_chan = [];
  closed = false;
  cancelled = false;
  connected = connected;
  attempts = [];
}

pub data History (lib : Addresses) (self : String) : Discovery → Type 0 where
  started : (connected : List String) → History lib self (new_discovery connected)
  next : {s t : Discovery} → History lib self s → Happens lib self s t → History lib self t
