-- ===== src/Examples/Discovering.antt =====
-- The streams of a node to bob and carol, and the peers that a node finds.
use dknet.Base.{
  String, true, false, List, [], ◌∷◌, ◌++◌, Option, none, some, Error, ◌≡◌, ◌≢◌, refl, ne_of_==,
  contains, length, ◌==ℕ◌, if◌then◌else◌, arith, external,
}
use dknet.P2p.Types.{Message}
use dknet.P2p.Streams.{Host, send_frames}
use dknet.P2p.Streams.Reuse.{
  IsTidy, send_frames-IsTidy, new_stream_manager, new_stream_manager-IsTidy,
}
use dknet.P2p.Discovery.{
  AddrInfo, Addresses, Discovery, new_discovery, handle_peer_found, handle_peers, stop_mdns,
  discover_peers, started, next, peer_found, peers_handled, round_ended, stopped,
}
use dknet.P2p.Discovery.Rounds.{IsModest, History-IsModest, discover_peers-connected}
use dknet.Examples.Network.{node, message}

-- the write at time 1 fails
abbrev host : Host
host = record {
  is_closed = λ now c. false;
  open_error = λ now peer. none;
  write_error = λ now c bytes. if now ==ℕ 1 then some (external "reset") else none;
}

abbrev sent : List (String × Message)
sent =
    ("bob", message ("bob" ∷ []))
    ∷ ("bob", message ("bob" ∷ []))
    ∷ ("carol", message ("carol" ∷ []))
    ∷ ("bob", message ("bob" ∷ []))
    ∷ []

send_frames-IsTidy_example : IsTidy (send_frames (node "alice") host sent new_stream_manager)
send_frames-IsTidy_example =
    send_frames-IsTidy (node "alice") host sent new_stream_manager new_stream_manager-IsTidy

abbrev addresses : Addresses
addresses = record { new_multiaddr = λ text. some text; id_from_p2p_addr = λ text. some text }

abbrev bob : AddrInfo
bob = record { id = "bob"; addrs = "/ip4/127.0.0.1/tcp/4001" ∷ [] }

abbrev carol : AddrInfo
carol = record { id = "carol"; addrs = "/ip4/127.0.0.1/tcp/4002" ∷ [] }

abbrev reach : AddrInfo → Option Error
reach p = none

abbrev found_bob : Discovery
found_bob = (handle_peer_found true bob (new_discovery [])).1

abbrev after_round : Discovery
after_round = discover_peers reach "alice" (bob ∷ carol ∷ []) (handle_peers reach "alice" found_bob)

History-IsModest_example : IsModest "alice" (stop_mdns after_round).1
History-IsModest_example = History-IsModest "alice" {lib = addresses} (
    next
      (next (next (next (started []) (peer_found true bob)) (peers_handled reach))
        (round_ended reach (bob ∷ carol ∷ [])))
      stopped)

listed : length carol.addrs ≢ 0
listed h = ground arith

discover_peers-connected_example :
    contains (discover_peers reach "alice" ((bob ∷ []) ++ carol ∷ []) found_bob).connected "carol"
    ≡ true
discover_peers-connected_example =
    discover_peers-connected reach "alice" (bob ∷ []) [] carol found_bob (ne_of_== refl) listed refl
