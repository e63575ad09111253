-- ===== src/P2p/Discovery/Rounds.antt =====
-- Which peers a node connects to, and how many found peers wait.
use mathlib.Core.Path.{subst}
use dknet.Base.{
  String, Bool, true, false, List, [], ◌∷◌, ◌++◌, Option, none, some, Error, ◌≡◌, ◌≢◌, ◌≤◌, inl,
  inr, refl, arith, eq_iff, ◌==◌, ◌==ℕ◌, ne_of_==, Bool-cases, contains, length, length-append, All,
  ==_of_ne, if◌then◌else◌,
}
use dknet.P2p.Discovery.{
  AddrInfo, Addresses, Attempt, Discovery, Happens, peer_found, entry_found, peers_handled,
  round_ended, stopped, connections_change, handle_peer_found, send_peer, connect_to_peer,
  connect_result, handle_peer, handle_peers, receive, discovered_peer, discover_peers, stop_mdns,
  History, started, next,
}

module _ (self : String) where
  -- an attempt to reach another node that was not connected
  abbrev pub Fresh : Attempt → Type 0
  Fresh a = (a.target.id ≢ self) × (contains a.connected a.target.id ≡ false)

  -- At most ten found peers wait, and all attempts were fresh.
  pub record IsModest (s : Discovery) : Type 0 where
    pub room : length s.peer_chan ≤ 10
    pub fresh : All Fresh s.attempts

  if-IsModest :
      (b : Bool) (s t : Discovery) → IsModest s → IsModest t → IsModest (if b then s else t)
  if-IsModest true s t h k = h
  if-IsModest false s t h k = k

  handle_peer_found-IsModest :
      (sends : Bool) (pi : AddrInfo) (s : Discovery)
      → IsModest s
      → IsModest (handle_peer_found sends pi s).1
  unfolding handle_peer_found send_peer
  handle_peer_found-IsModest sends pi s m = record {
    room = ground (arith, length-append s.peer_chan (pi ∷ []));
    fresh = ground arith;
  }

  connect_to_peer-IsModest :
      (connect : AddrInfo → Option Error) (p : AddrInfo) (s : Discovery)
      → (p.id == self) ≡ false
      → contains s.connected p.id ≡ false
      → IsModest s
      → IsModest (connect_to_peer connect p s)
  unfolding connect_to_peer
  connect_to_peer-IsModest connect p s other apart m = go (connect p)
    where
      go :
          (r : Option Error)
          → IsModest (
              connect_result connect p r (record s {
                attempts = record { target = p; connected = s.connected } ∷ s.attempts;
              }))
      go none = record { room = m.room; fresh = ((ne_of_== other, apart), m.fresh) }
      go (some e) = record { room = m.room; fresh = ((ne_of_== other, apart), m.fresh) }

  handle_peer-IsModest :
      (connect : AddrInfo → Option Error) (p : AddrInfo) (s : Discovery)
      → IsModest s
      → IsModest (handle_peer connect self p s)
  unfolding handle_peer
  handle_peer-IsModest connect p s m = elim (Bool-cases (p.id == self)) [
    | inl same ↦ rw same m
    | inr other ↦ rw other (elim (Bool-cases (contains s.connected p.id)) [
      | inl known ↦ rw known m
      | inr apart ↦ rw apart (connect_to_peer-IsModest connect p s other apart m)
    ])
  ]

  receive-IsModest :
      (connect : AddrInfo → Option Error) (queued : List AddrInfo) (s : Discovery)
      → s.peer_chan ≡ queued
      → IsModest s
      → IsModest (receive connect self queued s)
  unfolding receive
  receive-IsModest connect [] s e m =
      if-IsModest s.closed (handle_peer connect self (record { id = ""; addrs = [] }) s) s
        (handle_peer-IsModest connect (record { id = ""; addrs = [] }) s m) m
  receive-IsModest connect (p ∷ queued) s e m =
      let fewer : length (p ∷ queued) ≤ 10 = subst (λ l. length l ≤ 10) e m.room in
      handle_peer-IsModest connect p (record s { peer_chan = queued })
        (record { room = omega arith; fresh = m.fresh })

  discovered_peer-IsModest :
      (connect : AddrInfo → Option Error) (p : AddrInfo) (s : Discovery)
      → IsModest s
      → IsModest (discovered_peer connect self p s)
  unfolding discovered_peer
  discovered_peer-IsModest connect p s m = elim (Bool-cases (p.id == self)) [
    | inl same ↦ rw same m
    | inr other ↦ rw other (elim (Bool-cases (length p.addrs ==ℕ 0)) [
      | inl bare ↦ rw bare m
      | inr listed ↦ rw listed (elim (Bool-cases (contains s.connected p.id)) [
        | inl known ↦ rw known m
        | inr apart ↦ rw apart (connect_to_peer-IsModest connect p s other apart m)
      ])
    ])
  ]

  discover_peers-IsModest :
      (connect : AddrInfo → Option Error) (found : List AddrInfo) (s : Discovery)
      → IsModest s
      → IsModest (discover_peers connect self found s)
  unfolding discover_peers
  discover_peers-IsModest connect [] s m = m
  discover_peers-IsModest connect (p ∷ found) s m =
      discover_peers-IsModest connect found (discovered_peer connect self p s)
        (discovered_peer-IsModest connect p s m)

  stop_mdns-IsModest : (s : Discovery) → IsModest s → IsModest (stop_mdns s).1
  unfolding stop_mdns
  stop_mdns-IsModest s m = record { room = ground arith; fresh = ground arith }

  Happens-IsModest :
      (lib : Addresses) {s t : Discovery} → Happens lib self s t → IsModest s → IsModest t
  unfolding handle_peers
  Happens-IsModest lib {s} (peer_found sends pi) m = handle_peer_found-IsModest sends pi s m
  Happens-IsModest lib {s} (entry_found sends entry pi e) m =
      handle_peer_found-IsModest sends pi s m
  Happens-IsModest lib {s} (peers_handled connect) m = receive-IsModest connect s.peer_chan s refl m
  Happens-IsModest lib {s} (round_ended connect found) m = discover_peers-IsModest connect found s m
  Happens-IsModest lib {s} stopped m = stop_mdns-IsModest s m
  Happens-IsModest lib (connections_change connected) m = record { room = m.room; fresh = m.fresh }

  -- Whatever has happened to the discovery of a node since it was made: at most ten found peers
  -- wait, and the node has only tried to connect to other nodes, not connected at that moment.
  pub History-IsModest : {lib : Addresses} {s : Discovery} → History lib self s → IsModest s
  History-IsModest (started connected) = record { room = omega arith; fresh = tt }
  History-IsModest {lib} (next h e) = Happens-IsModest lib e (History-IsModest h)

-- A round of the DHT: who is connected afterwards.
module _ (connect : AddrInfo → Option Error) (self : String) where
  keeps_connection :
      (id : String) (p : AddrInfo) (s : Discovery)
      → contains s.connected id ≡ true
      → contains (discovered_peer connect self p s).connected id ≡ true
  unfolding discovered_peer connect_to_peer connect_result contains
  keeps_connection id p s h = ground (arith, eq_iff p.id id)

  keeps_connections :
      (id : String) (found : List AddrInfo) (s : Discovery)
      → contains s.connected id ≡ true
      → contains (discover_peers connect self found s).connected id ≡ true
  unfolding discover_peers
  keeps_connections id [] s h = h
  keeps_connections id (p ∷ found) s h =
      keeps_connections id found (discovered_peer connect self p s) (keeps_connection id p s h)

  new_connection :
      (p : AddrInfo) (s : Discovery)
      → p.id ≢ self
      → length p.addrs ≢ 0
      → connect p ≡ none
      → contains (discovered_peer connect self p s).connected p.id ≡ true
  unfolding discovered_peer connect_to_peer connect_result contains
  new_connection p s other listed works =
      let distinct = ==_of_ne p.id self other in ground (arith, eq_iff p.id p.id)

  -- After a round of the DHT, every other peer that was found with an address and could be
  -- connected to is connected.
  pub discover_peers-connected :
      (before after : List AddrInfo) (p : AddrInfo) (s : Discovery)
      → p.id ≢ self
      → length p.addrs ≢ 0
      → connect p ≡ none
      → contains (discover_peers connect self (before ++ p ∷ after) s).connected p.id ≡ true
  unfolding discover_peers
  discover_peers-connected [] after p s other listed works =
      keeps_connections p.id after (discovered_peer connect self p s)
        (new_connection p s other listed works)
  discover_peers-connected (q ∷ before) after p s other listed works =
      discover_peers-connected before after p (discovered_peer connect self q s) other listed works
