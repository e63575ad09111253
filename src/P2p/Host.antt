-- ===== src/P2p/Host.antt =====
-- internal/p2p/network.go: making, starting and stopping the network, and reading a stream. The file
-- system, libp2p, multiaddresses and msgio are parameters.
use dknet.Base.{
  String, Bool, true, false, not, List, [], ◌∷◌, Option, none, some, Result, ok, err, Error, errorf,
  wrapf, str, M, lift, ◌>>=◌, ◌>>◌, ◌==◌, if◌then◌else◌, wrapping, ◌⊎◌, inl, inr,
}
use dknet.P2p.Types.{Bytes}
use dknet.P2p.Network.{then_do}

-- What the process holds open, and whether the network has a message handler.
pub record Machine : Type 0 where
  pub storage_open : Bool
  pub host_open : Bool
  pub handler_set : Bool
  pub discovery_running : Bool
  -- the listener of the HTTP server is open
  pub http_running : Bool
  pub grpc_running : Bool

-- p2p.Config, without the access control that the gater reads
pub record NetworkConfig : Type 0 where
  pub listen_addrs : List String
  pub private_key_file : String

-- os.Stat, which tells a missing file; os.ReadFile; crypto.UnmarshalPrivateKey, with the type of the key;
-- multiaddr.NewMultiaddr; libp2p.New; and the start of the discovery and the closing of the host
pub record NetworkLibs : Type 0 where
  pub missing_file : String → Option Error
  pub read_file : String → Error ⊎ Bytes
  pub unmarshal_private_key : Bytes → Error ⊎ String
  pub parse_multiaddr : String → Option Error
  pub new_host : Option Error
  pub start_discovery : Option Error
  pub close_host : Option Error

-- `if err != nil { return err }`
abbrev pub checked : Option Error → Result (Unit {0})
checked none = ok tt
checked (some e) = err e

abbrev pub returned {ℓ} : {A : Type ℓ} → Error ⊎ A → Result A
returned (inl e) = err e
returned (inr a) = ok a

-- NewMessageEncryption: the key must be of secp256k1
unfoldable pub new_message_encryption : String → Result (Unit {0})
new_message_encryption key_type =
    if not (key_type == "Secp256k1")
    then err (errorf "unsupported key type for peer encryption: %s" (str key_type ∷ []))
    else ok tt

module _ (libs : NetworkLibs) where
  -- loadPrivateKey
  unfoldable pub load_private_key : String → Result String
  load_private_key key_file = then_do (checked (libs.missing_file key_file)) (λ _.
      then_do (returned (libs.read_file key_file))
        (λ bytes. returned (libs.unmarshal_private_key bytes)))

  -- convertAddrs
  unfoldable pub convert_addrs : List String → Result (Unit {0})
  convert_addrs [] = ok tt
  convert_addrs (addr ∷ addrs) =
      then_do (checked (libs.parse_multiaddr addr)) (λ _. convert_addrs addrs)

  open_host : Option Error → M Machine (Unit {0})
  open_host none s = (ok tt, record s { host_open = true })
  open_host (some e) s = (err (wrapf "failed to create libp2p host" e), s)

  run_discovery : Option Error → M Machine (Unit {0})
  run_discovery none s = (ok tt, record s { discovery_running = true })
  run_discovery (some e) s = (err (wrapf "failed to start peer discovery" e), s)

  -- NewNetwork
  unfoldable pub new_network : NetworkConfig → M Machine (Unit {0})
  unfolding open_host run_discovery
  new_network cfg = do
    key_type ← lift (wrapping "failed to load private key" (load_private_key cfg.private_key_file))
    lift (wrapping "invalid listen addresses" (convert_addrs cfg.listen_addrs))
    open_host libs.new_host
    lift (wrapping "failed to create message encryption" (new_message_encryption key_type))
    run_discovery libs.start_discovery

  close_the_host : Option Error → M Machine (Unit {0})
  close_the_host none s = (ok tt, record s { host_open = false })
  close_the_host (some e) s = (err (wrapf "failed to close host" e), record s { host_open = false })

  -- Stop: `cancelDiscovery` is never set, and the handler is called without a test
  unfoldable pub stop_network : M Machine (Unit {0})
  unfolding close_the_host
  stop_network s = if s.handler_set then close_the_host libs.close_host s else (Result.panics, s)

-- handleStream: what `ReadMsg` gives one after another; each frame is copied and handed to a
-- goroutine `processIncomingMessage`, until the first error
unfoldable pub handle_stream : List (Result Bytes) → List Bytes
handle_stream [] = []
handle_stream (ok frame ∷ reads) = frame ∷ handle_stream reads
handle_stream (err e ∷ reads) = []
handle_stream (Result.panics ∷ reads) = []
