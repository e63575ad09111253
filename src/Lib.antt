-- ===== src/Lib.antt =====
-- DKNet: a node of a threshold-signature network. Several nodes generate a shared ECDSA key, sign
-- with it and reshare it; tss-lib runs the protocols, the node starts them, carries their messages
-- and keeps their results.
--
-- The parts and how they interact. The API calls `StartKeygen`, `StartSigning` or `StartResharing` of
-- the service (internal/tss). The service makes an operation, files it in memory, starts two
-- goroutines for it (`watchOperation`, `runOperation`) and announces it to the other participants
-- through the network (internal/p2p). A node that gets the announcement (`handleOperationSync`)
-- makes its own operation. The parties then exchange messages (`handleOutgoingMessages`,
-- `HandleMessage`). When the party is done, `watchOperation` keeps the result, encrypted by
-- internal/plugin/encryption.go where it is a key, and moves the operation to the storage.
--
-- Files and sources:
-- - Base: numbers, lists, formatted texts, maps with text keys, Go's errors and panics, and the monad
--   of methods that change a state and may fail.
-- - Common/Util: internal/common/util.go, `Distinct` and `Retry`; Common/Util/Laws: what they compute.
-- - Common/Password: internal/common/password.go, on the texts that are read; Common/Password/Strength:
--   which passwords are accepted.
-- - Common/Gzip, Common/Logger: internal/common/gzip.go, and `NewLogger` of log.go.
-- - Config: internal/config/config.go, on a viper and a file system that are parameters; Config/Loading:
--   what a loaded configuration guarantees. `FilesLaws` is what path/filepath documents.
-- - P2p/Types: internal/p2p/types.go, the message. P2p/Network: internal/p2p/network.go and
--   connection_gater.go, `SendMessage`, `processIncomingMessage` and who may connect.
--   P2p/Host: `NewNetwork`, `Stop` and `handleStream` of the same file, and `NewMessageEncryption`.
-- - P2p/Streams: internal/p2p/stream_manager.go over internal/common/map.go; P2p/Streams/Reuse: which
--   streams are used again.
-- - P2p/Discovery: internal/p2p/mdns.go, dht.go and `NewPeerDiscovery` of types.go, on libraries for
--   addresses and connections that are parameters; P2p/Discovery/Rounds: theorems.
-- - Storage: internal/storage/leveldb.go on a LevelDB that is a parameter; Storage/Refinement: against
--   a map. `LevelDbLaws` is what LevelDB documents.
-- - App: internal/app/app.go, with `NewService` and the servers of internal/api/server.go, http.go and
--   grpc.go as far as they can fail; App/Lifecycle: what is open after `New`, `Start` and `Stop`.
-- - Cmd/Serve: `runServer` of cmd/dknet/main.go; Cmd/Serve/Runs: how a run ends.
-- - Cmd/Token: cmd/dknet/generate_token.go; Cmd/Token/RoundTrip: its tokens at a node. Cmd/Cluster:
--   init_cluster.go with what it uses of config.go and utils.go; Cmd/Cluster/Valid and Ports: theorems.
--   Cmd/Docker: `generateDockerCompose` of utils.go. Cmd/Node: init_node.go. Cmd/Show: the address of
--   show_node.go; Cmd/Show/Addresses: against init-cluster's.
-- - Clients/Cli: the commands of cmd/dknet-cli that start an operation, with `makeHTTPRequest`;
--   Clients/Cli/Transports: HTTP against gRPC, under `BodiesLaws`. Clients/Mcp: the tools of
--   cmd/dknet-mcp; Clients/Mcp/Answers: when the key generation tool answers with a key.
-- - Security/MessageEncryption: internal/security/message_encryption.go.
-- - Security/PeerEncryption: internal/security/peer_encryption_secp256k1.go and the AES-GCM of
--   types.go, on `Libraries` (libp2p's keys, btcec, HKDF, AES-GCM, JSON);
--   Security/PeerEncryption/RoundTrip: between two nodes. `LibrariesLaws` is what these libraries
--   document.
-- - Plugin/Encryption: internal/plugin/encryption.go, the nonce in front of the ciphertext.
-- - Plugin/Validation: internal/plugin/validation.go, on an HTTP client and JSON that are parameters;
--   Tss/Sign/Approval: what such a service has said about a signing that is let through.
-- - Tss/Types: internal/tss/types.go. Tss/Env: what the service calls and does not implement, and the
--   fields that `NewService` sets once.
-- - Tss/Service: the state of the service and the participant list of internal/tss/service.go.
-- - Tss/Store: `saveOperation`, `loadOperation`, `moveCompletedOperationToStorage`,
--   `checkIdempotency`, `GetOperation`, `GetOperationData`, `LoadKeyMetadata`, `loadKeyData`.
-- - Tss/Broadcast: `syncOperation` and what its three callers announce.
-- - Tss/Keygen, Tss/Sign, Tss/Resharing: internal/tss/kengen.go, sign.go with validation.go, and
--   resharing.go. Tss/Signature: the bytes of `saveSigningResult` and `hashMessageForEthereum`.
-- - Tss/Watch: `watchOperation`, `runOperation`, `saveKeygenResult`.
-- - Tss/Handle: `HandleMessage`, `handleOperationSync`, `handleOutgoingMessages`, `toParticipants`.
-- - Tss/Tasks: `SafeGo` of internal/common/util.go, the goroutines of internal/tss and the steps of the
--   service. Tss/Lifecycle: what holds of the service in every state that it reaches by them.
-- - Api/Responses: internal/api/types.go. Api/Auth, Api/Middleware: auth.go and middleware.go.
--   Api/Replies, Api/Http, Api/Grpc, Api/Routes: the handlers of http.go with their routes, the
--   methods of grpc.go, and what they are asked and answer. Api/Agreement: theorems on both.
-- - Tss/Requests and the child modules of the others: theorems. Samples, Examples: a small world and
--   the theorems at inputs from it.
--
-- How code corresponds to definitions. A Go method is a function of the same name, in snake case,
-- from the service's state to a result and a state. A pointer to an operation is an address in the
-- field `heap`, so that the map `operations` and the goroutines share it; `next` is the next free
-- address. A goroutine that was started and has not ended is an element of `tasks`; what it does
-- when it runs is the definition of its own (`watch`, `run`, `deliver`, `sync_operation`), one atomic
-- step each. `end_ch` lists the values that goroutines offer to an operation's channel. The clock,
-- the draws of the random source and the messages handed to the network are fields. A numeric
-- `int` is an integer without bounds: the source only compares thresholds and takes lengths. A panic
-- is the result `panics`; logging leaves no trace. An error is the format and arguments of
-- `fmt.Errorf`.
--
-- Parameters: encoding/json, tss-lib, the hashes, the uuid and nonce sources, AES-GCM with its key
-- derivation, the storage, the network's `SendMessage`, the validation service, golang-jwt, and
-- what `ShouldBindJSON` makes of a body; libp2p, LevelDB, the file system, keys, YAML and `Sscanf`.
-- Where a theorem needs their documented behaviour, it is a hypothesis (`StorageLaws`,
-- `OperationJson`, `AeadLaws`, `SortLaws`, `EmbedsBase`, `Carries`, `RecordsDecode`, `JwtLaws`,
-- `LevelDbLaws`, `SignLaws`), and the examples fill it.
--
-- Fuel and bounds: `Retry` makes ten attempts, as the source does; the digits of a decimal number
-- `n` take at most `n + 1` steps, in Tss/Signature and in Base/Texts.
--
-- Not modelled: libp2p, zeroconf and the DHT themselves, with the tickers and contexts around them;
-- goroutines that send to one peer at once; the health stream of internal/api; `Range`, `Len`
-- and `Has` of `SafeMap`; of cmd/dknet and cmd/dknet-cli, the flags, what is printed and asking
-- for an operation or a key; the locks; contexts of requests other than in the validation of a
-- signing; panics inside tss-lib, as for a signer that has no part in the key; and, in `run_server`, the
-- goroutines between start and signal, of which only a panic is an event.
pub mod Api
pub mod App
pub mod Base
pub mod Clients
pub mod Cmd
pub mod Common
pub mod Config
pub mod Examples
pub mod P2p
pub mod Plugin
pub mod Samples
pub mod Security
pub mod Storage
pub mod Tss
