-- ===== src/App.antt =====
-- internal/app/app.go: an application from its parts, with `NewService` of internal/tss/service.go and
-- the servers of internal/api/server.go.
pub mod Lifecycle
use dknet.Base.{
  String, Bool, true, false, List, [], ◌∷◌, Option, none, some, Result, ok, err, Error, wrapf,
  wrap_args, str, M, pure, lift, modify, ◌>>=◌, ◌>>◌, if◌then◌else◌, wrapping,
}
use dknet.Plugin.Encryption.{Aead, new_key_cipher}
use dknet.P2p.Host.{Machine, NetworkConfig, NetworkLibs, checked, new_network, stop_network}

-- leveldb.OpenFile and Close, the key derivation of the cipher, net.Listen for gRPC, and `Shutdown` of
-- the HTTP server
pub record AppLibs : Type 0 where
  pub network : NetworkLibs
  pub open_storage : Option Error
  pub close_storage : Option Error
  pub derive : String → Result Aead
  pub grpc_addr : String
  pub listen_grpc : Option Error
  pub shutdown_http : Option Error

-- LogDo and LogMsgDo: an error is printed, a panic goes on
abbrev pub logged : Result (Unit {0}) × Machine → Result (Unit {0}) × Machine
logged (ok u, s) = (ok tt, s)
logged (err e, s) = (ok tt, s)
logged (Result.panics, s) = (Result.panics, s)

-- `if err != nil { ...; return ... }`
abbrev pub handled :
    (Error → M Machine (Unit {0})) → Result (Unit {0}) × Machine → Result (Unit {0}) × Machine
handled f (ok u, s) = (ok tt, s)
handled f (err e, s) = f e s
handled f (Result.panics, s) = (Result.panics, s)

abbrev pub on_error : (Error → M Machine (Unit {0})) → M Machine (Unit {0}) → M Machine (Unit {0})
on_error f m s = handled f (m s)

unfoldable pub log_do : M Machine (Unit {0}) → M Machine (Unit {0})
log_do f s = logged (f s)

module _ (libs : AppLibs) where
  opened_storage : Option Error → M Machine (Unit {0})
  opened_storage none s = (ok tt, record s { storage_open = true })
  opened_storage (some e) s = (err (wrapf "failed to create LevelDB storage" e), s)

  -- Close of the storage
  unfoldable pub close_store : M Machine (Unit {0})
  close_store s = (checked libs.close_storage, record s { storage_open = false })

  -- NewService, as far as it can fail: the cipher, and then the message handler of the network
  unfoldable pub new_service : String → M Machine (Unit {0})
  new_service password = do
    cipher ←
        lift (wrapping "failed to initialize key encryption" (new_key_cipher libs.derive password))
    modify (λ s. record s { handler_set = true })

  -- the rest of New, from NewService on
  unfoldable pub with_service : String → M Machine (Unit {0})
  unfolding new_service
  with_service password = do
    on_error
        (λ e. do
          log_do close_store
          log_do (stop_network libs.network)
          lift (err (wrapf "failed to create TSS service" e)))
        (new_service password)
    modify (λ s. record s { handler_set = true })

  -- New from NewNetwork on, after its result
  after_network : String → Result (Unit {0}) → M Machine (Unit {0})
  after_network password (ok u) s = with_service password s
  after_network password (err e) s =
      (log_do close_store >> lift (err (wrapf "failed to create P2P network" e))) s
  after_network password Result.panics s = (Result.panics, s)

  joined : NetworkConfig → String → M Machine (Unit {0})
  unfolding after_network
  joined cfg password s =
      after_network password (new_network libs.network cfg s).0 (new_network libs.network cfg s).1

  -- New; SetMessageHandler is called once more, and NewServer does not fail
  unfoldable pub new_app : NetworkConfig → String → M Machine (Unit {0})
  unfolding opened_storage joined
  new_app cfg password = opened_storage libs.open_storage >> joined cfg password

  serve_grpc : Option Error → M Machine (Unit {0})
  serve_grpc none s = (ok tt, record s { grpc_running = true })
  serve_grpc (some e) s = (
    err (
        wrapf "failed to start gRPC server"
          (wrap_args "failed to listen on %s" (str libs.grpc_addr ∷ []) e)),
    s,
  )

  -- Start of the API server: the HTTP server starts in a goroutine, which reports no error
  unfoldable pub start_api : M Machine (Unit {0})
  unfolding serve_grpc
  start_api = do modify (λ s. record s { http_running = true }); serve_grpc libs.listen_grpc

  -- Start
  unfoldable pub start_app : M Machine (Unit {0})
  start_app =
      on_error
        (λ e. do
          log_do (stop_network libs.network)
          lift (err (wrapf "failed to start API server" e)))
        start_api

  -- Stop of the API server
  -- (Shutdown closes the listener first; where it returns its context's error, requests may still
  -- be served)
  unfoldable pub stop_api : M Machine (Unit {0})
  stop_api s = (
    wrapping "failed to stop HTTP server" (checked libs.shutdown_http),
    record s { http_running = false; grpc_running = false },
  )

  -- the first of the errors that are collected
  abbrev pub first_error : Result (Unit {0}) → Result (Unit {0}) → Result (Unit {0})
  first_error (ok u) r = r
  first_error (err e) Result.panics = Result.panics
  first_error (err e) r = err e
  first_error Result.panics r = Result.panics

  -- what is done after `r` unless it panicked, keeping the first error
  also : M Machine (Unit {0}) → Result (Unit {0}) × Machine → Result (Unit {0}) × Machine
  also f (Result.panics, s) = (Result.panics, s)
  also f (ok u, s) = (first_error (ok u) (f s).0, (f s).1)
  also f (err e, s) = (first_error (err e) (f s).0, (f s).1)

  -- Stop
  unfoldable pub stop_app : M Machine (Unit {0})
  unfolding also
  stop_app s =
      also (λ t. (wrapping "failed to close storage" (close_store t).0, (close_store t).1))
        (also
          (λ t. (
            wrapping "failed to stop P2P network" (stop_network libs.network t).0,
            (stop_network libs.network t).1,
          ))
          (wrapping "failed to stop API server" (stop_api s).0, (stop_api s).1))
