-- ===== src/Cmd/Serve.antt =====
-- cmd/dknet/main.go, `runServer`: from the configuration to the end of the application.
pub mod Runs
use dknet.Base.{String, Result, err, wrapf, M, lift, pure, ◌>>=◌, ◌>>◌, wrapping}
use dknet.Config.{NodeConfig}
use dknet.P2p.Host.{Machine, NetworkConfig}
use dknet.App.{AppLibs, on_error, new_app, start_app, stop_app}

-- the configuration that New of the application gives to the network
unfoldable pub network_config : NodeConfig → NetworkConfig
network_config cfg = record {
  listen_addrs = cfg.p2p.listen_addrs;
  private_key_file = cfg.p2p.private_key_file;
}

-- What ends the wait of a server that has started: a signal, or a goroutine that panics, which ends
-- the process.
pub data Serving : Type 0 where
  signaled : Serving
  crashed : Serving

abbrev pub served : Serving → M Machine (Unit {0})
served signaled = pure tt
served crashed = lift Result.panics

-- runServer, from what Load and ReadPassword give, and what ends the wait
unfoldable pub run_server :
    AppLibs → Result NodeConfig → Result String → Serving → M Machine (Unit {0})
unfolding network_config
run_server libs loaded password serving = do
  cfg ← lift (wrapping "failed to load config" loaded)
  text ← lift (wrapping "failed to read password" password)
  on_error (λ e. lift (err (wrapf "failed to create application" e)))
      (new_app libs (network_config cfg) text)
  on_error (λ e. lift (err (wrapf "failed to start application" e))) (start_app libs)
  served serving
  stop_app libs
