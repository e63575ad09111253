-- ===== src/Examples/Serving.antt =====
-- An application on libraries that work, with one password that can be used.
use dknet.Base.{
  true, false, [], ◌∷◌, none, some, Result, ok, ◌≡◌, ◌≢◌, refl, inr, ◌↔◌, arith, external,
}
use dknet.Plugin.Encryption.{new_key_cipher}
use dknet.P2p.Host.{Machine, NetworkConfig, NetworkLibs}
use dknet.App.{AppLibs, new_app, stop_app}
use dknet.App.Lifecycle.{off, Made, new_app-Made, stop_app-closes}
use dknet.Common.Password.{read_password, read_password_from_env, validate_password}
use dknet.Config.{NodeConfig}
use dknet.Cmd.Cluster.{node_config}
use dknet.Cmd.Serve.{signaled, run_server}
use dknet.Cmd.Serve.Runs.{Ends, run_server-Ends}
use dknet.Samples.{cipher}

abbrev network_libs : NetworkLibs
network_libs = record {
  missing_file = λ f. none;
  read_file = λ f. inr (1 ∷ []);
  unmarshal_private_key = λ bytes. inr "Secp256k1";
  parse_multiaddr = λ addr. none;
  new_host = none;
  start_discovery = none;
  close_host = none;
}

abbrev libs : AppLibs
libs = record {
  network = network_libs;
  open_storage = none;
  close_storage = some (external "closed");
  derive = λ password. ok cipher;
  grpc_addr = "0.0.0.0:9090";
  listen_grpc = none;
  shutdown_http = none;
}

abbrev cfg : NodeConfig
cfg = node_config "node1" [] "127.0.0.1" 4001 8081 9095 false

abbrev network_config : NetworkConfig
network_config = record {
  listen_addrs = "/ip4/0.0.0.0/tcp/4001" ∷ [];
  private_key_file = "node_key";
}

derived : (new_key_cipher libs.derive "Secret#1") ≢ Result.panics
unfolding new_key_cipher
derived h = ground arith

new_app-Made_example :
    Made libs "Secret#1"
      (new_app libs network_config "Secret#1" off).0
      (new_app libs network_config "Secret#1" off).1
new_app-Made_example = new_app-Made libs "Secret#1" network_config derived

abbrev running : Machine
running = record {
  storage_open = true;
  host_open = true;
  handler_set = true;
  discovery_running = true;
  http_running = true;
  grpc_running = true;
}

stop_app-closes_example :
    ((stop_app libs running).1 ≡ record running {
      http_running = false;
      grpc_running = false;
      host_open = false;
      storage_open = false;
    })
    × (((stop_app libs running).0 ≡ ok tt) ↔ (
        (libs.shutdown_http ≡ none)
        × (libs.network.close_host ≡ none)
        × (libs.close_storage ≡ none)))
stop_app-closes_example = stop_app-closes libs running refl

accepted : read_password "Secret-12" (ok "") (ok "") ≡ ok "Secret-12"
unfolding read_password read_password_from_env validate_password dknet.Common.Password.scan
    dknet.Common.Password.classify dknet.Common.Password.missing dknet.Common.Password.contains_rune
accepted = refl

reads : read_password "Secret-12" (ok "") (ok "") ≢ Result.panics
reads h = ground (arith, accepted)

run_server-Ends_example :
    Ends
      (run_server libs (ok cfg) (read_password "Secret-12" (ok "") (ok "")) signaled off).0
      (run_server libs (ok cfg) (read_password "Secret-12" (ok "") (ok "")) signaled off).1
run_server-Ends_example =
    run_server-Ends libs (ok cfg) "Secret-12" (ok "") (ok "") (λ h. ground arith) reads
      (λ key. (cipher, refl))
