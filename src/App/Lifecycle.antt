-- ===== src/App/Lifecycle.antt =====
-- What an application holds open after it was made, started and stopped.
use dknet.Base.{
  String, true, false, List, [], ◌∷◌, Option, none, some, Result, ok, err, Error, ◌≡◌, ◌≢◌, refl,
  arith, ◌>>◌, ◌↔◌,
}
use dknet.Plugin.Encryption.{Aead, new_key_cipher}
use dknet.P2p.Host.{
  Machine, NetworkConfig, NetworkLibs, load_private_key, convert_addrs, new_message_encryption,
  new_network, stop_network,
}
use dknet.App.{
  AppLibs, opened_storage, with_service, joined, after_network, log_do, close_store, new_app,
  start_api, start_app, stop_api, stop_app,
}

-- nothing is open
abbrev pub off : Machine
off = record {
  storage_open = false;
  host_open = false;
  handler_set = false;
  discovery_running = false;
  http_running = false;
  grpc_running = false;
}

module _ (libs : NetworkLibs) where
  load_private_key-returns : (f : String) → load_private_key libs f ≢ Result.panics
  unfolding load_private_key
  load_private_key-returns f h = ground arith

  convert_addrs-returns : (addrs : List String) → convert_addrs libs addrs ≢ Result.panics
  unfolding convert_addrs
  convert_addrs-returns [] h = ground arith
  convert_addrs-returns (addr ∷ addrs) h = ground (arith, convert_addrs-returns addrs)

  module _ (cfg : NetworkConfig) (s : Machine) where
    -- what NewNetwork leaves alone, and what it has opened when it succeeds
    new_network-keeps :
        ((new_network libs cfg s).1.storage_open ≡ s.storage_open)
        × ((new_network libs cfg s).1.handler_set ≡ s.handler_set)
    unfolding new_network
    new_network-keeps = (ground arith, ground arith)

    new_network-opens :
        (new_network libs cfg s).0 ≡ ok tt
        → ((new_network libs cfg s).1.host_open ≡ true)
          × ((new_network libs cfg s).1.discovery_running ≡ true)
    unfolding new_network
    new_network-opens h = (ground arith, ground arith)

    new_network-returns : (new_network libs cfg s).0 ≢ Result.panics
    unfolding new_network new_message_encryption
    new_network-returns h = ground (
      arith,
      load_private_key-returns cfg.private_key_file,
      convert_addrs-returns cfg.listen_addrs,
    )

module _ (libs : AppLibs) (password : String) where
  -- What New has opened when it returns an application; that the storage is not open when it returns
  -- an error; and where it panics.
  abbrev pub Made : Result (Unit {0}) → Machine → Type 0
  Made (ok u) s =
      (s.storage_open ≡ true)
      × (s.host_open ≡ true)
      × (s.handler_set ≡ true)
      × (s.discovery_running ≡ true)
  Made (err e) s = s.storage_open ≡ false
  Made Result.panics s =
      (s.storage_open ≡ false)
      × (s.host_open ≡ true)
      × ((e : Error) × (new_key_cipher libs.derive password ≡ err e))

  with_service-Made :
      (r : Result Aead) (o : Option Error) (s : Machine)
      → new_key_cipher libs.derive password ≡ r
      → libs.close_storage ≡ o
      → r ≢ Result.panics
      → s.storage_open ≡ true
      → s.host_open ≡ true
      → s.discovery_running ≡ true
      → s.handler_set ≡ false
      → Made (with_service libs password s).0 (with_service libs password s).1
  unfolding with_service log_do close_store stop_network
  with_service-Made (ok cipher) o s e h fine a b c d = rw e (a, b, refl, c)
  with_service-Made (err f) none s e h fine a b c d = rw e (rw h (simp d (refl, b, (f, e))))
  with_service-Made (err f) (some x) s e h fine a b c d = rw e (rw h (simp d (refl, b, (f, e))))
  with_service-Made Result.panics o s e h fine a b c d = absurd (fine refl)

  networked-Made :
      (r : Result (Unit {0})) (o : Option Error) (s : Machine)
      → libs.close_storage ≡ o
      → new_key_cipher libs.derive password ≢ Result.panics
      → r ≢ Result.panics
      → s.storage_open ≡ true
      → s.handler_set ≡ false
      → (r ≡ ok tt → (s.host_open ≡ true) × (s.discovery_running ≡ true))
      → Made (after_network libs password r s).0 (after_network libs password r s).1
  unfolding after_network log_do close_store
  networked-Made (ok u) o s h fine returns a d opened =
      let (b, c) = opened refl in
      with_service-Made (new_key_cipher libs.derive password) o s refl h fine a b c d
  networked-Made (err e) none s h fine returns a d opened = simp h refl
  networked-Made (err e) (some x) s h fine returns a d opened = simp h refl
  networked-Made Result.panics o s h fine returns a d opened = absurd (returns refl)

  -- If the key derivation does not panic: an application that New returns has its storage, its host
  -- with a message handler and its discovery; where New returns an error, the storage is not open;
  -- and it panics only when the password is refused, leaving the host open.
  pub new_app-Made :
      (cfg : NetworkConfig)
      → new_key_cipher libs.derive password ≢ Result.panics
      → Made (new_app libs cfg password off).0 (new_app libs cfg password off).1
  unfolding new_app
  new_app-Made cfg fine = go libs.open_storage
    where
      go :
          (o : Option Error)
          → Made
              ((opened_storage libs o >> joined libs cfg password) off).0
              ((opened_storage libs o >> joined libs cfg password) off).1
      go none =
          let t : Machine = record off { storage_open = true } in
          let (kept, unset) = new_network-keeps libs.network cfg t in
          networked-Made (new_network libs.network cfg t).0 libs.close_storage
            (new_network libs.network cfg t).1 refl fine (new_network-returns libs.network cfg t)
            kept unset (new_network-opens libs.network cfg t)
      go (some e) = refl

  with_service_panics :
      (o : Option Error) (e : Error) (s : Machine)
      → libs.close_storage ≡ o
      → new_key_cipher libs.derive password ≡ err e
      → s.handler_set ≡ false
      → (with_service libs password s).0 ≡ Result.panics
  unfolding with_service log_do close_store stop_network
  with_service_panics none e s h refused unset = rw refused (rw h (simp unset refl))
  with_service_panics (some x) e s h refused unset = rw refused (rw h (simp unset refl))

  networked_panics :
      (r : Result (Unit {0})) (e : Error) (s : Machine)
      → r ≡ ok tt
      → new_key_cipher libs.derive password ≡ err e
      → s.handler_set ≡ false
      → (after_network libs password r s).0 ≡ Result.panics
  unfolding after_network
  networked_panics (ok u) e s h refused unset =
      with_service_panics libs.close_storage e s refl refused unset
  networked_panics (err f) e s h refused unset = absurd (ground arith)
  networked_panics Result.panics e s h refused unset = refl

  -- Where the storage and the network can be made and the password is refused, New panics: it stops
  -- the network, which calls a message handler that is not set.
  pub new_app_panics :
      (cfg : NetworkConfig) (e : Error)
      → libs.open_storage ≡ none
      → (new_network libs.network cfg (record off { storage_open = true })).0 ≡ ok tt
      → new_key_cipher libs.derive password ≡ err e
      → (new_app libs cfg password off).0 ≡ Result.panics
  unfolding new_app
  new_app_panics cfg e opened network refused =
      let t : Machine = record off { storage_open = true } in
      simp opened (
        networked_panics (new_network libs.network cfg t).0 e (new_network libs.network cfg t).1
          network refused ((new_network-keeps libs.network cfg t).1))

module _ (libs : AppLibs) (s : Machine) (handled : s.handler_set ≡ true) where
  -- What is running once Start has returned: both servers, or the HTTP server alone.
  abbrev pub Started : Result (Unit {0}) → Machine → Type 0
  Started (ok u) t =
      (t.http_running ≡ true)
      × (t.grpc_running ≡ true)
      × (t.host_open ≡ s.host_open)
      × (t.storage_open ≡ s.storage_open)
  Started (err e) t =
      (t.http_running ≡ true)
      × (t.grpc_running ≡ s.grpc_running)
      × (t.host_open ≡ false)
      × (t.storage_open ≡ s.storage_open)
  Started Result.panics t = ⊥

  served :
      (o c : Option Error)
      → libs.listen_grpc ≡ o
      → libs.network.close_host ≡ c
      → Started (start_app libs s).0 (start_app libs s).1
  unfolding start_app start_api log_do stop_network
  served none c h k = simp h (refl, refl, refl, refl)
  served (some e) none h k = simp (h, handled, k) (refl, refl, refl, refl)
  served (some e) (some f) h k = simp (h, handled, k) (refl, refl, refl, refl)

  -- Start succeeds with both servers running; where the gRPC server cannot listen it returns an error
  -- and closes the host, and leaves the HTTP server running and the storage open.
  pub start_app-Started : Started (start_app libs s).0 (start_app libs s).1
  start_app-Started = served libs.listen_grpc libs.network.close_host refl refl

  -- Stop of an application closes its servers, its host and its storage, whatever errors that gives;
  -- it returns an error exactly if one of them does, and leaves the discovery running.
  pub stop_app-closes :
      ((stop_app libs s).1 ≡ record s {
        http_running = false;
        grpc_running = false;
        host_open = false;
        storage_open = false;
      })
      × (((stop_app libs s).0 ≡ ok tt) ↔ (
          (libs.shutdown_http ≡ none)
          × (libs.network.close_host ≡ none)
          × (libs.close_storage ≡ none)))
  unfolding stop_app stop_api stop_network close_store
  stop_app-closes =
      (ground arith, (λ h. (ground arith, ground arith, ground arith), λ h. ground arith))
