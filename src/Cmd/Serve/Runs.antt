-- ===== src/Cmd/Serve/Runs.antt =====
-- How a run of the server ends.
use Prim.Native.String.{len}
use dknet.Base.{
  ◌≤◌, String, true, false, Result, ok, err, wrapf, ◌≡◌, ◌≢◌, refl, ap, arith, M, lift, ◌>>◌,
  ==_of_ne, continue,
}
use dknet.Common.Password.{read_password}
use dknet.Common.Password.Strength.{read_password-IsStrong, IsStrong}
use dknet.Config.{NodeConfig}
use dknet.Plugin.Encryption.{Aead, new_key_cipher}
use dknet.P2p.Host.{Machine, stop_network}
use dknet.App.{
  AppLibs, on_error, handled, new_app, start_app, stop_app, stop_api, close_store, start_api,
  log_do,
}
use dknet.App.Lifecycle.{off, Made, new_app-Made, stop_app-closes}
use dknet.Cmd.Serve.{signaled, served, run_server, network_config}

-- A run that ends without an error has closed its servers, its host and its storage; and no run panics.
abbrev pub Ends : Result (Unit {0}) → Machine → Type 0
Ends (ok u) s =
    (s.storage_open ≡ false)
    × (s.host_open ≡ false)
    × (s.http_running ≡ false)
    × (s.grpc_running ≡ false)
Ends (err e) s = Unit
Ends Result.panics s = ⊥

-- `if err != nil { return fmt.Errorf(...) }` between two steps
next-Ends :
    (text : String) (x : Result (Unit {0}) × Machine) (n : M Machine (Unit {0}))
    → x.0 ≢ Result.panics
    → (x.0 ≡ ok tt → Ends (n x.1).0 (n x.1).1)
    → Ends
        (continue
          (handled (λ e. lift (err (wrapf text e))) x).0
          (λ _. n)
          (handled (λ e. lift (err (wrapf text e))) x).1).0
        (continue
          (handled (λ e. lift (err (wrapf text e))) x).0
          (λ _. n)
          (handled (λ e. lift (err (wrapf text e))) x).1).1
next-Ends text (ok u, s) n returns h = h refl
next-Ends text (err e, s) n returns h = tt
next-Ends text (Result.panics, s) n returns h = absurd (returns refl)

module _ (libs : AppLibs) where
  stop_app-returns : (s : Machine) → s.handler_set ≡ true → (stop_app libs s).0 ≢ Result.panics
  unfolding stop_app stop_api stop_network close_store
  stop_app-returns s set h = ground arith

  stop_app-Ends :
      (s : Machine) → s.handler_set ≡ true → Ends (stop_app libs s).0 (stop_app libs s).1
  stop_app-Ends s set =
      let closed = (stop_app-closes libs s set).0 in
      go (stop_app libs s).0 (stop_app libs s).1 (stop_app-returns s set) (
        ap (λ m. m.storage_open) closed,
        ap (λ m. m.host_open) closed,
        ap (λ m. m.http_running) closed,
        ap (λ m. m.grpc_running) closed,
      )
    where
      go :
          (r : Result (Unit {0})) (t : Machine)
          → r ≢ Result.panics
          → (t.storage_open ≡ false)
            × (t.host_open ≡ false)
            × (t.http_running ≡ false)
            × (t.grpc_running ≡ false)
          → Ends r t
      go (ok u) t returns h = h
      go (err e) t returns h = tt
      go Result.panics t returns h = returns refl

  start_app-keeps : (s : Machine) → s.handler_set ≡ true → (start_app libs s).1.handler_set ≡ true
  unfolding start_app start_api log_do stop_network
  start_app-keeps s set = ground arith

  start_app-returns : (s : Machine) → s.handler_set ≡ true → (start_app libs s).0 ≢ Result.panics
  unfolding start_app start_api log_do stop_network
  start_app-returns s set h = ground arith

  started-Ends :
      (s : Machine)
      → s.handler_set ≡ true
      → Ends
          ((on_error (λ e. lift (err (wrapf "failed to start application" e))) (start_app libs)
              >> (served signaled >> stop_app libs))
            s).0
          ((on_error (λ e. lift (err (wrapf "failed to start application" e))) (start_app libs)
              >> (served signaled >> stop_app libs))
            s).1
  started-Ends s set =
      next-Ends "failed to start application" (start_app libs s) (served signaled >> stop_app libs)
        (start_app-returns s set)
        (λ fine. stop_app-Ends (start_app libs s).1 (start_app-keeps s set))

  -- an accepted password gives a cipher
  strong_cipher :
      (password : String)
      → ((key : String) → (gcm : Aead) × (libs.derive key ≡ ok gcm))
      → IsStrong password
      → (gcm : Aead) × (new_key_cipher libs.derive password ≡ ok gcm)
  unfolding new_key_cipher
  strong_cipher password derives strong =
      let (gcm, e) = derives password in
      let long : 8 ≤ len password = strong.long in
      (gcm, rw (==_of_ne password "" (λ h. absurd (let same = ap len h in omega arith))) e)

  Made-handler :
      (password : String) (gcm : Aead) (r : Result (Unit {0})) (s : Machine)
      → new_key_cipher libs.derive password ≡ ok gcm
      → Made libs password r s
      → (r ≢ Result.panics) × (r ≡ ok tt → s.handler_set ≡ true)
  Made-handler password gcm (ok u) s e made = (λ h. ground arith, λ h. made.2)
  Made-handler password gcm (err f) s e made = (λ h. ground arith, λ h. absurd (ground arith))
  Made-handler password gcm Result.panics s e made =
      let (opened, hosted, (f, refused)) = made in absurd (ground (arith, e, refused))

  -- A run of the server that waits for a signal, without a goroutine that panics before it comes:
  -- with a password that ReadPassword accepted, creating, starting and stopping the application do
  -- not panic, and if the run ends without an error, it has closed its host, its storage and what its
  -- servers listen on; if Load and reading the password do not panic and the key derivation gives a
  -- cipher.
  pub run_server-Ends :
      (loaded : Result NodeConfig) (variable : String) (first second : Result String)
      → loaded ≢ Result.panics
      → read_password variable first second ≢ Result.panics
      → ((key : String) → (gcm : Aead) × (libs.derive key ≡ ok gcm))
      → Ends
          (run_server libs loaded (read_password variable first second) signaled off).0
          (run_server libs loaded (read_password variable first second) signaled off).1
  unfolding run_server
  run_server-Ends loaded variable first second loads reads derives =
      go loaded (read_password variable first second) loads reads
        (read_password-IsStrong variable first second)
    where
      made :
          (cfg : NodeConfig) (password : String)
          → IsStrong password
          → Ends
              (run_server libs (ok cfg) (ok password) signaled off).0
              (run_server libs (ok cfg) (ok password) signaled off).1
      made cfg password strong =
          let (gcm, e) = strong_cipher password derives strong in
          let x = new_app libs (network_config cfg) password off in
          let (returns, set) =
            Made-handler password gcm x.0 x.1 e
              (new_app-Made libs password (network_config cfg) (λ h. ground (arith, e, h))) in
          next-Ends "failed to create application" x _ returns (λ fine. started-Ends x.1 (set fine))

      go :
          (l : Result NodeConfig) (p : Result String)
          → l ≢ Result.panics
          → p ≢ Result.panics
          → ((password : String) → p ≡ ok password → IsStrong password)
          → Ends (run_server libs l p signaled off).0 (run_server libs l p signaled off).1
      go (ok cfg) (ok password) a b strong = made cfg password (strong password refl)
      go (ok cfg) (err e) a b strong = tt
      go (ok cfg) Result.panics a b strong = b refl
      go (err e) p a b strong = tt
      go Result.panics p a b strong = a refl
