-- ===== src/Examples/Lives.antt =====
-- The life of operations in the sample world.
use dknet.Base.{
  Result, ℕ, String, List, [], ◌∷◌, none, some, ok, ◌≡◌, ◌≢◌, refl, arith, pos, lookup, inl,
}
use dknet.Tss.Types.{
  OperationData, keygen, completed, pending, keygen_result, keygen_request, watch_operation,
  run_operation, broadcast_sync,
}
use dknet.Tss.Env.{Env}
use dknet.Tss.Service.{Service, find, find_party, create_participant_list, new_party_id}
use dknet.Tss.Store.{operation_key, load_operation, restore, get_operation_data}
use dknet.Tss.Keygen.{start_keygen, keygen_operation}
use dknet.Tss.Watch.{done}
use dknet.Tss.Handle.{handle_operation_sync}
use dknet.Tss.Handle.Replay.{replay_restarts}
use dknet.Tss.Requests.Fresh.{start_keygen_fresh, keygen_announced, keygen_started}
use dknet.Tss.Watch.Endings.{conclude-Concluded, watch-eq, by_context}
use dknet.Tss.Tasks.{perform, Step, Steps, here, later}
use dknet.Tss.Lifecycle.{WellFormed, Known, Keeps}
use dknet.Tss.Lifecycle.Goroutines.{Steps-Keeps}
use dknet.Api.Http.Known.{RecordsDecode, IsAnswered, stays-IsAnswered}
use dknet.Samples.{
  Db, world, idle, names, storage-StorageLaws, sample_key, sample_keygen, keygen_base, json,
}
use dknet.Examples.Arriving.{bob, announcement, bob_in, bob_listed}

-- decoding never fails at this node
abbrev any_record : OperationData
any_record = record {
  id = "id-0";
  type = keygen;
  session_id = "id-1";
  status = completed;
  participants = names;
  request = none;
  result = none;
  error = "";
  created_at = 12;
  completed_at = some 12;
}

abbrev alice : Env Db
alice = record (world "alice") { json = record json { unmarshal_operation = λ b. some any_record } }

nothing_filed : (id : String) (p : ℕ) → lookup id idle.operations ≢ some p
unfolding lookup
nothing_filed id p found = ground arith

nothing_stored : (k : String) (b : List ℕ) → alice.storage.load k idle.db ≢ ok b
unfolding lookup
nothing_stored k b loaded = ground arith

idle-WellFormed : WellFormed alice idle
idle-WellFormed = record {
  unused = λ p free. refl;
  filed = λ id p found. absurd (nothing_filed id p found);
  stored = λ id b loaded. absurd (nothing_stored (operation_key id) b loaded);
}

abbrev started : Service Db
started = (start_keygen alice "" (pos 1) names idle).1

starting : Steps alice idle started
starting = later here (Step.keygen_step "" (pos 1) names)

Steps-Keeps_example : WellFormed alice started × Keeps alice idle started
Steps-Keeps_example = Steps-Keeps alice storage-StorageLaws idle-WellFormed starting

decode : RecordsDecode alice
decode = record { decodes = λ o b encoded lost. ground arith }

alice_in :
    find_party "alice" (create_participant_list alice names) ≡ some (new_party_id alice "alice")
unfolding find_party create_participant_list new_party_id
alice_in = refl

known : Known alice "id-0" started
unfolding find keygen_operation
known =
    inl (
      0,
      (start_keygen_fresh alice idle (pos 1) names (new_party_id alice "alice") alice_in).1.filed,
    )

ending_alive :
    (perform alice done [] (watch_operation 0 10) (record started {
      tasks = run_operation 0 ∷ broadcast_sync 0 (keygen_announced alice idle (pos 1) names) ∷ [];
    })).0
    ≢ Result.panics
unfolding perform
ending_alive h =
    let pointed =
      (start_keygen_fresh alice idle (pos 1) names (new_party_id alice "alice")
        alice_in).1.placed in
    let u : Service Db = record started {
      tasks = run_operation 0 ∷ broadcast_sync 0 (keygen_announced alice idle (pos 1) names) ∷ [];
    } in
    let o = keygen_started alice idle (pos 1) names (new_party_id alice "alice") in
    let c = conclude-Concluded alice 0 o u pointed (by_context keygen) in
    ground (arith, watch-eq alice 0 o u done pointed, c.result)

-- the context of the operation is done before anything else happens
ending :
    Steps alice started
      (perform alice done [] (watch_operation 0 10) (record started {
        tasks = run_operation 0 ∷ broadcast_sync 0 (keygen_announced alice idle (pos 1) names) ∷ [];
      })).1
ending = later here (
    Step.task_step []
      (run_operation 0 ∷ broadcast_sync 0 (keygen_announced alice idle (pos 1) names) ∷ [])
      (watch_operation 0 10) done []
      (start_keygen_fresh alice idle (pos 1) names (new_party_id alice "alice") alice_in).1.started
      ending_alive)

stays-IsAnswered_example :
    IsAnswered alice
      (λ t. t)
      decode
      "id-0"
      (perform alice done [] (watch_operation 0 10) (record started {
        tasks = run_operation 0 ∷ broadcast_sync 0 (keygen_announced alice idle (pos 1) names) ∷ [];
      })).1
stays-IsAnswered_example =
    stays-IsAnswered alice (λ t. t) decode "id-0" storage-StorageLaws Steps-Keeps_example.0 known
      ending

-- bob has the ended key generation in its storage
abbrev ended : Service Db
ended = record idle { db = ("operation:id-0", 5 ∷ []) ∷ [] }

abbrev on_record : OperationData
on_record = record {
  id = "key-1";
  type = keygen;
  session_id = "session";
  status = completed;
  participants = names;
  request = some (keygen_request sample_keygen);
  result = some (keygen_result sample_key);
  error = "";
  created_at = 5;
  completed_at = some 12;
}

bob_loads : load_operation bob "id-0" ended ≡ (ok on_record, ended)
unfolding load_operation restore lookup operation_key
bob_loads = refl

gone : find "id-0" ended ≡ none
unfolding find lookup
gone = refl

replay_restarts_example :
    ((get_operation_data bob "id-0" ended).0 ≡ ok on_record)
    × ((r : OperationData) × ((get_operation_data bob "id-0"
            (handle_operation_sync bob announcement ended).1).0
          ≡ ok r)
        × (r.status ≡ pending))
    × ((handle_operation_sync bob announcement ended).1.tasks
        ≡ watch_operation 0 10 ∷ run_operation 0 ∷ [])
replay_restarts_example =
    replay_restarts bob announcement keygen_base ended refl on_record (new_party_id bob "bob")
      bob_listed gone refl bob_in bob_loads
