-- ===== src/Examples/Endings.antt =====
-- How the operations of the sample world end.
use dknet.Base
use dknet.Base.{
  ℕ, String, Bool, true, false, List, [], ◌∷◌, ◌++◌, Option, none, some, Result, ok, err, Error,
  errorf, wrapf, str, ◌≡◌, ◌≢◌, refl, arith, length, pos, ℤ,
}
use dknet.Plugin.Encryption.{encrypt}
use dknet.Tss.Types.{
  Operation, OperationType, OperationData, Value, keygen, signing, resharing, in_progress,
  completed, keygen_request, signing_request, resharing_request, keygen_result, signing_result,
  signature_data, save_data, PartyId,
}
use dknet.Tss.Env.{Env}
use dknet.Tss.Service.{Service, find, ids}
use dknet.Tss.Signature.{hex, signing_result_of}
use dknet.Tss.Store.{
  to_data, save_operation, load_operation, load_key_data, move_completed_operation_to_storage,
}
use dknet.Tss.Store.RoundTrip.{
  OperationJson, ValueJson, IsStorable, load-save_operation, signature, to_sign,
}
use dknet.Tss.Watch.{Event, received, watch, key_data_of, key_id_of, public_key_bytes}
use dknet.Tss.Watch.Endings.{
  IsWorking, IsRunning, LastSave, watch_ends, by_signature, working-save_operation,
}
use dknet.Tss.Watch.NewKey.{KeySave, keygen_ends, resharing_panics}
use dknet.Tss.Requests.Completed.{start_completed, finished}
use dknet.Tss.Keygen.{start_keygen}
use dknet.Tss.Sign.{start_signing}
use dknet.Tss.Resharing.{start_resharing}
use dknet.Samples.{
  Db, world, idle, names, tree, json, storage-StorageLaws, cipher-AeadLaws, sample_signature,
  sample_keygen, sample_signing, sample_resharing, sample_key,
}

abbrev party : String → PartyId
party name = record { id = name; moniker = "node"; key = 1 }

-- an operation that runs
abbrev active : String → OperationType → ℕ → Value → Operation
active id t created request = record {
  id = id;
  type = t;
  session_id = "session";
  participants = party "alice" ∷ party "bob" ∷ [];
  party = none;
  end_ch = [];
  status = in_progress;
  created_at = created;
  completed_at = none;
  result = none;
  error = none;
  request = some request;
  updates = [];
}

abbrev active_keygen : Operation
active_keygen = active "key-1" keygen 5 (keygen_request sample_keygen)

abbrev active_signing : Operation
active_signing = active "sign-1" signing 9 (signing_request sample_signing)

abbrev active_resharing : Operation
active_resharing = active "reshare-1" resharing 6 (resharing_request sample_resharing)

-- the service that runs the operation, at the address 0
abbrev pub busy : Operation → Service Db
busy o = record idle { operations = (o.id, 0) ∷ []; heap = λ p. some o; next = 1 }

abbrev alice : Env Db
alice = world "alice"

abbrev signed : Event
signed = received (signature_data sample_signature)

-- the signing operation, ended
abbrev pub done_signing : Operation
done_signing = record active_signing {
  completed_at = some 12;
  status = completed;
  result = some (signing_result (signing_result_of sample_signature));
}

json-none : ValueJson json tree none
json-none = record {
  keygen_result = λ r e. absurd cc;
  signing_result = λ r e. absurd cc;
  keygen_request = λ r e. absurd cc;
  signing_request = λ r e. absurd cc;
  resharing_request = λ r e. absurd cc;
}

json-signing_result :
    ValueJson json tree (some (signing_result (signing_result_of sample_signature)))
json-signing_result = record {
  keygen_result = λ r e. absurd cc;
  signing_result = λ r e. (1 ∷ [], refl, cc);
  keygen_request = λ r e. absurd cc;
  signing_request = λ r e. absurd cc;
  resharing_request = λ r e. absurd cc;
}

json-keygen_result : ValueJson json tree (some (keygen_result sample_key))
json-keygen_result = record {
  keygen_result = λ r e. (4 ∷ [], refl, cc);
  signing_result = λ r e. absurd cc;
  keygen_request = λ r e. absurd cc;
  signing_request = λ r e. absurd cc;
  resharing_request = λ r e. absurd cc;
}

json-keygen_request : ValueJson json tree (some (keygen_request sample_keygen))
json-keygen_request = record {
  keygen_result = λ r e. absurd cc;
  signing_result = λ r e. absurd cc;
  keygen_request = λ r e. (3 ∷ [], refl, cc);
  signing_request = λ r e. absurd cc;
  resharing_request = λ r e. absurd cc;
}

json-signing_request : ValueJson json tree (some (signing_request sample_signing))
json-signing_request = record {
  keygen_result = λ r e. absurd cc;
  signing_result = λ r e. absurd cc;
  keygen_request = λ r e. absurd cc;
  signing_request = λ r e. (2 ∷ [], refl, cc);
  resharing_request = λ r e. absurd cc;
}

json-resharing_request : ValueJson json tree (some (resharing_request sample_resharing))
json-resharing_request = record {
  keygen_result = λ r e. absurd cc;
  signing_result = λ r e. absurd cc;
  keygen_request = λ r e. absurd cc;
  signing_request = λ r e. absurd cc;
  resharing_request = λ r e. (5 ∷ [], refl, cc);
}

pub signing-OperationJson : OperationJson json tree (to_data alice done_signing)
unfolding to_data ids
signing-OperationJson = record {
  operation = λ b e. let w : 9 ∷ [] ≡ b = cc in rw (← w) refl;
  result = json-signing_result;
  request = json-signing_request;
}

-- every record is encoded and every save succeeds
working : (d : OperationData) → IsWorking alice d
working d = record { encodes = λ e. absurd cc; saves = λ k b db. refl }

saves_signing : LastSave alice tree done_signing
saves_signing = record {
  json = signing-OperationJson;
  storage = storage-StorageLaws;
  working = working (to_data alice done_signing);
}

signing-IsRunning : IsRunning active_signing
signing-IsRunning = record { empty = refl; request = to_sign sample_signing }

pub filed : (o : Operation) → find o.id (busy o) ≡ some 0
unfolding find Base.lookup
filed o = ground (arith, Base.eq_iff o.id o.id)

watch_ends_example :
    ((watch alice 0 signed (busy active_signing)).0 ≡ ok tt)
    × (find "sign-1" (watch alice 0 signed (busy active_signing)).1 ≡ none)
    × (load_operation alice "sign-1" (watch alice 0 signed (busy active_signing)).1
        ≡ (ok (to_data alice done_signing), (watch alice 0 signed (busy active_signing)).1))
unfolding signing_result_of
watch_ends_example =
    watch_ends alice tree 0 active_signing (busy active_signing) signed saves_signing refl
      (filed active_signing) signing-IsRunning (by_signature sample_signature)

pub signing-IsStorable : IsStorable done_signing
signing-IsStorable = record {
  ended = refl;
  result = signature (signing_result_of sample_signature);
  request = to_sign sample_signing;
}

pub saved_signing : (s : Service Db) → (save_operation alice done_signing s).0 ≡ ok tt
saved_signing s =
    working-save_operation alice done_signing (working (to_data alice done_signing)) s refl

load-save_operation_example :
    load_operation alice "sign-1" (save_operation alice done_signing idle).1
    ≡ (ok (to_data alice done_signing), (save_operation alice done_signing idle).1)
load-save_operation_example =
    load-save_operation alice tree storage-StorageLaws done_signing signing-OperationJson idle
      signing-IsStorable (saved_signing idle)

abbrev pub moved : Service Db
moved = (move_completed_operation_to_storage alice "sign-1" (busy done_signing)).1

abbrev again : Result ℕ × Service Db
again =
    finished alice tree storage-StorageLaws done_signing signing-OperationJson 0 (busy done_signing)
      (filed done_signing) refl

start_completed_example :
    (start_keygen alice "sign-1" (pos 1) names moved ≡ again)
    × (start_signing alice "sign-1" (104 ∷ []) "0x0102" names moved ≡ again)
    × (start_resharing alice "sign-1" "0x0102" (pos 1) names moved ≡ again)
start_completed_example =
    start_completed alice tree storage-StorageLaws done_signing signing-OperationJson 0
      (busy done_signing) (filed done_signing) refl (pos 1) (104 ∷ []) "0x0102" names
      (Base.ne_of_== refl) signing-IsStorable (saved_signing (busy done_signing))

-- the key generation, ended with the share 1
abbrev done_keygen : Operation
done_keygen = record active_keygen {
  completed_at = some 12;
  status = completed;
  result = some (
      keygen_result
        (record { public_key = hex (public_key_bytes alice 1); key_id = key_id_of alice 1 }));
}

sample_key-eq :
    record { public_key = hex (public_key_bytes alice 1); key_id = key_id_of alice 1 } ≡ sample_key
unfolding hex public_key_bytes key_id_of
sample_key-eq = refl

keygen-OperationJson : OperationJson json tree (to_data alice done_keygen)
unfolding to_data ids
keygen-OperationJson = record {
  operation = λ b e. let w : 5 ∷ [] ≡ b = cc in rw (← w) refl;
  result = rw sample_key-eq json-keygen_result;
  request = json-keygen_request;
}

saves_keygen : LastSave alice tree done_keygen
saves_keygen = record {
  json = keygen-OperationJson;
  storage = storage-StorageLaws;
  working = working (to_data alice done_keygen);
}

share_saves : KeySave alice sample_keygen 1 0
unfolding encrypt
share_saves = record {
  key_bytes = 1 ∷ [];
  nonce = 7 ∷ 7 ∷ [];
  encrypted = 7 ∷ 7 ∷ 1 ∷ [];
  struct_bytes = 7 ∷ 7 ∷ 1 ∷ [];
  encoded = refl;
  decoded = refl;
  drawn = refl;
  sized = refl;
  cipher = cipher-AeadLaws;
  sealed = refl;
  struct_encoded = refl;
  struct_decoded = refl;
}

abbrev new_key : Event
new_key = received (save_data 1)

abbrev key_stored : Service Db
key_stored = (watch alice 0 new_key (busy active_keygen)).1

keygen_ends_example :
    ((watch alice 0 new_key (busy active_keygen)).0 ≡ ok tt)
    × (load_operation alice "key-1" key_stored ≡ (ok (to_data alice done_keygen), key_stored))
    × ((load_key_data alice (key_id_of alice 1) key_stored).0
        ≡ ok (key_data_of alice sample_keygen share_saves.encrypted, 1))
keygen_ends_example =
    keygen_ends alice tree 0 active_keygen (busy active_keygen) 1 refl (filed active_keygen)
      sample_keygen share_saves saves_keygen refl refl

-- the resharing, marked as completed
abbrev done_resharing : Operation
done_resharing = record active_resharing { completed_at = some 12; status = completed }

resharing-OperationJson : OperationJson json tree (to_data alice done_resharing)
unfolding to_data ids
resharing-OperationJson = record {
  operation = λ b e. let w : 6 ∷ [] ≡ b = cc in rw (← w) refl;
  result = json-none;
  request = json-resharing_request;
}

saves_resharing : LastSave alice tree done_resharing
saves_resharing = record {
  json = resharing-OperationJson;
  storage = storage-StorageLaws;
  working = working (to_data alice done_resharing);
}

abbrev reshared : Service Db
reshared = (watch alice 0 new_key (busy active_resharing)).1

resharing_panics_example :
    ((watch alice 0 new_key (busy active_resharing)).0 ≡ Base.panics)
    × (load_operation alice "reshare-1" reshared ≡ (ok (to_data alice done_resharing), reshared))
resharing_panics_example =
    resharing_panics alice tree 0 active_resharing (busy active_resharing) 1 refl
      (filed active_resharing) (1 ∷ []) (7 ∷ 7 ∷ []) refl refl sample_resharing saves_resharing refl
      refl refl
