-- ===== src/Samples.antt =====
-- A small world for the examples: three nodes, tables for encoding/json, an association list as the
-- database, and a cipher that does not hide anything.
use dknet.Base.{
  ℕ, ◌+◌, String, true, false, List, [], ◌∷◌, ◌++◌, Option, none, some, Result, ok, not_found,
  if◌then◌else◌, ◌==ℕ◌, or_error, pos, refl, arith, lookup, insert, lookup-insert, eq_iff,
}
use dknet.P2p.Types.{Bytes}
use dknet.Plugin.Encryption.{Aead, AeadLaws}
use dknet.Tss.Types.{
  KeygenRequest, KeygenResult, SigningRequest, ResharingRequest, Value, keygen_result,
  signing_result, keygen_request, signing_request, resharing_request, generic, SaveData,
  OperationSyncData, SyncData, keygen_sync, signing_sync, resharing_sync, OperationData, KeyData,
  SignatureData, SigningSyncData, other_value, keygen, signing, resharing, completed, OperationType,
}
use dknet.Tss.Env.{Json, TssLib, Storage, StorageLaws, Env, ValidationRequest, ValidationResponse}
use dknet.Tss.Service.{Service}
use dknet.Tss.Signature.{bytes_of, replicate, signing_result_of}

abbrev pub Db : Type 0
Db = List (String × Bytes)

abbrev pub storage : Storage Db
storage = record {
  save = λ k v d. (ok tt, insert k v d);
  load = λ k d. or_error (lookup k d) not_found;
}

pub storage-StorageLaws : StorageLaws storage
storage-StorageLaws = record {
  load-save = λ k v d saved. ground (arith, lookup-insert k k v d, eq_iff k k);
  load-save_ne = λ k j v d other. ground (arith, lookup-insert k j v d, eq_iff k j);
  save_failed = λ k v d h. absurd (h refl);
}

abbrev pub names : List String
names = "alice" ∷ "bob" ∷ []

abbrev pub sample_signature : SignatureData
sample_signature = record { r = 5 ∷ []; s = 6 ∷ 7 ∷ []; signature_recovery = 1 ∷ [] }

abbrev pub sample_keygen : KeygenRequest
sample_keygen = record { operation_id = "key-1"; threshold = pos 1; participants = names }

abbrev pub sample_signing : SigningRequest
sample_signing = record {
  operation_id = "sign-1";
  message = 104 ∷ 105 ∷ [];
  key_id = "0x0102";
  participants = names;
}

abbrev pub sample_resharing : ResharingRequest
sample_resharing = record {
  operation_id = "reshare-1";
  key_id = "0x0102";
  new_threshold = pos 1;
  new_parties = 2;
  old_participants = names;
  new_participants = "bob" ∷ "carol" ∷ [];
}

abbrev pub sample_key : KeygenResult
sample_key = record { public_key = "0102"; key_id = "0x0102" }

abbrev pub tree : Value → ℕ
tree (keygen_result r) = 4
tree (signing_result r) = 1
tree (keygen_request r) = 3
tree (signing_request r) = 2
tree (resharing_request r) = 5
tree (generic n) = n

abbrev map_option : (ℕ → Value) → Option ℕ → Option Value
map_option f none = none
map_option f (some n) = some (f n)

-- the record of an operation that has ended at 12, as it is decoded
abbrev stored : String → OperationType → ℕ → Option ℕ → ℕ → OperationData
stored id t created result request = record {
  id = id;
  type = t;
  session_id = "session";
  status = completed;
  participants = names;
  request = some (generic request);
  result = map_option generic result;
  error = "";
  created_at = created;
  completed_at = some 12;
}

abbrev marshal_value : Value → Option Bytes
marshal_value (generic n) = some (n ∷ [])
marshal_value _ = none

abbrev first : Bytes → ℕ
first [] = 0
first (b ∷ bs) = b

abbrev unmarshal_operation : Bytes → Option OperationData
unmarshal_operation b =
    if first b ==ℕ 9
    then some (stored "sign-1" signing 9 (some 1) 2)
    else if first b ==ℕ 5
    then some (stored "key-1" keygen 5 (some 4) 3)
    else if first b ==ℕ 6
    then some (stored "reshare-1" resharing 6 none 5)
    else none

abbrev only {ℓ} : {A : Type ℓ} → ℕ → A → Bytes → Option A
only n a [] = none
only n a (b ∷ bs) = if b ==ℕ n then some a else none

abbrev unmarshal_save_data : Bytes → Option SaveData
unmarshal_save_data (n ∷ []) = some n
unmarshal_save_data _ = none

abbrev marshal_key_data : KeyData → Option Bytes
marshal_key_data k = some (k.key_data)

abbrev unmarshal_key_data : Bytes → Option KeyData
unmarshal_key_data b =
    some (record { moniker = "node"; key_data = b; threshold = pos 1; participants = names })

abbrev marshal_sync : SyncData → Option Bytes
marshal_sync (keygen_sync d) = some (1 ∷ [])
marshal_sync (signing_sync d) = some (2 ∷ [])
marshal_sync (resharing_sync d) = some (3 ∷ [])

abbrev pub keygen_base : OperationSyncData
keygen_base = record {
  operation_id = "id-0";
  operation_type = keygen;
  session_id = "id-1";
  threshold = pos 1;
  parties = 2;
  participants = names;
}

abbrev pub resharing_base : OperationSyncData
resharing_base = record {
  operation_id = "id-0";
  operation_type = resharing;
  session_id = "id-1";
  threshold = pos 1;
  parties = 2;
  participants = "bob" ∷ "carol" ∷ [];
}

-- an announcement of a signing without a message
abbrev pub sample_signing_sync : SigningSyncData
sample_signing_sync = record {
  base = record {
    operation_id = "id-0";
    operation_type = signing;
    session_id = "id-1";
    threshold = pos 1;
    parties = 2;
    participants = names;
  };
  key_id = "0x0102";
  message = [];
}

abbrev unmarshal_base : Bytes → Option OperationSyncData
unmarshal_base b =
    if first b ==ℕ 1 then some keygen_base else if first b ==ℕ 3 then some resharing_base else none

abbrev pub json : Json
json = record {
  marshal_key_data = marshal_key_data;
  unmarshal_key_data = unmarshal_key_data;
  marshal_save_data = λ n. some (n ∷ []);
  unmarshal_save_data = unmarshal_save_data;
  marshal_operation = λ d. some (d.created_at ∷ []);
  unmarshal_operation = unmarshal_operation;
  marshal_value = marshal_value;
  unmarshal_keygen_result = only 4 sample_key;
  unmarshal_signing_result = only 1 (signing_result_of sample_signature);
  unmarshal_keygen_request = only 3 sample_keygen;
  unmarshal_signing_request = only 2 sample_signing;
  unmarshal_resharing_request = only 5 sample_resharing;
  marshal_sync = marshal_sync;
  unmarshal_base = unmarshal_base;
  unmarshal_signing_sync = only 2 sample_signing_sync;
  unmarshal_resharing_sync = λ b. none;
}

abbrev pub lib : TssLib
lib = record {
  sort_party_ids = λ l. l;
  generate_pre_params = none;
  new_save_data = λ n. 0;
  x_bytes = λ r. r ∷ [];
  y_bytes = λ r. (r + 1) ∷ [];
  start = λ party. none;
  update_from_bytes = λ party earlier u. ok true;
  panic_value = other_value;
}

-- the nonce is two bytes, and the sealed text is the text
abbrev pub cipher : Aead
cipher = record { nonce_size = 2; seal = λ n t. t; open_sealed = λ n c. some c }

pub cipher-AeadLaws : AeadLaws cipher
cipher-AeadLaws = record { open-seal = λ nonce text sized. refl }

abbrev uuid : ℕ → String
uuid n = if n ==ℕ 0 then "id-0" else "id-1"

-- a validation service that wants a message of one byte at least
abbrev pub validate : ValidationRequest → Result ValidationResponse
validate req =
    ok (record { approved = if req.message_length ==ℕ 0 then false else true; reason = "" })

abbrev pub world : String → Env Db
world node = record {
  json = json;
  lib = lib;
  storage = storage;
  sha512_256 = bytes_of;
  keccak256 = λ b. replicate 12 0 ++ b;
  uuid = uuid;
  nonce = λ n. some (7 ∷ 7 ∷ []);
  error_text = λ e. "error";
  send_message = λ m. ok tt;
  encryption = cipher;
  validation_service = some validate;
  node_id = node;
  moniker = "node";
}

abbrev pub idle : Service Db
idle = record {
  db = [];
  operations = [];
  heap = λ p. none;
  next = 0;
  tasks = [];
  sent = [];
  clock = 12;
  draws = 0;
}
