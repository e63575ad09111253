-- ===== src/Tss/Store.antt =====
-- internal/tss/service.go: operations and keys in persistent storage, and the lookups that try
-- memory first.
pub mod RoundTrip
use Prim.Native.String.{◌++◌ as ◌++ˢ◌}
use dknet.Base
use dknet.Base.{
  ℕ, String, Bool, true, false, [], ◌∷◌, Option, none, some, ◌==◌, if◌then◌else◌, Result, ok, err,
  Error, errorf, wrapf, external, or_error, wrapping, str, M, pure, fail, lift, gets, modify, ◌>>=◌,
  ◌>>◌, delete, ◌≡◌, ◌≢◌, ==_of_ne, arith,
}
use dknet.P2p.Types.{Bytes}
use dknet.Plugin.Encryption.{decrypt}
use dknet.Tss.Types.{
  OperationType, keygen, signing, resharing, Value, keygen_result, signing_result, keygen_request,
  signing_request, resharing_request, SaveData, Operation, OperationData, KeyData, is_completed,
  status_text,
}
use dknet.Tss.Env.{Env, Json}
use dknet.Tss.Service.{Service, alloc, find, ids}

-- fmt.Sprintf("operation:%s", id)
unfoldable pub operation_key : String → String
operation_key id = "operation:" ++ˢ id

or_old {ℓ} : {A : Type ℓ} → Value → (A → Value) → Option A → Value
or_old old wrap none = old
or_old old wrap (some a) = wrap a

-- the `switch opData.Type` over the result, after `json.Marshal(opData.Result)`
restore_result_bytes : Json → OperationType → Value → Bytes → Value
unfolding or_old
restore_result_bytes json keygen v b = or_old v keygen_result (json.unmarshal_keygen_result b)
restore_result_bytes json signing v b = or_old v signing_result (json.unmarshal_signing_result b)
restore_result_bytes json resharing v b = or_old v keygen_result (json.unmarshal_keygen_result b)
restore_result_bytes json _ v b = v

restore_result : Json → OperationType → Option Value → Option Value
unfolding restore_result_bytes
restore_result json t none = none
restore_result json t (some v) =
    some (elim (json.marshal_value v) [ none ↦ v | some b ↦ restore_result_bytes json t v b ])

-- the same for the request
restore_request_bytes : Json → OperationType → Value → Bytes → Value
unfolding or_old
restore_request_bytes json keygen v b = or_old v keygen_request (json.unmarshal_keygen_request b)
restore_request_bytes json signing v b = or_old v signing_request (json.unmarshal_signing_request b)
restore_request_bytes json resharing v b =
    or_old v resharing_request (json.unmarshal_resharing_request b)
restore_request_bytes json _ v b = v

restore_request : Json → OperationType → Option Value → Option Value
unfolding restore_request_bytes
restore_request json t none = none
restore_request json t (some v) =
    some (elim (json.marshal_value v) [ none ↦ v | some b ↦ restore_request_bytes json t v b ])

-- what `loadOperation` makes of the decoded record
unfoldable pub restore : Json → OperationData → OperationData
unfolding restore_result restore_request
restore json d = record d {
  result = restore_result json d.type d.result;
  request = restore_request json d.type d.request;
}

module _ {D : Type 0} (env : Env D) where
  abbrev pub error_string : Option Error → String
  error_string none = ""
  error_string (some e) = env.error_text e

  -- the `OperationData` that `saveOperation` writes
  unfoldable pub to_data : Operation → OperationData
  to_data o = record {
    id = o.id;
    type = o.type;
    session_id = o.session_id;
    status = o.status;
    participants = ids o.participants;
    request = o.request;
    result = o.result;
    error = error_string o.error;
    created_at = o.created_at;
    completed_at = o.completed_at;
  }

  abbrev pub save_bytes : String → Bytes → M (Service D) (Unit {0})
  save_bytes key bytes s = let (r, d) = env.storage.save key bytes s.db in (r, record s { db = d })

  abbrev load_bytes : String → M (Service D) Bytes
  load_bytes key s = (env.storage.load key s.db, s)

  -- saveOperation
  unfoldable pub save_operation : Operation → M (Service D) (Unit {0})
  save_operation o =
      let d = to_data o in
      if is_completed d
      then (do
        bytes ← lift (
            wrapping "failed to marshal operation data"
              (or_error (env.json.marshal_operation d) (external "json")))
        save_bytes (operation_key o.id) bytes)
      else fail (
          errorf "operation %s is not completed (status: %s)"
            (str o.id ∷ str (status_text o.status) ∷ []))

  -- loadOperation
  unfoldable pub load_operation : String → M (Service D) OperationData
  load_operation id = do
    bytes ← (λ s.
        (wrapping "failed to load operation data" (env.storage.load (operation_key id) s.db), s))
    d ← lift (
        wrapping "failed to unmarshal operation data"
          (or_error (env.json.unmarshal_operation bytes) (external "json")))
    pure (restore env.json d)

  abbrev pub deref : ℕ → M (Service D) Operation
  deref p s = elim (s.heap p) [ none ↦ (Base.panics, s) | some o ↦ (ok o, s) ]

  -- moveCompletedOperationToStorage
  unfoldable pub move_completed_operation_to_storage : String → M (Service D) (Unit {0})
  move_completed_operation_to_storage id s = elim (find id s) [
    | none ↦ (err (errorf "operation not found in memory: %s" (str id ∷ [])), s)
    | some p ↦
        (do
          o ← deref p
          (λ t. (
            wrapping "failed to save operation to storage" (save_operation o t).0,
            (save_operation o t).1,
          ))
          modify (λ t. record t { operations = delete id t.operations }))
          s
  ]

  -- the error that a stored operation carries
  abbrev stored_error : String → Option Error
  stored_error text = if text == "" then none else some (errorf "%s" (str text ∷ []))

  -- the `&Operation{...}` that `checkIdempotency` builds from stored data
  unfoldable pub of_data : OperationData → Operation
  of_data d = record {
    id = d.id;
    type = d.type;
    session_id = d.session_id;
    participants = [];
    party = none;
    end_ch = [];
    status = d.status;
    created_at = d.created_at;
    completed_at = d.completed_at;
    result = d.result;
    error = stored_error d.error;
    request = d.request;
    updates = [];
  }

  -- checkIdempotency: the pointer to an operation that exists already, if any
  unfoldable pub check_idempotency : String → M (Service D) (Option ℕ)
  check_idempotency id s = if id == "" then (ok none, s) else elim (find id s) [
    | some p ↦ (ok (some p), s)
    | none ↦ (do d ← load_operation id; p ← alloc (of_data d); pure (some p)) s
  ]

  -- GetOperation
  unfoldable pub get_operation : String → Service D → Option ℕ
  get_operation id s = find id s

  -- GetOperationData
  unfoldable pub get_operation_data : String → M (Service D) OperationData
  get_operation_data id s = elim (find id s) [
    | some p ↦ (do o ← deref p; pure (record (to_data o) { request = none })) s
    | none ↦ load_operation id s
  ]

  -- LoadKeyMetadata
  unfoldable pub load_key_metadata : String → M (Service D) KeyData
  load_key_metadata key_id = do
    bytes ← (λ s. (wrapping "failed to load key data" (env.storage.load key_id s.db), s))
    lift (
        wrapping "failed to unmarshal key data struct"
          (or_error (env.json.unmarshal_key_data bytes) (external "json")))

  -- loadKeyData
  unfoldable pub load_key_data : String → M (Service D) (KeyData × SaveData)
  unfolding load_key_metadata decrypt
  load_key_data key_id = do
    key_data ← load_key_metadata key_id
    decrypted ←
        lift (wrapping "failed to decrypt key data" (decrypt env.encryption key_data.key_data))
    save ← lift (
        wrapping "failed to unmarshal save data"
          (or_error (env.json.unmarshal_save_data decrypted) (external "json")))
    pure (key_data, save)

  -- Loading a key reads the database and changes nothing.
  pub load_key_data-eq :
      (key_id : String) (s t : Service D) {k : KeyData × SaveData}
      → t.db ≡ s.db
      → (load_key_data key_id s).0 ≡ ok k
      → load_key_data key_id t ≡ (ok k, t)
  unfolding load_key_data
  load_key_data-eq key_id s t same loaded = ground arith

  pub load_operation-eq :
      (id : String) (s t : Service D) {d : OperationData}
      → t.db ≡ s.db
      → load_operation id s ≡ (ok d, s)
      → load_operation id t ≡ (ok d, t)
  unfolding load_operation
  load_operation-eq id s t same loaded = ground arith

  -- What is not in memory is looked up in storage.
  pub get_stored :
      (id : String) (s : Service D)
      → find id s ≡ none
      → get_operation_data id s ≡ load_operation id s
  unfolding get_operation_data
  get_stored id s absent = rw (absent, get_operation_data)

  pub check_stored :
      (id : String) (s : Service D) {d : OperationData}
      → id ≢ ""
      → find id s ≡ none
      → load_operation id s ≡ (ok d, s)
      → check_idempotency id s ≡ (ok (some s.next), (alloc (of_data d) s).1)
  unfolding check_idempotency
  check_stored id s named absent loaded =
      rw (==_of_ne id "" named, absent, check_idempotency) (rw loaded)
