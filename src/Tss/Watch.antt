-- ===== src/Tss/Watch.antt =====
-- internal/tss/service.go, `watchOperation` and `runOperation`, and kengen.go, `saveKeygenResult`:
-- how an operation runs and ends.
pub mod Endings
pub mod NewKey
pub mod Running
use Prim.Native.String.{◌++◌ as ◌++ˢ◌}
use dknet.Base
use dknet.Base.{
  ℕ, suc, String, [], ◌∷◌, ◌++◌, Option, none, some, Result, ok, err, Error, external, or_error,
  wrapping, M, pure, gets, lift, modify, ◌>>=◌, ◌>>◌,
}
use dknet.P2p.Types.{Bytes}
use dknet.Plugin.Encryption.{encrypt, drop}
use dknet.Tss.Types.{
  OperationStatus, in_progress, completed, failed, canceled, Value, keygen_request, keygen_result,
  signing_result, KeygenRequest, SaveData, EndValue, error_value, save_data, signature_data,
  other_value, Operation, KeyData, start_party, outgoing_messages,
}
use dknet.Tss.Env.{Env}
use dknet.Tss.Service.{Service, assign, spawn}
use dknet.Tss.Signature.{hex, signing_result_of}
use dknet.Tss.Store.{deref, save_bytes, move_completed_operation_to_storage}

-- `operation.Request.(*KeygenRequest)`, which panics at any other type
pub as_keygen : Option Value → Result KeygenRequest
as_keygen (some (keygen_request req)) = ok req
as_keygen _ = Base.panics

-- what `select` receives: the context is done, or a value comes from `EndCh`
pub data Event : Type 0 where
  done : Event
  received : EndValue → Event

module _ {D : Type 0} (env : Env D) where
  -- the public key of the result, and the key id: the Ethereum address of the key
  unfoldable pub public_key_bytes : SaveData → Bytes
  public_key_bytes result = env.lib.x_bytes result ++ env.lib.y_bytes result

  unfoldable pub key_id_of : SaveData → String
  unfolding public_key_bytes hex
  key_id_of result = "0x" ++ˢ hex (drop 12 (env.keccak256 (public_key_bytes result)))

  unfoldable pub draw_nonce : M (Service D) (Option Bytes)
  draw_nonce s = (ok (env.nonce s.draws), record s { draws = suc s.draws })

  unfoldable pub set_result : ℕ → Value → M (Service D) (Unit {0})
  set_result p v = do o ← deref env p; modify (assign p (record o { result = some v }))

  -- the `keyData` that is stored
  abbrev pub key_data_of : KeygenRequest → Bytes → KeyData
  key_data_of req encrypted = record {
    moniker = env.moniker;
    key_data = encrypted;
    threshold = req.threshold;
    participants = req.participants;
  }

  -- saveKeygenResult
  unfoldable pub save_keygen_result : ℕ → SaveData → M (Service D) (Unit {0})
  unfolding draw_nonce set_result as_keygen
  save_keygen_result p result = do
    key_data_bytes ← lift (
        wrapping "failed to marshal key data"
          (or_error (env.json.marshal_save_data result) (external "json")))
    nonce ← draw_nonce
    encrypted ←
        lift (wrapping "failed to encrypt key data" (encrypt env.encryption nonce key_data_bytes))
    o ← deref env p
    req ← lift (as_keygen o.request)
    bytes ← lift (
        wrapping "failed to marshal key data struct"
          (or_error (env.json.marshal_key_data (key_data_of req encrypted)) (external "json")))
    (λ s.
        let r = save_bytes env (key_id_of result) bytes s in
        (wrapping "failed to save key data" r.0, r.1))
    set_result p (
        keygen_result
          (record { public_key = hex (public_key_bytes result); key_id = key_id_of result }))

  abbrev pub set_status : ℕ → OperationStatus → M (Service D) (Unit {0})
  set_status p status = do o ← deref env p; modify (assign p (record o { status = status }))

  abbrev pub complete_at : ℕ → M (Service D) (Unit {0})
  complete_at p = do
    now ← gets (λ s. s.clock)
    o ← deref env p
    modify (assign p (record o { completed_at = some now }))

  abbrev pub fail_with : ℕ → Error → M (Service D) (Unit {0})
  fail_with p e = do
    o ← deref env p
    modify (assign p (record o { error = some e; status = failed }))

  -- a failed save makes the operation failed; a panic leaves
  abbrev pub or_fail : ℕ → Result (Unit {0}) → M (Service D) (Unit {0})
  or_fail p (ok tt) s = (ok tt, s)
  or_fail p (err e) s = fail_with p e s
  or_fail p Base.Result.panics s = (Base.panics, s)

  -- the `switch r := result.(type)`
  unfoldable pub conclude_value : ℕ → EndValue → M (Service D) (Unit {0})
  unfolding set_result
  conclude_value p (error_value e) = fail_with p e
  conclude_value p (save_data r) = do
    set_status p completed
    (λ s. let saved = save_keygen_result p r s in or_fail p saved.0 saved.1)
  conclude_value p (signature_data d) = do
    set_status p completed
    set_result p (signing_result (signing_result_of d))
  conclude_value p other_value = set_status p failed

  -- the `select` of `watchOperation`
  unfoldable pub conclude : ℕ → Event → M (Service D) (Unit {0})
  unfolding conclude_value
  conclude p done = do set_status p canceled; complete_at p
  conclude p (received v) = do complete_at p; conclude_value p v

  -- watchOperation: the deferred move runs also when the goroutine panics, and its error is logged
  unfoldable pub watch : ℕ → Event → M (Service D) (Unit {0})
  unfolding conclude
  watch p event = do
    o ← deref env p
    (λ s.
        let (r, t) = conclude p event s in (r, (move_completed_operation_to_storage env o.id t).1))

  -- runOperation
  unfoldable pub run : ℕ → M (Service D) (Unit {0})
  run p = do
    set_status p in_progress
    modify (spawn (start_party p))
    modify (spawn (outgoing_messages p))
