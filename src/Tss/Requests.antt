-- ===== src/Tss/Requests.antt =====
-- The three requests that start an operation (`StartKeygen`, `StartSigning`, `StartResharing`) and
-- the operation ID that makes them idempotent.
pub mod Fresh
pub mod Completed
use dknet.Base.{
  ℕ, suc, String, false, true, List, [], ◌∷◌, ◌++◌, Option, none, some, ok, err, Error, wrapf,
  errorf, str, ℤ, ◌≡◌, ◌≢◌, refl, arith, eq_iff, ◌==◌, ==_of_ne, Result, if◌then◌else◌, lookup,
  lookup-insert,
}
use dknet.P2p.Types.{Bytes}
use dknet.Tss.Types.{
  watch_operation, run_operation, broadcast_sync, OperationData, PartyId, Operation, keygen_party,
}
use dknet.Tss.Env.{Env}
use dknet.Tss.Service.{
  Service, find, find_party, create_participant_list, generate_or_use_operation_id, new_session_id,
}
use dknet.Tss.Store.{operation_key, check_idempotency, load_operation, restore, of_data}
use dknet.Tss.Broadcast.{keygen_sync_data}
use dknet.Tss.Keygen.{start_keygen, keygen_operation, create_and_start_keygen_operation}
use dknet.Tss.Sign.{start_signing}
use dknet.Tss.Resharing.{start_resharing}

module _ {D : Type 0} (env : Env D) (id : String) (s : Service D) (named : id ≢ "") where
  check_existing : (p : ℕ) → find id s ≡ some p → check_idempotency env id s ≡ (ok (some p), s)
  unfolding check_idempotency
  check_existing p found = rw (==_of_ne id "" named, found)

  check_unknown :
      (e : Error)
      → find id s ≡ none
      → env.storage.load (operation_key id) s.db ≡ err e
      → check_idempotency env id s ≡ (err (wrapf "failed to load operation data" e), s)
  unfolding check_idempotency load_operation
  check_unknown e absent missing = rw (==_of_ne id "" named, absent, missing)

  -- An ID of an active operation: each of the three requests returns that operation, whatever its
  -- other arguments are, and changes nothing.
  pub start_existing :
      (p : ℕ) (threshold : ℤ) (message : Bytes) (key_id : String) (participants : List String)
      → find id s ≡ some p
      → (start_keygen env id threshold participants s ≡ (ok p, s))
        × (start_signing env id message key_id participants s ≡ (ok p, s))
        × (start_resharing env id key_id threshold participants s ≡ (ok p, s))
  unfolding start_keygen start_signing start_resharing
  start_existing p threshold message key_id participants found =
      (rw (check_existing p found), rw (check_existing p found), rw (check_existing p found))

  abbrev pub refused : Error → Result ℕ × Service D
  refused e = (err (wrapf "failed to load operation data" e), s)

  -- An ID that is neither active nor stored: each of the three requests fails with the error of
  -- the storage, and no operation is started.
  pub start_unknown :
      (e : Error) (threshold : ℤ) (message : Bytes) (key_id : String) (participants : List String)
      → find id s ≡ none
      → env.storage.load (operation_key id) s.db ≡ err e
      → (start_keygen env id threshold participants s ≡ refused e)
        × (start_signing env id message key_id participants s ≡ refused e)
        × (start_resharing env id key_id threshold participants s ≡ refused e)
  unfolding start_keygen start_signing start_resharing
  start_unknown e threshold message key_id participants absent missing =
      let c = check_unknown e absent missing in (rw c, rw c, rw c)
