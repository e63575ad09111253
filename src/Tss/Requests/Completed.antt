-- ===== src/Tss/Requests/Completed.antt =====
-- A request that is repeated after its operation has ended and has moved to storage.
use dknet.Base
use dknet.Base.{
  ℕ, String, List, [], ◌∷◌, ◌==◌, if◌then◌else◌, errorf, str, ◌∙◌, ap, refl, Error, Option, none,
  some, ok, err, ℤ, ◌≡◌, ◌≢◌,
}
use dknet.P2p.Types.{Bytes}
use dknet.Tss.Types.{Operation, Value}
use dknet.Tss.Env.{Env, StorageLaws}
use dknet.Tss.Service.{Service, find, alloc}
use dknet.Tss.Store.{
  to_data, of_data, save_operation, move_completed_operation_to_storage, check_stored,
}
use dknet.Tss.Store.RoundTrip.{OperationJson, IsStorable, moved_loads}
use dknet.Tss.Keygen.{start_keygen}
use dknet.Tss.Sign.{start_signing}
use dknet.Tss.Resharing.{start_resharing}

module _ {D : Type 0} (env : Env D) (tree : Value → ℕ) (storage_laws : StorageLaws env.storage)
    (o : Operation) (json_laws : OperationJson env.json tree (to_data env o)) (p : ℕ)
    (s : Service D) (filed : find o.id s ≡ some p) (points_to : s.heap p ≡ some o) where
  abbrev pub after : Service D
  after = (move_completed_operation_to_storage env o.id s).1

  -- the text of the error
  abbrev pub remembered_error : Option Error → Option Error
  remembered_error none = none
  remembered_error (some e) =
      if env.error_text e == "" then none else some (errorf "%s" (str (env.error_text e) ∷ []))

  -- the operation as it was when it ended, without its participants, its party and its channel
  abbrev pub remembered : Operation
  remembered = record {
    id = o.id;
    type = o.type;
    session_id = o.session_id;
    participants = [];
    party = none;
    end_ch = [];
    status = o.status;
    created_at = o.created_at;
    completed_at = o.completed_at;
    result = o.result;
    error = remembered_error o.error;
    request = o.request;
    updates = [];
  }

  with_error :
      (error : Option Error)
      → of_data env (to_data env (record o { error = error }))
        ≡ record remembered { error = remembered_error error }
  unfolding of_data to_data
  with_error none = refl
  with_error (some e) = refl

  -- what the request returns: a new object with that state
  abbrev pub finished : Base.Result ℕ × Service D
  finished = (ok after.next, (alloc remembered after).1)

  -- Once an ended operation has moved to storage without error, each of the three requests with its
  -- ID returns a new object with the ID, type, session, status, times, result and request of that
  -- operation and the text of its error, but without its participants, and starts nothing.
  pub start_completed :
      (threshold : ℤ) (message : Bytes) (key_id : String) (participants : List String)
      → o.id ≢ ""
      → IsStorable o
      → (save_operation env o s).0 ≡ ok tt
      → (start_keygen env o.id threshold participants after ≡ finished)
        × (start_signing env o.id message key_id participants after ≡ finished)
        × (start_resharing env o.id key_id threshold participants after ≡ finished)
  unfolding start_keygen start_signing start_resharing
  start_completed threshold message key_id participants named storable saved =
      let (_, gone, loads) =
        moved_loads env tree storage_laws o json_laws p s filed points_to storable saved in
      let c =
        check_stored env o.id after named gone loads
        ∙ ap (λ u. (ok (some after.next), (alloc u after).1)) (with_error o.error) in
      (rw c, rw c, rw c)
