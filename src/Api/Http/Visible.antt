-- ===== src/Api/Http/Visible.antt =====
-- What a client sees of an operation does not depend on where the operation is kept.
use dknet.Base.{
  ℕ, Option, none, some, ok, Error, if◌then◌else◌, ◌≡◌, ◌≢◌, refl, arith, ◌==◌, ==_of_ne, ◌∙◌, ap,
  sym,
}
use dknet.Tss.Types.{Operation, Value}
use dknet.Tss.Env.{Env, StorageLaws}
use dknet.Tss.Service.{Service, find}
use dknet.Tss.Store.{
  error_string, to_data, save_operation, move_completed_operation_to_storage, get_operation,
  get_operation_data,
}
use dknet.Tss.Store.RoundTrip.{OperationJson, IsStorable, moved_is_visible}
use dknet.Api.Responses.{
  shown_error, build_operation_response, build_operation_response_from_storage,
}
use dknet.Api.Replies.{reply, rpc_ok}
use dknet.Api.Http.{get_operation_handler}
use dknet.Api.Grpc.{rpc_get_operation}

module _ {D : Type 0} (env : Env D) (timestamp : ℕ → ℕ) where
  pub shown_in_memory :
      (o : Operation) (p : ℕ) (s : Service D)
      → find o.id s ≡ some p
      → s.heap p ≡ some o
      → (get_operation_handler env timestamp o.id s
          ≡ (ok (reply 200 (build_operation_response timestamp env.error_text o)), s))
        × (rpc_get_operation env timestamp o.id s
            ≡ (ok (rpc_ok (build_operation_response timestamp env.error_text o)), s))
  unfolding get_operation_handler rpc_get_operation get_operation
  shown_in_memory o p s filed points_to = (ground arith, ground arith)

module _ {D : Type 0} (env : Env D) (timestamp : ℕ → ℕ)
    (texts : (e : Error) → env.error_text e ≢ "") where
  shown_stored :
      (e : Option Error)
      → (if error_string env e == "" then none else some (error_string env e))
        ≡ shown_error timestamp env.error_text e
  shown_stored none = refl
  shown_stored (some e) = rw (==_of_ne (env.error_text e) "" (texts e))

  -- The response that is built from the stored record of an operation is the one that is built from
  -- the operation itself, if every error has a text.
  pub build-to_data :
      (o : Operation)
      → build_operation_response_from_storage timestamp (to_data env o)
        ≡ build_operation_response timestamp env.error_text o
  unfolding build_operation_response build_operation_response_from_storage to_data
  build-to_data o = rw (shown_stored o.error)

  module _ (tree : Value → ℕ) (storage_laws : StorageLaws env.storage) (o : Operation)
      (json_laws : OperationJson env.json tree (to_data env o)) (p : ℕ) (s : Service D)
      (filed : find o.id s ≡ some p) (points_to : s.heap p ≡ some o) where
    shown_from_storage :
        (t : Service D)
        → find o.id t ≡ none
        → get_operation_data env o.id t ≡ (ok (to_data env o), t)
        → (get_operation_handler env timestamp o.id t
            ≡ (ok (reply 200 (build_operation_response timestamp env.error_text o)), t))
          × (rpc_get_operation env timestamp o.id t
              ≡ (ok (rpc_ok (build_operation_response timestamp env.error_text o)), t))
    unfolding get_operation_handler rpc_get_operation get_operation
    shown_from_storage t gone loaded =
        (ground (arith, build-to_data o), ground (arith, build-to_data o))

    -- A client that asks for an ended operation gets the same answer over HTTP before and after the
    -- operation has moved to storage, and the same over gRPC: its last state with its result and
    -- its request (under the laws of encoding/json and the storage, if every error has a text).
    pub move_invisible :
        IsStorable o
        → (save_operation env o s).0 ≡ ok tt
        → let t : Service D = (move_completed_operation_to_storage env o.id s).1 in
          ((get_operation_handler env timestamp o.id t).0
            ≡ (get_operation_handler env timestamp o.id s).0)
          × ((rpc_get_operation env timestamp o.id t).0
              ≡ (rpc_get_operation env timestamp o.id s).0)
    move_invisible storable saved =
        let (gone, loaded) =
          moved_is_visible env tree storage_laws o json_laws p s filed points_to storable saved in
        let (http, grpc) = shown_from_storage _ gone loaded in
        let (http_before, grpc_before) = shown_in_memory env timestamp o p s filed points_to in
        (
          ap (λ x. x.0) http ∙ sym (ap (λ x. x.0) http_before),
          ap (λ x. x.0) grpc ∙ sym (ap (λ x. x.0) grpc_before),
        )
