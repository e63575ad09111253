-- ===== src/Tss/Store/RoundTrip.antt =====
-- What `saveOperation` writes, `loadOperation` reads back with its result and request at their
-- types, and a completed operation stays visible when it moves from memory to storage.
use mathlib.Core.Option
use dknet.Base.{
  ℕ, true, Option, none, some, ok, ◌≡◌, refl, arith, eq_iff, ◌∙◌, delete, lookup-delete, inl, inr,
  Option-cases,
}
use dknet.P2p.Types.{Bytes}
use dknet.Tss.Types.{
  OperationType, keygen, signing, resharing, Value, generic, KeygenResult, SigningResult,
  KeygenRequest, SigningRequest, ResharingRequest, Operation, OperationData, is_completed,
  is_terminal,
}
use dknet.Tss.Env.{Env, Json, StorageLaws}
use dknet.Tss.Service.{Service, find}
use dknet.Tss.Store.{
  operation_key, restore, restore_result, restore_request, to_data, save_operation, load_operation,
  move_completed_operation_to_storage, get_operation_data, load_operation-eq, get_stored,
}

-- `json.Unmarshal` into an `interface{}`: the tree of the value
abbrev pub untyped : (Value → ℕ) → OperationData → OperationData
untyped tree d = record d {
  result = Option.map (λ v. generic (tree v)) d.result;
  request = Option.map (λ v. generic (tree v)) d.request;
}

-- a tree that is encoded again decodes to the value that it came from
abbrev pub Decodes : {A : Type 0} → Json → ℕ → (Bytes → Option A) → A → Type 0
Decodes json tree decode a =
    (b : Bytes) × (json.marshal_value (generic tree) ≡ some b) × (decode b ≡ some a)

-- What encoding/json promises for a value in the record of an operation: its tree decodes to it.
pub record ValueJson (json : Json) (tree : Value → ℕ) (v : Option Value) : Type 0 where
  pub keygen_result :
      (r : KeygenResult)
      → v ≡ some (Value.keygen_result r)
      → Decodes json (tree (Value.keygen_result r)) json.unmarshal_keygen_result r
  pub signing_result :
      (r : SigningResult)
      → v ≡ some (Value.signing_result r)
      → Decodes json (tree (Value.signing_result r)) json.unmarshal_signing_result r
  pub keygen_request :
      (r : KeygenRequest)
      → v ≡ some (Value.keygen_request r)
      → Decodes json (tree (Value.keygen_request r)) json.unmarshal_keygen_request r
  pub signing_request :
      (r : SigningRequest)
      → v ≡ some (Value.signing_request r)
      → Decodes json (tree (Value.signing_request r)) json.unmarshal_signing_request r
  pub resharing_request :
      (r : ResharingRequest)
      → v ≡ some (Value.resharing_request r)
      → Decodes json (tree (Value.resharing_request r)) json.unmarshal_resharing_request r

-- What encoding/json promises for the record `d` of an operation: a result or request that was
-- encoded through an `interface{}` comes back as its tree.
pub record OperationJson (json : Json) (tree : Value → ℕ) (d : OperationData) : Type 0 where
  pub operation :
      (b : Bytes)
      → json.marshal_operation d ≡ some b
      → json.unmarshal_operation b ≡ some (untyped tree d)
  pub result : ValueJson json tree d.result
  pub request : ValueJson json tree d.request

-- the results that the service stores for an operation of a type
pub data ResultFits : OperationType → Option Value → Type 0 where
  nothing : (t : OperationType) → ResultFits t none
  key : (r : KeygenResult) → ResultFits keygen (some (Value.keygen_result r))
  signature : (r : SigningResult) → ResultFits signing (some (Value.signing_result r))
  new_key : (r : KeygenResult) → ResultFits resharing (some (Value.keygen_result r))

-- the requests that the service stores for an operation of a type
pub data RequestFits : OperationType → Option Value → Type 0 where
  nothing : (t : OperationType) → RequestFits t none
  to_generate : (r : KeygenRequest) → RequestFits keygen (some (Value.keygen_request r))
  to_sign : (r : SigningRequest) → RequestFits signing (some (Value.signing_request r))
  to_reshare : (r : ResharingRequest) → RequestFits resharing (some (Value.resharing_request r))

module _ (json : Json) (tree : Value → ℕ) where
  restore_result-untyped :
      {t : OperationType} {v : Option Value}
      → ValueJson json tree v
      → ResultFits t v
      → restore_result json t (Option.map (λ w. generic (tree w)) v) ≡ v
  unfolding restore_result
  restore_result-untyped laws (nothing t) = refl
  restore_result-untyped laws (key r) = let (b, e, d) = laws.keygen_result r refl in rw e (rw d)
  restore_result-untyped laws (signature r) =
      let (b, e, d) = laws.signing_result r refl in rw e (rw d)
  restore_result-untyped laws (new_key r) = let (b, e, d) = laws.keygen_result r refl in rw e (rw d)

  restore_request-untyped :
      {t : OperationType} {v : Option Value}
      → ValueJson json tree v
      → RequestFits t v
      → restore_request json t (Option.map (λ w. generic (tree w)) v) ≡ v
  unfolding restore_request
  restore_request-untyped laws (nothing t) = refl
  restore_request-untyped laws (to_generate r) =
      let (b, e, d) = laws.keygen_request r refl in rw e (rw d)
  restore_request-untyped laws (to_sign r) =
      let (b, e, d) = laws.signing_request r refl in rw e (rw d)
  restore_request-untyped laws (to_reshare r) =
      let (b, e, d) = laws.resharing_request r refl in rw e (rw d)

  restore-untyped :
      (d : OperationData)
      → OperationJson json tree d
      → ResultFits d.type d.result
      → RequestFits d.type d.request
      → restore json (untyped tree d) ≡ d
  unfolding restore
  restore-untyped d laws result request =
      rw (restore_result-untyped laws.result result, restore_request-untyped laws.request request)

-- What a record of an operation needs to be stored and restored: an end status, and a result and a
-- request of the operation's type.
pub record IsStorable (o : Operation) : Type 0 where
  pub ended : is_terminal o.status ≡ true
  pub result : ResultFits o.type o.result
  pub request : RequestFits o.type o.request

module _ {D : Type 0} (env : Env D) (tree : Value → ℕ) (storage_laws : StorageLaws env.storage)
    (o : Operation) (json_laws : OperationJson env.json tree (to_data env o)) where
  saved_bytes :
      (s : Service D)
      → IsStorable o
      → (save_operation env o s).0 ≡ ok tt
      → (b : Bytes) × (env.json.marshal_operation (to_data env o) ≡ some b)
        × ((env.storage.save (operation_key o.id) b s.db).0 ≡ ok tt)
        × ((save_operation env o s).1
            ≡ record s { db = (env.storage.save (operation_key o.id) b s.db).1 })
  unfolding save_operation
  saved_bytes s storable saved = elim (Option-cases (env.json.marshal_operation (to_data env o))) [
    | inl failed ↦ absurd (ground (arith, storable.ended))
    | inr (b, e) ↦
        let w : is_completed (to_data env o) ≡ true =
          unfold to_data is_completed in storable.ended in
        (b, e, ground arith, ground arith)
  ]

  -- An ended operation that was saved without error is loaded with all its fields, its result and
  -- its request at their types, if encoding/json decodes the record and a load gives what was saved.
  pub load-save_operation :
      (s : Service D)
      → IsStorable o
      → (save_operation env o s).0 ≡ ok tt
      → load_operation env o.id (save_operation env o s).1
        ≡ (ok (to_data env o), (save_operation env o s).1)
  unfolding load_operation
  load-save_operation s storable saved =
      let (b, marshalled, written, same) = saved_bytes s storable saved in
      rw same (
        rw (storage_laws.load-save (operation_key o.id) b s.db written) (
          rw (json_laws.operation b marshalled) (
            rw (
              restore-untyped env.json tree (to_data env o) json_laws
                (unfold to_data in storable.result) (unfold to_data in storable.request)))))

  module _ (p : ℕ) (s : Service D) (filed : find o.id s ≡ some p)
      (points_to : s.heap p ≡ some o) where
    move_eq :
        (save_operation env o s).0 ≡ ok tt
        → move_completed_operation_to_storage env o.id s ≡ (
          ok tt,
          record (save_operation env o s).1 {
            operations = delete o.id (save_operation env o s).1.operations;
          },
        )
    unfolding move_completed_operation_to_storage
    move_eq saved = ground arith

    pub moved_loads :
        IsStorable o
        → (save_operation env o s).0 ≡ ok tt
        → let t = (move_completed_operation_to_storage env o.id s).1 in
          ((move_completed_operation_to_storage env o.id s).0 ≡ ok tt)
          × (find o.id t ≡ none)
          × (load_operation env o.id t ≡ (ok (to_data env o), t))
    unfolding find
    moved_loads storable saved =
        let u : Service D = (save_operation env o s).1 in
        let t : Service D = record u { operations = delete o.id u.operations } in
        let gone : find o.id t ≡ none =
          ground (arith, lookup-delete o.id o.id u.operations, eq_iff o.id o.id) in
        let again : load_operation env o.id t ≡ (ok (to_data env o), t) =
          load_operation-eq env o.id u t refl (load-save_operation s storable saved) in
        rw (move_eq saved) (refl, gone, again)

    -- An active, ended operation whose save succeeds leaves memory when it is moved to storage, and
    -- `GetOperationData` then reads its last state from storage with every field (under the laws of
    -- encoding/json and the storage).
    pub moved_is_visible :
        IsStorable o
        → (save_operation env o s).0 ≡ ok tt
        → let t = (move_completed_operation_to_storage env o.id s).1 in
          (find o.id t ≡ none) × (get_operation_data env o.id t ≡ (ok (to_data env o), t))
    moved_is_visible storable saved =
        let (_, gone, again) = moved_loads storable saved in
        (gone, get_stored env o.id _ gone ∙ again)
