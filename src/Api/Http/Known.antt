-- ===== src/Api/Http/Known.antt =====
-- A client that asks for a known operation is always answered.
use dknet.Base.{ℕ, String, none, some, ok, ◌≡◌, ◌≢◌, inl, inr, arith, lookup, Option-cases}
use dknet.P2p.Types.{Bytes}
use dknet.Tss.Types.{Operation, OperationData}
use dknet.Tss.Env.{Env, StorageLaws}
use dknet.Tss.Service.{Service, find}
use dknet.Tss.Store.{
  to_data, operation_key, load_operation, restore, get_operation, get_operation_data,
}
use dknet.Tss.Tasks.{Steps}
use dknet.Tss.Lifecycle.{WellFormed, Known}
use dknet.Tss.Lifecycle.Goroutines.{Steps-Keeps}
use dknet.Api.Responses.{
  GetOperationResponse, build_operation_response, build_operation_response_from_storage,
}
use dknet.Api.Replies.{reply}
use dknet.Api.Http.{get_operation_handler}

-- encoding/json decodes a record of an operation that it has encoded
pub record RecordsDecode {D : Type 0} (env : Env D) : Type 0 where
  pub decodes :
      (o : Operation) (b : Bytes)
      → env.json.marshal_operation (to_data env o) ≡ some b
      → env.json.unmarshal_operation b ≢ none

module _ {D : Type 0} (env : Env D) (timestamp : ℕ → ℕ) (decode : RecordsDecode env)
    (id : String) where
  -- the answer is 200 with some response
  abbrev pub IsAnswered : Service D → Type 0
  IsAnswered s =
      (body : GetOperationResponse) × ((get_operation_handler env timestamp id s).0
        ≡ ok (reply 200 body))

  IsAnswered-active :
      (s : Service D) (p : ℕ) (o : Operation)
      → lookup id s.operations ≡ some p
      → s.heap p ≡ some o
      → IsAnswered s
  unfolding get_operation_handler get_operation find
  IsAnswered-active s p o found there =
      (build_operation_response timestamp env.error_text o, ground arith)

  IsAnswered-stored :
      (s : Service D) (b : Bytes) (d : OperationData)
      → lookup id s.operations ≡ none
      → env.storage.load (operation_key id) s.db ≡ ok b
      → env.json.unmarshal_operation b ≡ some d
      → IsAnswered s
  unfolding get_operation_handler get_operation get_operation_data load_operation find
  IsAnswered-stored s b d absent loaded decoded =
      (build_operation_response_from_storage timestamp (restore env.json d), ground arith)

  pub Known-IsAnswered : (s : Service D) → WellFormed env s → Known env id s → IsAnswered s
  Known-IsAnswered s w known = elim (Option-cases (lookup id s.operations)) [
    | inr (p, found) ↦ let (o, there, _) = w.filed id p found in IsAnswered-active s p o found there
    | inl absent ↦ elim known [
      | inl (p, found) ↦ ground arith
      | inr (b, loaded) ↦
          let (o, _, _, encoded) = w.stored id b loaded in
          elim (Option-cases (env.json.unmarshal_operation b)) [
            | inl lost ↦ absurd (decode.decodes o b encoded lost)
            | inr (d, decoded) ↦ IsAnswered-stored s b d absent loaded decoded
          ]
    ]
  ]

  -- Once an operation is known in a well formed state, in memory or in storage, whatever requests,
  -- messages and goroutines come in whatever order, as long as no goroutine has panicked beyond its
  -- own recovery, which ends the process: asking for it over HTTP is always answered with
  -- 200, never with an error or a panic (the storage keeps its laws, and encoding/json decodes the
  -- records of operations that it encoded).
  pub stays-IsAnswered :
      (laws : StorageLaws env.storage) {s t : Service D}
      → WellFormed env s
      → Known env id s
      → Steps env s t
      → IsAnswered t
  stays-IsAnswered laws {s} {t} w known steps =
      let (v, k) = Steps-Keeps env laws w steps in Known-IsAnswered t v (k id known)
