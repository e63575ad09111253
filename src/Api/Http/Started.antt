-- ===== src/Api/Http/Started.antt =====
-- A client that starts an operation can look it up with the ID that it is answered.
use dknet.Base.{
  ℕ, suc, String, List, none, some, ok, ℤ, pos, negsuc, ◌≡◌, ap, ◌∙◌, ◌<◌, arith, ◌%◌, ◌-◌,
}
use dknet.Tss.Types.{PartyId, Operation}
use dknet.Tss.Env.{Env}
use dknet.Tss.Service.{
  Service, started_state, started_state-Started, ids, find_party, create_participant_list,
}
use dknet.Tss.Keygen.{start_keygen, keygen_operation}
use dknet.Tss.Requests.Fresh.{start_keygen-eq, keygen_started, keygen_announced}
use dknet.Api.Responses.{
  to_int32, api_request, convert_operation_type, convert_operation_status, status_pending,
  type_keygen, request_keygen, GetOperationResponse, build_operation_response,
}
use dknet.Api.Replies.{StartKeygenRequest, StartResponse, Reply, reply}
use dknet.Api.Http.{keygen_handler, get_operation_handler, start_response}
use dknet.Api.Http.Visible.{shown_in_memory}

-- the range of an `int32`
pub data IsInt32 : ℤ → Type 0 where
  natural : (n : ℕ) → n < 2147483648 → IsInt32 (pos n)
  negative : (n : ℕ) → n < 2147483648 → IsInt32 (negsuc n)

mod32 : (n : ℕ) → n < 2147483648 → n % 4294967296 ≡ n
mod32 n h = omega (arith, h)

sub_twice : (n : ℕ) → n < 2147483648 → 4294967295 - (4294967295 - n) ≡ n
sub_twice n h = omega (arith, h)

-- An `int` in the range of an `int32` keeps its value when it is converted.
pub to_int32-id : (t : ℤ) → IsInt32 t → to_int32 t ≡ t
unfolding to_int32
to_int32-id _ (natural n h) = rw (mod32 n h) (ground (arith, h))
to_int32-id _ (negative n h) = rw (mod32 n h) (ground (arith, h, sub_twice n h))

module _ {D : Type 0} (env : Env D) (timestamp : ℕ → ℕ) (threshold : ℤ) (participants : List String)
    (self : PartyId) (s : Service D) where
  -- the request, without an operation ID
  abbrev request : StartKeygenRequest
  request = record { operation_id = ""; threshold = threshold; participants = participants }

  -- the state that the handler leaves
  abbrev pub requested : Service D
  requested = (keygen_handler env timestamp (ok request) s).1

  -- the answers: the operation is accepted, and later shown
  abbrev pub accepted : Reply StartResponse
  accepted = reply 202 (record {
    operation_id = env.uuid s.draws;
    status = status_pending;
    created_at = timestamp s.clock;
  })

  abbrev pub shown : ℤ → Reply GetOperationResponse
  shown t = reply 200 (record {
    operation_id = env.uuid s.draws;
    type = type_keygen;
    session_id = env.uuid (suc s.draws);
    status = status_pending;
    participants = ids (create_participant_list env participants);
    created_at = timestamp s.clock;
    completed_at = none;
    error = none;
    result = none;
    request = some (request_keygen t participants);
  })

  handled :
      {p : ℕ} {o : Operation} (t : Service D)
      → start_keygen env "" threshold participants s ≡ (ok p, t)
      → t.heap p ≡ some o
      → keygen_handler env timestamp (ok request) s
        ≡ (ok (reply 202 (start_response timestamp o)), t)
  unfolding keygen_handler
  handled t started placed = ground arith

  -- A key generation request without an ID and with an `int32` threshold, at a node of its
  -- participant list, is accepted with a generated ID; asking for that ID then shows the pending
  -- operation with its participants and the threshold of the request.
  pub keygen_then_get :
      IsInt32 threshold
      → find_party env.node_id (create_participant_list env participants) ≡ some self
      → ((keygen_handler env timestamp (ok request) s).0 ≡ ok accepted)
        × (get_operation_handler env timestamp (env.uuid s.draws) requested
            ≡ (ok (shown threshold), requested))
  unfolding build_operation_response keygen_operation convert_operation_type api_request
      convert_operation_status
  keygen_then_get fits found =
      let t : Service D =
        started_state (keygen_started env s threshold participants self) 10
          (keygen_announced env s threshold participants) s in
      let r =
        started_state-Started (keygen_started env s threshold participants self) 10
          (keygen_announced env s threshold participants) s in
      let answered = handled t (start_keygen-eq env s threshold participants self found) r.placed in
      let get = shown_in_memory env timestamp _ s.next t r.filed r.placed in
      (
        ap (λ x. x.0) answered,
        rw (ap (λ x. x.1) answered)
            (get.0 ∙ ap (λ x. (ok (shown x), t)) (to_int32-id threshold fits)),
      )
