-- ===== src/Clients/Mcp/Answers.antt =====
-- What the key generation tool answers with.
use mathlib.Core.Path.{subst}
use dknet.Base.{
  ℕ, ◌<◌, String, Bool, true, false, List, [], ◌∷◌, Option, Error, ℤ, pos, negsuc, ◌≡◌, ◌≢◌, ◌⊎◌,
  ◌↔◌, inl, inr, refl, sym, ◌∙◌, arith, length, lookup, some, none, Option-cases,
}
use dknet.Api.Responses.{
  ApiStatus, status_unspecified, status_pending, status_in_progress, status_completed,
  status_failed, status_canceled, GetOperationResponse,
}
use dknet.Api.Replies.{StartKeygenRequest, StartResponse, Rpc, rpc_ok, rpc_error, Code}
use dknet.Clients.Mcp.{
  Arguments, ToolLibs, Client, ToolResult, tool_error, keygen_text, wait_for_operation_completion,
  extract_key_id, extract_public_key, checked_keygen, keygen_arguments, keygen_ended,
  keygen_started, keygen_sent, keygen_tool, float_of, text_of, text_or, participants_of,
}

abbrev pub is_end : ApiStatus → Bool
is_end status_completed = true
is_end status_failed = true
is_end status_canceled = true
is_end _ = false

-- the first answer that shows an ended operation, whatever errors and other answers come before
pub data FirstEnd (r : GetOperationResponse) : List (Rpc GetOperationResponse) → Type 0 where
  ended :
      (polls : List (Rpc GetOperationResponse))
      → is_end r.status ≡ true
      → FirstEnd r (rpc_ok r ∷ polls)
  after_error :
      (c : Code) (t : String) (args : List String) (polls : List (Rpc GetOperationResponse))
      → FirstEnd r polls
      → FirstEnd r (rpc_error c t args ∷ polls)
  after_other :
      (other : GetOperationResponse) (polls : List (Rpc GetOperationResponse))
      → is_end other.status ≡ false
      → FirstEnd r polls
      → FirstEnd r (rpc_ok other ∷ polls)

-- how waiting ends: without an answer, or with the first end, which is a completion
abbrev Waited : List (Rpc GetOperationResponse) → Error ⊎ GetOperationResponse → Type 0
Waited polls (inl e) = Unit
Waited polls (inr r) = FirstEnd r polls × (r.status ≡ status_completed)

later-Waited :
    (first : Rpc GetOperationResponse) (polls : List (Rpc GetOperationResponse))
    (w : Error ⊎ GetOperationResponse)
    → ((r : GetOperationResponse) → FirstEnd r polls → FirstEnd r (first ∷ polls))
    → Waited polls w
    → Waited (first ∷ polls) w
later-Waited first polls (inl e) step h = tt
later-Waited first polls (inr r) step (h, done) = (step r h, done)

-- an answer that shows no end is passed over
wait_skips :
    (other : GetOperationResponse) (polls : List (Rpc GetOperationResponse))
    → is_end other.status ≡ false
    → wait_for_operation_completion (rpc_ok other ∷ polls) ≡ wait_for_operation_completion polls
unfolding wait_for_operation_completion
wait_skips other polls e = go other.status refl
  where
    go :
        (st : ApiStatus)
        → other.status ≡ st
        → wait_for_operation_completion (rpc_ok other ∷ polls) ≡ wait_for_operation_completion polls
    go status_completed f = absurd (ground (arith, e, f))
    go status_failed f = absurd (ground (arith, e, f))
    go status_canceled f = absurd (ground (arith, e, f))
    go status_unspecified f = rw f refl
    go status_pending f = rw f refl
    go status_in_progress f = rw f refl

-- what waiting gives with one answer more in front
shown-Waited :
    (resp : GetOperationResponse) (polls : List (Rpc GetOperationResponse))
    → Waited polls (wait_for_operation_completion polls)
    → Waited (rpc_ok resp ∷ polls) (wait_for_operation_completion (rpc_ok resp ∷ polls))
unfolding wait_for_operation_completion
shown-Waited resp polls w = go resp.status refl
  where
    rest :
        is_end resp.status ≡ false
        → Waited (rpc_ok resp ∷ polls) (wait_for_operation_completion polls)
    rest other =
        later-Waited (rpc_ok resp) polls (wait_for_operation_completion polls)
          (λ r. after_other resp polls other) w

    go :
        (st : ApiStatus)
        → resp.status ≡ st
        → Waited (rpc_ok resp ∷ polls) (wait_for_operation_completion (rpc_ok resp ∷ polls))
    go status_completed e = simp e (ended polls (rw e refl), refl)
    go status_failed e = simp e tt
    go status_canceled e = simp e tt
    go status_unspecified e = rw (wait_skips resp polls (rw e refl)) (rest (rw e refl))
    go status_pending e = rw (wait_skips resp polls (rw e refl)) (rest (rw e refl))
    go status_in_progress e = rw (wait_skips resp polls (rw e refl)) (rest (rw e refl))

wait-Waited :
    (polls : List (Rpc GetOperationResponse)) → Waited polls (wait_for_operation_completion polls)
unfolding wait_for_operation_completion
wait-Waited [] = tt
wait-Waited (rpc_error c t args ∷ polls) =
    later-Waited (rpc_error c t args) polls (wait_for_operation_completion polls)
      (λ r. after_error c t args polls) (wait-Waited polls)
wait-Waited (rpc_ok resp ∷ polls) = shown-Waited resp polls (wait-Waited polls)

FirstEnd-wait :
    (r : GetOperationResponse) (polls : List (Rpc GetOperationResponse))
    → FirstEnd r polls
    → r.status ≡ status_completed
    → wait_for_operation_completion polls ≡ inr r
unfolding wait_for_operation_completion
FirstEnd-wait r polls (ended rest e) done = simp done refl
FirstEnd-wait r polls (after_error c t args rest h) done = FirstEnd-wait r rest h done
FirstEnd-wait r polls (after_other other rest e h) done =
    wait_skips other rest e ∙ FirstEnd-wait r rest h done

module _ (libs : ToolLibs) (client : Client) (args : Option Arguments) where
  -- The arguments list participants and a threshold below their number, the node accepted the request
  -- for them, and the first end that it showed of the operation is a completion, which
  -- the answer shows.
  pub data Earned : ToolResult → Type 0 where
    earned :
        (t : ℕ) (req : StartKeygenRequest) (started : StartResponse) (resp : GetOperationResponse)
        → keygen_arguments libs client args ≡ inr (pos t, req)
        → t < length req.participants
        → client.start_keygen req ≡ rpc_ok started
        → FirstEnd resp (client.polls started.operation_id)
        → resp.status ≡ status_completed
        → Earned (
            keygen_text resp.operation_id resp.status
              (pos t)
              req.participants
              resp.created_at
              (extract_key_id resp.result)
              (extract_public_key resp.result))

  Earned-tool : (r : ToolResult) → Earned r → keygen_tool libs client args ≡ r
  unfolding keygen_tool keygen_sent keygen_started keygen_ended
  Earned-tool r (earned t req started resp checked small accepted end done) =
      rw checked
        (rw accepted (rw (FirstEnd-wait resp (client.polls started.operation_id) end done) refl))

  checked_small :
      (f : ℕ) (participants : List String) (id : String) (z : ℤ) (req : StartKeygenRequest)
      → checked_keygen libs client f participants id ≡ inr (z, req)
      → (t : ℕ) × (z ≡ pos t) × (t < length req.participants)
  unfolding checked_keygen
  checked_small f participants id z req h = go (libs.int_of f) refl
    where
      go : (i : ℤ) → libs.int_of f ≡ i → (t : ℕ) × (z ≡ pos t) × (t < length req.participants)
      go (pos t) e = (t, ground (arith, h, e), ground (arith, h, e))
      go (negsuc t) e = absurd (ground (arith, h, e))

  arguments_small :
      (z : ℤ) (req : StartKeygenRequest)
      → keygen_arguments libs client args ≡ inr (z, req)
      → (t : ℕ) × (z ≡ pos t) × (t < length req.participants)
  unfolding keygen_arguments
  arguments_small z req h = go args h
    where
      named :
          (a : Arguments) (f : ℕ)
          → float_of (lookup "threshold" a) ≡ some f
          → keygen_arguments libs client (some a) ≡ inr (z, req)
          → (t : ℕ) × (z ≡ pos t) × (t < length req.participants)
      named a f e k = elim (Option-cases (text_of (lookup "participants" a))) [
        | inl bad ↦ absurd (ground (arith, k, e, bad))
        | inr (list, g) ↦
            checked_small f (participants_of list) (text_or "" (lookup "operation_id" a)) z req
              (ground (arith, k, e, g))
      ]

      go :
          (o : Option Arguments)
          → keygen_arguments libs client o ≡ inr (z, req)
          → (t : ℕ) × (z ≡ pos t) × (t < length req.participants)
      go none k = absurd (ground arith)
      go (some a) k = elim (Option-cases (float_of (lookup "threshold" a))) [
        | inl bad ↦ absurd (ground (arith, k, bad))
        | inr (f, e) ↦ named a f e k
      ]

  -- the answer to each way in which the start and the waiting may go
  sent-Earned :
      (c : String ⊎ (ℤ × StartKeygenRequest))
      → keygen_arguments libs client args ≡ c
      → ((text : String) × (keygen_sent libs client c ≡ tool_error text))
        ⊎ Earned (keygen_sent libs client c)
  unfolding keygen_sent keygen_started keygen_ended
  sent-Earned (inl text) h = inl (text, refl)
  sent-Earned (inr (z, req)) h = go (client.start_keygen req) refl
    where
      waited :
          (started : StartResponse) (w : Error ⊎ GetOperationResponse)
          → client.start_keygen req ≡ rpc_ok started
          → Waited (client.polls started.operation_id) w
          → ((text : String) × (keygen_ended libs client z req.participants w ≡ tool_error text))
            ⊎ Earned (keygen_ended libs client z req.participants w)
      waited started (inl e) accepted k = inl (_, refl)
      waited started (inr resp) accepted (end, done) =
          let (t, same, small) = arguments_small z req h in
          inr (rw same (earned t req started resp (rw (← same) h) small accepted end done))

      go :
          (r : Rpc StartResponse)
          → client.start_keygen req ≡ r
          → ((text : String) × (keygen_started libs client z req.participants r ≡ tool_error text))
            ⊎ Earned (keygen_started libs client z req.participants r)
      go (rpc_error code text l) e = inl (_, refl)
      go (rpc_ok started) e =
          waited started (wait_for_operation_completion (client.polls started.operation_id)) e
            (wait-Waited (client.polls started.operation_id))

  -- The key generation tool answers with a text that is not an error exactly when the arguments list
  -- participants and a threshold from 0 to below their number, the node accepts the request for
  -- them, and the first end of the operation that it shows in time is a completion; the text has
  -- what that answer of the node shows.
  pub keygen_tool_iff :
      (r : ToolResult)
      → ((text : String) → r ≢ tool_error text)
      → (keygen_tool libs client args ≡ r) ↔ Earned r
  unfolding keygen_tool
  keygen_tool_iff r fine = (
    λ h. elim (sent-Earned (keygen_arguments libs client args) refl) [
      | inl (text, e) ↦ absurd (fine text (sym h ∙ e))
      | inr k ↦ subst Earned h k
    ],
    Earned-tool r,
  )
