-- ===== src/Tss/Watch/Endings.antt =====
-- How an operation ends: the state that each event leaves behind, in memory and in storage.
use dknet.Base.{
  ℕ, String, Option, none, some, ok, err, Result, ◌≡◌, ◌≢◌, ◌∙◌, refl, arith, true, Option-cases,
  inl, inr,
}
use dknet.Tss.Types.{
  is_terminal, is_completed, completed, failed, canceled, signing, Value, signing_result, EndValue,
  error_value, signature_data, other_value, save_data, SignatureData, Operation, OperationData,
  OperationType,
}
use dknet.Base
use dknet.Tss.Env.{Env, StorageLaws}
use dknet.Tss.Service.{Service, find}
use dknet.Tss.Signature.{signing_result_of, signature65, hex, to_word, recovery_v}
use Prim.Native.String.{◌++◌ as ◌++ˢ◌}
use dknet.Tss.Store.{
  operation_key, to_data, save_operation, load_operation, move_completed_operation_to_storage,
}
use dknet.Tss.Store.RoundTrip.{
  OperationJson, IsStorable, RequestFits, moved_loads, signature, nothing,
}
use dknet.Tss.Watch.{Event, done, received, conclude, watch}

-- Encoding the record `d` succeeds, and so does every save.
pub record IsWorking {D : Type 0} (env : Env D) (d : OperationData) : Type 0 where
  pub encodes : env.json.marshal_operation d ≢ none
  pub saves : (k : String) (b : Base.List ℕ) (d : D) → (env.storage.save k b d).0 ≡ ok tt

-- the last state of an operation that ends without a new key
abbrev pub last_state : EndValue → ℕ → Operation → Operation
last_state (error_value e) now o = record o {
  completed_at = some now;
  error = some e;
  status = failed;
}
last_state (signature_data d) now o = record o {
  completed_at = some now;
  status = completed;
  result = some (
      signing_result (record {
        signature = "0x" ++ˢ hex (signature65 d);
        r = "0x" ++ˢ hex (to_word d.r);
        s = "0x" ++ˢ hex (to_word d.s);
        v = recovery_v d.signature_recovery;
      }));
}
last_state _ now o = record o { completed_at = some now; status = failed }

abbrev pub ended_by : Event → ℕ → Operation → Operation
ended_by done now o = record o { status = canceled; completed_at = some now }
ended_by (received v) now o = last_state v now o

-- the events that bring no new key, and fit the operation's type
pub data EndsPlainly : Event → OperationType → Type 0 where
  by_context : (t : OperationType) → EndsPlainly done t
  by_error : (e : Base.Error) (t : OperationType) → EndsPlainly (received (error_value e)) t
  by_other : (t : OperationType) → EndsPlainly (received other_value) t
  by_signature : (d : SignatureData) → EndsPlainly (received (signature_data d)) signing

module _ {D : Type 0} (env : Env D) (p : ℕ) (o : Operation) (s : Service D)
    (points_to : s.heap p ≡ some o) where
  -- what `conclude` leaves
  pub record Concluded (event : Event) : Type 0 where
    pub result : (conclude env p event s).0 ≡ ok tt
    placed : (conclude env p event s).1.heap p ≡ some (ended_by event s.clock o)
    filed : (conclude env p event s).1.operations ≡ s.operations
    stored : (conclude env p event s).1.db ≡ s.db

  pub conclude-Concluded :
      {event : Event} {t : OperationType} → EndsPlainly event t → Concluded event
  unfolding conclude signing_result_of
  conclude-Concluded (by_context t) = record {
    result = ground arith;
    placed = ground arith;
    filed = ground arith;
    stored = ground arith;
  }
  conclude-Concluded (by_error e t) = record {
    result = ground arith;
    placed = ground arith;
    filed = ground arith;
    stored = ground arith;
  }
  conclude-Concluded (by_other t) = record {
    result = ground arith;
    placed = ground arith;
    filed = ground arith;
    stored = ground arith;
  }
  conclude-Concluded (by_signature d) = record {
    result = ground arith;
    placed = ground arith;
    filed = ground arith;
    stored = ground arith;
  }

-- An operation that a request has just started, or that is running: no result yet, and a request of
-- its own type.
pub record IsRunning (o : Operation) : Type 0 where
  pub empty : o.result ≡ none
  pub request : RequestFits o.type o.request

ended-IsStorable :
    {event : Event} {t : OperationType} (now : ℕ) (o : Operation)
    → IsRunning o
    → o.type ≡ t
    → EndsPlainly event t
    → IsStorable (ended_by event now o)
ended-IsStorable now o running kind (by_context t) = record {
  ended = refl;
  result = rw running.empty (nothing o.type);
  request = running.request;
}
ended-IsStorable now o running kind (by_error e t) = record {
  ended = refl;
  result = rw running.empty (nothing o.type);
  request = running.request;
}
ended-IsStorable now o running kind (by_other t) = record {
  ended = refl;
  result = rw running.empty (nothing o.type);
  request = running.request;
}
ended-IsStorable now o running kind (by_signature d) = record {
  ended = refl;
  result = rw kind (signature _);
  request = running.request;
}

module _ {D : Type 0} (env : Env D) (o : Operation) (working : IsWorking env (to_data env o)) where
  pub working-save_operation :
      (s : Service D) → is_terminal o.status ≡ true → (save_operation env o s).0 ≡ ok tt
  unfolding save_operation
  working-save_operation s ended =
      elim (Option-cases (env.json.marshal_operation (to_data env o))) [
        | inl lost ↦ absurd (working.encodes lost)
        | inr (b, e) ↦
            let w : is_completed (to_data env o) ≡ true = unfold to_data is_completed in ended in
            ground (arith, working.saves (operation_key o.id) b s.db)
      ]

id-ended_by : (event : Event) (now : ℕ) (o : Operation) → (ended_by event now o).id ≡ o.id
id-ended_by done now o = refl
id-ended_by (received (error_value e)) now o = refl
id-ended_by (received (signature_data d)) now o = refl
id-ended_by (received (save_data r)) now o = refl
id-ended_by (received other_value) now o = refl

module _ {D : Type 0} (env : Env D) (p : ℕ) (o : Operation) (s : Service D) (event : Event)
    (points_to : s.heap p ≡ some o) where
  pub watch-eq : watch env p event s ≡ (
    (conclude env p event s).0,
    (move_completed_operation_to_storage env o.id (conclude env p event s).1).1,
  )
  unfolding watch
  watch-eq = ground arith

-- What the end of an operation relies on: its last record is encoded, decoded and saved.
pub record LastSave {D : Type 0} (env : Env D) (tree : Value → ℕ) (o : Operation) : Type 0 where
  pub json : OperationJson env.json tree (to_data env o)
  pub storage : StorageLaws env.storage
  pub working : IsWorking env (to_data env o)

module _ {D : Type 0} (env : Env D) (tree : Value → ℕ) (p : ℕ) (o : Operation) (s : Service D)
    (event : Event) where
  abbrev last : Operation
  last = ended_by event s.clock o

  -- However a running operation ends without a new key (context done, error, signature, or a value
  -- of another type), it leaves memory and its last state is stored: canceled when the context is
  -- done, completed with the signature (its 65 bytes, and r and s as 32 bytes each, in hex), and
  -- failed otherwise, with the error if there is one. What
  -- is relied on: the last record can be encoded, decoded and saved.
  pub watch_ends :
      LastSave env tree (ended_by event s.clock o)
      → s.heap p ≡ some o
      → find o.id s ≡ some p
      → IsRunning o
      → EndsPlainly event o.type
      → ((watch env p event s).0 ≡ ok tt)
        × (find o.id (watch env p event s).1 ≡ none)
        × (load_operation env o.id (watch env p event s).1
            ≡ (ok (to_data env (ended_by event s.clock o)), (watch env p event s).1))
  unfolding watch
  watch_ends saves points_to filed running plain =
      let c = conclude-Concluded env p o s points_to plain in
      let u : Service D = (conclude env p event s).1 in
      let same : last.id ≡ o.id = id-ended_by event s.clock o in
      let storable = ended-IsStorable s.clock o running refl plain in
      let still : find last.id u ≡ some p =
        unfold find in rw (same, c.filed) (unfold find in filed) in
      let moved =
        moved_loads env tree saves.storage last saves.json p u still c.placed storable
          (working-save_operation env last saves.working u storable.ended) in
      rw (watch-eq env p o s event points_to) (c.result, rw same at moved.1, rw same at moved.2)
