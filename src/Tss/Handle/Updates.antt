-- ===== src/Tss/Handle/Updates.antt =====
-- What a protocol message does to the operation that it is delivered to.
use mathlib.Core.List.{append-nil}
use dknet.Base.{
  ℕ, Bool, true, false, List, [], ◌∷◌, ◌++◌, some, Result, ok, err, Error, errorf, ◌≡◌, ◌≢◌, refl,
  arith,
}
use dknet.P2p.Types.{Message}
use dknet.Tss.Types.{PartyId, Operation, Party, Update, EndValue, error_value}
use dknet.Tss.Env.{Env}
use dknet.Tss.Service.{Service}
use dknet.Tss.Handle.{deliver, skips}

-- the party's answer, as the value that ends the operation, if it ends
pub data Verdict : Result Bool → List EndValue → Type 0 where
  goes_on : Verdict (ok true) []
  not_processed :
      Verdict (ok false) (error_value (errorf "message was not processed by party" []) ∷ [])
  refused : (e : Error) → Verdict (err e) (error_value e ∷ [])
  panicked : (v : EndValue) → Verdict Result.panics (v ∷ [])

abbrev offered : EndValue → Result Bool → List EndValue
offered v (ok true) = []
offered v (ok false) = error_value (errorf "message was not processed by party" []) ∷ []
offered v (err e) = error_value e ∷ []
offered v Result.panics = v ∷ []

offered-Verdict : (v : EndValue) (r : Result Bool) → Verdict r (offered v r)
offered-Verdict v (ok true) = goes_on
offered-Verdict v (ok false) = not_processed
offered-Verdict v (err e) = refused e
offered-Verdict v Result.panics = panicked v

module _ {D : Type 0} (env : Env D) (p : ℕ) (msg : Message) (from : PartyId) (o : Operation)
    (party : Party) (s : Service D) (points_to : s.heap p ≡ some o)
    (has_party : o.party ≡ some party) (ours : skips env o msg ≡ false) where
  abbrev update : Update
  update = record { wire_bytes = msg.payload; sender = from; is_broadcast = msg.is_broadcast }

  -- what `deliver` leaves when the values of `offers` are offered to the channel
  record Delivered (offers : List EndValue) : Type 0 where
    result : (deliver env p msg from s).0 ≡ ok tt
    placed :
        (deliver env p msg from s).1.heap p
        ≡ some (record o { updates = o.updates ++ update ∷ []; end_ch = o.end_ch ++ offers })
    kept : (q : ℕ) → q ≢ p → (deliver env p msg from s).1.heap q ≡ s.heap q
    filed : (deliver env p msg from s).1.operations ≡ s.operations
    stored : (deliver env p msg from s).1.db ≡ s.db

  deliver-Delivered :
      (r : Result Bool)
      → env.lib.update_from_bytes party o.updates update ≡ r
      → Delivered (offered env.lib.panic_value r)
  unfolding deliver
  deliver-Delivered (ok true) e = record {
    result = ground arith;
    placed = ground (arith, append-nil o.end_ch);
    kept = λ q other. ground arith;
    filed = ground arith;
    stored = ground arith;
  }
  deliver-Delivered (ok false) e = record {
    result = ground arith;
    placed = ground arith;
    kept = λ q other. ground arith;
    filed = ground arith;
    stored = ground arith;
  }
  deliver-Delivered (err x) e = record {
    result = ground arith;
    placed = ground arith;
    kept = λ q other. ground arith;
    filed = ground arith;
    stored = ground arith;
  }
  deliver-Delivered Result.panics e = record {
    result = ground arith;
    placed = ground arith;
    kept = λ q other. ground arith;
    filed = ground arith;
    stored = ground arith;
  }

  -- A message that the operation does not skip reaches its party exactly once, after the earlier
  -- ones. The operation ends when the party refuses or does not process the message or panics, and
  -- goes on otherwise; its status and the rest of the service stay.
  pub deliver_lem :
      (offers : List EndValue) × Verdict
        (env.lib.update_from_bytes party o.updates
          (record { wire_bytes = msg.payload; sender = from; is_broadcast = msg.is_broadcast }))
        offers
      × ((deliver env p msg from s).0 ≡ ok tt)
      × ((deliver env p msg from s).1.heap p
          ≡ some (record o {
            updates =
                o.updates
                ++ record {
                  wire_bytes = msg.payload;
                  sender = from;
                  is_broadcast = msg.is_broadcast;
                }
                  ∷ [];
            end_ch = o.end_ch ++ offers;
          }))
      × ((q : ℕ) → q ≢ p → (deliver env p msg from s).1.heap q ≡ s.heap q)
      × ((deliver env p msg from s).1.operations ≡ s.operations)
      × ((deliver env p msg from s).1.db ≡ s.db)
  deliver_lem =
      let r = env.lib.update_from_bytes party o.updates update in
      let d = deliver-Delivered r refl in
      (
        offered env.lib.panic_value r,
        offered-Verdict env.lib.panic_value r,
        d.result,
        d.placed,
        d.kept,
        d.filed,
        d.stored,
      )
