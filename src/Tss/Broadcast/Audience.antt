-- ===== src/Tss/Broadcast/Audience.antt =====
-- Whom the announcement of an operation reaches.
use dknet.Base.{
  String, false, List, [], ◌∷◌, ◌++◌, some, ◌≡◌, ◌≢◌, ◌⊎◌, refl, arith, eq_iff, contains,
  delete_node, contains-delete_node, if◌then◌else◌, inl, inr, ◌==◌,
}
use dknet.P2p.Types.{Bytes}
use dknet.Tss.Types.{SyncData, sync_to}
use dknet.Tss.Env.{Env}
use dknet.Tss.Service.{Service}
use dknet.Tss.Broadcast.{sync_operation, sync_message}

List-cases : (xs : List String) → (xs ≡ []) ⊎ ((p : String) × (ps : List String) × (xs ≡ p ∷ ps))
List-cases [] = inl refl
List-cases (p ∷ ps) = inr (p, ps, refl)

-- What announcing `d` leaves: nothing is sent, since nobody else takes part, or one message that
-- carries the encoded announcement, to the other participants and to nobody else.
pub data Announced {D : Type 0} (env : Env D) (d : SyncData) (bytes : Bytes) (s t : Service D)
    : Type 0 where
  alone :
      t ≡ s
      → ((r : String) → r ≢ env.node_id → contains (sync_to d) r ≡ false)
      → Announced env d bytes s t
  sent_to :
      (to : List String)
      → t ≡ record s { sent = s.sent ++ sync_message env.node_id d bytes to s.clock ∷ [] }
      → ((r : String)
          → contains to r ≡ (if r == env.node_id then false else contains (sync_to d) r))
      → Announced env d bytes s t

module _ {D : Type 0} (env : Env D) (d : SyncData) (bytes : Bytes) (s : Service D)
    (encoded : env.json.marshal_sync d ≡ some bytes) where
  lone :
      (r : String)
      → r ≢ env.node_id
      → delete_node env.node_id (sync_to d) ≡ []
      → contains (sync_to d) r ≡ false
  unfolding contains
  lone r other empty =
      let w = contains-delete_node env.node_id (sync_to d) r in ground (arith, eq_iff r env.node_id)

  -- An announcement that can be encoded goes to every participant but this node, in one message,
  -- and to nobody else; without other participants nothing is sent.
  pub sync_operation-Announced : Announced env d bytes s (sync_operation env d s).1
  unfolding sync_operation
  sync_operation-Announced = elim (List-cases (delete_node env.node_id (sync_to d))) [
    | inl empty ↦ alone (ground arith) (λ r other. lone r other empty)
    | inr (p, ps, e) ↦
        sent_to (p ∷ ps) (ground arith)
          (λ r. rw (← e) (contains-delete_node env.node_id (sync_to d) r))
  ]
