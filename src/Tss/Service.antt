-- ===== src/Tss/Service.antt =====
-- internal/tss/service.go and kengen.go: the state of the service. A pointer to an operation is an
-- address in `heap`; `operations` is the map of the active ones. `tasks` holds the goroutines that
-- have been started and have not ended, `sent` the messages handed to the network.
use dknet.Base.{
  ℕ, zero, suc, ◌+◌, ◌*◌, String, Bool, true, false, List, [], ◌∷◌, ◌++◌, map, Option, none, some,
  ◌≡◌, ◌≢◌, eq_iff, refl, arith, ◌==ℕ◌, ◌==◌, if◌then◌else◌, lookup, M, ◌>>=◌, ◌>>◌,
}
use mathlib.Core.List.{append_assoc}
use dknet.Base
use dknet.P2p.Types.{Bytes, Message}
use dknet.Tss.Types.{
  PartyId, Operation, Task, SyncData, watch_operation, run_operation, broadcast_sync,
}
use dknet.Tss.Env.{Env}

pub record Service (D : Type 0) : Type 0 where
  pub db : D
  pub operations : List (String × ℕ)
  pub heap : ℕ → Option Operation
  pub next : ℕ
  pub tasks : List Task
  pub sent : List Message
  pub clock : ℕ
  pub draws : ℕ

-- big.Int.SetBytes
unfoldable pub set_bytes_from : ℕ → Bytes → ℕ
set_bytes_from acc [] = acc
set_bytes_from acc (b ∷ bs) = set_bytes_from (acc * 256 + b) bs

unfoldable pub set_bytes : Bytes → ℕ
unfolding set_bytes_from
set_bytes bs = set_bytes_from 0 bs

-- the operation in the list whose `Id` is `id`: slices.IndexFunc, then the element
unfoldable pub find_party : String → List PartyId → Option PartyId
find_party id [] = none
find_party id (p ∷ ps) = if p.id == id then some p else find_party id ps

unfoldable pub ids : List PartyId → List String
ids ps = map (λ (p : PartyId). p.id) ps

module _ {D : Type 0} where
  -- `&Operation{...}`
  abbrev pub alloc : Operation → M (Service D) ℕ
  alloc o s = (
    Base.ok s.next,
    record s { heap = λ p. if p ==ℕ s.next then some o else s.heap p; next = suc s.next },
  )

  abbrev pub assign : ℕ → Operation → Service D → Service D
  assign p o s = record s { heap = λ q. if q ==ℕ p then some o else s.heap q }

  abbrev pub store_operation : String → ℕ → Service D → Service D
  store_operation id p s = record s { operations = Base.insert id p s.operations }

  abbrev pub spawn : Task → Service D → Service D
  spawn t s = record s { tasks = s.tasks ++ t ∷ [] }

  -- s.operations[id], with what the pointer points to
  unfoldable pub find : String → Service D → Option ℕ
  find id s = lookup id s.operations

  -- the common end of the three creations: the operation is allocated and stored under its ID, and
  -- the goroutines of `watchOperation`, with its time-out in minutes, and `runOperation` start
  unfoldable pub launch : Operation → ℕ → M (Service D) ℕ
  launch o minutes = do
    p ← alloc o
    Base.modify (store_operation o.id p)
    Base.modify (spawn (watch_operation p minutes))
    Base.modify (spawn (run_operation p))
    Base.pure p

module _ {D : Type 0} (env : Env D) where
  -- generateDeterministicKey
  unfoldable pub generate_deterministic_key : String → ℕ
  generate_deterministic_key peer_id =
      let key = set_bytes (env.sha512_256 peer_id) in if key ==ℕ 0 then 1 else key

  unfoldable pub new_party_id : String → PartyId
  new_party_id peer_id = record {
    id = peer_id;
    moniker = if peer_id == env.node_id then env.moniker else "";
    key = generate_deterministic_key peer_id;
  }

  -- createParticipantList
  unfoldable pub create_participant_list : List String → List PartyId
  create_participant_list peer_ids = env.lib.sort_party_ids (map new_party_id peer_ids)

  -- generateOrUseOperationID
  unfoldable pub generate_or_use_operation_id : String → M (Service D) String
  generate_or_use_operation_id provided_id s =
      if provided_id == ""
      then (Base.ok (env.uuid s.draws), record s { draws = suc s.draws })
      else (Base.ok provided_id, s)

  -- uuid.New().String()
  unfoldable pub new_session_id : M (Service D) String
  new_session_id s = (Base.ok (env.uuid s.draws), record s { draws = suc s.draws })

-- What a creation leaves: the operation `o` at the new address, filed under its ID with its two
-- goroutines started, and nothing else changed but the random draws.
pub record Launched {D : Type 0} (o : Operation) (minutes p : ℕ) (s t : Service D) : Type 0 where
  pub fresh : p ≡ s.next
  pub placed : t.heap p ≡ some o
  pub filed : find o.id t ≡ some p
  pub others : (j : String) → o.id ≢ j → find j t ≡ find j s
  pub kept : (q : ℕ) → q ≢ p → t.heap q ≡ s.heap q
  pub stored : t.db ≡ s.db
  pub started : t.tasks ≡ s.tasks ++ watch_operation p minutes ∷ run_operation p ∷ []
  pub quiet : t.sent ≡ s.sent

module _ {D : Type 0} (o : Operation) (minutes : ℕ) (s : Service D) where
  pub launch-ok : (launch o minutes s).0 ≡ Base.ok s.next
  unfolding launch
  launch-ok = refl

  pub launch-Launched : Launched o minutes s.next s (launch o minutes s).1
  unfolding launch find
  launch-Launched = record {
    fresh = refl;
    placed = ground arith;
    filed = ground (arith, Base.lookup-insert o.id o.id s.next s.operations, eq_iff o.id o.id);
    others = λ j h. ground (arith, Base.lookup-insert o.id j s.next s.operations, eq_iff o.id j);
    kept = λ q h. ground arith;
    stored = refl;
    started =
        append_assoc s.tasks (watch_operation s.next minutes ∷ []) (run_operation s.next ∷ []);
    quiet = refl;
  }

-- What a request leaves that starts the operation `o`: as `Launched`, and the goroutine that
-- announces `sync` to the other participants.
pub record Started {D : Type 0} (o : Operation) (minutes : ℕ) (sync : SyncData) (s t : Service D)
    : Type 0 where
  pub placed : t.heap s.next ≡ some o
  pub filed : find o.id t ≡ some s.next
  pub others : (j : String) → o.id ≢ j → find j t ≡ find j s
  pub kept : (q : ℕ) → q ≢ s.next → t.heap q ≡ s.heap q
  pub stored : t.db ≡ s.db
  pub quiet : t.sent ≡ s.sent
  pub next : t.next ≡ suc s.next
  pub drawn : t.draws ≡ suc (suc s.draws)
  pub same_time : t.clock ≡ s.clock
  pub started :
      t.tasks
      ≡ s.tasks
        ++ watch_operation s.next minutes ∷ run_operation s.next ∷ broadcast_sync s.next sync ∷ []

module _ {D : Type 0} (o : Operation) (minutes : ℕ) (sync : SyncData) (s : Service D) where
  -- the two random draws of a request, the launch, and the announcement
  abbrev pub started_state : Service D
  started_state =
      spawn (broadcast_sync s.next sync)
        (launch o minutes (record s { draws = suc (suc s.draws) })).1

  pub started_state-Started : Started o minutes sync s started_state
  unfolding find
  started_state-Started =
      let l = launch-Launched o minutes (record s { draws = suc (suc s.draws) }) in
      record {
        placed = l.placed;
        filed = l.filed;
        others = l.others;
        kept = l.kept;
        stored = l.stored;
        quiet = l.quiet;
        next = unfold launch in refl;
        drawn = unfold launch in refl;
        same_time = unfold launch in refl;
        started = rw l.started (
            append_assoc s.tasks (watch_operation s.next minutes ∷ run_operation s.next ∷ [])
              (broadcast_sync s.next sync ∷ []));
      }
