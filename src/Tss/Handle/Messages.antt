-- ===== src/Tss/Handle/Messages.antt =====
-- Protocol messages that arrive: which session they are for, and who may have sent them.
use dknet.Base.{
  ℕ, some, ok, ◌≡◌, ◌≢◌, ◌⊎◌, arith, true, suc, zero, String, List, [], ◌∷◌, Option, contains, ◌==◌,
  inl, inr, Bool-cases, Option-cases, eq_iff,
}
use dknet.P2p.Types.{Message}
use dknet.Tss.Types.{PartyId, Operation, update_party}
use dknet.Tss.Env.{Env}
use dknet.Tss.Service.{Service, find_party, ids, spawn}
use dknet.Common.Util.{retry, retry_from}
use dknet.Tss.Handle.{handle_message, get_session, find_session, find_session_in}

-- A protocol message is accepted for the operation at `p`: the sender is another node, and `from`
-- is the participant with its name.
pub record Accepts {D : Type 0} (env : Env D) (views : ℕ → Service D) (msg : Message)
    (s : Service D) (p : ℕ) (o : Operation) (from : PartyId) : Type 0 where
  pub session : get_session msg.session_id views ≡ some p
  pub points_to : s.heap p ≡ some o
  pub not_self : msg.from ≢ env.node_id
  pub sender : find_party msg.from o.participants ≡ some from

-- One of the looks at the service has found at `p` an operation of the message's session, and
-- `from` is a participant of the operation `o` that has the name of the sender.
pub record Fits {D : Type 0} (views : ℕ → Service D) (msg : Message) (p : ℕ) (o : Operation)
    (from : PartyId) : Type 0 where
  pub look : ℕ
  pub seen : Operation
  pub held : (views look).heap p ≡ some seen
  pub same_session : seen.session_id ≡ msg.session_id
  pub same_name : from.id ≡ msg.from
  pub takes_part : contains (ids o.participants) msg.from ≡ true

held_session :
    (id : String) (m : List (String × ℕ)) (heap : ℕ → Option Operation) (p : ℕ)
    → find_session_in id m heap ≡ some p
    → (o : Operation) × (heap p ≡ some o) × (o.session_id ≡ id)
unfolding find_session_in
held_session id [] heap p h = absurd (ground arith)
held_session id ((j, q) ∷ m) heap p h = elim (Option-cases (heap q)) [
  | inl dangling ↦ held_session id m heap p (ground arith)
  | inr (o, e) ↦ elim (Bool-cases (o.session_id == id)) [
    | inl same ↦
        let here : q ≡ p = ground arith in
        (o, rw (← here) e, ground (arith, eq_iff o.session_id id))
    | inr other ↦ held_session id m heap p (ground arith)
  ]
]

tried :
    {A : Type 0} (fun : ℕ → Option A) (i tries : ℕ) (a : A)
    → retry_from fun i tries ≡ some a
    → (j : ℕ) × (fun j ≡ some a)
unfolding retry_from
tried fun i zero a h = absurd (ground arith)
tried fun i (suc tries) a h = elim (Option-cases (fun i)) [
  | inl lost ↦ tried fun (suc i) tries a (ground arith)
  | inr (b, e) ↦ (i, ground arith)
]

named :
    (id : String) (l : List PartyId) (from : PartyId)
    → find_party id l ≡ some from
    → (from.id ≡ id) × (contains (ids l) id ≡ true)
unfolding find_party contains ids
named id [] from h = absurd (ground arith)
named id (q ∷ l) from h = elim (Bool-cases (q.id == id)) [
  | inl same ↦
      let here : q ≡ from = ground arith in
      (rw (← here) (ground (arith, eq_iff q.id id)), ground arith)
  | inr other ↦ let (e, w) = named id l from (ground arith) in (e, ground arith)
]

session-Fits :
    {D : Type 0} (views : ℕ → Service D) (msg : Message) (p : ℕ) (o : Operation) (from : PartyId)
    → get_session msg.session_id views ≡ some p
    → find_party msg.from o.participants ≡ some from
    → Fits views msg p o from
unfolding get_session find_session retry
session-Fits views msg p o from session sender =
    let (i, found) =
      tried (λ i. find_session_in msg.session_id (views i).operations (views i).heap) 0 10 p
        session in
    let (seen, held, same) =
      held_session msg.session_id (views i).operations (views i).heap p found in
    let (name, takes_part) = named msg.from o.participants from sender in
    record {
      look = i;
      seen = seen;
      held = held;
      same_session = same;
      same_name = name;
      takes_part = takes_part;
    }

module _ {D : Type 0} (env : Env D) (views : ℕ → Service D) (msg : Message) (s : Service D)
    (protocol : msg.type ≢ "operation_sync") where
  -- For a protocol message from a participant of a known session a goroutine is started that
  -- delivers it, and nothing else happens.
  pub handle_message_accepted :
      (p : ℕ) (o : Operation) (from : PartyId)
      → Accepts env views msg s p o from
      → handle_message env views msg s ≡ (ok tt, spawn (update_party p msg from) s)
  unfolding handle_message
  handle_message_accepted p o from a =
      ground (arith, eq_iff msg.type "operation_sync", eq_iff msg.from env.node_id)

  -- Whatever message other than an announcement arrives, either the service is left as it was, or one
  -- goroutine is started that delivers it to an operation that was found in memory under the
  -- message's session; the sender is then another node that takes part in the operation.
  -- Nothing else changes.
  pub handle_message_safe :
      ((handle_message env views msg s).1 ≡ s)
      ⊎ ((p : ℕ) × (o : Operation) × (from : PartyId) × Accepts env views msg s p o from
          × Fits views msg p o from
          × (handle_message env views msg s ≡ (ok tt, spawn (update_party p msg from) s)))
  handle_message_safe = elim (Option-cases (get_session msg.session_id views)) [
    | inl lost ↦ inl (
        unfold handle_message in
        ground (arith, eq_iff msg.type "operation_sync", eq_iff msg.from env.node_id))
    | inr (p, session) ↦ elim (Bool-cases (msg.from == env.node_id)) [
      | inl self ↦ inl (
          unfold handle_message in
          ground (arith, eq_iff msg.type "operation_sync", eq_iff msg.from env.node_id))
      | inr other ↦ elim (Option-cases (s.heap p)) [
        | inl dangling ↦ inl (
            unfold handle_message in
            ground (arith, eq_iff msg.type "operation_sync", eq_iff msg.from env.node_id))
        | inr (o, points_to) ↦ elim (Option-cases (find_party msg.from o.participants)) [
          | inl unknown ↦ inl (
              unfold handle_message in
              ground (arith, eq_iff msg.type "operation_sync", eq_iff msg.from env.node_id))
          | inr (from, sender) ↦
              let a : Accepts env views msg s p o from = record {
                session = session;
                points_to = points_to;
                not_self = λ e. ground (arith, eq_iff msg.from env.node_id);
                sender = sender;
              } in
              inr (
                p,
                o,
                from,
                a,
                session-Fits views msg p o from session sender,
                handle_message_accepted p o from a,
              )
        ]
      ]
    ]
  ]
