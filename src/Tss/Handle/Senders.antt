-- ===== src/Tss/Handle/Senders.antt =====
-- Who may send a protocol message: the participants of the operation, by the names it was made with.
use dknet.Base.{
  ℕ, String, true, false, List, [], ◌∷◌, map, none, some, ok, err, errorf, str, ◌≡◌, ◌≢◌, ◌∙◌, refl,
  arith, ◌==◌, eq_iff, contains, inl, inr, ap, Bool-cases,
}
use dknet.P2p.Types.{Message}
use dknet.Tss.Types.{PartyId, Operation, update_party}
use dknet.Tss.Env.{Env}
use dknet.Tss.Service.{Service, ids, find_party, create_participant_list, new_party_id, spawn}
use dknet.Tss.Handle.{handle_message, get_session}
use dknet.Tss.Handle.Messages.{handle_message_accepted}

-- What tss-lib's `SortPartyIDs` promises and the service relies on: it keeps the parties.
pub record SortLaws {D : Type 0} (env : Env D) : Type 0 where
  pub keeps :
      (l : List PartyId) (p : String)
      → contains (ids (env.lib.sort_party_ids l)) p ≡ contains (ids l) p

found :
    (id : String) (l : List PartyId)
    → contains (ids l) id ≡ true
    → (q : PartyId) × (find_party id l ≡ some q) × (q.id ≡ id)
unfolding contains ids find_party
found id [] h = cc
found id (q ∷ l) h = elim (Bool-cases (q.id == id)) [
  | inl same ↦ (q, ground arith, ground (arith, eq_iff q.id id))
  | inr other ↦ let (r, e, w) = found id l (ground arith) in (r, ground arith, w)
]

missing : (id : String) (l : List PartyId) → contains (ids l) id ≡ false → find_party id l ≡ none
unfolding contains ids find_party
missing id [] h = refl
missing id (q ∷ l) h = ground (arith, missing id l)

module _ {D : Type 0} (env : Env D) (laws : SortLaws env) where
  ids-new_party_id : (names : List String) → ids (map (new_party_id env) names) ≡ names
  unfolding ids new_party_id
  ids-new_party_id [] = refl
  ids-new_party_id (x ∷ names) = ap (◌∷◌ x) (ids-new_party_id names)

  contains-create_participant_list :
      (names : List String) (p : String)
      → contains (ids (create_participant_list env names)) p ≡ contains names p
  unfolding create_participant_list
  contains-create_participant_list names p =
      laws.keeps (map (new_party_id env) names) p ∙ ap (λ l. contains l p) (ids-new_party_id names)

  module _ (views : ℕ → Service D) (msg : Message) (s : Service D) (p : ℕ) (o : Operation)
      (names : List String) (protocol : msg.type ≢ "operation_sync")
      (session : get_session msg.session_id views ≡ some p) (points_to : s.heap p ≡ some o)
      (listed : o.participants ≡ create_participant_list env names)
      (not_self : msg.from ≢ env.node_id) where
    -- A message of another node, not an announcement, in the session of an operation in memory whose
    -- participants were made from some names: if the sender is one of these names, a goroutine that
    -- delivers the message to the operation is started, with the participant of that name as the
    -- sender, and nothing else happens; if it is not, the message is refused with no other effect.
    -- `SortPartyIDs` keeps the parties.
    pub handle_message_sender :
        ((contains names msg.from ≡ true)
          → (from : PartyId) × (from.id ≡ msg.from)
            × (handle_message env views msg s ≡ (ok tt, spawn (update_party p msg from) s)))
        × ((contains names msg.from ≡ false)
            → handle_message env views msg s
              ≡ (err (errorf "unknown sender: %s" (str msg.from ∷ [])), s))
    unfolding handle_message
    handle_message_sender = (
      λ known.
          let (from, e, same) =
            found msg.from (create_participant_list env names)
              (contains-create_participant_list names msg.from ∙ known) in
          (
            from,
            same,
            handle_message_accepted env views msg s protocol p o from (record {
              session = session;
              points_to = points_to;
              not_self = not_self;
              sender = ap (find_party msg.from) listed ∙ e;
            }),
          ),
      λ unknown.
          let e =
            ap (find_party msg.from) listed
            ∙ missing msg.from (create_participant_list env names)
                (contains-create_participant_list names msg.from ∙ unknown) in
          ground (arith, eq_iff msg.type "operation_sync", eq_iff msg.from env.node_id),
    )
