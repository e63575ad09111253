-- ===== src/Examples/Arriving.antt =====
-- Announcements and protocol messages in the sample world.
use dknet.Base.{
  ℕ, String, true, false, [], ◌∷◌, ◌≢◌, none, some, ok, err, errorf, str, ◌≡◌, ◌⊎◌, refl, pos,
  lookup, contains, ne_of_==,
}
use dknet.P2p.Types.{Bytes, Message}
use dknet.Tss.Types.{
  PartyId, Operation, OperationSyncData, keygen_sync, watch_operation, run_operation,
  broadcast_sync, Party, keygen_party, keygen, in_progress, update_party,
}
use dknet.Tss.Env.{Env}
use dknet.Tss.Service.{Service, find, find_party, create_participant_list, new_party_id, spawn}
use dknet.Tss.Keygen.{start_keygen}
use dknet.Tss.Handle.{handle_operation_sync, handle_message, get_session, find_session}
use dknet.Tss.Handle.Delivery.{sync_keygen, sync_twice, EmbedsBase}
use dknet.Tss.Handle.Messages.{Accepts, Fits, handle_message_safe}
use dknet.Tss.Handle.Senders.{SortLaws, handle_message_sender}
use dknet.Tss.Handle.Agreement.{Together, keygen_agrees}
use dknet.Samples.{Db, world, idle, names, keygen_base}

abbrev alice : Env Db
alice = world "alice"

abbrev pub bob : Env Db
bob = world "bob"

abbrev carol : Env Db
carol = world "carol"

-- a message from alice
abbrev from_alice : String → Bytes → Message
from_alice t payload = record {
  protocol_id = "/tss/party/0.0.1";
  session_id = "session";
  type = t;
  from = "alice";
  to = "bob" ∷ [];
  is_broadcast = true;
  payload = payload;
  encrypted = false;
  peer_encrypted = false;
  timestamp = 12;
  is_to_old_committee = false;
  is_to_old_and_new_committees = false;
  sender_peer_id = "";
}

abbrev pub announcement : Message
announcement = from_alice "operation_sync" (1 ∷ [])

alice_in :
    find_party "alice" (create_participant_list alice names) ≡ some (new_party_id alice "alice")
unfolding find_party create_participant_list new_party_id
alice_in = refl

pub bob_in : find_party "bob" (create_participant_list bob names) ≡ some (new_party_id bob "bob")
unfolding find_party create_participant_list new_party_id
bob_in = refl

pub bob_listed : contains names "bob" ≡ true
unfolding contains
bob_listed = refl

carol_not_listed : contains names "carol" ≡ false
unfolding contains
carol_not_listed = refl

unknown : find "id-0" idle ≡ none
unfolding find lookup
unknown = refl

keygen_agrees_example :
    (d : OperationSyncData) × ((start_keygen alice "" (pos 1) names idle).1.tasks
      ≡ watch_operation 0 10 ∷ run_operation 0 ∷ broadcast_sync 0 (keygen_sync d) ∷ [])
    × ((msg : Message)
        → bob.json.unmarshal_base msg.payload ≡ some d
        → find d.operation_id idle ≡ none
        → (o : Operation) × (u : Operation) × (find d.operation_id
              (start_keygen alice "" (pos 1) names idle).1
            ≡ some 0)
          × ((start_keygen alice "" (pos 1) names idle).1.heap 0 ≡ some o)
          × (find d.operation_id (handle_operation_sync bob msg idle).1 ≡ some 0)
          × ((handle_operation_sync bob msg idle).1.heap 0 ≡ some u)
          × Together o u)
keygen_agrees_example =
    keygen_agrees alice bob idle idle (pos 1) names (new_party_id alice "alice")
      (new_party_id bob "bob") alice_in bob_in bob_listed

embeds : EmbedsBase bob.json (1 ∷ []) keygen_base
embeds = record { in_signing = λ e. absurd cc; in_resharing = λ e. absurd cc }

handled : (handle_operation_sync bob announcement idle).0 ≡ ok tt
handled =
    (sync_keygen bob announcement keygen_base idle refl (new_party_id bob "bob") bob_listed unknown
      refl bob_in).0

-- the state after the announcement, a while later
abbrev after_sync : Service Db
after_sync = record (handle_operation_sync bob announcement idle).1 { clock = 7; sent = [] }

still_there :
    find "id-0" (handle_operation_sync bob announcement idle).1 ≢ none
    → find "id-0" after_sync ≢ none
unfolding find
still_there h = h

sync_twice_example : handle_operation_sync bob announcement after_sync ≡ (ok tt, after_sync)
sync_twice_example =
    sync_twice bob announcement keygen_base idle refl embeds after_sync handled still_there

abbrev bob_party : Party
bob_party =
    keygen_party
      (record {
        peers = create_participant_list bob names;
        self = new_party_id bob "bob";
        party_count = 2;
        threshold = pos 1;
      })
      none

abbrev operation : Operation
operation = record {
  id = "key-1";
  type = keygen;
  session_id = "session";
  participants = create_participant_list bob names;
  party = some bob_party;
  end_ch = [];
  status = in_progress;
  created_at = 5;
  completed_at = none;
  result = none;
  error = none;
  request = none;
  updates = [];
}

abbrev busy : Service Db
busy = record idle { operations = ("key-1", 0) ∷ []; heap = λ p. some operation; next = 1 }

abbrev round : Message
round = from_alice "keygen" (1 ∷ 2 ∷ [])

session : get_session "session" (λ i. busy) ≡ some 0
unfolding get_session find_session
session = refl

handle_message_safe_example :
    ((handle_message bob (λ i. busy) round busy).1 ≡ busy)
    ⊎ ((p : ℕ) × (o : Operation) × (from : PartyId) × Accepts bob (λ i. busy) round busy p o from
        × Fits (λ i. busy) round p o from
        × (handle_message bob (λ i. busy) round busy
            ≡ (ok tt, spawn (update_party p round from) busy)))
handle_message_safe_example = handle_message_safe bob (λ i. busy) round busy (ne_of_== refl)

bob-SortLaws : SortLaws bob
bob-SortLaws = record { keeps = λ l p. refl }

handle_message_sender_example :
    ((contains names "alice" ≡ true)
      → (from : PartyId) × (from.id ≡ "alice")
        × (handle_message bob (λ i. busy) round busy
            ≡ (ok tt, spawn (update_party 0 round from) busy)))
    × ((contains names "alice" ≡ false)
        → handle_message bob (λ i. busy) round busy
          ≡ (err (errorf "unknown sender: %s" (str "alice" ∷ [])), busy))
handle_message_sender_example =
    handle_message_sender bob bob-SortLaws (λ i. busy) round busy 0 operation names (ne_of_== refl)
      session refl refl (ne_of_== refl)

sender : PartyId
sender = record { id = "alice"; moniker = ""; key = 1 }
