-- ===== src/Examples/Committees.antt =====
-- A resharing from alice and bob to bob and carol.
use dknet.Base.{String, true, false, List, [], ◌∷◌, none, some, ok, ◌≡◌, refl, pos, contains}
use dknet.P2p.Types.{Message}
use dknet.Tss.Types.{
  PartyId, Operation, Party, resharing_party, resharing, resharing_request, in_progress, party_id,
}
use dknet.Tss.Env.{Env}
use dknet.Tss.Service.{Service}
use dknet.Tss.Handle.{Routing, OutMessage, to_participants, wire_message, deliver}
use dknet.Tss.Handle.Committees.{IsToBoth, IsOldOnly, both_committees_lost}
use dknet.Samples.{Db, world, idle, sample_resharing}

abbrev alice : Env Db
alice = world "alice"

abbrev bob : Env Db
bob = world "bob"

abbrev party_of : String → Party
party_of name =
    resharing_party
      (record {
        old_peers = [];
        new_peers = [];
        self = record { id = name; moniker = ""; key = 1 };
        old_count = 2;
        old_threshold = pos 1;
        new_count = 2;
        new_threshold = pos 1;
      })
      1

-- the operation at the node of that name
abbrev operation : String → Operation
operation name = record {
  id = "reshare-1";
  type = resharing;
  session_id = "session";
  participants = [];
  party = some (party_of name);
  end_ch = [];
  status = in_progress;
  created_at = 6;
  completed_at = none;
  result = none;
  error = none;
  request = some (resharing_request sample_resharing);
  updates = [];
}

abbrev routing : Routing
routing = record { to = []; is_broadcast = false }

abbrev to_both : OutMessage
to_both = record {
  wire_bytes = ok (1 ∷ [], routing);
  is_to_old_committee = false;
  is_to_old_and_new_committees = true;
}

both : IsToBoth (operation "bob") sample_resharing to_both
both = record { request = refl; both = refl; not_old = refl }

alice-IsOldOnly : IsOldOnly (operation "alice") sample_resharing (party_of "alice")
unfolding party_id contains
alice-IsOldOnly = record {
  kind = refl;
  request = refl;
  has_party = refl;
  old = refl;
  not_new = refl;
}

abbrev busy : Service Db
busy = record idle {
  operations = ("reshare-1", 0) ∷ [];
  heap = λ p. some (operation "alice");
  next = 1;
}

sender : PartyId
sender = record { id = "bob"; moniker = ""; key = 1 }

both_committees_lost_example :
    (to : List String) × (to_participants (operation "bob") to_both routing ≡ ok to)
    × (contains to (party_id (party_of "alice")).id ≡ true)
    × (deliver alice 0
          (wire_message bob (operation "bob") to_both (1 ∷ []) routing to 12)
          sender
          busy
        ≡ (ok tt, busy))
both_committees_lost_example =
    both_committees_lost bob alice (operation "bob") (operation "alice") sample_resharing to_both
      routing (1 ∷ []) 12 (party_of "alice") both alice-IsOldOnly 0 sender busy refl

abbrev announcement : Message
announcement = record {
  protocol_id = "/tss/party/0.0.1";
  session_id = "id-0";
  type = "operation_sync";
  from = "bob";
  to = "carol" ∷ [];
  is_broadcast = true;
  payload = 3 ∷ [];
  encrypted = false;
  peer_encrypted = false;
  timestamp = 12;
  is_to_old_committee = false;
  is_to_old_and_new_committees = false;
  sender_peer_id = "";
}
