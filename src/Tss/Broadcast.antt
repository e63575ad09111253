-- ===== src/Tss/Broadcast.antt =====
-- internal/tss/service.go, `syncOperation`, and the three callers of it in kengen.go, sign.go and
-- resharing.go: an operation that was started here is announced to the other participants.
pub mod Audience
use dknet.Base.{
  ℕ, String, true, false, List, [], ◌∷◌, ◌++◌, ok, external, or_error, wrapping, ℤ, M, lift, ◌>>=◌,
  length, delete_node,
}
use dknet.P2p.Types.{Bytes, Message, tss_party_protocol_id}
use dknet.Tss.Types.{
  keygen, signing, resharing, operation_sync, type_text, SyncData, keygen_sync, signing_sync,
  resharing_sync, sync_id, sync_to,
}
use dknet.Tss.Env.{Env}
use dknet.Tss.Service.{Service}

-- the message of `syncOperation`
unfoldable pub sync_message : String → SyncData → Bytes → List String → ℕ → Message
unfolding type_text sync_id
sync_message node_id d bytes to now = record {
  protocol_id = tss_party_protocol_id;
  session_id = sync_id d;
  type = type_text operation_sync;
  from = node_id;
  to = to;
  is_broadcast = true;
  payload = bytes;
  encrypted = false;
  peer_encrypted = false;
  timestamp = now;
  is_to_old_committee = false;
  is_to_old_and_new_committees = false;
  sender_peer_id = "";
}

-- syncKeygenOperation: what is announced
unfoldable pub keygen_sync_data : String → String → ℤ → List String → SyncData
keygen_sync_data operation_id session_id threshold participants = keygen_sync (record {
  operation_id = operation_id;
  operation_type = keygen;
  session_id = session_id;
  threshold = threshold;
  parties = length participants;
  participants = participants;
})

-- syncSigningOperation
unfoldable pub signing_sync_data : String → String → ℤ → ℕ → List String → String → Bytes → SyncData
signing_sync_data operation_id session_id threshold parties participants key_id message =
    signing_sync (record {
      base = record {
        operation_id = operation_id;
        operation_type = signing;
        session_id = session_id;
        threshold = threshold;
        parties = parties;
        participants = participants;
      };
      key_id = key_id;
      message = message;
    })

-- syncResharingOperation
unfoldable pub resharing_sync_data :
    String → String → String → ℤ → ℤ → List String → List String → SyncData
resharing_sync_data operation_id session_id key_id old_threshold new_threshold old new =
    resharing_sync (record {
      base = record {
        operation_id = operation_id;
        operation_type = resharing;
        session_id = session_id;
        threshold = new_threshold;
        parties = length new;
        participants = new;
      };
      old_threshold = old_threshold;
      new_threshold = new_threshold;
      old_participants = old;
      new_participants = new;
      key_id = key_id;
    })

module _ {D : Type 0} (env : Env D) where
  -- network.SendMessage: the message is handed over, and sending it may fail
  abbrev pub send : Message → M (Service D) (Unit {0})
  send m s = (env.send_message m, record s { sent = s.sent ++ m ∷ [] })

  unfoldable pub unless_empty : SyncData → Bytes → List String → M (Service D) (Unit {0})
  unfolding sync_message
  unless_empty d bytes [] s = (ok tt, s)
  unless_empty d bytes (p ∷ to) s = send (sync_message env.node_id d bytes (p ∷ to) s.clock) s

  -- syncOperation
  unfoldable pub sync_operation : SyncData → M (Service D) (Unit {0})
  unfolding sync_to unless_empty
  sync_operation d = do
    bytes ← lift (
        wrapping "failed to marshal sync data"
          (or_error (env.json.marshal_sync d) (external "json")))
    unless_empty d bytes (delete_node env.node_id (sync_to d))
