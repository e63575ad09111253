-- ===== src/Examples/Network.antt =====
-- A message from alice to bob and carol over the sample transport.
use dknet.Base.{
  String, true, false, List, [], ◌∷◌, none, Result, ok, err, errorf, ◌≡◌, refl, ne_of_==,
}
use dknet.P2p.Types.{Bytes, Message}
use dknet.Security.MessageEncryption.{PeerEncryption, encrypt_context}
use dknet.P2p.Network.{
  Transport, compresses, encrypt_message, target_message, prepared, outgoing,
  process_incoming_message,
}
use dknet.P2p.Network.Arrival.{Carries, message_arrives}

abbrev pub message : List String → Message
message to = record {
  protocol_id = "/tss/party/0.0.1";
  session_id = "session";
  type = "keygen";
  from = "alice";
  to = to;
  is_broadcast = true;
  payload = 1 ∷ 2 ∷ [];
  encrypted = false;
  peer_encrypted = false;
  timestamp = 12;
  is_to_old_committee = false;
  is_to_old_and_new_committees = false;
  sender_peer_id = "";
}

abbrev for_all : Message
for_all = message ("alice" ∷ "bob" ∷ "carol" ∷ [])

abbrev on_the_wire : Message
on_the_wire = record for_all {
  to = "bob" ∷ [];
  sender_peer_id = "alice";
  payload = 0 ∷ 1 ∷ 2 ∷ [];
  encrypted = true;
}

abbrev read : Bytes → Result Message
read [] = ok (message [])
read (b ∷ bytes) = ok on_the_wire

-- a byte in front of the payload, while it is encrypted
abbrev unlock : Bytes → Result Bytes
unlock [] = err (errorf "empty" [])
unlock (b ∷ bytes) = ok bytes

abbrev peers : PeerEncryption
peers = record {
  encrypt_for_peer = λ target bytes. ok (0 ∷ bytes);
  decrypt_from_peer = λ sender bytes. unlock bytes;
}

abbrev pub node : String → Transport
node name = record {
  marshal = λ m. ok m.payload;
  unmarshal = read;
  gzip = λ bytes. ok bytes;
  ungzip = λ bytes. ok bytes;
  decode_peer = λ target. none;
  peers = peers;
  host_id = name;
}

carries : Carries (node "alice") (node "bob") for_all
unfolding target_message
carries = record {
  cipher_text = 0 ∷ 1 ∷ 2 ∷ [];
  named = ne_of_== refl;
  plain = refl;
  encrypted = refl;
  decrypted = refl;
  json = 0 ∷ 1 ∷ 2 ∷ [];
  bytes = 0 ∷ 1 ∷ 2 ∷ [];
  marshalled = refl;
  zipped = refl;
  unzipped = refl;
  unmarshalled = refl;
}

message_arrives_example :
    (t : Message) × (bytes : Bytes) × (encrypt_message
        (node "alice")
        (target_message (node "alice") for_all "bob")
      ≡ ok t)
    × (compresses (node "alice") t ≡ ok bytes)
    × (process_incoming_message (node "bob") bytes
        ≡ ok (record for_all { to = "bob" ∷ []; sender_peer_id = "alice" }))
message_arrives_example = message_arrives (node "alice") (node "bob") for_all carries

all_handed_over : (outgoing (node "alice") for_all ("alice" ∷ "bob" ∷ "carol" ∷ [])).1 ≡ ok tt
unfolding outgoing prepared encrypt_message encrypt_context target_message
all_handed_over = refl
