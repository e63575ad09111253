-- ===== src/P2p/Network/Arrival.antt =====
-- What happens to a message between the sender's network and the receiver's handler.
use dknet.Base.{
  String, true, false, List, [], ◌∷◌, Result, ok, ◌≡◌, ◌≢◌, refl, arith, map, delete_node, ==_of_ne,
  Bool-cases, Result-cases, inl, inr, ◌==◌,
}
use dknet.P2p.Types.{Bytes, Message}
use dknet.Security.MessageEncryption.{encrypt_context, decrypt_context}
use dknet.P2p.Network.{
  Transport, compresses, decompresses, encrypt_message, decrypt_message, target_message, prepared,
  outgoing, process_incoming_message,
}

-- What the two ends rely on for the message `m` to the node `b`: its payload is encrypted and
-- decrypted again, and its encrypted form is encoded and decoded again.
pub record Carries (a b : Transport) (m : Message) : Type 0 where
  pub cipher_text : Bytes
  pub named : a.host_id ≢ ""
  pub plain : m.encrypted ≡ false
  pub encrypted : a.peers.encrypt_for_peer b.host_id m.payload ≡ ok cipher_text
  pub decrypted : b.peers.decrypt_from_peer a.host_id cipher_text ≡ ok m.payload
  pub json : Bytes
  pub bytes : Bytes
  pub marshalled :
      a.marshal (record (target_message a m b.host_id) { payload = cipher_text; encrypted = true })
      ≡ ok json
  pub zipped : a.gzip json ≡ ok bytes
  pub unzipped : b.ungzip bytes ≡ ok json
  pub unmarshalled :
      b.unmarshal json
      ≡ ok (record (target_message a m b.host_id) { payload = cipher_text; encrypted = true })

module _ (a b : Transport) (m : Message) (c : Carries a b m) where
  sealed :
      encrypt_message a (target_message a m b.host_id)
      ≡ ok (record (target_message a m b.host_id) { payload = c.cipher_text; encrypted = true })
  unfolding encrypt_message encrypt_context target_message
  sealed = rw (c.plain, c.encrypted) refl

  -- A message that the sender encrypts for a node and the node receives reaches its handler with the
  -- payload and all other fields of the original, addressed to that node only, and with the host of
  -- the sender as its sender.
  pub message_arrives :
      (t : Message) × (bytes : Bytes) × (encrypt_message a (target_message a m b.host_id) ≡ ok t)
      × (compresses a t ≡ ok bytes)
      × (process_incoming_message b bytes
          ≡ ok (record m { to = b.host_id ∷ []; sender_peer_id = a.host_id }))
  unfolding compresses process_incoming_message decompresses decrypt_message decrypt_context
      target_message
  message_arrives =
      let w = ==_of_ne a.host_id "" c.named in
      (
        _,
        c.bytes,
        sealed,
        rw (c.marshalled, compresses) c.zipped,
        rw (c.unzipped, process_incoming_message)
            (rw c.unmarshalled (rw (w, c.decrypted, c.plain) refl)),
      )

-- A message without recipients panics the goroutine that reads it.
pub no_recipient_panics :
    (b : Transport) (bytes : Bytes) (m : Message)
    → decompresses b bytes ≡ ok m
    → m.to ≡ []
    → process_incoming_message b bytes ≡ Result.panics
unfolding process_incoming_message decrypt_message
no_recipient_panics b bytes m read empty = rw read (rw empty refl)

module _ (a : Transport) (m : Message) where
  -- When no recipient's message fails to be encrypted or addressed, `SendMessage` hands over one
  -- message for each recipient but this node, in order.
  pub outgoing-targets :
      (to : List String)
      → (outgoing a m to).1 ≡ ok tt
      → map (λ (p : String × Message). p.0) (outgoing a m to).0 ≡ delete_node a.host_id to
  unfolding outgoing delete_node
  outgoing-targets [] e = refl
  outgoing-targets (target ∷ to) e = elim (Bool-cases (target == a.host_id)) [
    | inl self ↦ let w = outgoing-targets to (ground arith) in ground arith
    | inr other ↦ elim (Result-cases (prepared a m target)) [
      | inl lost ↦ absurd (ground arith)
      | inr (t, went) ↦ let w = outgoing-targets to (ground arith) in ground arith
    ]
  ]
