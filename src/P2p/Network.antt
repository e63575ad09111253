-- ===== src/P2p/Network.antt =====
-- internal/p2p/network.go: sending a message to its recipients and reading one that arrives, and
-- internal/p2p/connection_gater.go: which peers may connect.
pub mod Arrival
use dknet.Base.{
  ℕ, String, Bool, true, false, List, [], ◌∷◌, Option, none, some, Result, ok, err, Error, errorf,
  wrapf, wrap_args, str, number, ◌==◌, if◌then◌else◌, length, contains, wrapping, ◌≡◌, refl, arith,
}
use dknet.P2p.Types.{Bytes, Message}
use dknet.Security.MessageEncryption.{PeerEncryption, Context, encrypt_context, decrypt_context}

-- encoding/json on messages, Gzip and UnGzip (Common/Gzip) on bytes, the address format of libp2p, and
-- the encryption
pub record Transport : Type 0 where
  pub marshal : Message → Result Bytes
  pub unmarshal : Bytes → Result Message
  pub gzip : Bytes → Result Bytes
  pub ungzip : Bytes → Result Bytes
  -- peer.Decode; the error, if there is one
  pub decode_peer : String → Option Error
  pub peers : PeerEncryption
  -- GetHostID()
  pub host_id : String

module _ {ℓ κ} {A : Type ℓ} {B : Type κ} where
  abbrev pub then_do : Result A → (A → Result B) → Result B
  then_do (ok a) f = f a
  then_do (err e) f = err e
  then_do Result.panics f = Result.panics

  pub then_do-ok :
      (r : Result A) (f : A → Result B) (b : B)
      → then_do r f ≡ ok b
      → (a : A) × (r ≡ ok a) × (f a ≡ ok b)
  then_do-ok (ok a) f b h = (a, refl, h)
  then_do-ok (err e) f b h = absurd (ground arith)
  then_do-ok Result.panics f b h = absurd (ground arith)

pub wrapping-ok {ℓ} :
    {A : Type ℓ} (text : String) (r : Result A) (a : A) → wrapping text r ≡ ok a → r ≡ ok a
wrapping-ok text (ok a) b h = h
wrapping-ok text (err e) b h = absurd (ground arith)
wrapping-ok text Result.panics b h = absurd (ground arith)

module _ (n : Transport) where
  -- Compresses
  unfoldable pub compresses : Message → Result Bytes
  compresses m = then_do (n.marshal m) n.gzip

  -- Decompresses
  unfoldable pub decompresses : Bytes → Result Message
  decompresses bytes = then_do (n.ungzip bytes) n.unmarshal

  context : Message → String → Context
  context m recipient = record {
    payload = m.payload;
    encrypted = m.encrypted;
    recipient = recipient;
    sender_peer_id = m.sender_peer_id;
  }

  with_context : Message → Context → Result Message
  with_context m c = ok (record m { payload = c.payload; encrypted = c.encrypted })

  crypt : (Context → Result Context) → Message → List String → Result Message
  unfolding context with_context
  crypt f m [] = Result.panics
  crypt f m (recipient ∷ others) = then_do (f (context m recipient)) (with_context m)

  -- encryptMessage and decryptMessage; `msg.To[0]` panics if there is no recipient
  unfoldable pub encrypt_message : Message → Result Message
  unfolding crypt
  encrypt_message m = crypt (encrypt_context n.peers) m m.to

  unfoldable pub decrypt_message : Message → Result Message
  unfolding crypt
  decrypt_message m = crypt (decrypt_context n.peers) m m.to

  -- the message for one recipient
  unfoldable pub target_message : Message → String → Message
  target_message m target = record m { to = target ∷ []; sender_peer_id = n.host_id }

  wrap_encrypt : Result Message → Result Message
  wrap_encrypt (ok m) = ok m
  wrap_encrypt (err e) = err (wrapf "failed to encrypt message" e)
  wrap_encrypt Result.panics = Result.panics

  decoded : String → Result (Unit {0})
  decoded target = elim (n.decode_peer target) [
    | none ↦ ok tt
    | some e ↦ err (wrap_args "invalid target peer ID %s" (str target ∷ []) e)
  ]

  -- the encrypted message for a recipient, if its address can be read
  unfoldable pub prepared : Message → String → Result Message
  unfolding wrap_encrypt decoded
  prepared m target =
      then_do (wrap_encrypt (encrypt_message (target_message m target)))
        (λ t. then_do (decoded target) (λ u. ok t))

  put :
      String
      → Result Message
      → List (String × Message) × Result (Unit {0})
      → List (String × Message) × Result (Unit {0})
  put target (ok t) rest = ((target, t) ∷ rest.0, rest.1)
  put target (err e) rest = ([], err e)
  put target Result.panics rest = ([], Result.panics)

  -- the loop of `SendMessage`: the messages that are handed to goroutines, and the error that ends
  -- the loop, if one does
  unfoldable pub outgoing : Message → List String → List (String × Message) × Result (Unit {0})
  unfolding put
  outgoing m [] = ([], ok tt)
  outgoing m (target ∷ targets) =
      let rest = outgoing m targets in
      if target == n.host_id then rest else put target (prepared m target) rest

  -- the errors of the goroutines; `write` is `StreamManager.sendMessage`
  failures : (String → Message → Option Error) → List (String × Message) → List Error
  failures write [] = []
  failures write ((target, t) ∷ sent) = elim (write target t) [
    | none ↦ failures write sent
    | some e ↦ e ∷ failures write sent
  ]

  outcome : List Error → Result (Unit {0})
  outcome [] = ok tt
  outcome (e ∷ es) =
      err (
        wrap_args "encountered %d error(s) while sending message" (number (length (e ∷ es)) ∷ []) e)

  -- SendMessage; of several errors of the goroutines, the first recipient's counts as the first
  unfoldable pub send_message : (String → Message → Option Error) → Message → Result (Unit {0})
  unfolding failures outcome
  send_message write m =
      then_do (outgoing m m.to).1 (λ u. outcome (failures write (outgoing m m.to).0))

  -- processIncomingMessage up to the call of `HandleMessage`: the message that is handed over, or
  -- the error that is logged
  unfoldable pub process_incoming_message : Bytes → Result Message
  process_incoming_message bytes = then_do (decompresses bytes) decrypt_message

-- connectionGater with its two hooks that decide; the other three always allow
pub record ConnectionGater : Type 0 where
  pub allowed_peers : List String
  pub enabled : Bool

unfoldable pub intercept_secured : ConnectionGater → String → Bool
intercept_secured c peer_id = if c.enabled then contains c.allowed_peers peer_id else true
