-- ===== src/Security/PeerEncryption/RoundTrip.antt =====
-- What one node encrypts for another, the other decrypts; and a nonce that is too short or too long.
use dknet.Base.{
  ℕ, String, ◌≡◌, ◌≢◌, refl, sym, ap, ◌∙◌, some, Result, ok, wrapping, length, arith, ==_of_eq,
  ◌==ℕ◌, Bool-cases, inl, inr,
}
use dknet.P2p.Types.{Bytes}
use dknet.P2p.Network.{then_do-ok, wrapping-ok}
use dknet.Security.PeerEncryption.{
  EncryptedEnvelope, Gcm, PublicKey, Libraries, KeyTexts, sender_texts, target_texts,
  Secp256k1PeerEncryption, encrypt_with_aes_gcm, decrypt_with_aes_gcm, key_point, peer_point,
  shared_key, encrypt_for_target, decrypt_from_sender,
}

-- What is documented of the libraries: ECDH gives both sides the same secret, an envelope survives
-- JSON, and AES-GCM opens what it sealed and panics on a nonce that has not its size.
pub record LibrariesLaws (lib : Libraries) : Type 0 where
  pub public_of : lib.Private → lib.Public
  pub secret_comm :
      (k l : lib.Private)
      → lib.generate_shared_secret k (public_of l) ≡ lib.generate_shared_secret l (public_of k)
  pub unmarshal-marshal :
      (e : EncryptedEnvelope) (bytes : Bytes)
      → lib.marshal e ≡ ok bytes
      → lib.unmarshal bytes ≡ ok e
  pub open-seal :
      (block : lib.Block) (gcm : Gcm)
      → lib.new_gcm block ≡ ok gcm
      → (nonce text : Bytes) → length nonce ≡ gcm.nonce_size
      → gcm.open_sealed nonce (gcm.seal nonce text) ≡ ok text
  pub open_panics :
      (block : lib.Block) (gcm : Gcm)
      → lib.new_gcm block ≡ ok gcm
      → (nonce text : Bytes) → length nonce ≢ gcm.nonce_size
      → gcm.open_sealed nonce text ≡ Result.panics

module _ (lib : Libraries) (laws : LibrariesLaws lib) where
  -- The node has a private key, and `knower` finds its public key in the peer store under that ID.
  pub record Knows (knower known : Secp256k1PeerEncryption lib) (id : String) : Type 0 where
    pub secret : Bytes
    pub private_key : known.private_key ≡ ok secret
    pub pid : lib.PeerId
    pub decoded : lib.decode id ≡ ok pid
    pub key : PublicKey
    pub stored : knower.pub_key pid ≡ some key
    pub typed : key.key_type ≡ "Secp256k1"
    pub raw : Bytes
    pub raw_key : key.raw ≡ ok raw
    pub point : lib.parse_pub_key raw ≡ ok (laws.public_of (lib.priv_key_from_bytes secret))

  module _ (knower known : Secp256k1PeerEncryption lib) (id : String)
      (k : Knows knower known id) where
    peer_point-known :
        (texts : KeyTexts)
        → peer_point lib knower texts id ≡ ok (laws.public_of (lib.priv_key_from_bytes k.secret))
    unfolding peer_point key_point
    peer_point-known texts = rw k.decoded (
        rw k.stored
          (rw (==_of_eq k.key.key_type "Secp256k1" k.typed) (rw k.raw_key (rw k.point refl))))

  -- both sides derive the same AES key
  shared_key-agrees :
      (alice bob : Secp256k1PeerEncryption lib) (bob_id alice_id : String)
      (b : Knows alice bob bob_id) (a : Knows bob alice alice_id)
      → shared_key lib bob (laws.public_of (lib.priv_key_from_bytes a.secret))
        ≡ shared_key lib alice (laws.public_of (lib.priv_key_from_bytes b.secret))
  unfolding shared_key
  shared_key-agrees alice bob bob_id alice_id b a = rw b.private_key (
      rw a.private_key (
        rw (laws.secret_comm (lib.priv_key_from_bytes b.secret) (lib.priv_key_from_bytes a.secret))
          refl))

  decrypt-encrypt_aes_gcm :
      (random : ℕ → Result Bytes)
      → ((n : ℕ) (bytes : Bytes) → random n ≡ ok bytes → length bytes ≡ n)
      → (plaintext key ciphertext nonce : Bytes)
      → encrypt_with_aes_gcm lib random plaintext key ≡ ok (ciphertext, nonce)
      → decrypt_with_aes_gcm lib ciphertext nonce key ≡ ok plaintext
  unfolding encrypt_with_aes_gcm decrypt_with_aes_gcm
  decrypt-encrypt_aes_gcm random sized plaintext key ciphertext nonce h =
      let (block, made, h1) =
        then_do-ok (wrapping "failed to create AES cipher" (lib.new_cipher key)) _ _ h in
      let (gcm, mode, h2) =
        then_do-ok (wrapping "failed to create GCM" (lib.new_gcm block)) _ _ h1 in
      let (drawn, read, h3) =
        then_do-ok (wrapping "failed to generate nonce" (random gcm.nonce_size)) _ _ h2 in
      let mode' : lib.new_gcm block ≡ ok gcm =
        wrapping-ok "failed to create GCM" (lib.new_gcm block) gcm mode in
      let size : length drawn ≡ gcm.nonce_size =
        sized gcm.nonce_size drawn
          (wrapping-ok "failed to generate nonce" (random gcm.nonce_size) drawn read) in
      let opened : gcm.open_sealed drawn (gcm.seal drawn plaintext) ≡ ok plaintext =
        laws.open-seal block gcm mode' drawn plaintext size in
      let same_nonce : drawn ≡ nonce = ground arith in
      let same_text : gcm.seal drawn plaintext ≡ ciphertext = ground arith in
      rw made (rw mode (rw (← same_nonce) (rw (← same_text) (rw opened refl))))

  -- What one node encrypts for another, the other decrypts to the same plaintext, if each finds the
  -- other's key in its peer store and the libraries keep their laws.
  pub decrypt-encrypt_for_target :
      (alice bob : Secp256k1PeerEncryption lib) (bob_id alice_id : String)
      → Knows alice bob bob_id
      → Knows bob alice alice_id
      → (random : ℕ → Result Bytes)
      → ((n : ℕ) (bytes : Bytes) → random n ≡ ok bytes → length bytes ≡ n)
      → (plaintext payload : Bytes)
      → encrypt_for_target lib alice random bob_id plaintext ≡ ok payload
      → decrypt_from_sender lib bob alice_id payload ≡ ok plaintext
  unfolding encrypt_for_target decrypt_from_sender
  decrypt-encrypt_for_target alice bob bob_id alice_id b a random sized plaintext payload h =
      let (public, found, h1) = then_do-ok (peer_point lib alice target_texts bob_id) _ _ h in
      let known : public ≡ laws.public_of (lib.priv_key_from_bytes b.secret) =
        ground (arith, peer_point-known alice bob bob_id b target_texts) in
      let (key, derived, h2) = then_do-ok (shared_key lib alice public) _ _ h1 in
      let ((ciphertext, nonce), sealed, h3) =
        then_do-ok
          (wrapping "failed to encrypt with AES-GCM"
            (encrypt_with_aes_gcm lib random plaintext key))
          _ _ h2 in
      let same_key : shared_key lib bob (laws.public_of (lib.priv_key_from_bytes a.secret))
          ≡ ok key =
        shared_key-agrees alice bob bob_id alice_id b a
        ∙ ap (λ p. shared_key lib alice p) (sym known)
        ∙ derived in
      let envelope : EncryptedEnvelope = record { nonce = nonce; ciphertext = ciphertext } in
      rw (laws.unmarshal-marshal envelope payload h3) (
        rw (peer_point-known bob alice alice_id a sender_texts) (
          rw same_key (
            decrypt-encrypt_aes_gcm random sized plaintext key ciphertext nonce (
              wrapping-ok "failed to encrypt with AES-GCM"
                (encrypt_with_aes_gcm lib random plaintext key) (ciphertext, nonce) sealed))))

  -- one key, two envelopes
  other_nonce_panics :
      (key : Bytes) (good bad : EncryptedEnvelope) (plaintext : Bytes)
      → decrypt_with_aes_gcm lib good.ciphertext good.nonce key ≡ ok plaintext
      → length bad.nonce ≢ length good.nonce
      → decrypt_with_aes_gcm lib bad.ciphertext bad.nonce key ≡ Result.panics
  unfolding decrypt_with_aes_gcm
  other_nonce_panics key good bad plaintext h other =
      let (block, made, h1) =
        then_do-ok (wrapping "failed to create AES cipher" (lib.new_cipher key)) _ _ h in
      let (gcm, mode, h2) =
        then_do-ok (wrapping "failed to create GCM" (lib.new_gcm block)) _ _ h1 in
      let mode' : lib.new_gcm block ≡ ok gcm =
        wrapping-ok "failed to create GCM" (lib.new_gcm block) gcm mode in
      let size : length good.nonce ≡ gcm.nonce_size =
        elim (Bool-cases (length good.nonce ==ℕ gcm.nonce_size)) [
          | inl e ↦ ground arith
          | inr e ↦
              let broken : gcm.open_sealed good.nonce good.ciphertext ≡ Result.panics =
                laws.open_panics block gcm mode' good.nonce good.ciphertext
                  (λ same. ground arith) in
              absurd (ground arith)
        ] in
      let broken : gcm.open_sealed bad.nonce bad.ciphertext ≡ Result.panics =
        laws.open_panics block gcm mode' bad.nonce bad.ciphertext (λ same. ground arith) in
      rw made (rw mode (rw broken refl))

  -- Once a payload of a sender has been decrypted, any payload under that sender's ID that parses to an
  -- envelope with a nonce of another length panics.
  pub wrong_nonce_panics :
      (pe : Secp256k1PeerEncryption lib) (sender : String) (good bad plaintext : Bytes)
      (good_envelope bad_envelope : EncryptedEnvelope)
      → lib.unmarshal good ≡ ok good_envelope
      → lib.unmarshal bad ≡ ok bad_envelope
      → decrypt_from_sender lib pe sender good ≡ ok plaintext
      → length bad_envelope.nonce ≢ length good_envelope.nonce
      → decrypt_from_sender lib pe sender bad ≡ Result.panics
  unfolding decrypt_from_sender
  wrong_nonce_panics pe sender good bad plaintext good_envelope bad_envelope g b h other =
      let (parsed, found, h1) =
        then_do-ok (wrapping "failed to parse encrypted envelope" (lib.unmarshal good)) _ _ h in
      let same : parsed ≡ good_envelope = ground arith in
      let (public, point, h2) = then_do-ok (peer_point lib pe sender_texts sender) _ _ h1 in
      let (key, derived, h3) = then_do-ok (shared_key lib pe public) _ _ h2 in
      let panics : decrypt_with_aes_gcm lib bad_envelope.ciphertext bad_envelope.nonce key
          ≡ Result.panics =
        other_nonce_panics key good_envelope bad_envelope plaintext
          (ap (λ e. decrypt_with_aes_gcm lib e.ciphertext e.nonce key) (sym same) ∙ h3) other in
      rw b (rw point (rw derived panics))
