-- ===== src/Security/PeerEncryption.antt =====
-- internal/security/peer_encryption_secp256k1.go, and the AES-GCM of types.go. The keys and the peer
-- store of libp2p, btcec, HKDF, AES-GCM and JSON are parameters.
pub mod RoundTrip
use dknet.Base.{
  ℕ, String, Bool, not, [], ◌∷◌, Option, none, some, Result, ok, err, errorf, wrapf, str, ◌==◌,
  if◌then◌else◌, wrapping,
}
use dknet.P2p.Types.{Bytes}
use dknet.P2p.Network.{then_do}

pub record EncryptedEnvelope : Type 0 where
  pub nonce : Bytes
  pub ciphertext : Bytes

-- cipher.AEAD; `open_sealed` may panic
pub record Gcm : Type 0 where
  pub nonce_size : ℕ
  pub seal : Bytes → Bytes → Bytes
  pub open_sealed : Bytes → Bytes → Result Bytes

-- crypto.PubKey
pub record PublicKey : Type 0 where
  pub key_type : String
  pub raw : Result Bytes

-- What is called: peer.Decode, btcec.ParsePubKey, PrivKeyFromBytes and GenerateSharedSecret,
-- sha256.Sum256, HKDF with SHA-256 (secret, salt, info, the number of bytes read), aes.NewCipher,
-- cipher.NewGCM, and JSON for envelopes
pub record Libraries : Type 1 where
  pub PeerId : Type 0
  pub Private : Type 0
  pub Public : Type 0
  pub Block : Type 0
  pub decode : String → Result PeerId
  pub parse_pub_key : Bytes → Result Public
  pub priv_key_from_bytes : Bytes → Private
  pub generate_shared_secret : Private → Public → Bytes
  pub sum256 : String → Bytes
  pub hkdf : Bytes → Bytes → String → ℕ → Result Bytes
  pub new_cipher : Bytes → Result Block
  pub new_gcm : Block → Result Gcm
  pub marshal : EncryptedEnvelope → Result Bytes
  pub unmarshal : Bytes → Result EncryptedEnvelope

-- the error texts in which the two directions differ
pub record KeyTexts : Type 0 where
  pub invalid_id : String
  pub unsupported_type : String
  pub no_raw_key : String
  pub no_point : String

abbrev pub target_texts : KeyTexts
target_texts = record {
  invalid_id = "invalid target peer ID";
  unsupported_type = "unsupported key type for encryption: %s";
  no_raw_key = "failed to get raw target public key";
  no_point = "failed to convert public key to btcec";
}

abbrev pub sender_texts : KeyTexts
sender_texts = record {
  invalid_id = "invalid sender peer ID";
  unsupported_type = "unsupported sender key type for decryption: %s";
  no_raw_key = "failed to get raw sender public key";
  no_point = "failed to parse sender public key";
}

module _ (lib : Libraries) where
  -- secp256k1PeerEncryption: what the private key's `Raw` gives, and the peer store's `PubKey`
  pub record Secp256k1PeerEncryption : Type 0 where
    pub private_key : Result Bytes
    pub pub_key : lib.PeerId → Option PublicKey

  -- encryptWithAESGCM; `random` reads that many bytes from `rand.Reader`
  unfoldable pub encrypt_with_aes_gcm : (ℕ → Result Bytes) → Bytes → Bytes → Result (Bytes × Bytes)
  encrypt_with_aes_gcm random plaintext key =
      then_do (wrapping "failed to create AES cipher" (lib.new_cipher key)) (λ block.
        then_do (wrapping "failed to create GCM" (lib.new_gcm block)) (λ gcm.
          then_do (wrapping "failed to generate nonce" (random gcm.nonce_size))
            (λ nonce. ok (gcm.seal nonce plaintext, nonce))))

  -- decryptWithAESGCM
  unfoldable pub decrypt_with_aes_gcm : Bytes → Bytes → Bytes → Result Bytes
  decrypt_with_aes_gcm encrypted_data nonce key =
      then_do (wrapping "failed to create AES cipher" (lib.new_cipher key)) (λ block.
        then_do (wrapping "failed to create GCM" (lib.new_gcm block))
          (λ gcm. wrapping "failed to decrypt" (gcm.open_sealed nonce encrypted_data)))

  -- the point of a public key of the peer store, which must be of secp256k1
  unfoldable pub key_point : KeyTexts → String → Option PublicKey → Result lib.Public
  key_point texts peer none = err (errorf "public key not found for peer %s" (str peer ∷ []))
  key_point texts peer (some key) =
      if not (key.key_type == "Secp256k1")
      then err (errorf texts.unsupported_type (str key.key_type ∷ []))
      else then_do (wrapping texts.no_raw_key key.raw)
          (λ raw. wrapping texts.no_point (lib.parse_pub_key raw))

  module _ (pe : Secp256k1PeerEncryption) where
    -- the public key of the peer with that ID
    unfoldable pub peer_point : KeyTexts → String → Result lib.Public
    unfolding key_point
    peer_point texts peer =
        then_do (wrapping texts.invalid_id (lib.decode peer))
          (λ pid. key_point texts peer (pe.pub_key pid))

    -- the AES key that is shared with a peer: ECDH, then HKDF
    unfoldable pub shared_key : lib.Public → Result Bytes
    shared_key public = then_do (wrapping "failed to get raw private key" pe.private_key) (λ raw.
        let secret : Bytes = lib.generate_shared_secret (lib.priv_key_from_bytes raw) public in
        wrapping "failed to derive AES key" (
          lib.hkdf secret (lib.sum256 "DKNet-Secp256k1-P2P-Salt")
            "DKNet-Secp256k1-P2P-Encryption-v1" 32))

    -- EncryptForPeer
    unfoldable pub encrypt_for_target : (ℕ → Result Bytes) → String → Bytes → Result Bytes
    unfolding peer_point shared_key encrypt_with_aes_gcm
    encrypt_for_target random target plaintext = then_do (peer_point target_texts target) (λ public.
        then_do (shared_key public) (λ key.
          then_do
            (wrapping "failed to encrypt with AES-GCM" (encrypt_with_aes_gcm random plaintext key))
            (λ (ciphertext, nonce).
              lib.marshal (record { nonce = nonce; ciphertext = ciphertext }))))

    -- DecryptFromPeer
    unfoldable pub decrypt_from_sender : String → Bytes → Result Bytes
    unfolding peer_point shared_key decrypt_with_aes_gcm
    decrypt_from_sender sender encrypted_data =
        then_do (wrapping "failed to parse encrypted envelope" (lib.unmarshal encrypted_data))
          (λ envelope. then_do (peer_point sender_texts sender) (λ public.
            then_do (shared_key public)
              (λ key. decrypt_with_aes_gcm envelope.ciphertext envelope.nonce key)))
