-- ===== src/Examples/Peers.antt =====
-- The encryption between two peers at concrete inputs.
use mathlib.Core.Path.{subst}
use dknet.Base.{
  ℕ, ◌+◌, [], ◌∷◌, ◌++◌, some, Result, ok, ◌≡◌, ◌≢◌, refl, sym, ap, length, ◌==ℕ◌, if◌then◌else◌,
  arith,
}
use dknet.P2p.Types.{Bytes}
use dknet.Plugin.Encryption.{take, drop, take-append, drop-append}
use dknet.Security.PeerEncryption.{
  EncryptedEnvelope, Gcm, Libraries, Secp256k1PeerEncryption, encrypt_with_aes_gcm,
  decrypt_with_aes_gcm, key_point, peer_point, shared_key, encrypt_for_target, decrypt_from_sender,
}
use dknet.Security.PeerEncryption.RoundTrip.{
  LibrariesLaws, Knows, decrypt-encrypt_for_target, wrong_nonce_panics,
}

abbrev tail : Bytes → Bytes
tail [] = []
tail (b ∷ bytes) = bytes

-- a stand-in for AES-GCM: nonces of one byte, and a tag in front
abbrev gcm : Gcm
gcm = record {
  nonce_size = 1;
  seal = λ nonce text. 7 ∷ text;
  open_sealed = λ nonce text. if length nonce ==ℕ 1 then ok (tail text) else Result.panics;
}

abbrev read_envelope : Bytes → Result EncryptedEnvelope
read_envelope [] = Result.err (dknet.Base.errorf "unexpected end of JSON input" [])
read_envelope (n ∷ bytes) = ok (record { nonce = take n bytes; ciphertext = drop n bytes })

-- private keys are numbers, and the shared secret is their sum
abbrev libraries : Libraries
libraries = record {
  PeerId = dknet.Base.String;
  Private = ℕ;
  Public = ℕ;
  Block = Bytes;
  decode = λ id. ok id;
  parse_pub_key = λ raw. ok (length raw);
  priv_key_from_bytes = λ raw. length raw;
  generate_shared_secret = λ k l. (k + l) ∷ [];
  sum256 = λ text. [];
  hkdf = λ secret salt info n. ok secret;
  new_cipher = λ key. ok key;
  new_gcm = λ block. ok gcm;
  marshal = λ e. ok (length e.nonce ∷ e.nonce ++ e.ciphertext);
  unmarshal = read_envelope;
}

read-marshal :
    (e : EncryptedEnvelope) → read_envelope (length e.nonce ∷ e.nonce ++ e.ciphertext) ≡ ok e
read-marshal e = rw (take-append e.nonce e.ciphertext, drop-append e.nonce e.ciphertext) refl

marshal_cases :
    (e : EncryptedEnvelope) (bytes : Bytes)
    → ok (length e.nonce ∷ e.nonce ++ e.ciphertext) ≡ ok bytes
    → read_envelope bytes ≡ ok e
marshal_cases e bytes h =
    let same : length e.nonce ∷ e.nonce ++ e.ciphertext ≡ bytes = ground arith in
    subst (λ b. read_envelope b ≡ ok e) same (read-marshal e)

opened :
    (nonce text : Bytes) → length nonce ≡ 1 → gcm.open_sealed nonce (gcm.seal nonce text) ≡ ok text
opened nonce text sized = rw sized refl

refused : (nonce text : Bytes) → length nonce ≢ 1 → gcm.open_sealed nonce text ≡ Result.panics
refused nonce text other = ground arith

same_gcm : (g : Gcm) → libraries.new_gcm [] ≡ ok g → gcm ≡ g
same_gcm g h = ground arith

abbrev laws : LibrariesLaws libraries
laws = record {
  public_of = λ k. k;
  secret_comm = λ k l. ground arith;
  unmarshal-marshal = λ e bytes h. marshal_cases e bytes h;
  open-seal = λ block g made.
      subst
        (λ x.
          (nonce text : Bytes)
          → length nonce ≡ x.nonce_size
          → x.open_sealed nonce (x.seal nonce text) ≡ ok text)
        (same_gcm g made) opened;
  open_panics = λ block g made.
      subst
        (λ x.
          (nonce text : Bytes)
          → length nonce ≢ x.nonce_size
          → x.open_sealed nonce text ≡ Result.panics)
        (same_gcm g made) refused;
}

-- a node with a private key that has the other's key in its peer store
abbrev node : Bytes → Bytes → Secp256k1PeerEncryption libraries
node own other = record {
  private_key = ok own;
  pub_key = λ pid. some (record { key_type = "Secp256k1"; raw = ok other });
}

abbrev alice : Secp256k1PeerEncryption libraries
alice = node (1 ∷ []) (1 ∷ 2 ∷ [])

abbrev bob : Secp256k1PeerEncryption libraries
bob = node (1 ∷ 2 ∷ []) (1 ∷ [])

alice-Knows : Knows libraries laws alice bob "bob"
alice-Knows = record {
  secret = 1 ∷ 2 ∷ [];
  private_key = refl;
  pid = "bob";
  decoded = refl;
  key = record { key_type = "Secp256k1"; raw = ok (1 ∷ 2 ∷ []) };
  stored = refl;
  typed = refl;
  raw = 1 ∷ 2 ∷ [];
  raw_key = refl;
  point = refl;
}

bob-Knows : Knows libraries laws bob alice "alice"
bob-Knows = record {
  secret = 1 ∷ [];
  private_key = refl;
  pid = "alice";
  decoded = refl;
  key = record { key_type = "Secp256k1"; raw = ok (1 ∷ []) };
  stored = refl;
  typed = refl;
  raw = 1 ∷ [];
  raw_key = refl;
  point = refl;
}

abbrev zeros : ℕ → Bytes
zeros ℕ.zero = []
zeros (ℕ.suc n) = 0 ∷ zeros n

zeros-sized : (n : ℕ) (bytes : Bytes) → ok (zeros n) ≡ ok bytes → length bytes ≡ n
zeros-sized n bytes h = subst (λ b. length b ≡ n) (ground arith) (length-zeros n)
  where
    length-zeros : (n : ℕ) → length (zeros n) ≡ n
    length-zeros ℕ.zero = refl
    length-zeros (ℕ.suc n) = ground (arith, length-zeros n)

sent :
    encrypt_for_target libraries alice (λ n. ok (zeros n)) "bob" (5 ∷ 6 ∷ [])
    ≡ ok (1 ∷ 0 ∷ 7 ∷ 5 ∷ 6 ∷ [])
unfolding encrypt_for_target encrypt_with_aes_gcm key_point peer_point shared_key
sent = refl

decrypt-encrypt_for_target_example :
    decrypt_from_sender libraries bob "alice" (1 ∷ 0 ∷ 7 ∷ 5 ∷ 6 ∷ []) ≡ ok (5 ∷ 6 ∷ [])
decrypt-encrypt_for_target_example =
    decrypt-encrypt_for_target libraries laws alice bob "bob" "alice" alice-Knows bob-Knows
      (λ n. ok (zeros n)) zeros-sized (5 ∷ 6 ∷ []) (1 ∷ 0 ∷ 7 ∷ 5 ∷ 6 ∷ []) sent

received : decrypt_from_sender libraries bob "alice" (1 ∷ 0 ∷ 7 ∷ 5 ∷ 6 ∷ []) ≡ ok (5 ∷ 6 ∷ [])
unfolding decrypt_from_sender decrypt_with_aes_gcm key_point peer_point shared_key
received = refl

other_length : length {A = ℕ} [] ≢ length {A = ℕ} (0 ∷ [])
other_length h = ground arith

-- an envelope without a nonce
wrong_nonce_panics_example : decrypt_from_sender libraries bob "alice" (0 ∷ 5 ∷ []) ≡ Result.panics
wrong_nonce_panics_example =
    wrong_nonce_panics libraries laws bob "alice" (1 ∷ 0 ∷ 7 ∷ 5 ∷ 6 ∷ []) (0 ∷ 5 ∷ []) (5 ∷ 6 ∷ [])
      (record { nonce = 0 ∷ []; ciphertext = 7 ∷ 5 ∷ 6 ∷ [] })
      (record { nonce = []; ciphertext = 5 ∷ [] }) refl refl received other_length
