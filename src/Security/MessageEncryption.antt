-- ===== src/Security/MessageEncryption.antt =====
-- internal/security/message_encryption.go: the payload of a message is encrypted for its recipient.
-- The encryption itself (ECIES over secp256k1) is a parameter.
use dknet.Base.{
  String, Bool, true, false, Result, ok, err, errorf, wrapf, wrap_args, str, [], ◌∷◌, ◌==◌,
  if◌then◌else◌,
}
use dknet.P2p.Types.{Bytes}

-- PeerEncryption
pub record PeerEncryption : Type 0 where
  pub encrypt_for_peer : String → Bytes → Result Bytes
  pub decrypt_from_peer : String → Bytes → Result Bytes

-- MessageEncryptionContext; `SetData` and `SetEncrypted` assign its first two fields
pub record Context : Type 0 where
  pub payload : Bytes
  pub encrypted : Bool
  pub recipient : String
  pub sender_peer_id : String

set_encrypted : Context → Result Bytes → Result Context
set_encrypted c (ok bytes) = ok (record c { payload = bytes; encrypted = true })
set_encrypted c (err e) = err (wrap_args "failed to encrypt for peer %s" (str c.recipient ∷ []) e)
set_encrypted c Result.panics = Result.panics

-- Encrypt
unfoldable pub encrypt_context : PeerEncryption → Context → Result Context
unfolding set_encrypted
encrypt_context peers c =
    if c.encrypted then ok c else set_encrypted c (peers.encrypt_for_peer c.recipient c.payload)

set_decrypted : Context → Result Bytes → Result Context
set_decrypted c (ok bytes) = ok (record c { payload = bytes; encrypted = false })
set_decrypted c (err e) = err (wrapf "failed to decrypt from peer" e)
set_decrypted c Result.panics = Result.panics

-- Decrypt
unfoldable pub decrypt_context : PeerEncryption → Context → Result Context
unfolding set_decrypted
decrypt_context peers c =
    if c.encrypted
    then (if c.sender_peer_id == ""
        then err (errorf "empty sender peer ID" [])
        else set_decrypted c (peers.decrypt_from_peer c.sender_peer_id c.payload))
    else ok c
