-- ===== src/Plugin/Encryption.antt =====
-- internal/plugin/encryption.go: keys at rest, AES-GCM with the nonce in front of the ciphertext.
-- The cipher itself is Go's crypto library: a parameter.
use dknet.Base.{
  ℕ, zero, suc, ◌<◌, ◌≡◌, refl, String, false, List, [], ◌∷◌, ◌++◌, Option, none, some, arith,
  length, length-append, ltb, if◌then◌else◌, ◌==◌, Result, ok, err, errorf, wrapf, external,
  or_error, wrapping, ap,
}
use dknet.P2p.Types.{Bytes}

module _ {ℓ} {A : Type ℓ} where
  -- xs[:n]
  abbrev pub take : ℕ → List A → List A
  take zero xs = []
  take (suc n) [] = []
  take (suc n) (x ∷ xs) = x ∷ take n xs

  -- xs[n:]
  abbrev pub drop : ℕ → List A → List A
  drop zero xs = xs
  drop (suc n) [] = []
  drop (suc n) (x ∷ xs) = drop n xs

  pub take-append : (xs ys : List A) → take (length xs) (xs ++ ys) ≡ xs
  take-append [] ys = refl
  take-append (x ∷ xs) ys = ap (◌∷◌ x) (take-append xs ys)

  pub drop-append : (xs ys : List A) → drop (length xs) (xs ++ ys) ≡ ys
  drop-append [] ys = refl
  drop-append (x ∷ xs) ys = drop-append xs ys

-- cipher.AEAD under one key
pub record Aead : Type 0 where
  pub nonce_size : ℕ
  pub seal : Bytes → Bytes → Bytes
  pub open_sealed : Bytes → Bytes → Option Bytes

-- NewKeyCipher; `derive` is PBKDF2 with the fixed salt, then `aes.NewCipher` and `cipher.NewGCM`
unfoldable pub new_key_cipher : (String → Result Aead) → String → Result Aead
new_key_cipher derive password =
    if password == ""
    then err (errorf "encryption password cannot be empty" [])
    else derive password

-- Encrypt; `nonce` is what `rand.Reader` gave, if it gave any
unfoldable pub encrypt : Aead → Option Bytes → Bytes → Result Bytes
encrypt gcm none plaintext = err (wrapf "failed to generate nonce" (external "rand"))
encrypt gcm (some nonce) plaintext = ok (nonce ++ gcm.seal nonce plaintext)

-- Decrypt
unfoldable pub decrypt : Aead → Bytes → Result Bytes
decrypt gcm ciphertext =
    if ltb (length ciphertext) gcm.nonce_size
    then err (errorf "ciphertext too short" [])
    else wrapping "failed to decrypt data" (
        or_error (gcm.open_sealed (take gcm.nonce_size ciphertext) (drop gcm.nonce_size ciphertext))
          (external "cipher"))

-- What AES-GCM promises: with the nonce of its own size, opening what was sealed gives it back.
pub record AeadLaws (gcm : Aead) : Type 0 where
  pub open-seal :
      (nonce text : Bytes)
      → length nonce ≡ gcm.nonce_size
      → gcm.open_sealed nonce (gcm.seal nonce text) ≡ some text

-- The framing: a nonce of the right size can be cut off again.
ltb-length-append : (n : ℕ) (xs ys : Bytes) → length xs ≡ n → ltb (length (xs ++ ys)) n ≡ false
ltb-length-append n xs ys h = ground (arith, length-append xs ys)

-- With a cipher that opens what it seals and a nonce of its size, decrypting what was encrypted gives
-- the plaintext.
pub decrypt-encrypt :
    (gcm : Aead)
    → AeadLaws gcm
    → (nonce plaintext ciphertext : Bytes) → length nonce ≡ gcm.nonce_size
    → encrypt gcm (some nonce) plaintext ≡ ok ciphertext
    → decrypt gcm ciphertext ≡ ok plaintext
unfolding encrypt decrypt
decrypt-encrypt gcm laws nonce plaintext ciphertext sized h =
    let sealed : Bytes = gcm.seal nonce plaintext in
    let e : ciphertext ≡ nonce ++ sealed = cc in
    rw (e, ltb-length-append gcm.nonce_size nonce sealed sized, ← sized)
      (rw (take-append nonce sealed, drop-append nonce sealed)
        (rw (laws.open-seal nonce plaintext sized)))

-- What is shorter than a nonce is refused.
pub decrypt_short :
    (gcm : Aead) (ciphertext : Bytes)
    → length ciphertext < gcm.nonce_size
    → decrypt gcm ciphertext ≡ err (errorf "ciphertext too short" [])
unfolding decrypt
decrypt_short gcm ciphertext h = ground arith
