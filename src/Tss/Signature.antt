-- ===== src/Tss/Signature.antt =====
-- internal/tss/sign.go, `saveSigningResult`, and internal/tss/types.go, `hashMessageForEthereum`:
-- the bytes of an Ethereum signature and of the message that is signed.
pub mod Format
use Prim.Native.Char.{code}
use Prim.Native.Nat.{◌/◌}
use Prim.Native.String.{◌++◌ as ◌++ˢ◌}
use dknet.Base.{
  ℕ, zero, suc, ◌+◌, ◌-◌, ◌%◌, String, List, [], ◌∷◌, ◌++◌, length, ltb, leb, if◌then◌else◌,
}
use dknet.P2p.Types.{Bytes}
use dknet.Plugin.Encryption.{drop}
use dknet.Tss.Types.{SigningResult, SignatureData}

module _ {ℓ} {A : Type ℓ} where
  abbrev pub replicate : ℕ → A → List A
  replicate zero a = []
  replicate (suc n) a = a ∷ replicate n a

-- `if len(b) < 32`: pad with leading zeros
unfoldable pub pad : Bytes → Bytes
pad b = if ltb (length b) 32 then replicate (32 - length b) 0 ++ b else b

-- `if len(b) > 32`: keep the last 32 bytes
unfoldable pub truncate : Bytes → Bytes
truncate b = if ltb 32 (length b) then drop (length b - 32) b else b

unfoldable pub to_word : Bytes → Bytes
unfolding pad truncate
to_word b = truncate (pad b)

-- the Ethereum `v`, 27 or 28, from the recovery id
unfoldable pub recovery_v : Bytes → ℕ
recovery_v [] = 27
recovery_v (recovery_id ∷ _) = if leb recovery_id 1 then recovery_id + 27 else 27

-- R(32) + S(32) + V(1)
unfoldable pub signature65 : SignatureData → Bytes
unfolding to_word recovery_v
signature65 d = to_word d.r ++ (to_word d.s ++ (recovery_v d.signature_recovery % 256) ∷ [])

-- the digits of hex.EncodeToString
unfoldable pub hex_digit : ℕ → String
hex_digit d =
    if ltb d 8
    then (if ltb d 4
        then (if ltb d 2 then (if ltb d 1 then "0" else "1") else (if ltb d 3 then "2" else "3"))
        else (if ltb d 6 then (if ltb d 5 then "4" else "5") else (if ltb d 7 then "6" else "7")))
    else (if ltb d 12
        then (if ltb d 10 then (if ltb d 9 then "8" else "9") else (if ltb d 11 then "a" else "b"))
        else (if ltb d 14
            then (if ltb d 13 then "c" else "d")
            else (if ltb d 15 then "e" else "f")))

-- hex.EncodeToString
unfoldable pub hex : Bytes → String
unfolding hex_digit
hex [] = ""
hex (b ∷ bs) = hex_digit (b / 16) ++ˢ (hex_digit (b % 16) ++ˢ hex bs)

-- the `SigningResult` of `saveSigningResult`
unfoldable pub signing_result_of : SignatureData → SigningResult
unfolding signature65 hex
signing_result_of d = record {
  signature = "0x" ++ˢ hex (signature65 d);
  r = "0x" ++ˢ hex (to_word d.r);
  s = "0x" ++ˢ hex (to_word d.s);
  v = recovery_v d.signature_recovery;
}

-- `%d` on fuel
unfoldable pub decimal_from : ℕ → ℕ → Bytes → Bytes
decimal_from zero n acc = acc
decimal_from (suc fuel) n acc =
    let digits : Bytes = (48 + n % 10) ∷ acc in
    let rest = decimal_from fuel (n / 10) digits in if ltb n 10 then digits else rest

unfoldable pub decimal : ℕ → Bytes
unfolding decimal_from
decimal n = decimal_from (suc n) n []

abbrev pub bytes_of : String → Bytes
bytes_of String.[] = []
bytes_of (String.◌∷◌ letter rest) = code letter ∷ bytes_of rest

-- the prefixed message of hashMessageForEthereum: byte 0x19, the text, a newline, the length
unfoldable pub prefixed_message : Bytes → Bytes
unfolding decimal
prefixed_message message =
    (25 ∷ bytes_of "Ethereum Signed Message:") ++ (10 ∷ (decimal (length message) ++ message))

-- hashMessageForEthereum
unfoldable pub hash_message_for_ethereum : (Bytes → Bytes) → Bytes → Bytes
unfolding prefixed_message
hash_message_for_ethereum keccak256 message = keccak256 (prefixed_message message)
