-- ===== src/Tss/Signature/Format.antt =====
-- The Ethereum signature: its length, what padding keeps, the range of `v`; and the decimal length
-- in the prefixed message.
use Prim.Native.Nat.{◌/◌}
use dknet.Base.{
  ℕ, zero, suc, ◌+◌, ◌-◌, ◌*◌, ◌≤◌, ◌<◌, ◌%◌, [], ◌∷◌, ◌++◌, length, length-append, ◌≡◌, refl,
  arith, ltb, ◌⊎◌, inl, inr, Bool-cases, ap, ◌∙◌, true, false,
}
use dknet.P2p.Types.{Bytes}
use dknet.Plugin.Encryption.{drop, take, take-append, drop-append}
use dknet.Tss.Types.{SignatureData}
use dknet.Tss.Service.{set_bytes, set_bytes_from}
use dknet.Tss.Signature.{
  replicate, pad, truncate, to_word, recovery_v, signature65, decimal_from, decimal,
}

length-replicate : (n a : ℕ) → length (replicate n a) ≡ n
length-replicate zero a = refl
length-replicate (suc n) a = omega (arith, length-replicate n a)

length-drop : (n : ℕ) (bs : Bytes) → length (drop n bs) ≡ length bs - n
length-drop zero bs = omega arith
length-drop (suc n) [] = omega arith
length-drop (suc n) (b ∷ bs) = omega (arith, length-drop n bs)

length-to_word : (b : Bytes) → length (to_word b) ≡ 32
unfolding to_word pad truncate
length-to_word b = ground (
  arith,
  length-replicate (32 - length b) 0,
  length-append (replicate (32 - length b) 0) b,
  length-drop (length b - 32) b,
)

-- A signature is always 65 bytes: 32 of r, 32 of s and one of v, however long the numbers are
-- that tss-lib gives.
pub length-signature65 : (d : SignatureData) → length (signature65 d) ≡ 65
unfolding signature65
length-signature65 d = ground (
  arith,
  length-append (to_word d.r) (to_word d.s ++ (recovery_v d.signature_recovery % 256) ∷ []),
  length-append (to_word d.s) ((recovery_v d.signature_recovery % 256) ∷ []),
  length-to_word d.r,
  length-to_word d.s,
)

-- `v` is 27 or 28, whatever the recovery id is.
recovery_v-range : (b : Bytes) → (recovery_v b ≡ 27) ⊎ (recovery_v b ≡ 28)
unfolding recovery_v
recovery_v-range [] = inl refl
recovery_v-range (zero ∷ bs) = inl refl
recovery_v-range (suc zero ∷ bs) = inr refl
recovery_v-range (suc (suc n) ∷ bs) = inl (ground arith)

set_bytes_from-zeros :
    (n : ℕ) (b : Bytes) → set_bytes_from 0 (replicate n 0 ++ b) ≡ set_bytes_from 0 b
unfolding set_bytes_from
set_bytes_from-zeros zero b = refl
set_bytes_from-zeros (suc n) b = set_bytes_from-zeros n b

-- A number of at most 32 bytes keeps its value in its word of 32 bytes.
set_bytes-to_word : (b : Bytes) → length b ≤ 32 → set_bytes (to_word b) ≡ set_bytes b
unfolding set_bytes to_word pad truncate
set_bytes-to_word b short = ground (
  arith,
  set_bytes_from-zeros (32 - length b) b,
  length-replicate (32 - length b) 0,
  length-append (replicate (32 - length b) 0) b,
)

-- the number that decimal digits denote
abbrev pub decimal_value : ℕ → Bytes → ℕ
decimal_value acc [] = acc
decimal_value acc (b ∷ bs) = decimal_value (acc * 10 + (b - 48)) bs

ltb-true : (m n : ℕ) → ltb m n ≡ true → m < n
ltb-true m n h = ground arith

ltb-false : (m n : ℕ) → ltb m n ≡ false → n ≤ m
ltb-false m n h = ground arith

decimal_value-from :
    (fuel n : ℕ) (acc : Bytes)
    → n < fuel
    → decimal_value 0 (decimal_from fuel n acc) ≡ decimal_value n acc
unfolding decimal_from
decimal_value-from zero n acc h = absurd (omega arith)
decimal_value-from (suc fuel) n acc h = elim (Bool-cases (ltb n 10)) [
  | inl small ↦
      let e : 0 * 10 + (48 + n % 10 - 48) ≡ n = omega (arith, ltb-true n 10 small) in
      rw small (ap (λ m. decimal_value m acc) e)
  | inr large ↦
      let e : n / 10 * 10 + (48 + n % 10 - 48) ≡ n = omega arith in
      let less : n / 10 < fuel = omega (arith, ltb-false n 10 large) in
      rw large (
        decimal_value-from fuel (n / 10) ((48 + n % 10) ∷ acc) less
        ∙ ap (λ m. decimal_value m acc) e)
]

-- The length in the prefixed message is written in decimal: reading the digits gives it back.
pub decimal_value-decimal : (n : ℕ) → decimal_value 0 (decimal n) ≡ n
unfolding decimal
decimal_value-decimal n = decimal_value-from (suc n) n [] (omega arith)

take_32 : (b rest : Bytes) → take 32 (to_word b ++ rest) ≡ to_word b
take_32 b rest = rw length-to_word at (take-append (to_word b) rest)

drop_32 : (b rest : Bytes) → drop 32 (to_word b ++ rest) ≡ rest
drop_32 b rest = rw length-to_word at (drop-append (to_word b) rest)

-- A verifier that cuts the signature at the bytes 32 and 64 gets the numbers r and s of tss-lib, if
-- they have at most 32 bytes, and 27 or 28 for `v`.
pub signature65_fields :
    (d : SignatureData)
    → length d.r ≤ 32
    → length d.s ≤ 32
    → (set_bytes (take 32 (signature65 d)) ≡ set_bytes d.r)
      × (set_bytes (take 32 (drop 32 (signature65 d))) ≡ set_bytes d.s)
      × ((drop 32 (drop 32 (signature65 d)) ≡ 27 ∷ [])
          ⊎ (drop 32 (drop 32 (signature65 d)) ≡ 28 ∷ []))
unfolding signature65
signature65_fields d short_r short_s =
    let v : Bytes = (recovery_v d.signature_recovery % 256) ∷ [] in
    let last : drop 32 (drop 32 (to_word d.r ++ (to_word d.s ++ v))) ≡ v =
      ap (drop 32) (drop_32 d.r (to_word d.s ++ v)) ∙ drop_32 d.s v in
    (
      ap set_bytes (take_32 d.r (to_word d.s ++ v)) ∙ set_bytes-to_word d.r short_r,
      ap (λ b. set_bytes (take 32 b)) (drop_32 d.r (to_word d.s ++ v))
          ∙ (ap set_bytes (take_32 d.s v) ∙ set_bytes-to_word d.s short_s),
      elim (recovery_v-range d.signature_recovery) [
        | inl e ↦ inl (last ∙ ap (λ n. (n % 256) ∷ []) e)
        | inr e ↦ inr (last ∙ ap (λ n. (n % 256) ∷ []) e)
      ],
    )
