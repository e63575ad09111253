-- ===== src/Examples.antt =====
-- The theorems at concrete inputs of the sample world.
pub mod Endings
pub mod Starting
pub mod Interfaces
pub mod Lives
pub mod Settings
pub mod Arriving
pub mod Committees
pub mod Network
pub mod Peers
pub mod Approvals
pub mod Storing
pub mod Discovering
pub mod Serving
pub mod Commands
pub mod Calling
use dknet.Base
use dknet.Base.{
  ℕ, suc, String, Bool, true, false, List, [], ◌∷◌, ◌++◌, Option, none, some, Result, ok, err,
  Error, errorf, wrapf, str, pos, ℤ, ◌≡◌, ◌≢◌, ◌⊎◌, ◌≤◌, inl, inr, refl, arith, length, contains,
  ◌==◌, ◌==ℕ◌, if◌then◌else◌,
}
use dknet.Common.Util.{distinct, retry}
use dknet.Common.Util.Laws.{FirstSuccess, retry_lem}
use dknet.P2p.Types.{Bytes, Message}
use dknet.Plugin.Encryption.{encrypt, decrypt, decrypt-encrypt}
use dknet.Tss.Signature.{decimal, signature65}
use dknet.Tss.Signature.Format.{
  decimal_value, decimal_value-decimal, length-signature65, signature65_fields,
}
use dknet.Tss.Service.{set_bytes}
use dknet.Plugin.Encryption.{take, drop}
use dknet.Samples.{world, idle, names, cipher, cipher-AeadLaws, sample_signature}

sealed : encrypt cipher (some (7 ∷ 7 ∷ [])) (1 ∷ 2 ∷ 3 ∷ []) ≡ ok (7 ∷ 7 ∷ 1 ∷ 2 ∷ 3 ∷ [])
unfolding encrypt
sealed = refl

r_short : length sample_signature.r ≤ 32
r_short = omega arith

s_short : length sample_signature.s ≤ 32
s_short = omega arith

signature65_fields_example :
    (set_bytes (take 32 (signature65 sample_signature)) ≡ set_bytes sample_signature.r)
    × (set_bytes (take 32 (drop 32 (signature65 sample_signature))) ≡ set_bytes sample_signature.s)
    × ((drop 32 (drop 32 (signature65 sample_signature)) ≡ 27 ∷ [])
        ⊎ (drop 32 (drop 32 (signature65 sample_signature)) ≡ 28 ∷ []))
signature65_fields_example = signature65_fields sample_signature r_short s_short
