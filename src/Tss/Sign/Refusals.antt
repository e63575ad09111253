-- ===== src/Tss/Sign/Refusals.antt =====
-- Announcements of a signing that are refused.
use dknet.Base.{
  [], some, err, Error, ◌≡◌, ◌⊎◌, inl, inr, arith, ◌==◌, eq_iff, Bool-cases, length, ◌==ℕ◌, errorf,
  wrapf,
}
use dknet.P2p.Types.{Message}
use dknet.Tss.Types.{SigningSyncData}
use dknet.Tss.Env.{Env}
use dknet.Tss.Service.{Service}
use dknet.Tss.Sign.{create_synced_signing_operation, validate_signing_request}

module _ {D : Type 0} (env : Env D) (msg : Message) (d : SigningSyncData) (s : Service D)
    (decoded : env.json.unmarshal_signing_sync msg.payload ≡ some d) where
  -- An announcement of a signing that names no key, or carries no message, or that this node's own
  -- validation rejects, fails and changes nothing: no operation starts here.
  pub synced_signing_refused :
      ((d.key_id ≡ "")
        ⊎ ((d.message ≡ [])
            ⊎ ((e : Error) × (validate_signing_request env d.message d.key_id d.base.participants
                  ≡ err e))))
      → (e : Error) × (create_synced_signing_operation env msg s ≡ (err e, s))
  unfolding create_synced_signing_operation
  synced_signing_refused reason = elim (Bool-cases (d.key_id == "")) [
    | inl unnamed ↦ (errorf "key_id is required for signing operation sync" [], ground arith)
    | inr named ↦ elim (Bool-cases (length d.message ==ℕ 0)) [
      | inl empty ↦ (errorf "message is required for signing operation sync" [], ground arith)
      | inr full ↦ elim reason [
        | inl e ↦ absurd (ground (arith, eq_iff d.key_id ""))
        | inr (inl e) ↦ absurd (ground arith)
        | inr (inr (e, rejected)) ↦
            (wrapf "synced signing request validation failed" e, ground arith)
      ]
    ]
  ]
