-- ===== src/Tss/Resharing/Checks.antt =====
-- What a resharing needs to be created.
use dknet.Base.{
  Result-cases, ℕ, true, Result, ok, err, ℤ, pos, negsuc, ◌≡◌, ◌<◌, refl, arith, length, contains,
  inl, inr, ◌⊎◌, ◌≢◌, Error,
}
use dknet.Tss.Types.{KeyData, SaveData}
use dknet.Tss.Env.{Env}
use dknet.Tss.Service.{Service, create_participant_list}
use dknet.Tss.Store.{load_key_data}
use dknet.Tss.Resharing.{ResharingOperationParams, check_thresholds, create_resharing_operation}

-- A threshold is a natural number below the number of parties.
abbrev pub IsThreshold : ℤ → ℕ → Type 0
IsThreshold t n = (m : ℕ) × (t ≡ pos m) × (m < n)

checked :
    (new_threshold : ℤ) (new_count : ℕ) (old_threshold : ℤ) (old_count : ℕ)
    → check_thresholds new_threshold new_count old_threshold old_count ≡ ok tt
    → IsThreshold new_threshold new_count × IsThreshold old_threshold old_count
unfolding check_thresholds
checked (negsuc n) new_count old old_count h = cc
checked (pos n) new_count (negsuc m) old_count h = absurd (ground arith)
checked (pos n) new_count (pos m) old_count h = ((n, refl, ground arith), (m, refl, ground arith))

module _ {D : Type 0} (env : Env D) (params : ResharingOperationParams) (s : Service D) where
  -- What a created resharing has gone through.
  pub record Permitted (k : KeyData) (d : SaveData) : Type 0 where
    pub loaded : (load_key_data env params.key_id s).0 ≡ ok (k, d)
    pub initiator : contains k.participants env.node_id ≡ true
    pub new_threshold :
        IsThreshold params.new_threshold
          (length (create_participant_list env params.new_participants))
    pub old_threshold :
        IsThreshold k.threshold (length (create_participant_list env k.participants))

  unloaded :
      (p : ℕ)
      → ((load_key_data env params.key_id s).0 ≡ Result.panics)
        ⊎ ((e : Error) × ((load_key_data env params.key_id s).0 ≡ err e))
      → (create_resharing_operation env params s).0 ≢ ok p
  unfolding create_resharing_operation
  unloaded p (inl e) created = ground arith
  unloaded p (inr (x, e)) created = ground arith

  was_checked :
      (p : ℕ) (k : KeyData) (d : SaveData)
      → (load_key_data env params.key_id s).0 ≡ ok (k, d)
      → (create_resharing_operation env params s).0 ≡ ok p
      → (contains k.participants env.node_id ≡ true)
        × (check_thresholds params.new_threshold
              (length (create_participant_list env params.new_participants))
              k.threshold
              (length (create_participant_list env k.participants))
            ≡ ok tt)
  unfolding create_resharing_operation
  was_checked p k d loaded created = (ground arith, ground arith)

  -- A resharing that a request starts at this node is only created at an old participant that can
  -- load its key share, and only with thresholds that are natural numbers below the sizes of their
  -- committees. An announced resharing that this node joins is not checked so.
  pub create_resharing-Permitted :
      (p : ℕ)
      → (create_resharing_operation env params s).0 ≡ ok p
      → (k : KeyData) × (d : SaveData) × Permitted k d
  create_resharing-Permitted p created = elim (Result-cases (load_key_data env params.key_id s).0) [
    | inl lost ↦ absurd (unloaded p lost created)
    | inr ((k, d), loaded) ↦
        let (ours, valid) = was_checked p k d loaded created in
        let (new, old) = checked _ _ _ _ valid in
        (
          k,
          d,
          record { loaded = loaded; initiator = ours; new_threshold = new; old_threshold = old },
        )
  ]
