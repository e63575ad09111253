-- ===== src/Tss/Lifecycle/Starts.antt =====
-- Requests and announcements start operations and lose none.
use mathlib.Core.Path.{subst}
use dknet.Base
use dknet.Base.{
  ℕ, suc, String, Bool, true, false, List, [], ◌∷◌, Option, none, some, Result, ok, err, Error, M,
  ◌≡◌, ◌≢◌, ◌⊎◌, inl, inr, refl, arith, sym, ap, ◌∙◌, eq_iff, lookup, Bool-cases, Option-cases,
  Result-cases, ℤ, ◌==◌, ◌>>=◌, ◌>>◌, or_error, external, wrapping, modify, if◌then◌else◌,
}
use dknet.P2p.Types.{Message}
use dknet.Tss.Types.{SyncData, broadcast_sync, OperationData}
use dknet.Tss.Env.{Env}
use dknet.Tss.Service.{
  Service, spawn, find, find_party, create_participant_list, generate_or_use_operation_id,
  new_session_id, alloc,
}
use dknet.Tss.Store.{of_data, check_idempotency, load_operation, load_key_data, load_key_metadata}
use dknet.Tss.Broadcast.{keygen_sync_data}
use dknet.Tss.Keygen.{
  KeygenOperationParams, planned_keygen, create_keygen-eq, start_keygen, start_new_keygen,
  create_and_start_keygen_operation, create_synced_keygen_operation,
}
use dknet.Tss.Lifecycle.{WellFormed, Keeps, Good}
use dknet.Tss.Lifecycle.Rules.{bind-Good, result-Good, wrap-Good, launch-Good, alloc-Good}

module _ {D : Type 0} (env : Env D) where
  load_operation-same : (id : String) (s : Service D) → (load_operation env id s).1 ≡ s
  unfolding load_operation
  load_operation-same id s = ground arith

  pub load_key_metadata-same : (id : String) (s : Service D) → (load_key_metadata env id s).1 ≡ s
  unfolding load_key_metadata
  load_key_metadata-same id s = ground arith

  pub load_key_data-same : (id : String) (s : Service D) → (load_key_data env id s).1 ≡ s
  unfolding load_key_data load_key_metadata
  load_key_data-same id s = ground arith

  check-cases :
      (id : String) (s : Service D)
      → ((check_idempotency env id s).1 ≡ s)
        ⊎ ((d : OperationData) × ((check_idempotency env id s).1 ≡ (alloc (of_data env d) s).1))
  unfolding check_idempotency find
  check-cases id s = elim (Bool-cases (id == "")) [
    | inl e ↦ inl (ground arith)
    | inr e ↦ elim (Option-cases (lookup id s.operations)) [
      | inr (p, found) ↦ inl (ground arith)
      | inl absent ↦ elim (Result-cases (load_operation env id s).0) [
        | inl h ↦ inl (ground (arith, load_operation-same id s))
        | inr (d, h) ↦ inr (d, ground (arith, load_operation-same id s))
      ]
    ]
  ]

  pub check-Good : (id : String) → Good env (check_idempotency env id)
  check-Good id = record {
    keeps = λ s w. elim (check-cases id s) [
      | inl e ↦ subst (λ t. WellFormed env t × Keeps env s t) (sym e) (w, λ j known. known)
      | inr (d, e) ↦
          subst (λ t. WellFormed env t × Keeps env s t) (sym e)
            ((alloc-Good env (of_data env d)).keeps s w)
    ];
  }

  pub operation_id-Good : (id : String) → Good env (generate_or_use_operation_id env id)
  unfolding generate_or_use_operation_id
  operation_id-Good id = record {
    keeps = λ s w. elim (Bool-cases (id == "")) [
      | inl e ↦ rw e (w, λ j known. known)
      | inr e ↦ rw e (w, λ j known. known)
    ];
  }

  pub session_id-Good : Good env (new_session_id env)
  unfolding new_session_id
  session_id-Good = record { keeps = λ s w. (w, λ j known. known) }

  create_keygen-none :
      (params : KeygenOperationParams) (s : Service D)
      → find_party env.node_id (create_participant_list env params.participants) ≡ none
      → (create_and_start_keygen_operation env params s).1 ≡ s
  unfolding create_and_start_keygen_operation
  create_keygen-none params s absent = rw (absent, create_and_start_keygen_operation) refl

  create_keygen-Good :
      (params : KeygenOperationParams)
      → params.use_pre_params ≡ false
      → Good env (create_and_start_keygen_operation env params)
  create_keygen-Good params standard = record {
    keeps = λ s w.
        elim (Option-cases
          (find_party env.node_id (create_participant_list env params.participants))) [
            | inl absent ↦
                subst (λ t. WellFormed env t × Keeps env s t)
                  (sym (create_keygen-none params s absent)) (w, λ j known. known)
            | inr (self, found) ↦
                subst (λ (x : Result ℕ × Service D). WellFormed env x.1 × Keeps env s x.1)
                  (sym (create_keygen-eq env params self s standard found))
                  ((launch-Good env (planned_keygen env params self s.clock) 10).keeps s w)
          ];
  }

  -- the existing operation, or the rest of the request
  pub existing-Good :
      (existing : Option ℕ) (start : M (Service D) ℕ)
      → Good env start
      → Good env (elim existing [ some p ↦ Base.pure p | none ↦ start ])
  existing-Good (some p) start good = record { keeps = λ s w. (w, λ j known. known) }
  existing-Good none start good = good

  -- the announcement is started, and the operation returned
  abbrev pub spawned : SyncData → ℕ → M (Service D) ℕ
  spawned d p = modify (spawn (broadcast_sync p d)) >> Base.pure p

  pub spawned-Good : (d : SyncData) (p : ℕ) → Good env (spawned d p)
  spawned-Good d p = record { keeps = λ s w. (w, λ j known. known) }

  new_keygen-Good :
      (id : String) (threshold : ℤ) (participants : List String)
      → Good env (start_new_keygen env id threshold participants)
  unfolding start_new_keygen
  new_keygen-Good id threshold participants =
      bind-Good env (generate_or_use_operation_id env id) _ (operation_id-Good id) (λ operation_id.
        bind-Good env (new_session_id env) _ session_id-Good (λ session_id.
          bind-Good env
            (create_and_start_keygen_operation env (record {
              operation_id = operation_id;
              session_id = session_id;
              threshold = threshold;
              participants = participants;
              use_pre_params = false;
            }))
            (spawned (keygen_sync_data operation_id session_id threshold participants))
            (create_keygen-Good _ refl) (spawned-Good _)))

  pub start_keygen-Good :
      (id : String) (threshold : ℤ) (participants : List String)
      → Good env (start_keygen env id threshold participants)
  unfolding start_keygen
  start_keygen-Good id threshold participants =
      bind-Good env (check_idempotency env id) _ (check-Good id)
        (λ existing. existing-Good existing _ (new_keygen-Good id threshold participants))

  pub synced_keygen-Good : (msg : Message) → Good env (create_synced_keygen_operation env msg)
  unfolding create_synced_keygen_operation
  synced_keygen-Good msg =
      bind-Good env _ _
        (result-Good env (
          wrapping "failed to unmarshal keygen sync data"
            (or_error (env.json.unmarshal_base msg.payload) (external "json"))))
        (λ d.
          bind-Good env _ _
            (wrap-Good env
              (create_and_start_keygen_operation env (record {
                operation_id = d.operation_id;
                session_id = d.session_id;
                threshold = d.threshold;
                participants = d.participants;
                use_pre_params = false;
              }))
              (wrapping "failed to create synced keygen operation") (create_keygen-Good _ refl))
            (λ p. result-Good env (ok tt)))
