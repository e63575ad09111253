-- ===== src/Tss/Lifecycle/Moving.antt =====
-- The move of an ended operation to storage does not lose it.
use mathlib.Core.Path.{subst}
use dknet.Base
use dknet.Base.{
  ℕ, String, true, List, [], ◌∷◌, Option, none, some, Result, ok, err, Error, M, ◌≡◌, ◌≢◌, ◌⊎◌, inl,
  inr, refl, arith, sym, ap, ◌∙◌, eq_iff, lookup, delete, lookup-delete, Bool-cases, Option-cases,
  Result-cases, ◌==◌, ◌>>=◌, ◌>>◌, wrapping, modify, if◌then◌else◌,
}
use dknet.P2p.Types.{Bytes}
use dknet.Tss.Types.{Operation}
use dknet.Tss.Env.{Env, StorageLaws}
use dknet.Tss.Service.{Service, find}
use dknet.Tss.Store.{operation_key, save_bytes, save_operation, move_completed_operation_to_storage}
use dknet.Tss.Lifecycle.{WellFormed, Keeps, Good}
use dknet.Tss.Lifecycle.Saving.{save_bytes-Good, save_operation-cases, operation_key-injective}

module _ {D : Type 0} (env : Env D) (laws : StorageLaws env.storage) (id : String) where
  abbrev without : Service D → Service D
  without t = record t { operations = delete id t.operations }

  without-WellFormed : (s : Service D) → WellFormed env s → WellFormed env (without s)
  without-WellFormed s w = record {
    unused = w.unused;
    filed = λ j p found. w.filed j p (ground (arith, lookup-delete id j s.operations));
    stored = w.stored;
  }

  without-Keeps :
      (s : Service D) (b : Bytes)
      → env.storage.load (operation_key id) s.db ≡ ok b
      → Keeps env s (without s)
  without-Keeps s b kept j (inr stored) = inr stored
  without-Keeps s b kept j (inl (p, found)) = elim (Bool-cases (id == j)) [
    | inl e ↦
        inr (b, ap (λ x. env.storage.load (operation_key x) s.db) (sym ((eq_iff id j).0 e)) ∙ kept)
    | inr e ↦ inl (p, ground (arith, lookup-delete id j s.operations))
  ]

  -- saving, and then forgetting, the operation `o`
  abbrev save_and_forget : Operation → M (Service D) (Unit {0})
  save_and_forget o =
      (λ t. (
        wrapping "failed to save operation to storage" (save_operation env o t).0,
        (save_operation env o t).1,
      ))
      >> modify without

  abbrev Fine : Service D → Service D → Type 0
  Fine s t = WellFormed env t × Keeps env s t

  forget-Fine :
      (r : Result (Unit {0})) (s u : Service D)
      → WellFormed env u
      → Keeps env s u
      → (r ≡ ok tt → (b : Bytes) × (env.storage.load (operation_key id) u.db ≡ ok b))
      → Fine s
          (Base.continue
            (wrapping "failed to save operation to storage" r)
            (λ _. modify without)
            u).1
  forget-Fine (ok tt) s u w k kept =
      let (b, loaded) = kept refl in
      (without-WellFormed u w, λ j known. without-Keeps u b loaded j (k j known))
  forget-Fine (err e) s u w k kept = (w, k)
  forget-Fine Result.panics s u w k kept = (w, k)

  save_and_forget-Fine :
      (o : Operation) (s : Service D)
      → WellFormed env s
      → o.id ≡ id
      → Fine s (save_and_forget o s).1
  save_and_forget-Fine o s w named = elim (save_operation-cases env laws o s) [
    | inl (failed, same) ↦
        forget-Fine (save_operation env o s).0 s (save_operation env o s).1
          (subst (λ t. WellFormed env t) (sym same) w)
          (subst (λ t. Keeps env s t) (sym same) (λ j known. known))
          (λ saved. absurd (failed saved))
    | inr (b, ended, encoded, e) ↦
        let (v, k) =
          (save_bytes-Good env laws (operation_key o.id) b
              (λ j key. (o, operation_key-injective o.id j key, ended, encoded))).keeps
            s w in
        subst
          (λ (x : Result (Unit {0}) × Service D).
            Fine s
              (Base.continue (wrapping "failed to save operation to storage" x.0)
                (λ _. modify without) x.1).1)
          (sym e)
          (forget-Fine (save_bytes env (operation_key o.id) b s).0 s
            (save_bytes env (operation_key o.id) b s).1 v k
            (λ saved. (
              b,
              ap
                    (λ j.
                      env.storage.load (operation_key j)
                        (save_bytes env (operation_key o.id) b s).1.db)
                    (sym named)
                  ∙ laws.load-save (operation_key o.id) b s.db saved,
            )))
  ]

  move_absent :
      (s : Service D)
      → lookup id s.operations ≡ none
      → (move_completed_operation_to_storage env id s).1 ≡ s
  unfolding move_completed_operation_to_storage find
  move_absent s absent = ground arith

  move_found :
      (s : Service D) (p : ℕ) (o : Operation)
      → lookup id s.operations ≡ some p
      → s.heap p ≡ some o
      → move_completed_operation_to_storage env id s ≡ save_and_forget o s
  unfolding move_completed_operation_to_storage find
  move_found s p o found there = ground arith

  move-Keeps :
      (s : Service D) → WellFormed env s → Fine s (move_completed_operation_to_storage env id s).1
  move-Keeps s w = elim (Option-cases (lookup id s.operations)) [
    | inl absent ↦ subst (λ t. Fine s t) (sym (move_absent s absent)) (w, λ j known. known)
    | inr (p, found) ↦
        let (o, there, named) = w.filed id p found in
        subst (λ (x : Result (Unit {0}) × Service D). Fine s x.1)
          (sym (move_found s p o found there)) (save_and_forget-Fine o s w named)
  ]

  -- The move of an operation to storage keeps it known.
  pub move-Good : Good env (move_completed_operation_to_storage env id)
  move-Good = record { keeps = move-Keeps }
