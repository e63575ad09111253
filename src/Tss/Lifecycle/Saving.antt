-- ===== src/Tss/Lifecycle/Saving.antt =====
-- Writes to the database: what is stored under the keys of operations.
use text.Mathlib.TextLemmas.{append_cancel_left}
use mathlib.Core.Path.{subst}
use dknet.Base.{
  String, true, false, some, ok, ◌≡◌, ◌≢◌, ◌⊎◌, inl, inr, arith, sym, ap, ◌∙◌, eq_iff, ne_of_==,
  Bool-cases, Option-cases, Result-cases, ◌==◌,
}
use dknet.P2p.Types.{Bytes}
use dknet.Tss.Types.{Operation, is_terminal, is_completed}
use dknet.Tss.Env.{Env, StorageLaws}
use dknet.Tss.Service.{Service}
use dknet.Tss.Store.{operation_key, to_data, save_bytes, save_operation}
use dknet.Tss.Lifecycle.{Good}

pub operation_key-injective : (id j : String) → operation_key id ≡ operation_key j → id ≡ j
unfolding operation_key
operation_key-injective id j e = append_cancel_left "operation:" id j e

-- the bytes are the record of an operation with the ID that has ended
abbrev pub IsRecord : {D : Type 0} → Env D → Bytes → String → Type 0
IsRecord env b id =
    (o : Operation) × (o.id ≡ id)
    × (is_terminal o.status ≡ true)
    × (env.json.marshal_operation (to_data env o) ≡ some b)

module _ {D : Type 0} (env : Env D) (laws : StorageLaws env.storage) where
  module _ (k : String) (b : Bytes) (d : D) where
    -- the database after a save
    abbrev after : D
    after = (env.storage.save k b d).1

    -- a save changes nothing, or exactly what is stored under its key
    save_cases :
        (after ≡ d) ⊎ (((env.storage.save k b d).0 ≡ ok tt) × (env.storage.load k after ≡ ok b))
    save_cases = elim (Result-cases (env.storage.save k b d).0) [
      | inl (inl p) ↦ inl (laws.save_failed k b d (λ h. ground arith))
      | inl (inr (e, p)) ↦ inl (laws.save_failed k b d (λ h. ground arith))
      | inr (u, p) ↦ inr (p, laws.load-save k b d p)
    ]

    after_load :
        (id : String) (c : Bytes)
        → env.storage.load (operation_key id) after ≡ ok c
        → (env.storage.load (operation_key id) d ≡ ok c) ⊎ ((k ≡ operation_key id) × (b ≡ c))
    after_load id c loaded = elim save_cases [
      | inl same ↦ inl (ap (env.storage.load (operation_key id)) (sym same) ∙ loaded)
      | inr (saved, kept) ↦ elim (Bool-cases (k == operation_key id)) [
        | inl e ↦
            let same : k ≡ operation_key id = (eq_iff k (operation_key id)).0 e in
            inr (same, ground arith)
        | inr e ↦ inl (sym (laws.load-save_ne k (operation_key id) b d (ne_of_== e)) ∙ loaded)
      ]
    ]

    still_stored :
        (id : String) (c : Bytes)
        → env.storage.load (operation_key id) d ≡ ok c
        → (c' : Bytes) × (env.storage.load (operation_key id) after ≡ ok c')
    still_stored id c loaded = elim save_cases [
      | inl same ↦ (c, ap (env.storage.load (operation_key id)) same ∙ loaded)
      | inr (saved, kept) ↦ elim (Bool-cases (k == operation_key id)) [
        | inl e ↦
            (b, ap (λ j. env.storage.load j after) (sym ((eq_iff k (operation_key id)).0 e)) ∙ kept)
        | inr e ↦ (c, laws.load-save_ne k (operation_key id) b d (ne_of_== e) ∙ loaded)
      ]
    ]

  -- A write of a record of an ended operation under its key, or of anything under other keys.
  pub save_bytes-Good :
      (k : String) (b : Bytes)
      → ((id : String) → k ≡ operation_key id → IsRecord env b id)
      → Good env (save_bytes env k b)
  save_bytes-Good k b fits = record {
    keeps = λ s w. (
      record {
        unused = w.unused;
        filed = w.filed;
        stored = λ id c loaded. elim (after_load k b s.db id c loaded) [
          | inl old ↦ w.stored id c old
          | inr (key, new) ↦ subst (λ x. IsRecord env x id) new (fits id key)
        ];
      },
      λ id known. elim known [
        | inl active ↦ inl active
        | inr (c, loaded) ↦ inr (still_stored k b s.db id c loaded)
      ],
    );
  }

  -- what `saveOperation` does: nothing, or the write of the record of an ended operation
  pub save_operation-cases :
      (o : Operation) (s : Service D)
      → (((save_operation env o s).0 ≢ ok tt) × ((save_operation env o s).1 ≡ s))
        ⊎ ((b : Bytes) × (is_terminal o.status ≡ true)
            × (env.json.marshal_operation (to_data env o) ≡ some b)
            × (save_operation env o s ≡ save_bytes env (operation_key o.id) b s))
  unfolding save_operation
  save_operation-cases o s = elim (Bool-cases (is_terminal o.status)) [
    | inl ended ↦ elim (Option-cases (env.json.marshal_operation (to_data env o))) [
      | inl lost ↦
          let w : is_completed (to_data env o) ≡ true = unfold to_data is_completed in ended in
          inl (ground arith, ground arith)
      | inr (b, encoded) ↦
          let w : is_completed (to_data env o) ≡ true = unfold to_data is_completed in ended in
          inr (b, ended, encoded, ground arith)
    ]
    | inr active ↦
        let w : is_completed (to_data env o) ≡ false = unfold to_data is_completed in active in
        inl (ground arith, ground arith)
  ]
