-- ===== src/Tss/Lifecycle/Watching.antt =====
-- The end of an operation, `watchOperation`, keeps it known.
use Prim.Native.String.{◌++◌ as ◌++ˢ◌}
use Prim.Native.Char.{code}
use text.Mathlib.TextLemmas.{head-eq_of_cons-eq, cons-append}
use dknet.Base.{
  ℕ, String, List, some, Result, ok, err, Error, refl, ap, sym, ◌∙◌, ◌≡◌, ◌≢◌, arith, wrapping,
  or_error, external, gets,
}
use dknet.Plugin.Encryption.{encrypt}
use dknet.Tss.Types.{
  Operation, OperationStatus, EndValue, error_value, save_data, signature_data, other_value,
  SaveData, Value, completed, failed, canceled, signing_result, keygen_result,
}
use dknet.Tss.Env.{Env, StorageLaws}
use dknet.Tss.Signature.{signing_result_of, hex}
use dknet.Tss.Store.{deref, operation_key, save_bytes, move_completed_operation_to_storage}
use dknet.Tss.Watch.{
  Event, done, received, watch, conclude, conclude_value, save_keygen_result, set_status,
  complete_at, fail_with, or_fail, draw_nonce, set_result, as_keygen, key_id_of, key_data_of,
  public_key_bytes,
}
use dknet.Tss.Lifecycle.{Good}
use dknet.Tss.Lifecycle.Rules.{bind-Good, result-Good, wrap-Good, gets-Good, read-Good, update-Good}
use dknet.Tss.Lifecycle.Saving.{save_bytes-Good}
use dknet.Tss.Lifecycle.Moving.{move-Good}

-- A key is never stored under the key of an operation.
keys_differ : (h id : String) → ("0x" ++ˢ h) ≢ operation_key id
unfolding operation_key
keys_differ h id e =
    let heads : code "0" ≡ code "o" =
      ap code
        (head-eq_of_cons-eq (sym (cons-append "0" "x" h) ∙ e ∙ cons-append "o" "peration:" id)) in
    absurd (omega (arith, heads))

module _ {D : Type 0} (env : Env D) (laws : StorageLaws env.storage) where
  pub set_status-Good : (p : ℕ) (status : OperationStatus) → Good env (set_status env p status)
  set_status-Good p status = update-Good env p (λ o. record o { status = status }) (λ o. refl)

  complete_at-Good : (p : ℕ) → Good env (complete_at env p)
  complete_at-Good p =
      bind-Good env (gets (λ s. s.clock)) _ (gets-Good env (λ s. s.clock))
        (λ now. update-Good env p (λ o. record o { completed_at = some now }) (λ o. refl))

  fail_with-Good : (p : ℕ) (e : Error) → Good env (fail_with env p e)
  fail_with-Good p e =
      update-Good env p (λ o. record o { error = some e; status = failed }) (λ o. refl)

  set_result-Good : (p : ℕ) (v : Value) → Good env (set_result env p v)
  unfolding set_result
  set_result-Good p v = update-Good env p (λ o. record o { result = some v }) (λ o. refl)

  draw_nonce-Good : Good env (draw_nonce env)
  unfolding draw_nonce
  draw_nonce-Good = record { keeps = λ s w. (w, λ j known. known) }

  save_key-Good : (r : SaveData) (b : List ℕ) → Good env (save_bytes env (key_id_of env r) b)
  unfolding key_id_of
  save_key-Good r b = save_bytes-Good env laws _ b (λ id e. absurd (keys_differ _ id e))

  save_keygen_result-Good : (p : ℕ) (r : SaveData) → Good env (save_keygen_result env p r)
  unfolding save_keygen_result
  save_keygen_result-Good p r =
      bind-Good env _ _
        (result-Good env (
          wrapping "failed to marshal key data"
            (or_error (env.json.marshal_save_data r) (external "json"))))
        (λ bytes. bind-Good env (draw_nonce env) _ draw_nonce-Good (λ nonce.
          bind-Good env _ _
            (result-Good env
              (wrapping "failed to encrypt key data" (encrypt env.encryption nonce bytes)))
            (λ encrypted. bind-Good env (deref env p) _ (read-Good env p) (λ o.
              bind-Good env _ _ (result-Good env (as_keygen o.request)) (λ req.
                bind-Good env _ _
                  (result-Good env (
                    wrapping "failed to marshal key data struct" (
                      or_error (env.json.marshal_key_data (key_data_of env req encrypted))
                        (external "json"))))
                  (λ b.
                    bind-Good env _ _
                      (wrap-Good env _ (wrapping "failed to save key data") (save_key-Good r b))
                      (λ _. set_result-Good p (
                        keygen_result (record {
                          public_key = hex (public_key_bytes env r);
                          key_id = key_id_of env r;
                        })))))))))

  or_fail-Good : (p : ℕ) (r : Result (Unit {0})) → Good env (or_fail env p r)
  or_fail-Good p (ok tt) = record { keeps = λ s w. (w, λ j known. known) }
  or_fail-Good p (err e) = record { keeps = (fail_with-Good p e).keeps }
  or_fail-Good p Result.panics = record { keeps = λ s w. (w, λ j known. known) }

  key_or_fail-Good :
      (p : ℕ) (r : SaveData)
      → Good env (λ s. let saved = save_keygen_result env p r s in or_fail env p saved.0 saved.1)
  key_or_fail-Good p r = record {
    keeps = λ s w.
        let (v, k) = (save_keygen_result-Good p r).keeps s w in
        let saved = save_keygen_result env p r s in
        let (u, l) = (or_fail-Good p saved.0).keeps saved.1 v in (u, λ j known. l j (k j known));
  }

  conclude_value-Good : (p : ℕ) (v : EndValue) → Good env (conclude_value env p v)
  unfolding conclude_value
  conclude_value-Good p (error_value e) = fail_with-Good p e
  conclude_value-Good p (save_data r) =
      bind-Good env _ _ (set_status-Good p completed) (λ _. key_or_fail-Good p r)
  conclude_value-Good p (signature_data d) =
      bind-Good env _ _ (set_status-Good p completed)
        (λ _. set_result-Good p (signing_result (signing_result_of d)))
  conclude_value-Good p other_value = set_status-Good p failed

  conclude-Good : (p : ℕ) (event : Event) → Good env (conclude env p event)
  unfolding conclude
  conclude-Good p done = bind-Good env _ _ (set_status-Good p canceled) (λ _. complete_at-Good p)
  conclude-Good p (received v) =
      bind-Good env _ _ (complete_at-Good p) (λ _. conclude_value-Good p v)

  moved-Good :
      (p : ℕ) (event : Event) (o : Operation)
      → Good env (λ s.
        let (r, t) = conclude env p event s in
        (r, (move_completed_operation_to_storage env o.id t).1))
  moved-Good p event o = record {
    keeps = λ s w.
        let (v, k) = (conclude-Good p event).keeps s w in
        let (u, l) = (move-Good env laws o.id).keeps (conclude env p event s).1 v in
        (u, λ j known. l j (k j known));
  }

  -- the end of an operation
  pub watch-Good : (p : ℕ) (event : Event) → Good env (watch env p event)
  unfolding watch
  watch-Good p event = bind-Good env (deref env p) _ (read-Good env p) (moved-Good p event)
