-- ===== src/Tss/Watch/NewKey.antt =====
-- How an operation ends that brings a new key: a key generation stores the key and its result; a
-- resharing does not get that far.
use Prim.Native.String.{◌++◌ as ◌++ˢ◌}
use Prim.Native.Char.{code}
use text.Mathlib.TextLemmas.{cons-append, head-eq_of_cons-eq}
use dknet.Base
use dknet.Base.{
  ℕ, String, Option, none, some, ok, err, Result, suc, ◌≡◌, ◌≢◌, ◌∙◌, refl, arith, true,
  Option-cases, inl, inr, length, ap, sym,
}
use dknet.P2p.Types.{Bytes}
use dknet.Plugin.Encryption.{encrypt, AeadLaws, decrypt-encrypt}
use dknet.Tss.Types.{
  completed, keygen, resharing, Value, keygen_result, keygen_request, resharing_request,
  KeygenRequest, ResharingRequest, KeygenResult, SaveData, save_data, Operation,
}
use dknet.Tss.Env.{Env, StorageLaws}
use dknet.Tss.Service.{assign, Service, find}
use dknet.Tss.Signature.{hex}
use dknet.Tss.Store.{
  operation_key, to_data, save_operation, load_operation, move_completed_operation_to_storage,
  load_key_data, load_key_metadata,
}
use dknet.Tss.Store.RoundTrip.{IsStorable, moved_loads, key, nothing, to_generate, to_reshare}
use dknet.Tss.Watch.{
  received, conclude, watch, save_keygen_result, set_status, complete_at, as_keygen, or_fail,
  key_id_of, key_data_of, public_key_bytes,
}
use dknet.Tss.Watch.Endings.{LastSave, working-save_operation, watch-eq}

module _ {D : Type 0} (env : Env D) (tree : Value → ℕ) (p : ℕ) (o : Operation) (s : Service D)
    (r : SaveData) (points_to : s.heap p ≡ some o) (filed : find o.id s ≡ some p)
    (key_bytes nonce : Bytes) (encoded : env.json.marshal_save_data r ≡ some key_bytes)
    (drawn : env.nonce s.draws ≡ some nonce) where
  -- the last state of the resharing
  abbrev pub without_result : Operation
  without_result = record o { completed_at = some s.clock; status = completed }

  conclude_resharing :
      (req : ResharingRequest)
      → o.request ≡ some (resharing_request req)
      → ((conclude env p (received (save_data r)) s).0 ≡ Base.Result.panics)
        × ((conclude env p (received (save_data r)) s).1.heap p ≡ some without_result)
        × ((conclude env p (received (save_data r)) s).1.operations ≡ s.operations)
  unfolding conclude save_keygen_result encrypt
  conclude_resharing req request = (ground arith, ground arith, ground arith)

  -- A resharing whose party gives a share panics in its goroutine when the share is to be saved, and
  -- the operation is stored as completed, without a result, if saves succeed and encoding/json
  -- decodes the record.
  pub resharing_panics :
      (req : ResharingRequest)
      → LastSave env tree (record o { completed_at = some s.clock; status = completed })
      → o.type ≡ resharing
      → o.request ≡ some (resharing_request req)
      → o.result ≡ none
      → let t = (watch env p (received (save_data r)) s).1 in
        ((watch env p (received (save_data r)) s).0 ≡ Base.Result.panics)
        × (load_operation env o.id t
            ≡ (ok (to_data env (record o { completed_at = some s.clock; status = completed })), t))
  resharing_panics req saves kind request empty =
      let (panicked, placed, same) = conclude_resharing req request in
      let u : Service D = (conclude env p (received (save_data r)) s).1 in
      let still : find o.id u ≡ some p = unfold find in rw same (unfold find in filed) in
      let storable : IsStorable without_result = record {
        ended = refl;
        result = rw empty (nothing o.type);
        request = rw (kind, request) (to_reshare req);
      } in
      let moved =
        moved_loads env tree saves.storage without_result saves.json p u still placed storable
          (working-save_operation env without_result saves.working u refl) in
      rw (watch-eq env p o s (received (save_data r)) points_to) (panicked, moved.2)

operation_key-ne : (env_id tail : String) → operation_key env_id ≢ "0x" ++ˢ tail
unfolding operation_key
operation_key-ne id tail e =
    let heads =
      head-eq_of_cons-eq (sym (cons-append "o" "peration:" id) ∙ (e ∙ cons-append "0" "x" tail)) in
    omega (arith, ap code heads)

module _ {D : Type 0} (env : Env D) (storage_laws : StorageLaws env.storage) where
  -- moving an operation keeps what is stored under the other keys
  move_keeps :
      (id j : String) (p : ℕ) (o : Operation) (s : Service D)
      → find id s ≡ some p
      → s.heap p ≡ some o
      → operation_key o.id ≢ j
      → env.storage.load j (move_completed_operation_to_storage env id s).1.db
        ≡ env.storage.load j s.db
  unfolding move_completed_operation_to_storage save_operation
  move_keeps id j p o s filed points_to other =
      elim (Option-cases (env.json.marshal_operation (to_data env o))) [
        | inl lost ↦ ground arith
        | inr (b, e) ↦ ground (arith, storage_laws.load-save_ne (operation_key o.id) j b s.db)
      ]

-- What saving the key `r` of the request `req` relies on: the codecs round-trip it, and the nonce
-- that is drawn has the cipher's size.
pub record KeySave {D : Type 0} (env : Env D) (req : KeygenRequest) (r : SaveData) (draw : ℕ)
    : Type 0 where
  pub key_bytes : Bytes
  pub nonce : Bytes
  pub encrypted : Bytes
  pub struct_bytes : Bytes
  pub encoded : env.json.marshal_save_data r ≡ some key_bytes
  pub decoded : env.json.unmarshal_save_data key_bytes ≡ some r
  pub drawn : env.nonce draw ≡ some nonce
  pub sized : length nonce ≡ env.encryption.nonce_size
  pub cipher : AeadLaws env.encryption
  pub sealed : encrypt env.encryption (some nonce) key_bytes ≡ ok encrypted
  pub struct_encoded : env.json.marshal_key_data (key_data_of env req encrypted) ≡ some struct_bytes
  pub struct_decoded :
      env.json.unmarshal_key_data struct_bytes ≡ some (key_data_of env req encrypted)

module _ {D : Type 0} (env : Env D) (tree : Value → ℕ) (p : ℕ) (o : Operation) (s : Service D)
    (r : SaveData) (points_to : s.heap p ≡ some o) (filed : find o.id s ≡ some p)
    (req : KeygenRequest) (k : KeySave env req r s.draws) where
  abbrev new_key_result : KeygenResult
  new_key_result = record { public_key = hex (public_key_bytes env r); key_id = key_id_of env r }

  -- the last state of a key generation
  abbrev pub with_key : Operation
  with_key = record o {
    completed_at = some s.clock;
    status = completed;
    result = some (keygen_result new_key_result);
  }

  -- the operation when its share is about to be saved
  abbrev marked : Operation
  marked = record o { completed_at = some s.clock; status = completed }

  -- the service at that point
  abbrev before : Service D
  before = (set_status env p completed (complete_at env p s).1).1

  before-marked : before.heap p ≡ some marked
  before-marked = ground arith

  before-db : before.db ≡ s.db
  before-db = ground arith

  before-operations : before.operations ≡ s.operations
  before-operations = ground arith

  before-draws : before.draws ≡ s.draws
  before-draws = ground arith

  conclude-eq :
      conclude env p (received (save_data r)) s
      ≡ or_fail env p (save_keygen_result env p r before).0 (save_keygen_result env p r before).1
  unfolding conclude
  conclude-eq = ground arith

  asked : (u : Operation) → u.request ≡ some (keygen_request req) → as_keygen u.request ≡ ok req
  unfolding as_keygen
  asked u request = rw request refl

  saved-eq :
      (v : Service D) (u : Operation)
      → v.heap p ≡ some u
      → u.request ≡ some (keygen_request req)
      → v.draws ≡ s.draws
      → (env.storage.save (key_id_of env r) k.struct_bytes v.db).0 ≡ ok tt
      → let t = record v {
        draws = suc v.draws;
        db = (env.storage.save (key_id_of env r) k.struct_bytes v.db).1;
      } in
        save_keygen_result env p r v
        ≡ (ok tt, assign p (record u { result = some (keygen_result new_key_result) }) t)
  unfolding save_keygen_result
  saved-eq v u at_p request same written = rw k.encoded (
      rw (ap env.nonce same ∙ k.drawn) (
        rw k.sealed
          (rw at_p (rw (asked u request) (rw k.struct_encoded (rw written (rw at_p refl)))))))

  conclude_keygen :
      LastSave env tree with_key
      → o.request ≡ some (keygen_request req)
      → let u = (conclude env p (received (save_data r)) s).1 in
        ((conclude env p (received (save_data r)) s).0 ≡ ok tt)
        × (u.heap p ≡ some with_key)
        × (u.operations ≡ s.operations)
        × (u.db ≡ (env.storage.save (key_id_of env r) k.struct_bytes s.db).1)
  conclude_keygen saves request =
      let e =
        saved-eq before marked before-marked request before-draws (saves.working.saves _ _ _) in
      rw conclude-eq (
        rw e (
          refl,
          ground arith,
          before-operations,
          ap (λ d. (env.storage.save (key_id_of env r) k.struct_bytes d).1) before-db,
        ))

  load_saved_key :
      (t : Service D)
      → env.storage.load (key_id_of env r) t.db ≡ ok k.struct_bytes
      → (load_key_data env (key_id_of env r) t).0 ≡ ok (key_data_of env req k.encrypted, r)
  unfolding load_key_data load_key_metadata
  load_saved_key t loaded =
      let e1 = k.struct_decoded in
      let e2 = k.decoded in
      let e3 =
        decrypt-encrypt env.encryption k.cipher k.nonce k.key_bytes k.encrypted k.sized k.sealed in
      ground arith

  key_id-ne : operation_key o.id ≢ key_id_of env r
  unfolding key_id_of
  key_id-ne = operation_key-ne o.id _

  -- A key generation whose party gives a share is stored as completed, with the public key and the
  -- key ID as its result; the share is stored under that ID, and loading it decrypts to the same
  -- share. What is relied on: saves succeed and the codecs and the cipher undo themselves.
  pub keygen_ends :
      LastSave env tree with_key
      → o.type ≡ keygen
      → o.request ≡ some (keygen_request req)
      → let t = (watch env p (received (save_data r)) s).1 in
        ((watch env p (received (save_data r)) s).0 ≡ ok tt)
        × (load_operation env o.id t ≡ (ok (to_data env with_key), t))
        × ((load_key_data env (key_id_of env r) t).0 ≡ ok (key_data_of env req k.encrypted, r))
  keygen_ends saves kind request =
      let (done, placed, same, db) = conclude_keygen saves request in
      let u : Service D = (conclude env p (received (save_data r)) s).1 in
      let still : find o.id u ≡ some p = unfold find in rw same (unfold find in filed) in
      let storable : IsStorable with_key = record {
        ended = refl;
        result = rw kind (key new_key_result);
        request = rw (kind, request) (to_generate req);
      } in
      let moved =
        moved_loads env tree saves.storage with_key saves.json p u still placed storable
          (working-save_operation env with_key saves.working u refl) in
      let kept =
        move_keeps env saves.storage o.id (key_id_of env r) p with_key u still placed key_id-ne in
      let written =
        saves.storage.load-save (key_id_of env r) k.struct_bytes s.db (saves.working.saves _ _ _) in
      rw (watch-eq env p o s (received (save_data r)) points_to)
        (done, moved.2, load_saved_key _ (kept ∙ (rw db written)))
