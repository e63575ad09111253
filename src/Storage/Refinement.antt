-- ===== src/Storage/Refinement.antt =====
-- The storage against a map from keys to values that may refuse to answer.
use dknet.Base.{
  String, Bool, true, false, List, [], ◌∷◌, Option, none, some, Result, ok, err, Error, not_found,
  ◌≡◌, ◌≢◌, ◌⊎◌, inl, inr, refl, sym, ◌∙◌, ap, Result-cases, arith, contains, ◌&&◌, ◌==◌, ==_of_eq,
  ==_of_ne, if◌then◌else◌,
}
use text.Mathlib.Text.{starts_with}
use mathlib.Core.Path.{subst}
use dknet.P2p.Types.{Bytes}
use dknet.Tss.Env.{StorageLaws}
use dknet.Storage.{
  DbValue, present, absent, unreadable, LevelDb, load_value, save_key, load_key, delete_key,
  exists_key, list_keys, walked, leveldb_storage,
}

-- the contents as a map
abbrev pub Contents : Type 0
Contents = String → Option Bytes

abbrev pub is_some : Option Bytes → Bool
is_some none = false
is_some (some v) = true

-- What LevelDB documents, for the contents that a state shows: what is put is there and what is
-- deleted is not, for all keys; reads agree with the contents; and what fails changes nothing.
pub record LevelDbLaws {D : Type 0} (db : LevelDb D) : Type 0 where
  pub view : D → Contents
  pub put_cases :
      (k : String) (v : Bytes) (d : D)
      → ((e : Error) × (db.put k v d ≡ (err e, d)))
        ⊎ (((db.put k v d).0 ≡ ok tt)
            × ((j : String) → view (db.put k v d).1 j ≡ (if k == j then some v else view d j)))
  pub delete_cases :
      (k : String) (d : D)
      → ((e : Error) × (db.delete k d ≡ (err e, d)))
        ⊎ (((db.delete k d).0 ≡ ok tt)
            × ((j : String) → view (db.delete k d).1 j ≡ (if k == j then none else view d j)))
  pub present_view : (k : String) (v : Bytes) (d : D) → db.get k d ≡ present v → view d k ≡ some v
  pub own_error : (k : String) (e : Error) (d : D) → db.get k d ≡ unreadable e → e ≢ not_found
  pub absent_view : (k : String) (d : D) → db.get k d ≡ absent → view d k ≡ none
  pub has_cases :
      (k : String) (d : D)
      → ((e : Error) × (db.has k d ≡ err e)) ⊎ (db.has k d ≡ ok (is_some (view d k)))
  pub keys_cases :
      (prefix : String) (d : D)
      → ((e : Error) × ((db.keys prefix d).1 ≡ some e))
        ⊎ (((db.keys prefix d).1 ≡ none)
            × ((j : String)
                → contains (db.keys prefix d).0 j ≡ (starts_with j prefix && is_some (view d j))))

pub data Request : Type 0 where
  save_request : String → Bytes → Request
  load_request : String → Request
  delete_request : String → Request
  exists_request : String → Request
  list_request : String → Request

pub data Answer : Type 0 where
  done : Answer
  value : Bytes → Answer
  missing : Answer
  existing : Bool → Answer
  names : List String → Answer
  failed : Error → Answer
  panicked : Answer

module _ {D : Type 0} (db : LevelDb D) where
  -- LevelDB fails on a request with this error
  pub data Fails (d : D) : Request → Error → Type 0 where
    no_put :
        (k : String) (v : Bytes) (e : Error)
        → (db.put k v d).0 ≡ err e
        → Fails d (save_request k v) e
    no_get : (k : String) (e : Error) → db.get k d ≡ unreadable e → Fails d (load_request k) e
    no_delete : (k : String) (e : Error) → (db.delete k d).0 ≡ err e → Fails d (delete_request k) e
    no_has : (k : String) (e : Error) → db.has k d ≡ err e → Fails d (exists_request k) e
    no_keys :
        (prefix : String) (e : Error)
        → (db.keys prefix d).1 ≡ some e
        → Fails d (list_request prefix) e

  -- The specification, in the state `d` with the contents `m`: only a request on which LevelDB fails
  -- fails, with its error and no change; any other is answered as by a map.
  pub data Allowed (d : D) (m : Contents) : Request → Answer → D → Contents → Type 0 where
    refused : (r : Request) (e : Error) → Fails d r e → Allowed d m r (failed e) d m
    saved :
        (k : String) (v : Bytes) (n : Contents)
        → ((j : String) → n j ≡ (if k == j then some v else m j))
        → Allowed d m (save_request k v) done (db.put k v d).1 n
    loaded : (k : String) (v : Bytes) → m k ≡ some v → Allowed d m (load_request k) (value v) d m
    not_there : (k : String) → m k ≡ none → Allowed d m (load_request k) missing d m
    deleted :
        (k : String) (n : Contents)
        → ((j : String) → n j ≡ (if k == j then none else m j))
        → Allowed d m (delete_request k) done (db.delete k d).1 n
    told :
        (k : String) (b : Bool)
        → b ≡ is_some (m k)
        → Allowed d m (exists_request k) (existing b) d m
    listed :
        (prefix : String) (l : List String)
        → ((j : String) → contains l j ≡ (starts_with j prefix && is_some (m j)))
        → Allowed d m (list_request prefix) (names l) d m

  -- the same for a sequence of requests, through a sequence of states
  pub data AllowedRun : D → Contents → List Request → List Answer → Contents → Type 0 where
    ended : {d : D} {m : Contents} → AllowedRun d m [] [] m
    answered :
        {d e : D} {m n o : Contents} {r : Request} {a : Answer} {rs : List Request}
        {rest : List Answer}
        → Allowed d m r a e n
        → AllowedRun e n rs rest o
        → AllowedRun d m (r ∷ rs) (a ∷ rest) o

abbrev unit_answer : Result (Unit {0}) → Answer
unit_answer (ok u) = done
unit_answer (err e) = failed e
unit_answer Result.panics = panicked

-- a missing key is told from other errors by the error value
abbrev value_answer : Result Bytes → Answer
value_answer (ok v) = value v
value_answer (err Error.not_found) = missing
value_answer (err e) = failed e
value_answer Result.panics = panicked

abbrev bool_answer : Result Bool → Answer
bool_answer (ok b) = existing b
bool_answer (err e) = failed e
bool_answer Result.panics = panicked

abbrev names_answer : Result (List String) → Answer
names_answer (ok l) = names l
names_answer (err e) = failed e
names_answer Result.panics = panicked

walked-failed :
    (l : List String) (o : Option Error) (e : Error) → o ≡ some e → walked (l, o) ≡ err e
walked-failed l none e h = absurd (ground arith)
walked-failed l (some f) e h = ground arith

walked-all : (l : List String) (o : Option Error) → o ≡ none → walked (l, o) ≡ ok l
walked-all l none h = refl
walked-all l (some f) h = absurd (ground arith)

module _ {D : Type 0} (db : LevelDb D) where
  abbrev pub serve : Request → D → Answer × D
  serve (save_request k v) d = (unit_answer (save_key db k v d).0, (save_key db k v d).1)
  serve (load_request k) d = (value_answer (load_key db k d), d)
  serve (delete_request k) d = (unit_answer (delete_key db k d).0, (delete_key db k d).1)
  serve (exists_request k) d = (bool_answer (exists_key db k d), d)
  serve (list_request prefix) d = (names_answer (list_keys db prefix d), d)

  abbrev pub answers : List Request → D → List Answer
  answers [] d = []
  answers (r ∷ rs) d = (serve r d).0 ∷ answers rs (serve r d).1

  abbrev pub final : List Request → D → D
  final [] d = d
  final (r ∷ rs) d = final rs (serve r d).1

  module _ (laws : LevelDbLaws db) where
    get-Allowed :
        (k : String) (d : D) (g : DbValue)
        → db.get k d ≡ g
        → Allowed db d (laws.view d) (load_request k) (value_answer (load_value g)) d (laws.view d)
    get-Allowed k d (present v) e = loaded k v (laws.present_view k v d e)
    get-Allowed k d absent e = not_there k (laws.absent_view k d e)
    get-Allowed k d (unreadable Error.not_found) e = absurd (laws.own_error k not_found d e refl)
    get-Allowed k d (unreadable (Error.errorf t l)) e =
        refused (load_request k) (Error.errorf t l) (no_get k (Error.errorf t l) e)
    get-Allowed k d (unreadable (Error.wrapf t c)) e =
        refused (load_request k) (Error.wrapf t c) (no_get k (Error.wrapf t c) e)
    get-Allowed k d (unreadable (Error.wrap_args t l c)) e =
        refused (load_request k) (Error.wrap_args t l c) (no_get k (Error.wrap_args t l c) e)
    get-Allowed k d (unreadable (Error.external t)) e =
        refused (load_request k) (Error.external t) (no_get k (Error.external t) e)

    serve-Allowed :
        (r : Request) (d : D)
        → Allowed db d (laws.view d) r (serve r d).0 (serve r d).1 (laws.view (serve r d).1)
    unfolding save_key load_key delete_key exists_key list_keys
    serve-Allowed (save_request k v) d = elim (laws.put_cases k v d) [
      | inl (e, same) ↦ rw same (refused (save_request k v) e (no_put k v e (ap (λ x. x.0) same)))
      | inr (fine, changed) ↦ rw fine (saved k v _ changed)
    ]
    serve-Allowed (load_request k) d = get-Allowed k d (db.get k d) refl
    serve-Allowed (delete_request k) d = elim (laws.delete_cases k d) [
      | inl (e, same) ↦ rw same (refused (delete_request k) e (no_delete k e (ap (λ x. x.0) same)))
      | inr (fine, changed) ↦ rw fine (deleted k _ changed)
    ]
    serve-Allowed (exists_request k) d = elim (laws.has_cases k d) [
      | inl (e, same) ↦ rw same (refused (exists_request k) e (no_has k e same))
      | inr same ↦ rw same (told k _ refl)
    ]
    serve-Allowed (list_request prefix) d = elim (laws.keys_cases prefix d) [
      | inl (e, failed_with) ↦
          subst (λ a. Allowed db d (laws.view d) (list_request prefix) a d (laws.view d))
            (sym (ap names_answer (walked-failed (db.keys prefix d).0 _ e failed_with)))
            (refused (list_request prefix) e (no_keys prefix e failed_with))
      | inr (fine, shown) ↦
          subst (λ a. Allowed db d (laws.view d) (list_request prefix) a d (laws.view d))
            (sym (ap names_answer (walked-all (db.keys prefix d).0 _ fine)))
            (listed prefix (db.keys prefix d).0 shown)
    ]

    -- Whatever saves, loads, deletions, listings and questions for a key are asked of the storage in a
    -- row: a request fails only with an error that LevelDB gives for it at that point, and changes
    -- nothing then; any other is answered as by a map from keys to values, with the missing key told
    -- from failures, if LevelDB keeps its laws.
    pub answers-Allowed :
        (rs : List Request) (d : D)
        → AllowedRun db d (laws.view d) rs (answers rs d) (laws.view (final rs d))
    answers-Allowed [] d = ended
    answers-Allowed (r ∷ rs) d = answered (serve-Allowed r d) (answers-Allowed rs (serve r d).1)

    -- the service's use: no read fails
    module _ (readable : (k : String) (e : Error) (d : D) → db.get k d ≢ unreadable e) where
      load_shown : Option Bytes → Result Bytes
      load_shown none = err not_found
      load_shown (some v) = ok v

      load_lem : (k : String) (d : D) → load_key db k d ≡ load_shown (laws.view d k)
      unfolding load_key load_shown
      load_lem k d = go (db.get k d) refl
        where
          go : (g : DbValue) → db.get k d ≡ g → load_value (db.get k d) ≡ load_shown (laws.view d k)
          go (present w) e = rw e (rw (laws.present_view k w d e) refl)
          go absent e = rw e (rw (laws.absent_view k d e) refl)
          go (unreadable f) e = absurd (readable k f d e)

      view-save :
          (k : String) (v : Bytes) (d : D)
          → (save_key db k v d).0 ≡ ok tt
          → (j : String)
          → laws.view (save_key db k v d).1 j ≡ (if k == j then some v else laws.view d j)
      unfolding save_key
      view-save k v d h = elim (laws.put_cases k v d) [
        | inl (e, same) ↦ absurd (ground arith)
        | inr (fine, changed) ↦ changed
      ]

      save_failed :
          (k : String) (v : Bytes) (d : D)
          → (save_key db k v d).0 ≢ ok tt
          → (save_key db k v d).1 ≡ d
      unfolding save_key
      save_failed k v d h = elim (laws.put_cases k v d) [
        | inl (e, same) ↦ rw same refl
        | inr (fine, changed) ↦ absurd (h fine)
      ]

      -- On LevelDB whose reads do not fail, LevelDBStorage keeps the laws that the TSS service
      -- needs of its storage.
      pub leveldb-StorageLaws : StorageLaws (leveldb_storage db)
      unfolding load_shown
      leveldb-StorageLaws = record {
        load-save = λ k v d h.
            load_lem k (save_key db k v d).1
            ∙ rw (view-save k v d h k) (rw (==_of_eq k k refl) refl);
        load-save_ne = λ k j v d other. elim (Result-cases (save_key db k v d).0) [
          | inl bad ↦ ap (λ x. load_key db j x) (save_failed k v d (λ fine. ground arith))
          | inr (u, fine) ↦
              load_lem j (save_key db k v d).1
              ∙ rw (view-save k v d fine j) (rw (==_of_ne k j other) (sym (load_lem j d)))
        ];
        save_failed = save_failed;
      }
