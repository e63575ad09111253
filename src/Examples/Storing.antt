-- ===== src/Examples/Storing.antt =====
-- The storage over a list of entries in place of LevelDB.
use dknet.Base.{
  String, true, false, List, [], ◌∷◌, ◌++◌, Option, none, some, ok, ◌≡◌, ◌≢◌, refl, arith, lookup,
  insert, delete, contains, Bool-cases, eq_iff, ap, ◌&&◌, ◌==◌, if◌then◌else◌, lookup-insert,
  lookup-delete, inl, inr, err, not_found,
}
use text.Mathlib.Text.{starts_with}
use dknet.P2p.Types.{Bytes}
use dknet.Samples.{Db}
use dknet.Storage.{DbValue, present, absent, LevelDb}
use dknet.Storage.Refinement.{
  LevelDbLaws, is_some, Request, save_request, load_request, delete_request, exists_request,
  list_request, names, AllowedRun, answers, final, answers-Allowed, value, missing, existing, done,
}

abbrev value_of : Option Bytes → DbValue
value_of none = absent
value_of (some v) = present v

-- the keys with a prefix
unfoldable keys_of : String → Db → List String
keys_of prefix [] = []
keys_of prefix ((k, v) ∷ d) =
    let rest = keys_of prefix d in if starts_with k prefix then k ∷ rest else rest

contains-keys_of :
    (prefix j : String) (d : Db)
    → contains (keys_of prefix d) j ≡ (starts_with j prefix && is_some (lookup j d))
unfolding keys_of contains lookup
contains-keys_of prefix j [] = ground arith
contains-keys_of prefix j ((k, v) ∷ d) = elim (Bool-cases (k == j)) [
  | inl e ↦
      let same : k ≡ j = (eq_iff k j).0 e in
      let shown = contains-keys_of prefix j d in
      let start : starts_with k prefix ≡ starts_with j prefix =
        ap (λ x. starts_with x prefix) same in
      ground (arith, Bool-cases (starts_with j prefix))
  | inr e ↦
      let shown = contains-keys_of prefix j d in ground (arith, Bool-cases (starts_with k prefix))
]

abbrev entries : LevelDb Db
entries = record {
  put = λ k v d. (ok tt, insert k v d);
  get = λ k d. value_of (lookup k d);
  delete = λ k d. (ok tt, delete k d);
  has = λ k d. ok (is_some (lookup k d));
  keys = λ prefix d. (keys_of prefix d, none);
}

present_value : (o : Option Bytes) (v : Bytes) → value_of o ≡ present v → o ≡ some v
present_value none v h = absurd (ground arith)
present_value (some w) v h = ground arith

absent_value : (o : Option Bytes) → value_of o ≡ absent → o ≡ none
absent_value none h = refl
absent_value (some w) h = absurd (ground arith)

readable_value : (o : Option Bytes) (e : dknet.Base.Error) → value_of o ≢ DbValue.unreadable e
readable_value none e h = ground arith
readable_value (some w) e h = ground arith

entries-LevelDbLaws : LevelDbLaws entries
entries-LevelDbLaws = record {
  view = λ d k. lookup k d;
  put_cases = λ k v d. inr (refl, λ j. lookup-insert k j v d);
  delete_cases = λ k d. inr (refl, λ j. lookup-delete k j d);
  present_view = λ k v d h. present_value (lookup k d) v h;
  own_error = λ k e d h. absurd (readable_value (lookup k d) e h);
  absent_view = λ k d h. absent_value (lookup k d) h;
  has_cases = λ k d. inr refl;
  keys_cases = λ prefix d. inr (refl, λ j. contains-keys_of prefix j d);
}

abbrev requests : List Request
requests =
    save_request "operation:1" (7 ∷ [])
    ∷ load_request "operation:1"
    ∷ delete_request "operation:1"
    ∷ exists_request "operation:1"
    ∷ list_request "operation"
    ∷ load_request "operation:1"
    ∷ []

answered_as :
    answers entries requests []
    ≡ done ∷ value (7 ∷ []) ∷ done ∷ existing false ∷ names [] ∷ missing ∷ []
unfolding dknet.Storage.save_key dknet.Storage.load_key dknet.Storage.delete_key
    dknet.Storage.exists_key dknet.Storage.list_keys keys_of insert lookup delete
answered_as = refl

answers-Allowed_example :
    AllowedRun entries []
      (entries-LevelDbLaws.view [])
      requests
      (answers entries requests [])
      (entries-LevelDbLaws.view (final entries requests []))
answers-Allowed_example = answers-Allowed entries entries-LevelDbLaws requests []
