-- ===== src/Storage.antt =====
-- internal/storage/leveldb.go: the storage over LevelDB, which is a parameter.
pub mod Refinement
use dknet.Base.{String, Bool, List, Option, none, some, Result, ok, err, Error, not_found, M}
use dknet.P2p.Types.{Bytes}
use dknet.Tss.Env.{Storage}

-- what `Get` gives: a value, leveldb.ErrNotFound, or another error
pub data DbValue : Type 0 where
  present : Bytes → DbValue
  absent : DbValue
  unreadable : Error → DbValue

-- *leveldb.DB over its contents of type `D`; `keys` walks an iterator over a prefix, with the
-- error that it ends by
pub record LevelDb (D : Type 0) : Type 0 where
  pub put : String → Bytes → M D (Unit {0})
  pub get : String → D → DbValue
  pub delete : String → M D (Unit {0})
  pub has : String → D → Result Bool
  pub keys : String → D → List String × Option Error

-- the error of LevelDB for a missing key becomes the storage's own
abbrev pub load_value : DbValue → Result Bytes
load_value (present v) = ok v
load_value absent = err not_found
load_value (unreadable e) = err e

abbrev pub walked : List String × Option Error → Result (List String)
walked (names, none) = ok names
walked (names, some e) = err e

module _ {D : Type 0} (db : LevelDb D) where
  -- Save
  unfoldable pub save_key : String → Bytes → M D (Unit {0})
  save_key key value = db.put key value

  -- Load
  unfoldable pub load_key : String → D → Result Bytes
  load_key key d = load_value (db.get key d)

  -- Delete
  unfoldable pub delete_key : String → M D (Unit {0})
  delete_key key = db.delete key

  -- List
  unfoldable pub list_keys : String → D → Result (List String)
  list_keys prefix d = walked (db.keys prefix d)

  -- Exists
  unfoldable pub exists_key : String → D → Result Bool
  exists_key key d = db.has key d

  -- LevelDBStorage, as the service uses it
  abbrev pub leveldb_storage : Storage D
  leveldb_storage = record { save = save_key; load = load_key }
