-- ===== src/Tss/Lifecycle.antt =====
-- The life of an operation: what holds of the service in every state that it can reach.
pub mod Rules
pub mod Saving
pub mod Moving
pub mod Starts
pub mod Signings
pub mod Resharings
pub mod Messages
pub mod Watching
pub mod Goroutines
use dknet.Base
use dknet.Base.{
  ℕ, suc, String, Bool, true, false, List, [], ◌∷◌, ◌++◌, Option, none, some, Result, ok, err,
  Error, M, pure, fail, lift, modify, gets, ◌>>=◌, ◌>>◌, ◌≡◌, ◌≢◌, ◌≤◌, ◌⊎◌, inl, inr, refl, arith,
  eq_iff, lookup, insert, delete, lookup-insert, lookup-delete, Bool-cases, Option-cases,
  Result-cases, ◌==◌, ◌==ℕ◌,
}
use dknet.P2p.Types.{Bytes}
use dknet.Tss.Types.{Operation, is_terminal}
use dknet.Tss.Env.{Env, StorageLaws}
use dknet.Tss.Service.{Service, alloc, assign, launch}
use dknet.Tss.Store.{operation_key, to_data, deref}

module _ {D : Type 0} (env : Env D) where
  -- The state is well formed: addresses from `next` on are free, every filed operation exists under
  -- its own ID, and what is stored under an operation's key is the record of an operation with that
  -- ID that has ended.
  pub record IsWellFormed (heap : ℕ → Option Operation) (operations : List (String × ℕ)) (next : ℕ)
      (db : D) : Type 0 where
    pub unused : (p : ℕ) → next ≤ p → heap p ≡ none
    pub filed :
        (id : String) (p : ℕ)
        → lookup id operations ≡ some p
        → (o : Operation) × (heap p ≡ some o) × (o.id ≡ id)
    pub stored :
        (id : String) (b : Bytes)
        → env.storage.load (operation_key id) db ≡ ok b
        → (o : Operation) × (o.id ≡ id)
          × (is_terminal o.status ≡ true)
          × (env.json.marshal_operation (to_data env o) ≡ some b)

  abbrev pub WellFormed : Service D → Type 0
  WellFormed s = IsWellFormed s.heap s.operations s.next s.db

  -- An operation is known by its ID: it is active, or its record is stored.
  abbrev pub Known : String → Service D → Type 0
  Known id s =
      ((p : ℕ) × (lookup id s.operations ≡ some p))
      ⊎ ((b : Bytes) × (env.storage.load (operation_key id) s.db ≡ ok b))

  -- What was known stays known.
  abbrev pub Keeps : Service D → Service D → Type 0
  Keeps s t = (id : String) → Known id s → Known id t

  -- a method keeps a state well formed, and what is known known
  pub record Good {ℓ} {A : Type ℓ} (m : M (Service D) A) : Type ℓ where
    pub keeps : (s : Service D) → WellFormed s → WellFormed (m s).1 × Keeps s (m s).1
