-- ===== src/Tss/Lifecycle/Rules.antt =====
-- How methods that keep the service well formed are put together.
use mathlib.Core.Path.{subst}
use dknet.Base
use dknet.Base.{
  ℕ, suc, String, Bool, true, false, List, [], ◌∷◌, ◌++◌, Option, none, some, Result, ok, err,
  Error, M, pure, fail, lift, modify, gets, ◌>>=◌, ◌>>◌, ◌≡◌, ◌≢◌, ◌≤◌, ◌⊎◌, inl, inr, refl, arith,
  eq_iff, sym, ap, ◌∙◌, lookup, insert, delete, lookup-insert, lookup-delete, Bool-cases,
  Option-cases, Result-cases, ◌==◌, ◌==ℕ◌, if◌then◌else◌, wrapping,
}
use dknet.Tss.Types.{Operation}
use dknet.Tss.Env.{Env}
use dknet.Tss.Service.{Service, alloc, assign, launch}
use dknet.Tss.Store.{deref}
use dknet.Tss.Lifecycle.{WellFormed, Keeps, Good}

module _ {D : Type 0} (env : Env D) where
  module _ {ℓ κ} {A : Type ℓ} {B : Type κ} where
    continue-Good :
        (r : Result A) (f : A → M (Service D) B) (s t : Service D)
        → WellFormed env t
        → Keeps env s t
        → ((a : A) → Good env (f a))
        → WellFormed env (Base.continue r f t).1 × Keeps env s (Base.continue r f t).1
    continue-Good (ok a) f s t w k good =
        let (v, l) = (good a).keeps t w in (v, λ id known. l id (k id known))
    continue-Good (err e) f s t w k good = (w, k)
    continue-Good Result.panics f s t w k good = (w, k)

    pub bind-Good :
        (m : M (Service D) A) (f : A → M (Service D) B)
        → Good env m
        → ((a : A) → Good env (f a))
        → Good env (m >>= f)
    bind-Good m f good next = record {
      keeps = λ s w. let (v, k) = good.keeps s w in continue-Good (m s).0 f s (m s).1 v k next;
    }

    -- the error of the first part is wrapped, and its state kept
    pub wrap-Good :
        (m : M (Service D) A) (g : Result A → Result B)
        → Good env m
        → Good env (λ s. (g (m s).0, (m s).1))
    wrap-Good m g good = record { keeps = good.keeps }

  module _ {ℓ} {A : Type ℓ} where
    -- a method that changes neither the operations nor the database
    pub same-Good : (m : M (Service D) A) → ((s : Service D) → (m s).1 ≡ s) → Good env m
    same-Good m same = record {
      keeps = λ s w.
          subst (λ (t : Service D). WellFormed env t × Keeps env s t) (sym (same s))
            (w, λ id known. known);
    }

    pub result-Good : (r : Result A) → Good env (lift r)
    result-Good r = record { keeps = λ s w. (w, λ id known. known) }

  module _ (s : Service D) (w : WellFormed env s) where
    -- an operation is changed that exists, and keeps its ID
    pub assign-WellFormed :
        (p : ℕ) (o new : Operation)
        → s.heap p ≡ some o
        → new.id ≡ o.id
        → WellFormed env (assign p new s)
    assign-WellFormed p o new points_to same = record {
      unused = λ q free. ground (arith, w.unused q);
      filed = λ id q found.
          let (x, there, named) = w.filed id q found in
          elim (Bool-cases (q ==ℕ p)) [
            | inl e ↦ (new, ground arith, ground arith)
            | inr e ↦ (x, ground arith, named)
          ];
      stored = w.stored;
    }

    -- an operation is made at the next address
    pub alloc-WellFormed : (o : Operation) → WellFormed env (alloc o s).1
    alloc-WellFormed o = record {
      unused = λ q free. ground (arith, w.unused q);
      filed = λ id q found.
          let (x, there, named) = w.filed id q found in (x, ground (arith, w.unused s.next), named);
      stored = w.stored;
    }

    pub launch-WellFormed : (o : Operation) (minutes : ℕ) → WellFormed env (launch o minutes s).1
    unfolding launch
    launch-WellFormed o minutes = record {
      unused = λ q free. ground (arith, w.unused q);
      filed = λ id q found. elim (Bool-cases (o.id == id)) [
        | inl e ↦
            let here : q ≡ s.next = ground (arith, lookup-insert o.id id s.next s.operations) in
            (o, ground arith, (eq_iff o.id id).0 e)
        | inr e ↦
            let there : lookup id s.operations ≡ some q =
              ground (arith, lookup-insert o.id id s.next s.operations) in
            let (x, placed, named) = w.filed id q there in
            (x, ground (arith, w.unused s.next), named)
      ];
      stored = w.stored;
    }

    pub launch-Keeps : (o : Operation) (minutes : ℕ) → Keeps env s (launch o minutes s).1
    unfolding launch
    launch-Keeps o minutes id (inr stored) = inr stored
    launch-Keeps o minutes id (inl (p, found)) = elim (Bool-cases (o.id == id)) [
      | inl e ↦ inl (s.next, ground (arith, lookup-insert o.id id s.next s.operations))
      | inr e ↦ inl (p, ground (arith, lookup-insert o.id id s.next s.operations))
    ]

  pub launch-Good : (o : Operation) (minutes : ℕ) → Good env (launch o minutes)
  launch-Good o minutes = record {
    keeps = λ s w. (launch-WellFormed s w o minutes, launch-Keeps s w o minutes);
  }

  pub alloc-Good : (o : Operation) → Good env (alloc o)
  alloc-Good o = record { keeps = λ s w. (alloc-WellFormed s w o, λ id known. known) }

  deref-none : (p : ℕ) (s : Service D) → s.heap p ≡ none → deref env p s ≡ (Result.panics, s)
  deref-none p s e = ground arith

  deref-some :
      (p : ℕ) (s : Service D) (o : Operation) → s.heap p ≡ some o → deref env p s ≡ (ok o, s)
  deref-some p s o e = ground arith

  deref-Keeps {ℓ} :
      {A : Type ℓ} (p : ℕ) (f : Operation → M (Service D) A)
      → ((o : Operation) (s : Service D)
          → WellFormed env s
          → s.heap p ≡ some o
          → WellFormed env (f o s).1 × Keeps env s (f o s).1)
      → (s : Service D) → WellFormed env s
      → WellFormed env ((deref env p >>= f) s).1 × Keeps env s ((deref env p >>= f) s).1
  deref-Keeps p f good s w = elim (Option-cases (s.heap p)) [
    | inl e ↦
        subst
          (λ (x : Result Operation × Service D).
            WellFormed env (Base.continue x.0 f x.1).1 × Keeps env s (Base.continue x.0 f x.1).1)
          (sym (deref-none p s e)) (w, λ id known. known)
    | inr (o, e) ↦
        subst
          (λ (x : Result Operation × Service D).
            WellFormed env (Base.continue x.0 f x.1).1 × Keeps env s (Base.continue x.0 f x.1).1)
          (sym (deref-some p s o e)) (good o s w e)
  ]

  -- what is done with the operation at `p`, which exists
  pub deref-Good {ℓ} :
      {A : Type ℓ} (p : ℕ) (f : Operation → M (Service D) A)
      → ((o : Operation) (s : Service D)
          → WellFormed env s
          → s.heap p ≡ some o
          → WellFormed env (f o s).1 × Keeps env s (f o s).1)
      → Good env (deref env p >>= f)
  deref-Good p f good = record { keeps = deref-Keeps p f good }

  -- the operation at `p` is changed, and keeps its ID
  pub update-Good :
      (p : ℕ) (f : Operation → Operation)
      → ((o : Operation) → (f o).id ≡ o.id)
      → Good env (deref env p >>= λ o. modify (assign p (f o)))
  update-Good p f same =
      deref-Good p (λ o. modify (assign p (f o)))
        (λ o s w e. (assign-WellFormed s w p o (f o) e (same o), λ id known. known))

-- The state changes in parts that the property does not read.
pub record IsFramed {D : Type 0} (s t : Service D) : Type 0 where
  pub heap : t.heap ≡ s.heap
  pub operations : t.operations ≡ s.operations
  pub next : t.next ≡ s.next
  pub db : t.db ≡ s.db

module _ {D : Type 0} (env : Env D) where
  pub framed-Good {ℓ} :
      {A : Type ℓ} (m : M (Service D) A) → ((s : Service D) → IsFramed s (m s).1) → Good env m
  framed-Good m framed = record {
    keeps = λ s w.
        let f = framed s in
        (rw (f.heap, f.operations, f.next, f.db) w, λ id known. rw (f.operations, f.db) known);
  }

  -- a value is looked at, and nothing changes
  pub gets-Good {ℓ} : {A : Type ℓ} (f : Service D → A) → Good env (gets f)
  gets-Good f = record { keeps = λ s w. (w, λ id known. known) }

  pub fail-Good {ℓ} : {A : Type ℓ} (e : Error) → Good env (fail {A = A} e)
  fail-Good e = record { keeps = λ s w. (w, λ id known. known) }

  -- a choice by an option or a test
  pub option-Good {ℓ κ} :
      {A : Type ℓ} {B : Type κ} (o : Option A) (m : M (Service D) B) (f : A → M (Service D) B)
      → Good env m
      → ((a : A) → Good env (f a))
      → Good env (elim o [ none ↦ m | some a ↦ f a ])
  option-Good none m f good next = good
  option-Good (some a) m f good next = next a

  pub if-Good {ℓ} :
      {A : Type ℓ} (b : Bool) (m n : M (Service D) A)
      → Good env m
      → Good env n
      → Good env (if b then m else n)
  if-Good true m n good next = good
  if-Good false m n good next = next

  -- the operation at `p` is read
  pub read-Good : (p : ℕ) → Good env (deref env p)
  read-Good p =
      same-Good env (deref env p)
        (λ s. elim (Option-cases (s.heap p)) [ inl e ↦ ground arith | inr e ↦ ground arith ])
