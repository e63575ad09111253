-- ===== src/Tss/Watch/Running.antt =====
-- An operation that runs: what starting it does, and that it cannot move to storage.
use dknet.Base.{ℕ, false, [], ◌∷◌, ◌++◌, some, ok, err, Error, errorf, wrapf, str, ◌≡◌, refl, arith}
use dknet.Tss.Types.{
  Operation, in_progress, is_terminal, is_completed, status_text, start_party, outgoing_messages,
}
use dknet.Tss.Env.{Env}
use dknet.Tss.Service.{Service, find}
use dknet.Tss.Store.{to_data, save_operation, move_completed_operation_to_storage}
use dknet.Tss.Watch.{run}

module _ {D : Type 0} (env : Env D) (p : ℕ) (o : Operation) where
  -- the error of `moveCompletedOperationToStorage` for an operation with no end status
  abbrev not_completed : Error
  not_completed = wrapf "failed to save operation to storage" (
      errorf "operation %s is not completed (status: %s)"
        (str o.id ∷ str (status_text o.status) ∷ []))

  -- An operation without an end status cannot move to storage: the attempt fails and changes
  -- neither memory nor storage.
  pub move_refused :
      (s : Service D)
      → find o.id s ≡ some p
      → s.heap p ≡ some o
      → is_terminal o.status ≡ false
      → move_completed_operation_to_storage env o.id s ≡ (
        err (
            wrapf "failed to save operation to storage" (
              errorf "operation %s is not completed (status: %s)"
                (str o.id ∷ str (status_text o.status) ∷ []))),
        s,
      )
  unfolding move_completed_operation_to_storage save_operation
  move_refused s filed points_to active =
      let w : is_completed (to_data env o) ≡ false = unfold to_data is_completed in active in
      ground arith

  abbrev running : Operation
  running = record o { status = in_progress }

  run-eq :
      (s : Service D)
      → s.heap p ≡ some o
      → ((run env p s).0 ≡ ok tt)
        × ((run env p s).1.heap p ≡ some running)
        × ((run env p s).1.operations ≡ s.operations)
        × ((run env p s).1.db ≡ s.db)
        × ((run env p s).1.tasks ≡ (s.tasks ++ start_party p ∷ []) ++ outgoing_messages p ∷ [])
  unfolding run
  run-eq s points_to = (ground arith, ground arith, ground arith, ground arith, ground arith)

  in_progress-refused :
      (t : Service D)
      → find o.id t ≡ some p
      → t.heap p ≡ some running
      → move_completed_operation_to_storage env o.id t ≡ (
        err (
            wrapf "failed to save operation to storage" (
              errorf "operation %s is not completed (status: %s)"
                (str o.id ∷ str (status_text in_progress) ∷ []))),
        t,
      )
  unfolding move_completed_operation_to_storage save_operation
  in_progress-refused t filed placed =
      let w : is_completed (to_data env running) ≡ false = unfold to_data is_completed in refl in
      ground arith

  -- The goroutine `runOperation` marks its operation as in progress whatever its status was. When
  -- it comes after the end status was set and before the move to storage, the move fails: the
  -- operation stays in memory, in progress, and nothing is stored.
  pub late_run_blocks_move :
      (s : Service D)
      → find o.id s ≡ some p
      → s.heap p ≡ some o
      → let t = (run env p s).1 in
        ((e : Error) × (move_completed_operation_to_storage env o.id t ≡ (err e, t)))
        × (find o.id t ≡ some p)
        × (t.heap p ≡ some (record o { status = in_progress }))
        × (t.db ≡ s.db)
  late_run_blocks_move s filed points_to =
      let (_, placed, same, stored, _) = run-eq s points_to in
      let still : find o.id (run env p s).1 ≡ some p =
        unfold find in rw same (unfold find in filed) in
      ((_, in_progress-refused (run env p s).1 still placed), still, placed, stored)
