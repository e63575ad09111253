-- ===== src/Tss/Tasks.antt =====
-- The goroutines that `SafeGo` of internal/common/util.go starts in internal/tss, and the steps of
-- the service: a request, a message from the network, or a goroutine that was started.
use dknet.Base.{
  ℕ, suc, String, List, ◌∷◌, ◌++◌, Option, none, some, Result, ok, err, external, ℤ, M, pure, lift,
  ◌>>=◌, ◌≡◌, ◌≢◌,
}
use dknet.P2p.Types.{Bytes, Message}
use dknet.Tss.Types.{
  Party, error_value, SyncData, Task, watch_operation, run_operation, start_party,
  outgoing_messages, broadcast_sync, update_party,
}
use dknet.Tss.Env.{Env}
use dknet.Tss.Service.{Service}
use dknet.Tss.Store.{deref}
use dknet.Tss.Broadcast.{sync_operation}
use dknet.Tss.Keygen.{start_keygen}
use dknet.Tss.Sign.{start_signing}
use dknet.Tss.Resharing.{start_resharing}
use dknet.Tss.Watch.{Event, watch, run}
use dknet.Tss.Handle.{OutMessage, handle_message, handle_outgoing_messages, deliver, offer}

module _ {D : Type 0} (env : Env D) where
  -- what the goroutine sends to the channel; a panic of the source's own is a run-time error
  abbrev pub offer_result : ℕ → Result (Unit {0}) → M (Service D) (Unit {0})
  offer_result p (ok u) = pure tt
  offer_result p (err e) = offer env p (error_value e)
  offer_result p Result.panics = offer env p (error_value (external "runtime"))

  -- SafeGo(operation.EndCh, f)
  unfoldable pub safe_go : ℕ → M (Service D) (Unit {0}) → M (Service D) (Unit {0})
  safe_go p f s = offer_result p (f s).0 (f s).1

  -- Party.Start() of the operation's party, which panics without one
  abbrev pub party_start : Option Party → Result (Unit {0})
  party_start none = Result.panics
  party_start (some party) = elim (env.lib.start party) [ none ↦ ok tt | some e ↦ err e ]

  -- the two goroutines of `runOperation`; the second sends the messages that the party offers
  -- before the context is done
  unfoldable pub start_operation_party : ℕ → M (Service D) (Unit {0})
  start_operation_party p = safe_go p (do o ← deref env p; lift (party_start o.party))

  unfoldable pub send_outgoing : ℕ → List OutMessage → M (Service D) (Unit {0})
  send_outgoing p msgs = safe_go p (do o ← deref env p; handle_outgoing_messages env o msgs)

  -- the goroutine that announces a started operation
  unfoldable pub announce : ℕ → SyncData → M (Service D) (Unit {0})
  announce p d = safe_go p (sync_operation env d)

  -- What a goroutine does, with what it receives: the event of a watcher, and the messages that a
  -- party offers.
  unfoldable pub perform : Event → List OutMessage → Task → M (Service D) (Unit {0})
  unfolding start_operation_party send_outgoing announce
  perform event msgs (watch_operation p minutes) = watch env p event
  perform event msgs (run_operation p) = run env p
  perform event msgs (start_party p) = start_operation_party p
  perform event msgs (outgoing_messages p) = send_outgoing p msgs
  perform event msgs (broadcast_sync p d) = announce p d
  perform event msgs (update_party p msg from_party) = deliver env p msg from_party

  -- One step of the service while its process lives. A message is handled with the views that
  -- `getOperation` has of the service, and a panic in it or in a request over HTTP is recovered; a
  -- goroutine that runs is no longer among the started ones. A goroutine that panics beyond its own
  -- recovery ends the process, with all that is in memory: no step comes after it, so it is none
  -- here. The same holds of a request over gRPC that panics.
  pub data Step (s : Service D) : Service D → Type 0 where
    keygen_step :
        (id : String) (threshold : ℤ) (participants : List String)
        → Step s (start_keygen env id threshold participants s).1
    signing_step :
        (id : String) (message : Bytes) (key_id : String) (participants : List String)
        → Step s (start_signing env id message key_id participants s).1
    resharing_step :
        (id key_id : String) (threshold : ℤ) (participants : List String)
        → Step s (start_resharing env id key_id threshold participants s).1
    message_step :
        (views : ℕ → Service D) (msg : Message) → Step s (handle_message env views msg s).1
    task_step :
        (before after : List Task) (t : Task) (event : Event) (msgs : List OutMessage)
        → s.tasks ≡ before ++ t ∷ after
        → (perform event msgs t (record s { tasks = before ++ after })).0 ≢ Result.panics
        → Step s (perform event msgs t (record s { tasks = before ++ after })).1
    clock_step : Step s (record s { clock = suc s.clock })

  -- any number of steps
  pub data Steps (s : Service D) : Service D → Type 0 where
    here : Steps s s
    later : {t u : Service D} → Steps s t → Step t u → Steps s u
