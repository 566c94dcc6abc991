-- ===== src/Temporal/Signals/Handlers.antt =====
-- What the registered handlers and the waits of temporal/signals.go and temporal/workflow.go do.
use go_cook.Shared.{
  ◌≡◌, refl, String, Option, some, List, [], ◌∷◌, ◌++◌, Error, if◌then◌else◌, ◌==◌,
}
use go_cook.Shared.Dict.{lookup, lookup-insert}
use go_cook.Temporal.Signals.{Workflow, SignalConsumer, on, run_async}

module _ (sdk : Workflow) where
  open sdk use {World, Value}

  run_async-append :
      (handler : Value → World → Option Error × World) (early late : List Value) (world : World)
      → run_async sdk handler (early ++ late) world
        ≡ run_async sdk handler late (run_async sdk handler early world)
  unfolding run_async
  run_async-append handler [] late world = refl
  run_async-append handler (v ∷ early) late world =
      run_async-append handler early late (handler v world).1

  -- The last handler registered for a name is the one that runs, other names keep theirs, and the
  -- signals that come later are handled in the state that the earlier ones left.
  pub lookup-on :
      (consumer : SignalConsumer sdk) (name other : String)
      (handler : Value → World → Option Error × World) (early late : List Value) (world : World)
      → (lookup other (on sdk consumer name handler)
          ≡ (if name == other then some (run_async sdk handler) else lookup other consumer))
        × (run_async sdk handler (early ++ late) world
            ≡ run_async sdk handler late (run_async sdk handler early world))
  unfolding on
  lookup-on consumer name other handler early late world = (
    lookup-insert name other (run_async sdk handler) consumer,
    run_async-append handler early late world,
  )
