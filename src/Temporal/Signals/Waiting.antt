-- ===== src/Temporal/Signals/Waiting.antt =====
-- The loops of `runAsync` of temporal/signals.go and `ListenSignal` of temporal/workflow.go with
-- handlers that wait: the others run meanwhile.
pub mod Accounts
pub mod Endings
use mathlib.Core.List.{Permᴰ, append_assoc, append-nil, map-append}
use go_cook.Shared.{◌≡◌, refl, ap, ◌∙◌, sym, String, List, [], ◌∷◌, ◌++◌, arith, map, Option, Error}
use go_cook.Temporal.Signals.{Workflow}
use go_cook.Temporal.Signals.Order.{put_at, signals_of, signals_of-append}

module _ (sdk : Workflow) where
  open sdk use {World, Value}

  -- A handler on its way: it has returned, or it runs to its next wait.
  pub data Coroutine : Type 0 where
    returned : Option Error → Coroutine
    runs_on : (World → World) → (World → Coroutine) → Coroutine

  pub record Listener : Type 0 where
    pub signal_name : String
    pub handler : Value → Coroutine

  -- The loops that wait for a signal, and the handlers on their way, each with its loop and signal;
  -- the signals that were received, the first one first, and those that were handled to the end.
  pub record Weave : Type 0 where
    pub world : World
    pub sent : String → List Value
    pub channel : String → List Value
    pub idle : List Listener
    pub running : List ((Listener × Value) × Coroutine)
    pub received : List (Listener × Value)
    pub finished : List (Listener × Value)

  -- A signal is sent, an idle loop receives one and calls its handler, a handler runs to its next
  -- wait, or it has returned, whether with an error or not, and its loop receives again.
  pub data Advance (s : Weave) : Weave → Type 0 where
    sends :
        (name : String) (v : Value)
        → Advance s (record s {
          sent = put_at name (s.sent name ++ v ∷ []) s.sent;
          channel = put_at name (s.channel name ++ v ∷ []) s.channel;
        })
    receives :
        (front back : List Listener) (l : Listener) (v : Value) (rest : List Value)
        → s.idle ≡ front ++ l ∷ back
        → s.channel l.signal_name ≡ v ∷ rest
        → Advance s (record s {
          channel = put_at l.signal_name rest s.channel;
          idle = front ++ back;
          running = ((l, v), l.handler v) ∷ s.running;
          received = s.received ++ (l, v) ∷ [];
        })
    runs :
        (front back : List ((Listener × Value) × Coroutine)) (task : Listener × Value)
        (f : World → World) (k : World → Coroutine)
        → s.running ≡ front ++ (task, runs_on f k) ∷ back
        → Advance s (record s { world = f s.world; running = front ++ (task, k s.world) ∷ back })
    returns :
        (front back : List ((Listener × Value) × Coroutine)) (l : Listener) (v : Value)
        (e : Option Error)
        → s.running ≡ front ++ ((l, v), returned e) ∷ back
        → Advance s (record s {
          idle = l ∷ s.idle;
          running = front ++ back;
          finished = (l, v) ∷ s.finished;
        })

  abbrev pub all_idle : List Listener → World → Weave
  all_idle loops world = record {
    world = world;
    sent = λ _. [];
    channel = λ _. [];
    idle = loops;
    running = [];
    received = [];
    finished = [];
  }

  pub data Runs (loops : List Listener) (world : World) : Weave → Type 0 where
    start : Runs loops world (all_idle loops world)
    later : {s t : Weave} → Runs loops world s → Advance s t → Runs loops world t

  abbrev pub task_of : (Listener × Value) × Coroutine → Listener × Value
  task_of (task, _) = task

  abbrev pub owner_of : (Listener × Value) × Coroutine → Listener
  owner_of ((l, _), _) = l

  -- The loops and the signals of the handlers on their way.
  abbrev pub owners : List ((Listener × Value) × Coroutine) → List Listener
  owners = map owner_of

  abbrev pub tasks : List ((Listener × Value) × Coroutine) → List (Listener × Value)
  tasks = map task_of
