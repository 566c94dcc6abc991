-- ===== src/Temporal/Signals/Loops.antt =====
-- The loops that `runAsync` of temporal/signals.go and `ListenSignal` of temporal/workflow.go start,
-- side by side in one workflow. A handler that waits itself would let others run meanwhile: here each
-- handles its signal in one step.
use mathlib.Core.List.{Memᴰ, append_assoc, append-nil}
use go_cook.Shared.{◌≡◌, refl, String, List, [], ◌∷◌, ◌++◌, arith, map, All}
use go_cook.Temporal.Signals.Order.{put_at, signals_of, signals_of-append}
use go_cook.Temporal.Signals.{Workflow, Loop, run_async}

module _ (sdk : Workflow) where
  open sdk use {World, Value}

  -- The signals that have been sent, those that no loop has received, and those that were handled,
  -- with the loop that did, the first one first.
  pub record Flow : Type 0 where
    pub world : World
    pub sent : String → List Value
    pub channel : String → List Value
    pub handled : List (Loop sdk × Value)

  -- A signal is sent, or one of the loops receives the first of its channel and handles it.
  pub data Turn (loops : List (Loop sdk)) (s : Flow) : Flow → Type 0 where
    sends :
        (name : String) (v : Value)
        → Turn loops s (record s {
          sent = put_at name (s.sent name ++ v ∷ []) s.sent;
          channel = put_at name (s.channel name ++ v ∷ []) s.channel;
        })
    handles :
        (l : Loop sdk) (v : Value) (rest : List Value)
        → Memᴰ l loops
        → s.channel l.signal_name ≡ v ∷ rest
        → Turn loops s (record s {
          world = (l.handler v s.world).1;
          channel = put_at l.signal_name rest s.channel;
          handled = s.handled ++ (l, v) ∷ [];
        })

  abbrev pub at_first : World → Flow
  at_first world = record { world = world; sent = λ _. []; channel = λ _. []; handled = [] }

  pub data Reach (loops : List (Loop sdk)) (world : World) : Flow → Type 0 where
    start : Reach loops world (at_first world)
    later : {s t : Flow} → Reach loops world s → Turn loops s t → Reach loops world t

  -- What was handled of the signals of one name, and what the handlers made of the world.
  abbrev pub of_name : String → List (Loop sdk × Value) → List Value
  of_name = signals_of (λ l. l.signal_name)

  pub replay : List (Loop sdk × Value) → World → World
  replay [] world = world
  replay ((l, v) ∷ rest) world = replay rest (l.handler v world).1

  replay-append :
      (early : List (Loop sdk × Value)) (l : Loop sdk) (v : Value) (world : World)
      → replay (early ++ (l, v) ∷ []) world ≡ (l.handler v (replay early world)).1
  unfolding replay
  replay-append [] l v world = refl
  replay-append ((m, u) ∷ early) l v world = replay-append early l v (m.handler u world).1

  -- Each signal that was sent is handled once, or still waits in its channel, in the order of sending.
  abbrev pub InOrder : Flow → Type 0
  InOrder s = (name : String) → s.sent name ≡ of_name name s.handled ++ s.channel name

  Turn-InOrder : {loops : List (Loop sdk)} {s t : Flow} → Turn loops s t → InOrder s → InOrder t
  Turn-InOrder {s} (sends name v) h k =
      ground (arith, h k, append_assoc (of_name k s.handled) (s.channel k) (v ∷ []))
  Turn-InOrder {s} (handles l v rest m e) h k = ground (
    arith,
    h k,
    signals_of-append (λ m. m.signal_name) k s.handled l v,
    append_assoc (of_name k s.handled) (v ∷ []) rest,
    append-nil (of_name k s.handled),
  )

  Reach-InOrder :
      {loops : List (Loop sdk)} {world : World} {s : Flow} → Reach loops world s → InOrder s
  unfolding signals_of
  Reach-InOrder start name = refl
  Reach-InOrder (later r st) name = Turn-InOrder st (Reach-InOrder r) name

  Reach-replay :
      {loops : List (Loop sdk)} {world : World} {s : Flow}
      → Reach loops world s
      → s.world ≡ replay s.handled world
  unfolding replay
  Reach-replay start = refl
  Reach-replay (later {s = s} r (sends name v)) = Reach-replay r
  Reach-replay {world} (later {s = s} r (handles l v rest m e)) =
      ground (arith, Reach-replay r, replay-append s.handled l v world)

  -- Only loops of the workflow handle signals.
  abbrev pub ByLoops : List (Loop sdk) → List (Loop sdk × Value) → Type 0
  ByLoops loops = All (λ entry. Memᴰ entry.0 loops)

  ByLoops-append :
      {loops : List (Loop sdk)} (early : List (Loop sdk × Value)) {l : Loop sdk} (v : Value)
      → ByLoops loops early
      → Memᴰ l loops
      → ByLoops loops (early ++ (l, v) ∷ [])
  ByLoops-append [] v h m = (m, tt)
  ByLoops-append (_ ∷ early) v h m = (h.0, ByLoops-append early v h.1 m)

  Reach-ByLoops :
      {loops : List (Loop sdk)} {world : World} {s : Flow}
      → Reach loops world s
      → ByLoops loops s.handled
  Reach-ByLoops start = tt
  Reach-ByLoops (later r (sends name v)) = Reach-ByLoops r
  Reach-ByLoops (later {s = s} r (handles l v rest m e)) =
      ByLoops-append s.handled v (Reach-ByLoops r) m

  -- However signals are sent and the loops take turns, of each name the signals that were handled are
  -- the first that were sent, in this order, and the others wait in the channel: none is lost,
  -- doubled or overtaken, also where a handler returns an error. They were handled by loops of the
  -- workflow, and the world is what their handlers have made of it, one after the other.
  pub Reach-Delivers :
      (loops : List (Loop sdk)) (world : World) (s : Flow) (name : String)
      → Reach loops world s
      → (s.sent name ≡ of_name name s.handled ++ s.channel name)
        × ByLoops loops s.handled
        × (s.world ≡ replay s.handled world)
  Reach-Delivers loops world s name r = (Reach-InOrder r name, Reach-ByLoops r, Reach-replay r)

  -- A loop that handles all signals makes of the world what `runAsync` makes of it by itself.
  replay-run_async :
      (l : Loop sdk) (vs : List Value) (world : World)
      → replay (map (λ v. (l, v)) vs) world ≡ run_async sdk l.handler vs world
  unfolding replay run_async
  replay-run_async l [] world = refl
  replay-run_async l (v ∷ vs) world = replay-run_async l vs (l.handler v world).1
