-- ===== src/Temporal/Signals/Waiting/Endings.antt =====
-- That the handlers and the loops of Waiting can always come to an end of their work.
use mathlib.Core.Path.{subst}
use mathlib.Core.List.{Permᴰ, Memᴰ, append-nil}
use go_cook.Shared.{◌≡◌, refl, ap, ◌∙◌, sym, List, [], ◌∷◌, ◌++◌, arith}
use go_cook.Temporal.Signals.{Workflow}
use go_cook.Temporal.Signals.Order.{signals_of}
use go_cook.Temporal.Signals.Waiting.{
  Coroutine, returned, runs_on, Listener, Weave, receives, runs, returns, Runs, later, owners,
  tasks,
}
use go_cook.Temporal.Signals.Waiting.Accounts.{Runs-Accounted}

module _ {A : Type 0} where
  moved : {l m : List A} {a : A} → Permᴰ l m → Memᴰ a l → Memᴰ a m
  moved Permᴰ.nil h = h
  moved (Permᴰ.cons e p) (Memᴰ.head q) = Memᴰ.head (q ∙ e)
  moved (Permᴰ.cons e p) (Memᴰ.tail h) = Memᴰ.tail (moved p h)
  moved (Permᴰ.swap e f) (Memᴰ.head q) = Memᴰ.tail (Memᴰ.head (q ∙ e))
  moved (Permᴰ.swap e f) (Memᴰ.tail (Memᴰ.head q)) = Memᴰ.head (q ∙ f)
  moved (Permᴰ.swap e f) (Memᴰ.tail (Memᴰ.tail h)) = Memᴰ.tail (Memᴰ.tail h)
  moved (Permᴰ.trans p q) h = moved q (moved p h)

  found : {a : A} {l : List A} → Memᴰ a l → (front back : List A) × (l ≡ front ++ a ∷ back)
  found (Memᴰ.head {xs} e) = ([], xs, ap (λ y. y ∷ xs) (sym e))
  found (Memᴰ.tail {x} h) = let (front, back, e) = found h in (x ∷ front, back, ap (λ l. x ∷ l) e)

module _ (sdk : Workflow) (loops : List (Listener sdk)) (world : sdk.World) where
  open sdk use {Value}

  -- A later state in which these handlers are on their way, and as many signals have been sent.
  abbrev pub Goes : Weave sdk → List ((Listener sdk × Value) × Coroutine sdk) → Weave sdk → Type 0
  Goes s running t = Runs sdk loops world t × (t.running ≡ running) × (t.sent ≡ s.sent)

  return_one :
      (c : Coroutine sdk) (l : Listener sdk) (v : Value)
      (rest : List ((Listener sdk × Value) × Coroutine sdk)) (s : Weave sdk)
      → Runs sdk loops world s
      → s.running ≡ ((l, v), c) ∷ rest
      → (t : Weave sdk) × Goes s rest t × (t.channel ≡ s.channel)
  return_one (returned e) l v rest s r h =
      (_, (later r (returns [] rest l v e h), refl, refl), refl)
  return_one (runs_on f k) l v rest s r h =
      return_one (k s.world) l v rest _ (later r (runs [] rest (l, v) f k h)) refl

  return_all :
      (running : List ((Listener sdk × Value) × Coroutine sdk)) (s : Weave sdk)
      → Runs sdk loops world s
      → s.running ≡ running
      → (t : Weave sdk) × Goes s [] t × (t.channel ≡ s.channel)
  return_all [] s r h = (s, (r, h, refl), refl)
  return_all (((l, v), c) ∷ rest) s r h =
      let (t, (reached, ended, sent), channel) = return_one c l v rest s r h in
      let (u, (reached', ended', sent'), channel') = return_all rest t reached ended in
      (u, (reached', ended', sent' ∙ sent), channel' ∙ channel)

  module _ (l : Listener sdk) (among : Memᴰ l loops) where
    idle-found :
        (s : Weave sdk)
        → Runs sdk loops world s
        → s.running ≡ []
        → (front back : List (Listener sdk)) × (s.idle ≡ front ++ l ∷ back)
    idle-found s r h =
        let (_, _, placed) = Runs-Accounted sdk loops world s r in
        let idle = subst (λ running. Permᴰ loops (s.idle ++ owners sdk running)) h placed in
        found (moved (subst (Permᴰ loops) (append-nil s.idle) idle) among)

    catch_up :
        (waiting : List Value) (s : Weave sdk)
        → Runs sdk loops world s
        → s.running ≡ []
        → s.channel l.signal_name ≡ waiting
        → (t : Weave sdk) × Goes s [] t × (t.channel l.signal_name ≡ [])
    catch_up [] s r h e = (s, (r, h, refl), e)
    catch_up (v ∷ rest) s r h e =
        let (front, back, i) = idle-found s r h in
        let (t, (reached, ended, sent), channel) =
          return_one (l.handler v) l v s.running _ (later r (receives front back l v rest i e))
            refl in
        let waiting : t.channel l.signal_name ≡ rest =
          ground (arith, ap (λ f. f l.signal_name) channel) in
        let (u, (reached', ended', sent'), empty) = catch_up rest t reached (ended ∙ h) waiting in
        (u, (reached', ended', sent' ∙ sent), empty)

    -- Wherever a run has come to, with handlers that wait in turn and finitely often, every handler can
    -- still come to its end and a loop catch up, while no signal is sent: then all signals that were
    -- received have been handled to the end, and for the loop those are all that were sent under its
    -- name, received in the order of sending.
    pub Runs-Finished :
        (s : Weave sdk)
        → Runs sdk loops world s
        → (t : Weave sdk) × Goes s [] t
          × Permᴰ t.received t.finished
          × (signals_of (λ m. m.signal_name) l.signal_name t.received ≡ s.sent l.signal_name)
    Runs-Finished s r =
        let (t, (reached, ended, sent), channel) = return_all s.running s r refl in
        let (u, (reached', ended', sent'), empty) =
          catch_up (t.channel l.signal_name) t reached ended refl in
        let (order, accounted, _) = Runs-Accounted sdk loops world u reached' in
        let done =
          subst (λ running. Permᴰ u.received (u.finished ++ tasks sdk running)) ended' accounted in
        let received = signals_of (λ m. m.signal_name) l.signal_name u.received in
        (
          u,
          (reached', ended', sent' ∙ sent),
          subst (Permᴰ u.received) (append-nil u.finished) done,
          ground (
            arith,
            order l.signal_name,
            empty,
            ap (λ f. f l.signal_name) (sent' ∙ sent),
            append-nil received,
          ),
        )
