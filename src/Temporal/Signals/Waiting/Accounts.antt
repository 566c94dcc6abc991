-- ===== src/Temporal/Signals/Waiting/Accounts.antt =====
-- Where the signals are that the loops of Waiting receive, and where the loops are.
use mathlib.Core.Path.{subst}
use mathlib.Core.List.{Permᴰ, append_assoc, append-nil, map-append}
use mathlib.Core.List as L
use go_cook.Shared.{◌≡◌, refl, ap, ◌∙◌, sym, String, List, [], ◌∷◌, ◌++◌, arith, map}
use go_cook.Temporal.Signals.{Workflow}
use go_cook.Temporal.Signals.Order.{signals_of, signals_of-append}
use go_cook.Temporal.Signals.Waiting.{
  returned, Listener, Weave, Advance, sends, receives, runs, returns, Runs, start, later, owners,
  tasks, owner_of, task_of,
}

module _ {A : Type 0} where
  -- An item moves between two lists.
  moves-right :
      (front back r : List A) (a : A) → Permᴰ ((front ++ a ∷ back) ++ r) ((front ++ back) ++ a ∷ r)
  moves-right front back r a =
      Permᴰ.trans (L.Permᴰ.append_right r (L.Permᴰ.middle a front back))
        (L.Permᴰ.symm (L.Permᴰ.middle a (front ++ back) r))

  moves-left :
      (l front back : List A) (a : A)
      → Permᴰ (l ++ (front ++ a ∷ back)) (a ∷ (l ++ (front ++ back)))
  moves-left l front back a =
      Permᴰ.trans (L.Permᴰ.append_left l (L.Permᴰ.middle a front back))
        (L.Permᴰ.middle a l (front ++ back))

  grows : (l m r : List A) (a : A) → Permᴰ l (m ++ r) → Permᴰ (l ++ a ∷ []) (m ++ a ∷ r)
  grows l m r a p =
      Permᴰ.trans (L.Permᴰ.append_right (a ∷ []) p)
        (Permᴰ.trans (L.Permᴰ.append_comm (m ++ r) (a ∷ [])) (L.Permᴰ.symm (L.Permᴰ.middle a m r)))

module _ {A B : Type 0} (f : A → B) (p q : List B) (front back l : List A) (a : A) where
  -- An item of a list changes or leaves it.
  changes :
      (b : A)
      → l ≡ front ++ a ∷ back
      → f a ≡ f b
      → Permᴰ p (q ++ map f l)
      → Permᴰ p (q ++ map f (front ++ b ∷ back))
  changes b e same h =
      subst (λ r. Permᴰ p (q ++ r))
        (ap (map f) e
          ∙ map-append f front (a ∷ back)
          ∙ ap (λ x. map f front ++ x ∷ map f back) same
          ∙ sym (map-append f front (b ∷ back)))
        h

  leaves :
      l ≡ front ++ a ∷ back → Permᴰ p (q ++ map f l) → Permᴰ p (f a ∷ (q ++ map f (front ++ back)))
  leaves e h =
      subst (λ r. Permᴰ p (f a ∷ (q ++ r))) (sym (map-append f front back))
        (Permᴰ.trans
          (subst (λ r. Permᴰ p (q ++ r)) (ap (map f) e ∙ map-append f front (a ∷ back)) h)
          (moves-left q (map f front) (map f back) (f a)))

module _ (sdk : Workflow) where
  open sdk use {World, Value}

  -- The signals of each name are received in the order in which they were sent.
  abbrev pub InOrder : Weave sdk → Type 0
  InOrder s =
      (name : String)
      → s.sent name ≡ signals_of (λ l. l.signal_name) name s.received ++ s.channel name

  -- Each loop is idle, or its handler is on its way.
  abbrev pub Placed : List (Listener sdk) → Weave sdk → Type 0
  Placed loops s = Permᴰ loops (s.idle ++ owners sdk s.running)

  -- Each signal that was received was handled to the end, or its handler is on its way.
  abbrev pub Accounted : Weave sdk → Type 0
  Accounted s = Permᴰ s.received (s.finished ++ tasks sdk s.running)

  Advance-InOrder : {s t : Weave sdk} → Advance sdk s t → InOrder s → InOrder t
  Advance-InOrder {s} (sends name v) h k = ground (
    arith,
    h k,
    append_assoc (signals_of (λ l. l.signal_name) k s.received) (s.channel k) (v ∷ []),
  )
  Advance-InOrder {s} (receives front back l v rest i e) h k = ground (
    arith,
    h k,
    signals_of-append (λ m. m.signal_name) k s.received l v,
    append_assoc (signals_of (λ m. m.signal_name) k s.received) (v ∷ []) rest,
    append-nil (signals_of (λ m. m.signal_name) k s.received),
  )
  Advance-InOrder {s} (runs front back task f c e) h k = h k
  Advance-InOrder {s} (returns front back l v x e) h k = h k

  Advance-Placed :
      {s t : Weave sdk} (loops : List (Listener sdk))
      → Advance sdk s t
      → Placed loops s
      → Placed loops t
  Advance-Placed {s} loops (sends name v) h = h
  Advance-Placed {s} loops (receives front back l v rest i e) h =
      Permᴰ.trans (subst (λ idle. Permᴰ loops (idle ++ owners sdk s.running)) i h)
        (moves-right front back (owners sdk s.running) l)
  Advance-Placed {s} loops (runs front back task f c e) h =
      changes (owner_of sdk) loops s.idle front back s.running _ _ e refl h
  Advance-Placed {s} loops (returns front back l v x e) h =
      leaves (owner_of sdk) loops s.idle front back s.running ((l, v), returned x) e h

  Advance-Accounted : {s t : Weave sdk} → Advance sdk s t → Accounted s → Accounted t
  Advance-Accounted {s} (sends name v) h = h
  Advance-Accounted {s} (receives front back l v rest i e) h =
      grows s.received s.finished (tasks sdk s.running) (l, v) h
  Advance-Accounted {s} (runs front back task f c e) h =
      changes (task_of sdk) s.received s.finished front back s.running _ _ e refl h
  Advance-Accounted {s} (returns front back l v x e) h =
      leaves (task_of sdk) s.received s.finished front back s.running ((l, v), returned x) e h

  -- However signals are sent and handlers wait in turn, and whatever they return: the signals of a
  -- name are received in the order in which they were sent, and those not received wait in the
  -- channel; each that was received was handled to the end or its handler is on its way, none lost
  -- and none doubled; and each loop waits for a signal or has one handler on its way.
  pub Runs-Accounted :
      (loops : List (Listener sdk)) (world : World) (s : Weave sdk)
      → Runs sdk loops world s
      → InOrder s × Accounted s × Placed loops s
  unfolding signals_of
  Runs-Accounted loops world _ start =
      (λ name. refl, L.Permᴰ.refl [], L.Permᴰ.symm (L.Permᴰ.append-nil loops))
  Runs-Accounted loops world t (later {s = s} r step) =
      let (order, accounted, placed) = Runs-Accounted loops world s r in
      (
        Advance-InOrder step order,
        Advance-Accounted step accounted,
        Advance-Placed loops step placed,
      )
