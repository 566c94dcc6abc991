-- ===== src/Cronjob/Exclusion.antt =====
-- What the mutex of cronjob/scheduler.go gives to concurrent calls: one start at a time, and no call
-- of `Run` or `Stop` is left hanging.
use go_cook.Shared.{
  ◌≡◌, refl, ◌⊎◌, inl, inr, ℕ, suc, ◌+◌, ◌≤◌, true, false, List, [], ◌∷◌, All, arith, Bool-cases,
}
use go_cook.Cronjob.{Library, Scheduler, stop}
use go_cook.Cronjob.Callers.{
  Pc, run_called, run_locked, run_started, run_returned, stop_called, stop_returned, Move, lock,
  start, unlock, halt, Step, here, there, Steps, none_yet, advance, IsFresh, IsReturned,
}

-- Between `Lock` and `Unlock`.
abbrev pub inside : Pc → ℕ
inside run_locked = 1
inside run_started = 1
inside _ = 0

-- The steps that a call still has to take.
abbrev pub work : Pc → ℕ
work run_called = 3
work run_locked = 2
work run_started = 1
work stop_called = 1
work _ = 0

abbrev pub total : (Pc → ℕ) → List Pc → ℕ
total w [] = 0
total w (p ∷ rest) = w p + total w rest

inside-fresh : (calls : List Pc) → All IsFresh calls → total inside calls ≡ 0
inside-fresh [] h = refl
inside-fresh (run_called ∷ rest) h = omega (arith, inside-fresh rest h.1)
inside-fresh (stop_called ∷ rest) h = omega (arith, inside-fresh rest h.1)
inside-fresh (run_locked ∷ rest) h = absurd h.0
inside-fresh (run_started ∷ rest) h = absurd h.0
inside-fresh (run_returned ∷ rest) h = absurd h.0
inside-fresh (stop_returned e ∷ rest) h = absurd h.0

inside-idle : (calls : List Pc) → total work calls ≡ 0 → total inside calls ≡ 0
inside-idle [] h = refl
inside-idle (run_called ∷ rest) h = absurd (omega arith)
inside-idle (stop_called ∷ rest) h = absurd (omega arith)
inside-idle (run_locked ∷ rest) h = absurd (omega arith)
inside-idle (run_started ∷ rest) h = absurd (omega arith)
inside-idle (run_returned ∷ rest) h = omega (arith, inside-idle rest)
inside-idle (stop_returned e ∷ rest) h = omega (arith, inside-idle rest)

IsReturned-idle : (calls : List Pc) → total work calls ≡ 0 → All IsReturned calls
IsReturned-idle [] h = tt
IsReturned-idle (run_called ∷ rest) h = absurd (omega arith)
IsReturned-idle (stop_called ∷ rest) h = absurd (omega arith)
IsReturned-idle (run_locked ∷ rest) h = absurd (omega arith)
IsReturned-idle (run_started ∷ rest) h = absurd (omega arith)
IsReturned-idle (run_returned ∷ rest) h = (tt, IsReturned-idle rest (omega arith))
IsReturned-idle (stop_returned e ∷ rest) h = (tt, IsReturned-idle rest (omega arith))

module _ (lib : Library) where
  -- 1 while the mutex is locked, and 0 while it is free.
  abbrev pub held : Scheduler lib → ℕ
  held s = elim s.locked [ true ↦ 1 | false ↦ 0 ]

  stop-locked : (s : Scheduler lib) → (stop lib s).1.locked ≡ s.locked
  unfolding stop
  stop-locked s = ground arith

  Move-inside :
      {s t : Scheduler lib} {p q : Pc}
      → Move lib s p t q
      → inside p ≤ held s
      → inside q + held s ≡ inside p + held t
  Move-inside (lock e) h = rw e refl
  Move-inside start h = refl
  Move-inside {s} unlock h = ground arith
  Move-inside {s} halt h = ground (arith, stop-locked s)

  Step-inside :
      {s t : Scheduler lib} {calls later : List Pc}
      → Step lib s calls t later
      → total inside calls ≤ held s
      → total inside later + held s ≡ total inside calls + held t
  Step-inside (here m) h = omega (arith, Move-inside m)
  Step-inside (there st) h = omega (arith, Step-inside st)

  Move-work : {s t : Scheduler lib} {p q : Pc} → Move lib s p t q → work p ≡ suc (work q)
  Move-work (lock e) = refl
  Move-work start = refl
  Move-work unlock = refl
  Move-work halt = refl

  Step-work :
      {s t : Scheduler lib} {calls later : List Pc}
      → Step lib s calls t later
      → total work calls ≡ suc (total work later)
  Step-work (here m) = omega (arith, Move-work m)
  Step-work (there st) = omega (arith, Step-work st)

  -- Some call can take a step.
  abbrev pub Proceeds : Scheduler lib → List Pc → Type 0
  Proceeds s calls = (t : Scheduler lib) × (later : List Pc) × Step lib s calls t later

  on_there :
      (s : Scheduler lib) (p : Pc) (calls : List Pc) → Proceeds s calls → Proceeds s (p ∷ calls)
  on_there s p calls (t, later, st) = (t, p ∷ later, there st)

  -- Where no call can, all that are left ask for the mutex, and none holds it.
  Waits-or :
      (s : Scheduler lib) (calls : List Pc)
      → (total work calls ≡ 0) ⊎ Proceeds s calls ⊎ ((s.locked ≡ true) × (total inside calls ≡ 0))
  Waits-or s [] = inl refl
  Waits-or s (run_locked ∷ rest) = inr (inl (_, _, here start))
  Waits-or s (run_started ∷ rest) = inr (inl (_, _, here unlock))
  Waits-or s (stop_called ∷ rest) = inr (inl (_, _, here halt))
  Waits-or s (run_called ∷ rest) = elim (Bool-cases s.locked) [
    | inr free ↦ inr (inl (_, _, here (lock free)))
    | inl taken ↦ elim (Waits-or s rest) [
      | inl idle ↦ inr (inr (taken, omega (arith, inside-idle rest)))
      | inr (inl go) ↦ inr (inl (on_there s run_called rest go))
      | inr (inr (taken, out)) ↦ inr (inr (taken, omega arith))
    ]
  ]
  Waits-or s (run_returned ∷ rest) = elim (Waits-or s rest) [
    | inl left ↦ inl (omega arith)
    | inr (inl go) ↦ inr (inl (on_there s run_returned rest go))
    | inr (inr (taken, out)) ↦ inr (inr (taken, omega arith))
  ]
  Waits-or s (stop_returned e ∷ rest) = elim (Waits-or s rest) [
    | inl left ↦ inl (omega arith)
    | inr (inl go) ↦ inr (inl (on_there s (stop_returned e) rest go))
    | inr (inr (taken, out)) ↦ inr (inr (taken, omega arith))
  ]

  module _ (s : Scheduler lib) (calls : List Pc) (free : s.locked ≡ false)
      (fresh : All IsFresh calls) where
    Steps-inside :
        {n : ℕ} {t : Scheduler lib} {now : List Pc}
        → Steps lib s calls n t now
        → total inside now ≡ held t
    Steps-inside none_yet = ground (arith, inside-fresh calls fresh)
    Steps-inside (advance r st) = omega (arith, Steps-inside r, Step-inside st)

    Steps-work :
        {n : ℕ} {t : Scheduler lib} {now : List Pc}
        → Steps lib s calls n t now
        → n + total work now ≡ total work calls
    Steps-work none_yet = omega arith
    Steps-work (advance r st) = omega (arith, Steps-work r, Step-work st)

    -- However calls of `Run` and `Stop` interleave on a scheduler whose mutex is free at first, one
    -- call is between `Lock` and `Unlock` while the mutex is locked, and none while it is free.
    pub Steps-exclusive :
        (n : ℕ) (t : Scheduler lib) (now : List Pc)
        → Steps lib s calls n t now
        → total inside now ≡ held t
    Steps-exclusive n t now r = Steps-inside r

    -- However calls of `Run` and `Stop` interleave on a scheduler whose mutex is free at first, all of
    -- them return: each step takes one away from those that the calls have to take, so that no
    -- schedule goes on for ever; and as long as not all have returned and left the mutex free, some
    -- call can take a step.
    pub Steps-return :
        (n : ℕ) (t : Scheduler lib) (now : List Pc)
        → Steps lib s calls n t now
        → (n + total work now ≡ total work calls)
          × (Proceeds t now ⊎ ((total work now ≡ 0) × All IsReturned now × (t.locked ≡ false)))
    Steps-return n t now r = (
      Steps-work r,
      elim (Waits-or t now) [
        | inl idle ↦
            inr (idle, IsReturned-idle now idle, ground (arith, Steps-inside r, inside-idle now))
        | inr (inl go) ↦ inl go
        | inr (inr (taken, out)) ↦ absurd (ground (arith, Steps-inside r))
      ],
    )
