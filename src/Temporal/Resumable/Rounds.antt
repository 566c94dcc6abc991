-- ===== src/Temporal/Resumable/Rounds.antt =====
-- How the retry loop of `runResumableActivity` in temporal/resumable.go ends.
use go_cook.Shared.{
  ◌≡◌, refl, ◌⊎◌, inl, inr, ℕ, zero, suc, ◌≤◌, Option, none, some, arith, Error, Result, ok, err,
}
use go_cook.Temporal.Types.{ResumableOptions, ActivityOptions}
use go_cook.Temporal.Sdk.{Sdk, Info, Run}
use go_cook.Temporal.Resumable.{round, give_up, attempts}

module _ (sdk : Sdk) (info : Info sdk) (o : ResumableOptions)
    (a : Option (ActivityOptions sdk.OtherOptions)) (p : Option ℕ) where
  -- In each of `n` rounds, one after the other, the activity is run and fails.
  abbrev pub Fails : ℕ → Run sdk → Run sdk → Type 0
  Fails zero r s = s ≡ r
  Fails (suc n) r s =
      (e : Error) × (t : Run sdk) × (round sdk info o a p r ≡ (ok (some e), t)) × Fails n t s

  -- After `n` failures, in the state `s`, the loop with `left` corrections from `r` ends so.
  pub data Outcome (left n : ℕ) (r s : Run sdk) : Type 0 where
    succeeds :
        (t : Run sdk)
        → n ≤ left
        → round sdk info o a p s ≡ (ok none, t)
        → attempts sdk left info o a p r ≡ (ok tt, t)
        → Outcome left n r s
    breaks :
        (e : Error) (t : Run sdk)
        → n ≤ left
        → round sdk info o a p s ≡ (err e, t)
        → attempts sdk left info o a p r ≡ (err e, t)
        → Outcome left n r s
    gives_up :
        (e : Error) (t : Run sdk)
        → n ≡ left
        → round sdk info o a p s ≡ (ok (some e), t)
        → attempts sdk left info o a p r ≡ give_up sdk info o e t
        → Outcome left n r s

  Round-cases :
      (r : Run sdk)
      → ((t : Run sdk) × (round sdk info o a p r ≡ (ok none, t)))
        ⊎ ((e : Error) × (t : Run sdk) × (round sdk info o a p r ≡ (ok (some e), t)))
        ⊎ ((e : Error) × (t : Run sdk) × (round sdk info o a p r ≡ (err e, t)))
  Round-cases r = go (round sdk info o a p r) refl
    where
      go :
          (y : Result (Option Error) × Run sdk)
          → round sdk info o a p r ≡ y
          → ((t : Run sdk) × (round sdk info o a p r ≡ (ok none, t)))
            ⊎ ((e : Error) × (t : Run sdk) × (round sdk info o a p r ≡ (ok (some e), t)))
            ⊎ ((e : Error) × (t : Run sdk) × (round sdk info o a p r ≡ (err e, t)))
      go (ok none, t) h = inl (t, h)
      go (ok (some e), t) h = inr (inl (e, t, h))
      go (err e, t) h = inr (inr (e, t, h))

  after_failure :
      (left n : ℕ) (r s t : Run sdk) (e : Error)
      → round sdk info o a p r ≡ (ok (some e), t)
      → Outcome left n t s
      → Outcome (suc left) (suc n) r s
  unfolding attempts
  after_failure left n r s t e h (succeeds u l m q) = succeeds u (omega arith) m (ground arith)
  after_failure left n r s t e h (breaks d u l m q) = breaks d u (omega arith) m (ground arith)
  after_failure left n r s t e h (gives_up d u l m q) = gives_up d u (omega arith) m (ground arith)

  -- The loop always ends. With `left` corrections allowed the activity runs at most `left + 1`
  -- times: after some number of failures, at most `left`, it succeeds and the loop returns nil, or
  -- the wait or the correction fails and the loop returns that error; or it has failed `left`
  -- times and fails once more, and the loop gives up.
  pub attempts-Outcome :
      (left : ℕ) (r : Run sdk) → (n : ℕ) × (s : Run sdk) × Fails n r s × Outcome left n r s
  unfolding attempts
  attempts-Outcome zero r = elim (Round-cases r) [
    | inl (t, h) ↦ (0, r, refl, succeeds t (omega arith) h (ground arith))
    | inr (inl (e, t, h)) ↦ (0, r, refl, gives_up e t refl h (ground arith))
    | inr (inr (e, t, h)) ↦ (0, r, refl, breaks e t (omega arith) h (ground arith))
  ]
  attempts-Outcome (suc left) r = elim (Round-cases r) [
    | inl (t, h) ↦ (0, r, refl, succeeds t (omega arith) h (ground arith))
    | inr (inl (e, t, h)) ↦
        let (n, s, f, out) = attempts-Outcome left t in
        (suc n, s, (e, t, h, f), after_failure left n r s t e h out)
    | inr (inr (e, t, h)) ↦ (0, r, refl, breaks e t (omega arith) h (ground arith))
  ]
