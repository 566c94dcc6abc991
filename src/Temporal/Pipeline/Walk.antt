-- ===== src/Temporal/Pipeline/Walk.antt =====
-- What the loop of `Execute` in temporal/workflow.go promises: a walk through the graph, from step
-- to step by the names that the execution data give, which ends at the first error.
use go_cook.Shared.{
  ◌≡◌, inl, inr, ◌≢◌, ℕ, zero, suc, ◌≤◌, String, true, Option, none, some, List, [], ◌∷◌, arith,
  Error, Result, ok, err, member, length, Option-cases, Result-cases,
}
use go_cook.Shared.Dict.{lookup}
use go_cook.Temporal.Types.{failed}
use go_cook.Temporal.Sdk.{Sdk, Info, Run, read}
use go_cook.Temporal.Registry.Lookup.{get_next_activity-eq}
use go_cook.Temporal.Pipeline.{run_activity, next_node, run_pipeline, settle}

module _ (sdk : Sdk) where
  -- The name that the execution data give, unless they are nil.
  abbrev pub named : Option ℕ → Run sdk → Option String
  named p s = elim (read sdk p s) [ none ↦ none | some d ↦ some (sdk.get_activity d) ]

  -- The execution data name a step that the last one lists, and that has an entry.
  abbrev pub Goes : Info sdk → Option ℕ → Run sdk → String → Info sdk → Type 0
  Goes info p s next found =
      (named p s ≡ some next)
      × (next ≢ "")
      × (member next info.next_activities ≡ true)
      × (lookup next s.w.activity ≡ some found)

  -- There is no such step.
  abbrev pub Stops : Info sdk → Option ℕ → Run sdk → Type 0
  Stops info p s = (next : String) (found : Info sdk) → ¬ (Goes info p s next found)

  -- The walk from a step, with the names that it visits, how it ends, and the state at its end.
  pub data Walk (p : Option ℕ)
      : String → Info sdk → Run sdk → List String → Result (Unit {0}) → Run sdk → Type 0 where
    fails :
        {k : String} {info : Info sdk} {r s : Run sdk} {e : Error}
        → run_activity sdk (k, info) p r ≡ (err e, s)
        → Walk p k info r (k ∷ []) (err e) s
    stops :
        {k : String} {info : Info sdk} {r s : Run sdk}
        → run_activity sdk (k, info) p r ≡ (ok tt, s)
        → Stops info p s
        → Walk p k info r (k ∷ []) (ok tt) s
    goes :
        {k next : String} {info found : Info sdk} {r s t : Run sdk} {names : List String}
        {x : Result (Unit {0})}
        → run_activity sdk (k, info) p r ≡ (ok tt, s)
        → Goes info p s next found
        → Walk p next found s names x t
        → Walk p k info r (k ∷ names) x t

  next_node-none :
      (k : String) (info : Info sdk) (p : Option ℕ) (s : Run sdk)
      → next_node sdk (k, info) p s ≡ none
      → Stops info p s
  unfolding next_node
  next_node-none k info none s h next found g = ground arith
  next_node-none k info (some q) s h next found g =
      ground (arith, get_next_activity-eq sdk s.w info next)

  next_node-some :
      (k next : String) (info found : Info sdk) (p : Option ℕ) (s : Run sdk)
      → next_node sdk (k, info) p s ≡ some (next, found)
      → Goes info p s next found
  unfolding next_node
  next_node-some k next info found none s h = ground arith
  next_node-some k next info found (some q) s h =
      ground (arith, get_next_activity-eq sdk s.w info (sdk.get_activity (s.objects q)))

  Stops-next_node :
      (k : String) (info : Info sdk) (p : Option ℕ) (s : Run sdk)
      → Stops info p s
      → next_node sdk (k, info) p s ≡ none
  Stops-next_node k info p s h = elim (Option-cases (next_node sdk (k, info) p s)) [
    | inl e ↦ e
    | inr ((next, found), e) ↦ absurd (h next found (next_node-some k next info found p s e))
  ]

  next_node-Goes :
      (k next : String) (info found : Info sdk) (p : Option ℕ) (s : Run sdk)
      → Goes info p s next found
      → next_node sdk (k, info) p s ≡ some (next, found)
  unfolding next_node
  next_node-Goes k next info found none s g = ground arith
  next_node-Goes k next info found (some q) s g =
      ground (arith, get_next_activity-eq sdk s.w info next)

  -- How the loop leaves the state in which a walk ends: an error settles the status.
  abbrev pub settled : String → Result (Unit {0}) → Run sdk → Run sdk
  settled attribute (ok _) s = s
  settled attribute (err _) s = settle sdk failed attribute s

  module _ (attribute : String) (p : Option ℕ) where
    -- Whatever the loop returns within its fuel is the end of a walk from its first step: every
    -- further step is named by the execution data as the step before left them, is listed by that
    -- step and has an entry. The walk ends at the first step that fails, whose error the loop
    -- returns with the status settled, or where there is no such step, and the loop returns nil.
    pub run_pipeline-Walk :
        (fuel : ℕ) (k : String) (info : Info sdk) (r t : Run sdk) (x : Result (Unit {0}))
        → run_pipeline sdk fuel attribute (some (k, info)) p r ≡ some (x, t)
        → (names : List String) × (s : Run sdk) × Walk p k info r names x s
          × (t ≡ settled attribute x s)
    unfolding run_pipeline
    run_pipeline-Walk zero k info r t x h = absurd (cc)
    run_pipeline-Walk (suc fuel) k info r t x h =
        let s = (run_activity sdk (k, info) p r).1 in
        elim (Result-cases (run_activity sdk (k, info) p r).0) [
          | inr (e, failure) ↦ (
            k ∷ [],
            s,
            let q : x ≡ err e = ground arith in rw q (fails (ground arith)),
            ground arith,
          )
          | inl done ↦ elim (Option-cases (next_node sdk (k, info) p s)) [
            | inl last ↦ (
              k ∷ [],
              s,
              let q : x ≡ ok tt = ground arith in
                  rw q (stops (ground arith) (next_node-none k info p s last)),
              ground arith,
            )
            | inr ((next, found), more) ↦
                let (names, u, walk, e) = run_pipeline-Walk fuel next found s t x (ground arith) in
                (
                  k ∷ names,
                  u,
                  goes (ground arith) (next_node-some k next info found p s more) walk,
                  e,
                )
          ]
        ]

    -- Every walk is found: with a round of fuel for each of its steps the loop returns the result
    -- of the walk and its last state, in which an error has settled the status.
    pub Walk-run_pipeline :
        (fuel : ℕ) {k : String} {info : Info sdk} {r s : Run sdk} {names : List String}
        {x : Result (Unit {0})}
        → Walk p k info r names x s
        → length names ≤ fuel
        → run_pipeline sdk fuel attribute (some (k, info)) p r ≡ some (x, settled attribute x s)
    unfolding run_pipeline
    Walk-run_pipeline zero (fails h) l = absurd (omega arith)
    Walk-run_pipeline zero (stops h n) l = absurd (omega arith)
    Walk-run_pipeline zero (goes h g w) l = absurd (omega arith)
    Walk-run_pipeline (suc fuel) (fails h) l = ground arith
    Walk-run_pipeline (suc fuel) {k} {info} {s} (stops h n) l =
        ground (arith, Stops-next_node k info p s n)
    Walk-run_pipeline (suc fuel) {k} {info} (goes {next = next} {found = found} {s = s} h g w) l =
        ground
          (arith, next_node-Goes k next info found p s g, Walk-run_pipeline fuel w (omega arith))
