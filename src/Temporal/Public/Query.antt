-- ===== src/Temporal/Public/Query.antt =====
-- How the retry loop of `QueryWorkflowData` in temporal/public.go ends.
use mathlib.Core.Logic.{if_pos, if_neg}
use go_cook.Shared.{
  ◌≡◌, refl, inl, inr, ℕ, zero, suc, ◌≤◌, ◌<◌, String, Bool, true, false, Option, none, some, arith,
  Error, new, Result, ok, err, Option-cases, Result-split, Bool-cases, ◌==◌, if◌then◌else◌,
  String-discrete,
}
use go_cook.Temporal.Sdk.{Sdk, Run}
use go_cook.Temporal.Public.{
  QueryEnv, Raw, answer_of, decode_execution_data, query_loop, query_workflow_data,
}

-- A context with a deadline: some number of seconds is left, a query takes none back, and a wait
-- that is not cut short uses one up.
pub record Expires {World Value : Type 0} (env : QueryEnv World Value) (left : World → ℕ)
    : Type 0 where
  pub query_keeps :
      (id run query_type : String) (world : World)
      → left (env.query id run query_type world).1 ≤ left world
  pub wait_uses :
      (world : World)
      → (env.wait_second world).0 ≡ none
      → left (env.wait_second world).1 < left world

-- The first argument that `QueryWorkflowData` turns down.
abbrev pub problem : Bool → Bool → String → String → Option String
problem false client query_type id = some "context is nil"
problem true false query_type id = some "temporal client is nil"
problem true true query_type id =
    if query_type == ""
    then some "query type is empty"
    else if id == ""
    then some "workflow id is empty"
    else none

module _ (sdk : Sdk) (env : QueryEnv sdk.World sdk.Value) (id run query_type : String)
    (bounded : Bool) (dest : Option ℕ) where
  abbrev asked : Run sdk → Run sdk
  asked r = record r { world = (env.query id run query_type r.world).1 }

  abbrev answer : Run sdk → Result (Raw sdk.Value)
  answer r = answer_of (env.query id run query_type r.world).0

  abbrev waited : Run sdk → Option Error
  waited r = (env.wait_second (asked r).world).0

  abbrev next_second : Run sdk → Run sdk
  next_second r = record r { world = (env.wait_second (asked r).world).1 }

  -- In each of `n` rounds, a second apart, the query has failed or found nothing before the context
  -- has ended, which has a deadline.
  abbrev pub Retries : ℕ → Run sdk → Run sdk → Type 0
  Retries zero r s = s ≡ r
  Retries (suc n) r s =
      (bounded ≡ true)
      × (env.ctx_error r.world ≡ none)
      × ((e : Error) × (answer r ≡ err e))
      × (waited r ≡ none)
      × Retries n (next_second r) s

  -- How a round ends the loop.
  pub data Ends (s : Run sdk) : Result ℕ × Run sdk → Type 0 where
    expired : (e : Error) → env.ctx_error s.world ≡ some e → Ends s (err e, s)
    answered :
        (raw : Raw sdk.Value)
        → env.ctx_error s.world ≡ none
        → answer s ≡ ok raw
        → Ends s (decode_execution_data sdk raw dest (asked s))
    gives_up :
        (e : Error)
        → env.ctx_error s.world ≡ none
        → answer s ≡ err e
        → bounded ≡ false
        → Ends s (err e, asked s)
    cut_short :
        (e e' : Error)
        → env.ctx_error s.world ≡ none
        → answer s ≡ err e
        → bounded ≡ true
        → waited s ≡ some e'
        → Ends s (err e', next_second s)

  abbrev looped : ℕ → Run sdk → Option (Result ℕ × Run sdk)
  looped fuel r = query_loop sdk env (env.query id run query_type) fuel bounded dest r

  query_loop-Ends :
      (left : sdk.World → ℕ) (fuel : ℕ) (r : Run sdk)
      → Expires env left
      → left r.world < fuel
      → (n : ℕ) × (s : Run sdk) × (y : Result ℕ × Run sdk) × (n ≤ left r.world)
        × Retries n r s
        × Ends s y
        × (looped fuel r ≡ some y)
  unfolding query_loop
  query_loop-Ends left zero r x h = absurd (omega arith)
  query_loop-Ends left (suc fuel) r x h = elim (Option-cases (env.ctx_error r.world)) [
    | inr (e, over) ↦ (0, r, _, omega arith, refl, expired e over, ground arith)
    | inl open_still ↦ elim (Result-split (answer r)) [
      | inl (raw, found) ↦ (0, r, _, omega arith, refl, answered raw open_still found, ground arith)
      | inr (e, failed) ↦ elim (Bool-cases bounded) [
        | inr unbounded ↦
            (0, r, _, omega arith, refl, gives_up e open_still failed unbounded, ground arith)
        | inl deadline ↦ elim (Option-cases (waited r)) [
          | inr (e', over) ↦ (
            0,
            r,
            _,
            omega arith,
            refl,
            cut_short e e' open_still failed deadline over,
            ground arith,
          )
          | inl fired ↦
              let less : left (next_second r).world < left r.world = omega (
                arith,
                x.query_keeps id run query_type r.world,
                x.wait_uses (asked r).world fired,
              ) in
              let (n, s, y, few, retries, ends, eq) =
                query_loop-Ends left fuel (next_second r) x (omega arith) in
              (
                suc n,
                s,
                y,
                omega arith,
                (deadline, open_still, (e, failed), fired, retries),
                ends,
                ground arith,
              )
        ]
      ]
    ]
  ]

  -- An argument is turned down, or the loop ends after some rounds.
  abbrev pub Answers : (sdk.World → ℕ) → Run sdk → Option String → Result ℕ × Run sdk → Type 0
  Answers left r (some text) y = y ≡ (err (new text), r)
  Answers left r none y = (n : ℕ) × (s : Run sdk) × (n ≤ left r.world) × Retries n r s × Ends s y

  -- Where a query never adds to the seconds that are left and a full wait takes one away,
  -- `QueryWorkflowData` returns within as many rounds as seconds are left, and one. It returns the
  -- error of the first argument that is missing and asks nothing; or, after rounds that found no
  -- data under a context with a deadline, the decoded data of the first answer that holds some, the
  -- error of the context as soon as that has ended, or, without a deadline, the error of the first
  -- round.
  pub query_workflow_data-Answers :
      (left : sdk.World → ℕ) (fuel : ℕ) (ctx client : Bool) (r : Run sdk)
      → Expires env left
      → left r.world < fuel
      → (y : Result ℕ × Run sdk) × (query_workflow_data sdk env fuel ctx client query_type id run
            bounded dest r
          ≡ some y)
        × Answers left r (problem ctx client query_type id) y
  unfolding query_workflow_data
  query_workflow_data-Answers left fuel false client r x h = (_, refl, refl)
  query_workflow_data-Answers left fuel true false r x h = (_, refl, refl)
  query_workflow_data-Answers left fuel true true r x h =
      let (n, s, y, few, retries, ends, eq) = query_loop-Ends left fuel r x h in
      elim (String-discrete query_type "") [
        | yes e ↦ rw (if_pos _ e) (_, refl, refl)
        | no e ↦ rw (if_neg _ e) (elim (String-discrete id "") [
          | yes e' ↦ rw (if_pos _ e') (_, refl, refl)
          | no e' ↦ rw (if_neg _ e') (y, eq, (n, s, few, retries, ends))
        ])
      ]
