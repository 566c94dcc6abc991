-- ===== src/Temporal/Resumable/Payloads.antt =====
-- What the payload of a signal does in temporal/resumable.go: a correction of the execution data,
-- or an approval.
use go_cook.Shared.{
  ◌≡◌, ℕ, String, ◌||◌, Bool, true, false, Option, none, some, arith, new, wrap, Result, ok, err,
  ◌==◌, ◌<>◌, if◌then◌else◌,
}
use go_cook.Shared.Int.{ℤ}
use go_cook.Shared.Format.{quote}
use go_cook.Temporal.Types.{
  Status, ResumableOptions, executing, awaiting_correction, awaiting_approval, failed, rejected,
}
use go_cook.Temporal.Sdk.{Sdk, Info, Run, read, write}
use go_cook.Temporal.Resumable.{gate}
use go_cook.Temporal.Waits.{
  set_execution_status, wait_for_signal_payload, wait_bool, wait_for_approval, apply_correction,
}

module _ (sdk : Sdk) where
  open sdk use {Data}

  -- What a payload makes of the execution data of a step, and the error that it may cause. An empty
  -- payload and a JSON null are no correction.
  abbrev pub correction : String → String → Option Data → Result (Unit {0}) × Option Data
  correction name payload d = if payload == "" || payload == "null" then (ok tt, d) else elim d [
    | none ↦ (
      err (wrap ("activity " <> name <> ": apply correction: ") (new "execution data is nil")),
      none,
    )
    | some x ↦ elim (sdk.unmarshal payload x).0 [
      | none ↦ (ok tt, some (sdk.unmarshal payload x).1)
      | some e ↦ (
        err (wrap ("activity " <> name <> ": apply correction: ") e),
        some (sdk.unmarshal payload x).1,
      )
    ]
  ]

  wait-objects :
      (signal : String) (timeout : ℤ) (r : Run sdk)
      → (wait_for_signal_payload sdk signal timeout r).1.objects ≡ r.objects
  unfolding wait_for_signal_payload
  wait-objects signal timeout r = ground arith

  set_execution_status-objects :
      (st : Status) (attribute : String) (r : Run sdk)
      → (set_execution_status sdk st attribute r).1.objects ≡ r.objects
  unfolding set_execution_status
  set_execution_status-objects st attribute r = ground arith

  -- Once the signal has come with a payload, the step goes on to its activity exactly if the
  -- payload is empty or null, which leaves the execution data alone, or the data are not nil and
  -- `Unmarshal` accepts it. The data are then what `Unmarshal` makes of them, also where it fails,
  -- and a failure is returned with the name of the activity.
  pub gate-correction :
      (info : Info sdk) (o : ResumableOptions) (p : Option ℕ) (r : Run sdk) (payload : String)
      → (wait_for_signal_payload sdk info.signal_event o.wait_timeout
          (set_execution_status sdk awaiting_correction o.status_search_attribute r).1).0
        ≡ ok payload
      → let (x, s) = gate sdk info o p r in
        (x, read sdk p s) ≡ correction info.activity_name payload (read sdk p r)
  unfolding gate apply_correction
  gate-correction info o p r payload h =
      let s = (set_execution_status sdk awaiting_correction o.status_search_attribute r).1 in
      let t = (wait_for_signal_payload sdk info.signal_event o.wait_timeout s).1 in
      elim p
        as (λ p.
          let (x, s) = gate sdk info o p r in
          ◌≡◌ {A = Result (Unit {0}) × Option Data} (x, read sdk p s)
            (correction info.activity_name payload (read sdk p r))) [
              | none ↦ ground (
                arith,
                set_execution_status-objects awaiting_correction o.status_search_attribute r,
                wait-objects info.signal_event o.wait_timeout s,
                set_execution_status-objects executing o.status_search_attribute t,
              )
              | some q ↦ ground (
                arith,
                set_execution_status-objects awaiting_correction o.status_search_attribute r,
                wait-objects info.signal_event o.wait_timeout s,
                set_execution_status-objects executing o.status_search_attribute t,
                set_execution_status-objects executing o.status_search_attribute
                    (write sdk (some q) (λ d. (sdk.unmarshal payload d).1) t),
              )
            ]

  -- How an answered, refused, timed out or broken wait for approval ends: the result and the status.
  abbrev pub verdict : String → String → Result (Option Bool) → Result (Unit {0}) × Status
  verdict name signal (ok (some true)) = (ok tt, awaiting_approval)
  verdict name signal (ok (some false)) =
      (err (new ("activity " <> name <> " rejected by approval signal")), rejected)
  verdict name signal (ok none) = (
    err (new ("activity " <> name <> ": approval signal " <> quote signal <> " timed out")),
    failed,
  )
  verdict name signal (err e) = (err e, awaiting_approval)

  -- Only the value `true` lets a step go on; `false` is an error with the status REJECTED, a
  -- timeout one with the status FAILED, and the error of a broken wait is returned with the status
  -- AWAITING_APPROVAL.
  pub wait_for_approval-verdict :
      (name : String) (o : ResumableOptions) (r : Run sdk)
      → let (x, s) = wait_for_approval sdk name o r in
        (x, s.w.status)
        ≡ verdict name o.approval_signal
            (wait_bool sdk o.approval_signal o.wait_timeout
              (set_execution_status sdk awaiting_approval o.status_search_attribute r).1).0
  unfolding wait_for_approval
  wait_for_approval-verdict name o r = ground arith
