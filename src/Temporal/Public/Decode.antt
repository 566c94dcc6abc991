-- ===== src/Temporal/Public/Decode.antt =====
-- `decodeExecutionData` of temporal/public.go.
use go_cook.Shared.{◌≡◌, ◌⊎◌, inl, inr, ℕ, String, Option, none, some, arith, ok, Result-split}
use go_cook.Temporal.Sdk.{Sdk, Run}
use go_cook.Temporal.Public.{execution_data, decode_execution_data}

module _ (sdk : Sdk) where
  open sdk use {Data}

  -- The application's data survive their own encoding: `Unmarshal` after `Marshal` restores them,
  -- whatever object it writes over.
  abbrev pub RoundTrips : Type 0
  RoundTrips = (d old : Data) (b : String) → sdk.marshal d ≡ ok b → sdk.unmarshal b old ≡ (none, d)

  -- Where encoding loses nothing, execution data that a query returns are returned in `dest` if
  -- there is one, and as they are if not: the result holds what the query returned.
  pub decode_execution_data-same :
      RoundTrips
      → (p q : ℕ) (dest : Option ℕ) (r s : Run sdk)
      → decode_execution_data sdk (execution_data p) dest r ≡ (ok q, s)
      → (s.objects q ≡ r.objects p) × ((dest ≡ some q) ⊎ (dest ≡ none))
  unfolding decode_execution_data
  decode_execution_data-same law p q none r s h = ground arith
  decode_execution_data-same law p q (some dest) r s h =
      elim (Result-split (sdk.marshal (r.objects p))) [
        | inl (b, e) ↦ ground (arith, law (r.objects p) (r.objects dest) b e)
        | inr (x, e) ↦ ground arith
      ]
