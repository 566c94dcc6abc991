-- ===== src/Security/Claims/Wire.antt =====
-- `MarshalJSON` and `UnmarshalJSON` of security/v2/jwt.go, with the wire structs as they are written
-- and read.
use go_cook.Shared.{
  ℕ, zero, suc, String, false, ◌||◌, Option, List, ◌∷◌, ◌++◌, if◌then◌else◌, ◌==◌, Result, ok, err,
}
use go_cook.Security.Json.{
  Json, number, text, flag, Document, unmarshal, as_number, as_text, as_flag,
}
use go_cook.Security.Claims.{
  RegisteredClaims, V2Access, V2Refresh, AccessWire, RefreshWire, omit_number, omit_text, lift,
}

module _ (claims : RegisteredClaims) where
  open claims use {Registered}

  unfoldable pub access_wire_json : AccessWire claims → Document
  access_wire_json w =
      ("id", number w.id)
      ∷ (omit_number "onboarding_id" w.onboarding_id
          ++ (omit_text "email" w.email
              ++ (omit_text "role" w.role
                  ++ (("is_verify", flag w.is_verify)
                      ∷ ("UserID", number w.user_id)
                      ∷ ("IsVerify", flag w.legacy_verify)
                      ∷ claims.encode w.registered))))

  abbrev pub access_names : List String
  access_names =
      "id" ∷ "onboarding_id" ∷ "email" ∷ "role" ∷ "is_verify" ∷ "UserID" ∷ "IsVerify"
      ∷ claims.members

  unfoldable pub put_access : String → Json → AccessWire claims → Option (AccessWire claims)
  put_access name v w =
      if name == "id"
      then lift claims (λ n. record w { id = n }) (as_number v w.id)
      else if name == "onboarding_id"
      then lift claims (λ n. record w { onboarding_id = n }) (as_number v w.onboarding_id)
      else if name == "email"
      then lift claims (λ s. record w { email = s }) (as_text v w.email)
      else if name == "role"
      then lift claims (λ s. record w { role = s }) (as_text v w.role)
      else if name == "is_verify"
      then lift claims (λ b. record w { is_verify = b }) (as_flag v w.is_verify)
      else if name == "UserID"
      then lift claims (λ n. record w { user_id = n }) (as_number v w.user_id)
      else if name == "IsVerify"
      then lift claims (λ b. record w { legacy_verify = b }) (as_flag v w.legacy_verify)
      else lift claims (λ r. record w { registered = r }) (claims.put name v w.registered)

  abbrev pub zero_access : AccessWire claims
  zero_access = record {
    id = 0;
    onboarding_id = 0;
    email = "";
    role = "";
    is_verify = false;
    user_id = 0;
    legacy_verify = false;
    registered = claims.zero_claims;
  }

  -- `JWTAccessClaim.MarshalJSON`
  unfoldable pub marshal_access : V2Access claims → Document
  unfolding access_wire_json
  marshal_access c = access_wire_json (record {
    id = c.id;
    onboarding_id = c.onboarding_id;
    email = c.email;
    role = c.role;
    is_verify = c.is_verify;
    user_id = c.id;
    legacy_verify = c.is_verify;
    registered = c.registered;
  })

  abbrev pub or_legacy : ℕ → ℕ → ℕ
  or_legacy zero legacy = legacy
  or_legacy (suc n) legacy = suc n

  -- `JWTAccessClaim.UnmarshalJSON`
  unfoldable pub unmarshal_access : Document → Result (V2Access claims)
  unmarshal_access d = elim (unmarshal access_names put_access d zero_access) [
    | err e ↦ err e
    | ok raw ↦ ok (record {
      id = or_legacy raw.id raw.user_id;
      onboarding_id = raw.onboarding_id;
      email = raw.email;
      role = raw.role;
      is_verify = raw.is_verify || raw.legacy_verify;
      registered = raw.registered;
    })
  ]

  unfoldable pub refresh_wire_json : RefreshWire claims → Document
  refresh_wire_json w =
      ("id", number w.id)
      ∷ ("email", text w.email)
      ∷ ("UserID", number w.user_id)
      ∷ claims.encode w.registered

  abbrev pub refresh_names : List String
  refresh_names = "id" ∷ "email" ∷ "UserID" ∷ claims.members

  unfoldable pub put_refresh : String → Json → RefreshWire claims → Option (RefreshWire claims)
  put_refresh name v w =
      if name == "id"
      then lift claims (λ n. record w { id = n }) (as_number v w.id)
      else if name == "email"
      then lift claims (λ s. record w { email = s }) (as_text v w.email)
      else if name == "UserID"
      then lift claims (λ n. record w { user_id = n }) (as_number v w.user_id)
      else lift claims (λ r. record w { registered = r }) (claims.put name v w.registered)

  abbrev pub zero_refresh : RefreshWire claims
  zero_refresh = record { id = 0; email = ""; user_id = 0; registered = claims.zero_claims }

  -- `JWTRefreshClaim.MarshalJSON`
  unfoldable pub marshal_refresh : V2Refresh claims → Document
  unfolding refresh_wire_json
  marshal_refresh c =
      refresh_wire_json
        (record { id = c.id; email = c.email; user_id = c.id; registered = c.registered })

  -- `JWTRefreshClaim.UnmarshalJSON`
  unfoldable pub unmarshal_refresh : Document → Result (V2Refresh claims)
  unmarshal_refresh d = elim (unmarshal refresh_names put_refresh d zero_refresh) [
    | err e ↦ err e
    | ok raw ↦ ok (record {
      id = or_legacy raw.id raw.user_id;
      email = raw.email;
      registered = raw.registered;
    })
  ]
