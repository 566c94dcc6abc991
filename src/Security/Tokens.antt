-- ===== src/Security/Tokens.antt =====
-- `GenerateTokens` of security/jwt.go and of security/v2/jwt.go.
pub mod Pairs
use go_cook.Shared.{ℕ, String, Bool, false, List, [], Result, ok, err, if◌then◌else◌, ◌==◌}
use go_cook.Shared.Int.{ℤ, pos, minute}
use go_cook.Shared.{◌*◌}
use go_cook.Security.Json.{Document}
use go_cook.Security.Claims.{
  RegisteredClaims, V1Access, V1Refresh, V2Access, V2Refresh, v1_access_json, v1_refresh_json,
}
use go_cook.Security.Claims.Wire.{marshal_access, marshal_refresh}

-- The clock, `time.ParseDuration`, and of golang-jwt the registered claims for an issuer, a subject,
-- a time of issue and a time of expiry, and the token that HS256 makes of claims.
pub record Signer (claims : RegisteredClaims) : Type 1 where
  pub World : Type 0
  pub Time : Type 0
  pub now : World → Time × World
  pub add : Time → ℤ → Time
  pub parse_duration : String → Result ℤ
  pub register : String → String → Time → Time → claims.Registered
  pub sign : String → Document → Result String

module _ (claims : RegisteredClaims) (signer : Signer claims) where
  open signer use {World, Time}

  -- Both tokens, or neither.
  abbrev pub both : Result String → Result String → String × String
  both (ok a) (ok r) = (a, r)
  both (ok a) (err e) = ("", "")
  both (err e) r = ("", "")

  abbrev pub hour : ℕ
  hour = 60 * minute

  -- `security.GenerateTokens`
  unfoldable pub v1_generate_tokens : String → ℕ → String → World → (String × String) × World
  v1_generate_tokens key user_id email w₀ =
      let (access_issued, w₁) = signer.now w₀ in
      let (access_base, w₂) = signer.now w₁ in
      let access : V1Access claims = record {
        user_id = user_id;
        username = "";
        role_id = [];
        is_verify = false;
        registered =
            signer.register "Applications" "" access_issued (signer.add access_base (pos hour));
      } in
      let (refresh_issued, w₃) = signer.now w₂ in
      let (refresh_base, w₄) = signer.now w₃ in
      let refresh : V1Refresh claims = record {
        user_id = user_id;
        email = email;
        registered =
            signer.register "Applications" "" refresh_issued
              (signer.add refresh_base (pos (10 * hour)));
      } in
      elim (signer.sign key (v1_access_json claims access)) [
        | err e ↦ (("", ""), w₂)
        | ok a ↦ (both (ok a) (signer.sign key (v1_refresh_json claims refresh)), w₄)
      ]

  -- The two tokens of `v2.GenerateTokens`, from the parsed durations.
  unfoldable pub v2_sign_tokens :
      String → ℤ → ℤ → ℕ → String → ℕ → String → Bool → World → (String × String) × World
  v2_sign_tokens key after later id email onboarding_id role is_verify w₀ =
      let (access_base, w₁) = signer.now w₀ in
      let (access_issued, w₂) = signer.now w₁ in
      let access : V2Access claims = record {
        id = id;
        onboarding_id = onboarding_id;
        email = email;
        role = role;
        is_verify = is_verify;
        registered =
            signer.register "auth-service" "access-token" access_issued
              (signer.add access_base after);
      } in
      let (refresh_base, w₃) = signer.now w₂ in
      let (refresh_issued, w₄) = signer.now w₃ in
      let refresh : V2Refresh claims = record {
        id = id;
        email = email;
        registered =
            signer.register "auth-service" "refresh-token" refresh_issued
              (signer.add refresh_base later);
      } in
      (
        both (signer.sign key (marshal_access claims access))
            (signer.sign key (marshal_refresh claims refresh)),
        w₄,
      )

  -- `if err != nil { return "", "" }`
  abbrev pub or_empty :
      Result ℤ → World → (ℤ → (String × String) × World) → (String × String) × World
  or_empty (ok n) world f = f n
  or_empty (err e) world f = (("", ""), world)

  -- `v2.GenerateTokens`, with the settings JWT_KEY, JWT_EXPIRE and JWT_REFRESH_EXPIRE
  unfoldable pub v2_generate_tokens :
      String → String → String → ℕ → String → ℕ → String → Bool → World → (String × String) × World
  v2_generate_tokens key expire refresh_expire id email onboarding_id role is_verify w₀ =
      or_empty (signer.parse_duration (if expire == "" then "1h" else expire)) w₀ (λ after.
        or_empty (signer.parse_duration (if refresh_expire == "" then "10h" else refresh_expire)) w₀
          (λ later. v2_sign_tokens key after later id email onboarding_id role is_verify w₀))
