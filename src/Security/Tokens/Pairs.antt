-- ===== src/Security/Tokens/Pairs.antt =====
-- What the tokens of `GenerateTokens` of security/jwt.go and security/v2/jwt.go hold, and for how
-- long.
use go_cook.Shared.{
  ◌≡◌, refl, ℕ, zero, suc, String, Bool, false, [], Result, ok, err, if◌then◌else◌, ◌==◌,
}
use go_cook.Shared.Int.{ℤ, pos}
use go_cook.Security.Json.{Document}
use go_cook.Security.Claims.{
  RegisteredClaims, V1Access, V1Refresh, v1_access_json, v1_refresh_json, V2Access, V2Refresh,
  read_v1_access, read_v1_refresh,
}
use go_cook.Security.Claims.Wire.{unmarshal_access, unmarshal_refresh}
use go_cook.Security.Claims.Reading.{IsLawful, unmarshal-marshal}
use go_cook.Security.Claims.Older.{read_v1-marshal}
use go_cook.Security.Claims.Own.{read_v1-v1_json}
use go_cook.Security.Claims.Versions.{unmarshal-v1}
use go_cook.Security.Tokens.{
  Signer, both, or_empty, v1_generate_tokens, v2_sign_tokens, v2_generate_tokens,
}

module _ (claims : RegisteredClaims) (signer : Signer claims) where
  open claims use {Registered}
  open signer use {World, Time}

  -- The n-th time that the clock is read.
  abbrev pub reading : ℕ → World → Time
  reading zero w = (signer.now w).0
  reading (suc n) w = reading n (signer.now w).1

  -- What signing gives for a document that the claim types of both packages read as these claims.
  abbrev pub SignedAccess : String → V2Access claims → V1Access claims → Result String → Type 0
  SignedAccess key c v x =
      (d : Document) × (signer.sign key d ≡ x)
      × (unmarshal_access claims d ≡ ok c)
      × (read_v1_access claims d ≡ ok v)

  abbrev pub SignedRefresh : String → V2Refresh claims → V1Refresh claims → Result String → Type 0
  SignedRefresh key c v x =
      (d : Document) × (signer.sign key d ≡ x)
      × (unmarshal_refresh claims d ≡ ok c)
      × (read_v1_refresh claims d ≡ ok v)

  -- Both tokens, where both were signed, and else two empty strings.
  abbrev pub Joint : Result String → Result String → String × String → Type 0
  Joint (ok a) (ok r) pair = pair ≡ (a, r)
  Joint (ok a) (err e) pair = pair ≡ ("", "")
  Joint (err e) y pair = pair ≡ ("", "")

  -- The two tokens of these claims, and what the package security knows of the claims.
  abbrev pub IsPair : String → V2Access claims → V2Refresh claims → String × String → Type 0
  IsPair key c d pair =
      (x : Result String) × (y : Result String) × SignedAccess key c
        (record {
          user_id = c.id;
          username = "";
          role_id = [];
          is_verify = c.is_verify;
          registered = c.registered;
        })
        x
      × SignedRefresh key d (record { user_id = d.id; email = d.email; registered = d.registered })
          y
      × Joint x y pair

  -- The tokens of the package security for a user, from a reading of the clock on.
  abbrev pub V1Pair : String → ℕ → String → World → String × String → Type 0
  V1Pair key id email w =
      IsPair key
        (record {
          id = id;
          onboarding_id = 0;
          email = "";
          role = "";
          is_verify = false;
          registered =
              signer.register "Applications" "" (reading 0 w)
                (signer.add (reading 1 w) (pos 3600000000000));
        })
        (record {
          id = id;
          email = email;
          registered =
              signer.register "Applications" "" (reading 2 w)
                (signer.add (reading 3 w) (pos 36000000000000));
        })

  -- Those of security/v2 for the two durations.
  abbrev pub V2Pair :
      String → ℕ → String → ℕ → String → Bool → World → ℤ → ℤ → String × String → Type 0
  V2Pair key id email onboarding_id role is_verify w after later =
      IsPair key
        (record {
          id = id;
          onboarding_id = onboarding_id;
          email = email;
          role = role;
          is_verify = is_verify;
          registered =
              signer.register "auth-service" "access-token" (reading 1 w)
                (signer.add (reading 0 w) after);
        })
        (record {
          id = id;
          email = email;
          registered =
              signer.register "auth-service" "refresh-token" (reading 3 w)
                (signer.add (reading 2 w) later);
        })

  -- Two empty strings where a duration does not parse.
  abbrev pub Parsed :
      Result ℤ → Result ℤ → (ℤ → ℤ → String × String → Type 0) → String × String → Type 0
  Parsed (ok after) (ok later) P pair = P after later pair
  Parsed (ok after) (err e) P pair = pair ≡ ("", "")
  Parsed (err e) later P pair = pair ≡ ("", "")

  both-Joint : (x y : Result String) → Joint x y (both claims signer x y)
  both-Joint (ok a) (ok r) = refl
  both-Joint (ok a) (err e) = refl
  both-Joint (err e) y = refl

  module _ (lawful : IsLawful claims) (key : String) where
    -- The tokens of the package security live for one hour and for ten.
    v1_generate_tokens-IsPair :
        (id : ℕ) (email : String) (w : World)
        → V1Pair key id email w (v1_generate_tokens claims signer key id email w).0
    unfolding v1_generate_tokens
    v1_generate_tokens-IsPair id email w =
        let a =
          signer.register "Applications" "" (reading 0 w)
            (signer.add (reading 1 w) (pos 3600000000000)) in
        let r =
          signer.register "Applications" "" (reading 2 w)
            (signer.add (reading 3 w) (pos 36000000000000)) in
        let access : V1Access claims = record {
          user_id = id;
          username = "";
          role_id = [];
          is_verify = false;
          registered = a;
        } in
        let refresh : V1Refresh claims = record { user_id = id; email = email; registered = r } in
        let (own, own') = read_v1-v1_json claims lawful access refresh in
        let (new, new') = unmarshal-v1 claims lawful access refresh in
        let x = signer.sign key (v1_access_json claims access) in
        let y = signer.sign key (v1_refresh_json claims refresh) in
        (x, y, (_, refl, new, own), (_, refl, new', own'), joined x y _ _)
      where
        joined :
            (x y : Result String) (w w' : World)
            → Joint x y
                (elim x as (λ _. (String × String) × World) [
                  | err e ↦ (("", ""), w)
                  | ok a ↦ (both claims signer (ok a) y, w')
                ]).0
        joined (err e) y w w' = refl
        joined (ok a) y w w' = both-Joint (ok a) y

    v2_sign_tokens-IsPair :
        (after later : ℤ) (id : ℕ) (email : String) (onboarding_id : ℕ) (role : String)
        (is_verify : Bool) (w : World)
        → V2Pair key id email onboarding_id role is_verify w after later
            (v2_sign_tokens claims signer key after later id email onboarding_id role is_verify w).0
    unfolding v2_sign_tokens
    v2_sign_tokens-IsPair after later id email onboarding_id role is_verify w =
        let access : V2Access claims = record {
          id = id;
          onboarding_id = onboarding_id;
          email = email;
          role = role;
          is_verify = is_verify;
          registered =
              signer.register "auth-service" "access-token" (reading 1 w)
                (signer.add (reading 0 w) after);
        } in
        let refresh : V2Refresh claims = record {
          id = id;
          email = email;
          registered =
              signer.register "auth-service" "refresh-token" (reading 3 w)
                (signer.add (reading 2 w) later);
        } in
        let (mine, mine') = unmarshal-marshal claims lawful access refresh in
        let (old, old') = read_v1-marshal claims lawful access refresh in
        (_, _, (_, refl, mine, old), (_, refl, mine', old'), both-Joint _ _)

    or_empty-Parsed :
        (x y : Result ℤ) (w : World) (P : ℤ → ℤ → String × String → Type 0)
        (f : ℤ → ℤ → (String × String) × World)
        → ((after later : ℤ) → P after later (f after later).0)
        → Parsed x y P
            (or_empty claims signer x w (λ after. or_empty claims signer y w (f after))).0
    or_empty-Parsed (ok after) (ok later) w P f h = h after later
    or_empty-Parsed (ok after) (err e) w P f h = refl
    or_empty-Parsed (err e) y w P f h = refl

    -- Where the registered claims are lawful, `GenerateTokens` of both packages gives an access and
    -- a refresh token signed with the key, where both were signed, and else two empty strings, never
    -- one token alone. The claim types of both packages read the access token as that of the user,
    -- and the refresh token as that of the user with the address, each with all of its fields. In
    -- the package security the two live for one hour and for ten; in security/v2, which also returns
    -- two empty strings where a setting does not parse, for the durations of the settings, "1h" and
    -- "10h" where they are empty, and the subjects tell the access from the refresh token.
    pub generate_tokens-IsPair :
        (expire refresh_expire : String) (id : ℕ) (email : String) (onboarding_id : ℕ)
        (role : String) (is_verify : Bool) (w : World)
        → V1Pair key id email w (v1_generate_tokens claims signer key id email w).0
          × Parsed
              (signer.parse_duration (if expire == "" then "1h" else expire))
              (signer.parse_duration (if refresh_expire == "" then "10h" else refresh_expire))
              (V2Pair key id email onboarding_id role is_verify w)
              (v2_generate_tokens claims signer key expire refresh_expire id email onboarding_id
                role is_verify w).0
    unfolding v2_generate_tokens
    generate_tokens-IsPair expire refresh_expire id email onboarding_id role is_verify w = (
      v1_generate_tokens-IsPair id email w,
      or_empty-Parsed (signer.parse_duration (if expire == "" then "1h" else expire))
          (signer.parse_duration (if refresh_expire == "" then "10h" else refresh_expire)) w
          (V2Pair key id email onboarding_id role is_verify w)
          (λ after later.
            v2_sign_tokens claims signer key after later id email onboarding_id role is_verify w)
          (λ after later.
            v2_sign_tokens-IsPair after later id email onboarding_id role is_verify w),
    )
