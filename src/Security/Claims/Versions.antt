-- ===== src/Security/Claims/Versions.antt =====
-- Tokens of security/jwt.go read by the claim types of security/v2/jwt.go.
use go_cook.Shared.{
  ◌≡◌, refl, ◌∙◌, ℕ, String, String-discrete, Bool, none, some, List, ◌∷◌, arith, ok,
}
use go_cook.Security.Json.{Document, number, text, flag, folds, folded, resolve, unmarshal}
use go_cook.Security.Json.Reading.{unmarshal-unknown, unmarshal-known}
use go_cook.Security.Claims.{
  RegisteredClaims, V1Access, V1Refresh, v1_access_json, v1_refresh_json, slice,
}
use go_cook.Security.Claims.Wire.{
  access_names, put_access, zero_access, unmarshal_access, refresh_names, put_refresh, zero_refresh,
  unmarshal_refresh,
}
use go_cook.Security.Claims.Reading.{IsLawful, access-embedded, refresh-embedded}
use go_cook.Security.Claims.Unknown.{beside, cased}

module _ (claims : RegisteredClaims) (lawful : IsLawful claims) where
  open claims use {Registered}

  access-unknown :
      (resolve (access_names claims) "Username" ≡ none)
      × (resolve (access_names claims) "RoleID" ≡ none)
  unfolding resolve folded folds String-discrete
  access-unknown = (beside claims lawful "Username" refl, beside claims lawful "RoleID" refl)

  access-known :
      (resolve (access_names claims) "UserID" ≡ some "UserID")
      × (resolve (access_names claims) "IsVerify" ≡ some "IsVerify")
      × (resolve (refresh_names claims) "UserID" ≡ some "UserID")
  unfolding resolve String-discrete
  access-known = (refl, refl, refl)

  access-keys :
      (n : ℕ) (s : String) (l : List ℕ) (b : Bool) (rest : Document)
      → unmarshal
          (access_names claims)
          (put_access claims)
          (("UserID", number n)
            ∷ ("Username", text s)
            ∷ ("RoleID", slice l)
            ∷ ("IsVerify", flag b)
            ∷ rest)
          (zero_access claims)
        ≡ unmarshal
            (access_names claims)
            (put_access claims)
            rest
            (record (zero_access claims) { user_id = n; legacy_verify = b })
  unfolding put_access String-discrete
  access-keys n s l b rest =
      unmarshal-known _ _ "UserID" "UserID" _ _ _ (record (zero_access claims) { user_id = n })
        access-known.0 refl
      ∙ unmarshal-unknown _ _ "Username" _ _ _ access-unknown.0
      ∙ unmarshal-unknown _ _ "RoleID" _ _ _ access-unknown.1
      ∙ unmarshal-known _ _ "IsVerify" "IsVerify" _ _ _ _ access-known.1 refl

  refresh-email : resolve (refresh_names claims) "Email" ≡ some "email"
  unfolding resolve folded folds String-discrete
  refresh-email = cased claims lawful "Email" refl "email"

  refresh-keys :
      (n : ℕ) (email : String) (rest : Document)
      → unmarshal
          (refresh_names claims)
          (put_refresh claims)
          (("UserID", number n) ∷ ("Email", text email) ∷ rest)
          (zero_refresh claims)
        ≡ unmarshal
            (refresh_names claims)
            (put_refresh claims)
            rest
            (record (zero_refresh claims) { user_id = n; email = email })
  unfolding put_refresh String-discrete
  refresh-keys n email rest =
      unmarshal-known _ _ "UserID" "UserID" _ _ _ (record (zero_refresh claims) { user_id = n })
        access-known.2 refl
      ∙ unmarshal-known _ _ "Email" "email" _ _ _ _ refresh-email refl

  -- A token of the package security is a token of security/v2, where the registered claims are
  -- lawful: its access claims give the ID and whether the user is verified, its refresh claims the
  -- ID and the address, and both the registered claims; what the package security does not know is
  -- left at zero.
  pub unmarshal-v1 :
      (c : V1Access claims) (d : V1Refresh claims)
      → (unmarshal_access claims (v1_access_json claims c)
          ≡ ok (record {
            id = c.user_id;
            onboarding_id = 0;
            email = "";
            role = "";
            is_verify = c.is_verify;
            registered = c.registered;
          }))
        × (unmarshal_refresh claims (v1_refresh_json claims d)
            ≡ ok (record { id = d.user_id; email = d.email; registered = d.registered }))
  unfolding v1_access_json v1_refresh_json unmarshal_access unmarshal_refresh
  unmarshal-v1 c d = (
    ground (
      arith,
      access-keys c.user_id c.username c.role_id c.is_verify (claims.encode c.registered),
      access-embedded claims lawful
          (record (zero_access claims) { user_id = c.user_id; legacy_verify = c.is_verify })
          c.registered refl,
    ),
    ground (
      arith,
      refresh-keys d.user_id d.email (claims.encode d.registered),
      refresh-embedded claims lawful
          (record (zero_refresh claims) { user_id = d.user_id; email = d.email }) d.registered refl,
    ),
  )
