-- ===== src/Security/Claims/Own.antt =====
-- Tokens of security/jwt.go read by the claim types of the same file.
use go_cook.Shared.{◌≡◌, refl, ◌∙◌, ℕ, String, String-discrete, Bool, List, [], ◌∷◌, ok}
use go_cook.Security.Json.{Document, number, text, flag, resolve, unmarshal}
use go_cook.Security.Claims.{
  RegisteredClaims, V1Access, V1Refresh, v1_access_json, v1_refresh_json, slice, v1_access_names,
  put_v1_access, read_v1_access, zero_v1_access, v1_refresh_names, put_v1_refresh, read_v1_refresh,
  zero_v1_refresh,
}
use go_cook.Security.Claims.Reading.{IsLawful}
use go_cook.Security.Claims.Older.{v1_access-embedded, v1_refresh-embedded}

module _ (claims : RegisteredClaims) (lawful : IsLawful claims) where
  own_access-keys :
      (n : ℕ) (s : String) (l : List ℕ) (b : Bool) (rest : Document)
      → unmarshal
          (v1_access_names claims)
          (put_v1_access claims)
          (("UserID", number n)
            ∷ ("Username", text s)
            ∷ ("RoleID", slice l)
            ∷ ("IsVerify", flag b)
            ∷ rest)
          (zero_v1_access claims)
        ≡ unmarshal (v1_access_names claims) (put_v1_access claims) rest (record {
          user_id = n;
          username = s;
          role_id = l;
          is_verify = b;
          registered = claims.zero_claims;
        })
  unfolding unmarshal resolve put_v1_access String-discrete
  own_access-keys n s [] b rest = refl
  own_access-keys n s (m ∷ l) b rest = refl

  own_refresh-keys :
      (n : ℕ) (email : String) (rest : Document)
      → unmarshal
          (v1_refresh_names claims)
          (put_v1_refresh claims)
          (("UserID", number n) ∷ ("Email", text email) ∷ rest)
          (zero_v1_refresh claims)
        ≡ unmarshal
            (v1_refresh_names claims)
            (put_v1_refresh claims)
            rest
            (record { user_id = n; email = email; registered = claims.zero_claims })
  unfolding unmarshal resolve put_v1_refresh String-discrete
  own_refresh-keys n email rest = refl

  -- The claims of the package security survive their own encoding, where the registered claims are
  -- lawful: an empty list of roles, which is written as null, is read as one again.
  pub read_v1-v1_json :
      (c : V1Access claims) (d : V1Refresh claims)
      → (read_v1_access claims (v1_access_json claims c) ≡ ok c)
        × (read_v1_refresh claims (v1_refresh_json claims d) ≡ ok d)
  unfolding v1_access_json v1_refresh_json
  read_v1-v1_json c d = (
    own_access-keys c.user_id c.username c.role_id c.is_verify (claims.encode c.registered)
        ∙ v1_access-embedded claims lawful (record c { registered = claims.zero_claims })
            c.registered refl,
    own_refresh-keys d.user_id d.email (claims.encode d.registered)
        ∙ v1_refresh-embedded claims lawful (record d { registered = claims.zero_claims })
            d.registered refl,
  )
