-- ===== src/Security/Claims/Older.antt =====
-- Tokens of security/v2/jwt.go read by the claim types of security/jwt.go.
use go_cook.Shared.{
  ◌≡◌, refl, ◌∙◌, ℕ, String, String-discrete, Bool, none, some, [], ◌∷◌, arith, All, ok,
}
use go_cook.Security.Json.{Document, number, text, flag, folds, folded, resolve, unmarshal}
use go_cook.Security.Json.Reading.{unmarshal-unknown, unmarshal-known, unmarshal-embedded}
use go_cook.Security.Claims.{
  RegisteredClaims, V1Access, V1Refresh, V2Access, V2Refresh, AccessWire, v1_access_names,
  put_v1_access, read_v1_access, zero_v1_access, v1_refresh_names, put_v1_refresh, read_v1_refresh,
  zero_v1_refresh,
}
use go_cook.Security.Claims.Wire.{
  access_wire_json, marshal_access, refresh_wire_json, marshal_refresh,
}
use go_cook.Security.Claims.Reading.{IsLawful, away}
use go_cook.Security.Claims.Unknown.{beside, cased, unmarshal-omit_number, unmarshal-omit_text}

module _ (claims : RegisteredClaims) (lawful : IsLawful claims) where
  open claims use {Registered}

  pub v1_access-embedded :
      (w : V1Access claims) (r : Registered)
      → w.registered ≡ claims.zero_claims
      → unmarshal (v1_access_names claims) (put_v1_access claims) (claims.encode r) w
        ≡ ok (record w { registered = r })
  unfolding put_v1_access
  v1_access-embedded w r e =
      unmarshal-embedded ("UserID" ∷ "Username" ∷ "RoleID" ∷ "IsVerify" ∷ []) claims.members
        (put_v1_access claims) claims.put (λ w. w.registered) (λ s w. record w { registered = s })
        (record { set-get = λ w. refl; get-set = λ s w. refl; set-set = λ s t w. refl })
        (λ name v w h. ground arith) (claims.encode r) w r
        (away claims lawful ("UserID" ∷ "Username" ∷ "RoleID" ∷ "IsVerify" ∷ [])
          (λ key h. ground arith) (claims.encode r) (lawful.exact r))
        (rw e (lawful.restored r))

  pub v1_refresh-embedded :
      (w : V1Refresh claims) (r : Registered)
      → w.registered ≡ claims.zero_claims
      → unmarshal (v1_refresh_names claims) (put_v1_refresh claims) (claims.encode r) w
        ≡ ok (record w { registered = r })
  unfolding put_v1_refresh
  v1_refresh-embedded w r e =
      unmarshal-embedded ("UserID" ∷ "Email" ∷ []) claims.members (put_v1_refresh claims) claims.put
        (λ w. w.registered) (λ s w. record w { registered = s })
        (record { set-get = λ w. refl; get-set = λ s w. refl; set-set = λ s t w. refl })
        (λ name v w h. ground arith) (claims.encode r) w r
        (away claims lawful ("UserID" ∷ "Email" ∷ []) (λ key h. ground arith) (claims.encode r)
          (lawful.exact r))
        (rw e (lawful.restored r))

  v1_access-unknown :
      All
        (λ key. resolve (v1_access_names claims) key ≡ none)
        ("id" ∷ "onboarding_id" ∷ "email" ∷ "role" ∷ "is_verify" ∷ [])
  unfolding resolve folded folds String-discrete
  v1_access-unknown = (
    beside claims lawful "id" refl,
    (
      beside claims lawful "onboarding_id" refl,
      (
        beside claims lawful "email" refl,
        (beside claims lawful "role" refl, (beside claims lawful "is_verify" refl, tt)),
      ),
    ),
  )

  v1_refresh-unknown : resolve (v1_refresh_names claims) "id" ≡ none
  unfolding resolve folded folds String-discrete
  v1_refresh-unknown = beside claims lawful "id" refl

  v1_access-skips :
      (w : AccessWire claims)
      → unmarshal
          (v1_access_names claims)
          (put_v1_access claims)
          (access_wire_json claims w)
          (zero_v1_access claims)
        ≡ unmarshal
            (v1_access_names claims)
            (put_v1_access claims)
            (("UserID", number w.user_id)
              ∷ ("IsVerify", flag w.legacy_verify)
              ∷ claims.encode w.registered)
            (zero_v1_access claims)
  unfolding access_wire_json
  v1_access-skips w =
      let (a, (b, (c, (d, (e, _))))) = v1_access-unknown in
      unmarshal-unknown _ _ "id" _ _ _ a
      ∙ unmarshal-omit_number _ _ "onboarding_id" w.onboarding_id _ _ b
      ∙ unmarshal-omit_text _ _ "email" w.email _ _ c
      ∙ unmarshal-omit_text _ _ "role" w.role _ _ d
      ∙ unmarshal-unknown _ _ "is_verify" _ _ _ e

  v1_access-keys :
      (n : ℕ) (b : Bool) (rest : Document)
      → unmarshal
          (v1_access_names claims)
          (put_v1_access claims)
          (("UserID", number n) ∷ ("IsVerify", flag b) ∷ rest)
          (zero_v1_access claims)
        ≡ unmarshal
            (v1_access_names claims)
            (put_v1_access claims)
            rest
            (record (zero_v1_access claims) { user_id = n; is_verify = b })
  unfolding unmarshal resolve put_v1_access String-discrete
  v1_access-keys n b rest = refl

  v1_refresh-email : resolve (v1_refresh_names claims) "email" ≡ some "Email"
  unfolding resolve folded folds String-discrete
  v1_refresh-email = cased claims lawful "email" refl "Email"

  v1_refresh-keys :
      (email : String) (n : ℕ) (rest : Document)
      → unmarshal
          (v1_refresh_names claims)
          (put_v1_refresh claims)
          (("email", text email) ∷ ("UserID", number n) ∷ rest)
          (zero_v1_refresh claims)
        ≡ unmarshal
            (v1_refresh_names claims)
            (put_v1_refresh claims)
            rest
            (record (zero_v1_refresh claims) { user_id = n; email = email })
  unfolding put_v1_refresh String-discrete
  v1_refresh-keys email n rest =
      unmarshal-known _ _ "email" "Email" _ _ _ (record (zero_v1_refresh claims) { email = email })
        v1_refresh-email refl
      ∙ unmarshal-known _ _ "UserID" "UserID" _ _ _ _ (unfold resolve in refl) refl

  -- A token of security/v2 is a token of the package security, where the registered claims are
  -- lawful: its access claims give the user's ID and whether they are verified, with no name and no
  -- roles, its refresh claims the ID and the address, and both the registered claims.
  pub read_v1-marshal :
      (c : V2Access claims) (d : V2Refresh claims)
      → (read_v1_access claims (marshal_access claims c)
          ≡ ok (record {
            user_id = c.id;
            username = "";
            role_id = [];
            is_verify = c.is_verify;
            registered = c.registered;
          }))
        × (read_v1_refresh claims (marshal_refresh claims d)
            ≡ ok (record { user_id = d.id; email = d.email; registered = d.registered }))
  unfolding marshal_access marshal_refresh refresh_wire_json
  read_v1-marshal c d = (
    v1_access-skips (record {
      id = c.id;
      onboarding_id = c.onboarding_id;
      email = c.email;
      role = c.role;
      is_verify = c.is_verify;
      user_id = c.id;
      legacy_verify = c.is_verify;
      registered = c.registered;
    })
        ∙ v1_access-keys c.id c.is_verify (claims.encode c.registered)
        ∙ v1_access-embedded
            (record (zero_v1_access claims) { user_id = c.id; is_verify = c.is_verify })
            c.registered refl,
    unmarshal-unknown _ _ "id" _ _ _ v1_refresh-unknown
        ∙ v1_refresh-keys d.email d.id (claims.encode d.registered)
        ∙ v1_refresh-embedded (record (zero_v1_refresh claims) { user_id = d.id; email = d.email })
            d.registered refl,
  )
