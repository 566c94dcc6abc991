-- ===== src/Security/Claims/Reading.antt =====
-- What the claim types of security/jwt.go and security/v2/jwt.go read from each other's tokens.
use go_cook.Shared.{
  ◌≡◌, refl, ℕ, zero, suc, String, String-discrete, Bool, true, false, none, List, [], ◌∷◌, arith,
  member, member-All, All, ok,
}
use go_cook.Security.Json.{Document, folded, resolve, unmarshal}
use go_cook.Security.Json.Reading.{unmarshal-embedded}
use go_cook.Security.Claims.{RegisteredClaims, V2Access, V2Refresh, AccessWire, RefreshWire}
use go_cook.Security.Claims.Wire.{
  access_wire_json, access_names, put_access, zero_access, marshal_access, unmarshal_access,
  or_legacy, refresh_wire_json, refresh_names, put_refresh, zero_refresh, marshal_refresh,
  unmarshal_refresh,
}

-- The keys that the packages write themselves.
abbrev pub wire_keys : List String
wire_keys =
    "id" ∷ "onboarding_id" ∷ "email" ∷ "role" ∷ "is_verify" ∷ "UserID" ∷ "IsVerify" ∷ "Username"
    ∷ "RoleID" ∷ "Email" ∷ []

-- Registered claims survive their own encoding, are written under the exact names of their members,
-- and no member goes by a key that the packages write, in whatever case.
pub record IsLawful (claims : RegisteredClaims) : Type 0 where
  pub restored :
      (r : claims.Registered)
      → unmarshal claims.members claims.put (claims.encode r) claims.zero_claims ≡ ok r
  pub exact :
      (r : claims.Registered)
      → All (λ entry. member entry.0 claims.members ≡ true) (claims.encode r)
  pub apart :
      All
        (λ key. (member key claims.members ≡ false) × (folded key claims.members ≡ none))
        wire_keys

pub apart-member :
    (claims : RegisteredClaims)
    → IsLawful claims
    → (key : String) → member key wire_keys ≡ true
    → (member key claims.members ≡ false) × (folded key claims.members ≡ none)
apart-member claims lawful key h =
    member-All (λ j. (member j claims.members ≡ false) × (folded j claims.members ≡ none)) key
      wire_keys h lawful.apart

module _ (claims : RegisteredClaims) (lawful : IsLawful claims) where
  open claims use {Registered}

  pub away :
      (own : List String)
      → ((key : String) → member key own ≡ true → member key wire_keys ≡ true)
      → (d : Document) → All (λ entry. member entry.0 claims.members ≡ true) d
      → All (λ entry. (member entry.0 own ≡ false) × (member entry.0 claims.members ≡ true)) d
  away own sub [] h = tt
  away own sub ((key, v) ∷ d) h =
      (ground (arith, sub key, apart-member claims lawful key), away own sub d h.1)

  or_legacy-same : (n : ℕ) → or_legacy claims n n ≡ n
  or_legacy-same zero = refl
  or_legacy-same (suc n) = refl

  pub access-embedded :
      (w : AccessWire claims) (r : Registered)
      → w.registered ≡ claims.zero_claims
      → unmarshal (access_names claims) (put_access claims) (claims.encode r) w
        ≡ ok (record w { registered = r })
  unfolding put_access
  access-embedded w r e =
      unmarshal-embedded
        ("id" ∷ "onboarding_id" ∷ "email" ∷ "role" ∷ "is_verify" ∷ "UserID" ∷ "IsVerify" ∷ [])
        claims.members (put_access claims) claims.put (λ w. w.registered)
        (λ s w. record w { registered = s })
        (record { set-get = λ w. refl; get-set = λ s w. refl; set-set = λ s t w. refl })
        (λ name v w h. ground arith) (claims.encode r) w r
        (away ("id" ∷ "onboarding_id" ∷ "email" ∷ "role" ∷ "is_verify" ∷ "UserID" ∷ "IsVerify" ∷ [])
          (λ key h. ground arith) (claims.encode r) (lawful.exact r))
        (rw e (lawful.restored r))

  access_wire-front :
      (id onboarding_id : ℕ) (email role : String) (is_verify : Bool) (user_id : ℕ) (legacy : Bool)
      (r : Registered)
      → let w : AccessWire claims = record {
        id = id;
        onboarding_id = onboarding_id;
        email = email;
        role = role;
        is_verify = is_verify;
        user_id = user_id;
        legacy_verify = legacy;
        registered = claims.zero_claims;
      } in
        unmarshal
          (access_names claims)
          (put_access claims)
          (access_wire_json claims (record w { registered = r }))
          (zero_access claims)
        ≡ unmarshal (access_names claims) (put_access claims) (claims.encode r) w
  unfolding unmarshal resolve put_access access_wire_json String-discrete
  access_wire-front id zero String.[] String.[] b u l r = refl
  access_wire-front id (suc n) String.[] String.[] b u l r = refl
  access_wire-front id zero (String.◌∷◌ c s) String.[] b u l r = refl
  access_wire-front id (suc n) (String.◌∷◌ c s) String.[] b u l r = refl
  access_wire-front id zero String.[] (String.◌∷◌ d t) b u l r = refl
  access_wire-front id (suc n) String.[] (String.◌∷◌ d t) b u l r = refl
  access_wire-front id zero (String.◌∷◌ c s) (String.◌∷◌ d t) b u l r = refl
  access_wire-front id (suc n) (String.◌∷◌ c s) (String.◌∷◌ d t) b u l r = refl

  pub refresh-embedded :
      (w : RefreshWire claims) (r : Registered)
      → w.registered ≡ claims.zero_claims
      → unmarshal (refresh_names claims) (put_refresh claims) (claims.encode r) w
        ≡ ok (record w { registered = r })
  unfolding put_refresh
  refresh-embedded w r e =
      unmarshal-embedded ("id" ∷ "email" ∷ "UserID" ∷ []) claims.members (put_refresh claims)
        claims.put (λ w. w.registered) (λ s w. record w { registered = s })
        (record { set-get = λ w. refl; get-set = λ s w. refl; set-set = λ s t w. refl })
        (λ name v w h. ground arith) (claims.encode r) w r
        (away ("id" ∷ "email" ∷ "UserID" ∷ []) (λ key h. ground arith) (claims.encode r)
          (lawful.exact r))
        (rw e (lawful.restored r))

  refresh_wire-front :
      (id : ℕ) (email : String) (user_id : ℕ) (r : Registered)
      → let w : RefreshWire claims = record {
        id = id;
        email = email;
        user_id = user_id;
        registered = claims.zero_claims;
      } in
        unmarshal
          (refresh_names claims)
          (put_refresh claims)
          (refresh_wire_json claims (record w { registered = r }))
          (zero_refresh claims)
        ≡ unmarshal (refresh_names claims) (put_refresh claims) (claims.encode r) w
  unfolding unmarshal resolve put_refresh refresh_wire_json String-discrete
  refresh_wire-front id email u r = refl

  access-marshal : (c : V2Access claims) → unmarshal_access claims (marshal_access claims c) ≡ ok c
  unfolding unmarshal_access marshal_access
  access-marshal c = ground (
    arith,
    access_wire-front c.id c.onboarding_id c.email c.role c.is_verify c.id c.is_verify c.registered,
    access-embedded
        (record {
          id = c.id;
          onboarding_id = c.onboarding_id;
          email = c.email;
          role = c.role;
          is_verify = c.is_verify;
          user_id = c.id;
          legacy_verify = c.is_verify;
          registered = claims.zero_claims;
        })
        c.registered refl,
    or_legacy-same c.id,
  )

  refresh-marshal :
      (c : V2Refresh claims) → unmarshal_refresh claims (marshal_refresh claims c) ≡ ok c
  unfolding unmarshal_refresh marshal_refresh
  refresh-marshal c = ground (
    arith,
    refresh_wire-front c.id c.email c.id c.registered,
    refresh-embedded
        (record { id = c.id; email = c.email; user_id = c.id; registered = claims.zero_claims })
        c.registered refl,
    or_legacy-same c.id,
  )

  -- Both claim types of security/v2 read back what they have written, where the registered claims
  -- are lawful.
  pub unmarshal-marshal :
      (c : V2Access claims) (d : V2Refresh claims)
      → (unmarshal_access claims (marshal_access claims c) ≡ ok c)
        × (unmarshal_refresh claims (marshal_refresh claims d) ≡ ok d)
  unmarshal-marshal c d = (access-marshal c, refresh-marshal d)
