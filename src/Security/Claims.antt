-- ===== src/Security/Claims.antt =====
-- security/jwt.go and security/v2/jwt.go: the claim types with their JSON forms. `V1` is the package
-- security, `V2` the package security/v2.
pub mod Reading
pub mod Wire
pub mod Unknown
pub mod Older
pub mod Own
pub mod Versions
use go_cook.Shared.{
  ℕ, zero, suc, String, Bool, true, false, ◌||◌, Option, none, some, List, [], ◌∷◌, ◌++◌,
  if◌then◌else◌, ◌==◌, Error, Result, ok, err,
}
use go_cook.Security.Json.{
  Json, null, number, text, flag, numbers, Document, unmarshal, as_number, as_text, as_flag,
  as_numbers,
}

-- `jwt.RegisteredClaims`, whose fields stand among those of the struct that embeds it: the names of
-- its members, how it is written, and how a member is read.
pub record RegisteredClaims : Type 1 where
  pub Registered : Type 0
  pub zero_claims : Registered
  pub members : List String
  pub encode : Registered → Document
  pub put : String → Json → Registered → Option Registered

-- `omitempty`
abbrev pub omit_number : String → ℕ → Document
omit_number key zero = []
omit_number key (suc n) = (key, number (suc n)) ∷ []

abbrev pub omit_text : String → String → Document
omit_text key String.[] = []
omit_text key (String.◌∷◌ c s) = (key, text (String.◌∷◌ c s)) ∷ []

-- A nil slice is written as null.
abbrev pub slice : List ℕ → Json
slice [] = null
slice (n ∷ l) = numbers (n ∷ l)

module _ (claims : RegisteredClaims) where
  open claims use {Registered}

  -- `security.JWTAccessClaim`
  pub record V1Access : Type 0 where
    pub user_id : ℕ
    pub username : String
    pub role_id : List ℕ
    pub is_verify : Bool
    pub registered : Registered

  -- `security.JWTRefreshClaim`
  pub record V1Refresh : Type 0 where
    pub user_id : ℕ
    pub email : String
    pub registered : Registered

  -- `v2.JWTAccessClaim`
  pub record V2Access : Type 0 where
    pub id : ℕ
    pub onboarding_id : ℕ
    pub email : String
    pub role : String
    pub is_verify : Bool
    pub registered : Registered

  -- `v2.JWTRefreshClaim`
  pub record V2Refresh : Type 0 where
    pub id : ℕ
    pub email : String
    pub registered : Registered

  -- `accessWire`
  pub record AccessWire : Type 0 where
    pub id : ℕ
    pub onboarding_id : ℕ
    pub email : String
    pub role : String
    pub is_verify : Bool
    pub user_id : ℕ
    pub legacy_verify : Bool
    pub registered : Registered

  -- `refreshWire`
  pub record RefreshWire : Type 0 where
    pub id : ℕ
    pub email : String
    pub user_id : ℕ
    pub registered : Registered

  abbrev pub lift : {A B : Type 0} → (A → B) → Option A → Option B
  lift f none = none
  lift f (some a) = some (f a)

  -- How `encoding/json` writes and reads the structs of the package security.
  unfoldable pub v1_access_json : V1Access → Document
  v1_access_json c =
      ("UserID", number c.user_id)
      ∷ ("Username", text c.username)
      ∷ ("RoleID", slice c.role_id)
      ∷ ("IsVerify", flag c.is_verify)
      ∷ claims.encode c.registered

  abbrev pub v1_access_names : List String
  v1_access_names = "UserID" ∷ "Username" ∷ "RoleID" ∷ "IsVerify" ∷ claims.members

  unfoldable pub put_v1_access : String → Json → V1Access → Option V1Access
  put_v1_access name v c =
      if name == "UserID"
      then lift (λ n. record c { user_id = n }) (as_number v c.user_id)
      else if name == "Username"
      then lift (λ s. record c { username = s }) (as_text v c.username)
      else if name == "RoleID"
      then lift (λ l. record c { role_id = l }) (as_numbers v c.role_id)
      else if name == "IsVerify"
      then lift (λ b. record c { is_verify = b }) (as_flag v c.is_verify)
      else lift (λ r. record c { registered = r }) (claims.put name v c.registered)

  unfoldable pub v1_refresh_json : V1Refresh → Document
  v1_refresh_json c =
      ("UserID", number c.user_id) ∷ ("Email", text c.email) ∷ claims.encode c.registered

  abbrev pub v1_refresh_names : List String
  v1_refresh_names = "UserID" ∷ "Email" ∷ claims.members

  unfoldable pub put_v1_refresh : String → Json → V1Refresh → Option V1Refresh
  put_v1_refresh name v c =
      if name == "UserID"
      then lift (λ n. record c { user_id = n }) (as_number v c.user_id)
      else if name == "Email"
      then lift (λ s. record c { email = s }) (as_text v c.email)
      else lift (λ r. record c { registered = r }) (claims.put name v c.registered)

  abbrev pub zero_v1_access : V1Access
  zero_v1_access = record {
    user_id = 0;
    username = "";
    role_id = [];
    is_verify = false;
    registered = claims.zero_claims;
  }

  abbrev pub zero_v1_refresh : V1Refresh
  zero_v1_refresh = record { user_id = 0; email = ""; registered = claims.zero_claims }

  -- `json.Unmarshal` into the claim types of the package security
  abbrev pub read_v1_access : Document → Result V1Access
  read_v1_access d = unmarshal v1_access_names put_v1_access d zero_v1_access

  abbrev pub read_v1_refresh : Document → Result V1Refresh
  read_v1_refresh d = unmarshal v1_refresh_names put_v1_refresh d zero_v1_refresh
