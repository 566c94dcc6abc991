-- ===== src/Security/Claims/Unknown.antt =====
-- Keys of one version of the claim types of security/ that the other does not know, or knows in another
-- case.
use go_cook.Shared.{
  ◌≡◌, refl, ℕ, zero, suc, String, true, Option, none, some, List, ◌++◌, if◌then◌else◌, arith,
  member,
}
use go_cook.Security.Json.{Json, Document, number, text, resolve, unmarshal}
use go_cook.Security.Json.Reading.{unmarshal-unknown}
use go_cook.Security.Claims.{RegisteredClaims, omit_number, omit_text}
use go_cook.Security.Claims.Reading.{IsLawful, apart-member, wire_keys}

pub unmarshal-omit_number :
    {R : Type 0} (names : List String) (put : String → Json → R → Option R) (key : String) (n : ℕ)
    (rest : Document) (r : R)
    → resolve names key ≡ none
    → unmarshal names put (omit_number key n ++ rest) r ≡ unmarshal names put rest r
unmarshal-omit_number names put key zero rest r h = refl
unmarshal-omit_number names put key (suc n) rest r h =
    unmarshal-unknown names put key (number (suc n)) rest r h

pub unmarshal-omit_text :
    {R : Type 0} (names : List String) (put : String → Json → R → Option R) (key s : String)
    (rest : Document) (r : R)
    → resolve names key ≡ none
    → unmarshal names put (omit_text key s ++ rest) r ≡ unmarshal names put rest r
unmarshal-omit_text names put key String.[] rest r h = refl
unmarshal-omit_text names put key (String.◌∷◌ c s) rest r h =
    unmarshal-unknown names put key (text (String.◌∷◌ c s)) rest r h

module _ (claims : RegisteredClaims) (lawful : IsLawful claims) where
  pub beside : (key : String) → member key wire_keys ≡ true → resolve claims.members key ≡ none
  unfolding resolve
  beside key h = ground (arith, apart-member claims lawful key h)

  pub cased :
      (key : String)
      → member key wire_keys ≡ true
      → (name : String) → (if member key claims.members then some key else some name) ≡ some name
  cased key h name = ground (arith, apart-member claims lawful key h)
