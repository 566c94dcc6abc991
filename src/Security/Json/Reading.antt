-- ===== src/Security/Json/Reading.antt =====
-- How reading of an object goes on at a known and at an unknown key, and for an embedded struct.
use go_cook.Shared.{
  ◌≡◌, refl, inl, inr, String, true, false, Option, none, some, Option-cases, List, [], ◌∷◌, ◌++◌,
  arith, member, All, ok,
}
use go_cook.Security.Json.{Json, Document, resolve, unmarshal}

pub unmarshal-unknown :
    {R : Type 0} (names : List String) (put : String → Json → R → Option R) (key : String)
    (v : Json) (rest : Document) (r : R)
    → resolve names key ≡ none
    → unmarshal names put ((key, v) ∷ rest) r ≡ unmarshal names put rest r
unfolding unmarshal
unmarshal-unknown names put key v rest r h = ground arith

pub unmarshal-known :
    {R : Type 0} (names : List String) (put : String → Json → R → Option R) (key name : String)
    (v : Json) (rest : Document) (r r' : R)
    → resolve names key ≡ some name
    → put name v r ≡ some r'
    → unmarshal names put ((key, v) ∷ rest) r ≡ unmarshal names put rest r'
unfolding unmarshal
unmarshal-known names put key name v rest r r' h e = ground arith

member-append :
    (key : String) (own members : List String)
    → member key members ≡ true
    → member key (own ++ members) ≡ true
member-append key [] members h = h
member-append key (name ∷ own) members h = ground (arith, member-append key own members h)

resolve-exact :
    (names : List String) (key : String) → member key names ≡ true → resolve names key ≡ some key
unfolding resolve
resolve-exact names key h = rw h refl

-- An embedded struct: `own` are the names of the outer one, and `get` and `set` lead to the inner.
pub record IsLens {R S : Type 0} (get : R → S) (set : S → R → R) : Type 0 where
  pub set-get : (r : R) → set (get r) r ≡ r
  pub get-set : (s : S) (r : R) → get (set s r) ≡ s
  pub set-set : (s t : S) (r : R) → set s (set t r) ≡ set s r

module _ {R S : Type 0} (own members : List String) (put_outer : String → Json → R → Option R)
    (put_inner : String → Json → S → Option S) (get : R → S) (set : S → R → R)
    (lens : IsLens get set)
    (delegates : (name : String) (v : Json) (r : R)
      → member name own ≡ false
      → put_outer name v r
        ≡ elim (put_inner name v (get r)) [ none ↦ none | some s ↦ some (set s r) ]) where
  -- Members of the inner struct are read as the inner struct reads them.
  pub unmarshal-embedded :
      (d : Document) (r : R) (s : S)
      → All (λ entry. (member entry.0 own ≡ false) × (member entry.0 members ≡ true)) d
      → unmarshal members put_inner d (get r) ≡ ok s
      → unmarshal (own ++ members) put_outer d r ≡ ok (set s r)
  unfolding unmarshal
  unmarshal-embedded [] r s all h = ground (arith, lens.set-get r)
  unmarshal-embedded ((key, v) ∷ d) r s all h = elim (Option-cases (put_inner key v (get r))) [
    | inl e ↦ absurd (ground (arith, resolve-exact members key all.0.1))
    | inr (t, e) ↦ ground (
      arith,
      resolve-exact members key all.0.1,
      resolve-exact (own ++ members) key (member-append key own members all.0.1),
      delegates key v r all.0.0,
      unmarshal-embedded d (set t r) s all.1,
      lens.get-set t r,
      lens.set-set s t r,
    )
  ]
