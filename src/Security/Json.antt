-- ===== src/Security/Json.antt =====
-- What the packages use of `encoding/json`: objects written field by field, and read key by key.
pub mod Reading
use Prim.Native.Char.{Char, code}
use go_cook.Shared.{
  ℕ, ◌+◌, String, Bool, true, false, Option, none, some, List, [], ◌∷◌, if◌then◌else◌, leb, member,
  Error, new, Result, ok, err,
}

pub data Json : Type 0 where
  null : Json
  number : ℕ → Json
  text : String → Json
  flag : Bool → Json
  numbers : List ℕ → Json

abbrev pub Document : Type 0
Document = List (String × Json)

-- Case folding, as far as it concerns ASCII letters: upper case, the long s and the Kelvin sign.
abbrev fold : ℕ → ℕ
fold c =
    if leb c 64
    then c
    else if leb c 90
    then c + 32
    else if leb c 382
    then c
    else if leb c 383
    then 115
    else if leb c 8489
    then c
    else if leb c 8490
    then 107
    else c

-- Two keys that differ at most in case.
unfoldable pub folds : String → String → Bool
folds String.[] String.[] = true
folds String.[] (String.◌∷◌ d t) = false
folds (String.◌∷◌ c s) String.[] = false
folds (String.◌∷◌ c s) (String.◌∷◌ d t) =
    let rest = folds s t in
    let x = fold (code c) in
    let y = fold (code d) in if leb x y then if leb y x then rest else false else false

-- The first name that a key folds to.
unfoldable pub folded : String → List String → Option String
folded key [] = none
folded key (name ∷ rest) = if folds key name then some name else folded key rest

-- The field that a key of an object names, of a struct's fields: exactly, or else in another case.
unfoldable pub resolve : List String → String → Option String
unfolding folded
resolve names key = if member key names then some key else folded key names

-- `json.Unmarshal` of an object into a struct: `put` assigns a value to a field, unless the type of
-- the value is wrong. Unknown keys are ignored, later values replace earlier ones.
unfoldable pub unmarshal :
    {R : Type 0} → List String → (String → Json → R → Option R) → Document → R → Result R
unmarshal names put [] r = ok r
unmarshal names put ((key, v) ∷ rest) r = elim (resolve names key) [
  | none ↦ unmarshal names put rest r
  | some name ↦ elim (put name v r) [
    | none ↦ err (new "json: cannot unmarshal value")
    | some r' ↦ unmarshal names put rest r'
  ]
]

-- Values for fields of Go's types; null leaves a field as it is.
abbrev pub as_number : Json → ℕ → Option ℕ
as_number (number n) old = some n
as_number null old = some old
as_number _ old = none

abbrev pub as_text : Json → String → Option String
as_text (text s) old = some s
as_text null old = some old
as_text _ old = none

abbrev pub as_flag : Json → Bool → Option Bool
as_flag (flag b) old = some b
as_flag null old = some old
as_flag _ old = none

-- A slice of numbers; null makes it nil.
abbrev pub as_numbers : Json → List ℕ → Option (List ℕ)
as_numbers (numbers l) old = some l
as_numbers null old = some []
as_numbers _ old = none
