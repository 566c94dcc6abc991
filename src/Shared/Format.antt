-- ===== src/Shared/Format.antt =====
-- `fmt.Sprintf` for the verbs `%s`, `%d` and `%%`, with what it does on a missing or an extra
-- argument, and the decimal print.
use Prim.Native.Nat.{ℕ, zero, suc, ◌/◌, ◌%◌}
use Prim.Native.Char.{Char, code}
use Prim.Native.String.{String}
use mathlib.Core.Path.{◌≡◌, refl}
use mathlib.Core.Bool.{Bool, true, false}
use mathlib.Core.List.{List, [], ◌∷◌}
use go_cook.Shared.Tests.{ltb, leb, if◌then◌else◌}
use go_cook.Shared.Text.{◌<>◌}

abbrev digit : ℕ → String
digit n =
    if leb n 0
    then "0"
    else if leb n 1
    then "1"
    else if leb n 2
    then "2"
    else if leb n 3
    then "3"
    else if leb n 4
    then "4"
    else if leb n 5
    then "5"
    else if leb n 6
    then "6"
    else if leb n 7
    then "7"
    else if leb n 8
    then "8"
    else "9"

print_digits : ℕ → ℕ → String
print_digits zero n = ""
print_digits (suc fuel) n =
    let high = print_digits fuel (n / 10) in if ltb n 10 then digit n else high <> digit (n % 10)

-- `strconv.FormatUint(n, 10)`; a number has at most as many digits as its size plus one.
unfoldable pub print : ℕ → String
unfolding print_digits
print n = print_digits (suc n) n

pub data Arg : Type 0 where
  str : String → Arg
  uint64 : ℕ → Arg

abbrev show : Arg → String
show (str s) = s
show (uint64 n) = print n

-- The type and the value, as `%!(EXTRA …)` reports them.
abbrev describe : Arg → String
describe (str s) = "string=" <> s
describe (uint64 n) = "uint64=" <> print n

describe_all : Arg → List Arg → String
describe_all a [] = describe a
describe_all a (b ∷ rest) = describe a <> ", " <> describe_all b rest

abbrev extra : List Arg → String
unfolding describe_all
extra [] = ""
extra (a ∷ rest) = "%!(EXTRA " <> describe_all a rest <> ")"

abbrev is_percent : Char → Bool
is_percent c = if leb (code c) b'%' then leb b'%' (code c) else false

-- One pass over the format; the flag says that the last character was `%`. As everywhere in the
-- source, `%s` meets strings and `%d` unsigned numbers, so a verb prints its argument by kind.
format : Bool → String → List Arg → String
unfolding extra
format false String.[] args = extra args
format false (String.◌∷◌ c s) args = elim (is_percent c) [
  | true ↦ format true s args
  | false ↦ String.◌∷◌ c (format false s args)
]
format true String.[] args = "%!(NOVERB)" <> extra args
format true (String.◌∷◌ c s) [] = elim (is_percent c) [
  | true ↦ "%" <> format false s []
  | false ↦ "%!" <> (String.◌∷◌ c ("(MISSING)" <> format false s []))
]
format true (String.◌∷◌ c s) (a ∷ args) = elim (is_percent c) [
  | true ↦ "%" <> format false s (a ∷ args)
  | false ↦ show a <> format false s args
]

-- `fmt.Sprintf(layout, args...)`
unfoldable pub sprintf : String → List Arg → String
unfolding format
sprintf layout args = format false layout args

sprintf_extra :
    sprintf "a %s = %d%%" (str "b" ∷ uint64 120 ∷ uint64 7 ∷ []) ≡ "a b = 120%%!(EXTRA uint64=7)"
unfolding sprintf print
sprintf_extra = refl

abbrev hex_digit : ℕ → String
hex_digit n =
    if leb n 9
    then digit n
    else if leb n 10
    then "a"
    else if leb n 11
    then "b"
    else if leb n 12
    then "c"
    else if leb n 13
    then "d"
    else if leb n 14
    then "e"
    else "f"

abbrev same : ℕ → ℕ → Bool
same n k = if leb n k then leb k n else false

-- What `%q` makes of a character: a backslash before a quote or a backslash, and an escape for a
-- control character of ASCII.
abbrev escape_char : Char → String
escape_char c =
    let n = code c in
    if same n 34
    then "\\\""
    else if same n 92
    then "\\\\"
    else if same n 7
    then "\\a"
    else if same n 8
    then "\\b"
    else if same n 9
    then "\\t"
    else if same n 10
    then "\\n"
    else if same n 11
    then "\\v"
    else if same n 12
    then "\\f"
    else if same n 13
    then "\\r"
    else if (if ltb n 32 then true else same n 127)
    then "\\x" <> hex_digit (n / 16) <> hex_digit (n % 16)
    else String.◌∷◌ c ""

escape : String → String
escape String.[] = ""
escape (String.◌∷◌ c s) = escape_char c <> escape s

-- The verb `%q` on a text whose characters beyond ASCII are printable.
unfoldable pub quote : String → String
unfolding escape
quote s = "\"" <> escape s <> "\""

quote_controls : quote "a\n\"b\"\\" ≡ "\"a\\n\\\"b\\\"\\\\\""
unfolding quote
quote_controls = refl
