-- ===== src/Base/Strings.antt =====
-- Python's `repr` of a string and of a list of strings. A character beyond ASCII is printed as it
-- is, which Python does for those that can be printed.
use Prim.Native.Char.{Char, code}
use Prim.Native.Nat.{ℕ, ◌/◌, ◌%◌}
use Prim.Native.String.{String, ◌++◌ as ◌<>◌}
use mathlib.Core.Bool.{Bool, false, not, ◌&&◌, ◌||◌}
use mathlib.Core.Option.{Option, none, some}
use mathlib.Core.List.{List, [], ◌∷◌}
use mountaineer.Base.Equality.{◌==◌, if◌then◌else◌, nat_eq}
use mountaineer.Base.Lists.{get_elem?}
use mountaineer.Base.Numbers.{ltb}

-- `sep.join(parts)`
unfoldable pub join : String → List String → String
join sep [] = ""
join sep (part ∷ []) = part
join sep (part ∷ next ∷ parts) = part <> (sep <> join sep (next ∷ parts))

abbrev pub has_character : ℕ → String → Bool
has_character n String.[] = false
has_character n (String.◌∷◌ c s) = code c == n || has_character n s

abbrev hex_digits : List String
hex_digits =
    "0" ∷ "1" ∷ "2" ∷ "3" ∷ "4" ∷ "5" ∷ "6" ∷ "7" ∷ "8" ∷ "9" ∷ "a" ∷ "b" ∷ "c" ∷ "d" ∷ "e" ∷ "f"
    ∷ []

abbrev digit_or_empty : Option String → String
digit_or_empty none = ""
digit_or_empty (some d) = d

abbrev hex_digit : ℕ → String
hex_digit n = digit_or_empty (get_elem? hex_digits n)

abbrev escape_character : ℕ → Char → String
escape_character quote c =
    if code c == b'\\'
    then "\\\\"
    else if code c == quote
    then "\\" <> String.◌∷◌ c ""
    else if code c == 10
    then "\\n"
    else if code c == 13
    then "\\r"
    else if code c == 9
    then "\\t"
    else if ltb (code c) 32 || code c == 127
    then "\\x" <> hex_digit (code c / 16) <> hex_digit (code c % 16)
    else String.◌∷◌ c ""

abbrev escape_characters : ℕ → String → String
escape_characters quote String.[] = ""
escape_characters quote (String.◌∷◌ c s) = escape_character quote c <> escape_characters quote s

-- Double quotes are for a string with single quotes and no double ones.
unfoldable pub repr : String → String
repr s =
    if has_character 39 s && not (has_character 34 s)
    then "\"" <> escape_characters 34 s <> "\""
    else "'" <> escape_characters 39 s <> "'"

abbrev reprs : List String → List String
reprs [] = []
reprs (s ∷ l) = repr s ∷ reprs l

unfoldable pub repr_list : List String → String
unfolding repr join
repr_list l = "[" <> join ", " (reprs l) <> "]"
