-- ===== src/Migrations/Actions/Identifiers.antt =====
-- `assert_is_safe_sql_identifier` and `format_sql_values` of mountaineer/migrations/actions.py.
pub mod Literals
use Prim.Native.Char.{Char, code}
use Prim.Native.String.{[] as empty, ◌∷◌ as ◌▹◌}
use mountaineer.Base.{
  ℕ, zero, suc, ◌+◌, ◌-◌, ◌*◌, ◌≤◌, ◌<◌, ltb, leb, ltb→lt, leb→le, lt→ltb, arith, ◌≡◌, ◌≢◌, ◌↔◌,
  ◌⊎◌, inl, inr, refl, sym, ap, subst, ◌∙◌, ◌≡⟨◌⟩◌, ◌∎, ite, dite, if_pos, if_neg, Bool, true,
  false, not, ◌&&◌, ◌||◌, false≢true, Option, none, some, List, [], ◌∷◌, ◌++◌, map, String, ◌<>◌,
  Eq, ◌==◌, ==-true, ==-false, contains, if◌then◌else◌, string_eq, nat_eq, option_eq, bool_eq,
  Bool-cases, Option-cases, length, drop, get_elem?, index_from, CutAt, index_from-CutAt, all, All,
  All-append, All-suffix, all-append, length-append,
}
use mountaineer.Base.Strings.{join}
use mountaineer.Base.Exec.{
  Error, Result, ok, err, value_error, type_error, key_error, attribute_error, assertion_error,
  not_implemented_error, cycle_error, invalid_request_error, database_error, result_error,
  out_of_fuel, Exec, pure, raise, lift, continue, ◌>>=◌, ◌>>◌, guard, when, for_each, ok-injective,
  Result-cases, >>=-eq-ok,
}

-- `[A-Za-z_]` and `[A-Za-z0-9_]`
abbrev is_letter_or_underscore : ℕ → Bool
is_letter_or_underscore c = (leb b'A' c && leb c b'Z') || (leb b'a' c && leb c b'z') || c == b'_'

abbrev is_word_character : ℕ → Bool
is_word_character c = is_letter_or_underscore c || (leb b'0' c && leb c b'9')

abbrev word_characters : String → Bool
word_characters String.[] = true
word_characters (String.◌∷◌ c s) = is_word_character (code c) && word_characters s

-- `re_fullmatch(r"^[A-Za-z_][A-Za-z0-9_]*$", identifier) is not None`
unfoldable pub is_safe_sql_identifier : String → Bool
is_safe_sql_identifier String.[] = false
is_safe_sql_identifier (String.◌∷◌ c s) = is_letter_or_underscore (code c) && word_characters s

unfoldable pub assert_is_safe_sql_identifier : {S : Type 0} → String → Exec S (Unit {0})
unfolding is_safe_sql_identifier
assert_is_safe_sql_identifier identifier = guard (is_safe_sql_identifier identifier) value_error

-- `value.replace("'", "''")`
unfoldable pub escape_quotes : String → String
escape_quotes String.[] = ""
escape_quotes (String.◌∷◌ c s) =
    let rest = escape_quotes s in
    if code c == b'\'' then String.◌∷◌ c (String.◌∷◌ c rest) else String.◌∷◌ c rest

unfoldable pub format_sql_value : String → String
unfolding escape_quotes
format_sql_value value = "'" <> (escape_quotes value <> "'")

unfoldable pub format_sql_values : List String → String
unfolding format_sql_value join
format_sql_values values = join ", " (map format_sql_value values)
