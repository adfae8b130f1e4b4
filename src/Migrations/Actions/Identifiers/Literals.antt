-- ===== src/Migrations/Actions/Identifiers/Literals.antt =====
-- Reading back the literals that `format_sql_values` writes.
use Prim.Native.Char.{Char, code}
use text.Mathlib.TextLemmas.{nil-append, cons-append, append_assoc}
use mountaineer.Base.{
  arith, ◌≡◌, ◌≢◌, refl, ap, ◌∙◌, Bool, true, false, Option, none, some, String, ◌<>◌, ◌==◌,
  ==-true, ==-false, if◌then◌else◌, string_eq, nat_eq, option_eq, bool_eq,
}
use mountaineer.Migrations.Actions.Identifiers.{escape_quotes, format_sql_value}

abbrev push : Char → Option (String × String) → Option (String × String)
push c none = none
push c (some (v, rest)) = some (String.◌∷◌ c v, rest)

-- How SQL reads a literal whose opening quote has been read: its value, and the text behind it. A
-- doubled quote is a quote, any other ends the literal. The flag: the last character was a quote
-- that may be one or the other.
pub read_quoted : Bool → String → Option (String × String)
read_quoted false String.[] = none
read_quoted true String.[] = some ("", "")
read_quoted false (String.◌∷◌ c s) = elim (code c == b'\'') [
  | true ↦ read_quoted true s
  | false ↦ push c (read_quoted false s)
]
read_quoted true (String.◌∷◌ c s) = elim (code c == b'\'') [
  | true ↦ push c (read_quoted false s)
  | false ↦ some ("", String.◌∷◌ c s)
]

abbrev pub NoQuoteFirst : String → Type 0
NoQuoteFirst String.[] = Unit
NoQuoteFirst (String.◌∷◌ c s) = code c ≢ b'\''

read_quoted_end : (rest : String) → NoQuoteFirst rest → read_quoted true rest ≡ some ("", rest)
unfolding read_quoted
read_quoted_end String.[] h = refl
read_quoted_end (String.◌∷◌ c s) h = ground arith

step_quote :
    (c : Char) (s : String)
    → code c ≡ b'\''
    → read_quoted false (String.◌∷◌ c s) ≡ read_quoted true s
unfolding read_quoted
step_quote c s q = rw (==-true (code c) b'\'' q, read_quoted)

step_second_quote :
    (c : Char) (s : String)
    → code c ≡ b'\''
    → read_quoted true (String.◌∷◌ c s) ≡ push c (read_quoted false s)
unfolding read_quoted
step_second_quote c s q = rw (==-true (code c) b'\'' q, read_quoted)

step_other :
    (c : Char) (s : String)
    → code c ≢ b'\''
    → read_quoted false (String.◌∷◌ c s) ≡ push c (read_quoted false s)
unfolding read_quoted
step_other c s q = rw (==-false (code c) b'\'' q, read_quoted)

read_quoted-escape_quotes :
    (value rest : String)
    → NoQuoteFirst rest
    → read_quoted false (escape_quotes value <> ("'" <> rest)) ≡ some (value, rest)
unfolding escape_quotes
read_quoted-escape_quotes String.[] rest h =
    rw (nil-append, cons-append, nil-append) (step_quote _ rest refl ∙ read_quoted_end rest h)
read_quoted-escape_quotes (String.◌∷◌ c value) rest h = elim (nat_eq.dec (code c) b'\'') [
  | yes q ↦
      rw (==-true (code c) b'\'' q, cons-append, cons-append)
        (step_quote c _ q
          ∙ step_second_quote c _ q
          ∙ ap (push c) (read_quoted-escape_quotes value rest h))
  | no q ↦
      rw (==-false (code c) b'\'' q, cons-append)
        (step_other c _ q ∙ ap (push c) (read_quoted-escape_quotes value rest h))
]

abbrev pub read_literal : String → Option (String × String)
read_literal String.[] = none
read_literal (String.◌∷◌ c s) = if code c == b'\'' then read_quoted false s else none

-- If no quote follows it, a formatted value reads back as the value, whatever characters it has,
-- and leaves the text behind it.
pub read_literal-format_sql_value :
    (value rest : String)
    → NoQuoteFirst rest
    → read_literal (format_sql_value value <> rest) ≡ some (value, rest)
unfolding format_sql_value nat_eq
read_literal-format_sql_value value rest h =
    rw (append_assoc, cons-append, nil-append, append_assoc)
      (read_quoted-escape_quotes value rest h)
