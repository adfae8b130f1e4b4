-- ===== src/Migrations/Generator.antt =====
-- mountaineer/migrations/generator.py: `actions_to_code`, with `format_arg` for the values that
-- actions have, and `indent_code`. `json_dumps` of a string, from the standard library, is an
-- argument: it quotes and escapes the string.
use mountaineer.Base.{
  ℕ, zero, suc, arith, ◌≡◌, ◌≢◌, inl, inr, refl, sym, ap, ◌∙◌, true, false, false≢true, List, [],
  ◌∷◌, ◌++◌, map, String, ◌<>◌, ◌==◌, ==-true, if◌then◌else◌, string_eq, nat_eq, option_eq, bool_eq,
  Bool-cases, All,
}
use Prim.Native.Char.{Char, code}
use text.Mathlib.TextLemmas.{nil-append, cons-append}
use text.Mathlib.TextEquality.{Char-path}
use mountaineer.Base.Sorting.{sorted, string_le}
use mountaineer.Base.Strings.{join}
use mountaineer.Migrations.Actions.{
  Action, Arg, null, str, bool, column_type, constraint_type, strs, pairs, DryRunItem, action,
  comment,
}
use mountaineer.Migrations.Actions.Types.{column_type_name, constraint_type_name}

-- `fn.__name__`
unfoldable pub fn_name : Action → String
fn_name Action.add_table = "add_table"
fn_name Action.drop_table = "drop_table"
fn_name Action.add_column = "add_column"
fn_name Action.drop_column = "drop_column"
fn_name Action.rename_column = "rename_column"
fn_name Action.modify_column_type = "modify_column_type"
fn_name Action.add_constraint = "add_constraint"
fn_name Action.drop_constraint = "drop_constraint"
fn_name Action.add_not_null = "add_not_null"
fn_name Action.drop_not_null = "drop_not_null"
fn_name Action.add_type = "add_type"
fn_name Action.add_type_values = "add_type_values"
fn_name Action.drop_type_values = "drop_type_values"
fn_name Action.drop_type = "drop_type"

-- `text.split("\n")`
abbrev start_line : Char → List String → List String
start_line c [] = String.◌∷◌ c "" ∷ []
start_line c (line ∷ lines) = String.◌∷◌ c line ∷ lines

unfoldable pub split_lines : String → List String
split_lines String.[] = "" ∷ []
split_lines (String.◌∷◌ c s) =
    let rest = split_lines s in if code c == 10 then "" ∷ rest else start_line c rest

module _ (json_dumps : String → String) where
  abbrev format_pair : String × String → String
  format_pair (t, c) = "(" <> json_dumps t <> ", " <> json_dumps c <> ")"

  unfoldable pub format_arg : Arg → String
  format_arg null = "None"
  format_arg (str s) = json_dumps s
  format_arg (bool true) = "True"
  format_arg (bool false) = "False"
  format_arg (column_type t) = "ColumnType." <> column_type_name t
  format_arg (constraint_type t) = "ConstraintType." <> constraint_type_name t
  format_arg (strs l) = "[" <> join ", " (map json_dumps l) <> "]"
  format_arg (pairs l) = "[" <> join ", " (map format_pair l) <> "]"
  format_arg (Arg.foreign_key f) =
      "ForeignKeyConstraint(target_table="
      <> json_dumps f.target_table
      <> ", target_columns=frozenset({"
      <> join ", " (map json_dumps (sorted string_le f.target_columns))
      <> "}))"
  format_arg (Arg.check c) =
      "CheckConstraint(check_condition=" <> json_dumps c.check_condition <> ")"

  abbrev format_kwarg : String × Arg → String
  format_kwarg (k, v) = k <> "=" <> format_arg v

  unfoldable pub item_to_code : DryRunItem → List String
  item_to_code (action a) =
      ("await migrator.actor."
        <> fn_name a.fn
        <> "("
        <> join ", " (map format_kwarg a.kwargs)
        <> ")")
      ∷ []
  item_to_code (comment text) = map (λ line. "# " <> line) (split_lines text)

  abbrev items_to_code : List DryRunItem → List String
  items_to_code [] = []
  items_to_code (item ∷ items) = item_to_code item ++ items_to_code items

  -- `if not code_lines: code_lines.append("pass")`
  abbrev or_pass : List String → List String
  or_pass [] = "pass" ∷ []
  or_pass (line ∷ lines) = line ∷ lines

  unfoldable pub actions_to_code : List DryRunItem → List String
  actions_to_code items = or_pass (items_to_code items)

-- `indent_code`, four spaces to a level
unfoldable pub spaces : ℕ → String
spaces zero = ""
spaces (suc n) = "    " <> spaces n

unfoldable pub indent_code : List String → ℕ → String
indent_code lines indent = join "\n" (map (λ line. spaces indent <> line) lines)

-- A text without a newline.
abbrev pub OneLine : String → Type 0
OneLine String.[] = Unit
OneLine (String.◌∷◌ c s) = (code c ≢ 10) × OneLine s

start_line-OneLine :
    (c : Char) (lines : List String)
    → code c ≢ 10
    → All OneLine lines
    → All OneLine (start_line c lines)
start_line-OneLine c [] other each = ((other, tt), tt)
start_line-OneLine c (line ∷ lines) other (one, each) = ((other, one), each)

split_lines-cons :
    (text : String) → (line : String) × (lines : List String) × (split_lines text ≡ line ∷ lines)
unfolding split_lines
split_lines-cons String.[] = ("", [], refl)
split_lines-cons (String.◌∷◌ c s) =
    let (line, lines, e) = split_lines-cons s in
    elim (Bool-cases (code c == 10)) [
      | inl newline ↦ ("", split_lines s, rw newline refl)
      | inr other ↦ (String.◌∷◌ c line, lines, rw (other, e) refl)
    ]

split_lines-OneLine : (text : String) → All OneLine (split_lines text)
unfolding split_lines
split_lines-OneLine String.[] = (tt, tt)
split_lines-OneLine (String.◌∷◌ c s) = elim (Bool-cases (code c == 10)) [
  | inl newline ↦ rw newline (tt, split_lines-OneLine s)
  | inr other ↦
      let differs : code c ≢ 10 = λ e. false≢true (sym other ∙ ==-true (code c) 10 e) in
      rw other (start_line-OneLine c (split_lines s) differs (split_lines-OneLine s))
]

join-start_line :
    (c : Char) (line : String) (lines : List String)
    → join "\n" (start_line c (line ∷ lines)) ≡ String.◌∷◌ c (join "\n" (line ∷ lines))
unfolding join
join-start_line c line [] = refl
join-start_line c line (next ∷ lines) = rw cons-append refl

join-newline :
    (c : Char) (line : String) (lines : List String)
    → code c ≡ 10
    → join "\n" ("" ∷ line ∷ lines) ≡ String.◌∷◌ c (join "\n" (line ∷ lines))
unfolding join
join-newline c line lines e =
    rw (nil-append, cons-append, nil-append)
      (ap (λ d. String.◌∷◌ d (join "\n" (line ∷ lines))) (Char-path _ c (sym e)))

join-split_lines : (text : String) → join "\n" (split_lines text) ≡ text
unfolding split_lines
join-split_lines String.[] = unfold join in refl
join-split_lines (String.◌∷◌ c s) =
    let (line, lines, e) = split_lines-cons s in
    let whole : join "\n" (line ∷ lines) ≡ s = ap (join "\n") (sym e) ∙ join-split_lines s in
    elim (Bool-cases (code c == 10)) [
      | inl newline ↦
          rw (newline, e) (join-newline c line lines (ground arith) ∙ ap (String.◌∷◌ c) whole)
      | inr other ↦ rw (other, e) (join-start_line c line lines ∙ ap (String.◌∷◌ c) whole)
    ]

comments-OneLine :
    (lines : List String) → All OneLine lines → All OneLine (map (λ line. "# " <> line) lines)
comments-OneLine [] each = tt
comments-OneLine (line ∷ lines) (one, each) = (
  rw (cons-append, cons-append, nil-append) (omega arith, (omega arith, one)),
  comments-OneLine lines each,
)

-- A comment is written as lines without a newline, each behind a `#`, and the lines joined are its
-- text.
pub comment_to_code_lem :
    (json_dumps : String → String) (text : String)
    → All OneLine (item_to_code json_dumps (comment text))
      × (item_to_code json_dumps (comment text) ≡ map (λ line. "# " <> line) (split_lines text))
      × (join "\n" (split_lines text) ≡ text)
unfolding item_to_code
comment_to_code_lem json_dumps text =
    (comments-OneLine (split_lines text) (split_lines-OneLine text), refl, join-split_lines text)
