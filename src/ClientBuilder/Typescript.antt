-- ===== src/ClientBuilder/Typescript.antt =====
-- mountaineer/client_builder/typescript.py: values in TypeScript.
use mountaineer.Base.{
  Bool, true, false, Option, none, some, List, [], ◌∷◌, String, ◌<>◌, ◌==◌, if◌then◌else◌,
  string_eq, nat_eq, option_eq, bool_eq,
}
use mountaineer.Base.Exec.{Result, ok, err, value_error, key_error}
use mountaineer.Base.Results.{◌>>=◌}
use mountaineer.Base.Strings.{join}
use mountaineer.ClientBuilder.{
  SchemaType, object, string, integer, float, boolean, array, null, number, Payload, Payloads,
  Entries, dict, items, ts_literal, text, truth, digits, nothing, other_value, no_payloads, payload,
  no_entries, entry,
}

abbrev string_of : Payload → Option String
string_of (ts_literal s) = some s
string_of (text s) = some s
string_of p = none

-- A literal value that is its own key
abbrev pub shorthand : Payload → Payload → Option String
shorthand key (ts_literal v) = if string_of key == some v then some v else none
shorthand key value = none

abbrev line_or : Option String → Result String → Result String
line_or none line = line
line_or (some key) line = ok key

abbrev colon_line : Result String → Result String → Result String
colon_line key value = do k ← key; v ← value; ok (k <> (": " <> v))

abbrev cons_line : Result String → Result (List String) → Result (List String)
cons_line line rest = do l ← line; ls ← rest; ok (l ∷ ls)

abbrev enclosed : String → Result (List String) → String → Result String
enclosed start lines end = do
  children_lines ← lines
  ok (start <> ("\n" <> (join ",\n" children_lines <> ("\n" <> end))))

abbrev truth_text : Bool → String
truth_text true = "true"
truth_text false = "false"

unfoldable mutual
  pub python_payload_to_typescript : Payload → Result String
  python_payload_to_typescript (dict entries) = enclosed "{" (entry_lines entries) "}"
  python_payload_to_typescript (items children) = enclosed "[" (child_lines children) "]"
  python_payload_to_typescript (ts_literal s) = ok s
  python_payload_to_typescript (text s) = ok ("'" <> (s <> "'"))
  python_payload_to_typescript (truth b) = ok (truth_text b)
  python_payload_to_typescript (digits n) = ok n
  python_payload_to_typescript nothing = ok "null"
  python_payload_to_typescript other_value = err value_error

  pub child_lines : Payloads → Result (List String)
  child_lines no_payloads = ok []
  child_lines (payload p ps) = cons_line (python_payload_to_typescript p) (child_lines ps)

  pub entry_lines : Entries → Result (List String)
  entry_lines no_entries = ok []
  entry_lines (entry key value entries) =
      cons_line
        (line_or (shorthand key value)
          (colon_line (python_payload_to_typescript key) (python_payload_to_typescript value)))
        (entry_lines entries)

unfoldable pub map_openapi_type_to_ts : SchemaType → Result String
map_openapi_type_to_ts string = ok "string"
map_openapi_type_to_ts integer = ok "number"
map_openapi_type_to_ts number = ok "number"
map_openapi_type_to_ts boolean = ok "boolean"
map_openapi_type_to_ts null = ok "null"
map_openapi_type_to_ts object = err key_error
map_openapi_type_to_ts float = err key_error
map_openapi_type_to_ts array = err key_error
