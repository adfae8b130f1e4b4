-- ===== src/ClientBuilder/Schemas.antt =====
-- mountaineer/client_builder/build_schemas.py: interfaces and enums in TypeScript. `camelize`
-- belongs to inflection and `resolve_ref` reads attributes by their names: both are parameters.
-- So is the order in which Python iterates over the set of the characters to replace.
pub mod Typed
use mountaineer.Base.{
  ℕ, zero, suc, ◌+◌, ◌-◌, ◌*◌, ◌≤◌, ◌<◌, ltb, leb, ltb→lt, leb→le, lt→ltb, arith, ◌≡◌, ◌≢◌, ◌↔◌,
  ◌⊎◌, inl, inr, refl, sym, ap, subst, ◌∙◌, ◌≡⟨◌⟩◌, ◌∎, ite, dite, if_pos, if_neg, Bool, true,
  false, not, ◌&&◌, ◌||◌, false≢true, Option, none, some, List, [], ◌∷◌, ◌++◌, map, String, ◌<>◌,
  Eq, ◌==◌, ==-true, ==-false, contains, if◌then◌else◌, string_eq, nat_eq, option_eq, bool_eq,
  Bool-cases, Option-cases, length, drop, get_elem?, index_from, CutAt, index_from-CutAt, all, All,
  All-append, All-suffix, all-append, length-append,
}
use mountaineer.Base.Exec.{
  Error, Result, ok, err, value_error, type_error, key_error, attribute_error, assertion_error,
  not_implemented_error, cycle_error, invalid_request_error, database_error, result_error,
  index_error, out_of_fuel, Exec, pure, raise, lift, continue, guard, when, for_each, ok-injective,
  Result-cases, >>=-eq-ok,
}
use mountaineer.Base.Dict.{
  Dict, keys, values, lookup, insert, erase, NodupKeys, lookup-insert, lookup-erase,
  insert-NodupKeys, erase-NodupKeys, lookup-insert_cases, lookup-insert_known, lookup-insert_self,
  contains-keys-insert, contains-keys_found,
}
use Prim.Native.Char.{Char, code}
use mountaineer.Base.Results.{◌>>=◌, map_results}
use mountaineer.Base.Strings.{join}
use mountaineer.Base.Sorting.{sorted, string_le}
use mountaineer.ClientBuilder.{
  SchemaType, object, string, array, Payload, Entries, no_payloads, no_entries, entry, dict, text,
  digits, truth, ts_literal, PropertyInfo, Property, MaybeProperty, Properties, NamedProperties,
  empty_property, property, no_property, some_property, no_properties, one_more, no_names, named,
  to_set,
}
use mountaineer.ClientBuilder.Typescript.{python_payload_to_typescript, map_openapi_type_to_ts}
use mountaineer.ClientBuilder.Parameters.{append, is_array}

abbrev is_empty : String → Bool
is_empty s = s == ""

-- `s.lstrip(c)`
unfoldable pub lstrip : ℕ → String → String
lstrip c String.[] = ""
lstrip c (String.◌∷◌ d s) = let rest = lstrip c s in if code d == c then rest else String.◌∷◌ d s

-- `s.rstrip(c)`
unfoldable pub rstrip : ℕ → String → String
rstrip c String.[] = ""
rstrip c (String.◌∷◌ d s) =
    let rest = rstrip c s in if code d == c && is_empty rest then "" else String.◌∷◌ d rest

-- `s.replace(c, with)`
unfoldable pub replace : ℕ → String → String → String
replace c with String.[] = ""
replace c with (String.◌∷◌ d s) =
    let rest = replace c with s in if code d == c then with <> rest else String.◌∷◌ d rest

unfoldable pub replace_chars : List ℕ → String → String
replace_chars [] values = values
replace_chars (c ∷ chars) values = replace_chars chars (replace c "_" (rstrip c (lstrip c values)))

abbrev pub joined_types : Result (List String) → Result String
joined_types types = do ts ← types; ok (join " | " (sorted string_le (to_set [] ts)))

abbrev pub one_type : Result String → Result (List String)
one_type type = do t ← type; ok (t ∷ [])

-- The type of a list: `[A, B]` for `prefixItems`, and `Array<A>` otherwise
abbrev pub array_type :
    Properties → Result (List String) → MaybeProperty → Result (List String) → Result (List String)
array_type (one_more p ps) tuple_values items item_types = do
  values ← tuple_values
  ok (("[" <> (join ", " values <> "]")) ∷ [])
array_type no_properties tuple_values no_property item_types = ok ("Array<any>" ∷ [])
array_type no_properties tuple_values (some_property p) item_types = do
  types ← joined_types item_types
  ok (("Array<" <> (types <> ">")) ∷ [])

abbrev pub record_type : Result (List String) → Result (List String)
record_type additional_types = do
  sub_types ← joined_types additional_types
  key ← map_openapi_type_to_ts string
  ok (("Record<" <> (key <> (", " <> (sub_types <> ">")))) ∷ [])

abbrev pub plain_type : Option SchemaType → Result (List String)
plain_type none = ok []
plain_type (some t) = one_type (map_openapi_type_to_ts t)

-- `prop.const`, where it is truthy
abbrev pub is_truthy_value : Option Payload → Option Payload
is_truthy_value none = none
is_truthy_value (some (text s)) = if s == "" then none else some (text s)
is_truthy_value (some (truth b)) = if b then some (truth b) else none
is_truthy_value (some (digits n)) = if n == "0" || n == "0.0" then none else some (digits n)
is_truthy_value (some Payload.nothing) = none
is_truthy_value (some (Payload.items no_payloads)) = none
is_truthy_value (some (dict no_entries)) = none
is_truthy_value (some p) = some p

abbrev pub const_type : Option Payload → Option SchemaType → Result (List String)
const_type (some c) t = one_type (python_payload_to_typescript c)
const_type none t = plain_type t

abbrev pub additional_type :
    MaybeProperty → Result (List String) → PropertyInfo → Result (List String)
additional_type (some_property p) additional_types i = record_type additional_types
additional_type no_property additional_types i =
    const_type (is_truthy_value i.const) i.variable_type

abbrev pub any_of_type :
    Properties → Result (List String) → Result (List String) → Result (List String)
any_of_type (one_more p ps) any_of_types otherwise = any_of_types
any_of_type no_properties any_of_types otherwise = otherwise

abbrev pub items_type :
    MaybeProperty → Result (List String) → Result (List String) → Result (List String)
items_type (some_property p) item_types otherwise = item_types
items_type no_property item_types otherwise = otherwise

module _ (camelize : String → String) (chars : List ℕ)
    (resolve_ref : String → Result Property) where
  abbrev name_of_title : Option String → Result String
  name_of_title none = err value_error
  name_of_title (some title) =
      if title == "" then err value_error else ok (camelize (replace_chars chars title))

  unfoldable pub get_typescript_interface_name : Property → Result String
  get_typescript_interface_name (empty_property d) = err attribute_error
  get_typescript_interface_name (property i properties additional items any_of all_of prefix) =
      name_of_title i.title

  -- `if prop.ref`
  abbrev pub ref_type : Option String → Result (List String) → Result (List String)
  ref_type none otherwise = otherwise
  ref_type (some ref) otherwise =
      if ref == ""
      then otherwise
      else one_type (resolve_ref ref >>= λ p. get_typescript_interface_name p)

  unfoldable mutual
    pub walk_array_types : Property → Result (List String)
    walk_array_types (empty_property d) = ok ("any" ∷ [])
    walk_array_types (property i properties additional items any_of all_of prefix) =
        let item_types = walk_maybe items in
        let tuple_values = walk_each prefix in
        let any_of_types = walk_all any_of in
        let additional_types = walk_maybe additional in
        if is_array i.variable_type
        then array_type prefix tuple_values items item_types
        else ref_type i.ref (
            items_type items item_types
              (any_of_type any_of any_of_types (additional_type additional additional_types i)))

    pub walk_maybe : MaybeProperty → Result (List String)
    walk_maybe no_property = ok []
    walk_maybe (some_property p) = walk_array_types p

    pub walk_all : Properties → Result (List String)
    walk_all no_properties = ok []
    walk_all (one_more p ps) = append (walk_array_types p) (walk_all ps)

    -- The types of each, joined
    pub walk_each : Properties → Result (List String)
    walk_each no_properties = ok []
    walk_each (one_more p ps) = append (one_type (joined_types (walk_array_types p))) (walk_each ps)

  abbrev description_of : Property → Option String
  description_of (empty_property d) = d
  description_of (property i properties additional items any_of all_of prefix) = i.description

  abbrev comment_lines : Option String → List String
  comment_lines none = []
  comment_lines (some d) = if d == "" then [] else "  /**" ∷ ("   * " <> d) ∷ "   */" ∷ []

  -- `fields` of `_convert_object_to_interface`
  unfoldable pub interface_fields : List String → Bool → NamedProperties → Result (List String)
  interface_fields required all_fields_required no_names = ok []
  interface_fields required all_fields_required (named name p ps) =
      append
        (do
          ts_type ← joined_types (walk_array_types p)
          ok (
              comment_lines (description_of p)
              ++ ("  "
                  <> (name
                      <> ((if contains required name || all_fields_required then "" else "?")
                          <> (": " <> (ts_type <> ";")))))
                ∷ []))
        (interface_fields required all_fields_required ps)

  abbrev exported : Bool → String → String
  exported export_interface body = if export_interface then "export " <> body else body

  unfoldable pub convert_object_to_interface :
      Bool → Property → PropertyInfo → NamedProperties → Bool → Result String
  convert_object_to_interface export_interface model i properties all_fields_required = do
    fields ← interface_fields i.required all_fields_required properties
    name ← get_typescript_interface_name model
    ok (
        exported export_interface
          ("interface " <> (name <> (" {\n" <> (join "\n" fields <> "\n}")))))

  abbrev enum_key : Payload → Result String
  enum_key (digits n) = ok ("Value__" <> n)
  enum_key (truth true) = ok "Value__True"
  enum_key (truth false) = ok "Value__False"
  enum_key (text s) = ok (camelize s)
  enum_key (ts_literal s) = ok (camelize s)
  enum_key p = err value_error

  unfoldable pub enum_fields : Dict String Payload → List Payload → Result (Dict String Payload)
  enum_fields fields [] = ok fields
  enum_fields fields (v ∷ vs) = do key ← enum_key v; enum_fields (insert key v fields) vs

  unfoldable pub to_entries : Dict String Payload → Entries
  to_entries [] = no_entries
  to_entries ((k, v) ∷ fields) = entry (ts_literal k) v (to_entries fields)

  abbrev convert_values : Bool → Property → Option (List Payload) → Result String
  convert_values export_interface model none = err value_error
  convert_values export_interface model (some []) = err value_error
  convert_values export_interface model (some (v ∷ vs)) = do
    fields ← enum_fields [] (v ∷ vs)
    body ← python_payload_to_typescript (dict (to_entries fields))
    name ← get_typescript_interface_name model
    ok (exported export_interface ("enum " <> (name <> (" " <> replace b':' " =" body))))

  abbrev is_object : Option SchemaType → Bool
  is_object (some object) = true
  is_object t = false

  unfoldable pub convert_schema_to_interface : Bool → Property → Bool → Result String
  convert_schema_to_interface export_interface (empty_property d) all_fields_required =
      err attribute_error
  convert_schema_to_interface export_interface
        (property i properties additional items any_of all_of prefix) all_fields_required =
      let model = property i properties additional items any_of all_of prefix in
      if is_object i.variable_type
      then convert_object_to_interface export_interface model i properties all_fields_required
      else convert_values export_interface model i.enum
