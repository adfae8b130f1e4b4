-- ===== src/Tests/Client.antt =====
-- The client that is built from schemas.
use mountaineer.Base.{
  ◌≡◌, refl, true, false, ◌||◌, Option, none, some, List, [], ◌∷◌, String, contains, string_eq,
  nat_eq, option_eq, bool_eq,
}
use mountaineer.Base.Exec.{Result, ok, err, attribute_error, ◌>>=◌}
use mountaineer.Base.Dict.{keys, insert}
use mountaineer.Base.Strings.{join}
use mountaineer.Base.Sorting.{sorted, string_le}
use mountaineer.Base.TopologicalSorter.Queue.{Distinct}
use mountaineer.ClientBuilder.{
  SchemaType, object, string, integer, array, dict, ts_literal, text, digits, no_entries, entry,
  PropertyInfo, Property, property, no_property, some_property, no_properties, one_more, no_names,
  named, to_set,
}
use mountaineer.ClientBuilder.Typescript.{python_payload_to_typescript, map_openapi_type_to_ts}
use mountaineer.ClientBuilder.Parameters.{
  types_of_all, types_of_named, types_of_maybe, get_types_from_parameters, path, query, cookie,
  UrlParameterDefinition, get_typehint_for_parameter,
}
use mountaineer.ClientBuilder.Schemas.{
  lstrip, rstrip, replace, replace_chars, get_typescript_interface_name, walk_array_types,
  interface_fields, convert_object_to_interface, enum_fields, to_entries,
  convert_schema_to_interface,
}
use mountaineer.ClientBuilder.Schemas.Typed.{any_given, has_type, walk_array_types-has_type}
use mountaineer.ClientBuilder.Links.{
  ActionDefinition, LinkParameters, no_parameters, link_parameters, get, literals, get_actions,
  render_payloads, convert,
}
use mountaineer.ClientBuilder.Links.Parts.{goes, link_parameters_lem}
use mountaineer.ClientBuilder.Models.{
  chain, visit, walk_models, model_set, schema, gather_all_models,
}
use mountaineer.ClientBuilder.Models.Titles.{titles}
use mountaineer.ClientBuilder.Models.Gathered.{gather_all_models-Distinct}

abbrev info : Option String → Option SchemaType → PropertyInfo
info title type = record {
  title = title;
  description = none;
  required = [];
  variable_type = type;
  ref = none;
  enum = none;
  const = none;
}

abbrev leaf : SchemaType → Property
leaf type =
    property (info none (some type)) no_names no_property no_property no_properties no_properties
      no_properties

abbrev no_ref : String → Result Property
no_ref ref = err attribute_error

-- `{"type": "array", "items": {"anyOf": [string, integer]}}`
abbrev listed : Property
listed =
    property (info none (some array)) no_names no_property
      (some_property (
        property (info none none) no_names no_property no_property
          (one_more (leaf string) (one_more (leaf integer) no_properties)) no_properties
          no_properties))
      no_properties no_properties no_properties

listed_type : walk_array_types (λ s. s) [] no_ref listed ≡ ok ("Array<number | string>" ∷ [])
unfolding walk_array_types map_openapi_type_to_ts sorted string_le to_set contains string_eq join
listed_type = refl

walk_array_types-has_type_example : any_given ("Array<number | string>" ∷ []) ≡ has_type listed
walk_array_types-has_type_example =
    walk_array_types-has_type (λ s. s) [] no_ref listed ("Array<number | string>" ∷ []) listed_type

-- `{"allOf": [string]}` has no type.
all_of_type :
    walk_array_types
      (λ s. s)
      []
      no_ref
      (property
        (info none none)
        no_names
        no_property
        no_property
        no_properties
        (one_more (leaf string) no_properties)
        no_properties)
    ≡ ok []
unfolding walk_array_types
all_of_type = refl

abbrev model : Property
model =
    property (info (some "Item") (some object))
      (named "name" (leaf string) (named "tags" listed no_names)) no_property no_property
      no_properties no_properties no_properties

interface :
    convert_schema_to_interface (λ s. s) (b' ' ∷ []) no_ref true model false
    ≡ ok "export interface Item {\n  name?: string;\n  tags?: Array<number | string>;\n}"
unfolding nat_eq convert_schema_to_interface convert_object_to_interface interface_fields
    get_typescript_interface_name replace_chars replace rstrip lstrip walk_array_types
    map_openapi_type_to_ts sorted string_le to_set contains string_eq join
interface = refl

-- The colon of a value is replaced as well.
colon_enum :
    convert_schema_to_interface
      (λ s. s)
      []
      no_ref
      false
      (property
        (record {
          title = some "Kind";
          description = none;
          required = [];
          variable_type = none;
          ref = none;
          enum = some (text "a:b" ∷ []);
          const = none;
        })
        no_names
        no_property
        no_property
        no_properties
        no_properties
        no_properties)
      false
    ≡ ok "enum Kind {\na =b = 'a =b'\n}"
unfolding nat_eq convert_schema_to_interface enum_fields to_entries python_payload_to_typescript
    insert get_typescript_interface_name replace_chars replace string_eq join
colon_enum = refl

gathered : gather_all_models (λ p q. false) no_ref 9 (schema model) none ≡ ok (model ∷ [])
unfolding gather_all_models walk_models visit chain ◌>>=◌ model_set contains string_eq
gathered = refl

gather_all_models-Distinct_example : Distinct (titles (model ∷ []))
gather_all_models-Distinct_example =
    gather_all_models-Distinct (λ p q. false) no_ref 9 (schema model) none (model ∷ []) gathered

typehint :
    get_typehint_for_parameter
      (λ p. "")
      none
      9
      (record { name = "ids"; in_location = query; schema_ref = listed; required = false })
    ≡ ok ("ids?", "Array<string | number>")
unfolding get_typehint_for_parameter get_types_from_parameters types_of_all types_of_named
    types_of_maybe map_openapi_type_to_ts sorted string_le to_set contains string_eq join
typehint = refl

written :
    python_payload_to_typescript
      (dict (entry (ts_literal "id") (ts_literal "id") (entry (text "n") (digits "1") no_entries)))
    ≡ ok "{\nid,\n'n': 1\n}"
unfolding python_payload_to_typescript string_eq option_eq join
written = refl

abbrev pub ids : List UrlParameterDefinition
ids =
    record { name = "id"; in_location = path; schema_ref = leaf integer; required = true }
    ∷ record { name = "sort"; in_location = query; schema_ref = leaf string; required = false }
    ∷ record { name = "session"; in_location = cookie; schema_ref = leaf string; required = true }
    ∷ []

abbrev split : LinkParameters
split = record {
  input_parameters = ("id", "id") ∷ ("sort", "sort") ∷ [];
  typehint_parameters = ("id", "number") ∷ ("sort?", "string") ∷ [];
  query_parameters = ("sort", "sort") ∷ [];
  path_parameters = ("id", "id") ∷ [];
}

collected : link_parameters (λ p. "") none 9 no_parameters ids ≡ ok split
unfolding link_parameters get_typehint_for_parameter get_types_from_parameters types_of_all
    types_of_named types_of_maybe map_openapi_type_to_ts insert sorted string_le to_set contains
    string_eq join
collected = refl

link_parameters_lem_example :
    (contains (keys split.input_parameters) "id" ≡ (goes query ids "id" || goes path ids "id"))
    × (contains (keys split.query_parameters) "id" ≡ goes query ids "id")
    × (contains (keys split.path_parameters) "id" ≡ goes path ids "id")
link_parameters_lem_example = link_parameters_lem (λ p. "") none 9 ids split collected "id"

abbrev get_ids : ActionDefinition
get_ids = record {
  action_type = get;
  parameters = ids;
  responses =
      (some 200, record { content_type = "application/json"; ref = some "#/schemas/Item" }) ∷ [];
  request_body = some (record { content_type = "application/json"; ref = some "#/schemas/Body" });
  media_type = none;
  is_raw_response = false;
}

link :
    convert (λ p. "") none 9 (("/item/{id}", get_ids ∷ []) ∷ [])
    ≡ ok
        "export const getLink = ({\nid,\nsort\n} : {\nid: number,\nsort?: string\n}) => {\n\nconst url = `/item/{id}`;\n\nconst queryParameters : Record<string, any> = {\nsort\n};\nconst pathParameters : Record<string, any> = {\nid\n};\n\nreturn __getLink({rawUrl: url, queryParameters, pathParameters});\n\n};"
unfolding convert render_payloads get_actions literals python_payload_to_typescript option_eq
    link_parameters get_typehint_for_parameter get_types_from_parameters types_of_all types_of_named
    types_of_maybe map_openapi_type_to_ts insert sorted string_le to_set contains string_eq join
link = refl
