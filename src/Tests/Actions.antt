-- ===== src/Tests/Actions.antt =====
-- The functions that call the actions of a server.
use mountaineer.Base.{
  ℕ, ◌≡◌, refl, false, ◌&&◌, ◌||◌, none, some, List, [], ◌∷◌, String, ◌==◌, contains, if◌then◌else◌,
  string_eq, nat_eq, option_eq, bool_eq,
}
use mountaineer.Base.Exec.{Result, ok, err}
use mountaineer.Base.Dict.{Dict, keys, insert}
use mountaineer.Base.Strings.{join}
use mountaineer.Base.Sorting.{sorted, string_le}
use mountaineer.ClientBuilder.{to_set}
use mountaineer.ClientBuilder.Typescript.{python_payload_to_typescript, map_openapi_type_to_ts}
use mountaineer.ClientBuilder.Parameters.{
  types_of_all, types_of_named, types_of_maybe, get_types_from_parameters,
  get_typehint_for_parameter,
}
use mountaineer.ClientBuilder.Links.{post, ActionDefinition, literals}
use mountaineer.ClientBuilder.Actions.{
  last_part, status_code_is_valid, payload_parts, no_parts, response_parts, named_entries,
  error_entries, build_action_payload,
}
use mountaineer.ClientBuilder.Actions.Functions.{
  function_parts, body_ref, build_action_parameters, build_action, build_error, get_method_names,
  update, convert_actions, convert_paths, convert,
}
use mountaineer.ClientBuilder.Actions.Functions.Signature.{declaration}
use mountaineer.ClientBuilder.Actions.Functions.Declared.{has_ref, build_action_parameters-payload}
use mountaineer.Tests.Client.{ids}

abbrev save : ActionDefinition
save = record {
  action_type = post;
  parameters = ids;
  responses =
      (some 200, record { content_type = "application/json"; ref = some "#/schemas/Item" })
      ∷ (some 422, record { content_type = "application/json"; ref = some "#/schemas/Invalid" })
      ∷ [];
  request_body = some (record { content_type = "application/json"; ref = some "#/schemas/Body" });
  media_type = none;
  is_raw_response = false;
}

abbrev str_int : ℕ → String
str_int n = if n == 422 then "422" else "200"

payload_text :
    build_action_payload str_int "/item/save" save
    ≡ ok (
      "{\n'method': 'POST',\n'url': '/item/save',\n'path': {\nid\n},\n'query': {\nsort\n},\n'errors': {\n422: InvalidException\n},\n'body': requestBody,\n'mediaType': 'application/json'\n}",
      "Item" ∷ [],
    )
unfolding build_action_payload response_parts status_code_is_valid payload_parts named_entries
    error_entries last_part python_payload_to_typescript insert string_eq option_eq nat_eq join
payload_text = refl

signature_text :
    build_action_parameters (λ p. "") 9 save
    ≡ ok (
      "{\nid,\nsort,\nrequestBody\n}: {\nid: number,\nsort?: string,\nrequestBody: Body\n}",
      "Body" ∷ [],
    )
unfolding build_action_parameters function_parts get_typehint_for_parameter
    get_types_from_parameters types_of_all types_of_named types_of_maybe map_openapi_type_to_ts
    named_entries literals last_part python_payload_to_typescript insert sorted string_le to_set
    contains string_eq option_eq nat_eq join
signature_text = refl

errors_of_save :
    build_error [] [] save.responses
    ≡ ok (
      ("Invalid", "export class InvalidException extends FetchErrorBase<Invalid> {}") ∷ [],
      "Invalid" ∷ [],
    )
unfolding build_error status_code_is_valid last_part insert string_eq nat_eq
errors_of_save = refl

names_of_save :
    get_method_names (λ s. s) "/item/save" (save ∷ save ∷ []) ≡ "save_post" ∷ "save_post" ∷ []
unfolding get_method_names last_part nat_eq
names_of_save = refl

build_action_parameters-payload_example :
    (names : List String) × (types : String)
    × ("{\nid,\nsort,\nrequestBody\n}: {\nid: number,\nsort?: string,\nrequestBody: Body\n}"
        ≡ declaration names types)
    × ((name : String)
        → contains names name ≡ (
            (has_ref (body_ref save.request_body) && name == "requestBody")
            || (contains (keys (payload_parts no_parts save.parameters).path_parameters) name
                || contains (keys (payload_parts no_parts save.parameters).query_parameters) name)))
build_action_parameters-payload_example =
    build_action_parameters-payload (λ p. "") 9 save
      "{\nid,\nsort,\nrequestBody\n}: {\nid: number,\nsort?: string,\nrequestBody: Body\n}"
      ("Body" ∷ []) signature_text

abbrev keys_and_types :
    Result (Dict String String × List String) → Result (List String × List String)
keys_and_types (ok (d, types)) = ok (keys d, types)
keys_and_types (err e) = err e

converted :
    keys_and_types (convert (λ p. "") 9 str_int (λ s. s) (("/item/save", save ∷ []) ∷ []))
    ≡ ok ("save" ∷ "Invalid" ∷ [], "Body" ∷ "Item" ∷ "Invalid" ∷ [])
unfolding convert convert_paths convert_actions build_action build_error get_method_names update
    build_action_payload response_parts status_code_is_valid payload_parts named_entries
    error_entries build_action_parameters function_parts get_typehint_for_parameter
    get_types_from_parameters types_of_all types_of_named types_of_maybe map_openapi_type_to_ts
    literals last_part python_payload_to_typescript insert keys sorted string_le to_set contains
    string_eq option_eq nat_eq join
converted = refl
