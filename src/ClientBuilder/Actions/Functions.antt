-- ===== src/ClientBuilder/Actions/Functions.antt =====
-- mountaineer/client_builder/build_actions.py: the signatures and the bodies of the functions.
pub mod Declared
pub mod Signature
use mountaineer.Base.{
  ℕ, zero, suc, ◌+◌, ◌-◌, ◌*◌, ◌≤◌, ◌<◌, ltb, leb, ltb→lt, leb→le, lt→ltb, arith, ◌≡◌, ◌≢◌, ◌↔◌,
  ◌⊎◌, inl, inr, refl, sym, ap, subst, ◌∙◌, ◌≡⟨◌⟩◌, ◌∎, ite, dite, if_pos, if_neg, Bool, true,
  false, not, ◌&&◌, ◌||◌, false≢true, Option, none, some, List, [], ◌∷◌, ◌++◌, map, String, ◌<>◌,
  Eq, ◌==◌, ==-true, ==-false, contains, if◌then◌else◌, string_eq, nat_eq, option_eq, bool_eq,
  Bool-cases, Option-cases, length, drop, get_elem?, index_from, CutAt, index_from-CutAt, all, All,
  All-append, All-suffix, all-append, length-append,
}
use mountaineer.Base.Exec.{
  Error, Result, ok, err, value_error, type_error, key_error, attribute_error, assertion_error,
  not_implemented_error, cycle_error, invalid_request_error, database_error, result_error,
  index_error, out_of_fuel, Exec, pure, raise, lift, continue, guard, when, for_each, ok-injective,
  Result-cases, >>=-eq-ok,
}
use mountaineer.Base.Dict.{
  Dict, keys, values, lookup, insert, erase, NodupKeys, lookup-insert, lookup-erase,
  insert-NodupKeys, erase-NodupKeys, lookup-insert_cases, lookup-insert_known, lookup-insert_self,
  contains-keys-insert, contains-keys_found,
}
use mountaineer.Base.Results.{◌>>=◌}
use mountaineer.Base.Strings.{join}
use mountaineer.ClientBuilder.{Payload, dict, to_set}
use mountaineer.ClientBuilder.Typescript.{python_payload_to_typescript}
use mountaineer.ClientBuilder.Parameters.{UrlParameterDefinition, get_typehint_for_parameter}
use mountaineer.ClientBuilder.Links.{ActionDefinition, ContentBody, Paths, supported, literals}
use mountaineer.ClientBuilder.Actions.{
  is_set, or_empty, last_part, lower, get_exception_class_name, status_code_is_valid, some_items,
  is_stream, named_entries, build_action_payload,
}

-- `parameters_dict` and `typehint_dict`
pub record FunctionParts : Type 0 where
  pub parameters : Dict String String
  pub typehints : Dict String String

abbrev pub no_function_parts : FunctionParts
no_function_parts = record { parameters = []; typehints = [] }

abbrev pub add_function_part :
    Bool → UrlParameterDefinition → String × String → FunctionParts → FunctionParts
add_function_part true p (key, value) parts = record {
  parameters = insert p.name p.name parts.parameters;
  typehints = insert key value parts.typehints;
}
add_function_part false p typehint parts = parts

abbrev pub body_ref : Option ContentBody → Option String
body_ref none = none
body_ref (some body) = if is_set body.ref then body.ref else none

abbrev pub add_body : Option String → FunctionParts → FunctionParts
add_body none parts = parts
add_body (some ref) parts = record {
  parameters = insert "requestBody" "requestBody" parts.parameters;
  typehints = insert "requestBody" (last_part ref) parts.typehints;
}

abbrev request_types : Option String → List String
request_types none = []
request_types (some ref) = last_part ref ∷ []

module _ (str : Payload → String) (fuel : ℕ) where
  -- The loop over the parameters. No schema is passed for their references.
  unfoldable pub function_parts : FunctionParts → List UrlParameterDefinition → Result FunctionParts
  function_parts parts [] = ok parts
  function_parts parts (p ∷ ps) = do
    typehint ← get_typehint_for_parameter str none fuel p
    function_parts (add_function_part (supported p.in_location) p typehint parts) ps

  abbrev pub signature_text : FunctionParts → Result String
  signature_text parts =
      if some_items parts.parameters
      then (python_payload_to_typescript (dict (named_entries parts.parameters))
          >>= λ parameters_str.
              (python_payload_to_typescript (dict (literals parts.typehints)) >>= λ typehint_str.
              ok (parameters_str <> (": " <> typehint_str))))
      else ok ""

  unfoldable pub build_action_parameters : ActionDefinition → Result (String × List String)
  build_action_parameters action = do
    parts ← function_parts no_function_parts action.parameters
    signature ← signature_text (add_body (body_ref action.request_body) parts)
    ok (signature, request_types (body_ref action.request_body))

  abbrev response_template : Option String → String → String
  response_template media_type response_type =
      if is_stream media_type
      then "Promise<AsyncGenerator<" <> (response_type <> ", void, unknown>>")
      else "Promise<" <> (response_type <> ">")

  abbrev response_text : ActionDefinition → List String → String
  response_text action response_types =
      response_template action.media_type
        (if action.is_raw_response then "Response" else join " | " response_types)

  module _ (str_int : ℕ → String) where
    unfoldable pub build_action : String → ActionDefinition → String → Result (String × List String)
    build_action url action method_name = do
      (arguments, response_types) ← build_action_payload str_int url action
      (parameters, types) ← build_action_parameters action
      ok (
        "export const "
            <> (method_name
                <> (" = ("
                    <> (parameters
                        <> ("): "
                            <> (response_text action response_types
                                <> (" => {\nreturn __request(\n" <> (arguments <> "\n);\n}"))))))),
        to_set [] (types ++ response_types),
      )

-- `error_classes` and `required_types`, over what stands in them already
unfoldable pub build_error :
    Dict String String
    → List String
    → List (Option ℕ × ContentBody)
    → Result (Dict String String × List String)
build_error classes types [] = ok (classes, types)
build_error classes types ((none, response) ∷ responses) = err value_error
build_error classes types ((some status, response) ∷ responses) =
    if status_code_is_valid status || not (is_set response.ref)
    then build_error classes types responses
    else let name = last_part (or_empty response.ref) in
      build_error
        (insert name
          ("export class "
            <> (get_exception_class_name name <> (" extends FetchErrorBase<" <> (name <> "> {}"))))
          classes)
        (types ++ name ∷ []) responses

abbrev more_than_one {ℓ} : {A : Type ℓ} → List A → Bool
more_than_one (x ∷ y ∷ xs) = true
more_than_one xs = false

unfoldable pub get_method_names : (String → String) → String → List ActionDefinition → List String
get_method_names underscore url actions =
    let base_method_name = underscore (last_part url) in
    if more_than_one actions
    then map (λ a. base_method_name <> ("_" <> lower a.action_type)) actions
    else base_method_name ∷ []

-- `{**d, **e}`
unfoldable pub update : Dict String String → Dict String String → Dict String String
update d [] = d
update d ((k, v) ∷ e) = update (insert k v d) e

pub record Outputs : Type 0 where
  pub actions : Dict String String
  pub errors : Dict String String
  pub required_types : List String

module _ (str : Payload → String) (fuel : ℕ) (str_int : ℕ → String)
    (underscore : String → String) where
  -- The actions of one URL, with their names
  unfoldable pub convert_actions :
      String → Outputs → List ActionDefinition → List String → Result Outputs
  convert_actions url out [] names = ok out
  convert_actions url out (a ∷ actions) [] = ok out
  convert_actions url out (a ∷ actions) (method_name ∷ names) = do
    (rendered_str, types) ← build_action str fuel str_int url a method_name
    (error_strs, error_types) ← build_error [] [] a.responses
    convert_actions url
        (record {
          actions = insert method_name rendered_str out.actions;
          errors = update out.errors error_strs;
          required_types = to_set out.required_types (types ++ error_types);
        })
        actions names

  unfoldable pub convert_paths : Outputs → Paths → Result Outputs
  convert_paths out [] = ok out
  convert_paths out ((url, actions) ∷ paths) = do
    next ← convert_actions url out actions (get_method_names underscore url actions)
    convert_paths next paths

  unfoldable pub convert : Paths → Result (Dict String String × List String)
  convert paths = do
    out ← convert_paths (record { actions = []; errors = []; required_types = [] }) paths
    ok (update out.actions out.errors, out.required_types)
