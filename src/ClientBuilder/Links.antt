-- ===== src/ClientBuilder/Links.antt =====
-- mountaineer/client_builder/build_links.py: the function that formats the link to a page.
pub mod Parts
use mountaineer.Base.{
  ℕ, zero, suc, ◌+◌, ◌-◌, ◌*◌, ◌≤◌, ◌<◌, ltb, leb, ltb→lt, leb→le, lt→ltb, arith, ◌≡◌, ◌≢◌, ◌↔◌,
  ◌⊎◌, inl, inr, refl, sym, ap, subst, ◌∙◌, ◌≡⟨◌⟩◌, ◌∎, ite, dite, if_pos, if_neg, Bool, true,
  false, not, ◌&&◌, ◌||◌, false≢true, Option, none, some, List, [], ◌∷◌, ◌++◌, map, String, ◌<>◌,
  Eq, ◌==◌, ==-true, ==-false, contains, if◌then◌else◌, string_eq, nat_eq, option_eq, bool_eq,
  Bool-cases, Option-cases, length, drop, get_elem?, index_from, CutAt, index_from-CutAt, all, All,
  All-append, All-suffix, all-append, length-append,
}
use mountaineer.Base.Exec.{
  Error, Result, ok, err, value_error, type_error, key_error, attribute_error, assertion_error,
  not_implemented_error, cycle_error, invalid_request_error, database_error, result_error,
  index_error, out_of_fuel, Exec, pure, raise, lift, continue, guard, when, for_each, ok-injective,
  Result-cases, >>=-eq-ok,
}
use mountaineer.Base.Dict.{
  Dict, keys, values, lookup, insert, erase, NodupKeys, lookup-insert, lookup-erase,
  insert-NodupKeys, erase-NodupKeys, lookup-insert_cases, lookup-insert_known, lookup-insert_self,
  contains-keys-insert, contains-keys_found,
}
use mountaineer.Base.Results.{◌>>=◌}
use mountaineer.Base.Strings.{join}
use mountaineer.ClientBuilder.{Payload, Entries, dict, ts_literal, no_entries, entry, Property}
use mountaineer.ClientBuilder.Typescript.{python_payload_to_typescript}
use mountaineer.ClientBuilder.Parameters.{
  ParameterLocation, path, query, cookie, header, UrlParameterDefinition,
  get_typehint_for_parameter,
}

pub data ActionType : Type 0 where
  get post put patch delete : ActionType

-- `ContentBodyDefinition`, with the `$ref` of its schema
pub record ContentBody : Type 0 where
  pub content_type : String
  pub ref : Option String

-- A status code is the number that `int` gives for its text, and `none` where that raises.
pub record ActionDefinition : Type 0 where
  pub action_type : ActionType
  pub parameters : List UrlParameterDefinition
  pub responses : Dict (Option ℕ) ContentBody
  pub request_body : Option ContentBody
  pub media_type : Option String
  pub is_raw_response : Bool

-- `paths`, by their URLs
abbrev pub Paths : Type 0
Paths = Dict String (List ActionDefinition)

-- Keys and values are literals.
pub record LinkParameters : Type 0 where
  pub input_parameters : Dict String String
  pub typehint_parameters : Dict String String
  pub query_parameters : Dict String String
  pub path_parameters : Dict String String

abbrev pub no_parameters : LinkParameters
no_parameters = record {
  input_parameters = [];
  typehint_parameters = [];
  query_parameters = [];
  path_parameters = [];
}

abbrev is_get : ActionType → Bool
is_get get = true
is_get t = false

abbrev pub supported : ParameterLocation → Bool
supported query = true
supported path = true
supported l = false

abbrev pub insert_if : Bool → String → Dict String String → Dict String String
insert_if true name d = insert name name d
insert_if false name d = d

abbrev pub is_query : ParameterLocation → Bool
is_query query = true
is_query l = false

abbrev pub is_path : ParameterLocation → Bool
is_path path = true
is_path l = false

abbrev pub add_parameter :
    UrlParameterDefinition → String × String → LinkParameters → LinkParameters
add_parameter p (typehint_key, typehint_value) parts = record {
  input_parameters = insert p.name p.name parts.input_parameters;
  typehint_parameters = insert typehint_key typehint_value parts.typehint_parameters;
  query_parameters = insert_if (is_query p.in_location) p.name parts.query_parameters;
  path_parameters = insert_if (is_path p.in_location) p.name parts.path_parameters;
}

unfoldable pub literals : Dict String String → Entries
literals [] = no_entries
literals ((k, v) ∷ d) = entry (ts_literal k) (ts_literal v) (literals d)

unfoldable pub get_actions : String → List ActionDefinition → List (String × ActionDefinition)
get_actions url [] = []
get_actions url (a ∷ actions) =
    let rest = get_actions url actions in if is_get a.action_type then (url, a) ∷ rest else rest

-- `render_payloads`
unfoldable pub render_payloads : Paths → List (String × ActionDefinition)
render_payloads [] = []
render_payloads ((url, actions) ∷ paths) = get_actions url actions ++ render_payloads paths

module _ (str : Payload → String) (base : Option (String → Result Property)) (fuel : ℕ) where
  -- The loop over the parameters
  unfoldable pub link_parameters :
      LinkParameters → List UrlParameterDefinition → Result LinkParameters
  link_parameters parts [] = ok parts
  link_parameters parts (p ∷ parameters) =
      if supported p.in_location
      then (get_typehint_for_parameter str base fuel p >>= λ typehint.
          link_parameters (add_parameter p typehint parts) parameters)
      else link_parameters parts parameters

  abbrev link_text : String → String → String → String → String → String
  link_text render_url parameter_str typehint_str query_dict_str path_dict_str = join "\n\n" (
      ("export const getLink = (" <> (parameter_str <> (" : " <> (typehint_str <> ") => {"))))
      ∷ ("const url = `" <> (render_url <> "`;"))
      ∷ ("const queryParameters : Record<string, any> = "
          <> (query_dict_str
              <> (";\nconst pathParameters : Record<string, any> = " <> (path_dict_str <> ";"))))
      ∷ "return __getLink({rawUrl: url, queryParameters, pathParameters});"
      ∷ "};"
      ∷ [])

  abbrev convert_action : List (String × ActionDefinition) → Result String
  convert_action ((render_url, action) ∷ []) = do
    parts ← link_parameters no_parameters action.parameters
    parameter_str ← python_payload_to_typescript (dict (literals parts.input_parameters))
    typehint_str ← python_payload_to_typescript (dict (literals parts.typehint_parameters))
    query_dict_str ← python_payload_to_typescript (dict (literals parts.query_parameters))
    path_dict_str ← python_payload_to_typescript (dict (literals parts.path_parameters))
    ok (link_text render_url parameter_str typehint_str query_dict_str path_dict_str)
  convert_action payloads = err value_error

  unfoldable pub convert : Paths → Result String
  convert (only ∷ []) = convert_action (render_payloads (only ∷ []))
  convert paths = err value_error
