-- ===== src/ClientBuilder/Actions.antt =====
-- mountaineer/client_builder/build_actions.py: the functions that call the actions of a server.
-- `underscore` belongs to inflection, and `str` is the text of an integer.
pub mod Functions
use mountaineer.Base.{
  ℕ, zero, suc, ◌+◌, ◌-◌, ◌*◌, ◌≤◌, ◌<◌, ltb, leb, ltb→lt, leb→le, lt→ltb, arith, ◌≡◌, ◌≢◌, ◌↔◌,
  ◌⊎◌, inl, inr, refl, sym, ap, subst, ◌∙◌, ◌≡⟨◌⟩◌, ◌∎, ite, dite, if_pos, if_neg, Bool, true,
  false, not, ◌&&◌, ◌||◌, false≢true, Option, none, some, List, [], ◌∷◌, ◌++◌, map, String, ◌<>◌,
  Eq, ◌==◌, ==-true, ==-false, contains, if◌then◌else◌, string_eq, nat_eq, option_eq, bool_eq,
  Bool-cases, Option-cases, length, drop, get_elem?, index_from, CutAt, index_from-CutAt, all, All,
  All-append, All-suffix, all-append, length-append,
}
use mountaineer.Base.Exec.{
  Error, Result, ok, err, value_error, type_error, key_error, attribute_error, assertion_error,
  not_implemented_error, cycle_error, invalid_request_error, database_error, result_error,
  index_error, out_of_fuel, Exec, pure, raise, lift, continue, guard, when, for_each, ok-injective,
  Result-cases, >>=-eq-ok,
}
use mountaineer.Base.Dict.{
  Dict, keys, values, lookup, insert, erase, NodupKeys, lookup-insert, lookup-erase,
  insert-NodupKeys, erase-NodupKeys, lookup-insert_cases, lookup-insert_known, lookup-insert_self,
  contains-keys-insert, contains-keys_found,
}
use Prim.Native.Char.{code}
use mountaineer.Base.Results.{◌>>=◌}
use mountaineer.Base.Strings.{join, has_character}
use mountaineer.ClientBuilder.{
  Payload, Entries, dict, ts_literal, text, truth, digits, no_entries, entry, to_set,
}
use mountaineer.ClientBuilder.Typescript.{python_payload_to_typescript}
use mountaineer.ClientBuilder.Parameters.{
  ParameterLocation, path, query, cookie, header, UrlParameterDefinition,
  get_typehint_for_parameter,
}
use mountaineer.ClientBuilder.Links.{
  ActionType, get, post, put, patch, delete, ActionDefinition, ContentBody, Paths, supported,
  is_query, is_path, insert_if, literals,
}

abbrev upper : ActionType → String
upper get = "GET"
upper post = "POST"
upper put = "PUT"
upper patch = "PATCH"
upper delete = "DELETE"

abbrev pub lower : ActionType → String
lower get = "get"
lower post = "post"
lower put = "put"
lower patch = "patch"
lower delete = "delete"

-- `s.split("/")[-1]`
unfoldable pub last_part : String → String
last_part String.[] = ""
last_part (String.◌∷◌ c s) =
    let rest = last_part s in
    if code c == b'/' || has_character b'/' s then rest else String.◌∷◌ c rest

abbrev pub is_set : Option String → Bool
is_set none = false
is_set (some s) = not (s == "")

abbrev pub or_empty : Option String → String
or_empty none = ""
or_empty (some s) = s

unfoldable pub status_code_is_valid : ℕ → Bool
status_code_is_valid status_code = leb 200 status_code && ltb status_code 300

abbrev pub get_exception_class_name : String → String
get_exception_class_name typehint = typehint <> "Exception"

-- `get_typescript_name_from_content_definition`
abbrev pub content_name : Option String → Result String
content_name ref = if is_set ref then ok (last_part (or_empty ref)) else err value_error

-- The parts that the call sends
pub record PayloadParts : Type 0 where
  pub path_parameters : Dict String String
  pub query_parameters : Dict String String

unfoldable pub payload_parts : PayloadParts → List UrlParameterDefinition → PayloadParts
payload_parts parts [] = parts
payload_parts parts (p ∷ ps) =
    payload_parts
      (record {
        path_parameters = insert_if (is_path p.in_location) p.name parts.path_parameters;
        query_parameters = insert_if (is_query p.in_location) p.name parts.query_parameters;
      })
      ps

abbrev pub no_parts : PayloadParts
no_parts = record { path_parameters = []; query_parameters = [] }

-- `response_types` and `common_params["errors"]`
unfoldable pub response_parts :
    Bool
    → List String
    → Dict ℕ String
    → List (Option ℕ × ContentBody)
    → Result (List String × Dict ℕ String)
response_parts is_raw types errors [] = ok (types, errors)
response_parts is_raw types errors ((none, response) ∷ responses) = err value_error
response_parts is_raw types errors ((some status, response) ∷ responses) =
    if status_code_is_valid status
    then (if is_raw
        then response_parts is_raw types errors responses
        else (content_name response.ref >>= λ name.
            response_parts is_raw (types ++ name ∷ []) errors responses))
    else (content_name response.ref >>= λ name.
        response_parts is_raw types (insert status (get_exception_class_name name) errors)
          responses)

unfoldable pub named_entries : Dict String String → Entries
named_entries [] = no_entries
named_entries ((k, v) ∷ d) = entry (text k) (ts_literal v) (named_entries d)

-- A key that is deleted again where its dict is empty
abbrev optional_entry : Bool → String → Payload → Entries → Entries
optional_entry true key value entries = entry (text key) value entries
optional_entry false key value entries = entries

abbrev pub some_items {ℓ} : {A : Type ℓ} → List A → Bool
some_items [] = false
some_items (x ∷ xs) = true

abbrev body_entries : Option ContentBody → Entries → Entries
body_entries none entries = entries
body_entries (some body) entries =
    entry (text "body") (ts_literal "requestBody")
      (entry (text "mediaType") (text body.content_type) entries)

abbrev pub is_stream : Option String → Bool
is_stream none = false
is_stream (some t) = t == "text/event-stream"

module _ (str_int : ℕ → String) where
  unfoldable pub error_entries : Dict ℕ String → Entries
  error_entries [] = no_entries
  error_entries ((k, v) ∷ d) = entry (digits (str_int k)) (ts_literal v) (error_entries d)

  -- `common_params`
  abbrev common_params : String → ActionDefinition → PayloadParts → Dict ℕ String → Payload
  common_params url action parts errors = dict (
      entry (text "method") (text (upper action.action_type)) (
        entry (text "url") (text url) (
          optional_entry (some_items parts.path_parameters) "path"
            (dict (named_entries parts.path_parameters))
            (optional_entry (some_items parts.query_parameters) "query"
              (dict (named_entries parts.query_parameters))
              (optional_entry (some_items errors) "errors" (dict (error_entries errors)) (
                body_entries action.request_body (
                  optional_entry (is_stream action.media_type) "eventStreamResponse" (truth true) (
                    optional_entry action.is_raw_response "outputFormat" (text "raw")
                      no_entries))))))))

  unfoldable pub build_action_payload : String → ActionDefinition → Result (String × List String)
  build_action_payload url action = do
    (response_types, errors) ← response_parts action.is_raw_response [] [] action.responses
    arguments ←
        python_payload_to_typescript
          (common_params url action (payload_parts no_parts action.parameters) errors)
    ok (arguments, response_types)
