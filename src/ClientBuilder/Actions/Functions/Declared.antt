-- ===== src/ClientBuilder/Actions/Functions/Declared.antt =====
-- The names that a call sends, and those that its function takes.
use mountaineer.Base.{
  ℕ, arith, ◌≡◌, refl, sym, ap, subst, ◌∙◌, Bool, true, false, ◌&&◌, ◌||◌, Option, none, some, List,
  [], ◌∷◌, String, ◌==◌, contains, string_eq, nat_eq, option_eq, bool_eq,
}
use mountaineer.Base.Exec.{ok, ok-injective}
use mountaineer.Base.Dict.{keys, contains-keys-insert}
use mountaineer.Base.Results.{bind-ok}
use mountaineer.ClientBuilder.{Payload, dict}
use mountaineer.ClientBuilder.Typescript.{python_payload_to_typescript}
use mountaineer.ClientBuilder.Parameters.{
  UrlParameterDefinition, path, query, get_typehint_for_parameter,
}
use mountaineer.ClientBuilder.Links.{
  supported, is_query, is_path, insert_if, literals, ActionDefinition,
}
use mountaineer.ClientBuilder.Links.Parts.{
  goes, contains-keys-insert_if, is_query_lem, is_path_lem, supported_lem,
}
use mountaineer.ClientBuilder.Actions.{PayloadParts, payload_parts, no_parts}
use mountaineer.ClientBuilder.Actions.Functions.{
  FunctionParts, function_parts, no_function_parts, add_function_part, add_body, body_ref,
  signature_text, build_action_parameters,
}
use mountaineer.ClientBuilder.Actions.Functions.Signature.{
  SelfNamed, add_function_part-SelfNamed, add_body-SelfNamed, declaration, shown-declaration,
}

payload_parts-goes :
    (parts : PayloadParts) (ps : List UrlParameterDefinition) (name : String)
    → (contains (keys (payload_parts parts ps).path_parameters) name
        ≡ (contains (keys parts.path_parameters) name || goes path ps name))
      × (contains (keys (payload_parts parts ps).query_parameters) name
          ≡ (contains (keys parts.query_parameters) name || goes query ps name))
unfolding payload_parts
payload_parts-goes parts [] name = (ground arith, ground arith)
payload_parts-goes parts (p ∷ ps) name =
    let in_path = is_path_lem p.in_location in
    let in_query = is_query_lem p.in_location in
    let (h, i) =
      payload_parts-goes
        (record {
          path_parameters = insert_if (is_path p.in_location) p.name parts.path_parameters;
          query_parameters = insert_if (is_query p.in_location) p.name parts.query_parameters;
        })
        ps name in
    (
      ground (
        arith,
        contains-keys-insert_if (is_path p.in_location) name p.name parts.path_parameters,
      ),
      ground (
        arith,
        contains-keys-insert_if (is_query p.in_location) name p.name parts.query_parameters,
      ),
    )

contains-keys-add_function_part :
    (b : Bool) (p : UrlParameterDefinition) (typehint : String × String) (parts : FunctionParts)
    (name : String)
    → contains (keys (add_function_part b p typehint parts).parameters) name
      ≡ ((b && name == p.name) || contains (keys parts.parameters) name)
contains-keys-add_function_part true p (k, v) parts name =
    contains-keys-insert name p.name p.name parts.parameters
contains-keys-add_function_part false p typehint parts name = refl

abbrev pub has_ref : Option String → Bool
has_ref none = false
has_ref (some ref) = true

contains-keys-add_body :
    (ref : Option String) (parts : FunctionParts) (name : String)
    → contains (keys (add_body ref parts).parameters) name
      ≡ ((has_ref ref && name == "requestBody") || contains (keys parts.parameters) name)
contains-keys-add_body none parts name = refl
contains-keys-add_body (some ref) parts name =
    contains-keys-insert name "requestBody" "requestBody" parts.parameters

module _ (str : Payload → String) (fuel : ℕ) where
  function_parts-goes :
      (parts : FunctionParts) (ps : List UrlParameterDefinition) (out : FunctionParts)
      (name : String)
      → function_parts str fuel parts ps ≡ ok out
      → contains (keys out.parameters) name
        ≡ (contains (keys parts.parameters) name || (goes query ps name || goes path ps name))
  unfolding function_parts
  function_parts-goes parts [] out name h =
      subst
        (λ o.
          contains (keys o.parameters) name
          ≡ (contains (keys parts.parameters) name || (false || false)))
        (ok-injective h) (ground arith)
  function_parts-goes parts (p ∷ ps) out name h =
      let (typehint, _, rest) = bind-ok (get_typehint_for_parameter str none fuel p) _ out h in
      let later =
        function_parts-goes (add_function_part (supported p.in_location) p typehint parts) ps out
          name rest in
      let places = supported_lem p.in_location in
      ground
        (arith, contains-keys-add_function_part (supported p.in_location) p typehint parts name)

  -- The loop gives each name its own text.
  function_parts-SelfNamed :
      (parts : FunctionParts) (ps : List UrlParameterDefinition) (out : FunctionParts)
      → SelfNamed parts.parameters
      → function_parts str fuel parts ps ≡ ok out
      → SelfNamed out.parameters
  unfolding function_parts
  function_parts-SelfNamed parts [] out own h =
      subst (λ o. SelfNamed o.parameters) (ok-injective h) own
  function_parts-SelfNamed parts (p ∷ ps) out own h =
      let (typehint, _, rest) = bind-ok (get_typehint_for_parameter str none fuel p) _ out h in
      function_parts-SelfNamed (add_function_part (supported p.in_location) p typehint parts) ps out
        (add_function_part-SelfNamed (supported p.in_location) p typehint parts own) rest

  -- The text is that of the names and of some types.
  signature_text-declaration :
      (parts : FunctionParts) (signature : String)
      → SelfNamed parts.parameters
      → signature_text str fuel parts ≡ ok signature
      → (types : String) × (signature ≡ declaration (keys parts.parameters) types)
  unfolding keys
  signature_text-declaration parts signature own h =
      shown-declaration parts.parameters
        (python_payload_to_typescript (dict (literals parts.typehints))) signature own h

  declared-payload :
      (action : ActionDefinition) (parts : FunctionParts) (name : String)
      → function_parts str fuel no_function_parts action.parameters ≡ ok parts
      → let sent = payload_parts no_parts action.parameters in
        contains (keys (add_body (body_ref action.request_body) parts).parameters) name ≡ (
          (has_ref (body_ref action.request_body) && name == "requestBody")
          || (contains (keys sent.path_parameters) name
              || contains (keys sent.query_parameters) name))
  unfolding contains keys
  declared-payload action parts name h =
      let (in_path, in_query) = payload_parts-goes no_parts action.parameters name in
      let taken = function_parts-goes no_function_parts action.parameters parts name h in
      contains-keys-add_body (body_ref action.request_body) parts name ∙ ground arith

  -- A signature that is made is that of a function whose argument has just the names that the call
  -- puts into the path and the query, and requestBody where the body refers to a schema. Its text
  -- lists them, one to a line, and is empty if there are none.
  pub build_action_parameters-payload :
      (action : ActionDefinition) (signature : String) (imported : List String)
      → build_action_parameters str fuel action ≡ ok (signature, imported)
      → let sent = payload_parts no_parts action.parameters in
        (names : List String) × (types : String) × (signature ≡ declaration names types)
        × ((name : String)
            → contains names name ≡ (
                (has_ref (body_ref action.request_body) && name == "requestBody")
                || (contains (keys sent.path_parameters) name
                    || contains (keys sent.query_parameters) name)))
  unfolding build_action_parameters
  build_action_parameters-payload action signature imported h =
      let (parts, made, h1) =
        bind-ok (function_parts str fuel no_function_parts action.parameters) _ _ h in
      let declared = add_body (body_ref action.request_body) parts in
      let (text, written, h2) = bind-ok (signature_text str fuel declared) _ _ h1 in
      let same : text ≡ signature = ap (λ (x : String × List String). x.0) (ok-injective h2) in
      let own =
        add_body-SelfNamed (body_ref action.request_body) parts
          (function_parts-SelfNamed no_function_parts action.parameters parts tt made) in
      let (types, shown) = signature_text-declaration declared text own written in
      (
        keys declared.parameters,
        types,
        sym same ∙ shown,
        λ name. declared-payload action parts name made,
      )
