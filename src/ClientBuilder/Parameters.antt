-- ===== src/ClientBuilder/Parameters.antt =====
-- mountaineer/client_builder/typescript.py: the types of the parameters of a URL. `resolve_ref`
-- reads attributes by their names, and is a parameter; without a base it is `none`.
use mountaineer.Base.{
  ℕ, zero, suc, Bool, true, false, ◌&&◌, Option, none, some, List, [], ◌∷◌, ◌++◌, map, String, ◌<>◌,
  if◌then◌else◌, string_eq, nat_eq, option_eq, bool_eq,
}
use mountaineer.Base.Exec.{Result, ok, err, value_error, out_of_fuel}
use mountaineer.Base.Results.{◌>>=◌}
use mountaineer.Base.Strings.{join}
use mountaineer.Base.Sorting.{sorted, string_le}
use mountaineer.ClientBuilder.{
  SchemaType, array, Payload, text, ts_literal, Property, MaybeProperty, Properties,
  NamedProperties, empty_property, property, no_property, some_property, no_properties, one_more,
  no_names, named, to_set,
}
use mountaineer.ClientBuilder.Typescript.{map_openapi_type_to_ts}

-- `yield from` one after the other
abbrev pub append : Result (List String) → Result (List String) → Result (List String)
append first second = do xs ← first; ys ← second; ok (xs ++ ys)

abbrev pub is_array : Option SchemaType → Bool
is_array (some array) = true
is_array t = false

module _ (types_of : Property → Result (List String)) where
  unfoldable pub types_of_all : Properties → Result (List String)
  types_of_all no_properties = ok []
  types_of_all (one_more p ps) = append (types_of p) (types_of_all ps)

  unfoldable pub types_of_named : NamedProperties → Result (List String)
  types_of_named no_names = ok []
  types_of_named (named name p ps) = append (types_of p) (types_of_named ps)

  unfoldable pub types_of_maybe : MaybeProperty → Result (List String)
  types_of_maybe no_property = ok []
  types_of_maybe (some_property p) = types_of p

  abbrev item_types : MaybeProperty → Result (List String)
  item_types no_property = ok ("any" ∷ [])
  item_types (some_property p) = types_of p

  abbrev resolved_types : Option (String → Result Property) → Option String → Result (List String)
  resolved_types base none = ok []
  resolved_types none (some ref) = err value_error
  resolved_types (some resolve_ref) (some ref) = do p ← resolve_ref ref; types_of p

-- What is inserted of a value into a string by `f"{value}"`
abbrev pub formatted : (Payload → String) → Payload → String
formatted str (text s) = s
formatted str (ts_literal s) = s
formatted str p = str p

abbrev enum_type : (Payload → String) → Option (List Payload) → Option String
enum_type str none = none
enum_type str (some []) = none
enum_type str (some (v ∷ vs)) =
    some (join " | " (map (λ x. "'" <> (formatted str x <> "'")) (v ∷ vs)))

abbrev own_types : Option String → Option SchemaType → Result (List String)
own_types (some enumeration) t = ok (enumeration ∷ [])
own_types none none = ok []
own_types none (some t) = do ts ← map_openapi_type_to_ts t; ok (ts ∷ [])

abbrev is_none : Option String → Bool
is_none none = true
is_none (some s) = false

-- On fuel, since a schema may refer to itself
unfoldable pub get_types_from_parameters :
    (Payload → String) → Option (String → Result Property) → ℕ → Property → Result (List String)
get_types_from_parameters str base zero p = err out_of_fuel
get_types_from_parameters str base (suc fuel) (empty_property d) = ok []
get_types_from_parameters str base (suc fuel)
      (property i properties additional items any_of all_of prefix) =
    let types_of = get_types_from_parameters str base fuel in
    let enumeration = enum_type str i.enum in
    if is_none enumeration && is_array i.variable_type
    then (item_types types_of items >>= λ child. ok (("Array<" <> (join " | " child <> ">")) ∷ []))
    else append (own_types enumeration i.variable_type) (
        append (types_of_named types_of properties) (
          append (types_of_maybe types_of additional) (
            append (types_of_maybe types_of items) (
              append (types_of_all types_of any_of)
                (append (types_of_all types_of all_of) (resolved_types types_of base i.ref))))))

pub data ParameterLocation : Type 0 where
  path query cookie header : ParameterLocation

pub record UrlParameterDefinition : Type 0 where
  pub name : String
  pub in_location : ParameterLocation
  pub schema_ref : Property
  pub required : Bool

-- The key and the value are literals.
unfoldable pub get_typehint_for_parameter :
    (Payload → String)
    → Option (String → Result Property)
    → ℕ
    → UrlParameterDefinition
    → Result (String × String)
get_typehint_for_parameter str base fuel parameter = do
  types ← get_types_from_parameters str base fuel parameter.schema_ref
  ok (
    parameter.name <> (if parameter.required then "" else "?"),
    join " | " (sorted string_le (to_set [] types)),
  )
