-- ===== src/ClientBuilder.antt =====
-- mountaineer/client_builder/openapi.py: the schemas that the client is built from.
-- An `EmptyAPIProperty` is `empty_property`; a property without a value is `no_property`, also
-- where `additionalProperties` is `False`.
pub mod Typescript
pub mod Parameters
pub mod Schemas
pub mod Models
pub mod Links
pub mod Actions
use mountaineer.Base.{
  ℕ, zero, suc, ◌+◌, ◌-◌, ◌*◌, ◌≤◌, ◌<◌, ltb, leb, ltb→lt, leb→le, lt→ltb, arith, ◌≡◌, ◌≢◌, ◌↔◌,
  ◌⊎◌, inl, inr, refl, sym, ap, subst, ◌∙◌, ◌≡⟨◌⟩◌, ◌∎, ite, dite, if_pos, if_neg, Bool, true,
  false, not, ◌&&◌, ◌||◌, false≢true, Option, none, some, List, [], ◌∷◌, ◌++◌, map, String, ◌<>◌,
  Eq, ◌==◌, ==-true, ==-false, contains, if◌then◌else◌, string_eq, nat_eq, option_eq, bool_eq,
  Bool-cases, Option-cases, length, drop, get_elem?, index_from, CutAt, index_from-CutAt, all, All,
  All-append, All-suffix, all-append, length-append,
}

pub data SchemaType : Type 0 where
  object string integer float boolean array null number : SchemaType

abbrev pub schema_type_value : SchemaType → String
schema_type_value object = "object"
schema_type_value string = "string"
schema_type_value integer = "integer"
schema_type_value float = "float"
schema_type_value boolean = "boolean"
schema_type_value array = "array"
schema_type_value null = "null"
schema_type_value number = "number"

-- A value of `enum` and `const`, and what is written to TypeScript; a number is the text that
-- `str` gives for it. `ts_literal` is a `TSLiteral`, `other_value` what has no conversion.
mutual
  pub data Payload : Type 0 where
    dict : Entries → Payload
    items : Payloads → Payload
    ts_literal : String → Payload
    text : String → Payload
    truth : Bool → Payload
    digits : String → Payload
    nothing : Payload
    other_value : Payload

  pub data Payloads : Type 0 where
    no_payloads : Payloads
    payload : Payload → Payloads → Payloads

  pub data Entries : Type 0 where
    no_entries : Entries
    entry : Payload → Payload → Entries → Entries

-- The fields of `OpenAPIProperty` that hold no property
pub record PropertyInfo : Type 0 where
  pub title : Option String
  pub description : Option String
  pub required : List String
  pub variable_type : Option SchemaType
  pub ref : Option String
  pub enum : Option (List Payload)
  pub const : Option Payload

mutual
  pub data Property : Type 0 where
    empty_property : (description : Option String) → Property
    property :
        PropertyInfo
        → (properties : NamedProperties) → (additional_properties items : MaybeProperty)
        → (any_of all_of prefix_items : Properties) → Property

  pub data MaybeProperty : Type 0 where
    no_property : MaybeProperty
    some_property : Property → MaybeProperty

  pub data Properties : Type 0 where
    no_properties : Properties
    one_more : Property → Properties → Properties

  pub data NamedProperties : Type 0 where
    no_names : NamedProperties
    named : String → Property → NamedProperties → NamedProperties

-- `set(xs)`, over what stands in it already
unfoldable pub to_set : List String → List String → List String
unfolding contains
to_set set [] = set
to_set set (x ∷ xs) = let next = if contains set x then set else set ++ x ∷ [] in to_set next xs
