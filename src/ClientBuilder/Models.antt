-- ===== src/ClientBuilder/Models.antt =====
-- mountaineer/client_builder/openapi.py, `gather_all_models`, and `convert_schema_to_typescript` of
-- mountaineer/client_builder/build_schemas.py. `resolve_ref` reads attributes by their names, and
-- is a parameter with pydantic's `==`.
pub mod Titles
pub mod Gathered
use mountaineer.Base.{
  ℕ, zero, suc, ◌+◌, ◌-◌, ◌*◌, ◌≤◌, ◌<◌, ltb, leb, ltb→lt, leb→le, lt→ltb, arith, ◌≡◌, ◌≢◌, ◌↔◌,
  ◌⊎◌, inl, inr, refl, sym, ap, subst, ◌∙◌, ◌≡⟨◌⟩◌, ◌∎, ite, dite, if_pos, if_neg, Bool, true,
  false, not, ◌&&◌, ◌||◌, false≢true, Option, none, some, List, [], ◌∷◌, ◌++◌, map, String, ◌<>◌,
  Eq, ◌==◌, ==-true, ==-false, contains, if◌then◌else◌, string_eq, nat_eq, option_eq, bool_eq,
  Bool-cases, Option-cases, length, drop, get_elem?, index_from, CutAt, index_from-CutAt, all, All,
  All-append, All-suffix, all-append, length-append,
}
use mountaineer.Base.Exec.{
  Error, Result, ok, err, value_error, type_error, key_error, attribute_error, assertion_error,
  not_implemented_error, cycle_error, invalid_request_error, database_error, result_error,
  index_error, out_of_fuel, Exec, pure, raise, lift, continue, ◌>>=◌, ◌>>◌, guard, when, for_each,
  ok-injective, Result-cases, >>=-eq-ok,
}
use mountaineer.Base.Dict.{
  Dict, keys, values, lookup, insert, erase, NodupKeys, lookup-insert, lookup-erase,
  insert-NodupKeys, erase-NodupKeys, lookup-insert_cases, lookup-insert_known, lookup-insert_self,
  contains-keys-insert, contains-keys_found,
}
use mountaineer.ClientBuilder.{
  SchemaType, object, PropertyInfo, Property, MaybeProperty, Properties, NamedProperties,
  empty_property, property, no_property, some_property, no_properties, one_more, no_names, named,
}

-- A part of the walk: it adds to the titles that have been seen.
abbrev pub Walk : Type 0
Walk = Exec (List String) (List Property)

abbrev is_object : Option SchemaType → Bool
is_object (some object) = true
is_object t = false

abbrev has_enum : PropertyInfo → Bool
has_enum i = elim i.enum [ none ↦ false | some vs ↦ true ]

-- `yield property`, where it is a model
abbrev pub own_model : Property → PropertyInfo → List Property
own_model p i = if is_object i.variable_type || has_enum i then p ∷ [] else []

abbrev pub title_of : Option String → String
title_of none = ""
title_of (some title) = title

-- `property.title in seen_models`; an empty title is never put there
abbrev pub is_seen : String → List String → Bool
is_seen title seen = not (title == "") && contains seen title

abbrev pub add_title : String → List String → List String
add_title title seen = if title == "" then seen else title ∷ seen

-- `yield from` one walk after the other
unfoldable pub chain : List Walk → Walk
chain [] = pure []
chain (walk ∷ walks) = do ms ← walk; ns ← chain walks; pure (ms ++ ns)

abbrev pub all_walks : (Property → Walk) → Properties → List Walk
all_walks walk no_properties = []
all_walks walk (one_more p ps) = walk p ∷ all_walks walk ps

abbrev pub named_walks : (Property → Walk) → NamedProperties → List Walk
named_walks walk no_names = []
named_walks walk (named name p ps) = walk p ∷ named_walks walk ps

abbrev pub maybe_walks : (Property → Walk) → MaybeProperty → List Walk
maybe_walks walk no_property = []
maybe_walks walk (some_property p) = walk p ∷ []

-- A schema whose title has been seen is left out.
unfoldable pub visit : Property → PropertyInfo → List Walk → Walk
visit p i walks seen =
    if is_seen (title_of i.title) seen
    then (ok [], seen)
    else chain (pure (own_model p i) ∷ walks) (add_title (title_of i.title) seen)

module _ (resolve_ref : String → Result Property) where
  abbrev walk_result : (Property → Walk) → Result Property → Walk
  walk_result walk (ok p) = walk p
  walk_result walk (err e) = raise e

  abbrev pub ref_walks : (Property → Walk) → Option String → List Walk
  ref_walks walk none = []
  ref_walks walk (some ref) = walk_result walk (resolve_ref ref) ∷ []

  -- The walks of the parts of a schema, in the order of the code
  abbrev pub part_walks :
      (Property → Walk)
      → PropertyInfo
      → NamedProperties
      → MaybeProperty
      → MaybeProperty
      → Properties
      → Properties
      → List Walk
  part_walks walk i properties additional items any_of all_of =
      ref_walks walk i.ref
      ++ (maybe_walks walk items
          ++ (all_walks walk any_of
              ++ (all_walks walk all_of
                  ++ (named_walks walk properties ++ maybe_walks walk additional))))

  -- On fuel, since a schema may refer to itself
  unfoldable pub walk_models : ℕ → Property → Walk
  walk_models zero p = raise out_of_fuel
  walk_models (suc fuel) (empty_property d) = pure []
  walk_models (suc fuel) (property i properties additional items any_of all_of prefix) =
      visit (property i properties additional items any_of all_of prefix) i
        (part_walks (walk_models fuel) i properties additional items any_of all_of)

-- `list(set(models))`; the order of a set is not fixed
unfoldable pub model_set :
    (Property → Property → Bool) → List Property → List Property → List Property
model_set same seen [] = []
model_set same seen (m ∷ ms) =
    let rest = model_set same (m ∷ seen) ms in
    if all (λ n. not (same n m)) seen then m ∷ rest else rest

-- `OpenAPISchema` or `OpenAPIDefinition`, which has no `defs`
pub data Base : Type 0 where
  schema : Property → Base
  definition : Base

abbrev pub returned : {A B : Type 0} → (A → B) → Result A → Result B
returned f (ok a) = ok (f a)
returned f (err e) = err e

module _ (same : Property → Property → Bool) (resolve_ref : String → Result Property) where
  abbrev pub models_of : ℕ → Property → Result (List Property)
  models_of fuel p = returned (model_set same []) (walk_models resolve_ref fuel p []).0

  unfoldable pub gather_all_models : ℕ → Base → Option Property → Result (List Property)
  gather_all_models fuel base (some limit_schema) = models_of fuel limit_schema
  gather_all_models fuel (schema p) none = models_of fuel p
  gather_all_models fuel definition none = err attribute_error
