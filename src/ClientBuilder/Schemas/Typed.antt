-- ===== src/ClientBuilder/Schemas/Typed.antt =====
-- Which schemas `_convert_object_to_interface` finds a type for.
use mountaineer.Base.{
  ℕ, arith, ◌≡◌, refl, subst, Bool, true, false, not, ◌||◌, Option, none, some, List, [], ◌∷◌,
  String, ◌==◌, if◌then◌else◌, string_eq, nat_eq, option_eq, bool_eq,
}
use mountaineer.Base.Exec.{Result, ok, err}
use mountaineer.Base.Results.{◌>>=◌}
use mountaineer.ClientBuilder.{
  SchemaType, PropertyInfo, Payload, Property, MaybeProperty, Properties, empty_property, property,
  no_property, some_property, no_properties, one_more,
}
use mountaineer.ClientBuilder.Typescript.{map_openapi_type_to_ts}
use mountaineer.ClientBuilder.Parameters.{append, is_array}
use mountaineer.ClientBuilder.Schemas.{
  walk_array_types, walk_maybe, walk_all, get_typescript_interface_name, is_truthy_value, ref_type,
  items_type, any_of_type, additional_type, array_type, const_type, one_type,
}

abbrev is_given : Option String → Bool
is_given none = false
is_given (some s) = not (s == "")

abbrev is_some {ℓ} : {A : Type ℓ} → Option A → Bool
is_some none = false
is_some (some a) = true

abbrev pub any_given : List String → Bool
any_given [] = false
any_given (x ∷ xs) = true

abbrev leaf_has_type : MaybeProperty → PropertyInfo → Bool
leaf_has_type (some_property p) i = true
leaf_has_type no_property i = is_some (is_truthy_value i.const) || is_some i.variable_type

abbrev any_of_or : Properties → Bool → Bool → Bool
any_of_or (one_more p ps) children otherwise = children
any_of_or no_properties children otherwise = otherwise

abbrev items_or : MaybeProperty → Bool → Bool → Bool
items_or (some_property p) children otherwise = children
items_or no_property children otherwise = otherwise

-- The first that applies settles it: array, reference, `items`, `anyOf`, and for any other schema
-- whether it is a record or a constant or names its type. `enum` and `allOf` are not looked at.
unfoldable mutual
  pub has_type : Property → Bool
  has_type (empty_property d) = true
  has_type (property i properties additional items any_of all_of prefix) =
      is_array i.variable_type
      || (is_given i.ref
          || items_or items (maybe_has_type items)
              (any_of_or any_of (any_has_type any_of) (leaf_has_type additional i)))

  pub maybe_has_type : MaybeProperty → Bool
  maybe_has_type no_property = false
  maybe_has_type (some_property p) = has_type p

  pub any_has_type : Properties → Bool
  any_has_type no_properties = false
  any_has_type (one_more p ps) = has_type p || any_has_type ps

-- What a computation returns is empty or not.
abbrev Yields : Result (List String) → Bool → Type 0
Yields (ok ts) b = any_given ts ≡ b
Yields (err e) b = Unit

append-Yields :
    (first second : Result (List String)) (b c : Bool)
    → Yields first b
    → Yields second c
    → Yields (append first second) (b || c)
append-Yields (err e) second b c f s = tt
append-Yields (ok ts) (err e) b c f s = tt
append-Yields (ok []) (ok us) b c f s = ground arith
append-Yields (ok (t ∷ ts)) (ok us) b c f s = ground arith

one_type-Yields : (r : Result String) → Yields (one_type r) true
one_type-Yields (ok t) = refl
one_type-Yields (err e) = tt

array_type-Yields :
    (ps : Properties) (tuple_values : Result (List String)) (m : MaybeProperty)
    (item_types : Result (List String))
    → Yields (array_type ps tuple_values m item_types) true
array_type-Yields (one_more p ps) (ok ts) m r = refl
array_type-Yields (one_more p ps) (err e) m r = tt
array_type-Yields no_properties t no_property r = refl
array_type-Yields no_properties t (some_property p) (ok ts) = refl
array_type-Yields no_properties t (some_property p) (err e) = tt

additional_type-Yields :
    (m : MaybeProperty) (r : Result (List String)) (i : PropertyInfo)
    → Yields (additional_type m r i) (leaf_has_type m i)
unfolding map_openapi_type_to_ts
additional_type-Yields (some_property p) (ok ts) i = refl
additional_type-Yields (some_property p) (err e) i = tt
additional_type-Yields no_property r i = const_type-Yields (is_truthy_value i.const) i.variable_type
  where
    const_type-Yields :
        (c : Option Payload) (t : Option SchemaType)
        → Yields (const_type c t) (is_some c || is_some t)
    const_type-Yields (some c) t = one_type-Yields _
    const_type-Yields none none = refl
    const_type-Yields none (some t) = one_type-Yields _

module _ (camelize : String → String) (chars : List ℕ)
    (resolve_ref : String → Result Property) where
  items_type-Yields :
      (m : MaybeProperty) (r s : Result (List String)) (b c : Bool)
      → Yields r b
      → Yields s c
      → Yields (items_type m r s) (items_or m b c)
  items_type-Yields no_property r s b c f g = g
  items_type-Yields (some_property p) r s b c f g = f

  any_of_type-Yields :
      (ps : Properties) (r s : Result (List String)) (b c : Bool)
      → Yields r b
      → Yields s c
      → Yields (any_of_type ps r s) (any_of_or ps b c)
  any_of_type-Yields no_properties r s b c f g = g
  any_of_type-Yields (one_more p ps) r s b c f g = f

  if-Yields :
      (a : Bool) (r s : Result (List String)) (c : Bool)
      → Yields r true
      → Yields s c
      → Yields (if a then r else s) (a || c)
  if-Yields true r s c f g = f
  if-Yields false r s c f g = g

  ref_type-Yields :
      (ref : Option String) (r : Result (List String)) (c : Bool)
      → Yields r c
      → Yields (ref_type camelize chars resolve_ref ref r) (is_given ref || c)
  ref_type-Yields none r c f = f
  ref_type-Yields (some ref) r c f = if_not (ref == "")
    where
      if_not :
          (e : Bool)
          → Yields
              (if e
                then r
                else one_type (
                    resolve_ref ref >>= λ p.
                    get_typescript_interface_name camelize chars resolve_ref p))
              (not e || c)
      if_not true = f
      if_not false = one_type-Yields _

  mutual
    unfolding walk_array_types has_type

    walk-Yields :
        (p : Property) → Yields (walk_array_types camelize chars resolve_ref p) (has_type p)
    walk-Yields (empty_property d) = refl
    walk-Yields (property i properties additional items any_of all_of prefix) =
        if-Yields (is_array i.variable_type) _ _ _ (array_type-Yields prefix _ items _) (
          ref_type-Yields i.ref _ _ (
            items_type-Yields items _ _ _ _ (walk_maybe-Yields items) (
              any_of_type-Yields any_of _ _ _ _ (walk_all-Yields any_of)
                (additional_type-Yields additional _ i))))

    walk_maybe-Yields :
        (m : MaybeProperty) → Yields (walk_maybe camelize chars resolve_ref m) (maybe_has_type m)
    walk_maybe-Yields no_property = refl
    walk_maybe-Yields (some_property p) = walk-Yields p

    walk_all-Yields :
        (ps : Properties) → Yields (walk_all camelize chars resolve_ref ps) (any_has_type ps)
    walk_all-Yields no_properties = refl
    walk_all-Yields (one_more p ps) = append-Yields _ _ _ _ (walk-Yields p) (walk_all-Yields ps)

  -- When the types of a schema are found, whether there are any is settled by the first of these that
  -- applies: an array and a reference have one; a schema with items has one if its items have; one
  -- with anyOf has one if one of those members has; any other has one if it is a record, a truthy
  -- constant or empty, or names its type. `enum` and `allOf` do not count.
  pub walk_array_types-has_type :
      (p : Property) (ts : List String)
      → walk_array_types camelize chars resolve_ref p ≡ ok ts
      → any_given ts ≡ has_type p
  walk_array_types-has_type p ts h = subst (λ r. Yields r (has_type p)) h (walk-Yields p)
