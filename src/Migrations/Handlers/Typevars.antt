-- ===== src/Migrations/Handlers/Typevars.antt =====
-- mountaineer/generics.py: the values of the type variables of a class. A class is the
-- `__orig_bases__` of the classes of its `__mro__` without `object`, in reverse order; of each base
-- with an origin, the `__parameters__` of the origin and the arguments.
pub mod Expansion
use mountaineer.Base.{
  ℕ, zero, suc, ◌+◌, ◌-◌, ◌*◌, ◌≤◌, ◌<◌, ltb, leb, ltb→lt, leb→le, lt→ltb, arith, ◌≡◌, ◌≢◌, ◌↔◌,
  ◌⊎◌, inl, inr, refl, sym, ap, subst, ◌∙◌, ◌≡⟨◌⟩◌, ◌∎, ite, dite, if_pos, if_neg, Bool, true,
  false, not, ◌&&◌, ◌||◌, false≢true, Option, none, some, List, [], ◌∷◌, ◌++◌, map, String, ◌<>◌,
  Eq, ◌==◌, ==-true, ==-false, contains, if◌then◌else◌, string_eq, nat_eq, option_eq, bool_eq,
  Bool-cases, Option-cases, length, drop, get_elem?, index_from, CutAt, index_from-CutAt, all, All,
  All-append, All-suffix, all-append, length-append,
}
use mountaineer.Base.Exec.{
  Error, Result, ok, err, value_error, type_error, key_error, attribute_error, assertion_error,
  not_implemented_error, cycle_error, invalid_request_error, database_error, result_error,
  index_error, out_of_fuel, Exec, pure, raise, lift, continue, guard, when, for_each, ok-injective,
  Result-cases, >>=-eq-ok,
}
use mountaineer.Base.Dict.{
  Dict, keys, values, lookup, insert, erase, NodupKeys, lookup-insert, lookup-erase,
  insert-NodupKeys, erase-NodupKeys, lookup-insert_cases, lookup-insert_known, lookup-insert_self,
  contains-keys-insert, contains-keys_found,
}
use mountaineer.Base.Results.{◌>>=◌}

-- A type variable, or any other type
pub data TypeValue (T C : Type 0) : Type 0 where
  typevar : T → TypeValue T C
  type_value : C → TypeValue T C

pub record OrigBase (T C : Type 0) : Type 0 where
  pub base_params : List T
  pub instantiated_params : List (TypeValue T C)

module _ {T C : Type 0} ⦃eq : Eq T⦄ where
  -- `dict(zip(params, args))`, over what stands in it already
  unfoldable pub zip_dict :
      Dict T (TypeValue T C) → List T → List (TypeValue T C) → Dict T (TypeValue T C)
  zip_dict d [] args = d
  zip_dict d (p ∷ params) [] = d
  zip_dict d (p ∷ params) (a ∷ args) = zip_dict (insert p a d) params args

  abbrev or_value : TypeValue T C → Option (TypeValue T C) → TypeValue T C
  or_value v none = v
  or_value v (some w) = w

  abbrev resolve_once : Dict T (TypeValue T C) → TypeValue T C → TypeValue T C
  resolve_once mapping (typevar t) = or_value (typevar t) (lookup t mapping)
  resolve_once mapping (type_value c) = type_value c

  unfoldable pub update_mapping :
      Dict T (TypeValue T C) → Dict T (TypeValue T C) → Dict T (TypeValue T C)
  update_mapping mapping [] = mapping
  update_mapping mapping ((k, v) ∷ items) =
      update_mapping (insert k (resolve_once mapping v) mapping) items

  unfoldable pub add_bases :
      Dict T (TypeValue T C) → List (Option (OrigBase T C)) → Dict T (TypeValue T C)
  add_bases mapping [] = mapping
  add_bases mapping (none ∷ bases) = add_bases mapping bases
  add_bases mapping (some b ∷ bases) =
      add_bases (update_mapping mapping (zip_dict [] b.base_params b.instantiated_params)) bases

  -- over the mapping so far; a class that is not generic has no `__orig_bases__`
  unfoldable pub get_typevar_mapping :
      Dict T (TypeValue T C) → List (Option (List (Option (OrigBase T C)))) → Dict T (TypeValue T C)
  get_typevar_mapping mapping [] = mapping
  get_typevar_mapping mapping (none ∷ classes) = get_typevar_mapping mapping classes
  get_typevar_mapping mapping (some orig_bases ∷ classes) =
      get_typevar_mapping (add_bases mapping orig_bases) classes

  -- What the value is bound to, where the loop goes on
  abbrev pub bound_to : Dict T (TypeValue T C) → TypeValue T C → Option (TypeValue T C)
  bound_to raw_values (typevar t) = lookup t raw_values
  bound_to raw_values (type_value c) = none

  abbrev continue_with :
      Option (TypeValue T C)
      → TypeValue T C
      → (TypeValue T C → Result (TypeValue T C))
      → Result (TypeValue T C)
  continue_with none value rest = ok value
  continue_with (some next) value rest = rest next

  -- The `while` loop of `expand_typevars`, on fuel
  unfoldable pub expand : ℕ → Dict T (TypeValue T C) → TypeValue T C → Result (TypeValue T C)
  expand zero raw_values value = err out_of_fuel
  expand (suc fuel) raw_values value =
      continue_with (bound_to raw_values value) value (expand fuel raw_values)

  -- over the values that are left
  unfoldable pub expand_values :
      ℕ
      → Dict T (TypeValue T C)
      → Dict T (TypeValue T C)
      → Dict T (TypeValue T C)
      → Result (Dict T (TypeValue T C))
  expand_values fuel raw_values final_values [] = ok final_values
  expand_values fuel raw_values final_values ((key, value) ∷ items) = do
    final ← expand fuel raw_values value
    expand_values fuel raw_values (insert key final final_values) items

  abbrev pub expand_typevars : ℕ → Dict T (TypeValue T C) → Result (Dict T (TypeValue T C))
  expand_typevars fuel raw_values = expand_values fuel raw_values [] raw_values
