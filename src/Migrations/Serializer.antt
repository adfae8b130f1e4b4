-- ===== src/Migrations/Serializer.antt =====
-- mountaineer/migrations/db_memory_serializer.py: `build_actions`. A dict whose keys are objects is
-- the list of its items.
pub mod Unchanged
pub mod Ordering
use mountaineer.Base.{
  ℕ, zero, suc, ◌+◌, ◌-◌, ◌*◌, ◌≤◌, ◌<◌, ltb, leb, ltb→lt, leb→le, lt→ltb, arith, ◌≡◌, ◌≢◌, ◌↔◌,
  ◌⊎◌, inl, inr, refl, sym, ap, subst, ◌∙◌, ◌≡⟨◌⟩◌, ◌∎, ite, dite, if_pos, if_neg, Bool, true,
  false, not, ◌&&◌, ◌||◌, false≢true, Option, none, some, List, [], ◌∷◌, ◌++◌, map, String, ◌<>◌,
  Eq, ◌==◌, ==-true, ==-false, contains, if◌then◌else◌, string_eq, nat_eq, option_eq, bool_eq,
  Bool-cases, Option-cases, length, drop, get_elem?, index_from, CutAt, index_from-CutAt, all, All,
  All-append, All-suffix, all-append, length-append,
}
use mountaineer.Base.Exec.{
  Error, Result, ok, err, value_error, type_error, key_error, attribute_error, assertion_error,
  not_implemented_error, cycle_error, invalid_request_error, database_error, result_error,
  out_of_fuel, Exec, pure, raise, lift, continue, ◌>>=◌, ◌>>◌, guard, when, for_each, ok-injective,
  Result-cases, >>=-eq-ok,
}
use mountaineer.Base.Dict.{
  Dict, keys, values, lookup, insert, erase, NodupKeys, lookup-insert, lookup-erase,
  insert-NodupKeys, erase-NodupKeys, lookup-insert_cases, lookup-insert_known, lookup-insert_self,
}
use mountaineer.Base.FrozenSets.{same_items}
use mountaineer.Base.Sorting.{sorted}
use mountaineer.Migrations.Actions.{DatabaseActions, DryRunItem}
use mountaineer.Migrations.Stubs.{DbObject, representation, same_object}
use mountaineer.Migrations.Stubs.Changes.{Change, create, migrate, destroy}

-- `{obj.representation(): obj for obj in objects}`, over what stands in the dict already
unfoldable pub by_name : Dict String DbObject → List DbObject → Dict String DbObject
by_name d [] = d
by_name d (o ∷ os) = by_name (insert (representation o) o d) os

unfoldable pub ordering_by_name : Dict String ℕ → List (DbObject × ℕ) → Dict String ℕ
ordering_by_name d [] = d
ordering_by_name d ((o, n) ∷ ordering) = ordering_by_name (insert (representation o) n d) ordering

-- The keys are those of the objects, so that neither object is without a place.
abbrev pub place_le : Option ℕ → Option ℕ → Bool
place_le (some m) (some n) = leb m n
place_le none n = true
place_le (some m) none = false

abbrev pub is_before : Dict String ℕ → DbObject → DbObject → Bool
is_before places o p =
    place_le (lookup (representation o) places) (lookup (representation p) places)

-- `sorted(objects.values(), key=…)`
unfoldable pub in_order : Dict String ℕ → Dict String DbObject → List DbObject
in_order places objects = sorted (is_before places) (values objects)

-- the objects whose names are not in the dict
unfoldable pub missing_from : Dict String DbObject → List DbObject → List DbObject
missing_from d [] = []
missing_from d (o ∷ os) =
    let rest = missing_from d os in
    elim (lookup (representation o) d) [ none ↦ o ∷ rest | some _ ↦ rest ]

unfoldable pub reverse : List DbObject → List DbObject
reverse [] = []
reverse (o ∷ os) = reverse os ++ o ∷ []

abbrev pub same_names : Dict String ℕ → Dict String DbObject → Bool
same_names places objects = same_items (keys places) (keys objects)

module _ {S : Type 0} (run : String → Exec S (Unit {0})) where
  -- The body of the loop over `next`, with the previous object of the same name.
  abbrev pub change_from : Option DbObject → DbObject → Change run
  change_from none o = create run o
  change_from (some p) o = when (not (same_object p o)) (migrate run o p)

  -- What follows the two checks.
  unfoldable pub apply_changes :
      Dict String DbObject → List DbObject → Dict String DbObject → List DbObject → Change run
  apply_changes previous_by_name previous next_by_name next = do
    for_each next (λ o. change_from (lookup (representation o) previous_by_name) o)
    for_each (reverse (missing_from next_by_name previous)) (destroy run)

  unfoldable pub build_actions :
      List DbObject
      → List (DbObject × ℕ)
      → List DbObject
      → List (DbObject × ℕ)
      → Exec (DatabaseActions S) (List DryRunItem)
  build_actions previous previous_ordering next next_ordering =
      let previous_by_name = by_name [] previous in
      let next_by_name = by_name [] next in
      let previous_places = ordering_by_name [] previous_ordering in
      let next_places = ordering_by_name [] next_ordering in
      do
        guard (same_names previous_places previous_by_name) value_error
        guard (same_names next_places next_by_name) value_error
        apply_changes previous_by_name (in_order previous_places previous_by_name) next_by_name
            (in_order next_places next_by_name)
        λ a. (ok a.dry_run_actions, a)
