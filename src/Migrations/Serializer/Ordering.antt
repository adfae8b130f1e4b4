-- ===== src/Migrations/Serializer/Ordering.antt =====
-- mountaineer/migrations/db_memory_serializer.py: `order_db_objects`. An object and its name stand
-- for each other once the objects are merged by their names, so that the graph is over names.
pub mod Dependencies
pub mod Places
pub mod Complete
use mountaineer.Base.{
  ℕ, zero, suc, ◌+◌, ◌-◌, ◌*◌, ◌≤◌, ◌<◌, ltb, leb, ltb→lt, leb→le, lt→ltb, arith, ◌≡◌, ◌≢◌, ◌↔◌,
  ◌⊎◌, inl, inr, refl, sym, ap, subst, ◌∙◌, ◌≡⟨◌⟩◌, ◌∎, ite, dite, if_pos, if_neg, Bool, true,
  false, not, ◌&&◌, ◌||◌, false≢true, Option, none, some, List, [], ◌∷◌, ◌++◌, map, String, ◌<>◌,
  Eq, ◌==◌, ==-true, ==-false, contains, if◌then◌else◌, string_eq, nat_eq, option_eq, bool_eq,
  Bool-cases, Option-cases, length, drop, get_elem?, index_from, CutAt, index_from-CutAt, all, All,
  All-append, All-suffix, all-append, length-append,
}
use mountaineer.Base.Exec.{
  Error, Result, ok, err, value_error, type_error, key_error, attribute_error, assertion_error,
  not_implemented_error, cycle_error, invalid_request_error, database_error, result_error,
  index_error, out_of_fuel, Exec, pure, raise, lift, continue, guard, when, for_each, ok-injective,
  Result-cases, >>=-eq-ok,
}
use mountaineer.Base.Dict.{
  Dict, keys, values, lookup, insert, erase, NodupKeys, lookup-insert, lookup-erase,
  insert-NodupKeys, erase-NodupKeys, lookup-insert_cases, lookup-insert_known, lookup-insert_self,
  contains-keys-insert, contains-keys_found,
}
use mountaineer.Base.TopologicalSorter.{static_order, predecessors}
use mountaineer.Base.TopologicalSorter.Queue.{Distinct, IsOrdered}
use mountaineer.Base.TopologicalSorter.Order.{static_order_sound, static_order_complete, IsRanked}
use mountaineer.Base.Results.{◌>>=◌, or_key_error, check}
use mountaineer.Migrations.Stubs.{
  DbObject, DbObjectPointer, representation, pointer_representation, merge,
}

-- `DBObject | DBObjectPointer`
pub data Node : Type 0 where
  object : DbObject → Node
  pointer : DbObjectPointer → Node

unfoldable pub node_name : Node → String
node_name (object o) = representation o
node_name (pointer p) = pointer_representation p

abbrev pub Item : Type 0
Item = Node × List Node

abbrev merge_into : Option DbObject → DbObject → Result DbObject
merge_into none o = ok o
merge_into (some current) o = merge current o

-- `db_objects_by_name`, over what stands in the dict already
unfoldable pub merge_by_name : Dict String DbObject → List Item → Result (Dict String DbObject)
merge_by_name d [] = ok d
merge_by_name d ((pointer p, dependencies) ∷ items) = merge_by_name d items
merge_by_name d ((object o, dependencies) ∷ items) = do
  merged ← merge_into (lookup (representation o) d) o
  merge_by_name (insert (representation o) merged d) items

abbrev pub is_known : Dict String DbObject → Node → Bool
is_known d (object o) = true
is_known d (pointer p) = elim (lookup (pointer_representation p) d) [ none ↦ false | some _ ↦ true ]

-- Every pointer among the dependencies has its object.
unfoldable pub pointers_resolve : Dict String DbObject → List Item → Bool
pointers_resolve d [] = true
pointers_resolve d ((n, dependencies) ∷ items) =
    all (is_known d) dependencies && pointers_resolve d items

-- `[db_objects_by_name[dep.representation()] for dep in dependencies]`, by names
unfoldable pub resolve_names : Dict String DbObject → List Node → Result (List String)
resolve_names d [] = ok []
resolve_names d (n ∷ ns) = do
  found ← or_key_error (lookup (node_name n) d)
  names ← resolve_names d ns
  ok (node_name n ∷ names)

-- `graph_edges`, over what stands in the dict already
unfoldable pub graph_edges :
    Dict String DbObject
    → Dict String (List String)
    → List Item
    → Result (Dict String (List String))
graph_edges d graph [] = ok graph
graph_edges d graph ((n, dependencies) ∷ items) = do
  found ← or_key_error (lookup (node_name n) d)
  names ← resolve_names d dependencies
  graph_edges d (insert (node_name n) names graph) items

-- `{obj: i for i, obj in enumerate(order)}`
unfoldable pub enumerate_objects :
    Dict String DbObject → ℕ → List String → Result (List (DbObject × ℕ))
enumerate_objects d i [] = ok []
enumerate_objects d i (name ∷ names) = do
  o ← or_key_error (lookup name d)
  rest ← enumerate_objects d (suc i) names
  ok ((o, i) ∷ rest)

unfoldable pub order_db_objects : List Item → Result (List (DbObject × ℕ))
order_db_objects items = do
  d ← merge_by_name [] items
  _ ← check value_error (pointers_resolve d items)
  graph ← graph_edges d [] items
  order ← static_order graph
  enumerate_objects d 0 order
