-- ===== src/Tests/Ordering.antt =====
-- The order of the objects of a schema.
use mountaineer.Base.{
  ℕ, arith, ◌≡◌, refl, true, false, List, [], ◌∷◌, ◌++◌, map, String, ◌==◌, contains, if◌then◌else◌,
  string_eq, nat_eq, option_eq, bool_eq,
}
use mountaineer.Base.Exec.{ok}
use mountaineer.Base.Dict.{Dict, keys, lookup, insert}
use mountaineer.Base.FrozenSets.{is_subset}
use mountaineer.Base.TopologicalSorter.{static_order, nodes_of, drain, keep, released}
use mountaineer.Base.TopologicalSorter.Queue.{Distinct}
use mountaineer.Migrations.Actions.Types.{integer}
use mountaineer.Migrations.Stubs.{DbObject, table, column, builtin, representation}
use mountaineer.Migrations.Serializer.Ordering.{
  Node, object, node_name, Item, merge_by_name, pointers_resolve, resolve_names, graph_edges,
  enumerate_objects, order_db_objects,
}
use mountaineer.Migrations.Serializer.Ordering.Dependencies.{item_name, LastFor}
use mountaineer.Migrations.Serializer.Ordering.Complete.{Resolved, order_db_objects_complete}
use mountaineer.Migrations.Serializer.Ordering.Places.{placed, Counts, order_db_objects_lem}

abbrev users : DbObject
users = table (record { table_name = "users" })

abbrev age : DbObject
age = column (record {
  table_name = "users";
  column_name = "age";
  column_type = builtin integer;
  column_is_list = false;
  nullable = false;
})

-- The column comes first, and depends on its table.
abbrev items : List Item
items = (object age, object users ∷ []) ∷ (object users, []) ∷ []

abbrev in_place : List (DbObject × ℕ)
in_place = (users, 0) ∷ (age, 1) ∷ []

ordered : order_db_objects items ≡ ok in_place
unfolding order_db_objects merge_by_name pointers_resolve resolve_names graph_edges
    enumerate_objects static_order drain keep nodes_of released is_subset contains lookup insert
    keys string_eq nat_eq representation node_name
ordered = refl

order_db_objects_lem_example :
    Distinct (placed in_place)
    × Counts 0 in_place
    × ((m : String) → contains (placed in_place) m ≡ contains (map item_name items) m)
    × ((n : Node) (dependencies : List Node)
        → LastFor items n dependencies
        → (before : List String) × (after : List String) × (placed in_place
            ≡ before ++ node_name n ∷ after)
          × (is_subset (map node_name dependencies) before ≡ true))
order_db_objects_lem_example = order_db_objects_lem items in_place ordered

abbrev by_names : Dict String DbObject
by_names = (representation age, age) ∷ (representation users, users) ∷ []

abbrev rank : String → ℕ
rank name = if name == "users" then 0 else 1

merged : merge_by_name [] items ≡ ok by_names
unfolding merge_by_name lookup insert string_eq representation
merged = refl

items-Resolved : Resolved by_names rank items
unfolding lookup string_eq representation node_name
items-Resolved = (((age, refl), (((users, refl), omega arith), tt)), (((users, refl), tt), tt))

order_db_objects_complete_example :
    (order : List (DbObject × ℕ)) × (order_db_objects items ≡ ok order)
order_db_objects_complete_example =
    order_db_objects_complete items by_names rank merged items-Resolved
