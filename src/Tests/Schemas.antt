-- ===== src/Tests/Schemas.antt =====
-- Objects of a schema, and the changes between two schemas.
use mathlib.Core.List.{Permᴰ}
use mountaineer.Base.{
  ℕ, zero, suc, ◌+◌, ◌-◌, ◌*◌, ◌≤◌, ◌<◌, ltb, leb, ltb→lt, leb→le, lt→ltb, arith, ◌≡◌, ◌≢◌, ◌↔◌,
  ◌⊎◌, inl, inr, refl, sym, ap, subst, ◌∙◌, ◌≡⟨◌⟩◌, ◌∎, ite, dite, if_pos, if_neg, Bool, true,
  false, not, ◌&&◌, ◌||◌, false≢true, Option, none, some, List, [], ◌∷◌, ◌++◌, map, String, ◌<>◌,
  Eq, ◌==◌, ==-true, ==-false, contains, if◌then◌else◌, string_eq, nat_eq, option_eq, bool_eq,
  Bool-cases, Option-cases, length, drop, get_elem?, index_from, CutAt, index_from-CutAt, all, All,
  All-append, All-suffix, all-append, length-append,
}
use mountaineer.Base.Exec.{ok, err, value_error, pure, ◌>>=◌, ◌>>◌, for_each}
use mountaineer.Base.Dict.{
  Dict, keys, values, lookup, insert, erase, NodupKeys, lookup-insert, lookup-erase,
  insert-NodupKeys, erase-NodupKeys, lookup-insert_cases, lookup-insert_known, lookup-insert_self,
  contains-keys-insert, contains-keys_found,
}
use mountaineer.Base.FrozenSets.{same_items, is_subset, union, difference}
use mountaineer.Base.Sorting.{sorted, string_le}
use mountaineer.Base.Strings.{repr, repr_list, join}
use mountaineer.Migrations.Actions.{DatabaseActions, add_comment}
use mountaineer.Migrations.Actions.Types.{
  column_type_name, column_type_eq, constraint_type_eq, varchar, integer, unique,
  constraint_type_value,
}
use mountaineer.Migrations.Stubs.{
  builtin, DbColumn, DbConstraint, DbType, DbObject, table, column, constraint, enum_type,
  type_pointer, pair_eq, same_object, merge, merge_types, representation, constraint_representation,
  pointer_representation, new_constraint_name, validate_constraint_type,
}
use mountaineer.Migrations.Stubs.Changes.{
  migrate, create, destroy, create_table, create_column, destroy_column, create_constraint,
  destroy_constraint, create_type, migrate_type, migrate_column, type_change_comment,
}
use mountaineer.Migrations.Stubs.Agreement.{Merges, merge_lem}
use mountaineer.Migrations.Stubs.Merging.{
  merge_comm, same_object_refl, constraint_representation-Permᴰ,
}
use mountaineer.Migrations.Stubs.Unchanged.{migrate-same_object}
use mountaineer.Migrations.Actions.Calls.{Call, perform}
use mountaineer.Migrations.Actions.Methods.{no_args}
use mountaineer.Migrations.Serializer.{
  by_name, ordering_by_name, in_order, missing_from, reverse, same_names, apply_changes,
  build_actions,
}
use mountaineer.Migrations.Serializer.Unchanged.{
  build_actions-same, build_actions-mismatch, names, place_names,
}
use mountaineer.Tests.Calls.{run, dry}

abbrev mood : List (String × String) → DbType
mood columns = record { name = "mood"; values = "ok" ∷ "sad" ∷ []; reference_columns = columns }

abbrev mixed : DbType
mixed = record { name = "mood"; values = "sad" ∷ "ok" ∷ []; reference_columns = ("b", "m") ∷ [] }

abbrev together : DbObject
together = enum_type (mood (("a", "m") ∷ ("b", "m") ∷ []))

merged : merge (enum_type (mood (("a", "m") ∷ []))) (enum_type mixed) ≡ ok together
unfolding merge merge_types same_items is_subset contains union difference string_eq pair_eq
merged = refl

merge_comm_example :
    (m' : DbObject) × (merge (enum_type mixed) (enum_type (mood (("a", "m") ∷ []))) ≡ ok m')
    × (same_object together m' ≡ true)
merge_comm_example =
    merge_comm (enum_type (mood (("a", "m") ∷ []))) (enum_type mixed) together merged

merge_lem_example :
    Merges
      (enum_type (mood (("a", "m") ∷ [])))
      (enum_type mixed)
      (merge (enum_type (mood (("a", "m") ∷ []))) (enum_type mixed))
merge_lem_example = merge_lem (enum_type (mood (("a", "m") ∷ []))) (enum_type mixed)

abbrev one_mail : DbConstraint
one_mail = record {
  table_name = "users";
  constraint_name = "users_mail_name_unique";
  columns = "name" ∷ "mail" ∷ [];
  constraint_type = unique;
  foreign_key_constraint = none;
  check_constraint = none;
}

named : constraint_representation one_mail ≡ "users.['mail', 'name'].UNIQUE"
unfolding constraint_representation repr_list repr join sorted string_le constraint_type_value
    nat_eq
named = refl

made : new_constraint_name "users" ("name" ∷ "mail" ∷ []) unique ≡ "users_mail_name_unique"
unfolding new_constraint_name join sorted string_le
made = refl

constraint_representation-Permᴰ_example :
    (constraint_representation one_mail
      ≡ constraint_representation (record one_mail { columns = "mail" ∷ "name" ∷ [] }))
    × (new_constraint_name "users" ("name" ∷ "mail" ∷ []) unique
        ≡ new_constraint_name "users" ("mail" ∷ "name" ∷ []) unique)
constraint_representation-Permᴰ_example =
    constraint_representation-Permᴰ one_mail ("mail" ∷ "name" ∷ []) (Permᴰ.swap refl refl)

abbrev age : Bool → DbColumn
age nullable = record {
  table_name = "users";
  column_name = "age";
  column_type = builtin integer;
  column_is_list = false;
  nullable = nullable;
}

migrate-same_object_example : migrate run (column (age true)) (column (age true)) dry ≡ (ok tt, dry)
migrate-same_object_example =
    migrate-same_object run (column (age true)) (column (age true)) dry
      (same_object_refl (column (age true))) refl

abbrev users : DbObject
users = table (record { table_name = "users" })

places :
    same_names
      (ordering_by_name [] ((users, 0) ∷ (column (age true), 1) ∷ []))
      (by_name [] (users ∷ column (age true) ∷ []))
    ≡ true
unfolding ordering_by_name by_name representation same_items is_subset contains keys insert
    string_eq
places = refl

build_actions-same_example :
    build_actions run
      (users ∷ column (age true) ∷ [])
      ((users, 0) ∷ (column (age true), 1) ∷ [])
      (users ∷ column (age true) ∷ [])
      ((users, 0) ∷ (column (age true), 1) ∷ [])
      dry
    ≡ (ok dry.dry_run_actions, dry)
build_actions-same_example =
    build_actions-same run (users ∷ column (age true) ∷ [])
      ((users, 0) ∷ (column (age true), 1) ∷ []) dry places

no_place :
    contains (names (users ∷ [])) (representation users)
    ≢ contains (place_names []) (representation users)
unfolding names place_names contains representation string_eq
no_place h = cc

build_actions-mismatch_example :
    build_actions run [] [] (users ∷ []) [] dry ≡ (err value_error, dry)
build_actions-mismatch_example =
    build_actions-mismatch run [] (users ∷ []) [] [] dry (representation users) (inr no_place)

column_created :
    create run (column (age false)) dry
    ≡ (perform run (Call.add_column "users" "age" (some integer) false none)
          >> perform run (Call.add_not_null "users" "age"))
        dry
unfolding create create_column ◌>>=◌
column_created = refl

column_destroyed :
    destroy run (column (age true)) dry
    ≡ (perform run (Call.drop_column "users" "age") >> pure tt) dry
unfolding destroy destroy_column ◌>>=◌
column_destroyed = refl

column_migrated :
    migrate run (column (age true)) (column (age false)) dry
    ≡ (pure tt >> (pure tt >> perform run (Call.drop_not_null "users" "age"))) dry
unfolding migrate migrate_column string_eq column_type_eq bool_eq ◌>>=◌
column_migrated = refl

table_created :
    create run users dry
    ≡ (add_comment "\nNEW TABLE: users\n" >> perform run (Call.add_table "users")) dry
unfolding create create_table ◌>>=◌
table_created = refl

constraint_created :
    create run (constraint one_mail) dry
    ≡ perform run
        (Call.add_constraint "users" ("name" ∷ "mail" ∷ []) unique "users_mail_name_unique" no_args)
        dry
unfolding create create_constraint
constraint_created = refl

constraint_destroyed :
    destroy run (constraint one_mail) dry
    ≡ perform run (Call.drop_constraint "users" "users_mail_name_unique") dry
unfolding destroy destroy_constraint
constraint_destroyed = refl

type_created :
    create run (enum_type mixed) dry ≡ perform run (Call.add_type "mood" ("ok" ∷ "sad" ∷ [])) dry
unfolding create create_type sorted string_le
type_created = refl

type_migrated :
    migrate run (enum_type mixed) (enum_type (record mixed { values = "ok" ∷ "glad" ∷ [] })) dry
    ≡ (perform run (Call.add_type_values "mood" ("sad" ∷ []))
          >> perform run (Call.drop_type_values "mood" ("glad" ∷ []) (("b", "m") ∷ [])))
        dry
unfolding migrate migrate_type difference contains string_eq sorted string_le ◌>>=◌
type_migrated = refl

valid_constraint : validate_constraint_type one_mail ≡ ok one_mail
unfolding validate_constraint_type constraint_type_eq
valid_constraint = refl

pointed : pointer_representation (type_pointer "mood") ≡ representation (enum_type mixed)
unfolding pointer_representation representation
pointed = refl

commented :
    type_change_comment
      (age true)
      (record (age true) { column_type = builtin varchar; column_is_list = true })
    ≡ "Migrating column type from INTEGER to VARCHAR (is list)\nChanging column type does not perform a migration of values.\nTypically you'll want to create a new column, migrate values, and drop the old column instead."
unfolding type_change_comment column_type_name
commented = refl

renewed :
    build_actions run
      (column (age true) ∷ [])
      ((column (age true), 0) ∷ [])
      (users ∷ [])
      ((users, 0) ∷ [])
      dry
    ≡ (create run users
          >> (perform run (Call.drop_column "users" "age") >> λ a. (ok a.dry_run_actions, a)))
        dry
unfolding build_actions apply_changes by_name ordering_by_name in_order missing_from reverse
    representation same_items is_subset contains keys insert mountaineer.Base.Dict.values
    mountaineer.Base.Dict.lookup string_eq sorted create create_table destroy destroy_column
    for_each ◌>>=◌ add_comment mountaineer.Migrations.Actions.Methods.add_table
    mountaineer.Migrations.Actions.Methods.drop_column
    mountaineer.Migrations.Actions.Identifiers.assert_is_safe_sql_identifier
    mountaineer.Migrations.Actions.record_signature
renewed = refl
