-- ===== src/Migrations/Stubs/Changes.antt =====
-- mountaineer/migrations/db_stubs.py: `create`, `migrate` and `destroy` of the objects of a schema.
use mountaineer.Base.{
  Bool, true, false, not, ◌&&◌, ◌||◌, Option, none, some, List, [], ◌∷◌, String, ◌<>◌, ◌==◌,
  string_eq, nat_eq, option_eq, bool_eq,
}
use mountaineer.Base.Exec.{
  attribute_error, assertion_error, not_implemented_error, Exec, pure, raise, ◌>>◌, guard, when,
}
use mountaineer.Base.FrozenSets.{difference}
use mountaineer.Base.Sorting.{sorted, string_le}
use mountaineer.Migrations.Actions.{DatabaseActions, add_comment}
use mountaineer.Migrations.Actions.Methods
use mountaineer.Migrations.Actions.Methods.{no_args, foreign_key_args, check_args}
use mountaineer.Migrations.Actions.Types.{
  ColumnType, column_type_name, ConstraintType, constraint_type_eq, foreign_key, primary_key,
  unique, check, ForeignKeyConstraint, CheckConstraint,
}
use mountaineer.Migrations.Stubs.{
  DataType, pointer, builtin, DbTable, DbColumn, DbConstraint, DbType, DbObject, table, column,
  constraint, enum_type, same_data_type, same_dump,
}

-- `column_type if isinstance(column_type, ColumnType) else None`, and the other way round
abbrev pub explicit_type : DataType → Option ColumnType
explicit_type (builtin t) = some t
explicit_type (pointer name) = none

abbrev pub custom_type : DataType → Option String
custom_type (builtin t) = none
custom_type (pointer name) = some name

abbrev data_type_name : DataType → String
data_type_name (builtin t) = column_type_name t
data_type_name (pointer name) = name

abbrev list_metadata : Bool → String
list_metadata true = " (is list)"
list_metadata false = ""

unfoldable pub type_change_comment : DbColumn → DbColumn → String
type_change_comment previous next =
    "Migrating column type from "
    <> data_type_name previous.column_type
    <> list_metadata previous.column_is_list
    <> " to "
    <> data_type_name next.column_type
    <> list_metadata next.column_is_list
    <> "\nChanging column type does not perform a migration of values.\nTypically you'll want to create a new column, migrate values, and drop the old column instead."

module _ {S : Type 0} (run : String → Exec S (Unit {0})) where
  abbrev pub Change : Type 0
  Change = Exec (DatabaseActions S) (Unit {0})

  unfoldable pub create_table : DbTable → Change
  create_table t = do
    add_comment ("\nNEW TABLE: " <> t.table_name <> "\n")
    Methods.add_table run t.table_name

  unfoldable pub create_column : DbColumn → Change
  create_column c = do
    Methods.add_column run c.table_name c.column_name (explicit_type c.column_type) c.column_is_list
        (custom_type c.column_type)
    when (not c.nullable) (Methods.add_not_null run c.table_name c.column_name)

  unfoldable pub destroy_column : DbColumn → Change
  destroy_column c = do
    Methods.drop_column run c.table_name c.column_name
    when (not c.nullable) (Methods.drop_not_null run c.table_name c.column_name)

  abbrev pub type_changes : DbColumn → DbColumn → Bool
  type_changes self previous =
      not (same_data_type self.column_type previous.column_type)
      || not (self.column_is_list == previous.column_is_list)

  unfoldable pub migrate_column : DbColumn → DbColumn → Change
  migrate_column self previous = do
    when (type_changes self previous) (do
      add_comment (type_change_comment previous self)
      Methods.modify_column_type run self.table_name self.column_name
          (explicit_type self.column_type) self.column_is_list (custom_type self.column_type))
    when (not self.nullable && previous.nullable)
        (Methods.add_not_null run self.table_name self.column_name)
    when (self.nullable && not previous.nullable)
        (Methods.drop_not_null run self.table_name self.column_name)

  -- `assert … is not None`, then `add_constraint`
  abbrev add_foreign_key : DbConstraint → Option ForeignKeyConstraint → Change
  add_foreign_key c none = raise assertion_error
  add_foreign_key c (some f) =
      Methods.add_constraint run c.table_name c.columns foreign_key c.constraint_name
        (foreign_key_args f)

  abbrev add_check : DbConstraint → Option CheckConstraint → Change
  add_check c none = raise assertion_error
  add_check c (some k) =
      Methods.add_constraint run c.table_name c.columns check c.constraint_name (check_args k)

  abbrev create_constraint_of : ConstraintType → DbConstraint → Change
  create_constraint_of foreign_key c = add_foreign_key c c.foreign_key_constraint
  create_constraint_of check c = add_check c c.check_constraint
  create_constraint_of primary_key c =
      Methods.add_constraint run c.table_name c.columns primary_key c.constraint_name no_args
  create_constraint_of unique c =
      Methods.add_constraint run c.table_name c.columns unique c.constraint_name no_args

  unfoldable pub create_constraint : DbConstraint → Change
  create_constraint c = create_constraint_of c.constraint_type c

  unfoldable pub destroy_constraint : DbConstraint → Change
  destroy_constraint c = Methods.drop_constraint run c.table_name c.constraint_name

  unfoldable pub migrate_constraint : DbConstraint → DbConstraint → Change
  migrate_constraint self previous = do
    guard (self.constraint_type == previous.constraint_type) not_implemented_error
    when (not (same_dump self previous)) (do destroy_constraint self; create_constraint self)

  unfoldable pub create_type : DbType → Change
  create_type t = Methods.add_type run t.name (sorted string_le t.values)

  -- `if values: …` with the values in their order
  abbrev pub unless_empty : List String → (List String → Change) → Change
  unless_empty [] change = pure tt
  unless_empty (v ∷ values) change = change (sorted string_le (v ∷ values))

  unfoldable pub migrate_type : DbType → DbType → Change
  migrate_type self previous = do
    unless_empty (difference self.values previous.values) (Methods.add_type_values run self.name)
    unless_empty (difference previous.values self.values)
        (λ deleted. Methods.drop_type_values run self.name deleted self.reference_columns)

  unfoldable pub create : DbObject → Change
  create (table t) = create_table t
  create (column c) = create_column c
  create (constraint c) = create_constraint c
  create (enum_type t) = create_type t

  unfoldable pub destroy : DbObject → Change
  destroy (table t) = Methods.drop_table run t.table_name
  destroy (column c) = destroy_column c
  destroy (constraint c) = destroy_constraint c
  destroy (enum_type t) = Methods.drop_type run t.name

  -- `self.migrate(previous)`: each class reads fields of `previous` that the others lack.
  unfoldable pub migrate : DbObject → DbObject → Change
  migrate (table t) previous = raise not_implemented_error
  migrate (column c) (column previous) = migrate_column c previous
  migrate (constraint c) (constraint previous) = migrate_constraint c previous
  migrate (enum_type t) (enum_type previous) = migrate_type t previous
  migrate self previous = raise attribute_error
