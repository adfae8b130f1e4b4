-- ===== src/Migrations/Actions/Methods.antt =====
-- The methods of `DatabaseActions` in mountaineer/migrations/actions.py.
use mountaineer.Base.{
  Bool, Option, none, some, List, [], ◌∷◌, String, ◌<>◌, ◌==◌, if◌then◌else◌, string_eq, nat_eq,
  option_eq, bool_eq,
}
use mountaineer.Base.Exec.{
  Result, ok, err, value_error, Exec, pure, raise, lift, ◌>>=◌, ◌>>◌, for_each,
}
use mountaineer.Base.Dict.{Dict, values}
use mountaineer.Migrations.Actions.{
  Action, Arg, null, str, bool, column_type, constraint_type, strs, pairs, DatabaseActions,
  record_signature,
}
use mountaineer.Migrations.Actions.Identifiers.{assert_is_safe_sql_identifier}
use mountaineer.Migrations.Actions.Sql
use mountaineer.Migrations.Actions.Types.{
  ColumnType, column_type_value, ConstraintType, primary_key, unique, foreign_key, check,
  ForeignKeyConstraint, CheckConstraint,
}

abbrev pub text_or_null : Option String → Arg
text_or_null none = null
text_or_null (some s) = str s

abbrev pub column_type_or_null : Option ColumnType → Arg
column_type_or_null none = null
column_type_or_null (some t) = column_type t

-- `if custom_data_type`: the empty string is as good as none
abbrev pub given : Option String → Option String
given none = none
given (some s) = if s == "" then none else some s

-- `constraint_args`, a model or nothing
pub data ConstraintArgs : Type 0 where
  no_args : ConstraintArgs
  foreign_key_args : ForeignKeyConstraint → ConstraintArgs
  check_args : CheckConstraint → ConstraintArgs

abbrev pub constraint_args_arg : ConstraintArgs → Arg
constraint_args_arg no_args = null
constraint_args_arg (foreign_key_args f) = Arg.foreign_key f
constraint_args_arg (check_args c) = Arg.check c

-- `_get_column_type`
unfoldable pub get_column_type : Option ColumnType → Bool → Option String → Result String
get_column_type (some t) is_list custom = ok (column_type_value t <> (if is_list then "[]" else ""))
get_column_type none is_list (some c) = if c == "" then err value_error else ok c
get_column_type none is_list none = err value_error

-- The two checks at the head of `add_column` and `modify_column_type`.
unfoldable pub check_data_types :
    {S : Type 0} → Option ColumnType → Option String → Exec S (Unit {0})
check_data_types none custom s = elim (given custom) [
  | none ↦ (err value_error, s)
  | some _ ↦ (ok tt, s)
]
check_data_types (some t) custom s = elim (given custom) [
  | none ↦ (ok tt, s)
  | some _ ↦ (err value_error, s)
]

abbrev pub assert_custom_type : {S : Type 0} → Option String → Exec S (Unit {0})
assert_custom_type none = pure tt
assert_custom_type (some c) = assert_is_safe_sql_identifier c

-- What `add_column` and `modify_column_type` share.
abbrev pub column_kwargs :
    String → String → Option ColumnType → Bool → Option String → Dict String Arg
column_kwargs table_name column_name explicit is_list custom =
    ("table_name", str table_name)
    ∷ ("column_name", str column_name)
    ∷ ("explicit_data_type", column_type_or_null explicit)
    ∷ ("explicit_data_is_list", bool is_list)
    ∷ ("custom_data_type", text_or_null custom)
    ∷ []

module _ {S : Type 0} (run : String → Exec S (Unit {0})) where
  abbrev pub Method : Type 0
  Method = Exec (DatabaseActions S) (Unit {0})

  abbrev safe : String → Method
  safe = assert_is_safe_sql_identifier

  unfoldable pub add_table : String → Method
  add_table table_name = do
    safe table_name
    record_signature run Action.add_table (("table_name", str table_name) ∷ [])
        (Sql.create_table table_name)

  unfoldable pub drop_table : String → Method
  drop_table table_name = do
    safe table_name
    record_signature run Action.drop_table (("table_name", str table_name) ∷ [])
        (Sql.drop_table table_name)

  unfoldable pub add_column : String → String → Option ColumnType → Bool → Option String → Method
  add_column table_name column_name explicit is_list custom = do
    check_data_types explicit custom
    safe table_name
    safe column_name
    assert_custom_type (given custom)
    data_type ← lift (get_column_type explicit is_list custom)
    record_signature run Action.add_column
        (column_kwargs table_name column_name explicit is_list custom)
        (Sql.add_column table_name column_name data_type)

  unfoldable pub drop_column : String → String → Method
  drop_column table_name column_name = do
    safe table_name
    safe column_name
    record_signature run Action.drop_column
        (("table_name", str table_name) ∷ ("column_name", str column_name) ∷ [])
        (Sql.drop_column table_name column_name)

  unfoldable pub rename_column : String → String → String → Method
  rename_column table_name old_column_name new_column_name = do
    safe table_name
    safe old_column_name
    safe new_column_name
    record_signature run Action.rename_column
        (("table_name", str table_name)
          ∷ ("old_column_name", str old_column_name)
          ∷ ("new_column_name", str new_column_name)
          ∷ [])
        (Sql.rename_column table_name old_column_name new_column_name)

  unfoldable pub modify_column_type :
      String → String → Option ColumnType → Bool → Option String → Method
  modify_column_type table_name column_name explicit is_list custom = do
    check_data_types explicit custom
    safe table_name
    safe column_name
    assert_custom_type (given custom)
    data_type ← lift (get_column_type explicit is_list custom)
    record_signature run Action.modify_column_type
        (column_kwargs table_name column_name explicit is_list custom)
        (Sql.modify_column table_name column_name data_type)

  -- The branches of `add_constraint` on the constraint's type, each with its own checks.
  abbrev definition :
      ConstraintType → List String → ConstraintArgs → Exec (DatabaseActions S) (List String)
  definition primary_key columns args = pure (Sql.primary_key_definition columns)
  definition foreign_key columns (foreign_key_args f) = do
    safe f.target_table
    for_each f.target_columns safe
    pure (Sql.foreign_key_definition columns f)
  definition foreign_key columns no_args = raise value_error
  definition foreign_key columns (check_args c) = raise value_error
  definition unique columns args = pure (Sql.unique_definition columns)
  definition check columns (check_args c) = pure (Sql.check_definition c)
  definition check columns no_args = raise value_error
  definition check columns (foreign_key_args f) = raise value_error

  unfoldable pub add_constraint :
      String → List String → ConstraintType → String → ConstraintArgs → Method
  add_constraint table_name columns constraint constraint_name args = do
    safe table_name
    for_each columns safe
    sql ← definition constraint columns args
    record_signature run Action.add_constraint
        (("table_name", str table_name)
          ∷ ("columns", strs columns)
          ∷ ("constraint", constraint_type constraint)
          ∷ ("constraint_name", str constraint_name)
          ∷ ("constraint_args", constraint_args_arg args)
          ∷ [])
        (Sql.add_constraint table_name constraint_name sql)

  unfoldable pub drop_constraint : String → String → Method
  drop_constraint table_name constraint_name = do
    safe table_name
    safe constraint_name
    record_signature run Action.drop_constraint
        (("table_name", str table_name) ∷ ("constraint_name", str constraint_name) ∷ [])
        (Sql.drop_constraint table_name constraint_name)

  unfoldable pub add_not_null : String → String → Method
  add_not_null table_name column_name = do
    safe table_name
    safe column_name
    record_signature run Action.add_not_null
        (("table_name", str table_name) ∷ ("column_name", str column_name) ∷ [])
        (Sql.set_not_null table_name column_name)

  unfoldable pub drop_not_null : String → String → Method
  drop_not_null table_name column_name = do
    safe table_name
    safe column_name
    record_signature run Action.drop_not_null
        (("table_name", str table_name) ∷ ("column_name", str column_name) ∷ [])
        (Sql.drop_not_null table_name column_name)

  unfoldable pub add_type : String → List String → Method
  add_type type_name values = do
    safe type_name
    record_signature run Action.add_type
        (("type_name", str type_name) ∷ ("values", strs values) ∷ [])
        (Sql.create_type type_name values)

  unfoldable pub add_type_values : String → List String → Method
  add_type_values type_name values = do
    safe type_name
    record_signature run Action.add_type_values
        (("type_name", str type_name) ∷ ("values", strs values) ∷ [])
        (Sql.add_values type_name values)

  unfoldable pub drop_type_values : String → List String → List (String × String) → Method
  drop_type_values type_name values target_columns = do
    safe type_name
    for_each target_columns (λ (t, c). safe t >> safe c)
    record_signature run Action.drop_type_values
        (("type_name", str type_name)
          ∷ ("values", strs values)
          ∷ ("target_columns", pairs target_columns)
          ∷ [])
        (Sql.drop_values type_name values target_columns)

  unfoldable pub drop_type : String → Method
  drop_type type_name = do
    safe type_name
    record_signature run Action.drop_type (("type_name", str type_name) ∷ [])
        (Sql.drop_type type_name)
