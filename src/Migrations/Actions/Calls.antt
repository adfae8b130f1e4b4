-- ===== src/Migrations/Actions/Calls.antt =====
-- A call of a method of `DatabaseActions` as a value, with what it is expected to record and run.
use mountaineer.Base.{
  Bool, true, false, ◌&&◌, Option, none, some, List, [], ◌∷◌, ◌++◌, String, ◌<>◌, if◌then◌else◌,
  string_eq, nat_eq, option_eq, bool_eq, all,
}
use mountaineer.Base.Exec.{Exec}
use mountaineer.Base.Dict.{Dict, values}
use mountaineer.Migrations.Actions.{Action, Arg, str, strs, pairs, constraint_type, DatabaseActions}
use mountaineer.Migrations.Actions.Identifiers.{is_safe_sql_identifier}
use mountaineer.Migrations.Actions.Sql
use mountaineer.Migrations.Actions.Methods
use mountaineer.Migrations.Actions.Methods.{
  ConstraintArgs, no_args, foreign_key_args, check_args, text_or_null, column_type_or_null, given,
  constraint_args_arg, column_kwargs,
}
use mountaineer.Migrations.Actions.Types.{
  ColumnType, column_type_value, ConstraintType, primary_key, unique, foreign_key, check,
}

pub data Call : Type 0 where
  add_table drop_table : String → Call
  add_column modify_column_type : String → String → Option ColumnType → Bool → Option String → Call
  drop_column : String → String → Call
  rename_column : String → String → String → Call
  add_constraint : String → List String → ConstraintType → String → ConstraintArgs → Call
  drop_constraint : String → String → Call
  add_not_null drop_not_null : String → String → Call
  add_type add_type_values : String → List String → Call
  drop_type_values : String → List String → List (String × String) → Call
  drop_type : String → Call

module _ {S : Type 0} (run : String → Exec S (Unit {0})) where
  abbrev pub perform : Call → Exec (DatabaseActions S) (Unit {0})
  perform (add_table t) = Methods.add_table run t
  perform (drop_table t) = Methods.drop_table run t
  perform (add_column t c explicit is_list custom) =
      Methods.add_column run t c explicit is_list custom
  perform (modify_column_type t c explicit is_list custom) =
      Methods.modify_column_type run t c explicit is_list custom
  perform (drop_column t c) = Methods.drop_column run t c
  perform (rename_column t old new) = Methods.rename_column run t old new
  perform (add_constraint t columns type name args) =
      Methods.add_constraint run t columns type name args
  perform (drop_constraint t name) = Methods.drop_constraint run t name
  perform (add_not_null t c) = Methods.add_not_null run t c
  perform (drop_not_null t c) = Methods.drop_not_null run t c
  perform (add_type name values) = Methods.add_type run name values
  perform (add_type_values name values) = Methods.add_type_values run name values
  perform (drop_type_values name values targets) = Methods.drop_type_values run name values targets
  perform (drop_type name) = Methods.drop_type run name

-- The names that a call writes into its SQL as identifiers and that are checked: all of them but
-- the name of a constraint that is added.
abbrev pub custom_identifier : Option String → List String
custom_identifier none = []
custom_identifier (some c) = c ∷ []

abbrev pub reference_identifiers : ConstraintType → ConstraintArgs → List String
reference_identifiers foreign_key (foreign_key_args f) = f.target_table ∷ f.target_columns
reference_identifiers type args = []

abbrev pub flatten_pairs : List (String × String) → List String
flatten_pairs [] = []
flatten_pairs ((t, c) ∷ targets) = t ∷ c ∷ flatten_pairs targets

abbrev pub identifiers : Call → List String
identifiers (add_table t) = t ∷ []
identifiers (drop_table t) = t ∷ []
identifiers (add_column t c explicit is_list custom) = t ∷ c ∷ custom_identifier (given custom)
identifiers (modify_column_type t c explicit is_list custom) =
    t ∷ c ∷ custom_identifier (given custom)
identifiers (drop_column t c) = t ∷ c ∷ []
identifiers (rename_column t old new) = t ∷ old ∷ new ∷ []
identifiers (add_constraint t columns type name args) =
    t ∷ columns ++ reference_identifiers type args
identifiers (drop_constraint t name) = t ∷ name ∷ []
identifiers (add_not_null t c) = t ∷ c ∷ []
identifiers (drop_not_null t c) = t ∷ c ∷ []
identifiers (add_type name values) = name ∷ []
identifiers (add_type_values name values) = name ∷ []
identifiers (drop_type_values name values targets) = name ∷ flatten_pairs targets
identifiers (drop_type name) = name ∷ []

-- One of a built-in type and a custom type, not both; the arguments that the constraint needs.
abbrev pub one_type : Option ColumnType → Option String → Bool
one_type none none = false
one_type none (some c) = true
one_type (some t) none = true
one_type (some t) (some c) = false

abbrev pub fitting_args : ConstraintType → ConstraintArgs → Bool
fitting_args foreign_key (foreign_key_args f) = true
fitting_args foreign_key args = false
fitting_args check (check_args c) = true
fitting_args check args = false
fitting_args type args = true

abbrev pub fitting : Call → Bool
fitting (add_column t c explicit is_list custom) = one_type explicit (given custom)
fitting (modify_column_type t c explicit is_list custom) = one_type explicit (given custom)
fitting (add_constraint t columns type name args) = fitting_args type args
fitting call = true

abbrev pub valid : Call → Bool
valid call = all is_safe_sql_identifier (identifiers call) && fitting call

abbrev pub fn : Call → Action
fn (add_table t) = Action.add_table
fn (drop_table t) = Action.drop_table
fn (add_column t c explicit is_list custom) = Action.add_column
fn (modify_column_type t c explicit is_list custom) = Action.modify_column_type
fn (drop_column t c) = Action.drop_column
fn (rename_column t old new) = Action.rename_column
fn (add_constraint t columns type name args) = Action.add_constraint
fn (drop_constraint t name) = Action.drop_constraint
fn (add_not_null t c) = Action.add_not_null
fn (drop_not_null t c) = Action.drop_not_null
fn (add_type name values) = Action.add_type
fn (add_type_values name values) = Action.add_type_values
fn (drop_type_values name values targets) = Action.drop_type_values
fn (drop_type name) = Action.drop_type

abbrev pub kwargs : Call → Dict String Arg
kwargs (add_table t) = ("table_name", str t) ∷ []
kwargs (drop_table t) = ("table_name", str t) ∷ []
kwargs (add_column t c explicit is_list custom) = column_kwargs t c explicit is_list custom
kwargs (modify_column_type t c explicit is_list custom) = column_kwargs t c explicit is_list custom
kwargs (drop_column t c) = ("table_name", str t) ∷ ("column_name", str c) ∷ []
kwargs (rename_column t old new) =
    ("table_name", str t) ∷ ("old_column_name", str old) ∷ ("new_column_name", str new) ∷ []
kwargs (add_constraint t columns type name args) =
    ("table_name", str t)
    ∷ ("columns", strs columns)
    ∷ ("constraint", constraint_type type)
    ∷ ("constraint_name", str name)
    ∷ ("constraint_args", constraint_args_arg args)
    ∷ []
kwargs (drop_constraint t name) = ("table_name", str t) ∷ ("constraint_name", str name) ∷ []
kwargs (add_not_null t c) = ("table_name", str t) ∷ ("column_name", str c) ∷ []
kwargs (drop_not_null t c) = ("table_name", str t) ∷ ("column_name", str c) ∷ []
kwargs (add_type name values) = ("type_name", str name) ∷ ("values", strs values) ∷ []
kwargs (add_type_values name values) = ("type_name", str name) ∷ ("values", strs values) ∷ []
kwargs (drop_type_values name values targets) =
    ("type_name", str name) ∷ ("values", strs values) ∷ ("target_columns", pairs targets) ∷ []
kwargs (drop_type name) = ("type_name", str name) ∷ []

-- The column's type in SQL, where one is given; a list of a custom type has no brackets.
abbrev pub data_type : Option ColumnType → Bool → Option String → String
data_type (some t) is_list custom = column_type_value t <> (if is_list then "[]" else "")
data_type none is_list (some c) = c
data_type none is_list none = ""

abbrev pub definition : ConstraintType → List String → ConstraintArgs → List String
definition primary_key columns args = Sql.primary_key_definition columns
definition unique columns args = Sql.unique_definition columns
definition foreign_key columns (foreign_key_args f) = Sql.foreign_key_definition columns f
definition check columns (check_args c) = Sql.check_definition c
definition type columns args = []

abbrev pub sql : Call → String
sql (add_table t) = Sql.create_table t
sql (drop_table t) = Sql.drop_table t
sql (add_column t c explicit is_list custom) =
    Sql.add_column t c (data_type explicit is_list custom)
sql (modify_column_type t c explicit is_list custom) =
    Sql.modify_column t c (data_type explicit is_list custom)
sql (drop_column t c) = Sql.drop_column t c
sql (rename_column t old new) = Sql.rename_column t old new
sql (add_constraint t columns type name args) =
    Sql.add_constraint t name (definition type columns args)
sql (drop_constraint t name) = Sql.drop_constraint t name
sql (add_not_null t c) = Sql.set_not_null t c
sql (drop_not_null t c) = Sql.drop_not_null t c
sql (add_type name values) = Sql.create_type name values
sql (add_type_values name values) = Sql.add_values name values
sql (drop_type_values name values targets) = Sql.drop_values name values targets
sql (drop_type name) = Sql.drop_type name
