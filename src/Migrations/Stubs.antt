-- ===== src/Migrations/Stubs.antt =====
-- mountaineer/migrations/db_stubs.py: the objects of a schema, their names, equality and merging.
-- A frozenset is a list, as Base/FrozenSets says.
pub mod Agreement
pub mod Changes
pub mod Merging
pub mod Unchanged
use mountaineer.Base.{
  ℕ, zero, suc, ◌+◌, ◌-◌, ◌*◌, ◌≤◌, ◌<◌, ltb, leb, ltb→lt, leb→le, lt→ltb, arith, ◌≡◌, ◌≢◌, ◌↔◌,
  ◌⊎◌, inl, inr, refl, sym, ap, subst, ◌∙◌, ◌≡⟨◌⟩◌, ◌∎, ite, dite, if_pos, if_neg, Bool, true,
  false, not, ◌&&◌, ◌||◌, false≢true, Option, none, some, List, [], ◌∷◌, ◌++◌, map, String, ◌<>◌,
  Eq, ◌==◌, ==-true, ==-false, contains, if◌then◌else◌, string_eq, nat_eq, option_eq, bool_eq,
  Bool-cases, Option-cases, length, drop, get_elem?, index_from, CutAt, index_from-CutAt, all, All,
  All-append, All-suffix, all-append, length-append,
}
use mountaineer.Base.Exec.{
  Error, Result, ok, err, value_error, type_error, key_error, attribute_error, assertion_error,
  not_implemented_error, cycle_error, invalid_request_error, database_error, result_error,
  out_of_fuel, Exec, pure, raise, lift, continue, ◌>>=◌, ◌>>◌, guard, when, for_each, ok-injective,
  Result-cases, >>=-eq-ok,
}
use mountaineer.Base.FrozenSets.{same_items, union}
use mountaineer.Base.Sorting.{sorted, string_le}
use mountaineer.Base.Strings.{join, repr_list}
use mountaineer.Migrations.Actions.Types.{
  ColumnType, column_type_eq, ConstraintType, constraint_type_eq, constraint_type_value,
  foreign_key, primary_key, unique, check, ForeignKeyConstraint, CheckConstraint,
}

-- `Union["DBTypePointer", ColumnType]`; a pointer is its `name`.
pub data DataType : Type 0 where
  pointer : String → DataType
  builtin : ColumnType → DataType

pub record DbTable : Type 0 where
  pub table_name : String

pub record DbColumn : Type 0 where
  pub table_name : String
  pub column_name : String
  pub column_type : DataType
  pub column_is_list : Bool
  pub nullable : Bool

pub record DbConstraint : Type 0 where
  pub table_name : String
  pub constraint_name : String
  pub columns : List String
  pub constraint_type : ConstraintType
  pub foreign_key_constraint : Option ForeignKeyConstraint
  pub check_constraint : Option CheckConstraint

pub record DbType : Type 0 where
  pub name : String
  pub values : List String
  pub reference_columns : List (String × String)

pub data DbObject : Type 0 where
  table : DbTable → DbObject
  column : DbColumn → DbObject
  constraint : DbConstraint → DbObject
  enum_type : DbType → DbObject

-- `DBColumnPointer` and `DBTypePointer`
pub data DbObjectPointer : Type 0 where
  column_pointer : String → String → DbObjectPointer
  type_pointer : String → DbObjectPointer

-- `validate_constraint_type`
abbrev is_given : {A : Type 0} → Option A → Bool
is_given none = false
is_given (some a) = true

unfoldable pub validate_constraint_type : DbConstraint → Result DbConstraint
unfolding constraint_type_eq
validate_constraint_type c =
    if c.constraint_type == foreign_key && not (is_given c.foreign_key_constraint)
    then err value_error
    else if not (c.constraint_type == foreign_key) && is_given c.foreign_key_constraint
    then err value_error
    else ok c

abbrev pub column_representation : String → String → String
column_representation table_name column_name = table_name <> ("." <> column_name)

unfoldable pub constraint_representation : DbConstraint → String
constraint_representation c =
    c.table_name
    <> ("."
        <> (repr_list (sorted string_le c.columns)
            <> ("." <> constraint_type_value c.constraint_type)))

unfoldable pub representation : DbObject → String
unfolding constraint_representation
representation (table t) = t.table_name
representation (column c) = column_representation c.table_name c.column_name
representation (constraint c) = constraint_representation c
representation (enum_type t) = t.name

unfoldable pub pointer_representation : DbObjectPointer → String
pointer_representation (column_pointer table_name column_name) =
    column_representation table_name column_name
pointer_representation (type_pointer name) = name

-- `DBConstraint.new_constraint_name`
abbrev name_elements : ConstraintType → List String → List String
name_elements primary_key columns = "pkey" ∷ []
name_elements foreign_key columns = sorted string_le columns ++ "fkey" ∷ []
name_elements unique columns = sorted string_le columns ++ "unique" ∷ []
name_elements check columns = sorted string_le columns ++ "key" ∷ []

unfoldable pub new_constraint_name : String → List String → ConstraintType → String
new_constraint_name table_name columns constraint_type =
    join "_" (table_name ∷ name_elements constraint_type columns)

-- `==` of models compares their classes and all of their fields.
abbrev pub same_data_type : DataType → DataType → Bool
same_data_type (pointer s) (pointer t) = s == t
same_data_type (builtin s) (builtin t) = s == t
same_data_type (pointer s) (builtin t) = false
same_data_type (builtin s) (pointer t) = false

abbrev pub same_foreign_key : Option ForeignKeyConstraint → Option ForeignKeyConstraint → Bool
same_foreign_key none none = true
same_foreign_key (some f) (some g) =
    f.target_table == g.target_table && same_items f.target_columns g.target_columns
same_foreign_key none (some g) = false
same_foreign_key (some f) none = false

abbrev pub same_check : Option CheckConstraint → Option CheckConstraint → Bool
same_check none none = true
same_check (some c) (some d) = c.check_condition == d.check_condition
same_check none (some d) = false
same_check (some c) none = false

instance unfoldable pub pair_eq : Eq (String × String)
pair_eq = record {
  dec = λ p q.
      dite (string_eq.dec p.0 q.0)
        (λ e.
          dite (string_eq.dec p.1 q.1) (λ f. yes (ap (λ x. (x, p.1)) e ∙ ap (λ y. (q.0, y)) f))
            (λ n. no (λ h. n (ap (λ r. r.1) h))))
        (λ n. no (λ h. n (ap (λ r. r.0) h)));
}

-- What `model_dump` has of a constraint: `constraint_name` is excluded.
unfoldable pub same_dump : DbConstraint → DbConstraint → Bool
same_dump c d =
    c.table_name == d.table_name
    && same_items c.columns d.columns
    && c.constraint_type == d.constraint_type
    && same_foreign_key c.foreign_key_constraint d.foreign_key_constraint
    && same_check c.check_constraint d.check_constraint

unfoldable pub same_object : DbObject → DbObject → Bool
same_object (table t) (table u) = t.table_name == u.table_name
same_object (column c) (column d) =
    c.table_name == d.table_name
    && c.column_name == d.column_name
    && same_data_type c.column_type d.column_type
    && c.column_is_list == d.column_is_list
    && c.nullable == d.nullable
same_object (constraint c) (constraint d) = c.constraint_name == d.constraint_name && same_dump c d
same_object (enum_type t) (enum_type u) =
    t.name == u.name
    && same_items t.values u.values
    && same_items t.reference_columns u.reference_columns
same_object o p = false

-- `DBType.merge`
unfoldable pub merge_types : DbType → DbType → Result DbObject
merge_types t u =
    if not (t.name == u.name) || not (same_items t.values u.values)
    then err value_error
    else ok (
        enum_type (record {
          name = t.name;
          values = t.values;
          reference_columns = union t.reference_columns u.reference_columns;
        }))

-- `merge`: only `DBType` has its own, and that reads fields that the other classes lack.
unfoldable pub merge : DbObject → DbObject → Result DbObject
unfolding merge_types
merge (enum_type t) (enum_type u) = merge_types t u
merge (enum_type t) other = err attribute_error
merge self other = if not (same_object self other) then err value_error else ok self
