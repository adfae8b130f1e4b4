-- ===== src/Migrations/Actions.antt =====
-- mountaineer/migrations/actions.py: `DatabaseActions` and how it records or runs an action. The
-- methods are in Actions/Methods.
pub mod Types
pub mod Identifiers
pub mod Sql
pub mod Methods
pub mod Calls
pub mod Outcome
pub mod Replay
use mountaineer.Base.{
  ℕ, zero, suc, ◌+◌, ◌-◌, ◌*◌, ◌≤◌, ◌<◌, ltb, leb, ltb→lt, leb→le, lt→ltb, arith, ◌≡◌, ◌≢◌, ◌↔◌,
  ◌⊎◌, inl, inr, refl, sym, ap, subst, ◌∙◌, ◌≡⟨◌⟩◌, ◌∎, ite, dite, if_pos, if_neg, Bool, true,
  false, not, ◌&&◌, ◌||◌, false≢true, Option, none, some, List, [], ◌∷◌, ◌++◌, map, String, ◌<>◌,
  Eq, ◌==◌, ==-true, ==-false, contains, if◌then◌else◌, string_eq, nat_eq, option_eq, bool_eq,
  Bool-cases, Option-cases, length, drop, get_elem?, index_from, CutAt, index_from-CutAt, all, All,
  All-append, All-suffix, length-append,
}
use mountaineer.Base.Exec.{
  Error, Result, ok, err, value_error, type_error, key_error, attribute_error, assertion_error,
  not_implemented_error, cycle_error, invalid_request_error, database_error, result_error,
  out_of_fuel, Exec, pure, raise, lift, continue, ◌>>=◌, ◌>>◌, guard, when, for_each, ok-injective,
  Result-cases, >>=-eq-ok,
}
use mountaineer.Base.Dict.{
  Dict, keys, values, lookup, insert, erase, NodupKeys, lookup-insert, lookup-erase,
  insert-NodupKeys, erase-NodupKeys, lookup-insert_cases, lookup-insert_known, lookup-insert_self,
}
use mountaineer.Migrations.Actions.Types.{
  ColumnType, ConstraintType, ForeignKeyConstraint, CheckConstraint,
}

-- The methods that `_record_signature` is given.
pub data Action : Type 0 where
  add_table drop_table add_column drop_column rename_column modify_column_type : Action
  add_constraint drop_constraint add_not_null drop_not_null : Action
  add_type add_type_values drop_type_values drop_type : Action

-- A value of a keyword argument.
pub data Arg : Type 0 where
  null : Arg
  str : String → Arg
  bool : Bool → Arg
  column_type : ColumnType → Arg
  constraint_type : ConstraintType → Arg
  strs : List String → Arg
  pairs : List (String × String) → Arg
  foreign_key : ForeignKeyConstraint → Arg
  check : CheckConstraint → Arg

pub record DryRunAction : Type 0 where
  pub fn : Action
  pub kwargs : Dict String Arg

pub data DryRunItem : Type 0 where
  action : DryRunAction → DryRunItem
  comment : String → DryRunItem

-- The parameters of each method but `self`, and whether they have a default.
pub parameters : Action → List (String × Bool)
parameters add_table = ("table_name", false) ∷ []
parameters drop_table = ("table_name", false) ∷ []
parameters add_column =
    ("table_name", false)
    ∷ ("column_name", false)
    ∷ ("explicit_data_type", true)
    ∷ ("explicit_data_is_list", true)
    ∷ ("custom_data_type", true)
    ∷ []
parameters drop_column = ("table_name", false) ∷ ("column_name", false) ∷ []
parameters rename_column =
    ("table_name", false) ∷ ("old_column_name", false) ∷ ("new_column_name", false) ∷ []
parameters modify_column_type =
    ("table_name", false)
    ∷ ("column_name", false)
    ∷ ("explicit_data_type", true)
    ∷ ("explicit_data_is_list", true)
    ∷ ("custom_data_type", true)
    ∷ []
parameters add_constraint =
    ("table_name", false)
    ∷ ("columns", false)
    ∷ ("constraint", false)
    ∷ ("constraint_name", false)
    ∷ ("constraint_args", true)
    ∷ []
parameters drop_constraint = ("table_name", false) ∷ ("constraint_name", false) ∷ []
parameters add_not_null = ("table_name", false) ∷ ("column_name", false) ∷ []
parameters drop_not_null = ("table_name", false) ∷ ("column_name", false) ∷ []
parameters add_type = ("type_name", false) ∷ ("values", false) ∷ []
parameters add_type_values = ("type_name", false) ∷ ("values", false) ∷ []
parameters drop_type_values =
    ("type_name", false) ∷ ("values", false) ∷ ("target_columns", false) ∷ []
parameters drop_type = ("type_name", false) ∷ []

-- no `missing_args`, no `extraneous_args`
pub fits_signature : Action → Dict String Arg → Bool
unfolding parameters keys contains
fits_signature fn kwargs =
    all (λ p. p.1 || contains (keys kwargs) p.0) (parameters fn)
    && all (λ k. contains (keys (parameters fn)) k) (keys kwargs)

pub record DatabaseActions (S : Type 0) : Type 0 where
  pub dry_run : Bool
  pub dry_run_actions : List DryRunItem
  pub db_session : Option S
  pub prod_sqls : List String

-- `__init__`
unfoldable pub init : {S : Type 0} → Bool → Option S → Result (DatabaseActions S)
init true db_session =
    ok (record { dry_run = true; dry_run_actions = []; db_session = db_session; prod_sqls = [] })
init false none = err value_error
init false (some s) =
    ok (record { dry_run = false; dry_run_actions = []; db_session = some s; prod_sqls = [] })

-- `add_comment`
unfoldable pub add_comment : {S : Type 0} → String → Exec (DatabaseActions S) (Unit {0})
add_comment text a = (
  ok tt,
  if a.dry_run then record a { dry_run_actions = a.dry_run_actions ++ comment text ∷ [] } else a,
)

-- `run sql` is `db_session.execute(text(sql))`.
module _ {S : Type 0} (run : String → Exec S (Unit {0})) where
  abbrev execute_on : Option S → String → Exec (DatabaseActions S) (Unit {0})
  execute_on none sql = raise value_error
  execute_on (some s) sql = λ a.
      let (r, s') = run sql s in
      (r, record a { prod_sqls = a.prod_sqls ++ sql ∷ []; db_session = some s' })

  -- `_record_signature`
  unfoldable pub record_signature :
      Action → Dict String Arg → String → Exec (DatabaseActions S) (Unit {0})
  unfolding fits_signature
  record_signature fn kwargs sql a =
      if not (fits_signature fn kwargs)
      then (err value_error, a)
      else if a.dry_run
      then (
        ok tt,
        record a {
          dry_run_actions = a.dry_run_actions ++ action (record { fn = fn; kwargs = kwargs }) ∷ [];
        },
      )
      else execute_on a.db_session sql a
