-- ===== src/Migrations/Actions/Outcome.antt =====
-- The methods of `DatabaseActions` against their description in Actions/Calls.
use mountaineer.Base.{
  arith, ◌≡◌, refl, Bool, true, false, Option, none, some, List, [], ◌∷◌, ◌++◌, String,
  if◌then◌else◌, string_eq, nat_eq, option_eq, bool_eq, all, all-append,
}
use mountaineer.Base.Exec.{ok, err, value_error, Exec, ◌>>=◌, ◌>>◌, for_each}
use mountaineer.Migrations.Actions.{action, DatabaseActions, fits_signature, record_signature}
use mountaineer.Migrations.Actions.Identifiers.{
  is_safe_sql_identifier, assert_is_safe_sql_identifier,
}
use mountaineer.Migrations.Actions.Methods
use mountaineer.Migrations.Actions.Types.{ColumnType, ConstraintType, foreign_key}
use mountaineer.Migrations.Actions.Methods.{
  ConstraintArgs, no_args, foreign_key_args, check_args, check_data_types, get_column_type,
}
use mountaineer.Migrations.Actions.Calls.{flatten_pairs, Call, perform, valid, fn, kwargs, sql}

-- The arguments that a method records always fit its signature.
fits_signature-kwargs : (call : Call) → fits_signature (fn call) (kwargs call) ≡ true
unfolding fits_signature string_eq
fits_signature-kwargs (Call.add_table t) = refl
fits_signature-kwargs _ = refl

for_each-safe :
    {S : Type 0} (names : List String) (s : S)
    → for_each names assert_is_safe_sql_identifier s
      ≡ (if all is_safe_sql_identifier names then ok tt else err value_error, s)
unfolding for_each assert_is_safe_sql_identifier
for_each-safe [] s = refl
for_each-safe (name ∷ names) s = ground (arith, for_each-safe names s)

for_each-safe_pairs :
    {S : Type 0} (targets : List (String × String)) (s : S)
    → for_each targets
        (λ (t, c). assert_is_safe_sql_identifier t >> assert_is_safe_sql_identifier c)
        s
      ≡ (if all is_safe_sql_identifier (flatten_pairs targets) then ok tt else err value_error, s)
unfolding for_each assert_is_safe_sql_identifier ◌>>=◌
for_each-safe_pairs [] s = refl
for_each-safe_pairs ((t, c) ∷ targets) s = ground (arith, for_each-safe_pairs targets s)

module _ {S : Type 0} (run : String → Exec S (Unit {0})) where
  abbrev pub outcome : Call → Exec (DatabaseActions S) (Unit {0})
  outcome call a =
      if valid call
      then record_signature run (fn call) (kwargs call) (sql call) a
      else (err value_error, a)

  add_constraint-outcome :
      (t : String) (columns : List String) (type : ConstraintType) (name : String)
      (args : ConstraintArgs) (a : DatabaseActions S)
      → Methods.add_constraint run t columns type name args a
        ≡ outcome (Call.add_constraint t columns type name args) a
  unfolding ◌>>=◌ Methods.add_constraint assert_is_safe_sql_identifier
  add_constraint-outcome t columns foreign_key name (foreign_key_args f) a = ground (
    arith,
    for_each-safe columns a,
    for_each-safe f.target_columns a,
    all-append is_safe_sql_identifier columns (f.target_table ∷ f.target_columns),
  )
  add_constraint-outcome t columns type name args a =
      ground (arith, for_each-safe columns a, all-append is_safe_sql_identifier columns [])

  add_column-outcome :
      (t c : String) (explicit : Option ColumnType) (is_list : Bool) (custom : Option String)
      (a : DatabaseActions S)
      → Methods.add_column run t c explicit is_list custom a
        ≡ outcome (Call.add_column t c explicit is_list custom) a
  unfolding ◌>>=◌ Methods.add_column assert_is_safe_sql_identifier check_data_types get_column_type
  add_column-outcome t c none is_list none a = ground arith
  add_column-outcome t c (some e) is_list none a = ground arith
  add_column-outcome t c explicit is_list (some custom) a = ground arith

  modify_column_type-outcome :
      (t c : String) (explicit : Option ColumnType) (is_list : Bool) (custom : Option String)
      (a : DatabaseActions S)
      → Methods.modify_column_type run t c explicit is_list custom a
        ≡ outcome (Call.modify_column_type t c explicit is_list custom) a
  unfolding ◌>>=◌ Methods.modify_column_type assert_is_safe_sql_identifier check_data_types
      get_column_type
  modify_column_type-outcome t c none is_list none a = ground arith
  modify_column_type-outcome t c (some e) is_list none a = ground arith
  modify_column_type-outcome t c explicit is_list (some custom) a = ground arith

  -- A call of any method with an unsafe identifier among those that the method checks, or with
  -- arguments that do not fit together, is refused with nothing changed; any other is handed to
  -- `record_signature` once, with its method, its arguments and its SQL. The constraint name of
  -- `add_constraint` is an identifier that is not checked.
  pub perform-outcome : (call : Call) (a : DatabaseActions S) → perform run call a ≡ outcome call a
  unfolding ◌>>=◌ assert_is_safe_sql_identifier Methods.add_table Methods.drop_table
      Methods.drop_column Methods.rename_column Methods.drop_constraint Methods.add_not_null
      Methods.drop_not_null Methods.add_type Methods.add_type_values Methods.drop_type_values
      Methods.drop_type
  perform-outcome (Call.add_constraint t columns type name args) a =
      add_constraint-outcome t columns type name args a
  perform-outcome (Call.add_column t c explicit is_list custom) a =
      add_column-outcome t c explicit is_list custom a
  perform-outcome (Call.modify_column_type t c explicit is_list custom) a =
      modify_column_type-outcome t c explicit is_list custom a
  perform-outcome (Call.drop_type_values name vals targets) a =
      ground (arith, for_each-safe_pairs targets a)
  perform-outcome _ a = ground arith

  -- In a dry run a valid call is recorded, with its arguments, behind the others, and no SQL runs.
  pub perform-dry_run :
      (call : Call) (a : DatabaseActions S)
      → a.dry_run ≡ true
      → perform run call a ≡ (
          if valid call
          then (
            ok tt,
            record a {
              dry_run_actions =
                  a.dry_run_actions ++ action (record { fn = fn call; kwargs = kwargs call }) ∷ [];
            },
          )
          else (err value_error, a))
  unfolding record_signature
  perform-dry_run call a dry = ground (arith, perform-outcome call a, fits_signature-kwargs call)

  -- With a session, a valid call runs its SQL once, and is kept among the statements even if the
  -- database refuses it; an invalid call does not reach the database.
  pub perform-session :
      (call : Call) (a : DatabaseActions S) (s : S)
      → a.dry_run ≡ false
      → a.db_session ≡ some s
      → perform run call a ≡ (
          if valid call
          then (
            (run (sql call) s).0,
            record a {
              prod_sqls = a.prod_sqls ++ sql call ∷ [];
              db_session = some (run (sql call) s).1;
            },
          )
          else (err value_error, a))
  unfolding record_signature
  perform-session call a s live open_session =
      ground (arith, perform-outcome call a, fits_signature-kwargs call)
