-- ===== src/Migrations/Actions/Replay.antt =====
-- The call that a recorded action stands for: `await migrator.actor.<fn>(**kwargs)`, which is what
-- a generated migration contains.
use mountaineer.Base.{
  arith, ◌≡◌, refl, Bool, true, false, Option, none, some, List, [], ◌∷◌, ◌++◌, String, string_eq,
  nat_eq, option_eq, bool_eq,
}
use mountaineer.Base.Exec.{ok, err, type_error, Exec}
use mountaineer.Base.Dict.{Dict, values, lookup}
use mountaineer.Migrations.Actions.{
  Action, Arg, DatabaseActions, DryRunAction, action, null, str, bool, column_type, constraint_type,
  strs, pairs,
}
use mountaineer.Migrations.Actions.Methods.{ConstraintArgs, no_args, foreign_key_args, check_args}
use mountaineer.Migrations.Actions.Types.{ColumnType, ConstraintType}
use mountaineer.Migrations.Actions.Calls.{Call, perform, fn, kwargs}
use mountaineer.Migrations.Actions.Outcome.{perform-dry_run}

infixl 10 ◌>>=◌
abbrev ◌>>=◌ : {A B : Type 0} → Option A → (A → Option B) → Option B
none >>= f = none
some a >>= f = f a

abbrev to_str : Arg → Option String
to_str (str s) = some s
to_str arg = none

abbrev to_strs : Arg → Option (List String)
to_strs (strs l) = some l
to_strs arg = none

abbrev to_pairs : Arg → Option (List (String × String))
to_pairs (pairs l) = some l
to_pairs arg = none

abbrev to_bool : Arg → Option Bool
to_bool (bool b) = some b
to_bool arg = none

abbrev to_constraint_type : Arg → Option ConstraintType
to_constraint_type (constraint_type t) = some t
to_constraint_type arg = none

abbrev to_optional_str : Arg → Option (Option String)
to_optional_str null = some none
to_optional_str (str s) = some (some s)
to_optional_str arg = none

abbrev to_optional_column_type : Arg → Option (Option ColumnType)
to_optional_column_type null = some none
to_optional_column_type (column_type t) = some (some t)
to_optional_column_type arg = none

abbrev to_constraint_args : Arg → Option ConstraintArgs
to_constraint_args null = some no_args
to_constraint_args (Arg.foreign_key f) = some (foreign_key_args f)
to_constraint_args (Arg.check c) = some (check_args c)
to_constraint_args arg = none

-- The argument of a parameter with no default, and of one with a default.
abbrev required : {A : Type 0} → (Arg → Option A) → String → Dict String Arg → Option A
required read name kw = do arg ← lookup name kw; read arg

abbrev or_default : {A : Type 0} → (Arg → Option A) → A → Option Arg → Option A
or_default read default none = some default
or_default read default (some arg) = read arg

abbrev optional : {A : Type 0} → (Arg → Option A) → A → String → Dict String Arg → Option A
optional read default name kw = or_default read default (lookup name kw)

abbrev column_call :
    (String → String → Option ColumnType → Bool → Option String → Call)
    → Dict String Arg
    → Option Call
column_call call kw = do
  t ← required to_str "table_name" kw
  c ← required to_str "column_name" kw
  explicit ← optional to_optional_column_type none "explicit_data_type" kw
  is_list ← optional to_bool false "explicit_data_is_list" kw
  custom ← optional to_optional_str none "custom_data_type" kw
  some (call t c explicit is_list custom)

abbrev table_column_call : (String → String → Call) → Dict String Arg → Option Call
table_column_call call kw = do
  t ← required to_str "table_name" kw
  c ← required to_str "column_name" kw
  some (call t c)

abbrev type_values_call : (String → List String → Call) → Dict String Arg → Option Call
type_values_call call kw = do
  name ← required to_str "type_name" kw
  values ← required to_strs "values" kw
  some (call name values)

pub call_of : Action → Dict String Arg → Option Call
call_of Action.add_table kw = do t ← required to_str "table_name" kw; some (Call.add_table t)
call_of Action.drop_table kw = do t ← required to_str "table_name" kw; some (Call.drop_table t)
call_of Action.add_column kw = column_call Call.add_column kw
call_of Action.modify_column_type kw = column_call Call.modify_column_type kw
call_of Action.drop_column kw = table_column_call Call.drop_column kw
call_of Action.rename_column kw = do
  t ← required to_str "table_name" kw
  old ← required to_str "old_column_name" kw
  new ← required to_str "new_column_name" kw
  some (Call.rename_column t old new)
call_of Action.add_constraint kw = do
  t ← required to_str "table_name" kw
  columns ← required to_strs "columns" kw
  type ← required to_constraint_type "constraint" kw
  name ← required to_str "constraint_name" kw
  args ← optional to_constraint_args no_args "constraint_args" kw
  some (Call.add_constraint t columns type name args)
call_of Action.drop_constraint kw = do
  t ← required to_str "table_name" kw
  name ← required to_str "constraint_name" kw
  some (Call.drop_constraint t name)
call_of Action.add_not_null kw = table_column_call Call.add_not_null kw
call_of Action.drop_not_null kw = table_column_call Call.drop_not_null kw
call_of Action.add_type kw = type_values_call Call.add_type kw
call_of Action.add_type_values kw = type_values_call Call.add_type_values kw
call_of Action.drop_type_values kw = do
  name ← required to_str "type_name" kw
  values ← required to_strs "values" kw
  targets ← required to_pairs "target_columns" kw
  some (Call.drop_type_values name values targets)
call_of Action.drop_type kw = do name ← required to_str "type_name" kw; some (Call.drop_type name)

-- The recorded arguments are those of the call.
pub call_of-kwargs : (call : Call) → call_of (fn call) (kwargs call) ≡ some call
unfolding call_of lookup string_eq
call_of-kwargs (Call.add_column t c none is_list none) = refl
call_of-kwargs (Call.add_column t c (some e) is_list none) = refl
call_of-kwargs (Call.add_column t c none is_list (some u)) = refl
call_of-kwargs (Call.add_column t c (some e) is_list (some u)) = refl
call_of-kwargs (Call.modify_column_type t c none is_list none) = refl
call_of-kwargs (Call.modify_column_type t c (some e) is_list none) = refl
call_of-kwargs (Call.modify_column_type t c none is_list (some u)) = refl
call_of-kwargs (Call.modify_column_type t c (some e) is_list (some u)) = refl
call_of-kwargs (Call.add_constraint t columns type name no_args) = refl
call_of-kwargs (Call.add_constraint t columns type name (foreign_key_args f)) = refl
call_of-kwargs (Call.add_constraint t columns type name (check_args c)) = refl
call_of-kwargs _ = refl

module _ {S : Type 0} (run : String → Exec S (Unit {0})) where
  abbrev replay_call : Option Call → Exec (DatabaseActions S) (Unit {0})
  replay_call none a = (err type_error, a)
  replay_call (some call) a = perform run call a

  -- Calls the recorded method with the recorded arguments.
  pub replay : DryRunAction → Exec (DatabaseActions S) (Unit {0})
  replay item = replay_call (call_of item.fn item.kwargs)

  -- What a successful dry run of a call has recorded does, on any actor, what the call does.
  pub replay-dry_run :
      (call : Call) (a b : DatabaseActions S)
      → a.dry_run ≡ true
      → (perform run call a).0 ≡ ok tt
      → (item : DryRunAction) × ((perform run call a).1.dry_run_actions
          ≡ a.dry_run_actions ++ action item ∷ [])
        × (replay item b ≡ perform run call b)
  unfolding replay
  replay-dry_run call a b dry done = (
    record { fn = fn call; kwargs = kwargs call },
    ground (arith, perform-dry_run run call a dry),
    rw call_of-kwargs refl,
  )
