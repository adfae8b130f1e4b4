-- ===== src/Tests/Calls.antt =====
-- Calls of `DatabaseActions`, on a database that keeps the statements it is sent.
use mountaineer.Base.{
  arith, ◌≡◌, refl, true, false, none, some, List, [], ◌∷◌, ◌++◌, String, ◌<>◌, if◌then◌else◌,
  string_eq, nat_eq, option_eq, bool_eq, all,
}
use mountaineer.Base.Exec.{ok, err, value_error, Exec}
use mountaineer.Migrations.Actions.{DatabaseActions, DryRunAction, action}
use mountaineer.Migrations.Actions.Identifiers.{is_safe_sql_identifier}
use mountaineer.Base.{
  arith, ◌≡◌, refl, true, false, none, some, List, [], ◌∷◌, ◌++◌, String, ◌<>◌, if◌then◌else◌,
  string_eq, nat_eq, option_eq, bool_eq, all,
}
use mountaineer.Migrations.Actions.Identifiers.{format_sql_value}
use mountaineer.Migrations.Actions.Identifiers.Literals.{
  read_literal, read_literal-format_sql_value,
}
use mountaineer.Migrations.Actions.Calls.{Call, perform, valid, fn, kwargs, sql}
use mountaineer.Migrations.Actions.Outcome.{
  outcome, perform-outcome, perform-dry_run, perform-session,
}
use mountaineer.Migrations.Actions.Replay.{replay, replay-dry_run}

abbrev pub run : String → Exec (List String) (Unit {0})
run sql s = (ok tt, s ++ sql ∷ [])

abbrev pub dry : DatabaseActions (List String)
dry = record { dry_run = true; dry_run_actions = []; db_session = none; prod_sqls = [] }

abbrev live : DatabaseActions (List String)
live = record { dry_run = false; dry_run_actions = []; db_session = some []; prod_sqls = [] }

abbrev call : Call
call = Call.drop_column "users" "name"

safe : all is_safe_sql_identifier ("users" ∷ "name" ∷ []) ≡ true
unfolding is_safe_sql_identifier
safe = refl

recorded : (perform run call dry).0 ≡ ok tt
recorded = rw (perform-dry_run run call dry refl, safe) refl

perform-outcome_example : perform run call dry ≡ outcome run call dry
perform-outcome_example = perform-outcome run call dry

perform-dry_run_example : perform run call dry ≡ (
    if valid call
    then (
      ok tt,
      record dry {
        dry_run_actions =
            dry.dry_run_actions ++ action (record { fn = fn call; kwargs = kwargs call }) ∷ [];
      },
    )
    else (err value_error, dry))
perform-dry_run_example = perform-dry_run run call dry refl

perform-session_example : perform run call live ≡ (
    if valid call
    then (
      (run (sql call) []).0,
      record live {
        prod_sqls = live.prod_sqls ++ sql call ∷ [];
        db_session = some (run (sql call) []).1;
      },
    )
    else (err value_error, live))
perform-session_example = perform-session run call live [] refl refl

replay-dry_run_example :
    (item : DryRunAction) × ((perform run call dry).1.dry_run_actions
      ≡ dry.dry_run_actions ++ action item ∷ [])
    × (replay run item live ≡ perform run call live)
replay-dry_run_example = replay-dry_run run call dry live refl recorded

-- A value with a quote in it, before another value.
read_literal-format_sql_value_example :
    read_literal (format_sql_value "o'x" <> ", 'y'") ≡ some ("o'x", ", 'y'")
read_literal-format_sql_value_example =
    read_literal-format_sql_value "o'x" ", 'y'" λ e. absurd (omega (arith, e))
