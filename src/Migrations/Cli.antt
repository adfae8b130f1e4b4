-- ===== src/Migrations/Cli.antt =====
-- mountaineer/migrations/cli.py: `handle_apply` and `handle_rollback`. The configuration, the
-- package's location and the imported migrations are arguments; console output is left out.
pub mod Apply
pub mod Rollback
use mountaineer.Base.{
  index_from, ℕ, zero, suc, ◌+◌, ◌-◌, ◌*◌, ◌≤◌, ◌<◌, ltb, leb, ltb→lt, leb→le, lt→ltb, arith, ◌≡◌,
  ◌≢◌, ◌↔◌, ◌⊎◌, inl, inr, refl, sym, ap, subst, ◌∙◌, ◌≡⟨◌⟩◌, ◌∎, ite, dite, if_pos, if_neg, Bool,
  true, false, not, ◌&&◌, ◌||◌, false≢true, Option, none, some, List, [], ◌∷◌, ◌++◌, map, String,
  ◌<>◌, Eq, ◌==◌, contains, if◌then◌else◌, string_eq, nat_eq, option_eq, bool_eq, Bool-cases,
  Option-cases, length, drop, get_elem?, all, All, All-append, length-append,
}
use mountaineer.Base.Exec.{
  Error, Result, ok, err, value_error, type_error, key_error, attribute_error, assertion_error,
  not_implemented_error, cycle_error, invalid_request_error, database_error, result_error,
  out_of_fuel, Exec, pure, raise, lift, continue, ◌>>=◌, ◌>>◌, guard, when, for_each, Result-cases,
}
use mountaineer.Migrations.Database.{Database}
use mountaineer.Migrations.Migrator.{
  MigrationSession, init_db, get_active_revision, with_db_session,
}
use mountaineer.Migrations.Revision.{Migration, handle_up, handle_down}
use mountaineer.Migrations.ClientIo.{sort_migrations}

-- `not config.PACKAGE`
abbrev pub is_unset : Option String → Bool
is_unset none = true
is_unset (some p) = p == ""

pub record Setup : Type 0 where
  pub package_name : Option String
  -- whether `resolve_package_path(config.PACKAGE) / "migrations"` exists, or what was raised
  pub path_exists : Result Bool

-- A value that was looked for, or `raise ValueError`.
abbrev pub or_missing : {A : Type 0} → Option A → Result A
or_missing none = err value_error
or_missing (some a) = ok a

module _ (db : Database) where
  abbrev pub C : Type 0 → Type 0
  C A = Exec db.Conn A

  unfoldable pub check_setup : Setup → C (Unit {0})
  unfolding ◌>>=◌
  check_setup setup = do
    guard (not (is_unset setup.package_name)) value_error
    found ← lift setup.path_exists
    guard found value_error

  -- `migrator.init_db()`, then `migrator.get_active_revision()`, in the command's own session.
  -- The session stays open to the end of the command, and does nothing more.
  unfoldable pub read_current_revision : C (Option String)
  read_current_revision = with_db_session db (do init_db db; get_active_revision db)

  -- the first migration that goes up from the current revision, and the one that led to it
  unfoldable pub next_migration_index : Option String → List (Migration db) → Option ℕ
  unfolding index_from
  next_migration_index current = index_from (λ m. m.down_revision == current) 0

  unfoldable pub this_migration_index : Option String → List (Migration db) → Option ℕ
  unfolding index_from
  this_migration_index current = index_from (λ m. some m.up_revision == current) 0

  -- `for migration in migration_chain`
  unfoldable pub apply_chain : List (Migration db) → C (Unit {0})
  apply_chain chain = for_each chain (handle_up db)

  -- What the two commands begin with: the sorted migrations and the active revision.
  unfoldable pub start_command :
      ℕ
      → Setup
      → List (Migration db)
      → (List (Migration db) → Option String → C (Unit {0}))
      → C (Unit {0})
  start_command fuel setup migrations go_on = do
    check_setup setup
    revisions ← lift (sort_migrations db fuel migrations)
    current ← read_current_revision
    go_on revisions current

  abbrev pub apply_from : List (Migration db) → Option String → C (Unit {0})
  apply_from revisions current = do
    index ← lift (or_missing (next_migration_index current revisions))
    apply_chain (drop index revisions)

  unfoldable pub handle_apply : ℕ → Setup → List (Migration db) → C (Unit {0})
  handle_apply fuel setup migrations = start_command fuel setup migrations apply_from

  abbrev pub roll_back_from : List (Migration db) → Option String → C (Unit {0})
  roll_back_from revisions current = do
    index ← lift (or_missing (this_migration_index current revisions))
    this_migration ← lift (or_missing (get_elem? revisions index))
    handle_down db this_migration

  unfoldable pub handle_rollback : ℕ → Setup → List (Migration db) → C (Unit {0})
  handle_rollback fuel setup migrations = start_command fuel setup migrations roll_back_from
