-- ===== src/Migrations/Revision.antt =====
-- mountaineer/migrations/migration.py: `MigrationRevisionBase`. A subclass is a value: its two
-- revisions, its two bodies, and whether the signature of each asks for `migrator`.
pub mod Atomicity
pub mod Effects
use mountaineer.Base.{
  ℕ, zero, suc, ◌+◌, ◌-◌, ◌*◌, ◌≤◌, ◌<◌, ltb, leb, ltb→lt, leb→le, lt→ltb, arith, ◌≡◌, ◌≢◌, ◌↔◌,
  ◌⊎◌, inl, inr, refl, sym, ap, subst, ◌∙◌, ◌≡⟨◌⟩◌, ◌∎, ite, dite, if_pos, if_neg, Bool, true,
  false, not, ◌&&◌, ◌||◌, false≢true, Option, none, some, List, [], ◌∷◌, ◌++◌, map, String, ◌<>◌,
  Eq, ◌==◌, contains, if◌then◌else◌, string_eq, nat_eq, option_eq, bool_eq, Bool-cases,
  Option-cases, length, drop, get_elem?, all, All, All-append, length-append,
}
use mountaineer.Base.Exec.{
  Error, Result, ok, err, value_error, type_error, key_error, attribute_error, assertion_error,
  not_implemented_error, cycle_error, invalid_request_error, database_error, result_error,
  out_of_fuel, Exec, pure, raise, lift, continue, ◌>>=◌, ◌>>◌, guard, when, for_each, Result-cases,
}
use mountaineer.Migrations.Database.{Database}
use mountaineer.Migrations.Migrator.{MigrationSession, set_active_revision, new_migrator}

module _ (db : Database) where
  pub record Migration : Type 0 where
    pub up_revision : String
    pub down_revision : Option String
    pub up : Exec (MigrationSession db) (Unit {0})
    pub down : Exec (MigrationSession db) (Unit {0})
    pub up_takes_migrator : Bool
    pub down_takes_migrator : Bool

  -- The body of `async with get_function_dependencies(...)`, in the migrator's transaction.
  abbrev pub apply_then_set :
      Exec (MigrationSession db) (Unit {0}) → Option String → Exec (MigrationSession db) (Unit {0})
  apply_then_set body value = body >> set_active_revision db value

  -- Without a `migrator` parameter no session is opened, and the check raises.
  abbrev with_migrator : Bool → Exec (MigrationSession db) (Unit {0}) → Exec db.Conn (Unit {0})
  with_migrator true body = new_migrator db body
  with_migrator false body = raise value_error

  unfoldable pub handle_up : Migration → Exec db.Conn (Unit {0})
  unfolding new_migrator set_active_revision ◌>>=◌
  handle_up m = with_migrator m.up_takes_migrator (apply_then_set m.up (some m.up_revision))

  unfoldable pub handle_down : Migration → Exec db.Conn (Unit {0})
  unfolding new_migrator set_active_revision ◌>>=◌
  handle_down m = with_migrator m.down_takes_migrator (apply_then_set m.down m.down_revision)
