-- ===== src/Migrations/Migrator.antt =====
-- mountaineer/migrations/migrator.py: `NoCommitAsyncSession` and `Migrator`. The methods of
-- `Migrator` are functions of its `db_session`; its `actor` is modelled in Migrations/Actions.
pub mod Sessions
use mountaineer.Base.{
  ℕ, zero, suc, ◌+◌, ◌-◌, ◌*◌, ◌≤◌, ◌<◌, ltb, leb, ltb→lt, leb→le, lt→ltb, arith, ◌≡◌, ◌≢◌, ◌↔◌,
  ◌⊎◌, inl, inr, refl, sym, ap, subst, ◌∙◌, ◌≡⟨◌⟩◌, ◌∎, ite, dite, if_pos, if_neg, Bool, true,
  false, not, ◌&&◌, ◌||◌, false≢true, Option, none, some, List, [], ◌∷◌, ◌++◌, map, String, ◌<>◌,
  Eq, ◌==◌, contains, if◌then◌else◌, string_eq, nat_eq, option_eq, bool_eq, Bool-cases,
  Option-cases, length, drop, get_elem?, all, All, All-append, length-append,
}
use mountaineer.Base.Exec.{
  Error, Result, ok, err, value_error, type_error, key_error, attribute_error, assertion_error,
  not_implemented_error, cycle_error, invalid_request_error, database_error, result_error,
  out_of_fuel, Exec, pure, raise, lift, continue, ◌>>=◌, ◌>>◌, guard, when, for_each,
}
use mountaineer.Migrations.Database.{
  Database, create_table_if_not_exists, insert_null, update_revision,
}

module _ (db : Database) where
  open db use {Conn, Session, begin, execute, commit, close, rows}

  -- `NoCommitAsyncSession`. A plain `AsyncSession` may always commit: `okay_to_commit` is true.
  pub record MigrationSession : Type 0 where
    pub okay_to_commit : Bool
    pub session : Session

  unfoldable pub on_session : {A : Type 0} → Exec Session A → Exec MigrationSession A
  on_session m s = let (r, s') = m s.session in (r, record s { session = s' })

  abbrev commit_if : Bool → Exec MigrationSession (Unit {0})
  commit_if true = on_session commit
  commit_if false = raise invalid_request_error

  -- `NoCommitAsyncSession.commit`
  unfoldable pub session_commit : Exec MigrationSession (Unit {0})
  unfolding on_session
  session_commit s = commit_if s.okay_to_commit s

  -- `scalar_one` of the `COUNT(*)` and of the `SELECT`, which fail without the table.
  unfoldable pub count_rows : Option (List (Option String)) → Result ℕ
  count_rows none = err database_error
  count_rows (some l) = ok (length l)

  unfoldable pub scalar_one : Option (List (Option String)) → Result (Option String)
  scalar_one none = err database_error
  scalar_one (some []) = err result_error
  scalar_one (some (r ∷ [])) = ok r
  scalar_one (some (r ∷ r' ∷ l)) = err result_error

  abbrev row_count : Exec MigrationSession ℕ
  row_count s = (count_rows (rows s.session), s)

  -- `Migrator.init_db`
  unfoldable pub init_db : Exec MigrationSession (Unit {0})
  unfolding ◌>>=◌ on_session session_commit count_rows
  init_db = do
    on_session (execute create_table_if_not_exists)
    count ← row_count
    when (count == 0) (on_session (execute insert_null))
    session_commit

  -- `Migrator.set_active_revision`
  unfoldable pub set_active_revision : Option String → Exec MigrationSession (Unit {0})
  unfolding on_session
  set_active_revision value = on_session (execute (update_revision value))

  -- `Migrator.get_active_revision`
  unfoldable pub get_active_revision : Exec MigrationSession (Option String)
  unfolding scalar_one
  get_active_revision s = (scalar_one (rows s.session), s)

  -- What follows the `yield` of `new_migrator`: an exception of the body skips it, and leaving
  -- `async with sessionmaker()` closes the session in either case.
  abbrev finish : Result (Unit {0}) → MigrationSession → Result (Unit {0}) × Conn
  finish (err e) s = (err e, close s.session)
  finish (ok _) s =
      let (r, s') = session_commit (record s { okay_to_commit = true }) in (r, close s'.session)

  -- `Migrator.new_migrator` around the body of an `async with`
  unfoldable pub new_migrator : Exec MigrationSession (Unit {0}) → Exec Conn (Unit {0})
  unfolding session_commit
  new_migrator body c =
      let (r, s) = body (record { okay_to_commit = false; session = begin c }) in finish r s

  -- `get_db_session` around the part of a command that uses its session, which may commit; what
  -- was not committed is rolled back when it is closed.
  unfoldable pub with_db_session : {A : Type 0} → Exec MigrationSession A → Exec Conn A
  with_db_session body c =
      let (r, s) = body (record { okay_to_commit = true; session = begin c }) in
      (r, close s.session)
