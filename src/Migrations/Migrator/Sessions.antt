-- ===== src/Migrations/Migrator/Sessions.antt =====
-- What `init_db` and a migration's transaction do to `migration_info`.
use mountaineer.Base.{
  arith, ◌≡◌, ◌⊎◌, inl, inr, refl, ap, ◌∙◌, true, false, Option, none, some, List, [], ◌∷◌, String,
  string_eq, nat_eq, option_eq, bool_eq,
}
use mountaineer.Base.Exec.{Error, ok, err, invalid_request_error, Exec, Result-cases}
use mountaineer.Migrations.Database.{
  Database, create_table_if_not_exists, insert_null, existing_rows,
}
use mountaineer.Migrations.Migrator.{MigrationSession, session_commit, init_db, new_migrator}

module _ (db : Database) where
  open db use {Conn, Session, begin, execute, commit, close, rows}

  -- What a new session reads of `migration_info`.
  abbrev pub committed : Conn → Option (List (Option String))
  committed c = rows (begin c)

  -- User code in a migration can neither end its transaction nor touch `migration_info`.
  pub record IsIsolated (body : Exec (MigrationSession db) (Unit {0})) : Type 0 where
    pub keeps_transaction : (s : MigrationSession db) → close (body s).1.session ≡ close s.session
    pub keeps_rows : (s : MigrationSession db) → rows (body s).1.session ≡ rows s.session

  -- The session that `new_migrator` opens.
  abbrev pub fresh : Conn → MigrationSession db
  fresh c = record { okay_to_commit = false; session = begin c }

  pub session_commit_disabled :
      (s : MigrationSession db)
      → s.okay_to_commit ≡ false
      → session_commit db s ≡ (err invalid_request_error, s)
  unfolding session_commit
  session_commit_disabled s h = ground arith

  pub new_migrator_raised :
      (body : Exec (MigrationSession db) (Unit {0})) (c : Conn) (e : Error)
      → (body (fresh c)).0 ≡ err e
      → new_migrator db body c ≡ (err e, close (body (fresh c)).1.session)
  unfolding new_migrator
  new_migrator_raised body c e raised = rw raised

  pub new_migrator_done :
      (body : Exec (MigrationSession db) (Unit {0})) (c : Conn)
      → (body (fresh c)).0 ≡ ok tt
      → new_migrator db body c
        ≡ ((commit (body (fresh c)).1.session).0, close (commit (body (fresh c)).1.session).1)
  unfolding new_migrator
  new_migrator_done body c done = rw done

  -- If the body of `new_migrator` commits nothing by itself, either all that it did is committed,
  -- or an error is raised and the database is as before.
  pub new_migrator_atomic :
      (body : Exec (MigrationSession db) (Unit {0})) (c : Conn)
      → close (body (fresh c)).1.session ≡ c
      → ((new_migrator db body c).0 ≡ ok tt)
          × ((body (fresh c)).0 ≡ ok tt)
          × (committed (new_migrator db body c).1 ≡ rows (body (fresh c)).1.session)
        ⊎ ((e : Error) × (new_migrator db body c ≡ (err e, c)))
  new_migrator_atomic body c kept = elim (Result-cases (body (fresh c)).0) [
    | inl (_, done) ↦ elim (Result-cases (commit (body (fresh c)).1.session).0) [
      | inl (_, sent) ↦
          rw (new_migrator_done body c done) (inl (sent, done, db.rows_committed _ sent))
      | inr (e, lost) ↦
          rw (new_migrator_done body c done)
            (inr (e, ground (arith, db.close_failed (body (fresh c)).1.session e)))
    ]
    | inr (e, raised) ↦ rw (new_migrator_raised body c e raised) (inr (e, ground arith))
  ]

  -- What `init_db` makes of the rows that it finds.
  unfoldable pub init_db_rows : List (Option String) → List (Option String)
  init_db_rows [] = none ∷ []
  init_db_rows (r ∷ l) = r ∷ l

  -- The session of `init_db` before its commit.
  abbrev pub prepared : Session → Session
  prepared s = elim (existing_rows (rows s)) [
    | [] ↦ (execute insert_null (execute create_table_if_not_exists s).1).1
    | _ ∷ _ ↦ (execute create_table_if_not_exists s).1
  ]

  List-cases :
      (l : List (Option String))
      → (l ≡ []) ⊎ ((r : Option String) × (rest : List (Option String)) × (l ≡ r ∷ rest))
  List-cases [] = inl refl
  List-cases (r ∷ rest) = inr (r, rest, refl)

  -- An `init_db` that raises nothing has had no statement refused.
  init_db-prepared :
      (s : MigrationSession db)
      → s.okay_to_commit ≡ true
      → (init_db db s).0 ≡ ok tt
      → (init_db db s ≡ (
        (commit (prepared s.session)).0,
        record s { session = (commit (prepared s.session)).1 },
      ))
        × (rows (prepared s.session) ≡ some (init_db_rows (existing_rows (rows s.session))))
  unfolding init_db init_db_rows nat_eq
  init_db-prepared s may done =
      elim (Result-cases (execute create_table_if_not_exists s.session).0) [
        | inr (e, refused) ↦ absurd (ground arith)
        | inl (_, created) ↦
            let there = db.execute_create s.session created in
            let s' = (execute create_table_if_not_exists s.session).1 in
            elim (List-cases (existing_rows (rows s.session))) [
              | inr (r, rest, found) ↦ (ground arith, ground arith)
              | inl empty ↦
                  let none_there : rows s' ≡ some [] = there ∙ ap some empty in
                  elim (Result-cases (execute insert_null s').0) [
                    | inr (e, refused) ↦ absurd (ground arith)
                    | inl (_, added) ↦
                        let one = db.execute_insert s' [] none_there added in
                        (ground arith, ground arith)
                  ]
            ]
      ]

  -- An `init_db` that may commit and raises nothing leaves the rows that there were, or the one
  -- row with no revision if there were none, both for its session and committed.
  pub init_db_lem :
      (s : MigrationSession db)
      → s.okay_to_commit ≡ true
      → (init_db db s).0 ≡ ok tt
      → (rows (init_db db s).1.session ≡ some (init_db_rows (existing_rows (rows s.session))))
        × (committed (close (init_db db s).1.session)
            ≡ some (init_db_rows (existing_rows (rows s.session))))
  init_db_lem s may done =
      let (same, rows_there) = init_db-prepared s may done in
      let sent : (commit (prepared s.session)).0 ≡ ok tt = rw same at done in
      rw same (db.rows_commit _ sent ∙ rows_there, db.rows_committed _ sent ∙ rows_there)
