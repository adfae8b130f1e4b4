-- ===== src/Migrations/Revision/Effects.antt =====
-- What `handle_up` has run when it raises nothing.
use mountaineer.Base.{
  arith, ◌≡◌, inl, inr, refl, ap, ◌∙◌, Option, some, List, [], ◌∷◌, String, string_eq, nat_eq,
  option_eq, bool_eq, Bool-cases,
}
use mountaineer.Base.Exec.{Result, ok, Exec, ◌>>=◌, Result-cases}
use mountaineer.Migrations.Database.{Database, update_revision}
use mountaineer.Migrations.Migrator.{MigrationSession, set_active_revision, new_migrator}
use mountaineer.Migrations.Migrator.Sessions.{fresh}
use mountaineer.Migrations.Revision.{Migration, apply_then_set, handle_up}

module _ (db : Database) where
  open db use {Conn, Session, begin, execute, commit, close, rows}

  -- The `up` body of a migration in a new session, and the database once that session has set the
  -- revision of the migration and is committed.
  abbrev pub run_up : Migration db → Conn → Result (Unit {0}) × MigrationSession db
  run_up m c = m.up (fresh db c)

  abbrev pub after_up : Migration db → Conn → Conn
  after_up m c =
      close (commit (execute (update_revision (some m.up_revision)) (run_up m c).1.session).1).1

  -- One after the other the bodies have run, none has raised, and each has been committed.
  abbrev pub AllUp : List (Migration db) → Conn → Conn → Type 0
  AllUp [] c c' = c ≡ c'
  AllUp (m ∷ ms) c c' = ((run_up m c).0 ≡ ok tt) × AllUp ms (after_up m c) c'

  apply_then_set-ran :
      (body : Exec (MigrationSession db) (Unit {0})) (v : Option String) (s : MigrationSession db)
      → (apply_then_set db body v s).0 ≡ ok tt
      → ((body s).0 ≡ ok tt)
        × ((apply_then_set db body v s).1.session
            ≡ (execute (update_revision v) (body s).1.session).1)
  unfolding set_active_revision ◌>>=◌
  apply_then_set-ran body v s done = elim (Result-cases (body s).0) [
    | inl (_, ran) ↦ (ran, rw ran refl)
    | inr (e, raised) ↦ absurd (ground arith)
  ]

  new_migrator-ran :
      (body : Exec (MigrationSession db) (Unit {0})) (c : Conn)
      → (new_migrator db body c).0 ≡ ok tt
      → ((body (fresh db c)).0 ≡ ok tt)
        × ((new_migrator db body c).1 ≡ close (commit (body (fresh db c)).1.session).1)
  unfolding new_migrator
  new_migrator-ran body c done = elim (Result-cases (body (fresh db c)).0) [
    | inl (_, ran) ↦ (ran, rw ran refl)
    | inr (e, raised) ↦ absurd (ground arith)
  ]

  -- Its body has run without raising, and the database is what that leaves.
  pub handle_up-ran :
      (m : Migration db) (c : Conn)
      → (handle_up db m c).0 ≡ ok tt
      → ((run_up m c).0 ≡ ok tt) × ((handle_up db m c).1 ≡ after_up m c)
  unfolding handle_up
  handle_up-ran m c done = elim (Bool-cases m.up_takes_migrator) [
    | inl takes ↦
        let body = apply_then_set db m.up (some m.up_revision) in
        let finished : (new_migrator db body c).0 ≡ ok tt = rw takes at done in
        let (ran, left) = new_migrator-ran body c finished in
        let (up_ran, sent) = apply_then_set-ran m.up (some m.up_revision) (fresh db c) ran in
        rw takes (up_ran, left ∙ ap (λ s. close (commit s).1) sent)
    | inr without ↦ absurd (ground arith)
  ]
