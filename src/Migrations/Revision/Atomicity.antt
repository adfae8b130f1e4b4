-- ===== src/Migrations/Revision/Atomicity.antt =====
-- `handle_up` and `handle_down` as transactions.
use mountaineer.Base.{
  arith, ◌≡◌, ◌⊎◌, inl, inr, refl, ◌∙◌, Option, some, [], ◌∷◌, String, string_eq, nat_eq, option_eq,
  bool_eq, Bool-cases,
}
use mountaineer.Base.Exec.{Error, Result, ok, err, value_error, Exec, ◌>>=◌, Result-cases}
use mountaineer.Migrations.Database.{Database, update_revision}
use mountaineer.Migrations.Migrator.{MigrationSession, set_active_revision, new_migrator}
use mountaineer.Migrations.Migrator.Sessions.{committed, fresh, IsIsolated, new_migrator_atomic}
use mountaineer.Migrations.Revision.{Migration, apply_then_set, handle_up, handle_down}

module _ (db : Database) where
  open db use {Conn, Session, begin, execute, commit, close, rows}

  -- The outcome of a migration at `c` that is to set the active revision to `v`.
  abbrev pub Atomic : Conn → Option String → Result (Unit {0}) × Conn → Type 0
  Atomic c v r =
      ((r.0 ≡ ok tt) × (committed db r.1 ≡ some (v ∷ []))) ⊎ ((e : Error) × (r ≡ (err e, c)))

  apply_then_set_transaction :
      (body : Exec (MigrationSession db) (Unit {0})) (v : Option String) (s : MigrationSession db)
      → IsIsolated db body
      → close (apply_then_set db body v s).1.session ≡ close s.session
  unfolding set_active_revision ◌>>=◌
  apply_then_set_transaction body v s iso =
      ground
        (arith, iso.keeps_transaction s, db.close_execute (update_revision v) (body s).1.session)

  apply_then_set_rows :
      (body : Exec (MigrationSession db) (Unit {0})) (v : Option String) (s : MigrationSession db)
      {r : Option String}
      → IsIsolated db body
      → rows s.session ≡ some (r ∷ [])
      → (apply_then_set db body v s).0 ≡ ok tt
      → rows (apply_then_set db body v s).1.session ≡ some (v ∷ [])
  unfolding set_active_revision ◌>>=◌
  apply_then_set_rows body v s {r} iso one done = elim (Result-cases (body s).0) [
    | inr (e, raised) ↦ absurd (ground arith)
    | inl (_, ran) ↦
        ground (arith, iso.keeps_rows s, db.execute_update (body s).1.session v (r ∷ []))
  ]

  new_migrator-Atomic :
      (body : Exec (MigrationSession db) (Unit {0})) (v : Option String) (c : Conn)
      {r : Option String}
      → IsIsolated db body
      → committed db c ≡ some (r ∷ [])
      → Atomic c v (new_migrator db (apply_then_set db body v) c)
  new_migrator-Atomic body v c iso one =
      let kept = apply_then_set_transaction body v (fresh db c) iso ∙ db.close_begin c in
      elim (new_migrator_atomic db (apply_then_set db body v) c kept) [
        | inl (done, ran, sent) ↦
            inl (done, sent ∙ apply_then_set_rows body v (fresh db c) iso one ran)
        | inr lost ↦ inr lost
      ]

  -- If the `up` body is isolated and `migration_info` has one row, `handle_up` either raises
  -- nothing and its revision is the active one, or it raises and the database is as before.
  pub handle_up-Atomic :
      (m : Migration db) (c : Conn) {r : Option String}
      → IsIsolated db m.up
      → committed db c ≡ some (r ∷ [])
      → Atomic c (some m.up_revision) (handle_up db m c)
  unfolding handle_up
  handle_up-Atomic m c iso one = elim (Bool-cases m.up_takes_migrator) [
    | inl takes ↦ rw takes (new_migrator-Atomic m.up (some m.up_revision) c iso one)
    | inr without ↦ rw without (inr (value_error, refl))
  ]

  -- If the `down` body is isolated and `migration_info` has one row, `handle_down` either raises
  -- nothing and the revision below is the active one, or it raises and the database is as before.
  pub handle_down-Atomic :
      (m : Migration db) (c : Conn) {r : Option String}
      → IsIsolated db m.down
      → committed db c ≡ some (r ∷ [])
      → Atomic c m.down_revision (handle_down db m c)
  unfolding handle_down
  handle_down-Atomic m c iso one = elim (Bool-cases m.down_takes_migrator) [
    | inl takes ↦ rw takes (new_migrator-Atomic m.down m.down_revision c iso one)
    | inr without ↦ rw without (inr (value_error, refl))
  ]
