-- ===== src/Migrations/Cli/Rollback.antt =====
-- What `handle_rollback` leaves in the database.
use mountaineer.Base.{
  ℕ, arith, ◌≡◌, inl, inr, sym, ap, subst, ◌∙◌, Option, none, some, List, [], ◌∷◌, ◌++◌, String,
  ◌==◌, string_eq, nat_eq, option_eq, bool_eq, Option-cases, CutAt, index_from-CutAt, All,
  All-suffix,
}
use mountaineer.Base.Exec.{Result, ok, ◌>>=◌}
use mountaineer.Migrations.Database.{Database, existing_rows}
use mountaineer.Migrations.Migrator.Sessions.{committed, IsIsolated, init_db_rows}
use mountaineer.Migrations.Revision.{Migration, handle_down}
use mountaineer.Migrations.Revision.Atomicity.{handle_down-Atomic}
use mountaineer.Migrations.ClientIo.{sort_migrations}
use mountaineer.Migrations.ClientIo.Chain.{IsChain, last_revision}
use mountaineer.Migrations.ClientIo.Order.{sort_migrations_sound}
use mountaineer.Migrations.Cli.{this_migration_index, roll_back_from, handle_rollback, Setup}
use mountaineer.Migrations.Cli.Apply.{start_command_lem}

module _ (db : Database) where
  open db use {Conn, Session, begin, execute, commit, close, rows}

  this_migration_index_lem :
      (k : Option String) (s : List (Migration db)) (n : ℕ)
      → this_migration_index db k s ≡ some n
      → (m : Migration db) × (some m.up_revision ≡ k) × CutAt s n m
  unfolding this_migration_index
  this_migration_index_lem k s n found =
      let (j, m, e, test, cut) =
        index_from-CutAt (λ (m : Migration db). some m.up_revision == k) 0 s n found in
      let at_n : n ≡ j = omega arith in (m, ground arith, subst (λ i. CutAt s i m) (sym at_n) cut)

  -- In a chain each migration goes up from where those before it end.
  last_revision-IsChain :
      (k : Option String) (pre post : List (Migration db)) (m : Migration db)
      → IsChain db k (pre ++ m ∷ post)
      → m.down_revision ≡ last_revision db k pre
  last_revision-IsChain k [] post m (e, c) = e
  last_revision-IsChain k (x ∷ pre) post m (e, c) =
      last_revision-IsChain (some x.up_revision) pre post m c

  -- If the migrations sort to `s`, their `down` bodies are isolated, the revision that `init_db`
  -- keeps or makes is `k`, and `handle_rollback` raises nothing, then `s` has a migration that goes
  -- up to `k`, and the active revision is now that of the migration before it in `s`, or none.
  pub handle_rollback_lem :
      (fuel : ℕ) (setup : Setup) (ms s : List (Migration db)) (c : Conn) (k : Option String)
      → sort_migrations db fuel ms ≡ ok s
      → All (λ m. IsIsolated db m.down) s
      → init_db_rows db (existing_rows (committed db c)) ≡ k ∷ []
      → (handle_rollback db fuel setup ms c).0 ≡ ok tt
      → (pre : List (Migration db)) × (m : Migration db) × (post : List (Migration db)) × (s
          ≡ pre ++ m ∷ post)
        × (some m.up_revision ≡ k)
        × (committed db (handle_rollback db fuel setup ms c).1
            ≡ some (last_revision db none pre ∷ []))
  unfolding handle_rollback
  handle_rollback_lem fuel setup ms s c k sorted iso one h =
      let (c', at_k, run) =
        start_command_lem db fuel setup ms s c k (roll_back_from db) sorted one h in
      elim (Option-cases (this_migration_index db k s)) [
        | inl missing ↦ absurd (unfold ◌>>=◌ in ground arith)
        | inr (n, found) ↦
            let (m, to_k, (pre, post, split, _, at_n)) = this_migration_index_lem k s n found in
            let same : handle_rollback db fuel setup ms c ≡ handle_down db m c' =
              run ∙ (unfold ◌>>=◌ in rw (found, at_n)) in
            let ran = ap (λ (x : Result (Unit {0}) × Conn). x.0) (sym same) ∙ h in
            let (_, chain, _) = sort_migrations_sound db fuel ms s sorted in
            let iso_m =
              (All-suffix _ pre (m ∷ post) (subst (All (λ m. IsIsolated db m.down)) split iso)).0 in
            let below =
              last_revision-IsChain none pre post m (subst (IsChain db none) split chain) in
            elim (handle_down-Atomic db m c' iso_m at_k) [
              | inl (_, there) ↦ (
                pre,
                m,
                post,
                split,
                to_k,
                ap (λ (x : Result (Unit {0}) × Conn). committed db x.1) same
                    ∙ there
                    ∙ ap (λ r. some (r ∷ [])) below,
              )
              | inr (e, lost) ↦ absurd (ground arith)
            ]
      ]
