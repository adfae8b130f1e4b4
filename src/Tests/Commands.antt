-- ===== src/Tests/Commands.antt =====
-- The two commands, over the database in memory.
use mountaineer.Base.{
  ℕ, zero, suc, ◌+◌, ◌-◌, ◌*◌, ◌≤◌, ◌<◌, ltb, leb, ltb→lt, leb→le, lt→ltb, arith, ◌≡◌, ◌≢◌, ◌↔◌,
  ◌⊎◌, inl, inr, refl, sym, ap, subst, ◌∙◌, ◌≡⟨◌⟩◌, ◌∎, ite, dite, if_pos, if_neg, Bool, true,
  false, not, ◌&&◌, ◌||◌, false≢true, Option, none, some, List, [], ◌∷◌, ◌++◌, map, String, ◌<>◌,
  Eq, ◌==◌, ==-true, ==-false, contains, if◌then◌else◌, string_eq, nat_eq, option_eq, bool_eq,
  Bool-cases, Option-cases, length, drop, get_elem?, index_from, CutAt, index_from-CutAt, all, All,
  All-append, All-suffix, all-append, length-append,
}
use mountaineer.Base.Exec.{ok, ◌>>=◌, for_each}
use mountaineer.Migrations.Migrator.{
  init_db, new_migrator, set_active_revision, get_active_revision, with_db_session,
}
use mountaineer.Migrations.Migrator.Sessions.{committed, init_db_rows}
use mountaineer.Migrations.Revision.{Migration, handle_up, handle_down}
use mountaineer.Migrations.ClientIo.{sort_migrations}
use mountaineer.Migrations.ClientIo.Chain.{last_revision}
use mountaineer.Migrations.Cli.{
  Setup, start_command, check_setup, read_current_revision, next_migration_index,
  this_migration_index, apply_chain, handle_apply, handle_rollback,
}
use mountaineer.Migrations.Cli.Apply.{AppliedPart, apply_chain-AppliedPart, handle_apply_lem}
use mountaineer.Migrations.Cli.Rollback.{handle_rollback_lem}
use mountaineer.Tests.Memory.{memory, Table}
use mountaineer.Tests.Revisions.{first, second, sorts, quiet-IsIsolated}

abbrev setup : Setup
setup = record { package_name = some "app"; path_exists = ok true }

-- Below the second migration.
abbrev before : Table
before = some (some "1" ∷ [])

applied : (handle_apply memory 3 setup (second ∷ first ∷ []) before).0 ≡ ok tt
unfolding handle_apply start_command check_setup sort_migrations read_current_revision
    next_migration_index index_from apply_chain for_each handle_up with_db_session init_db
    get_active_revision new_migrator set_active_revision ◌>>=◌ option_eq string_eq nat_eq
    mountaineer.Base.Dict.lookup mountaineer.Base.Dict.insert
applied = refl

rolled_back : (handle_rollback memory 3 setup (second ∷ first ∷ []) before).0 ≡ ok tt
unfolding handle_rollback start_command check_setup sort_migrations read_current_revision
    this_migration_index index_from handle_down with_db_session init_db get_active_revision
    new_migrator set_active_revision ◌>>=◌ option_eq string_eq nat_eq mountaineer.Base.Dict.lookup
    mountaineer.Base.Dict.insert
rolled_back = refl

one_row : init_db_rows memory (some "1" ∷ []) ≡ some "1" ∷ []
unfolding init_db_rows
one_row = refl

apply_chain-AppliedPart_example :
    AppliedPart memory none
      (first ∷ second ∷ [])
      (some (none ∷ []))
      (apply_chain memory (first ∷ second ∷ []) (some (none ∷ [])))
apply_chain-AppliedPart_example =
    apply_chain-AppliedPart memory none (first ∷ second ∷ []) (some (none ∷ []))
      (quiet-IsIsolated, (quiet-IsIsolated, tt)) refl

handle_apply_lem_example :
    (committed memory (handle_apply memory 3 setup (second ∷ first ∷ []) before).1
      ≡ some (last_revision memory none (first ∷ second ∷ []) ∷ []))
    × (pre : List (Migration memory)) × (m : Migration memory) × (post : List (Migration memory))
    × (first ∷ second ∷ [] ≡ pre ++ m ∷ post)
    × (m.down_revision ≡ some "1")
handle_apply_lem_example =
    handle_apply_lem memory 3 setup (second ∷ first ∷ []) (first ∷ second ∷ []) before (some "1")
      sorts (quiet-IsIsolated, (quiet-IsIsolated, tt)) one_row applied

handle_rollback_lem_example :
    (pre : List (Migration memory)) × (m : Migration memory) × (post : List (Migration memory))
    × (first ∷ second ∷ [] ≡ pre ++ m ∷ post)
    × (some m.up_revision ≡ some "1")
    × (committed memory (handle_rollback memory 3 setup (second ∷ first ∷ []) before).1
        ≡ some (last_revision memory none pre ∷ []))
handle_rollback_lem_example =
    handle_rollback_lem memory 3 setup (second ∷ first ∷ []) (first ∷ second ∷ []) before (some "1")
      sorts (quiet-IsIsolated, (quiet-IsIsolated, tt)) one_row rolled_back
