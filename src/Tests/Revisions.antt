-- ===== src/Tests/Revisions.antt =====
-- Sessions, revisions and their order, over the database in memory.
use mathlib.Core.List.{Memᴰ, Perm, Permᴰ, Nodup}
use mountaineer.Base.{
  ℕ, zero, suc, ◌+◌, ◌-◌, ◌*◌, ◌≤◌, ◌<◌, ltb, leb, ltb→lt, leb→le, lt→ltb, arith, ◌≡◌, ◌≢◌, ◌↔◌,
  ◌⊎◌, inl, inr, refl, sym, ap, subst, ◌∙◌, ◌≡⟨◌⟩◌, ◌∎, ite, dite, if_pos, if_neg, Bool, true,
  false, not, ◌&&◌, ◌||◌, false≢true, Option, none, some, List, [], ◌∷◌, ◌++◌, map, String, ◌<>◌,
  Eq, ◌==◌, ==-true, ==-false, contains, if◌then◌else◌, string_eq, nat_eq, option_eq, bool_eq,
  Bool-cases, Option-cases, length, drop, get_elem?, index_from, CutAt, index_from-CutAt, all, All,
  All-append, All-suffix, all-append, length-append,
}
use mountaineer.Base.Exec.{ok, err, out_of_fuel, Exec}
use mountaineer.Migrations.Migrator.{MigrationSession, init_db}
use mountaineer.Migrations.Migrator.Sessions.{committed, IsIsolated, init_db_rows, init_db_lem}
use mountaineer.Migrations.Revision.{Migration, handle_up, handle_down}
use mountaineer.Migrations.Revision.Atomicity.{Atomic, handle_up-Atomic, handle_down-Atomic}
use mountaineer.Migrations.ClientIo.{sort_migrations}
use mountaineer.Migrations.ClientIo.Walk.{visited}
use mountaineer.Migrations.ClientIo.Chain.{IsChain}
use mountaineer.Migrations.ClientIo.Order.{sort_migrations_sound, sort_migrations_complete}
use mountaineer.Migrations.ClientIo.Cycle.{IsEndless, sort_migrations_diverges}
use mountaineer.Tests.Memory.{memory}

abbrev pub quiet : Exec (MigrationSession memory) (Unit {0})
quiet s = (ok tt, s)

abbrev pub revision : Option String → String → Migration memory
revision below above = record {
  up_revision = above;
  down_revision = below;
  up = quiet;
  down = quiet;
  up_takes_migrator = true;
  down_takes_migrator = true;
}

pub quiet-IsIsolated : IsIsolated memory quiet
quiet-IsIsolated = record { keeps_transaction = λ s. refl; keeps_rows = λ s. refl }

abbrev pub first : Migration memory
first = revision none "1"

abbrev pub second : Migration memory
second = revision (some "1") "2"

init_db_lem_example :
    (memory.rows
        (init_db memory (record { okay_to_commit = true; session = (none, none) })).1.session
      ≡ some (none ∷ []))
    × (committed memory (
          memory.close
            (init_db memory (record { okay_to_commit = true; session = (none, none) })).1.session)
        ≡ some (none ∷ []))
unfolding init_db init_db_rows nat_eq
init_db_lem_example =
    init_db_lem memory (record { okay_to_commit = true; session = (none, none) }) refl refl

handle_up-Atomic_example :
    Atomic memory (some (none ∷ [])) (some "1") (handle_up memory first (some (none ∷ [])))
handle_up-Atomic_example = handle_up-Atomic memory first (some (none ∷ [])) quiet-IsIsolated refl

handle_down-Atomic_example :
    Atomic memory (some (some "1" ∷ [])) none (handle_down memory first (some (some "1" ∷ [])))
handle_down-Atomic_example =
    handle_down-Atomic memory first (some (some "1" ∷ [])) quiet-IsIsolated refl

pub sorts : sort_migrations memory 3 (second ∷ first ∷ []) ≡ ok (first ∷ second ∷ [])
unfolding sort_migrations option_eq string_eq nat_eq mountaineer.Base.Dict.lookup
    mountaineer.Base.Dict.insert
sorts = refl

sort_migrations_sound_example :
    Perm (first ∷ second ∷ []) (second ∷ first ∷ [])
    × IsChain memory none (first ∷ second ∷ [])
    × Nodup (visited memory none (first ∷ second ∷ []))
sort_migrations_sound_example =
    sort_migrations_sound memory 3 (second ∷ first ∷ []) (first ∷ second ∷ []) sorts

sort_migrations_complete_example :
    sort_migrations memory 3 (second ∷ first ∷ []) ≡ ok (first ∷ second ∷ [])
sort_migrations_complete_example =
    sort_migrations_complete memory 3 (second ∷ first ∷ []) (first ∷ second ∷ []) (omega arith)
      (Permᴰ.swap refl refl) (refl, (refl, tt)) sort_migrations_sound_example.2

-- The second one goes up to where it came from.
abbrev loop : List (Migration memory)
loop = first ∷ revision (some "1") "1" ∷ []

loop-IsEndless : IsEndless memory loop
loop-IsEndless k (inl e) = (first, Memᴰ.head refl, sym e)
loop-IsEndless k (inr (m, Memᴰ.head here, e)) = (
  revision (some "1") "1",
  Memᴰ.tail (Memᴰ.head refl),
  sym (e ∙ ap (λ r. some r.up_revision) here),
)
loop-IsEndless k (inr (m, Memᴰ.tail (Memᴰ.head here), e)) = (
  revision (some "1") "1",
  Memᴰ.tail (Memᴰ.head refl),
  sym (e ∙ ap (λ r. some r.up_revision) here),
)
loop-IsEndless k (inr (m, Memᴰ.tail (Memᴰ.tail w), e)) = elim w [ ]

sort_migrations_diverges_example : sort_migrations memory 100 loop ≡ err out_of_fuel
sort_migrations_diverges_example = sort_migrations_diverges memory 100 loop loop-IsEndless
