-- ===== src/Tests/Memory.antt =====
-- A database in memory: the assumptions of Migrations/Database can be met.
use mountaineer.Base.{
  arith, ◌≡◌, refl, ap, Option, none, some, List, [], ◌∷◌, ◌++◌, map, String, string_eq, nat_eq,
  option_eq, bool_eq,
}
use mountaineer.Base.Exec.{Error, Result, ok, err, database_error, Exec}
use mathlib.Core.Option.{some-injective}
use mountaineer.Migrations.Database.{
  Database, Statement, create_table_if_not_exists, insert_null, update_revision, existing_rows,
}

abbrev pub Table : Type 0
Table = Option (List (Option String))

-- What is committed, and what the open transaction sees.
abbrev pub Session : Type 0
Session = Table × Table

abbrev pub on_table : (List (Option String) → List (Option String)) → Exec Session (Unit {0})
on_table f (c, none) = (err database_error, (c, none))
on_table f (c, some l) = (ok tt, (c, some (f l)))

abbrev pub execute : Statement → Exec Session (Unit {0})
execute create_table_if_not_exists (c, w) = (ok tt, (c, some (existing_rows w)))
execute insert_null s = on_table (λ l. l ++ none ∷ []) s
execute (update_revision v) s = on_table (map (λ _. v)) s

pub on_table_lem :
    (f : List (Option String) → List (Option String)) (s : Session) (l : List (Option String))
    → s.1 ≡ some l
    → (on_table f s).0 ≡ ok tt
    → (on_table f s).1.1 ≡ some (f l)
on_table_lem f (c, none) l h ran = absurd (ground arith)
on_table_lem f (c, some m) l h ran = ap (λ t. some (f t)) (some-injective m l h)

pub close_execute : (q : Statement) (s : Session) → (execute q s).1.0 ≡ s.0
close_execute create_table_if_not_exists s = refl
close_execute insert_null (c, none) = refl
close_execute insert_null (c, some l) = refl
close_execute (update_revision v) (c, none) = refl
close_execute (update_revision v) (c, some l) = refl

pub err_not_ok : {e : Error} → ◌≡◌ {A = Result (Unit {0})} (ok tt) (err e) → ⊥
err_not_ok h = cc

abbrev pub memory : Database
memory = record {
  Conn = Table;
  Session = Session;
  begin = λ c. (c, c);
  execute = execute;
  commit = λ s. (ok tt, (s.1, s.1));
  close = λ s. s.0;
  rows = λ s. s.1;
  execute_create = λ s ran. refl;
  execute_insert = λ s l h ran. on_table_lem (λ t. t ++ none ∷ []) s l h ran;
  execute_update = λ s v l h ran. on_table_lem (map (λ _. v)) s l h ran;
  close_execute = close_execute;
  rows_committed = λ s h. refl;
  rows_commit = λ s h. refl;
  close_failed = λ s e h. absurd (err_not_ok h);
  close_begin = λ c. refl;
}
