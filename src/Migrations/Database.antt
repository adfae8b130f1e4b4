-- ===== src/Migrations/Database.antt =====
-- The database server and SQLAlchemy's sessions, which are not code of this repository: what the
-- migrations use of them, with the documented behaviour that they rely on.
use mountaineer.Base.{
  ◌≡◌, Option, none, some, List, [], ◌∷◌, ◌++◌, map, String, string_eq, nat_eq, option_eq, bool_eq,
}
use mountaineer.Base.Exec.{Error, ok, err, Exec}

-- The statements that migrations/migrator.py sends; `SELECT` is `rows`.
pub data Statement : Type 0 where
  create_table_if_not_exists insert_null : Statement
  update_revision : Option String → Statement

abbrev pub existing_rows : Option (List (Option String)) → List (Option String)
existing_rows none = []
existing_rows (some l) = l

pub record Database : Type 1 where
  -- What is committed on the server, and an open session with its transaction.
  pub Conn : Type 0
  pub Session : Type 0
  pub begin : Conn → Session
  pub execute : Statement → Exec Session (Unit {0})
  pub commit : Exec Session (Unit {0})
  -- Ends a session; what it has not committed is rolled back.
  pub close : Session → Conn
  -- The column `active_revision` of the table `migration_info`, if the table exists.
  pub rows : Session → Option (List (Option String))
  -- A statement that is not refused has its effect; any may be refused.
  pub execute_create :
      (s : Session)
      → (execute create_table_if_not_exists s).0 ≡ ok tt
      → rows (execute create_table_if_not_exists s).1 ≡ some (existing_rows (rows s))
  pub execute_insert :
      (s : Session) (l : List (Option String))
      → rows s ≡ some l
      → (execute insert_null s).0 ≡ ok tt
      → rows (execute insert_null s).1 ≡ some (l ++ none ∷ [])
  pub execute_update :
      (s : Session) (v : Option String) (l : List (Option String))
      → rows s ≡ some l
      → (execute (update_revision v) s).0 ≡ ok tt
      → rows (execute (update_revision v) s).1 ≡ some (map (λ _. v) l)
  -- A statement stays in its transaction.
  pub close_execute : (q : Statement) (s : Session) → close (execute q s).1 ≡ close s
  pub rows_committed :
      (s : Session) → (commit s).0 ≡ ok tt → rows (begin (close (commit s).1)) ≡ rows s
  pub rows_commit : (s : Session) → (commit s).0 ≡ ok tt → rows (commit s).1 ≡ rows s
  pub close_failed : (s : Session) (e : Error) → (commit s).0 ≡ err e → close (commit s).1 ≡ close s
  pub close_begin : (c : Conn) → close (begin c) ≡ c
