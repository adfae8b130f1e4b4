-- ===== src/Migrations/Cli/Apply.antt =====
-- What `handle_apply` leaves in the database.
use mathlib.Core.List.{append-nil}
use mountaineer.Base.{
  ℕ, arith, ◌≡◌, inl, inr, refl, sym, ap, subst, ◌∙◌, true, Option, none, some, List, [], ◌∷◌, ◌++◌,
  String, ◌==◌, string_eq, nat_eq, option_eq, bool_eq, Option-cases, CutAt, index_from-CutAt, All,
  All-suffix,
}
use mountaineer.Base.Exec.{
  Result, ok, Exec, continue, ◌>>=◌, for_each, ok-injective, Result-cases, >>=-eq-ok,
}
use mountaineer.Migrations.Database.{Database, existing_rows}
use mountaineer.Migrations.Migrator.{
  MigrationSession, init_db, get_active_revision, with_db_session, scalar_one,
}
use mountaineer.Migrations.Migrator.Sessions.{committed, IsIsolated, init_db_rows, init_db_lem}
use mountaineer.Migrations.Revision.{Migration, handle_up}
use mountaineer.Migrations.Revision.Atomicity.{handle_up-Atomic}
use mountaineer.Migrations.Revision.Effects.{AllUp, handle_up-ran}
use mountaineer.Migrations.ClientIo.{sort_migrations}
use mountaineer.Migrations.ClientIo.Chain.{last_revision}
use mountaineer.Migrations.Cli.{
  read_current_revision, apply_chain, next_migration_index, handle_apply,
}
use mountaineer.Migrations.Cli.{start_command, Setup, check_setup}
use mountaineer.Migrations.Cli.{apply_from}

module _ (db : Database) where
  open db use {Conn, Session, begin, execute, commit, close, rows}

  -- Some first part of the chain has been applied, all of it if no error is raised: its bodies are
  -- what the database has seen, and the active revision is where that part ends.
  abbrev pub AppliedPart :
      Option String → List (Migration db) → Conn → Result (Unit {0}) × Conn → Type 0
  AppliedPart k chain c r =
      (done rest : List (Migration db)) × (chain ≡ done ++ rest)
      × AllUp db done c r.1
      × (committed db r.1 ≡ some (last_revision db k done ∷ []))
      × (r.0 ≡ ok tt → rest ≡ [])

  -- If every `up` body is isolated and the active revision is `k`, `apply_chain` applies a first
  -- part of the chain, and the whole of it if it raises nothing. Whatever it raises, the database is
  -- then what the `up` bodies of that part leave when each runs in a session of its own, which then
  -- sets its revision, on what the one before it has committed, and the active revision is the last
  -- one of that part, or `k` if it is empty.
  pub apply_chain-AppliedPart :
      (k : Option String) (chain : List (Migration db)) (c : Conn)
      → All (λ m. IsIsolated db m.up) chain
      → committed db c ≡ some (k ∷ [])
      → AppliedPart k chain c (apply_chain db chain c)
  unfolding apply_chain for_each
  apply_chain-AppliedPart k [] c iso at_k = ([], [], refl, refl, at_k, λ _. refl)
  apply_chain-AppliedPart k (m ∷ ms) c (iso, isos) at_k = elim (handle_up-Atomic db m c iso at_k) [
    | inl (ran, at_m) ↦
        let (body_ran, left) = handle_up-ran db m c ran in
        let (done, rest, split, all_up, there, finished) =
          apply_chain-AppliedPart (some m.up_revision) ms (handle_up db m c).1 isos at_m in
        rw (ran, continue)
          (
            m ∷ done,
            rest,
            ap (◌∷◌ m) split,
            (
              body_ran,
              subst (λ c'. AllUp db done c' (apply_chain db ms (handle_up db m c).1).1) left all_up,
            ),
            there,
            finished,
          )
    | inr (e, lost) ↦ rw lost ([], m ∷ ms, refl, refl, at_k, λ h. ground arith)
  ]

  -- The active revision is read from a table that `init_db` has made sure of.
  pub read_current_revision_lem :
      (c : Conn) (k r : Option String)
      → init_db_rows db (existing_rows (committed db c)) ≡ k ∷ []
      → (read_current_revision db c).0 ≡ ok r
      → (r ≡ k) × (committed db (read_current_revision db c).1 ≡ some (k ∷ []))
  unfolding read_current_revision with_db_session get_active_revision scalar_one
  read_current_revision_lem c k r one h =
      let s : MigrationSession db = record { okay_to_commit = true; session = begin c } in
      let (_, ran, next) = >>=-eq-ok (init_db db) (λ _. get_active_revision db) s r h in
      let (there, sent) = init_db_lem db s refl ran in
      let same = there ∙ ap some one in
      let reply = λ (x : Result (Option String) × MigrationSession db). x.0 in
      let after =
        λ (x : Result (Option String) × MigrationSession db). committed db (close x.1.session) in
      (
        ok-injective (sym h ∙ ap reply next ∙ ap (scalar_one db) same),
        ap after next ∙ sent ∙ ap some one,
      )

  pub check_setup_state : (setup : Setup) (c : Conn) → (check_setup db setup c).1 ≡ c
  unfolding check_setup ◌>>=◌
  check_setup_state setup c = ground arith

  pub last_revision-append :
      (k j : Option String) (pre post : List (Migration db)) (m : Migration db)
      → last_revision db k (pre ++ m ∷ post) ≡ last_revision db j (m ∷ post)
  last_revision-append k j [] post m = refl
  last_revision-append k j (x ∷ pre) post m = last_revision-append (some x.up_revision) j pre post m

  -- A command that does not raise goes on with the sorted migrations and the active revision.
  pub start_command_lem :
      (fuel : ℕ) (setup : Setup) (ms s : List (Migration db)) (c : Conn) (k : Option String)
      (go_on : List (Migration db) → Option String → Exec Conn (Unit {0}))
      → sort_migrations db fuel ms ≡ ok s
      → init_db_rows db (existing_rows (committed db c)) ≡ k ∷ []
      → (start_command db fuel setup ms go_on c).0 ≡ ok tt
      → (c' : Conn) × (committed db c' ≡ some (k ∷ []))
        × (start_command db fuel setup ms go_on c ≡ go_on s k c')
  unfolding start_command ◌>>=◌
  start_command_lem fuel setup ms s c k go_on sorted one h =
      elim (Result-cases (check_setup db setup c).0) [
        | inl (_, e1) ↦ elim (Result-cases (read_current_revision db c).0) [
          | inl (r, e2) ↦
              let (same, at_k) = read_current_revision_lem c k r one e2 in
              ((read_current_revision db c).1, at_k, ground (arith, check_setup_state setup c))
          | inr (e, e2) ↦ absurd (ground (arith, check_setup_state setup c))
        ]
        | inr (e, e1) ↦ absurd (ground arith)
      ]

  -- The search finds the first migration that goes up from the active revision.
  pub next_migration_index_lem :
      (k : Option String) (s : List (Migration db)) (n : ℕ)
      → next_migration_index db k s ≡ some n
      → (m : Migration db) × (m.down_revision ≡ k) × CutAt s n m
  unfolding next_migration_index
  next_migration_index_lem k s n found =
      let (j, m, e, test, cut) =
        index_from-CutAt (λ (m : Migration db). m.down_revision == k) 0 s n found in
      let at_n : n ≡ j = omega arith in (m, ground arith, subst (λ i. CutAt s i m) (sym at_n) cut)

  -- The whole chain that starts at `m` has been applied.
  apply_chain-done :
      (k : Option String) (m : Migration db) (post : List (Migration db)) (c : Conn)
      → All (λ m. IsIsolated db m.up) (m ∷ post)
      → committed db c ≡ some (k ∷ [])
      → (apply_chain db (m ∷ post) c).0 ≡ ok tt
      → committed db (apply_chain db (m ∷ post) c).1 ≡ some (last_revision db k (m ∷ post) ∷ [])
  apply_chain-done k m post c iso at_k ran =
      let (done, rest, split, _, there, finished) =
        apply_chain-AppliedPart k (m ∷ post) c iso at_k in
      let whole : done ≡ m ∷ post =
        sym (append-nil done) ∙ ap (λ r. done ++ r) (sym (finished ran)) ∙ sym split in
      subst (λ d. committed db (apply_chain db (m ∷ post) c).1 ≡ some (last_revision db k d ∷ []))
        whole there

  -- If the migrations sort to `s`, their `up` bodies are isolated, the revision that `init_db`
  -- keeps or makes is `k`, and `handle_apply` raises nothing, then it leaves the last revision of
  -- `s` active, and some migration of `s` goes up from `k`.
  pub handle_apply_lem :
      (fuel : ℕ) (setup : Setup) (ms s : List (Migration db)) (c : Conn) (k : Option String)
      → sort_migrations db fuel ms ≡ ok s
      → All (λ m. IsIsolated db m.up) s
      → init_db_rows db (existing_rows (committed db c)) ≡ k ∷ []
      → (handle_apply db fuel setup ms c).0 ≡ ok tt
      → (committed db (handle_apply db fuel setup ms c).1 ≡ some (last_revision db none s ∷ []))
        × (pre : List (Migration db)) × (m : Migration db) × (post : List (Migration db)) × (s
            ≡ pre ++ m ∷ post)
        × (m.down_revision ≡ k)
  unfolding handle_apply
  handle_apply_lem fuel setup ms s c k sorted iso one h =
      let (c', at_k, run) = start_command_lem fuel setup ms s c k (apply_from db) sorted one h in
      elim (Option-cases (next_migration_index db k s)) [
        | inl missing ↦ absurd (unfold ◌>>=◌ in ground arith)
        | inr (n, found) ↦
            let (m, from_k, (pre, post, split, cut, _)) = next_migration_index_lem k s n found in
            let same : handle_apply db fuel setup ms c ≡ apply_chain db (m ∷ post) c' =
              run ∙ (unfold ◌>>=◌ in rw (found, cut)) in
            let ran = ap (λ (x : Result (Unit {0}) × Conn). x.0) (sym same) ∙ h in
            let isos =
              All-suffix _ pre (m ∷ post) (subst (All (λ m. IsIsolated db m.up)) split iso) in
            (
              ap (λ (x : Result (Unit {0}) × Conn). committed db x.1) same
                  ∙ apply_chain-done k m post c' isos at_k ran
                  ∙ ap (λ r. some (r ∷ []))
                      (sym (last_revision-append none k pre post m)
                        ∙ ap (last_revision db none) (sym split)),
              pre,
              m,
              post,
              split,
              from_k,
            )
      ]
