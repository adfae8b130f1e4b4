-- ===== src/Migrations/ClientIo/Cycle.antt =====
-- Migrations whose revisions never run out.
use mathlib.Core.List.{Memᴰ}
use mountaineer.Base.{
  ℕ, zero, suc, ◌≡◌, ◌⊎◌, inl, inr, refl, Option, none, some, List, [], ◌∷◌, ◌++◌, String,
  string_eq, nat_eq, option_eq, bool_eq, Option-cases,
}
use mountaineer.Base.Exec.{err, out_of_fuel}
use mountaineer.Base.Dict.{lookup}
use mountaineer.Migrations.Database.{Database}
use mountaineer.Migrations.Revision.{Migration}
use mountaineer.Migrations.ClientIo.{migration_dict, follow, check_length, sort_migrations}
use mountaineer.Migrations.ClientIo.Order.{lookup-migration_dict, migration_dict-known}

module _ (db : Database) where
  -- From the start, and from wherever a migration leads, some migration goes on.
  abbrev pub IsEndless : List (Migration db) → Type 0
  IsEndless ms =
      (k : Option String)
      → (k ≡ none) ⊎ ((m : Migration db) × Memᴰ m ms × (k ≡ some m.up_revision))
      → (m : Migration db) × Memᴰ m ms × (m.down_revision ≡ k)

  follow-IsEndless :
      (fuel : ℕ) (ms : List (Migration db)) (k : Option String) (acc : List (Migration db))
      → IsEndless ms
      → (k ≡ none) ⊎ ((m : Migration db) × Memᴰ m ms × (k ≡ some m.up_revision))
      → follow db fuel (migration_dict db [] ms) k acc ≡ err out_of_fuel
  unfolding follow
  follow-IsEndless zero ms k acc endless at_k = refl
  follow-IsEndless (suc fuel) ms k acc endless at_k =
      elim (Option-cases (lookup k (migration_dict db [] ms))) [
        | inl missing ↦ absurd (migration_dict-known db [] ms k (inr (endless k at_k)) missing)
        | inr (m, found) ↦ elim (lookup-migration_dict db [] ms k m found) [
          | inl none_there ↦ unfold lookup in cc
          | inr (there, e) ↦
              rw (found, follow)
                (follow-IsEndless fuel ms (some m.up_revision) (acc ++ m ∷ []) endless
                  (inr (m, there, refl)))
        ]
      ]

  -- If from the start, and from wherever a migration leads, some migration goes on, then no amount
  -- of fuel is enough for `sort_migrations`.
  pub sort_migrations_diverges :
      (fuel : ℕ) (ms : List (Migration db))
      → IsEndless ms
      → sort_migrations db fuel ms ≡ err out_of_fuel
  unfolding sort_migrations check_length
  sort_migrations_diverges fuel ms endless =
      rw (follow-IsEndless fuel ms none [] endless (inl refl))
